-- ===== src/Examples/Transfers.antt =====
-- A file of three bytes is sent, and its second chunk lost.
use cs60_final_project.Common.{
  ℕ, ◌<◌, ◌%◌, ◌≡◌, refl, true, false, some, List, [], ◌∷◌, ◌++◌, Text, Bytes, length, get_or,
  replicate, arith, text_eq,
}
use cs60_final_project.Common.Dict.{lookup}
use cs60_final_project.Chunk.{Chunk, Checksum}
use cs60_final_project.Config.{TransferConfig, FecConfig}
use cs60_final_project.Chunking.{data_chunks_of, generate_fec_chunks, create_chunks}
use cs60_final_project.Fec.{xor_loop, xor_into, xor_bytes, xor_chunks}
use Prim.Native.Nat.{bit_xor}
use cs60_final_project.Fec.Padding.{mix, get_or-xor_bytes}
use cs60_final_project.Fec.Recovery.{xor_bytes-xor_chunks}
use cs60_final_project.Layout.{
  search_blocks, infer_block_and_data_count, with_parity, infer_block_and_data_count-with_parity,
}
use cs60_final_project.Storage.{empty, or_default}
use cs60_final_project.Receiver.{
  ReceiveEngine, ReceiveState, Disk, output_path_of, create_receive_state, handle_data, new_chunk,
  record_chunk, finish_data, maybe_deliver, flush_buffer, try_fec_reconstruct, store_payload,
  send_sack, fec_fields,
}
use cs60_final_project.Receiver.Announced.{Announces, handle_data-Announces}
use cs60_final_project.Protocol.{make_data_msg}
use cs60_final_project.Transfer.{chunk_msg, use_fec, Arrival, receive_all}
use cs60_final_project.Transfer.EndToEnd.{delivered_file}
use cs60_final_project.Transfer.Lossless.{arrives, delivered_once_arrived}

abbrev three_bytes : Bytes
three_bytes = 1 ∷ 2 ∷ 3 ∷ []

abbrev bundle : Text
bundle = b'b' ∷ []

abbrev by_two : TransferConfig
by_two = record {
  chunk_size = 2;
  window_size = 4;
  base_rto_ms = 900;
  ttl_sec = 60;
  max_rto_ms = 500;
  pacing_delay_ms = 0;
}

abbrev two_and_one : FecConfig
two_and_one = record { enabled = true; k = 2; r = 1 }

abbrev sent_chunks : List Chunk
sent_chunks = or_default (create_chunks by_two two_and_one three_bytes bundle true) []

abbrev receiver : ReceiveEngine ℕ
receiver = record {
  transfer_config = by_two;
  fec_config = two_and_one;
  node_id = b'r' ∷ [];
  output_dir = b'd' ∷ [];
  storage = empty;
  active_receives = [];
  sent = [];
  files = [];
}

abbrev arrival : ℕ → Arrival
arrival i = record {
  index = i;
  addr = (b'h' ∷ [], 9000);
  env = record { now = 0; disk = Disk.writable; random = 7 };
}

-- The parity chunk comes first, twice, and the second data chunk never.
abbrev lossy : List Arrival
lossy = arrival 2 ∷ arrival 2 ∷ arrival 0 ∷ []

abbrev nothing_known : ReceiveState
nothing_known = record {
  bundle_id = [];
  total_chunks = 0;
  fec_enabled = false;
  k = 0;
  r = 0;
  output_path = [];
  num_data_chunks = 0;
  received_chunks = [];
  data_chunks = [];
  parity_chunks = [];
  delivered = false;
  write_buffer = [];
}

abbrev at_the_end : ReceiveState
at_the_end =
    or_default (lookup bundle (receive_all sent_chunks lossy receiver).active_receives)
      nothing_known

delivered_file_example :
    (z : ℕ) × (lookup
        (output_path_of (b'd' ∷ []) bundle)
        (receive_all sent_chunks lossy receiver).files
      ≡ some (three_bytes ++ replicate z 0))
    × (z < 2)
    × (use_fec true two_and_one ≡ false → z ≡ 0)
    × (length three_bytes % 2 ≡ 0 → z ≡ 0)
unfolding create_chunks receive_all handle_data create_receive_state new_chunk finish_data
    maybe_deliver flush_buffer try_fec_reconstruct store_payload send_sack fec_fields
    infer_block_and_data_count search_blocks record_chunk make_data_msg chunk_msg xor_chunks
    xor_bytes xor_into xor_loop data_chunks_of generate_fec_chunks
delivered_file_example =
    delivered_file by_two two_and_one three_bytes bundle true sent_chunks lossy receiver at_the_end
      refl (omega arith) (λ h. refl) refl refl refl

-- The file comes out with the padding of its last chunk.
recovered_short_chunk :
    lookup (output_path_of (b'd' ∷ []) bundle) (receive_all sent_chunks lossy receiver).files
    ≡ some (1 ∷ 2 ∷ 3 ∷ 0 ∷ [])
unfolding create_chunks receive_all handle_data create_receive_state new_chunk finish_data
    maybe_deliver flush_buffer try_fec_reconstruct store_payload send_sack fec_fields
    infer_block_and_data_count search_blocks record_chunk make_data_msg chunk_msg xor_chunks
    xor_bytes xor_into xor_loop data_chunks_of generate_fec_chunks
recovered_short_chunk = refl

abbrev row : ℕ → Bytes → Chunk
row i payload = record {
  bundle_id = bundle;
  chunk_id = i;
  is_parity = false;
  block_id = 0;
  k = 3;
  r = 1;
  payload = payload;
  checksum = Checksum.number 0;
  flags = 0;
}

xor_bytes-xor_chunks_example :
    xor_bytes
      (xor_chunks (row 0 (1 ∷ 2 ∷ []) ∷ row 1 (3 ∷ []) ∷ row 2 (4 ∷ 5 ∷ []) ∷ []))
      ((1 ∷ 2 ∷ []) ∷ (4 ∷ 5 ∷ []) ∷ [])
    ≡ 3 ∷ 0 ∷ []
xor_bytes-xor_chunks_example =
    xor_bytes-xor_chunks (row 0 (1 ∷ 2 ∷ []) ∷ row 1 (3 ∷ []) ∷ row 2 (4 ∷ 5 ∷ []) ∷ [])
      ((1 ∷ 2 ∷ []) ∷ []) (3 ∷ []) ((4 ∷ 5 ∷ []) ∷ []) refl

infer_block_and_data_count-with_parity_example :
    infer_block_and_data_count (with_parity 7 3 1) 3 1 ≡ some (3, 7)
infer_block_and_data_count-with_parity_example =
    infer_block_and_data_count-with_parity 7 3 1 (omega arith) (omega arith)

-- Both data chunks, the second one first and twice.
abbrev lossless : List Arrival
lossless = arrival 1 ∷ arrival 1 ∷ arrival 0 ∷ []

both_arrive : (i : ℕ) → i < 2 → arrives i lossless ≡ true
both_arrive i h = ground (arith, h)

delivered_once_arrived_example :
    (st : ReceiveState) × (lookup bundle (receive_all sent_chunks lossless receiver).active_receives
      ≡ some st)
    × (st.delivered ≡ true)
unfolding create_chunks data_chunks_of generate_fec_chunks
delivered_once_arrived_example =
    delivered_once_arrived by_two two_and_one three_bytes bundle true sent_chunks lossless receiver
      refl (omega arith) (λ h. refl) refl (refl, (refl, (refl, tt))) both_arrive

get_or-xor_bytes_example :
    get_or (xor_bytes (1 ∷ 2 ∷ []) ((4 ∷ 5 ∷ 6 ∷ []) ∷ [])) 2 0
    ≡ bit_xor (get_or (1 ∷ 2 ∷ []) 2 0) (mix 2 ((4 ∷ 5 ∷ 6 ∷ []) ∷ []))
get_or-xor_bytes_example = get_or-xor_bytes (1 ∷ 2 ∷ []) ((4 ∷ 5 ∷ 6 ∷ []) ∷ []) 2

-- The only chunk of a bundle: it is delivered at once.
handle_data-Announces_example : Announces bundle (
    handle_data
      (record { now = 0; disk = Disk.writable; random = 7 })
      (chunk_msg 1 (row 0 (1 ∷ 2 ∷ [])))
      (b'h' ∷ [], 9000)
      receiver)
unfolding chunk_msg make_data_msg
handle_data-Announces_example =
    handle_data-Announces bundle (record { now = 0; disk = Disk.writable; random = 7 })
      (chunk_msg 1 (row 0 (1 ∷ 2 ∷ []))) (b'h' ∷ [], 9000) receiver refl (λ st found. absurd (cc))
