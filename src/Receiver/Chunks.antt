-- ===== src/Receiver/Chunks.antt =====
-- What `ReceiveEngine` (courier/receive_engine.py) does to the receive state of a bundle: the layout that
-- it settles, the payload of a chunk, and the reconstruction of a lost chunk of a block.
use cs60_final_project.Common.{
  ℕ, ◌+◌, ◌*◌, ◌%◌, min, Bool, true, false, ◌&&◌, ◌||◌, Option, none, some, List, [], ◌∷◌, ◌++◌,
  Text, Bytes, length, range, ltb, leb, ◌==◌, if◌then◌else◌, nat_eq, text_eq,
}
use cs60_final_project.Common.Dict.{Dict, lookup, insert, contains}
use cs60_final_project.Common.NatSet.{add}
use cs60_final_project.Common.Decimal.{decimal}
use cs60_final_project.Chunk.{Chunk, Checksum}
use cs60_final_project.Chunking.{checksum_of}
use cs60_final_project.Fec.{xor_bytes}
use cs60_final_project.Layout.{infer_block_and_data_count}
use cs60_final_project.Protocol.{DataMsg, Address}
use cs60_final_project.Storage.{or_default}
use cs60_final_project.Receiver.State.{ReceiveState}

-- f"{sender_addr[0]}:{sender_addr[1]}"
abbrev pub address_text : Address → Text
address_text (host, port) = host ++ b':' ∷ decimal port

-- os.path.join(self.output_dir, f"bundle_{bundle_id}.bin"), for a directory that is not empty
-- and does not end in a slash
abbrev pub output_path_of : Text → Text → Text
output_path_of dir b =
    dir
    ++ b'/' ∷ b'b' ∷ b'u' ∷ b'n' ∷ b'd' ∷ b'l' ∷ b'e' ∷ b'_' ∷ b
    ++ b'.' ∷ b'b' ∷ b'i' ∷ b'n' ∷ []

-- The FEC fields that _create_receive_state settles: fec_enabled, k, r and num_data_chunks.
pub record FecFields : Type 0 where
  pub fec_enabled : Bool
  pub k : ℕ
  pub r : ℕ
  pub num_data_chunks : ℕ

abbrev pub inferred_fields : ℕ → ℕ → ℕ → Option (ℕ × ℕ) → FecFields
inferred_fields total_chunks k r none = record {
  fec_enabled = false;
  k = 0;
  r = 0;
  num_data_chunks = total_chunks;
}
inferred_fields total_chunks k r (some (blocks, data_count)) = record {
  fec_enabled = true;
  k = k;
  r = r;
  num_data_chunks = data_count;
}

-- bool(k and r and self.fec_config.enabled), and what follows from it
unfoldable pub fec_fields : Bool → ℕ → ℕ → ℕ → FecFields
fec_fields enabled total_chunks k r =
    let found = inferred_fields total_chunks k r (infer_block_and_data_count total_chunks k r) in
    if ltb 0 k && (ltb 0 r && enabled)
    then found
    else record { fec_enabled = false; k = k; r = r; num_data_chunks = total_chunks }

-- state.data_chunks and state.parity_chunks of a new chunk
unfoldable pub store_payload : ℕ → ℕ → Bytes → ReceiveState → ReceiveState
store_payload chunk_id block_id payload st =
    let with_data = record st { data_chunks = insert chunk_id payload st.data_chunks } in
    let with_parity = record st {
      parity_chunks =
          insert block_id (or_default (lookup block_id st.parity_chunks) [] ++ payload ∷ [])
            st.parity_chunks;
    } in
    if st.fec_enabled && (ltb 0 st.k && ltb 0 st.num_data_chunks)
    then (if ltb chunk_id st.num_data_chunks then with_data else with_parity)
    else with_data

-- [cid for cid in ids if cid not in d]
abbrev pub absent_ids : {V : Type 0} → Dict ℕ V → List ℕ → List ℕ
absent_ids d [] = []
absent_ids d (i ∷ is) = let rest = absent_ids d is in if contains i d then rest else i ∷ rest

-- [d[cid] for cid in ids if cid in d]
abbrev pub present_values : {V : Type 0} → Dict ℕ V → List ℕ → List V
present_values d [] = []
present_values d (i ∷ is) =
    let rest = present_values d is in elim (lookup i d) [ none ↦ rest | some v ↦ v ∷ rest ]

-- list(range(start, end)) of a block
abbrev pub expected_ids : ReceiveState → ℕ → List ℕ
expected_ids st block_id = range (block_id * st.k) (min (block_id * st.k + st.k) st.num_data_chunks)

-- The row that is written for a reconstructed chunk.
abbrev pub recovered_chunk : ReceiveState → ℕ → ℕ → Bytes → Chunk
recovered_chunk st block_id missing_id recovered = record {
  bundle_id = st.bundle_id;
  chunk_id = missing_id;
  is_parity = false;
  block_id = block_id;
  k = st.k;
  r = st.r;
  payload = recovered;
  checksum = Checksum.number (checksum_of recovered);
  flags = 0;
}

abbrev pub with_recovered : ReceiveState → ℕ → Bytes → ReceiveState
with_recovered st missing_id recovered = record st {
  received_chunks = add missing_id st.received_chunks;
  data_chunks = insert missing_id recovered st.data_chunks;
}

-- The end of _try_fec_reconstruct, by the missing ids and the parity payloads of the block.
abbrev pub reconstruct_one : ReceiveState → ℕ → List ℕ → List Bytes → ReceiveState × Option Chunk
reconstruct_one st block_id (missing_id ∷ []) (parity ∷ others) =
    let recovered = xor_bytes parity (present_values st.data_chunks (expected_ids st block_id)) in
    (
      with_recovered st missing_id recovered,
      some (recovered_chunk st block_id missing_id recovered),
    )
reconstruct_one st block_id _ _ = (st, none)

-- _try_fec_reconstruct(state, block_id): the state, and the chunk to save.
unfoldable pub try_fec_reconstruct : ReceiveState → ℕ → ReceiveState × Option Chunk
try_fec_reconstruct st block_id =
    let attempt =
      reconstruct_one st block_id (absent_ids st.data_chunks (expected_ids st block_id))
        (or_default (lookup block_id st.parity_chunks) []) in
    if st.fec_enabled && (ltb 0 st.k && ltb 0 st.r) then attempt else (st, none)

-- The row that handle_data buffers.
abbrev pub chunk_record : DataMsg → ReceiveState → Chunk
chunk_record msg st = record {
  bundle_id = msg.bundle_id;
  chunk_id = msg.chunk_id;
  is_parity = st.fec_enabled && leb st.num_data_chunks msg.chunk_id;
  block_id = msg.block_id;
  k = st.k;
  r = st.r;
  payload = msg.payload;
  checksum = Checksum.number msg.checksum;
  flags = 0;
}

abbrev pub is_empty : {A : Type 0} → List A → Bool
is_empty [] = true
is_empty (x ∷ xs) = false

abbrev pub concat : List Bytes → Bytes
concat [] = []
concat (p ∷ ps) = p ++ concat ps

-- The number of data chunks that delivery waits for.
abbrev pub num_data_of : ReceiveState → ℕ
num_data_of st = if st.num_data_chunks == 0 then st.total_chunks else st.num_data_chunks

-- The payloads in the order of the ids
abbrev pub ordered_payloads : ReceiveState → List Bytes
ordered_payloads st = present_values st.data_chunks (range 0 (num_data_of st))

abbrev pub is_full : ReceiveState → Bool
is_full st = length st.received_chunks == st.total_chunks

-- The first part of the body of handle_data for a chunk that is not there yet: the chunk is noted,
-- its payload stored, its row buffered.
unfoldable pub record_chunk : DataMsg → ReceiveState → ReceiveState
record_chunk msg st =
    let received = record st { received_chunks = add msg.chunk_id st.received_chunks } in
    let stored = store_payload msg.chunk_id msg.block_id msg.payload received in
    record stored { write_buffer = stored.write_buffer ++ chunk_record msg stored ∷ [] }

-- if state.fec_enabled: self._try_fec_reconstruct(state, block_id)
abbrev pub reconstruct_if_fec : ReceiveState → ℕ → ReceiveState × Option Chunk
reconstruct_if_fec st block_id =
    if st.fec_enabled then try_fec_reconstruct st block_id else (st, none)

-- A SACK goes out with every 50th chunk, after a flush and with the last chunk.
abbrev pub is_sack_due : ReceiveState → Bool
is_sack_due st = (length st.received_chunks % 50 == 0) || (is_empty st.write_buffer || is_full st)
