-- ===== src/Receiver.antt =====
-- `ReceiveEngine` (courier/receive_engine.py): a DATA message is recorded, a lost chunk of its block
-- is reconstructed where that is possible, the chunks are written to storage, a SACK is sent, and
-- a complete bundle is written to its file. Logging is left out.
mod State
mod Chunks
pub mod Contract
pub mod Faithful
pub mod Stored
pub mod Delivery
pub mod Payloads
pub mod Progress
pub mod Announced
pub mod Complete
pub use State.*
unfoldable pub use Chunks.*
use cs60_final_project.Common.{
  ℕ, zero, suc, ◌+◌, ◌-◌, ◌*◌, ◌%◌, ◌^◌, min, Bool, true, false, not, ◌&&◌, ◌||◌, Option, none,
  some, List, [], ◌∷◌, ◌++◌, map, Text, Bytes, length, range, take, ltb, leb, ◌==◌, if◌then◌else◌,
  is_some, nat_eq, text_eq,
}
use cs60_final_project.Common.Int.{ℤ, pos}
use cs60_final_project.Common.Dict.{Dict, lookup, insert, contains}
use cs60_final_project.Common.NatSet.{mem, add}
use cs60_final_project.Common.Decimal.{decimal}
use cs60_final_project.Chunk.{Chunk}
use cs60_final_project.Chunking.{checksum_of}
use cs60_final_project.Config.{TransferConfig, FecConfig}
use cs60_final_project.Fec.{xor_bytes}
use cs60_final_project.Layout.{infer_block_and_data_count}
use cs60_final_project.Protocol.{
  Message, DataMsg, Address, sack_msg, custody_ack_msg, make_sack_msg, make_delivered_msg,
  make_custody_ack_msg,
}
use cs60_final_project.Storage.{
  Storage, BundleDict, BundleState, save_bundle, save_chunk, save_chunks_bulk, update_bundle_state,
  or_default,
}

module _ {T : Type 0} where
  -- self.network_send(msg, sender_addr): the result is not read.
  abbrev pub network_send : Message → Address → ReceiveEngine T → ReceiveEngine T
  network_send msg addr e = record e { sent = e.sent ++ (msg, addr) ∷ [] }

  -- The entry of `active_receives` is one mutable object; its new value is written back here.
  abbrev pub put_state : Text → ReceiveState → ReceiveEngine T → ReceiveEngine T
  put_state b st e = record e { active_receives = insert b st e.active_receives }

  -- _send_sack(bundle_id, sender_addr)
  unfoldable pub send_sack : Text → Address → ReceiveEngine T → ReceiveEngine T
  send_sack b addr e = elim (lookup b e.active_receives) [
    | none ↦ e
    | some st ↦ network_send (sack_msg (make_sack_msg b (map pos st.received_chunks))) addr e
  ]

  -- _create_receive_state
  unfoldable pub create_receive_state :
      Env → Text → ℕ → ℕ → ℕ → Address → ReceiveEngine T → ReceiveState × ReceiveEngine T
  unfolding fec_fields
  create_receive_state env b total_chunks k r addr e =
      let f = fec_fields e.fec_config.enabled total_chunks k r in
      let output_path = output_path_of e.output_dir b in
      (
        record {
          bundle_id = b;
          total_chunks = total_chunks;
          fec_enabled = f.fec_enabled;
          k = f.k;
          r = f.r;
          output_path = output_path;
          num_data_chunks = f.num_data_chunks;
          received_chunks = [];
          data_chunks = [];
          parity_chunks = [];
          delivered = false;
          write_buffer = [];
        },
        record e {
          storage =
              save_bundle env.now
                (record {
                  bundle_id = b;
                  src = address_text addr;
                  dst = e.node_id;
                  ttl = e.transfer_config.ttl_sec;
                  state = BundleState.receiving;
                  total_chunks = total_chunks;
                  bytes_sent = some 0;
                  chunks_retransmitted = some 0;
                  fec_enabled = some f.fec_enabled;
                  k = some (if f.fec_enabled then f.k else 0);
                  r = some (if f.fec_enabled then f.r else 0);
                  file_path = some output_path;
                  file_size = some 0;
                })
                e.storage;
        },
      )

  -- The exception handler of the write: the file keeps what was written before it.
  abbrev pub write_file : Disk → Text → List Bytes → ReceiveEngine T → ReceiveEngine T
  write_file writable path ps e = record e { files = insert path (concat ps) e.files }
  write_file unopened path ps e = e
  write_file (breaks_after n) path ps e = record e {
    files = insert path (concat (take n ps)) e.files;
  }

  -- What follows a complete write.
  abbrev pub announce : Env → ReceiveState → Address → ReceiveEngine T → ReceiveEngine T
  announce env st addr e =
      network_send (custody_ack_msg (make_custody_ack_msg env.random st.bundle_id [] none)) addr (
        network_send (make_delivered_msg st.bundle_id) addr (
          put_state st.bundle_id (record st { delivered = true })
            (record e {
              storage = update_bundle_state st.bundle_id BundleState.delivered e.storage;
            })))

  abbrev pub after_write : Disk → Env → ReceiveState → Address → ReceiveEngine T → ReceiveEngine T
  after_write writable env st addr e =
      announce env st addr (write_file writable st.output_path (ordered_payloads st) e)
  after_write disk env st addr e = write_file disk st.output_path (ordered_payloads st) e

  -- _maybe_deliver(state, sender_addr)
  unfoldable pub maybe_deliver : Env → ReceiveState → Address → ReceiveEngine T → ReceiveEngine T
  maybe_deliver env st addr e =
      let missing = absent_ids st.data_chunks (range 0 (num_data_of st)) in
      if st.delivered then e else if is_empty missing then after_write env.disk env st addr e else e

  -- self.storage.save_chunk of a reconstructed chunk
  abbrev pub save_recovered : Option Chunk → ReceiveEngine T → ReceiveEngine T
  save_recovered none e = e
  save_recovered (some c) e = record e { storage = save_chunk c e.storage }

  -- The write buffer goes to storage when it holds 500 rows, and with the last chunk.
  unfoldable pub flush_buffer : ReceiveState → ReceiveEngine T → ReceiveState × ReceiveEngine T
  flush_buffer st e =
      if leb 500 (length st.write_buffer) || is_full st
      then (
        record st { write_buffer = [] },
        record e { storage = save_chunks_bulk st.write_buffer e.storage },
      )
      else (st, e)

  -- The end of handle_data: flush, SACK, delivery.
  unfoldable pub finish_data :
      Env → Text → Address → ReceiveState → ReceiveEngine T → ReceiveEngine T
  finish_data env b addr st e =
      let (st', stored) = flush_buffer st e in
      let e' = put_state b st' stored in
      let acked = if is_sack_due st' then send_sack b addr e' else e' in
      maybe_deliver env st' addr acked

  -- The rest of the body of handle_data for a chunk that is not there yet.
  unfoldable pub new_chunk :
      Env → DataMsg → Address → ReceiveState → ReceiveEngine T → ReceiveEngine T
  unfolding record_chunk
  new_chunk env msg addr st e =
      let buffered = record_chunk msg st in
      let (st', saved) = reconstruct_if_fec buffered msg.block_id in
      finish_data env msg.bundle_id addr st' (save_recovered saved e)

  abbrev pub with_state : Env → DataMsg → Address → ReceiveState → ReceiveEngine T → ReceiveEngine T
  with_state env msg addr st e =
      if mem msg.chunk_id st.received_chunks
      then send_sack msg.bundle_id addr e
      else new_chunk env msg addr st e

  -- state = self.active_receives.get(bundle_id), and a new state where there is none
  abbrev pub known_or_new :
      Option ReceiveState → Env → DataMsg → Address → ReceiveEngine T → ReceiveEngine T
  known_or_new none env msg addr e =
      let (created, e') =
        create_receive_state env msg.bundle_id msg.total_chunks msg.k msg.r addr e in
      with_state env msg addr created (put_state msg.bundle_id created e')
  known_or_new (some st) env msg addr e = with_state env msg addr st e

  -- handle_data(msg, sender_addr)
  unfoldable pub handle_data : Env → DataMsg → Address → ReceiveEngine T → ReceiveEngine T
  handle_data env msg addr e = known_or_new (lookup msg.bundle_id e.active_receives) env msg addr e
