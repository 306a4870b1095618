-- ===== src/Sender/Files.antt =====
-- The beginning and the end of a transfer: `send_file`, `get_send_status`,
-- `cleanup_completed_transfers` and `resume_transfers` (courier/send_engine.py).
use cs60_final_project.Common.{
  true, ℕ, min, Bool, false, ◌⊎◌, inl, inr, Option, none, some, List, [], ◌∷◌, Text, Bytes, length,
  ltb, if◌then◌else◌, text_eq,
}
use cs60_final_project.Common.Dict.{Dict, lookup, insert, remove}
use cs60_final_project.Chunk.{Chunk}
use cs60_final_project.Chunking.{create_chunks}
use cs60_final_project.Protocol.{Address}
use cs60_final_project.Storage.{
  Storage, Bundle, BundleDict, BundleState, save_bundle, save_chunk, list_bundles_by_state,
  or_default,
}
use cs60_final_project.Transfer.{use_fec}
use cs60_final_project.Sender.State.{Floats, SendState, SendEngine, SendEnv, put_send, ratio}
use cs60_final_project.Sender.Sending.{chunk_dict, send_window}

-- The exceptions that leave `send_file`.
pub data SendError : Type 0 where
  file_not_found os_error division_by_zero : SendError

-- What there is under the path of the file: nothing, something that `open` or `read` fails on with an
-- OSError, as a directory or a file without permission, or a file with its bytes.
pub data SourceFile : Type 0 where
  absent unreadable : SourceFile
  readable : Bytes → SourceFile

-- os.path.exists(file_path)
abbrev pub exists : SourceFile → Bool
exists SourceFile.absent = false
exists _ = true

-- The test that the file is there, and its reading, before what is done with its bytes.
abbrev pub read_source : {A : Type 0} → SourceFile → (Bytes → SendError ⊎ A) → SendError ⊎ A
read_source SourceFile.absent send = inl SendError.file_not_found
read_source SourceFile.unreadable send = inl SendError.os_error
read_source (SourceFile.readable file_data) send = send file_data

-- What `send_file` finds outside besides: CURRENT_TIMESTAMP, the new bundle id, and the file.
pub record FileEnv : Type 0 where
  pub timestamp : ℕ
  pub fresh_id : Text
  pub file : SourceFile

-- The dictionary that get_send_status returns.
pub record SendStatus (F : Type 0) : Type 0 where
  pub bundle_id : Text
  pub total_chunks : ℕ
  pub acked_chunks : ℕ
  pub progress : F
  pub bytes_sent : ℕ
  pub chunks_retransmitted : ℕ
  pub completed : Bool
  pub window_start : ℕ
  pub window_end : ℕ
  pub timeout_interval : F
  pub smoothed_rtt : F

module _ {F : Type 0} where
  -- SendState(...) with its defaults
  unfoldable pub new_send_state : Floats F → Text → ℕ → ℕ → ℕ → ℕ → ℕ → SendState F
  new_send_state fl b window_size base_rto_ms total_chunks bytes_sent chunks_retransmitted =
      record {
        bundle_id = b;
        window_start = 0;
        window_end = min window_size total_chunks;
        window_size = window_size;
        acked_chunks = [];
        retransmit_queue = [];
        chunk_timers = [];
        send_timestamps = [];
        retransmitted_chunks = [];
        timeout_interval = fl.of_nat base_rto_ms;
        smoothed_rtt = fl.of_nat 300;
        rtt_variance = fl.of_nat 150;
        total_chunks = total_chunks;
        bytes_sent = bytes_sent;
        chunks_retransmitted = chunks_retransmitted;
        completed = false;
        srtt = fl.of_nat 0;
        rttvar = fl.of_nat 0;
        rto = fl.of_nat 300;
        send_times = [];
      }

  -- for chunk in chunks: self.storage.save_chunk(chunk)
  abbrev pub save_each : List Chunk → Storage F → Storage F
  save_each [] s = s
  save_each (c ∷ cs) s = save_each cs (save_chunk c s)

  -- The row of the bundle that send_file saves.
  abbrev pub sending_row :
      FileEnv → Text → Text → Bool → Bytes → List Chunk → SendEngine F → BundleDict
  sending_row files file_path destination fec file_data chunks e = record {
    bundle_id = files.fresh_id;
    src = e.src_node_id;
    dst = destination;
    ttl = e.config.ttl_sec;
    state = BundleState.sending;
    total_chunks = length chunks;
    bytes_sent = none;
    chunks_retransmitted = none;
    fec_enabled = some fec;
    k = some (if fec then e.fec_config.k else 0);
    r = some (if fec then e.fec_config.r else 0);
    file_path = some file_path;
    file_size = some (length file_data);
  }

  -- The engine with the chunks in cache and storage, before the window is sent.
  unfoldable pub register_transfer :
      Floats F → FileEnv → Text → Text → Bool → Bytes → List Chunk → SendEngine F → SendEngine F
  unfolding new_send_state
  register_transfer fl files file_path destination fec file_data chunks e =
      let row = sending_row files file_path destination fec file_data chunks e in
      put_send files.fresh_id
        (new_send_state fl files.fresh_id e.config.window_size e.config.base_rto_ms (length chunks)
          0 0)
        (record e {
          chunk_cache = insert files.fresh_id (chunk_dict chunks) e.chunk_cache;
          storage = save_each chunks (save_bundle files.timestamp row e.storage);
        })

  -- The part of send_file after the test that the file is there.
  unfoldable pub send_data :
      Floats F
      → SendEnv F
      → FileEnv
      → Text
      → Text
      → Address
      → Bool
      → Bytes
      → SendEngine F
      → SendError ⊎ (Text × SendEngine F)
  send_data fl env files file_path destination addr fec file_data e =
      elim (create_chunks e.config e.fec_config file_data files.fresh_id fec) [
        | none ↦ inl SendError.division_by_zero
        | some chunks ↦ inr (
          files.fresh_id,
          send_window fl env files.fresh_id addr
              (register_transfer fl files file_path destination fec file_data chunks e),
        )
      ]

  -- send_file(file_path, destination, dest_addr, fec_enabled)
  unfoldable pub send_file :
      Floats F
      → SendEnv F
      → FileEnv
      → Text
      → Text
      → Address
      → Option Bool
      → SendEngine F
      → SendError ⊎ (Text × SendEngine F)
  send_file fl env files file_path destination addr fec_enabled e =
      let with_fec = use_fec (or_default fec_enabled false) e.fec_config in
      read_source files.file
        (λ file_data. send_data fl env files file_path destination addr with_fec file_data e)

  abbrev pub progress_of : Floats F → SendState F → F
  progress_of fl st =
      if ltb 0 st.total_chunks
      then ratio fl (length st.acked_chunks) st.total_chunks
      else fl.of_nat 0

  abbrev pub send_status : Floats F → Text → SendState F → SendStatus F
  send_status fl b st = record {
    bundle_id = b;
    total_chunks = st.total_chunks;
    acked_chunks = length st.acked_chunks;
    progress = progress_of fl st;
    bytes_sent = st.bytes_sent;
    chunks_retransmitted = st.chunks_retransmitted;
    completed = st.completed;
    window_start = st.window_start;
    window_end = st.window_end;
    timeout_interval = st.timeout_interval;
    smoothed_rtt = st.smoothed_rtt;
  }

  -- get_send_status(bundle_id)
  unfoldable pub get_send_status : Floats F → Text → SendEngine F → Option (SendStatus F)
  get_send_status fl b e = elim (lookup b e.active_sends) [
    | none ↦ none
    | some st ↦ some (send_status fl b st)
  ]

  -- The bundle ids of the completed transfers.
  unfoldable pub completed_ids : Dict Text (SendState F) → List Text
  completed_ids [] = []
  completed_ids ((b, st) ∷ sends) =
      let rest = completed_ids sends in if st.completed then b ∷ rest else rest

  abbrev pub remove_sends : List Text → Dict Text (SendState F) → Dict Text (SendState F)
  remove_sends [] sends = sends
  remove_sends (b ∷ bs) sends = remove_sends bs (remove b sends)

  -- cleanup_completed_transfers()
  unfoldable pub cleanup_completed_transfers : SendEngine F → SendEngine F
  unfolding completed_ids
  cleanup_completed_transfers e = record e {
    active_sends = remove_sends (completed_ids e.active_sends) e.active_sends;
  }

  -- The loop of resume_transfers.
  unfoldable pub resume_each : Floats F → List Bundle → SendEngine F → SendEngine F
  unfolding new_send_state
  resume_each fl [] e = e
  resume_each fl (row ∷ rows) e = resume_each fl rows (
      put_send row.bundle_id
        (new_send_state fl row.bundle_id e.config.window_size e.config.base_rto_ms row.total_chunks
          row.bytes_sent row.chunks_retransmitted)
        e)

  -- resume_transfers()
  unfoldable pub resume_transfers : Floats F → SendEngine F → SendEngine F
  unfolding resume_each
  resume_transfers fl e = resume_each fl (list_bundles_by_state BundleState.sending e.storage) e
