-- ===== src/Node/Status.antt =====
-- What the node tells about bundles: `get_send_status` and `list_bundles` (courier/node.py).
use cs60_final_project.Common.{
  ℕ, max, Bool, false, Option, none, some, List, [], ◌∷◌, Text, if◌then◌else◌,
}
use cs60_final_project.Storage.{
  Bundle, BundleState, state_beq, load_bundle, list_bundles, list_bundles_by_state,
}
use cs60_final_project.Sender.State.{Floats}
use cs60_final_project.Sender.Files.{SendStatus, get_send_status}
use cs60_final_project.Node.State.{Node}

-- The dictionary of one bundle. `created_at` is missing where the program has "".
pub record NodeStatus (F : Type 0) : Type 0 where
  pub bundle_id : Text
  pub src : Text
  pub dst : Text
  pub file_path : Text
  pub file_size : ℕ
  pub state : BundleState
  pub fec_enabled : Bool
  pub total_chunks : ℕ
  pub bytes_sent : ℕ
  pub chunks_retransmitted : ℕ
  pub created_at : Option ℕ
  pub progress : F
  pub acked_chunks : ℕ
  pub completed : Bool
  pub window_start : ℕ
  pub window_end : ℕ
  pub timeout_interval : F
  pub smoothed_rtt : F

-- An entry of the list of all bundles.
pub record BundleSummary (F : Type 0) : Type 0 where
  pub bundle_id : Text
  pub src : Text
  pub dst : Text
  pub file_path : Text
  pub file_size : ℕ
  pub state : BundleState
  pub fec_enabled : Bool
  pub created_at : ℕ
  pub total_chunks : ℕ
  pub bytes_sent : ℕ
  pub chunks_retransmitted : ℕ
  pub progress : F

abbrev pub unknown : Text
unknown = b'u' ∷ b'n' ∷ b'k' ∷ b'n' ∷ b'o' ∷ b'w' ∷ b'n' ∷ []

abbrev pub is_delivered : BundleState → Bool
is_delivered state = state_beq state BundleState.delivered

module _ {F : Type 0} (fl : Floats F) where
  -- No state in memory: what follows from the row.
  abbrev pub status_of_row : Text → Bundle → SendStatus F
  status_of_row b row = record {
    bundle_id = b;
    total_chunks = row.total_chunks;
    acked_chunks = 0;
    progress = if is_delivered row.state then fl.of_nat 1 else fl.of_nat 0;
    bytes_sent = row.bytes_sent;
    chunks_retransmitted = row.chunks_retransmitted;
    completed = is_delivered row.state;
    window_start = 0;
    window_end = 0;
    timeout_interval = fl.of_nat 0;
    smoothed_rtt = fl.of_nat 0;
  }

  -- The status with what the row has of it.
  abbrev pub with_row : SendStatus F → Bundle → NodeStatus F
  with_row s row = record {
    bundle_id = s.bundle_id;
    src = row.src;
    dst = row.dst;
    file_path = row.file_path;
    file_size = row.file_size;
    state = if s.completed then BundleState.delivered else row.state;
    fec_enabled = row.fec_enabled;
    total_chunks = s.total_chunks;
    bytes_sent = max s.bytes_sent row.bytes_sent;
    chunks_retransmitted = max s.chunks_retransmitted row.chunks_retransmitted;
    created_at = some row.created_at;
    progress = s.progress;
    acked_chunks = s.acked_chunks;
    completed = s.completed;
    window_start = s.window_start;
    window_end = s.window_end;
    timeout_interval = s.timeout_interval;
    smoothed_rtt = s.smoothed_rtt;
  }

  abbrev pub without_row : Text → SendStatus F → NodeStatus F
  without_row node_id s = record {
    bundle_id = s.bundle_id;
    src = node_id;
    dst = unknown;
    file_path = [];
    file_size = 0;
    state = if s.completed then BundleState.delivered else BundleState.sending;
    fec_enabled = false;
    total_chunks = s.total_chunks;
    bytes_sent = s.bytes_sent;
    chunks_retransmitted = s.chunks_retransmitted;
    created_at = none;
    progress = s.progress;
    acked_chunks = s.acked_chunks;
    completed = s.completed;
    window_start = s.window_start;
    window_end = s.window_end;
    timeout_interval = s.timeout_interval;
    smoothed_rtt = s.smoothed_rtt;
  }

  -- By the state in memory and the row.
  abbrev pub combined_status :
      Text → Text → Option (SendStatus F) → Option Bundle → Option (NodeStatus F)
  combined_status node_id b none none = none
  combined_status node_id b none (some row) = some (with_row (status_of_row b row) row)
  combined_status node_id b (some s) none = some (without_row node_id s)
  combined_status node_id b (some s) (some row) = some (with_row s row)

  -- get_send_status(bundle_id)
  unfoldable pub node_send_status : Text → Node F → Option (NodeStatus F)
  node_send_status b n =
      combined_status n.node_id b (get_send_status fl b n.send_engine) (load_bundle b n.storage)

  abbrev progress_in : Option (SendStatus F) → Bundle → F
  progress_in none row = if is_delivered row.state then fl.of_nat 1 else fl.of_nat 0
  progress_in (some s) row = s.progress

  abbrev summary : Node F → Bundle → BundleSummary F
  summary n row = record {
    bundle_id = row.bundle_id;
    src = row.src;
    dst = row.dst;
    file_path = row.file_path;
    file_size = row.file_size;
    state = row.state;
    fec_enabled = row.fec_enabled;
    created_at = row.created_at;
    total_chunks = row.total_chunks;
    bytes_sent = row.bytes_sent;
    chunks_retransmitted = row.chunks_retransmitted;
    progress = progress_in (get_send_status fl row.bundle_id n.send_engine) row;
  }

  abbrev summaries : Node F → List Bundle → List (BundleSummary F)
  summaries n [] = []
  summaries n (row ∷ rows) = summary n row ∷ summaries n rows

  -- get_send_status() of all bundles
  unfoldable pub all_send_statuses : Node F → List (BundleSummary F)
  all_send_statuses n = summaries n (list_bundles n.storage)

module _ {F : Type 0} where
  -- list_bundles(state_filter)
  unfoldable pub node_list_bundles : Option BundleState → Node F → List Bundle
  node_list_bundles none n = list_bundles n.storage
  node_list_bundles (some state) n = list_bundles_by_state state n.storage
