-- ===== src/Storage/Rows.antt =====
-- The rows of the tables `bundles` and `custody_records`, and the dictionary that `save_bundle`
-- takes (courier/storage.py).
use cs60_final_project.Common.{
  ℕ, Bool, true, false, Option, none, some, List, [], Text, arith, map, ◌≡◌, ◌↔◌,
}
use cs60_final_project.Protocol.{JsonPair, json_pair}

-- The state texts that the program writes.
pub data BundleState : Type 0 where
  sending receiving delivered custody_transferred : BundleState

abbrev pub state_beq : BundleState → BundleState → Bool
state_beq BundleState.sending BundleState.sending = true
state_beq BundleState.receiving BundleState.receiving = true
state_beq BundleState.delivered BundleState.delivered = true
state_beq BundleState.custody_transferred BundleState.custody_transferred = true
state_beq _ _ = false

pub state_beq_iff : (x y : BundleState) → (state_beq x y ≡ true) ↔ (x ≡ y)
state_beq_iff x y = ground arith

pub record Bundle : Type 0 where
  pub bundle_id : Text
  pub src : Text
  pub dst : Text
  pub ttl : ℕ
  pub state : BundleState
  pub total_chunks : ℕ
  pub bytes_sent : ℕ
  pub chunks_retransmitted : ℕ
  pub fec_enabled : Bool
  pub k : ℕ
  pub r : ℕ
  pub created_at : ℕ
  pub file_path : Text
  pub file_size : ℕ

-- The keys that `save_bundle` reads with `get` may be missing.
pub record BundleDict : Type 0 where
  pub bundle_id : Text
  pub src : Text
  pub dst : Text
  pub ttl : ℕ
  pub state : BundleState
  pub total_chunks : ℕ
  pub bytes_sent : Option ℕ
  pub chunks_retransmitted : Option ℕ
  pub fec_enabled : Option Bool
  pub k : Option ℕ
  pub r : Option ℕ
  pub file_path : Option Text
  pub file_size : Option ℕ

-- d.get(key, default)
abbrev pub or_default {ℓ} : {A : Type ℓ} → Option A → A → A
or_default none d = d
or_default (some a) d = a

unfoldable pub bundle_row : ℕ → BundleDict → Bundle
bundle_row now d = record {
  bundle_id = d.bundle_id;
  src = d.src;
  dst = d.dst;
  ttl = d.ttl;
  state = d.state;
  total_chunks = d.total_chunks;
  bytes_sent = or_default d.bytes_sent 0;
  chunks_retransmitted = or_default d.chunks_retransmitted 0;
  fec_enabled = or_default d.fec_enabled false;
  k = or_default d.k 0;
  r = or_default d.r 0;
  created_at = now;
  file_path = or_default d.file_path [];
  file_size = or_default d.file_size 0;
}

-- The states of a custody record that the program writes, and the default of the dataclass.
pub data CustodyState : Type 0 where
  pending accepted complete failed : CustodyState

-- A row of `custody_records`. The JSON text of `chunk_ranges` is kept as the ranges it stands for.
pub record CustodyRow (T : Type 0) : Type 0 where
  pub bundle_id : Text
  pub owner_node : Text
  pub chunk_ranges : List (ℕ × ℕ)
  pub retry_timer : T
  pub retry_count : ℕ
  pub max_retries : ℕ
  pub state : CustodyState

-- The dictionary that `load_custody_record` returns: `json.loads` makes lists of the ranges.
pub record CustodyDict (T : Type 0) : Type 0 where
  pub bundle_id : Text
  pub owner_node : Text
  pub chunk_ranges : List JsonPair
  pub retry_timer : T
  pub retry_count : ℕ
  pub max_retries : ℕ
  pub state : CustodyState

abbrev pub custody_dict : {T : Type 0} → CustodyRow T → CustodyDict T
custody_dict row = record {
  bundle_id = row.bundle_id;
  owner_node = row.owner_node;
  chunk_ranges = map json_pair row.chunk_ranges;
  retry_timer = row.retry_timer;
  retry_count = row.retry_count;
  max_retries = row.max_retries;
  state = row.state;
}

abbrev pub loaded : {T : Type 0} → Option (CustodyRow T) → Option (CustodyDict T)
loaded none = none
loaded (some row) = some (custody_dict row)
