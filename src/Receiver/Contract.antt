-- ===== src/Receiver/Contract.antt =====
-- What the receive engine (courier/receive_engine.py) relies on in a bundle that it is sent: how
-- it is laid out, and what its payloads and parity payloads are good for.
use cs60_final_project.Common.{
  ℕ, ◌+◌, ◌*◌, ◌<◌, ◌≡◌, min, Bool, true, false, some, List, [], ◌∷◌, Text, Bytes, range, ltb,
  nat_eq,
}
use cs60_final_project.Common.Dict.{Dict, lookup}
use cs60_final_project.Fec.{xor_bytes}
use cs60_final_project.Protocol.{DataMsg}
use cs60_final_project.Receiver.{absent_ids, present_values, concat}

-- The ids of the data chunks of a block of k, of n data chunks in all.
abbrev pub block_ids : ℕ → ℕ → ℕ → List ℕ
block_ids n k block_id = range (block_id * k) (min (block_id * k + k) n)

-- `Good i q`: the bytes q will do for data chunk i. `Restored f`: the bytes f will do for the file.
pub record Contract : Type 1 where
  pub n : ℕ
  pub total : ℕ
  pub k : ℕ
  pub r : ℕ
  pub fec : Bool
  pub Good : ℕ → Bytes → Type 0
  pub Restored : Bytes → Type 0
  pub parity : ℕ → Bytes
  pub n_pos : 0 < n
  pub k_pos : fec ≡ true → 0 < k
  pub r_pos : fec ≡ true → 0 < r
  pub whole : fec ≡ false → total ≡ n
  pub restore :
      (d : Dict ℕ Bytes)
      → ((i : ℕ) (q : Bytes) → lookup i d ≡ some q → Good i q)
      → absent_ids d (range 0 n) ≡ []
      → Restored (concat (present_values d (range 0 n)))
  pub recover :
      (d : Dict ℕ Bytes) (block_id i : ℕ)
      → fec ≡ true
      → ((j : ℕ) (q : Bytes) → lookup j d ≡ some q → Good j q)
      → absent_ids d (block_ids n k block_id) ≡ i ∷ []
      → Good i (xor_bytes (parity block_id) (present_values d (block_ids n k block_id)))

-- A message of the bundle: a data chunk with good bytes, or a parity chunk with its block's parity.
pub record Carries (c : Contract) (b : Text) (msg : DataMsg) : Type 0 where
  pub for_bundle : msg.bundle_id ≡ b
  pub in_total : msg.total_chunks ≡ c.total
  pub with_k : msg.k ≡ c.k
  pub with_r : msg.r ≡ c.r
  pub data_good : msg.chunk_id < c.n → c.Good msg.chunk_id msg.payload
  pub parity_good : ltb msg.chunk_id c.n ≡ false → msg.payload ≡ c.parity msg.block_id
  pub data_only : c.fec ≡ false → msg.chunk_id < c.n
