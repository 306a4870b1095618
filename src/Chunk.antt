-- ===== src/Chunk.antt =====
-- The dictionary that describes one chunk of a bundle, as the send engine builds it, the storage
-- keeps it and the receive engine records it (courier/send_engine.py, courier/receive_engine.py).
use cs60_final_project.Common.{ℕ, Bool, Text, Bytes}

-- A checksum: the number that the engines make, or the text of its decimal digits, which the column
-- of type TEXT gives back.
pub data Checksum : Type 0 where
  number digits : ℕ → Checksum

-- int(checksum)
abbrev pub int_of : Checksum → ℕ
int_of (Checksum.number n) = n
int_of (Checksum.digits n) = n

pub record Chunk : Type 0 where
  pub bundle_id : Text
  pub chunk_id : ℕ
  pub is_parity : Bool
  pub block_id : ℕ
  pub k : ℕ
  pub r : ℕ
  pub payload : Bytes
  pub checksum : Checksum
  pub flags : ℕ
