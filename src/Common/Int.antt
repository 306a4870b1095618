-- ===== src/Common/Int.antt =====
-- Python's integers where the program has negative ones: a chunk number that a message may hold,
-- and the watermark -1 of an empty selective acknowledgement.
use Prim.Native.Nat.{ℕ, suc}

-- `negsuc n` is -(n + 1).
pub data ℤ : Type 0 where
  pos : ℕ → ℤ
  negsuc : ℕ → ℤ

-- n + 1 of an integer from -1 on.
abbrev pub next : ℤ → ℕ
next (ℤ.pos n) = suc n
next (ℤ.negsuc n) = 0
