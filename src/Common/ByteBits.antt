-- ===== src/Common/ByteBits.antt =====
-- The bits of a byte, the highest first: what `|=` with a single bit does, and which byte of a bitmap
-- a bit lies in.
use Prim.Native.Nat.{bit_or, bit_and}
use cs60_final_project.Common.{
  ℕ, zero, suc, ◌-◌, ◌^◌, ◌<◌, ◌≡◌, refl, Bool, true, false, not, ◌||◌, arith, ltb, ◌==◌,
  if◌then◌else◌, Bool-cases, inl, inr,
}

-- b & (1 << (7 - p)), as a truth value
abbrev pub bit : ℕ → ℕ → Bool
bit b p = not (bit_and b (2 ^ (7 - p)) == 0)

abbrev all_below : (ℕ → Bool) → ℕ → Bool
all_below test zero = true
all_below test (suc n) = let rest = all_below test n in if test n then rest else false

all_below-holds : (test : ℕ → Bool) (n i : ℕ) → all_below test n ≡ true → i < n → test i ≡ true
all_below-holds test zero i h k = absurd (omega arith)
all_below-holds test (suc n) i h k = elim (Bool-cases (i == n)) [
  | inl last ↦ let e : i ≡ n = ground arith in rw e (ground arith)
  | inr before ↦ all_below-holds test n i (ground arith) (ground arith)
]

abbrev bool_eq : Bool → Bool → Bool
bool_eq true b = b
bool_eq false b = not b

bool_eq_sound : (a b : Bool) → bool_eq a b ≡ true → a ≡ b
bool_eq_sound a b h = ground arith

-- One byte with one bit more: the bit is set, the others are kept, and it is a byte still.
abbrev or_test : ℕ → ℕ → ℕ → Bool
or_test q p b = bool_eq (bit (bit_or b (2 ^ (7 - p))) q) ((p == q) || bit b q)

abbrev or_tests : ℕ → ℕ → Bool
or_tests q p = all_below (or_test q p) 256

or_table : all_below (λ q. all_below (or_tests q) 8) 8 ≡ true
or_table = refl

pub bit-bit_or :
    (b p q : ℕ) → b < 256 → p < 8 → q < 8 → bit (bit_or b (2 ^ (7 - p))) q ≡ ((p == q) || bit b q)
bit-bit_or b p q hb hp hq = bool_eq_sound _ _ (
    all_below-holds (or_test q p) 256 b
      (all_below-holds (or_tests q) 8 p
        (all_below-holds (λ i. all_below (or_tests i) 8) 8 q or_table hq) hp)
      hb)

byte_table : all_below (λ p. all_below (λ b. ltb (bit_or b (2 ^ (7 - p))) 256) 256) 8 ≡ true
byte_table = refl

pub bit_or-byte : (b p : ℕ) → b < 256 → p < 8 → bit_or b (2 ^ (7 - p)) < 256
bit_or-byte b p hb hp = ground (
  arith,
  all_below-holds (λ (x : ℕ). ltb (bit_or x (2 ^ (7 - p))) 256) 256 b
      (all_below-holds (λ (y : ℕ). all_below (λ b. ltb (bit_or b (2 ^ (7 - y))) 256) 256) 8 p
        byte_table hp)
      hb,
)
