-- ===== src/Protocol/Bitmap.antt =====
-- What stands in the bitmap of a SACK (courier/protocol.py): bit j, counted from the highest bit of
-- the first byte, stands for the id base + j.
use Prim.Native.Nat.{bit_or}
use cs60_final_project.Common.{
  ℕ, zero, suc, ◌+◌, ◌-◌, ◌/◌, ◌%◌, ◌^◌, ◌<◌, ◌≡◌, refl, sym, ap, ◌∙◌, Bool, true, false, ◌&&◌,
  ◌||◌, Bytes, [], ◌∷◌, arith, leb, ◌==◌, Bool-cases, inl, inr, All, length, get_or, set,
  length-set, get_or-set_self, get_or-set_ne,
}
use cs60_final_project.Common.NatSet.{NatSet, mem}
use cs60_final_project.Common.ByteBits.{bit, bit-bit_or, bit_or-byte}
use cs60_final_project.Protocol.{set_bit, fill_bitmap}

abbrev pub bit_at : ℕ → Bytes → Bool
bit_at j bitmap = bit (get_or bitmap (j / 8) 0) (j % 8)

abbrev pub IsByte : ℕ → Type 0
IsByte b = b < 256

get_or-IsByte : (bitmap : Bytes) (i : ℕ) → All IsByte bitmap → get_or bitmap i 0 < 256
get_or-IsByte [] i h = omega arith
get_or-IsByte (b ∷ bitmap) zero h = h.0
get_or-IsByte (b ∷ bitmap) (suc i) h = get_or-IsByte bitmap i h.1

set-IsByte : (bitmap : Bytes) (i b : ℕ) → b < 256 → All IsByte bitmap → All IsByte (set bitmap i b)
set-IsByte [] i b k h = tt
set-IsByte (c ∷ bitmap) zero b k h = (k, h.1)
set-IsByte (c ∷ bitmap) (suc i) b k h = (h.0, set-IsByte bitmap i b k h.1)

set_bit-IsByte : (i : ℕ) (bitmap : Bytes) → All IsByte bitmap → All IsByte (set_bit i bitmap)
set_bit-IsByte i bitmap h =
    set-IsByte bitmap (i / 8) _
      (bit_or-byte _ (i % 8) (get_or-IsByte bitmap (i / 8) h) (omega arith)) h

length-set_bit : (i : ℕ) (bitmap : Bytes) → length (set_bit i bitmap) ≡ length bitmap
length-set_bit i bitmap =
    length-set bitmap (i / 8) (bit_or (get_or bitmap (i / 8) 0) (2 ^ (7 - i % 8)))

bit_at-set_bit :
    (i j : ℕ) (bitmap : Bytes)
    → All IsByte bitmap
    → i / 8 < length bitmap
    → bit_at j (set_bit i bitmap) ≡ ((i == j) || bit_at j bitmap)
bit_at-set_bit i j bitmap bytes inside =
    let v = bit_or (get_or bitmap (i / 8) 0) (2 ^ (7 - i % 8)) in
    elim (Bool-cases ((i / 8) == (j / 8))) [
      | inl same ↦
          let e : i / 8 ≡ j / 8 = ground arith in
          let test : ((i % 8) == (j % 8)) ≡ (i == j) = ground arith in
          ap (λ t. bit (get_or (set bitmap (i / 8) v) t 0) (j % 8)) (sym e)
          ∙ ap (λ t. bit t (j % 8)) (get_or-set_self bitmap (i / 8) v 0 inside)
          ∙ bit-bit_or (get_or bitmap (i / 8) 0) (i % 8) (j % 8)
              (get_or-IsByte bitmap (i / 8) bytes) (omega arith) (omega arith)
          ∙ rw (test, e) refl
      | inr other ↦
          let differ : (i == j) ≡ false = ground arith in
          ap (λ t. bit t (j % 8)) (get_or-set_ne bitmap (i / 8) (j / 8) v 0 (ground arith))
          ∙ rw differ
    ]

-- The ids that the loop writes.
abbrev pub in_window : ℕ → ℕ → ℕ → Bool
in_window base max_high c = leb base c && leb c max_high

module _ (base max_high : ℕ) where
  written :
      (c : ℕ) (cs : NatSet) (bitmap : Bytes)
      → in_window base max_high c ≡ true
      → fill_bitmap base max_high (c ∷ cs) bitmap
        ≡ fill_bitmap base max_high cs (set_bit (c - base) bitmap)
  unfolding fill_bitmap
  written c cs bitmap h = ap (fill_bitmap base max_high cs) (ground (arith, h))

  skipped :
      (c : ℕ) (cs : NatSet) (bitmap : Bytes)
      → in_window base max_high c ≡ false
      → fill_bitmap base max_high (c ∷ cs) bitmap ≡ fill_bitmap base max_high cs bitmap
  unfolding fill_bitmap
  skipped c cs bitmap h = ap (fill_bitmap base max_high cs) (ground (arith, h))

  pub length-fill_bitmap :
      (cs : NatSet) (bitmap : Bytes) → length (fill_bitmap base max_high cs bitmap) ≡ length bitmap
  unfolding fill_bitmap
  length-fill_bitmap [] bitmap = refl
  length-fill_bitmap (c ∷ cs) bitmap = elim (Bool-cases (in_window base max_high c)) [
    | inl in_it ↦
        ap length (written c cs bitmap in_it)
        ∙ length-fill_bitmap cs (set_bit (c - base) bitmap)
        ∙ length-set_bit (c - base) bitmap
    | inr out ↦ ap length (skipped c cs bitmap out) ∙ length-fill_bitmap cs bitmap
  ]

  joined :
      (c j : ℕ) (m t : Bool)
      → in_window base max_high c ≡ true
      → ((leb (base + j) max_high && m) || (((c - base) == j) || t))
        ≡ ((leb (base + j) max_high && ((c == (base + j)) || m)) || t)
  joined c j m t h = ground arith

  left_out :
      (c j : ℕ) (m : Bool)
      → in_window base max_high c ≡ false
      → (leb (base + j) max_high && m) ≡ (leb (base + j) max_high && ((c == (base + j)) || m))
  left_out c j m h = ground arith

  -- Every write lies within the bitmap, if it has a bit for max_high.
  pub bit_at-fill_bitmap :
      (cs : NatSet) (j : ℕ) (bitmap : Bytes)
      → All IsByte bitmap
      → (max_high - base) / 8 < length bitmap
      → bit_at j (fill_bitmap base max_high cs bitmap)
        ≡ ((leb (base + j) max_high && mem (base + j) cs) || bit_at j bitmap)
  unfolding fill_bitmap
  bit_at-fill_bitmap [] j bitmap bytes room = ground arith
  bit_at-fill_bitmap (c ∷ cs) j bitmap bytes room = elim (Bool-cases (in_window base max_high c)) [
    | inl in_it ↦
        let room' : (c - base) / 8 < length bitmap = ground (arith, in_it) in
        ap (bit_at j) (written c cs bitmap in_it)
        ∙ bit_at-fill_bitmap cs j (set_bit (c - base) bitmap)
            (set_bit-IsByte (c - base) bitmap bytes)
            (omega (arith, length-set_bit (c - base) bitmap))
        ∙ ap (λ t. (leb (base + j) max_high && mem (base + j) cs) || t)
            (bit_at-set_bit (c - base) j bitmap bytes room')
        ∙ joined c j (mem (base + j) cs) (bit_at j bitmap) in_it
    | inr out ↦
        ap (bit_at j) (skipped c cs bitmap out)
        ∙ bit_at-fill_bitmap cs j bitmap bytes room
        ∙ ap (λ t. t || bit_at j bitmap) (left_out c j (mem (base + j) cs) out)
  ]
