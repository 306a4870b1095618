-- ===== src/Wire/Sack.antt =====
-- What the receiver of a SACK learns (courier/protocol.py, courier/network_io.py): the ids that the
-- bitmap and the watermark stand for.
use Prim.Native.Nat.{bit_and, bit_and-bitwise}
use cs60_final_project.Common.{
  ℕ, zero, suc, ◌+◌, ◌-◌, ◌*◌, ◌/◌, ◌%◌, ◌^◌, ◌<◌, ◌≡◌, refl, ap, ◌∙◌, Bool, true, false, ◌&&◌,
  ◌||◌, [], ◌∷◌, Bytes, get_or, replicate, range, range_from, arith, ltb, leb, ◌==◌, if◌then◌else◌,
  Bool-cases, inl, inr, All, length-replicate, get_or-replicate, ltb→lt,
}
use cs60_final_project.Common.Int.{ℤ, next}
use cs60_final_project.Common.NatSet.{NatSet, mem, add, of_list, mem-add, mem-add_all, IsSorted}
use cs60_final_project.Common.ByteBits.{bit}
use cs60_final_project.Protocol.{
  scan_watermark, max_of, high_end, fill_bitmap, sack_bitmap_of, sack_window_of,
}
use cs60_final_project.Protocol.Bitmap.{bit_at, IsByte, bit_at-fill_bitmap}
use cs60_final_project.Protocol.Watermark.{scan_watermark-IsFirstMissing, mem-max_of}
use cs60_final_project.Wire.{read_bits, read_bitmap, acked_of}

zero-bit : (p : ℕ) → bit 0 p ≡ false
zero-bit p = let e : bit_and 0 (2 ^ (7 - p)) ≡ 0 = bit_and-bitwise 0 (2 ^ (7 - p)) in rw e

-- The ids from `low` on, `n` of them, whose bit of the byte b is set; the byte starts at `start`.
abbrev hit_in_byte : ℕ → ℕ → ℕ → ℕ → ℕ → Bool
hit_in_byte start low n b x = leb low x && (ltb x (low + n) && bit b (x - start))

read_bit :
    (id b p x : ℕ) (s : NatSet)
    → mem x (if bit_and b (2 ^ (7 - p)) == 0 then s else add id s)
      ≡ (((id == x) && bit b p) || mem x s)
read_bit id b p x s = elim (Bool-cases (bit_and b (2 ^ (7 - p)) == 0)) [
  | inl off ↦ rw off (ground arith)
  | inr on ↦ rw on (mem-add id x s ∙ ground arith)
]

more_bits :
    (start p left b x : ℕ) (m : Bool)
    → (hit_in_byte start (start + suc p) left b x || ((((start + p) == x) && bit b p) || m))
      ≡ (hit_in_byte start (start + p) (suc left) b x || m)
more_bits start p left b x m = elim (Bool-cases ((start + p) == x)) [
  | inl here ↦
      let e : p ≡ x - start = ground arith in
      let t : bit b p ≡ bit b (x - start) = ap (bit b) e in ground (arith, t)
  | inr there ↦ ground (arith, there)
]

mem-read_bits :
    (left bit_pos base byte_index b x : ℕ) (s : NatSet)
    → mem x (read_bits left bit_pos base byte_index b s)
      ≡ (hit_in_byte (base + byte_index * 8) (base + byte_index * 8 + bit_pos) left b x || mem x s)
unfolding read_bits
mem-read_bits zero bit_pos base byte_index b x s = ground arith
mem-read_bits (suc left) bit_pos base byte_index b x s =
    let start = base + byte_index * 8 in
    mem-read_bits left (suc bit_pos) base byte_index b x _
    ∙ ap (λ t. hit_in_byte start (start + suc bit_pos) left b x || t)
        (read_bit (start + bit_pos) b bit_pos x s)
    ∙ more_bits start bit_pos left b x (mem x s)

bit_at-first : (j b : ℕ) (bitmap : Bytes) → j < 8 → bit_at j (b ∷ bitmap) ≡ bit b j
bit_at-first j b bitmap h =
    let byte : j / 8 ≡ 0 = omega arith in
    let place : j % 8 ≡ j = omega arith in
    ap (λ t. bit (get_or (b ∷ bitmap) t 0) (j % 8)) byte ∙ ap (bit b) place

bit_at-later : (j b : ℕ) (bitmap : Bytes) → bit_at (8 + j) (b ∷ bitmap) ≡ bit_at j bitmap
bit_at-later j b bitmap =
    let byte : (8 + j) / 8 ≡ suc (j / 8) = omega arith in
    let place : (8 + j) % 8 ≡ j % 8 = omega arith in
    ap (λ t. bit (get_or (b ∷ bitmap) t 0) ((8 + j) % 8)) byte
    ∙ ap (bit (get_or bitmap (j / 8) 0)) place

one_byte :
    (start b x : ℕ) (bitmap : Bytes) (m : Bool)
    → ((leb (start + 8) x && bit_at (x - (start + 8)) bitmap)
        || (hit_in_byte start (start + 0) 8 b x || m))
      ≡ ((leb start x && bit_at (x - start) (b ∷ bitmap)) || m)
one_byte start b x bitmap m = elim (Bool-cases (leb (start + 8) x)) [
  | inl later ↦
      let e : x - start ≡ 8 + (x - (start + 8)) = ground arith in
      let t : bit_at (x - start) (b ∷ bitmap) ≡ bit_at (x - (start + 8)) bitmap =
        ap (λ j. bit_at j (b ∷ bitmap)) e ∙ bit_at-later (x - (start + 8)) b bitmap in
      rw t (ground (arith, later))
  | inr within ↦ elim (Bool-cases (leb start x)) [
    | inl here ↦
        let t : bit_at (x - start) (b ∷ bitmap) ≡ bit b (x - start) =
          bit_at-first (x - start) b bitmap (ground arith) in
        rw t (ground (arith, within, here))
    | inr before ↦ rw (before, within) (ground (arith, before))
  ]
]

mem-read_bitmap :
    (base byte_index : ℕ) (bitmap : Bytes) (x : ℕ) (s : NatSet)
    → mem x (read_bitmap base byte_index bitmap s)
      ≡ ((leb (base + byte_index * 8) x && bit_at (x - (base + byte_index * 8)) bitmap) || mem x s)
unfolding read_bitmap
mem-read_bitmap base byte_index [] x s =
    rw (zero-bit ((x - (base + byte_index * 8)) % 8)) (ground arith)
mem-read_bitmap base byte_index (b ∷ bitmap) x s =
    let start = base + byte_index * 8 in
    let e : base + suc byte_index * 8 ≡ start + 8 = omega arith in
    mem-read_bitmap base (suc byte_index) bitmap x (read_bits 8 0 base byte_index b s)
    ∙ ap (λ t. (leb t x && bit_at (x - t) bitmap) || mem x (read_bits 8 0 base byte_index b s)) e
    ∙ ap (λ t. (leb (start + 8) x && bit_at (x - (start + 8)) bitmap) || t)
        (mem-read_bits 8 0 base byte_index b x s)
    ∙ one_byte start b x bitmap (mem x s)

mem-range_from : (i n x : ℕ) → mem x (range_from i n) ≡ (leb i x && ltb x (i + n))
mem-range_from i zero x = ground arith
mem-range_from i (suc n) x = ground (arith, mem-range_from (suc i) n x)

all_below :
    {start base : ℕ} (e : start ≡ base) (x : ℕ) (t : ℕ → Bool)
    → ((leb start x && t start) || ((leb 0 x && ltb x (0 + (base - 0))) || false))
      ≡ (ltb x base || t base)
all_below {start} {base} e x t = rw e (ground arith)

-- The ids below `base` and those of the bitmap.
pub mem-acked_of :
    (watermark : ℤ) (bitmap : Bytes) (x : ℕ)
    → mem x (acked_of watermark bitmap)
      ≡ (ltb x (next watermark) || bit_at (x - next watermark) bitmap)
unfolding acked_of
mem-acked_of watermark bitmap x =
    let base = next watermark in
    let start_eq : base + 0 * 8 ≡ base = omega arith in
    mem-read_bitmap base 0 bitmap x (of_list (range 0 base))
    ∙ ap (λ t. (leb (base + 0 * 8) x && bit_at (x - (base + 0 * 8)) bitmap) || t)
        (mem-add_all (range 0 base) x [] ∙ ap (λ t. t || false) (mem-range_from 0 (base - 0) x))
    ∙ all_below start_eq x (λ t. bit_at (x - t) bitmap)

module _ (s : NatSet) (base : ℕ) where
  abbrev highest : ℕ
  highest = high_end base (max_of s)

  abbrev blank : Bytes
  blank = replicate ((highest - base + 1 + 7) / 8) 0

  blank-IsByte : (n : ℕ) → All IsByte (replicate n 0)
  blank-IsByte zero = tt
  blank-IsByte (suc n) = (omega arith, blank-IsByte n)

  bit_at-blank : (j n : ℕ) → bit_at j (replicate n 0) ≡ false
  bit_at-blank j n = ap (λ t. bit t (j % 8)) (get_or-replicate n (j / 8) 0) ∙ zero-bit (j % 8)

  bit_at-filled :
      (j : ℕ)
      → bit_at j (fill_bitmap base highest s blank) ≡ (leb (base + j) highest && mem (base + j) s)
  bit_at-filled j =
      let size = length-replicate {A = ℕ} ((highest - base + 1 + 7) / 8) 0 in
      bit_at-fill_bitmap base highest s j blank (blank-IsByte _) (omega (arith, size))
      ∙ ap (λ t. (leb (base + j) highest && mem (base + j) s) || t) (bit_at-blank j _)
      ∙ ground arith

  window_test :
      (j : ℕ) → (leb (base + j) highest && mem (base + j) s) ≡ (mem (base + j) s && ltb j 2048)
  window_test j = elim (Bool-cases (mem (base + j) s)) [
    | inl there ↦ rw there (ground (arith, mem-max_of (base + j) s there))
    | inr absent ↦ rw absent (ground arith)
  ]

if-absent : (s : NatSet) (x : ℕ) → max_of s < x → mem x s ≡ false
if-absent s x h = ground (arith, mem-max_of x s)

-- Bit j of the bitmap is set for an id base + j of the set that lies in the window.
pub bit_at-sack_bitmap_of :
    (s : NatSet) (watermark : ℤ) (j : ℕ)
    → bit_at j (sack_bitmap_of s watermark) ≡ (mem (next watermark + j) s && ltb j 2048)
unfolding sack_bitmap_of
bit_at-sack_bitmap_of s watermark j =
    let base = next watermark in
    elim (Bool-cases (ltb (max_of s) base)) [
      | inl none_above ↦
          let absent : mem (base + j) s ≡ false =
            if-absent s (base + j) (ground (arith, none_above)) in
          rw (none_above, absent) (zero-bit (j % 8))
      | inr some_above ↦ rw some_above (bit_at-filled s base j ∙ window_test s base j)
    ]

window_mem :
    (s : NatSet) (base x : ℕ)
    → (x < base → mem x s ≡ true)
    → (ltb x base || (mem (base + (x - base)) s && ltb (x - base) 2048))
      ≡ (mem x s && ltb x (base + 2048))
window_mem s base x below = elim (Bool-cases (ltb x base)) [
  | inl before ↦ ground (arith, before, below (ltb→lt x base before))
  | inr from ↦
      let e : base + (x - base) ≡ x = ground (arith, from) in rw (from, e) (ground (arith, from))
]

-- The watermark and the bitmap of a sorted set of ids stand for the ids of the set below the end of
-- the window: 2048 ids from the first one that is missing.
pub mem-sack_window_of :
    (s : NatSet) (x : ℕ)
    → IsSorted s
    → let (watermark, bitmap) = sack_window_of s in
      mem x (acked_of watermark bitmap) ≡ (mem x s && ltb x (next watermark + 2048))
unfolding sack_window_of
mem-sack_window_of [] x h =
    mem-acked_of (ℤ.negsuc 0) [] x ∙ ap (λ t. ltb x 0 || t) (zero-bit ((x - 0) % 8)) ∙ ground arith
mem-sack_window_of (c ∷ cs) x h =
    let s = c ∷ cs in
    let watermark = scan_watermark s (ℤ.negsuc 0) 0 in
    let first = scan_watermark-IsFirstMissing s (ℤ.negsuc 0) 0 h refl in
    mem-acked_of watermark (sack_bitmap_of s watermark) x
    ∙ ap (λ t. ltb x (next watermark) || t) (bit_at-sack_bitmap_of s watermark (x - next watermark))
    ∙ window_mem s (next watermark) x (λ p. first.1 x (omega arith) p)
