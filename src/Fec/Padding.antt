-- ===== src/Fec/Padding.antt =====
-- The XOR loops byte by byte: a shorter payload counts as padded with zeros.
use Prim.Native.Nat.{bit_xor}
use cs60_final_project.Common.{
  ℕ, zero, suc, ◌+◌, ◌-◌, ◌≤◌, ◌<◌, max, min, ◌≡◌, refl, sym, ◌∙◌, ap, List, [], ◌∷◌, ◌++◌, Bytes,
  length, get_or, drop, arith, ltb, length-append, length-drop, length-set, get_or-set_self,
  get_or-set_ne, get_or-append_left, get_or-append_right, get_or-drop, get_or-beyond, inl, inr,
  Bool-cases, ltb→lt, if◌then◌else◌,
}
use cs60_final_project.Common.Xor.{bit_xor-zero, zero-bit_xor, bit_xor_assoc}
use cs60_final_project.Fec.{xor_loop, xor_into, xor_bytes}

length-xor_loop : (n i : ℕ) (r p : Bytes) → length (xor_loop n i r p) ≡ length r
unfolding xor_loop
length-xor_loop zero i r p = refl
length-xor_loop (suc n) i r p =
    length-xor_loop n (suc i) _ p ∙ length-set r i (bit_xor (get_or r i 0) (get_or p i 0))

-- The loop leaves alone what lies outside its range.
get_or-xor_loop_below :
    (n i j : ℕ) (r p : Bytes) → j < i → get_or (xor_loop n i r p) j 0 ≡ get_or r j 0
unfolding xor_loop
get_or-xor_loop_below zero i j r p h = refl
get_or-xor_loop_below (suc n) i j r p h =
    get_or-xor_loop_below n (suc i) j _ p (omega arith) ∙ get_or-set_ne r i j _ 0 (omega arith)

get_or-xor_loop_above :
    (n i j : ℕ) (r p : Bytes) → i + n ≤ j → get_or (xor_loop n i r p) j 0 ≡ get_or r j 0
unfolding xor_loop
get_or-xor_loop_above zero i j r p h = refl
get_or-xor_loop_above (suc n) i j r p h =
    get_or-xor_loop_above n (suc i) j _ p (omega arith) ∙ get_or-set_ne r i j _ 0 (omega arith)

get_or-xor_loop :
    (n i j : ℕ) (r p : Bytes)
    → i + n ≤ length r
    → i ≤ j
    → j < i + n
    → get_or (xor_loop n i r p) j 0 ≡ bit_xor (get_or r j 0) (get_or p j 0)
unfolding xor_loop
get_or-xor_loop zero i j r p fits lo hi = absurd (omega arith)
get_or-xor_loop (suc n) i j r p fits lo hi = elim (Bool-cases (ltb i j)) [
  | inl later ↦
      get_or-xor_loop n (suc i) j _ p
        (omega (arith, length-set r i (bit_xor (get_or r i 0) (get_or p i 0))))
        (omega (arith, ltb→lt i j later)) (omega arith)
      ∙ ap (λ t. bit_xor t (get_or p j 0))
          (get_or-set_ne r i j _ 0 (omega (arith, ltb→lt i j later)))
  | inr now ↦
      let e : i ≡ j = ground arith in
      get_or-xor_loop_below n (suc i) j _ p (omega arith)
      ∙ rw (← e) (get_or-set_self r i _ 0 (omega arith))
]

-- The tail that a longer payload adds.
extended : Bytes → Bytes → Bytes
extended mixed p = if ltb (length mixed) (length p) then mixed ++ drop (length mixed) p else mixed

length-extended : (m p : Bytes) → length (extended m p) ≡ max (length m) (length p)
unfolding extended
length-extended m p = ground (arith, length-append m (drop (length m) p), length-drop (length m) p)

get_or-extended_left :
    (m p : Bytes) (j : ℕ) → j < length m → get_or (extended m p) j 0 ≡ get_or m j 0
unfolding extended
get_or-extended_left m p j h = ground (arith, get_or-append_left m (drop (length m) p) j 0 h)

get_or-extended_right :
    (m p : Bytes) (j : ℕ) → length m ≤ j → get_or (extended m p) j 0 ≡ get_or p j 0
unfolding extended
get_or-extended_right m p j h = elim (Bool-cases (ltb (length m) (length p))) [
  | inl longer ↦ rw longer (
      get_or-append_right m (drop (length m) p) j 0 h
      ∙ get_or-drop (length m) p (j - length m) 0
      ∙ ap (λ i. get_or p i 0) (omega arith))
  | inr enough ↦ rw enough (get_or-beyond m j 0 h ∙ sym (get_or-beyond p j 0 (ground arith)))
]

xor_into-eq_extended :
    (r p : Bytes) → xor_into r p ≡ extended (xor_loop (min (length r) (length p)) 0 r p) p
unfolding xor_into extended
xor_into-eq_extended r p = refl

pub length-xor_into : (r p : Bytes) → length (xor_into r p) ≡ max (length r) (length p)
length-xor_into r p = rw xor_into-eq_extended (
    omega (
      arith,
      length-extended (xor_loop (min (length r) (length p)) 0 r p) p,
      length-xor_loop (min (length r) (length p)) 0 r p,
    ))

-- What the loop leaves at each index of the result.
get_or-mixed :
    (r p : Bytes) (j : ℕ)
    → j < length r
    → get_or (xor_loop (min (length r) (length p)) 0 r p) j 0
      ≡ bit_xor (get_or r j 0) (get_or p j 0)
get_or-mixed r p j h = elim (Bool-cases (ltb j (length p))) [
  | inl both ↦
      get_or-xor_loop (min (length r) (length p)) 0 j r p (omega arith) (omega arith)
        (omega (arith, ltb→lt j (length p) both))
  | inr short ↦
      get_or-xor_loop_above (min (length r) (length p)) 0 j r p (ground arith)
      ∙ sym (rw (get_or-beyond p j 0 (ground arith)) (bit_xor-zero (get_or r j 0)))
]

-- Byte j of the result is the XOR of the bytes j, a byte past the end counting as zero.
pub get_or-xor_into :
    (r p : Bytes) (j : ℕ) → get_or (xor_into r p) j 0 ≡ bit_xor (get_or r j 0) (get_or p j 0)
get_or-xor_into r p j =
    let m = xor_loop (min (length r) (length p)) 0 r p in
    let size = length-xor_loop (min (length r) (length p)) 0 r p in
    rw xor_into-eq_extended (elim (Bool-cases (ltb j (length r))) [
      | inl inside ↦
          get_or-extended_left m p j (omega (arith, size, ltb→lt j (length r) inside))
          ∙ get_or-mixed r p j (ltb→lt j (length r) inside)
      | inr outside ↦
          get_or-extended_right m p j (ground (arith, size))
          ∙ sym (rw (get_or-beyond r j 0 (ground arith)) (zero-bit_xor (get_or p j 0)))
    ])

-- The XOR of the bytes j of several payloads, and the length of the longest.
abbrev pub mix : ℕ → List Bytes → ℕ
mix j [] = 0
mix j (p ∷ ps) = bit_xor (get_or p j 0) (mix j ps)

abbrev pub longest : List Bytes → ℕ
longest [] = 0
longest (p ∷ ps) = max (length p) (longest ps)

pub length-xor_bytes :
    (r : Bytes) (ps : List Bytes) → length (xor_bytes r ps) ≡ max (length r) (longest ps)
unfolding xor_bytes
length-xor_bytes r [] = omega arith
length-xor_bytes r (p ∷ ps) = omega (arith, length-xor_bytes (xor_into r p) ps, length-xor_into r p)

-- Byte j of the result of `_xor_bytes` is the XOR of the bytes j of its arguments, where a byte past
-- the end of one counts as zero.
pub get_or-xor_bytes :
    (r : Bytes) (ps : List Bytes) (j : ℕ)
    → get_or (xor_bytes r ps) j 0 ≡ bit_xor (get_or r j 0) (mix j ps)
unfolding xor_bytes
get_or-xor_bytes r [] j = sym (bit_xor-zero (get_or r j 0))
get_or-xor_bytes r (p ∷ ps) j =
    get_or-xor_bytes (xor_into r p) ps j
    ∙ ap (λ t. bit_xor t (mix j ps)) (get_or-xor_into r p j)
    ∙ bit_xor_assoc (get_or r j 0) (get_or p j 0) (mix j ps)
