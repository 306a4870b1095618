-- ===== src/Protocol/Watermark.antt =====
-- The watermark of a SACK (courier/protocol.py).
use cs60_final_project.Common.{
  ℕ, suc, ◌+◌, ◌≤◌, ◌<◌, ◌≡◌, refl, sym, ap, subst, ◌∙◌, true, false, [], ◌∷◌, arith, ◌==◌,
  Bool-cases, inl, inr,
}
use cs60_final_project.Common.Int.{ℤ, next}
use cs60_final_project.Common.NatSet.{NatSet, mem, IsAbove, mem-below}
use cs60_final_project.Protocol.{scan_watermark, max_of}

-- The first id from n on that is not in the set.
abbrev pub IsFirstMissing : NatSet → ℕ → ℕ → Type 0
IsFirstMissing s n base =
    (n ≤ base) × ((x : ℕ) → n ≤ x → x < base → mem x s ≡ true) × (mem base s ≡ false)

scan_on :
    (c : ℕ) (cs : NatSet) (watermark : ℤ) (n : ℕ)
    → c ≡ n
    → scan_watermark (c ∷ cs) watermark n ≡ scan_watermark cs (ℤ.pos c) (suc n)
unfolding scan_watermark
scan_on c cs watermark n e = let one : n + 1 ≡ suc n = omega arith in rw one (ground arith)

scan_stop :
    (c : ℕ) (cs : NatSet) (watermark : ℤ) (n : ℕ)
    → n < c
    → scan_watermark (c ∷ cs) watermark n ≡ watermark
unfolding scan_watermark
scan_stop c cs watermark n h = ground arith

-- The id after the watermark is the first one that is not in the set.
pub scan_watermark-IsFirstMissing :
    (s : NatSet) (watermark : ℤ) (n : ℕ)
    → IsAbove n s
    → next watermark ≡ n
    → IsFirstMissing s n (next (scan_watermark s watermark n))
unfolding scan_watermark
scan_watermark-IsFirstMissing [] watermark n h e =
    (omega (arith, e), λ x p q. absurd (omega (arith, e)), refl)
scan_watermark-IsFirstMissing (c ∷ cs) watermark n h e = elim (Bool-cases (c == n)) [
  | inl here ↦
      let same : c ≡ n = ground arith in
      let rest =
        scan_watermark-IsFirstMissing cs (ℤ.pos c) (suc n)
          (subst (λ t. IsAbove (suc t) cs) same h.1) (ap suc same) in
      let base = next (scan_watermark cs (ℤ.pos c) (suc n)) in
      let found : IsFirstMissing (c ∷ cs) n base = (
        omega (arith, rest.0),
        λ x p q. elim (Bool-cases (c == x)) [
          | inl hit ↦ rw hit
          | inr miss ↦ rw miss (rest.1 x (ground arith) q)
        ],
        ground (arith, rest.0, rest.2),
      ) in
      subst (λ w. IsFirstMissing (c ∷ cs) n (next w)) (sym (scan_on c cs watermark n same)) found
  | inr later ↦
      let above : n < c = ground (arith, h.0) in
      let found : IsFirstMissing (c ∷ cs) n (next watermark) = (
        omega (arith, e),
        λ x p q. absurd (omega (arith, e)),
        ap (λ t. mem t (c ∷ cs)) e ∙ mem-below c n (c ∷ cs) (omega arith, h.1) above,
      ) in
      subst (λ w. IsFirstMissing (c ∷ cs) n (next w)) (sym (scan_stop c cs watermark n above)) found
]

pub mem-max_of : (x : ℕ) (s : NatSet) → mem x s ≡ true → x ≤ max_of s
mem-max_of x [] h = absurd (cc)
mem-max_of x (c ∷ s) h = ground (arith, mem-max_of x s)
