-- ===== src/Common/Counting.antt =====
-- How many elements a sorted set has that holds a whole range of numbers.
use cs60_final_project.Common.Tests.{◌==◌, ltb, Bool-cases}
use cs60_final_project.Common.Lists.{length, All}
use cs60_final_project.Common.NatSet.{NatSet, mem, IsAbove, mem-below}
use Prim.Native.Nat.{ℕ, suc, ◌+◌, ◌-◌, ◌≤◌, ◌<◌}
use mathlib.Core.Path.{◌≡◌, refl}
use mathlib.Core.Logic.{inl, inr}
use mathlib.Core.Bool.{true}
use mathlib.Core.List.{[], ◌∷◌}
use native.Mathlib.Omega.{arith}

-- A sorted set that holds the numbers from `b` up to `n` has that many elements.
pub length-of_full :
    (b n : ℕ) (s : NatSet)
    → IsAbove b s
    → ((i : ℕ) → b ≤ i → i < n → mem i s ≡ true)
    → n ≤ b + length s
length-of_full b n [] p h = elim (Bool-cases (ltb b n)) [
  | inl less ↦ absurd (ground (arith, h b, less))
  | inr more ↦ ground arith
]
length-of_full b n (x ∷ s) p h = elim (Bool-cases (ltb b n)) [
  | inl less ↦
      let here : x ≡ b = ground (arith, h b, less, mem-below (suc x) b s p.1) in
      let rest =
        length-of_full (suc b) n s (rw (← here) p.1) (λ i k l. ground (arith, h i, here)) in
      omega (arith, rest)
  | inr more ↦ ground arith
]

length-bounded : (b n : ℕ) (s : NatSet) → IsAbove b s → All (λ (i : ℕ). i < n) s → length s ≤ n - b
length-bounded b n [] p h = omega arith
length-bounded b n (x ∷ s) p h = omega (arith, length-bounded (suc x) n s p.1 h.1, p.0, h.0)

-- A sorted set of numbers from `b` up to `n` that has so many elements holds each of them.
pub full-of_length :
    (b n : ℕ) (s : NatSet)
    → IsAbove b s
    → All (λ (i : ℕ). i < n) s
    → n ≤ b + length s
    → (i : ℕ) → b ≤ i
    → i < n
    → mem i s ≡ true
full-of_length b n [] p h l i k m = absurd (omega arith)
full-of_length b n (x ∷ s) p h l i k m =
    let here : x ≡ b = omega (arith, length-bounded (suc x) n s p.1 h.1, p.0, h.0, l) in
    elim (Bool-cases (x == i)) [
      | inl same ↦ rw same refl
      | inr other ↦
          let rest =
            full-of_length (suc b) n s (rw (← here) p.1) h.1 (omega (arith, l)) i
              (ground (arith, here, other, k)) m in
          ground (arith, rest)
    ]
