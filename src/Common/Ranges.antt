-- ===== src/Common/Ranges.antt =====
-- Lists that map a function over a range of numbers: their slices, elements and lengths.
use Prim.Native.Nat.{ℕ, zero, suc, ◌+◌, ◌-◌, ◌<◌, min}
use mathlib.Core.Path.{◌≡◌, refl, ap, ap₂, ◌∙◌}
use mathlib.Core.Logic.{◌⊎◌, inl, inr}
use mathlib.Core.Option.{some}
use mathlib.Core.List.{List, [], ◌∷◌, ◌++◌, map}
use native.Mathlib.Omega.{arith}
use cs60_final_project.Common.Lists.{length, get_elem?, take, drop, range_from}

module _ {A : Type 0} where
  pub length-map_range : (g : ℕ → A) (i m : ℕ) → length (map g (range_from i m)) ≡ m
  length-map_range g i zero = refl
  length-map_range g i (suc m) = ap suc (length-map_range g (suc i) m)

  pub map_range_eq :
      (g : ℕ → A) {i j m n : ℕ} → i ≡ j → m ≡ n → map g (range_from i m) ≡ map g (range_from j n)
  map_range_eq g p q = ap₂ (λ x y. map g (range_from x y)) p q

  pub drop-map_range :
      (g : ℕ → A) (a i m : ℕ) → drop a (map g (range_from i m)) ≡ map g (range_from (i + a) (m - a))
  drop-map_range g zero i m = map_range_eq g (omega arith) (omega arith)
  drop-map_range g (suc a) i zero =
      map_range_eq g {i = i + suc a} {j = i + suc a} {m = 0} {n = 0 - suc a} refl (omega arith)
  drop-map_range g (suc a) i (suc m) =
      drop-map_range g a (suc i) m ∙ map_range_eq g (omega arith) (omega arith)

  pub take-map_range :
      (g : ℕ → A) (k i m : ℕ) → take k (map g (range_from i m)) ≡ map g (range_from i (min k m))
  take-map_range g zero i m =
      map_range_eq g {i = i} {j = i} {m = 0} {n = min 0 m} refl (omega arith)
  take-map_range g (suc k) i zero =
      map_range_eq g {i = i} {j = i} {m = 0} {n = min (suc k) 0} refl (omega arith)
  take-map_range g (suc k) i (suc m) =
      ap (λ t. g i ∷ t) (take-map_range g k (suc i) m)
      ∙ map_range_eq g {i = i} {j = i} {m = suc (min k m)} {n = min (suc k) (suc m)} refl
          (omega arith)

  pub get_elem?-map_range :
      (g : ℕ → A) (i m x : ℕ) {c : A}
      → get_elem? (map g (range_from i m)) x ≡ some c
      → (x < m) × (c ≡ g (i + x))
  get_elem?-map_range g i zero x e = absurd (cc)
  get_elem?-map_range g i (suc m) zero {c} e =
      (omega arith, let h : c ≡ g i = cc in h ∙ ap g (omega arith))
  get_elem?-map_range g i (suc m) (suc x) e =
      let rest = get_elem?-map_range g (suc i) m x e in
      (omega (arith, rest.0), rest.1 ∙ ap g (omega arith))

  pub get_elem?-append :
      (xs ys : List A) (x : ℕ) {c : A}
      → get_elem? (xs ++ ys) x ≡ some c
      → (get_elem? xs x ≡ some c) ⊎ (get_elem? ys (x - length xs) ≡ some c)
  get_elem?-append [] ys x e = inr (ap (get_elem? ys) (omega arith) ∙ e)
  get_elem?-append (y ∷ xs) ys zero e = inl e
  get_elem?-append (y ∷ xs) ys (suc x) e = elim (get_elem?-append xs ys x e) [
    | inl h ↦ inl h
    | inr h ↦ inr (ap (get_elem? ys) (omega arith) ∙ h)
  ]
