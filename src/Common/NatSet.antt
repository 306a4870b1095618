-- ===== src/Common/NatSet.antt =====
-- Python's sets of non-negative integers, as their elements in ascending order without
-- repetition. `sorted(s)` is then the list itself.
use cs60_final_project.Common.Tests.{ltb, ◌==◌, if◌then◌else◌, ==_iff, Bool-cases}
use cs60_final_project.Common.Lists.{length, All}
use Prim.Native.Nat.{ℕ, suc, ◌≤◌, ◌<◌}
use mathlib.Core.Path.{◌≡◌, refl, ap₂, subst}
use mathlib.Core.Logic.{inl, inr}
use mathlib.Core.Bool.{Bool, true, false, ◌||◌}
use mathlib.Core.List.{List, [], ◌∷◌, ◌++◌}
use native.Mathlib.Omega.{arith}

abbrev pub NatSet : Type 0
NatSet = List ℕ

-- x in s
abbrev pub mem : ℕ → NatSet → Bool
mem x [] = false
mem x (y ∷ s) = (y == x) || mem x s

-- s.add(x)
abbrev pub add : ℕ → NatSet → NatSet
add x [] = x ∷ []
add x (y ∷ s) = if ltb x y then x ∷ y ∷ s else if x == y then y ∷ s else y ∷ add x s

-- s.update(xs)
abbrev pub add_all : List ℕ → NatSet → NatSet
add_all [] s = s
add_all (x ∷ xs) s = add_all xs (add x s)

-- set(xs)
abbrev pub of_list : List ℕ → NatSet
of_list xs = add_all xs []

-- s.discard(x)
abbrev pub discard : ℕ → NatSet → NatSet
discard x [] = []
discard x (y ∷ s) = let rest = discard x s in if y == x then rest else y ∷ rest

-- s - t
abbrev pub difference : NatSet → NatSet → NatSet
difference [] t = []
difference (x ∷ s) t = let rest = difference s t in if mem x t then rest else x ∷ rest

-- Every element is above `b`, and they ascend.
abbrev pub IsAbove : ℕ → NatSet → Type 0
IsAbove b [] = Unit
IsAbove b (x ∷ s) = (b ≤ x) × IsAbove (suc x) s

abbrev pub IsSorted : NatSet → Type 0
IsSorted s = IsAbove 0 s

pub mem-add : (x y : ℕ) (s : NatSet) → mem y (add x s) ≡ ((x == y) || mem y s)
mem-add x y [] = refl
mem-add x y (z ∷ s) = ground (arith, mem-add x y s)

pub mem-add_all : (xs : List ℕ) (y : ℕ) (s : NatSet) → mem y (add_all xs s) ≡ (mem y xs || mem y s)
mem-add_all [] y s = refl
mem-add_all (x ∷ xs) y s = ground (arith, mem-add_all xs y (add x s), mem-add x y s)

pub mem-append : (y : ℕ) (xs ys : List ℕ) → mem y (xs ++ ys) ≡ (mem y xs || mem y ys)
mem-append y [] ys = refl
mem-append y (x ∷ xs) ys = ground (arith, mem-append y xs ys)

pub mem-discard : (x y : ℕ) (s : NatSet) → mem y (discard x s) ≡ (if x == y then false else mem y s)
mem-discard x y [] = ground arith
mem-discard x y (z ∷ s) = ground (arith, mem-discard x y s)

pub mem-difference :
    (y : ℕ) (s t : NatSet) → mem y (difference s t) ≡ (if mem y t then false else mem y s)
mem-difference y [] t = ground arith
mem-difference y (x ∷ s) t = ground (arith, mem-difference y s t, ==_iff x y)

pub IsAbove-weaken : {b c : ℕ} (s : NatSet) → b ≤ c → IsAbove c s → IsAbove b s
IsAbove-weaken [] h p = tt
IsAbove-weaken (x ∷ s) h p = (omega arith, p.1)

pub add-IsAbove : (b x : ℕ) (s : NatSet) → b ≤ x → IsAbove b s → IsAbove b (add x s)
add-IsAbove b x [] h p = (h, tt)
add-IsAbove b x (y ∷ s) h p = ground (arith, add-IsAbove (suc y) x s)

pub add_all-IsSorted : (xs : List ℕ) (s : NatSet) → IsSorted s → IsSorted (add_all xs s)
add_all-IsSorted [] s p = p
add_all-IsSorted (x ∷ xs) s p = add_all-IsSorted xs (add x s) (add-IsAbove 0 x s (omega arith) p)

pub of_list-IsSorted : (xs : List ℕ) → IsSorted (of_list xs)
of_list-IsSorted xs = add_all-IsSorted xs [] tt

pub mem-below : (b x : ℕ) (s : NatSet) → IsAbove b s → x < b → mem x s ≡ false
mem-below b x [] p h = refl
mem-below b x (y ∷ s) p h = ground (arith, mem-below (suc y) x s)

-- A sorted set is determined by its elements.
pub IsSorted_ext :
    (b : ℕ) (s t : NatSet) → IsAbove b s → IsAbove b t → ((x : ℕ) → mem x s ≡ mem x t) → s ≡ t
IsSorted_ext b [] [] p q h = refl
IsSorted_ext b [] (y ∷ t) p q h = absurd (ground (arith, h y))
IsSorted_ext b (x ∷ s) [] p q h = absurd (ground (arith, h x))
IsSorted_ext b (x ∷ s) (y ∷ t) p q h = ap₂ ◌∷◌ same (IsSorted_ext (suc x) s t p.1 q' rest)
  where
    same : x ≡ y
    same = ground (arith, h x, h y, mem-below (suc x) y s p.1, mem-below (suc y) x t q.1)

    q' : IsAbove (suc x) t
    q' = ground (arith, same)

    rest : (z : ℕ) → mem z s ≡ mem z t
    rest z = ground (arith, h z, mem-below (suc x) z s p.1, mem-below (suc y) z t q.1, same)

pub length-add : (x : ℕ) (s : NatSet) → length (add x s) ≤ suc (length s)
length-add x [] = omega arith
length-add x (y ∷ s) = ground (arith, length-add x s)

-- What holds of every element of a list, and back.
pub mem-All : (P : ℕ → Type 0) (i : ℕ) (xs : List ℕ) → All P xs → mem i xs ≡ true → P i
mem-All P i [] h e = absurd (cc)
mem-All P i (x ∷ xs) h e = elim (Bool-cases (x == i)) [
  | inl same ↦ subst P ((==_iff x i).0 same) h.0
  | inr other ↦ mem-All P i xs h.1 (ground (arith, e, other))
]

pub All-mem : (P : ℕ → Type 0) (xs : List ℕ) → ((i : ℕ) → mem i xs ≡ true → P i) → All P xs
All-mem P [] h = tt
All-mem P (x ∷ xs) h =
    (h x (ground (arith, ==_iff x x)), All-mem P xs (λ i k. h i (ground (arith, k))))
