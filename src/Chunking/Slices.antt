-- ===== src/Chunking/Slices.antt =====
-- The pieces of a file (courier/send_engine.py, `_create_chunks`): their lengths, and that they
-- join up to the file.
use native.Mathlib.Nat.{mul-div-le, lt-mul-div-succ}
use cs60_final_project.Common.{
  ℕ, zero, suc, ◌+◌, ◌-◌, ◌*◌, ◌/◌, ◌≤◌, ◌<◌, min, ◌≡◌, sym, ap, ◌∙◌, inl, inr, Bool-cases, List,
  [], ◌∷◌, ◌++◌, Bytes, length, take, drop, leb, leb→le, arith, length-take, length-drop,
  take-append-drop, take-of_le, drop-of_le,
}
use cs60_final_project.Layout.{ceil_div}
use cs60_final_project.Chunking.{piece}

pub drop-drop : {A : Type 0} (a b : ℕ) (xs : List A) → drop b (drop a xs) ≡ drop (a + b) xs
drop-drop zero b xs = ap (λ n. drop n xs) (omega arith)
drop-drop (suc a) b [] =
    drop-of_le b [] (omega arith) ∙ sym (drop-of_le (suc a + b) [] (omega arith))
drop-drop (suc a) b (x ∷ xs) =
    drop-drop a b xs
    ∙ ap (λ n. drop n (x ∷ xs)) (let e : suc (a + b) ≡ suc a + b = omega arith in e)

pub piece-eq-take : (cs : ℕ) (f : Bytes) (i : ℕ) → piece cs f i ≡ take cs (drop (i * cs) f)
unfolding piece
piece-eq-take cs f i = elim (Bool-cases (leb (i * cs + cs) (length f))) [
  | inl full ↦
      let e : min (i * cs + cs) (length f) - i * cs ≡ cs =
        omega (arith, leb→le (i * cs + cs) (length f) full) in
      ap (λ n. take n (drop (i * cs) f)) e
  | inr short ↦
      take-of_le (min (i * cs + cs) (length f) - i * cs) (drop (i * cs) f)
        (ground (arith, length-drop (i * cs) f))
      ∙ sym (take-of_le cs (drop (i * cs) f) (ground (arith, length-drop (i * cs) f)))
]

pub length-piece : (cs : ℕ) (f : Bytes) (i : ℕ) → length (piece cs f i) ≡ min cs (length f - i * cs)
length-piece cs f i =
    rw piece-eq-take (omega (arith, length-take cs (drop (i * cs) f), length-drop (i * cs) f))

-- A piece and what follows it.
pub piece-append :
    (cs : ℕ) (f : Bytes) (i : ℕ) → piece cs f i ++ drop (suc i * cs) f ≡ drop (i * cs) f
piece-append cs f i =
    let e : i * cs + cs ≡ suc i * cs = omega arith in
    rw piece-eq-take (
      ap (λ t. take cs (drop (i * cs) f) ++ t)
        (ap (λ n. drop n f) (sym e) ∙ sym (drop-drop (i * cs) cs f))
      ∙ take-append-drop cs (drop (i * cs) f))

-- The number of pieces, as far as the other lemmas use it.
pub pieces_bounds :
    (cs : ℕ) (f : Bytes)
    → 0 < cs
    → let n = ceil_div (length f) cs in (length f ≤ n * cs) × (n * cs < length f + cs)
pieces_bounds cs f h =
    let lower : cs * ((length f + cs - 1) / cs) ≤ length f + cs - 1 =
      mul-div-le (length f + cs - 1) cs in
    let upper : length f + cs - 1 < cs * ((length f + cs - 1) / cs + 1) =
      lt-mul-div-succ (length f + cs - 1) h in
    (omega arith, omega arith)
