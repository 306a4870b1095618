-- ===== src/Chunking/Restoring.antt =====
-- Pieces of a file that may have zeros behind them, as FEC recovers them, and the file that they
-- join up to (courier/send_engine.py, courier/receive_engine.py).
use cs60_final_project.Common.{
  ℕ, zero, suc, ◌+◌, ◌-◌, ◌*◌, ◌≤◌, ◌<◌, ◌≡◌, refl, sym, ap, ◌∙◌, subst, Bool, false, inl, inr,
  some, Option-cases, List, [], ◌∷◌, ◌++◌, append-nil, append_assoc, Bytes, length, get_or, drop,
  replicate, range, range_from, arith, nat_eq, drop-of_le, get_or_ext,
}
use cs60_final_project.Common.Dict.{Dict, lookup}
use cs60_final_project.Layout.{ceil_div}
use cs60_final_project.Fec.Recovery.{eq-pad_to}
use cs60_final_project.Receiver.{absent_ids, present_values, concat}
use cs60_final_project.Chunking.{piece}
use cs60_final_project.Chunking.Slices.{length-piece, piece-append, pieces_bounds}

-- `q` is `p` with zeros behind it, and no longer than `size`.
pub record Padded (size : ℕ) (p q : Bytes) : Type 0 where
  pub longer : length p ≤ length q
  pub fits : length q ≤ size
  pub same : (j : ℕ) → get_or q j 0 ≡ get_or p j 0

Padded-eq : (size : ℕ) (p q : Bytes) → Padded size p q → q ≡ p ++ replicate (length q - length p) 0
Padded-eq size p q h = eq-pad_to (length q) p q h.longer refl h.same

Padded-eq_full : (size : ℕ) (p q : Bytes) → length p ≡ size → Padded size p q → q ≡ p
Padded-eq_full size p q e h = get_or_ext 0 q p (omega (arith, h.longer, h.fits)) h.same

module _ (cs : ℕ) (f : Bytes) (fec : Bool) where
  -- Bytes that will do for a piece of the file: exactly the piece without FEC.
  abbrev pub IsPiece : ℕ → Bytes → Type 0
  IsPiece i q = Padded cs (piece cs f i) q × (fec ≡ false → q ≡ piece cs f i)

  -- The file with zeros behind it: none without FEC, and at most to the end of the last chunk.
  abbrev pub IsFile : Bytes → Type 0
  IsFile g =
      (z : ℕ) × (g ≡ f ++ replicate z 0)
      × (length f + z ≤ ceil_div (length f) cs * cs)
      × (fec ≡ false → z ≡ 0)

  abbrev AreFrom : ℕ → List Bytes → Type 0
  AreFrom i [] = Unit
  AreFrom i (q ∷ qs) = IsPiece i q × AreFrom (suc i) qs

  present-AreFrom :
      (d : Dict ℕ Bytes) (i m : ℕ)
      → ((j : ℕ) (q : Bytes) → lookup j d ≡ some q → IsPiece j q)
      → absent_ids d (range_from i m) ≡ []
      → AreFrom i (present_values d (range_from i m))
        × (length (present_values d (range_from i m)) ≡ m)
  present-AreFrom d i zero good e = (tt, refl)
  present-AreFrom d i (suc m) good e = elim (Option-cases (lookup i d)) [
    | inl missing ↦ absurd (ground (arith, e, missing))
    | inr (q, held) ↦
        let rest = present-AreFrom d (suc i) m good (ground (arith, e, held)) in
        let head : present_values d (range_from i (suc m))
            ≡ q ∷ present_values d (range_from (suc i) m) =
          ground (arith, held) in
        subst (λ t. AreFrom i t × (length t ≡ suc m)) (sym head)
          ((good i q held, rest.0), ap suc rest.1)
  ]

  -- What the pieces from the i-th on join up to.
  concat-pieces :
      (qs : List Bytes) (i : ℕ)
      → i + length qs ≡ ceil_div (length f) cs
      → 0 < cs
      → AreFrom i qs
      → (z : ℕ) × (concat qs ≡ drop (i * cs) f ++ replicate z 0)
        × (length f + z ≤ ceil_div (length f) cs * cs)
        × (fec ≡ false → z ≡ 0)
  concat-pieces [] i e pos h =
      let past : i * cs ≡ ceil_div (length f) cs * cs = ap (λ t. t * cs) (omega arith) in
      let bounds = pieces_bounds cs f pos in
      (
        0,
        sym (drop-of_le (i * cs) f (omega (arith, bounds.0))) ∙ sym (append-nil (drop (i * cs) f)),
        omega (arith, bounds.0),
        λ _. refl,
      )
  concat-pieces (q ∷ []) i e pos h =
      let last : suc i * cs ≡ ceil_div (length f) cs * cs = ap (λ t. t * cs) (omega arith) in
      let bounds = pieces_bounds cs f pos in
      let p = piece cs f i in
      let tail : p ≡ drop (i * cs) f =
        sym (append-nil p)
        ∙ ap (λ t. p ++ t) (sym (drop-of_le (suc i * cs) f (omega (arith, bounds.0))))
        ∙ piece-append cs f i in
      (
        length q - length p,
        append-nil q
            ∙ Padded-eq cs p q h.0.0
            ∙ ap (λ t. t ++ replicate (length q - length p) 0) tail,
        omega (arith, length-piece cs f i, h.0.0.fits),
        λ off. omega (arith, ap length (h.0.1 off)),
      )
  concat-pieces (q ∷ p ∷ qs) i e pos h =
      let count : (i + suc (suc (length qs))) * cs ≡ ceil_div (length f) cs * cs =
        ap (λ t. t * cs) e in
      let bounds = pieces_bounds cs f pos in
      let rest = concat-pieces (p ∷ qs) (suc i) (omega arith) pos h.1 in
      let full : length (piece cs f i) ≡ cs = omega (arith, length-piece cs f i, bounds.1) in
      let exact : q ≡ piece cs f i = Padded-eq_full cs (piece cs f i) q full h.0.0 in
      (
        rest.0,
        ap (λ t. t ++ concat (p ∷ qs)) exact
            ∙ ap (λ t. piece cs f i ++ t) rest.1
            ∙ sym (append_assoc (piece cs f i) (drop (suc i * cs) f) (replicate rest.0 0))
            ∙ ap (λ t. t ++ replicate rest.0 0) (piece-append cs f i),
        rest.2,
        rest.3,
      )

  -- Good bytes for every piece join up to the file.
  pub present-IsFile :
      (d : Dict ℕ Bytes)
      → 0 < cs
      → ((j : ℕ) (q : Bytes) → lookup j d ≡ some q → IsPiece j q)
      → absent_ids d (range 0 (ceil_div (length f) cs)) ≡ []
      → IsFile (concat (present_values d (range 0 (ceil_div (length f) cs))))
  present-IsFile d pos good e =
      let n = ceil_div (length f) cs in
      let start : 0 * cs ≡ 0 = omega arith in
      let zero_left : n - 0 ≡ n = omega arith in
      let are = present-AreFrom d 0 (n - 0) good e in
      let joined =
        concat-pieces (present_values d (range 0 n)) 0 (omega (arith, are.1)) pos are.0 in
      (joined.0, joined.1 ∙ ap (λ t. drop t f ++ replicate joined.0 0) start, joined.2, joined.3)
