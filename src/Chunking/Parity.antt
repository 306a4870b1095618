-- ===== src/Chunking/Parity.antt =====
-- The parity of a block and the payloads of all but one of its chunks give the missing piece
-- (courier/send_engine.py `_generate_fec_chunks`, courier/receive_engine.py `_try_fec_reconstruct`).
use Prim.Native.Nat.{bit_xor}
use cs60_final_project.Common.{
  ℕ, ◌≤◌, ◌≡◌, refl, sym, ap, ◌∙◌, subst, some, Option-cases, inl, inr, List, [], ◌∷◌, map, Bytes,
  length, get_or, arith, nat_eq,
}
use cs60_final_project.Common.Dict.{Dict, lookup}
use cs60_final_project.Common.Xor.{bit_xor-zero, bit_xor_assoc, bit_xor_left_comm, bit_xor_self}
use cs60_final_project.Chunk.{Chunk}
use cs60_final_project.Fec.{xor_bytes, xor_chunks, payloads}
use cs60_final_project.Fec.Padding.{mix, longest, length-xor_bytes, get_or-xor_bytes}
use cs60_final_project.Fec.Recovery.{get_or-xor_chunks, length-xor_chunks}
use cs60_final_project.Receiver.{absent_ids, present_values}
use cs60_final_project.Chunking.{piece}
use cs60_final_project.Chunking.Slices.{length-piece}
use cs60_final_project.Chunking.Restoring.{Padded}

module _ (cs : ℕ) (f : Bytes) (d : Dict ℕ Bytes)
    (good : (j : ℕ) (q : Bytes) → lookup j d ≡ some q → Padded cs (piece cs f j) q) where
  -- Of ids that are all there, the stored bytes mix like the pieces.
  mix-present :
      (j : ℕ) (ids : List ℕ)
      → absent_ids d ids ≡ []
      → mix j (map (piece cs f) ids) ≡ mix j (present_values d ids)
  mix-present j [] e = refl
  mix-present j (i ∷ ids) e = elim (Option-cases (lookup i d)) [
    | inl missing ↦ absurd (ground (arith, e, missing))
    | inr (q, held) ↦
        ap (λ t. bit_xor t (mix j (map (piece cs f) ids))) (sym ((good i q held).same j))
        ∙ ap (bit_xor (get_or q j 0)) (mix-present j ids (ground (arith, e, held)))
        ∙ ground (arith, held)
  ]

  -- With one id missing, its piece is the difference.
  mix-present_missing :
      (j i : ℕ) (ids : List ℕ)
      → absent_ids d ids ≡ i ∷ []
      → mix j (map (piece cs f) ids)
        ≡ bit_xor (get_or (piece cs f i) j 0) (mix j (present_values d ids))
  mix-present_missing j i [] e = cc
  mix-present_missing j i (x ∷ ids) e = elim (Option-cases (lookup x d)) [
    | inl missing ↦
        let here : x ≡ i = ground (arith, e, missing) in
        let rest : absent_ids d ids ≡ [] = ground (arith, e, missing) in
        let skipped : present_values d (x ∷ ids) ≡ present_values d ids = ground (arith, missing) in
        ap (λ t. bit_xor (get_or (piece cs f x) j 0) t)
          (mix-present j ids rest ∙ ap (mix j) (sym skipped))
        ∙ ap (λ t. bit_xor (get_or (piece cs f t) j 0) (mix j (present_values d (x ∷ ids)))) here
    | inr (q, held) ↦
        let taken : present_values d (x ∷ ids) ≡ q ∷ present_values d ids = ground (arith, held) in
        ap (λ t. bit_xor t (mix j (map (piece cs f) ids))) (sym ((good x q held).same j))
        ∙ ap (bit_xor (get_or q j 0)) (mix-present_missing j i ids (ground (arith, e, held)))
        ∙ bit_xor_left_comm (get_or q j 0) (get_or (piece cs f i) j 0)
            (mix j (present_values d ids))
        ∙ ap (λ t. bit_xor (get_or (piece cs f i) j 0) (mix j t)) (sym taken)
  ]

  longest-present : (ids : List ℕ) → longest (present_values d ids) ≤ cs
  longest-present [] = omega arith
  longest-present (x ∷ ids) = elim (Option-cases (lookup x d)) [
    | inl missing ↦ ground (arith, missing, longest-present ids)
    | inr (q, held) ↦ ground (arith, held, longest-present ids, (good x q held).fits)
  ]

  longest-pieces : (ids : List ℕ) → longest (map (piece cs f) ids) ≤ cs
  longest-pieces [] = omega arith
  longest-pieces (x ∷ ids) = omega (arith, longest-pieces ids, length-piece cs f x)

  length-le-longest :
      (i : ℕ) (ids : List ℕ)
      → absent_ids d ids ≡ i ∷ []
      → length (piece cs f i) ≤ longest (map (piece cs f) ids)
  length-le-longest i [] e = cc
  length-le-longest i (x ∷ ids) e = elim (Option-cases (lookup x d)) [
    | inl missing ↦
        let here : x ≡ i = ground (arith, e, missing) in
        subst (λ t. length (piece cs f t) ≤ longest (map (piece cs f) (x ∷ ids))) here (omega arith)
    | inr (q, held) ↦ omega (arith, length-le-longest i ids (ground (arith, e, held)))
  ]

  -- The reconstruction of a block whose parity is that of its pieces.
  pub recovered-Padded :
      (i : ℕ) (ids : List ℕ) (block : List Chunk)
      → payloads block ≡ map (piece cs f) ids
      → absent_ids d ids ≡ i ∷ []
      → Padded cs (piece cs f i) (xor_bytes (xor_chunks block) (present_values d ids))
  recovered-Padded i ids block same e =
      let ps = present_values d ids in
      let size = length-xor_bytes (xor_chunks block) ps in
      let parity_size = length-xor_chunks block ∙ ap longest same in
      record {
        longer = omega (arith, size, parity_size, length-le-longest i ids e);
        fits = omega (arith, size, parity_size, longest-pieces ids, longest-present ids);
        same = λ j.
            get_or-xor_bytes (xor_chunks block) ps j
            ∙ ap (λ t. bit_xor t (mix j ps))
                (get_or-xor_chunks block j ∙ ap (mix j) same ∙ mix-present_missing j i ids e)
            ∙ bit_xor_assoc (get_or (piece cs f i) j 0) (mix j ps) (mix j ps)
            ∙ ap (bit_xor (get_or (piece cs f i) j 0)) (bit_xor_self (mix j ps))
            ∙ bit_xor-zero (get_or (piece cs f i) j 0);
      }
