-- ===== src/Transfer/Numbering.antt =====
-- The chunks of a file carry the numbers 0, 1, 2, ... in the order of the list (courier/send_engine.py,
-- `_create_chunks`).
use cs60_final_project.Common.{
  ℕ, zero, suc, ◌+◌, ◌-◌, ◌*◌, ◌<◌, ◌≡◌, refl, sym, ap, subst, Bool, true, some, List, [], ◌∷◌,
  ◌++◌, map, Text, Bytes, length, range_from, arith, if-elim, nat_eq,
}
use cs60_final_project.Chunk.{Chunk}
use cs60_final_project.Config.{TransferConfig, FecConfig}
use cs60_final_project.Layout.{ceil_div, ceil_div_bounds}
use cs60_final_project.Fec.{xor_chunks}
use cs60_final_project.Chunking.{
  data_chunk, data_chunks_of, block_chunks, parities_of, parity_chunk, parity_blocks,
  generate_fec_chunks, create_chunks,
}
use cs60_final_project.Chunking.Contents.{
  count, length-data_chunks, length-parities_of, length-block_chunks,
}
use cs60_final_project.Transfer.Bundle.{has_parity, chunks-eq, parities-eq, parity_test, count_pos}

abbrev pub IsNumbered : ℕ → List Chunk → Type 0
IsNumbered i [] = Unit
IsNumbered i (c ∷ cs) = (c.chunk_id ≡ i) × IsNumbered (suc i) cs

IsNumbered-append :
    (i j : ℕ) (xs ys : List Chunk)
    → IsNumbered i xs
    → j ≡ i + length xs
    → IsNumbered j ys
    → IsNumbered i (xs ++ ys)
IsNumbered-append i j [] ys h e k = subst (λ (n : ℕ). IsNumbered n ys) (omega (arith, e)) k
IsNumbered-append i j (x ∷ xs) ys h e k =
    (h.0, IsNumbered-append (suc i) j xs ys h.1 (omega (arith, e)) k)

map-IsNumbered :
    (f : ℕ → Chunk) (i a n : ℕ)
    → ((x : ℕ) → (f x).chunk_id ≡ i + x)
    → IsNumbered (i + a) (map f (range_from a n))
map-IsNumbered f i a zero h = tt
map-IsNumbered f i a (suc n) h = (
  h a,
  subst (λ (j : ℕ). IsNumbered j (map f (range_from (suc a) n))) (omega arith)
      (map-IsNumbered f i (suc a) n h),
)

module _ (config : TransferConfig) (fec_config : FecConfig) (f : Bytes) (b : Text)
    (fec : Bool) where
  data_chunks_of-IsNumbered : IsNumbered 0 (data_chunks_of config fec_config f b fec)
  unfolding data_chunks_of
  data_chunks_of-IsNumbered =
      map-IsNumbered (data_chunk config fec_config f b fec) 0 0
        (ceil_div (length f) config.chunk_size - 0) (λ x. omega arith)

  parities_of-IsNumbered :
      (n block_id : ℕ) (cs : List Chunk)
      → IsNumbered (n + block_id * fec_config.r) (parities_of fec_config b n block_id cs)
  unfolding parity_chunk
  parities_of-IsNumbered n block_id [] = tt
  parities_of-IsNumbered n block_id (c ∷ cs) =
      subst
        (λ (j : ℕ). IsNumbered j (
          map (parity_chunk fec_config n block_id (xor_chunks (c ∷ cs)) b)
            (range_from 0 (fec_config.r - 0))))
        (omega arith)
        (map-IsNumbered (parity_chunk fec_config n block_id (xor_chunks (c ∷ cs)) b)
          (n + block_id * fec_config.r) 0 (fec_config.r - 0) (λ x. refl))

  parity_blocks-IsNumbered :
      (data_list : List Chunk) (left block_id : ℕ)
      → (block_id + left - 1) * fec_config.k < length data_list
      → 0 < fec_config.k
      → IsNumbered
          (length data_list + block_id * fec_config.r)
          (parity_blocks fec_config b data_list left block_id)
  unfolding parity_blocks
  parity_blocks-IsNumbered data_list zero block_id h pos = tt
  parity_blocks-IsNumbered data_list (suc left) block_id h pos =
      let n = length data_list in
      let cs = block_chunks fec_config.k data_list (block_id * fec_config.k) in
      let shift : block_id + suc left - 1 ≡ suc block_id + left - 1 = omega arith in
      let later : IsNumbered (n + suc block_id * fec_config.r)
          (parity_blocks fec_config b data_list left (suc block_id)) =
        parity_blocks-IsNumbered data_list left (suc block_id)
          (subst (λ t. t * fec_config.k < n) shift h) pos in
      IsNumbered-append (n + block_id * fec_config.r) (n + suc block_id * fec_config.r)
        (parities_of fec_config b n block_id cs)
        (parity_blocks fec_config b data_list left (suc block_id))
        (parities_of-IsNumbered n block_id cs)
        (omega (
          arith,
          length-parities_of fec_config b n block_id cs
              (length-block_chunks fec_config b data_list left block_id h pos),
        ))
        later

module _ (config : TransferConfig) (fec_config : FecConfig) (f : Bytes) (b : Text) (fec : Bool)
    (chunks : List Chunk) (made : create_chunks config fec_config f b fec ≡ some chunks)
    (some_data : 0 < length f) where
  with_parities-IsNumbered :
      has_parity fec fec_config ≡ true
      → IsNumbered 0 (
          data_chunks_of config fec_config f b fec
          ++ generate_fec_chunks fec_config (data_chunks_of config fec_config f b fec) b)
  with_parities-IsNumbered on =
      let ds = data_chunks_of config fec_config f b fec in
      let n = count config fec_config f b fec in
      let x = ceil_div n fec_config.k in
      let size = length-data_chunks config fec_config f b fec in
      let used = parity_test config fec_config f b fec chunks made some_data on in
      let bounds =
        ceil_div_bounds n fec_config.k (count_pos config fec_config f b fec chunks made some_data)
          used.2 in
      let shift : 0 + x - 1 ≡ x - 1 = omega arith in
      let e : (0 + x - 1) * fec_config.k ≡ (x - 1) * fec_config.k =
        ap (λ t. t * fec_config.k) shift in
      IsNumbered-append 0 (length ds + 0 * fec_config.r) ds (generate_fec_chunks fec_config ds b)
        (data_chunks_of-IsNumbered config fec_config f b fec) (omega arith)
        (subst (IsNumbered (length ds + 0 * fec_config.r))
          (sym (parities-eq config fec_config f b fec chunks made some_data on))
          (parity_blocks-IsNumbered config fec_config f b fec ds x 0
            (omega (arith, size, bounds.0, e)) used.2))

  -- The chunk at place i of the list has the number i.
  pub create_chunks-IsNumbered : IsNumbered 0 chunks
  create_chunks-IsNumbered =
      subst (IsNumbered 0) (sym (chunks-eq config fec_config f b fec chunks made some_data)) (
        if-elim (IsNumbered 0) (has_parity fec fec_config) _ _ with_parities-IsNumbered
          (λ _. data_chunks_of-IsNumbered config fec_config f b fec))
