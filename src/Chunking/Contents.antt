-- ===== src/Chunking/Contents.antt =====
-- What is in the list that `create_chunks` makes (courier/send_engine.py): the pieces of the file in
-- order, then for each block its parity chunks.
use cs60_final_project.Common.{
  ℕ, zero, suc, ◌+◌, ◌-◌, ◌*◌, ◌<◌, min, ◌≡◌, refl, ap, ◌∙◌, subst, Bool, inl, inr, some, List, [],
  ◌∷◌, map, Text, Bytes, length, get_elem?, take, drop, range_from, arith, length-append,
  length-take, length-drop,
}
use cs60_final_project.Common.Ranges.{
  length-map_range, drop-map_range, take-map_range, get_elem?-map_range, get_elem?-append,
  map_range_eq,
}
use cs60_final_project.Chunk.{Chunk}
use cs60_final_project.Config.{TransferConfig, FecConfig}
use cs60_final_project.Layout.{ceil_div}
use cs60_final_project.Fec.{xor_chunks, payloads}
use cs60_final_project.Receiver.Contract.{block_ids}
use cs60_final_project.Chunking.{
  piece, data_chunk, data_chunks_of, block_chunks, parities_of, parity_chunk, parity_blocks,
}

module _ (config : TransferConfig) (fec_config : FecConfig) (f : Bytes) (b : Text)
    (fec : Bool) where
  abbrev pub count : ℕ
  count = ceil_div (length f) config.chunk_size

  abbrev pub data_chunks : List Chunk
  data_chunks = data_chunks_of config fec_config f b fec

  -- The chunks that the parity of a block is made of.
  abbrev pub block : ℕ → List Chunk
  block block_id = block_chunks fec_config.k data_chunks (block_id * fec_config.k)

  pub length-data_chunks : length data_chunks ≡ count
  unfolding data_chunks_of
  length-data_chunks =
      length-map_range (data_chunk config fec_config f b fec) 0 (count - 0) ∙ omega arith

  payloads-data_range :
      (i m : ℕ)
      → payloads (map (data_chunk config fec_config f b fec) (range_from i m))
        ≡ map (piece config.chunk_size f) (range_from i m)
  unfolding data_chunk
  payloads-data_range i zero = refl
  payloads-data_range i (suc m) =
      ap (λ t. piece config.chunk_size f i ∷ t) (payloads-data_range (suc i) m)

  pub payloads-block :
      (block_id : ℕ)
      → payloads (block block_id)
        ≡ map (piece config.chunk_size f) (block_ids count fec_config.k block_id)
  unfolding data_chunks_of
  payloads-block block_id =
      let g = data_chunk config fec_config f b fec in
      let start = block_id * fec_config.k in
      ap (λ t. payloads (take fec_config.k t)) (drop-map_range g start 0 (count - 0))
      ∙ ap payloads (take-map_range g fec_config.k (0 + start) (count - 0 - start))
      ∙ payloads-data_range (0 + start) (min fec_config.k (count - 0 - start))
      ∙ map_range_eq (piece config.chunk_size f) (omega arith) (omega arith)

  pub get_elem?-data_chunks :
      (x : ℕ) {c : Chunk}
      → get_elem? data_chunks x ≡ some c
      → (x < count) × (c ≡ data_chunk config fec_config f b fec x)
  unfolding data_chunks_of
  get_elem?-data_chunks x e =
      let h = get_elem?-map_range (data_chunk config fec_config f b fec) 0 (count - 0) x e in
      (omega (arith, h.0), h.1 ∙ ap (data_chunk config fec_config f b fec) (omega arith))

module _ (fec_config : FecConfig) (b : Text) where
  get_elem?-parities_of :
      (n block_id : ℕ) (cs : List Chunk) (x : ℕ) {c : Chunk}
      → get_elem? (parities_of fec_config b n block_id cs) x ≡ some c
      → (p : ℕ) × (c ≡ parity_chunk fec_config n block_id (xor_chunks cs) b p)
  get_elem?-parities_of n block_id [] x e = absurd (cc)
  get_elem?-parities_of n block_id (y ∷ cs) x e = (
    0 + x,
    (get_elem?-map_range (parity_chunk fec_config n block_id (xor_chunks (y ∷ cs)) b) 0
        (fec_config.r - 0) x e).1,
  )

  pub get_elem?-parity_blocks :
      (data_list : List Chunk) (left block_id x : ℕ) {c : Chunk}
      → get_elem? (parity_blocks fec_config b data_list left block_id) x ≡ some c
      → (a : ℕ) × ((p : ℕ) × (c
            ≡ parity_chunk fec_config
                (length data_list)
                a
                (xor_chunks (block_chunks fec_config.k data_list (a * fec_config.k)))
                b
                p))
  unfolding parity_blocks
  get_elem?-parity_blocks data_list zero block_id x e = absurd (cc)
  get_elem?-parity_blocks data_list (suc left) block_id x e =
      let cs = block_chunks fec_config.k data_list (block_id * fec_config.k) in
      elim (get_elem?-append (parities_of fec_config b (length data_list) block_id cs)
        (parity_blocks fec_config b data_list left (suc block_id)) x e) [
          | inl here ↦ (block_id, get_elem?-parities_of (length data_list) block_id cs x here)
          | inr later ↦
              get_elem?-parity_blocks data_list left (suc block_id)
                (x - length (parities_of fec_config b (length data_list) block_id cs)) later
        ]

  pub length-parities_of :
      (n block_id : ℕ) (cs : List Chunk)
      → 0 < length cs
      → length (parities_of fec_config b n block_id cs) ≡ fec_config.r
  length-parities_of n block_id [] h = absurd (omega arith)
  length-parities_of n block_id (y ∷ cs) h =
      length-map_range (parity_chunk fec_config n block_id (xor_chunks (y ∷ cs)) b) 0
        (fec_config.r - 0)
      ∙ omega arith

  -- A block that is not past the data is not empty.
  pub length-block_chunks :
      (data_list : List Chunk) (left block_id : ℕ)
      → (block_id + suc left - 1) * fec_config.k < length data_list
      → 0 < fec_config.k
      → 0 < length (block_chunks fec_config.k data_list (block_id * fec_config.k))
  length-block_chunks data_list left block_id h pos =
      let start = block_id * fec_config.k in
      let within : start + left * fec_config.k < length data_list = omega (
        arith,
        ap (λ t. t * fec_config.k)
            (let e : block_id + suc left - 1 ≡ block_id + left = omega arith in e),
      ) in
      omega (arith, length-take fec_config.k (drop start data_list), length-drop start data_list)

  -- Every block that is not past the data has its r parity chunks.
  pub length-parity_blocks :
      (data_list : List Chunk) (left block_id : ℕ)
      → (block_id + left - 1) * fec_config.k < length data_list
      → 0 < fec_config.k
      → length (parity_blocks fec_config b data_list left block_id) ≡ left * fec_config.r
  unfolding parity_blocks
  length-parity_blocks data_list zero block_id h pos = omega arith
  length-parity_blocks data_list (suc left) block_id h pos =
      let start = block_id * fec_config.k in
      let cs = block_chunks fec_config.k data_list start in
      let filled = length-block_chunks data_list left block_id h pos in
      let shift : block_id + suc left - 1 ≡ suc block_id + left - 1 = omega arith in
      let later =
        length-parity_blocks data_list left (suc block_id)
          (subst (λ t. t * fec_config.k < length data_list) shift h) pos in
      length-append (parities_of fec_config b (length data_list) block_id cs)
        (parity_blocks fec_config b data_list left (suc block_id))
      ∙ omega (arith, length-parities_of (length data_list) block_id cs filled, later)
