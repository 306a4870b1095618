-- ===== src/Transfer/Bundle.antt =====
-- A file that `create_chunks` cuts up (courier/send_engine.py) is a bundle that meets the contract
-- of the receive engine.
use cs60_final_project.Common.{
  ℕ, ◌+◌, ◌-◌, ◌*◌, ◌<◌, ◌≡◌, sym, ap, ◌∙◌, Bool, true, false, ◌&&◌, inl, inr, Bool-cases, some,
  List, [], ◌∷◌, ◌++◌, Text, Bytes, length, map, nat_eq, arith, length-append, ltb, lt→ltb,
  if◌then◌else◌,
}
use cs60_final_project.Chunk.{Chunk}
use cs60_final_project.Config.{TransferConfig, FecConfig}
use cs60_final_project.Layout.{
  ceil_div, ceil_div_bounds, with_parity, infer_block_and_data_count,
  infer_block_and_data_count-with_parity,
}
use cs60_final_project.Common.Dict.{Dict, lookup}
use cs60_final_project.Fec.{xor_bytes, xor_chunks}
use cs60_final_project.Receiver.{absent_ids, present_values, fec_fields}
use cs60_final_project.Receiver.Contract.{Contract, block_ids}
use cs60_final_project.Chunking.{piece, parity_blocks, generate_fec_chunks, create_chunks}
use cs60_final_project.Chunking.Restoring.{IsPiece, IsFile, present-IsFile}
use cs60_final_project.Chunking.Parity.{recovered-Padded}
use cs60_final_project.Chunking.Contents.{
  count, data_chunks, block, length-data_chunks, payloads-block, length-parity_blocks,
}

-- Whether `create_chunks` adds parity chunks.
abbrev pub has_parity : Bool → FecConfig → Bool
has_parity fec c = fec && (c.enabled && (ltb 0 c.k && ltb 0 c.r))

module _ (config : TransferConfig) (fec_config : FecConfig) (f : Bytes) (b : Text) (fec : Bool)
    (chunks : List Chunk) (made : create_chunks config fec_config f b fec ≡ some chunks)
    (some_data : 0 < length f) where
  -- A chunk size of zero makes no chunks.
  pub size_pos : 0 < config.chunk_size
  unfolding create_chunks
  size_pos = ground (arith, made)

  abbrev pub parity_used : Bool
  parity_used = has_parity fec fec_config

  abbrev pub data_list : List Chunk
  data_list = data_chunks config fec_config f b fec

  abbrev pub n : ℕ
  n = count config fec_config f b fec

  -- The chunks, with parity and without.
  pub chunks-eq :
      chunks
      ≡ (if parity_used then data_list ++ generate_fec_chunks fec_config data_list b else data_list)
  unfolding create_chunks
  chunks-eq = ground (arith, made)

  pub count_pos : 0 < n
  count_pos = let h = ceil_div_bounds (length f) config.chunk_size some_data size_pos in h.2

  pub parity_test :
      parity_used ≡ true
      → (fec ≡ true) × (fec_config.enabled ≡ true) × (0 < fec_config.k) × (0 < fec_config.r)
  parity_test h = ground (arith, h)

  pub parities-eq :
      parity_used ≡ true
      → generate_fec_chunks fec_config data_list b
        ≡ parity_blocks fec_config b data_list (ceil_div n fec_config.k) 0
  unfolding generate_fec_chunks
  parities-eq h =
      let on = parity_test h in
      rw (lt→ltb 0 fec_config.k on.2, lt→ltb 0 fec_config.r on.3)
        (ap (λ t. parity_blocks fec_config b data_list (ceil_div t fec_config.k) 0)
          (length-data_chunks config fec_config f b fec))

  total-with_parity : parity_used ≡ true → length chunks ≡ with_parity n fec_config.k fec_config.r
  total-with_parity h =
      let on = parity_test h in
      let bounds = ceil_div_bounds n fec_config.k count_pos on.2 in
      let size = length-data_chunks config fec_config f b fec in
      let x = ceil_div n fec_config.k in
      let shift : 0 + x - 1 ≡ x - 1 = omega arith in
      let e : (0 + x - 1) * fec_config.k ≡ (x - 1) * fec_config.k =
        ap (λ t. t * fec_config.k) shift in
      ap length (chunks-eq ∙ rw h)
      ∙ length-append data_list (generate_fec_chunks fec_config data_list b)
      ∙ ap (λ t. length data_list + length t) (parities-eq h)
      ∙ omega (
        arith,
        size,
        length-parity_blocks fec_config b data_list x 0 (omega (arith, size, bounds.0, e)) on.2,
      )

  pub total-without_parity : parity_used ≡ false → length chunks ≡ n
  total-without_parity h =
      ap length (chunks-eq ∙ rw h) ∙ length-data_chunks config fec_config f b fec

  -- k and r as the messages carry them.
  abbrev pub sent_k : ℕ
  sent_k = if fec then fec_config.k else 0

  abbrev pub sent_r : ℕ
  sent_r = if fec then fec_config.r else 0

  pub sent_k_pos : parity_used ≡ true → 0 < sent_k
  sent_k_pos h = ground (arith, parity_test h)

  pub sent_r_pos : parity_used ≡ true → 0 < sent_r
  sent_r_pos h = ground (arith, parity_test h)

  pub IsPiece-recovered :
      (d : Dict ℕ Bytes) (block_id i : ℕ)
      → parity_used ≡ true
      → ((j : ℕ) (q : Bytes) → lookup j d ≡ some q → IsPiece config.chunk_size f parity_used j q)
      → absent_ids d (block_ids n sent_k block_id) ≡ i ∷ []
      → IsPiece config.chunk_size f parity_used i (
          xor_bytes
            (xor_chunks (block config fec_config f b fec block_id))
            (present_values d (block_ids n sent_k block_id)))
  IsPiece-recovered d block_id i h good e =
      let on = parity_test h in
      let ids : block_ids n fec_config.k block_id ≡ block_ids n sent_k block_id =
        ap (λ t. block_ids n (if t then fec_config.k else 0) block_id) (sym on.0) in
      (
        recovered-Padded config.chunk_size f d (λ j q held. (good j q held).0) i
            (block_ids n sent_k block_id) (block config fec_config f b fec block_id)
            (payloads-block config fec_config f b fec block_id
              ∙ ap (map (piece config.chunk_size f)) ids)
            e,
        λ off. absurd (cc),
      )

  -- The bundle as the contract of the receive engine has it.
  abbrev pub contract : Contract
  contract = record {
    n = n;
    total = length chunks;
    k = sent_k;
    r = sent_r;
    fec = parity_used;
    Good = IsPiece config.chunk_size f parity_used;
    Restored = IsFile config.chunk_size f parity_used;
    parity = λ block_id. xor_chunks (block config fec_config f b fec block_id);
    n_pos = count_pos;
    k_pos = λ h. sent_k_pos h;
    r_pos = λ h. sent_r_pos h;
    whole = total-without_parity;
    restore = λ d good e. present-IsFile config.chunk_size f parity_used d size_pos good e;
    recover = IsPiece-recovered;
  }

  settled_with :
      (enabled : Bool) (m blocks : ℕ)
      → fec ≡ true
      → enabled ≡ true
      → parity_used ≡ true
      → 0 < fec_config.k
      → 0 < fec_config.r
      → infer_block_and_data_count (length chunks) fec_config.k fec_config.r ≡ some (blocks, m)
      → fec_fields enabled (length chunks) sent_k sent_r
        ≡ record { fec_enabled = parity_used; k = sent_k; r = sent_r; num_data_chunks = m }
  unfolding fec_fields
  settled_with enabled m blocks on known used k r inferred = ground (arith, inferred)

  settled_without :
      (enabled : Bool) (m : ℕ)
      → parity_used ≡ false
      → (fec ≡ true → fec_config.enabled ≡ true)
      → length chunks ≡ m
      → fec_fields enabled (length chunks) sent_k sent_r
        ≡ record { fec_enabled = parity_used; k = sent_k; r = sent_r; num_data_chunks = m }
  unfolding fec_fields
  settled_without enabled m off here size = ground (arith, off)

  -- The receiver settles on the sender's layout.
  pub fec_fields-settled :
      (enabled : Bool)
      → (fec ≡ true → enabled ≡ true)
      → (fec ≡ true → fec_config.enabled ≡ true)
      → fec_fields enabled (length chunks) sent_k sent_r
        ≡ record { fec_enabled = parity_used; k = sent_k; r = sent_r; num_data_chunks = n }
  fec_fields-settled enabled there here = elim (Bool-cases parity_used) [
    | inl on ↦
        let used = parity_test on in
        let known : enabled ≡ true = there used.0 in
        let inferred : infer_block_and_data_count (length chunks) fec_config.k fec_config.r
            ≡ some (ceil_div n fec_config.k, n) =
          ap (λ t. infer_block_and_data_count t fec_config.k fec_config.r) (total-with_parity on)
          ∙ infer_block_and_data_count-with_parity n fec_config.k fec_config.r count_pos used.2 in
        settled_with enabled n (ceil_div n fec_config.k) used.0 known on used.2 used.3 inferred
    | inr off ↦ settled_without enabled n off here (total-without_parity off)
  ]
