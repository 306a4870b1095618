-- ===== src/Transfer/Messages.antt =====
-- Every message that the send engine makes of its chunks (courier/send_engine.py) is one that the
-- contract of the bundle allows.
use native.Mathlib.Nat.{le_refl}
use cs60_final_project.Common.{
  ℕ, ◌-◌, ◌<◌, ◌≡◌, refl, sym, ap, ◌∙◌, subst, Bool, true, inl, inr, Bool-cases, some, List, ◌++◌,
  Text, Bytes, length, get_elem?, arith, if◌then◌else◌,
}
use cs60_final_project.Common.Ranges.{get_elem?-append}
use cs60_final_project.Chunk.{Chunk}
use cs60_final_project.Config.{TransferConfig, FecConfig}
use cs60_final_project.Layout.{ceil_div}
use cs60_final_project.Fec.{xor_chunks}
use cs60_final_project.Receiver.Contract.{Contract, Carries}
use cs60_final_project.Chunking.{piece, data_chunk, parity_chunk, parity_blocks, create_chunks}
use cs60_final_project.Chunking.Slices.{length-piece}
use cs60_final_project.Chunking.Restoring.{Padded}
use cs60_final_project.Chunking.Contents.{
  count, data_chunks, block, length-data_chunks, get_elem?-data_chunks, get_elem?-parity_blocks,
}
use cs60_final_project.Transfer.{chunk_msg}
use cs60_final_project.Transfer.Bundle.{has_parity, contract, chunks-eq, parities-eq, parity_test}

Padded-self : (cs : ℕ) (f : Bytes) (i : ℕ) → Padded cs (piece cs f i) (piece cs f i)
Padded-self cs f i = record {
  longer = le_refl _;
  fits = omega (arith, length-piece cs f i);
  same = λ j. refl;
}

module _ (config : TransferConfig) (fec_config : FecConfig) (f : Bytes) (b : Text) (fec : Bool)
    (chunks : List Chunk) (made : create_chunks config fec_config f b fec ≡ some chunks)
    (some_data : 0 < length f) where
  abbrev bundle : Contract
  bundle = contract config fec_config f b fec chunks made some_data

  data-Carries :
      (x : ℕ)
      → x < count config fec_config f b fec
      → Carries bundle b (chunk_msg (length chunks) (data_chunk config fec_config f b fec x))
  unfolding chunk_msg data_chunk
  data-Carries x h = record {
    for_bundle = refl;
    in_total = refl;
    with_k = refl;
    with_r = refl;
    data_good = λ _. (Padded-self config.chunk_size f x, λ _. refl);
    parity_good = λ no. absurd (ground arith);
    data_only = λ _. h;
  }

  parity-Carries :
      (a p : ℕ)
      → has_parity fec fec_config ≡ true
      → Carries bundle b (
          chunk_msg (length chunks) (
            parity_chunk fec_config
              (length (data_chunks config fec_config f b fec))
              a
              (xor_chunks (block config fec_config f b fec a))
              b
              p))
  unfolding chunk_msg parity_chunk
  parity-Carries a p h =
      let on = parity_test config fec_config f b fec chunks made some_data h in
      let size = length-data_chunks config fec_config f b fec in
      record {
        for_bundle = refl;
        in_total = refl;
        with_k = ap (λ t. if t then fec_config.k else 0) (sym on.0);
        with_r = ap (λ t. if t then fec_config.r else 0) (sym on.0);
        data_good = λ no. absurd (omega (arith, size));
        parity_good = λ _. refl;
        data_only = λ off. absurd (cc);
      }

  -- A chunk of the sender's list, as a message, is allowed by the contract.
  pub chunk_msg-Carries :
      (x : ℕ) (c : Chunk)
      → get_elem? chunks x ≡ some c
      → Carries bundle b (chunk_msg (length chunks) c)
  chunk_msg-Carries x c e =
      let whole = chunks-eq config fec_config f b fec chunks made some_data in
      elim (Bool-cases (has_parity fec fec_config)) [
        | inl on ↦
            let ds = data_chunks config fec_config f b fec in
            let ps =
              parity_blocks fec_config b ds
                (ceil_div (count config fec_config f b fec) fec_config.k) 0 in
            let split : chunks ≡ ds ++ ps =
              whole
              ∙ rw on (
                  ap (λ t. ds ++ t)
                    (parities-eq config fec_config f b fec chunks made some_data on)) in
            elim (get_elem?-append ds ps x (ap (λ t. get_elem? t x) (sym split) ∙ e)) [
              | inl is_data ↦
                  let h = get_elem?-data_chunks config fec_config f b fec x is_data in
                  subst (λ t. Carries bundle b (chunk_msg (length chunks) t)) (sym h.1)
                    (data-Carries x h.0)
              | inr is_parity ↦
                  let h =
                    get_elem?-parity_blocks fec_config b ds
                      (ceil_div (count config fec_config f b fec) fec_config.k) 0 (x - length ds)
                      is_parity in
                  subst (λ t. Carries bundle b (chunk_msg (length chunks) t)) (sym h.1.1)
                    (parity-Carries h.0 h.1.0 on)
            ]
        | inr off ↦
            let h =
              get_elem?-data_chunks config fec_config f b fec x
                (ap (λ t. get_elem? t x) (sym (whole ∙ rw off)) ∙ e) in
            subst (λ t. Carries bundle b (chunk_msg (length chunks) t)) (sym h.1)
              (data-Carries x h.0)
      ]
