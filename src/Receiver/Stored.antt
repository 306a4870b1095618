-- ===== src/Receiver/Stored.antt =====
-- The file of a bundle in the output directory, and the receive state that it belongs to
-- (courier/receive_engine.py, `_maybe_deliver`).
use cs60_final_project.Common.{
  ℕ, ◌≡◌, refl, sym, subst, Bool, true, ◌&&◌, Option, some, List, [], ◌∷◌, Text, Bytes, range, ltb,
  nat_eq, text_eq, arith, if-elim,
}
use cs60_final_project.Common.Dict.{Dict, lookup}
use cs60_final_project.Common.NatSet.{add}
use cs60_final_project.Chunk.{Chunk}
use cs60_final_project.Protocol.{DataMsg}
use cs60_final_project.Receiver.{
  ReceiveState, store_payload, absent_ids, present_values, try_fec_reconstruct, concat, num_data_of,
  ordered_payloads, record_chunk, reconstruct_if_fec, reconstruct_one, is_empty,
}
use cs60_final_project.Receiver.Contract.{Contract, Carries}
use cs60_final_project.Receiver.Faithful.{
  IsFaithful, store_payload-IsFaithful, try_fec_reconstruct-IsFaithful,
}

is_empty-nil : {A : Type 0} (xs : List A) → is_empty xs ≡ true → xs ≡ []
is_empty-nil [] h = refl
is_empty-nil (x ∷ xs) h = cc

module _ (c : Contract) (b path : Text) where
  -- The file holds bytes that will do for the sent file.
  abbrev pub IsWritten : Dict Text Bytes → Type 0
  IsWritten files = (f : Bytes) × (lookup path files ≡ some f) × c.Restored f

  pub record Placed (files : Dict Text Bytes) (name output_path : Text) (delivered : Bool)
      : Type 0 where
    pub named : name ≡ b
    pub placed : output_path ≡ path
    pub written : delivered ≡ true → IsWritten files

  -- The state is faithful, bears the bundle's name and path, and if delivered has its file.
  abbrev pub StateOk : Dict Text Bytes → ReceiveState → Type 0
  StateOk files st = IsFaithful c st × Placed files st.bundle_id st.output_path st.delivered

  pub ordered_payloads-Restored :
      (st : ReceiveState)
      → IsFaithful c st
      → is_empty (absent_ids st.data_chunks (range 0 (num_data_of st))) ≡ true
      → c.Restored (concat (ordered_payloads st))
  ordered_payloads-Restored st h done =
      let count : num_data_of st ≡ c.n = ground (arith, h.0.num_eq, c.n_pos) in
      subst (λ t. c.Restored (concat (present_values st.data_chunks (range 0 t)))) (sym count)
        (c.restore st.data_chunks h.1.good_data
          (subst (λ t. absent_ids st.data_chunks (range 0 t) ≡ []) count (is_empty-nil _ done)))

  store_payload-Placed :
      (i block_id : ℕ) (q : Bytes) (st : ReceiveState) (files : Dict Text Bytes)
      → Placed files st.bundle_id st.output_path st.delivered
      → let st' = store_payload i block_id q st in
        Placed files st'.bundle_id st'.output_path st'.delivered
  unfolding store_payload
  store_payload-Placed i block_id q st files h = ground arith

  reconstruct_one-Placed :
      (block_id : ℕ) (missing : List ℕ) (parities : List Bytes) (st : ReceiveState)
      (files : Dict Text Bytes)
      → Placed files st.bundle_id st.output_path st.delivered
      → let st' = (reconstruct_one st block_id missing parities).0 in
        Placed files st'.bundle_id st'.output_path st'.delivered
  reconstruct_one-Placed block_id [] ps st files h = h
  reconstruct_one-Placed block_id (i ∷ []) [] st files h = h
  reconstruct_one-Placed block_id (i ∷ []) (p ∷ ps) st files h = h
  reconstruct_one-Placed block_id (i ∷ j ∷ is) ps st files h = h

  try_fec_reconstruct-Placed :
      (block_id : ℕ) (st : ReceiveState) (files : Dict Text Bytes)
      → Placed files st.bundle_id st.output_path st.delivered
      → let st' = (try_fec_reconstruct st block_id).0 in
        Placed files st'.bundle_id st'.output_path st'.delivered
  unfolding try_fec_reconstruct
  try_fec_reconstruct-Placed block_id st files h =
      if-elim
        (λ (p : ReceiveState × Option Chunk).
          Placed files p.0.bundle_id p.0.output_path p.0.delivered)
        (st.fec_enabled && (ltb 0 st.k && ltb 0 st.r)) _ _
        (λ _. reconstruct_one-Placed block_id _ _ st files h) (λ _. h)

  pub record_chunk-StateOk :
      (msg : DataMsg) (st : ReceiveState) (files : Dict Text Bytes)
      → Carries c b msg
      → StateOk files st
      → StateOk files (record_chunk msg st)
  unfolding record_chunk
  record_chunk-StateOk msg st files m ok = (
    store_payload-IsFaithful c b msg
        (record st { received_chunks = add msg.chunk_id st.received_chunks }) m ok.0,
    store_payload-Placed msg.chunk_id msg.block_id msg.payload
        (record st { received_chunks = add msg.chunk_id st.received_chunks }) files ok.1,
  )

  pub reconstruct_if_fec-StateOk :
      (block_id : ℕ) (st : ReceiveState) (files : Dict Text Bytes)
      → StateOk files st
      → StateOk files (reconstruct_if_fec st block_id).0
  reconstruct_if_fec-StateOk block_id st files ok =
      if-elim (λ (p : ReceiveState × Option Chunk). StateOk files p.0) st.fec_enabled _ _
        (λ _. (
          try_fec_reconstruct-IsFaithful c block_id st ok.0,
          try_fec_reconstruct-Placed block_id st files ok.1,
        ))
        (λ _. ok)
