-- ===== src/Receiver/Faithful.antt =====
-- The receive engine keeps to the contract of a bundle (courier/receive_engine.py): what it stores
-- for a data chunk is good for it, and what it writes is good for the file.
use cs60_final_project.Common.{
  ℕ, ◌≡◌, sym, ap, ◌∙◌, subst, Bool, true, false, ◌&&◌, some, List, [], ◌∷◌, ◌++◌, Text, Bytes, ltb,
  ◌==◌, ==_iff, nat_eq, text_eq, arith, inl, inr, Bool-cases, All, ltb→lt, lt→ltb,
}
use cs60_final_project.Common.Dict.{Dict, lookup, insert, lookup-insert}
use cs60_final_project.Fec.{xor_bytes}
use cs60_final_project.Storage.{or_default}
use cs60_final_project.Protocol.{DataMsg}
use cs60_final_project.Receiver.{
  ReceiveState, store_payload, absent_ids, present_values, expected_ids, reconstruct_one,
  try_fec_reconstruct,
}
use cs60_final_project.Receiver.Contract.{Contract, Carries, block_ids}

module _ (c : Contract) where
  -- Every stored payload is good for its data chunk.
  abbrev pub HasGoodData : Dict ℕ Bytes → Type 0
  HasGoodData d = (i : ℕ) (q : Bytes) → lookup i d ≡ some q → c.Good i q

  abbrev AreParity : ℕ → List Bytes → Type 0
  AreParity block_id ps = All (λ p. p ≡ c.parity block_id) ps

  abbrev HasGoodParity : Dict ℕ (List Bytes) → Type 0
  HasGoodParity d = (b : ℕ) → AreParity b (or_default (lookup b d) [])

  -- The fields that say how the bundle is laid out, and those that hold its payloads. Over the fields
  -- and not the state, so that a change of another field keeps them as they are.
  pub record Layout (total : ℕ) (fec : Bool) (num k r : ℕ) : Type 0 where
    pub total_eq : total ≡ c.total
    pub fec_eq : fec ≡ c.fec
    pub num_eq : num ≡ c.n
    pub k_eq : k ≡ c.k
    pub r_eq : r ≡ c.r

  pub record Payloads (held : Dict ℕ Bytes) (parities : Dict ℕ (List Bytes)) : Type 0 where
    pub good_data : HasGoodData held
    pub good_parity : HasGoodParity parities

  abbrev pub HasLayout : ReceiveState → Type 0
  HasLayout st = Layout st.total_chunks st.fec_enabled st.num_data_chunks st.k st.r

  -- The state has the layout of the bundle, and what it stores will do.
  abbrev pub IsFaithful : ReceiveState → Type 0
  IsFaithful st = HasLayout st × Payloads st.data_chunks st.parity_chunks

  insert-HasGoodData :
      (i : ℕ) (q : Bytes) (d : Dict ℕ Bytes)
      → c.Good i q
      → HasGoodData d
      → HasGoodData (insert i q d)
  insert-HasGoodData i q d good h j p e = elim (Bool-cases (i == j)) [
    | inl here ↦
        let same : i ≡ j = (==_iff i j).0 here in
        let value : q ≡ p = ground (arith, lookup-insert i j q d) in
        subst (λ t. c.Good t p) same (subst (λ t. c.Good i t) value good)
    | inr elsewhere ↦ h j p (ground (arith, lookup-insert i j q d))
  ]

  AreParity-append :
      (b : ℕ) (ps : List Bytes) (p : Bytes)
      → AreParity b ps
      → p ≡ c.parity b
      → AreParity b (ps ++ p ∷ [])
  AreParity-append b [] p h e = (e, tt)
  AreParity-append b (q ∷ ps) p h e = (h.0, AreParity-append b ps p h.1 e)

  insert-HasGoodParity :
      (b : ℕ) (ps : List Bytes) (d : Dict ℕ (List Bytes))
      → AreParity b ps
      → HasGoodParity d
      → HasGoodParity (insert b ps d)
  insert-HasGoodParity b ps d good h a = elim (Bool-cases (b == a)) [
    | inl here ↦
        let same : b ≡ a = (==_iff b a).0 here in
        rw lookup-insert (rw here (subst (λ t. AreParity t ps) same good))
    | inr elsewhere ↦ rw lookup-insert (rw elsewhere (h a))
  ]

  with_data-IsFaithful :
      (i : ℕ) (q : Bytes) (st : ReceiveState)
      → c.Good i q
      → IsFaithful st
      → IsFaithful (record st { data_chunks = insert i q st.data_chunks })
  with_data-IsFaithful i q st good h = (
    h.0,
    record {
      good_data = insert-HasGoodData i q st.data_chunks good h.1.good_data;
      good_parity = h.1.good_parity;
    },
  )

  with_parity-IsFaithful :
      (b : ℕ) (p : Bytes) (st : ReceiveState)
      → p ≡ c.parity b
      → IsFaithful st
      → IsFaithful (record st {
        parity_chunks =
            insert b (or_default (lookup b st.parity_chunks) [] ++ p ∷ []) st.parity_chunks;
      })
  with_parity-IsFaithful b p st e h = (
    h.0,
    record {
      good_data = h.1.good_data;
      good_parity =
          insert-HasGoodParity b (or_default (lookup b st.parity_chunks) [] ++ p ∷ [])
            st.parity_chunks
            (AreParity-append b (or_default (lookup b st.parity_chunks) []) p (h.1.good_parity b) e)
            h.1.good_parity;
    },
  )

  -- The test of the store: with FEC the layout passes it.
  fec_test :
      (st : ReceiveState)
      → HasLayout st
      → (st.fec_enabled && (ltb 0 st.k && ltb 0 st.num_data_chunks)) ≡ c.fec
  fec_test st h = elim (Bool-cases c.fec) [
    | inl on ↦
        rw (h.fec_eq, h.k_eq, h.num_eq, on) (rw (lt→ltb 0 c.k (c.k_pos on), lt→ltb 0 c.n c.n_pos))
    | inr off ↦ rw (h.fec_eq, off)
  ]

  -- Storing the payload of a message of the bundle.
  pub store_payload-IsFaithful :
      (b : Text) (msg : DataMsg) (st : ReceiveState)
      → Carries c b msg
      → IsFaithful st
      → IsFaithful (store_payload msg.chunk_id msg.block_id msg.payload st)
  unfolding store_payload
  store_payload-IsFaithful b msg st m h = rw (fec_test st h.0) (elim (Bool-cases c.fec) [
    | inl on ↦ rw on (elim (Bool-cases (ltb msg.chunk_id st.num_data_chunks)) [
      | inl is_data ↦ rw is_data (
          with_data-IsFaithful msg.chunk_id msg.payload st
            (m.data_good
              (omega (arith, ltb→lt msg.chunk_id st.num_data_chunks is_data, h.0.num_eq)))
            h)
      | inr is_parity ↦ rw is_parity (
          with_parity-IsFaithful msg.block_id msg.payload st
            (m.parity_good (subst (λ t. ltb msg.chunk_id t ≡ false) h.0.num_eq is_parity)) h)
    ])
    | inr off ↦
        rw off (with_data-IsFaithful msg.chunk_id msg.payload st (m.data_good (m.data_only off)) h)
  ])

  -- Reconstructing a chunk of a block.
  reconstruct_one-IsFaithful :
      (b : ℕ) (missing : List ℕ) (parities : List Bytes) (st : ReceiveState)
      → c.fec ≡ true
      → absent_ids st.data_chunks (block_ids c.n c.k b) ≡ missing
      → AreParity b parities
      → IsFaithful st
      → IsFaithful (reconstruct_one st b missing parities).0
  reconstruct_one-IsFaithful b [] ps st on e a h = h
  reconstruct_one-IsFaithful b (i ∷ j ∷ is) ps st on e a h = h
  reconstruct_one-IsFaithful b (i ∷ []) [] st on e a h = h
  reconstruct_one-IsFaithful b (i ∷ []) (p ∷ ps) st on e a h =
      let ids : expected_ids st b ≡ block_ids c.n c.k b = cc (h.0.num_eq, h.0.k_eq) in
      let good : c.Good i (xor_bytes p (present_values st.data_chunks (expected_ids st b))) =
        subst (λ t. c.Good i (xor_bytes t (present_values st.data_chunks (expected_ids st b))))
          (sym a.0)
          (subst (λ t. c.Good i (xor_bytes (c.parity b) (present_values st.data_chunks t)))
            (sym ids) (c.recover st.data_chunks b i on h.1.good_data e)) in
      with_data-IsFaithful i _ st good h

  pub try_fec_reconstruct-IsFaithful :
      (b : ℕ) (st : ReceiveState) → IsFaithful st → IsFaithful (try_fec_reconstruct st b).0
  unfolding try_fec_reconstruct
  try_fec_reconstruct-IsFaithful b st h =
      elim (Bool-cases (st.fec_enabled && (ltb 0 st.k && ltb 0 st.r))) [
        | inl on ↦
            let ids : expected_ids st b ≡ block_ids c.n c.k b = cc (h.0.num_eq, h.0.k_eq) in
            rw on (
              reconstruct_one-IsFaithful b _ (or_default (lookup b st.parity_chunks) []) st
                (sym h.0.fec_eq ∙ ground arith) (ap (absent_ids st.data_chunks) (sym ids))
                (h.1.good_parity b) h)
        | inr off ↦ rw off h
      ]
