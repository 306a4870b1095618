-- ===== src/Receiver/Payloads.antt =====
-- The payloads of a receive state: what was there stays there, and a recorded chunk has its payload
-- (courier/receive_engine.py, `_store_payload` and `_try_fec_reconstruct`).
use cs60_final_project.Common.{
  ℕ, ◌≡◌, ◌<◌, refl, sym, ap, ◌∙◌, true, ◌&&◌, ◌||◌, Option, List, [], ◌∷◌, Bytes, arith, ltb, ◌==◌,
  if◌then◌else◌, if-elim, nat_eq, text_eq,
}
use cs60_final_project.Common.Dict.{Dict, insert, contains, lookup-insert}
use cs60_final_project.Common.NatSet.{mem, add, mem-add}
use cs60_final_project.Chunk.{Chunk}
use cs60_final_project.Protocol.{DataMsg}
use cs60_final_project.Receiver.{
  ReceiveState, num_data_of, store_payload, record_chunk, reconstruct_one, with_recovered,
  reconstruct_if_fec, try_fec_reconstruct,
}

-- Every data chunk that is noted as received has its payload.
abbrev pub HasPayloads : ℕ → ReceiveState → Type 0
HasPayloads n st =
    (i : ℕ) → i < n → mem i st.received_chunks ≡ true → contains i st.data_chunks ≡ true

-- The payloads that were there still are.
abbrev pub Keeps : ReceiveState → ReceiveState → Type 0
Keeps st st' = (i : ℕ) → contains i st.data_chunks ≡ true → contains i st'.data_chunks ≡ true

contains-insert :
    (k i : ℕ) (v : Bytes) (d : Dict ℕ Bytes)
    → contains i (insert k v d) ≡ ((k == i) || contains i d)
contains-insert k i v d = ground (arith, lookup-insert k i v d)

store_payload-contains :
    (c a i : ℕ) (p : Bytes) (st : ReceiveState)
    → contains i (store_payload c a p st).data_chunks ≡ (
        ((c == i)
          && (if st.fec_enabled && (ltb 0 st.k && ltb 0 st.num_data_chunks)
              then ltb c st.num_data_chunks
              else true))
        || contains i st.data_chunks)
unfolding store_payload
store_payload-contains c a i p st = ground (arith, contains-insert c i p st.data_chunks)

store_payload-received :
    (c a : ℕ) (p : Bytes) (st : ReceiveState)
    → (store_payload c a p st).received_chunks ≡ st.received_chunks
unfolding store_payload
store_payload-received c a p st = ground arith

store_payload-frame :
    (c a : ℕ) (p : Bytes) (st : ReceiveState)
    → let st' = store_payload c a p st in
      (st'.bundle_id ≡ st.bundle_id) × (num_data_of st' ≡ num_data_of st)
unfolding store_payload
store_payload-frame c a p st =
    let P : ReceiveState → Type 0 =
      λ t. (t.bundle_id ≡ st.bundle_id) × (num_data_of t ≡ num_data_of st) in
    if-elim P (st.fec_enabled && (ltb 0 st.k && ltb 0 st.num_data_chunks)) _ _
      (λ _. if-elim P (ltb c st.num_data_chunks) _ _ (λ _. (refl, refl)) (λ _. (refl, refl)))
      (λ _. (refl, refl))

-- From one value of a receive state to a later one.
pub record IsProgress (n : ℕ) (st st' : ReceiveState) : Type 0 where
  pub has : HasPayloads n st'
  pub keeps : Keeps st st'
  pub named : st'.bundle_id ≡ st.bundle_id
  pub counted : num_data_of st' ≡ num_data_of st

pub IsProgress-same : (n : ℕ) (st : ReceiveState) → HasPayloads n st → IsProgress n st st
IsProgress-same n st h = record { has = h; keeps = λ i p. p; named = refl; counted = refl }

pub IsProgress-trans :
    (n : ℕ) (r s t : ReceiveState) → IsProgress n r s → IsProgress n s t → IsProgress n r t
IsProgress-trans n r s t p q = record {
  has = q.has;
  keeps = λ i x. q.keeps i (p.keeps i x);
  named = q.named ∙ p.named;
  counted = q.counted ∙ p.counted;
}

with_recovered-IsProgress :
    (n x : ℕ) (v : Bytes) (st : ReceiveState)
    → HasPayloads n st
    → IsProgress n st (with_recovered st x v)
with_recovered-IsProgress n x v st h = record {
  has = λ i low there.
      ground (
        arith,
        contains-insert x i v st.data_chunks,
        mem-add x i st.received_chunks,
        h i low,
        there,
      );
  keeps = λ i p. ground (arith, contains-insert x i v st.data_chunks, p);
  named = refl;
  counted = refl;
}

reconstruct_one-IsProgress :
    (n block_id : ℕ) (missing : List ℕ) (parities : List Bytes) (st : ReceiveState)
    → HasPayloads n st
    → IsProgress n st (reconstruct_one st block_id missing parities).0
reconstruct_one-IsProgress n a [] ps st h = IsProgress-same n st h
reconstruct_one-IsProgress n a (x ∷ []) [] st h = IsProgress-same n st h
reconstruct_one-IsProgress n a (x ∷ y ∷ xs) ps st h = IsProgress-same n st h
reconstruct_one-IsProgress n a (x ∷ []) (q ∷ qs) st h = with_recovered-IsProgress n x _ st h

pub reconstruct_if_fec-IsProgress :
    (n block_id : ℕ) (st : ReceiveState)
    → HasPayloads n st
    → IsProgress n st (reconstruct_if_fec st block_id).0
unfolding try_fec_reconstruct
reconstruct_if_fec-IsProgress n a st h =
    let P : ReceiveState × Option Chunk → Type 0 = λ p. IsProgress n st p.0 in
    if-elim P st.fec_enabled _ _
      (λ _.
        if-elim P (st.fec_enabled && (ltb 0 st.k && ltb 0 st.r)) _ _
          (λ _. reconstruct_one-IsProgress n a _ _ st h) (λ _. IsProgress-same n st h))
      (λ _. IsProgress-same n st h)

-- A chunk is recorded: a data chunk is there afterwards.
pub record_chunk-IsProgress :
    (n : ℕ) (msg : DataMsg) (st : ReceiveState)
    → st.num_data_chunks ≡ n
    → HasPayloads n st
    → IsProgress n st (record_chunk msg st)
      × (msg.chunk_id < n → contains msg.chunk_id (record_chunk msg st).data_chunks ≡ true)
unfolding record_chunk
record_chunk-IsProgress n msg st size h =
    let noted = record st { received_chunks = add msg.chunk_id st.received_chunks } in
    let there = λ (i : ℕ). store_payload-contains msg.chunk_id msg.block_id i msg.payload noted in
    let frame = store_payload-frame msg.chunk_id msg.block_id msg.payload noted in
    let ids = store_payload-received msg.chunk_id msg.block_id msg.payload noted in
    (
      record {
        has = λ i low in_it.
            let m : mem i (add msg.chunk_id st.received_chunks) ≡ true =
              ap (mem i) (sym ids) ∙ in_it in
            ground
              (arith, m, mem-add msg.chunk_id i st.received_chunks, there i, h i low, size, low);
        keeps = λ i p. ground (arith, there i, p);
        named = frame.0;
        counted = frame.1;
      },
      λ low. ground (arith, there msg.chunk_id, low, size),
    )
