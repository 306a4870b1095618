-- ===== src/Transfer/Lossless.antt =====
-- A file of which every data chunk arrives is delivered (courier/send_engine.py,
-- courier/receive_engine.py).
use cs60_final_project.Common.{
  ℕ, zero, suc, ◌+◌, ◌-◌, ◌≤◌, ◌++◌, range_from, if-elim, ◌≡◌, ◌<◌, ◌⊎◌, refl, sym, ap, ◌∙◌, subst,
  Bool, true, false, Option, none, some, List, [], ◌∷◌, Text, Bytes, length, get_elem?, range,
  arith, All, ◌==◌, if◌then◌else◌, inl, inr, Bool-cases, text_eq, nat_eq,
}
use cs60_final_project.Common.Dict.{Dict, lookup, contains}
use cs60_final_project.Chunk.{Chunk}
use cs60_final_project.Config.{TransferConfig, FecConfig}
use cs60_final_project.Receiver.{
  ReceiveEngine, ReceiveState, writable, absent_ids, num_data_of, output_path_of,
}
use cs60_final_project.Receiver.Contract.{Contract, Carries}
use cs60_final_project.Receiver.Delivery.{EngineOk}
use cs60_final_project.Receiver.Complete.{Live, Holds, Brings, handle_data-Brings}
use cs60_final_project.Protocol.{make_data_msg}
use cs60_final_project.Layout.{ceil_div}
use cs60_final_project.Chunking.{create_chunks}
use cs60_final_project.Transfer.{chunk_msg, use_fec, Arrival, receive_one, receive_all}
use cs60_final_project.Chunking.{data_chunk, generate_fec_chunks}
use cs60_final_project.Chunking.Contents.{
  count, data_chunks, length-data_chunks, get_elem?-data_chunks,
}
use cs60_final_project.Transfer.Bundle.{contract, has_parity, chunks-eq}
use cs60_final_project.Transfer.Messages.{chunk_msg-Carries}
use cs60_final_project.Transfer.EndToEnd.{
  receive_one-EngineOk, receive_all-EngineOk, start-EngineOk,
}

-- Whether the chunk with this place is among the arrivals.
abbrev pub arrives : ℕ → List Arrival → Bool
arrives i [] = false
arrives i (a ∷ arrivals) = let later = arrives i arrivals in if a.index == i then true else later

abbrev pub IsWritable : Arrival → Type 0
IsWritable a = a.env.disk ≡ writable

module _ {T : Type 0} (c : Contract) (b path : Text) (chunks : List Chunk)
    (allowed : (x : ℕ) (m : Chunk)
      → get_elem? chunks x ≡ some m
      → Carries c b (chunk_msg (length chunks) m))
    (there : (x : ℕ)
      → x < c.n
      → (m : Chunk) × (get_elem? chunks x ≡ some m) × (m.chunk_id ≡ x)) where
  -- A step that keeps the invariants, and brings the chunk with place x.
  receive_one-Brings :
      (found : Option Chunk) (a : Arrival) (e : ReceiveEngine T)
      → get_elem? chunks a.index ≡ found
      → IsWritable a
      → EngineOk c b path e
      → Live c.n b e
      → Brings c.n b a.index e (receive_one (length chunks) found a e)
  unfolding chunk_msg make_data_msg
  receive_one-Brings none a e q disk ok live =
      (live, λ low. let (m, found, id) = there a.index low in absurd (cc), λ i h. h)
  receive_one-Brings (some m) a e q disk ok live =
      let step =
        handle_data-Brings c b path a.env (chunk_msg (length chunks) m) a.addr e disk
          (allowed a.index m q) ok live in
      (
        step.0,
        λ low.
            let (m', found, id) = there a.index low in
            let same : m.chunk_id ≡ a.index = cc in
            subst (λ t. Holds b t (receive_one (length chunks) (some m) a e)) same
              (step.1 (subst (λ t. t < c.n) (sym same) low)),
        step.2,
      )

  receive_all-Holds :
      (arrivals : List Arrival) (e : ReceiveEngine T)
      → All IsWritable arrivals
      → EngineOk c b path e
      → Live c.n b e
      → Live c.n b (receive_all chunks arrivals e)
        × ((i : ℕ)
            → i < c.n
            → Holds b i e ⊎ (arrives i arrivals ≡ true)
            → Holds b i (receive_all chunks arrivals e))
  unfolding receive_all
  receive_all-Holds [] e w ok live =
      (live, λ i low h. elim h [ inl held ↦ held | inr never ↦ absurd (cc) ])
  receive_all-Holds (a ∷ arrivals) e w ok live =
      let found = get_elem? chunks a.index in
      let e' = receive_one (length chunks) found a e in
      let step = receive_one-Brings found a e refl w.0 ok live in
      let rest =
        receive_all-Holds arrivals e' w.1
          (receive_one-EngineOk c b path chunks allowed found a e refl ok) step.0 in
      (
        rest.0,
        λ i low h. rest.1 i low (elim h [
          | inl held ↦ inl (step.2 i held)
          | inr coming ↦ elim (Bool-cases (a.index == i)) [
            | inl now ↦
                let same : a.index ≡ i = ground (arith, now) in
                inl (subst (λ t. Holds b t e') same (step.1 (subst (λ t. t < c.n) (sym same) low)))
            | inr later ↦ inr (ground (arith, coming, later))
          ]
        ]),
      )

absent_ids-held :
    (d : Dict ℕ Bytes) (i m : ℕ)
    → ((j : ℕ) → i ≤ j → j < i + m → contains j d ≡ true)
    → absent_ids d (range_from i m) ≡ []
absent_ids-held d i zero h = refl
absent_ids-held d i (suc m) h =
    let here = h i (omega arith) (omega arith) in
    let rest = absent_ids-held d (suc i) m (λ j p q. h j (omega arith) (omega arith)) in
    ground (arith, here, rest)

get_elem?-inside :
    (xs ys : List Chunk) (x : ℕ)
    → x < length xs
    → (m : Chunk) × (get_elem? xs x ≡ some m) × (get_elem? (xs ++ ys) x ≡ some m)
get_elem?-inside [] ys x h = absurd (omega arith)
get_elem?-inside (m ∷ xs) ys zero h = (m, refl, refl)
get_elem?-inside (m ∷ xs) ys (suc x) h = get_elem?-inside xs ys x (omega arith)

module _ (config : TransferConfig) (fec_config : FecConfig) (f : Bytes) (b : Text) (fec : Bool)
    (chunks : List Chunk) (made : create_chunks config fec_config f b fec ≡ some chunks)
    (some_data : 0 < length f) where
  -- The data chunks stand first among the chunks, in the order of their ids.
  data_chunk-there :
      (x : ℕ)
      → x < count config fec_config f b fec
      → (m : Chunk) × (get_elem? chunks x ≡ some m) × (m.chunk_id ≡ x)
  unfolding data_chunk
  data_chunk-there x low =
      let ds = data_chunks config fec_config f b fec in
      let ps = generate_fec_chunks fec_config ds b in
      let size = length-data_chunks config fec_config f b fec in
      let (m, alone, appended) = get_elem?-inside ds ps x (omega (arith, size)) in
      let whole = chunks-eq config fec_config f b fec chunks made some_data in
      let here : get_elem? chunks x ≡ some m =
        ap (λ t. get_elem? t x) whole
        ∙ if-elim (λ t. get_elem? t x ≡ some m) (has_parity fec fec_config) _ _ (λ _. appended)
            (λ _. alone) in
      (
        m,
        here,
        ap (λ (t : Chunk). t.chunk_id) (get_elem?-data_chunks config fec_config f b fec x alone).1,
      )

-- If every data chunk of a file that is not empty arrives, in any order, among repeated chunks and
-- parity chunks, and the disk can be written, then a receive engine that did not know the
-- bundle has delivered it. With FEC the receiver must have FEC enabled too.
pub delivered_once_arrived :
    {T : Type 0} (config : TransferConfig) (fec_config : FecConfig) (f : Bytes) (b : Text)
    (fec_enabled : Bool) (chunks : List Chunk) (arrivals : List Arrival) (e : ReceiveEngine T)
    → create_chunks config fec_config f b (use_fec fec_enabled fec_config) ≡ some chunks
    → 0 < length f
    → (use_fec fec_enabled fec_config ≡ true → e.fec_config.enabled ≡ true)
    → lookup b e.active_receives ≡ none
    → All IsWritable arrivals
    → ((i : ℕ) → i < ceil_div (length f) config.chunk_size → arrives i arrivals ≡ true)
    → (st : ReceiveState) × (lookup b (receive_all chunks arrivals e).active_receives ≡ some st)
      × (st.delivered ≡ true)
delivered_once_arrived config fec_config f b fec_enabled chunks arrivals e made some_data known
      fresh disk all =
    let fec = use_fec fec_enabled fec_config in
    let path = output_path_of e.output_dir b in
    let c = contract config fec_config f b fec chunks made some_data in
    let start =
      start-EngineOk config fec_config f b fec_enabled chunks e made some_data known fresh in
    let allowed = chunk_msg-Carries config fec_config f b fec chunks made some_data in
    let there = data_chunk-there config fec_config f b fec chunks made some_data in
    let end_ok = receive_all-EngineOk c b path chunks allowed arrivals e start in
    let run =
      receive_all-Holds c b path chunks allowed there arrivals e disk start (λ s q. absurd (cc)) in
    let (st, found, held) = run.1 0 c.n_pos (inr (all 0 c.n_pos)) in
    let size : num_data_of st ≡ c.n = ground (arith, (end_ok.entry st found).0.0.num_eq, c.n_pos) in
    let whole : absent_ids st.data_chunks (range 0 (num_data_of st)) ≡ [] =
      ap (λ t. absent_ids st.data_chunks (range 0 t)) size
      ∙ absent_ids-held st.data_chunks 0 (c.n - 0) (λ j p q.
        let (s, again, has) = run.1 j (omega arith) (inr (all j (omega arith))) in
        let same : s ≡ st = cc in
        subst (λ (t : ReceiveState). contains j t.data_chunks ≡ true) same has) in
    (st, found, (run.0 st found).1 whole)
