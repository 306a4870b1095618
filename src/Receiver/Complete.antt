-- ===== src/Receiver/Complete.antt =====
-- A DATA message in the receive engine (courier/receive_engine.py), whatever it has received before: its
-- chunk is held afterwards, and a bundle that is complete is delivered.
use cs60_final_project.Common.{
  ℕ, ◌≡◌, ◌≢◌, ◌<◌, refl, sym, ap, ◌∙◌, subst, true, Option, none, some, [], Text, range, if-elim,
  nat_eq, text_eq,
}
use cs60_final_project.Common.Dict.{lookup, contains, lookup-insert_self}
use cs60_final_project.Common.NatSet.{mem}
use cs60_final_project.Protocol.{DataMsg, Address}
use cs60_final_project.Receiver.{
  ReceiveState, ReceiveEngine, Env, writable, absent_ids, num_data_of, put_state, new_chunk,
  with_state, known_or_new, handle_data, create_receive_state,
}
use cs60_final_project.Receiver.Contract.{Contract, Carries}
use cs60_final_project.Receiver.Delivery.{EngineOk, create_receive_state-StateOk}
use cs60_final_project.Receiver.Payloads.{HasPayloads}
use cs60_final_project.Receiver.Progress.{Entered, send_sack-active, new_chunk-Entered}

-- A receive state with its payloads that is delivered once it is complete.
abbrev pub IsLive : ℕ → ReceiveState → Type 0
IsLive n st =
    HasPayloads n st
    × (absent_ids st.data_chunks (range 0 (num_data_of st)) ≡ [] → st.delivered ≡ true)

nothing_in : (i : ℕ) → mem i [] ≢ true
nothing_in i p = cc

module _ {T : Type 0} where
  abbrev pub Live : ℕ → Text → ReceiveEngine T → Type 0
  Live n b e = (st : ReceiveState) → lookup b e.active_receives ≡ some st → IsLive n st

  -- The engine holds the payload of chunk i of the bundle.
  abbrev pub Holds : Text → ℕ → ReceiveEngine T → Type 0
  Holds b i e =
      (st : ReceiveState) × (lookup b e.active_receives ≡ some st)
      × (contains i st.data_chunks ≡ true)

  -- A step that brings chunk x.
  abbrev pub Brings : ℕ → Text → ℕ → ReceiveEngine T → ReceiveEngine T → Type 0
  Brings n b x e e' = Live n b e' × (x < n → Holds b x e') × ((i : ℕ) → Holds b i e → Holds b i e')

  Brings-Entered :
      (n : ℕ) (b : Text) (x : ℕ) (st : ReceiveState) (e e' : ReceiveEngine T)
      → ((s : ReceiveState) → lookup b e.active_receives ≡ some s → s ≡ st)
      → (entered : Entered n b st e') → (x < n → contains x entered.0.data_chunks ≡ true)
      → Brings n b x e e'
  Brings-Entered n b x st e e' known (st', found, more, done) new = (
    λ s q. let same : st' ≡ s = cc in subst (IsLive n) same (more.has, done),
    λ low. (st', found, new low),
    λ i (s, q, p). (
      st',
      found,
      more.keeps i (subst (λ (t : ReceiveState). contains i t.data_chunks ≡ true) (known s q) p),
    ),
  )

  with_state-Brings :
      (n : ℕ) (env : Env) (msg : DataMsg) (addr : Address) (st : ReceiveState) (e : ReceiveEngine T)
      → env.disk ≡ writable
      → lookup msg.bundle_id e.active_receives ≡ some st
      → st.bundle_id ≡ msg.bundle_id
      → st.num_data_chunks ≡ n
      → HasPayloads n st
      → (mem msg.chunk_id st.received_chunks ≡ true → IsLive n st)
      → Brings n msg.bundle_id msg.chunk_id e (with_state env msg addr st e)
  with_state-Brings n env msg addr st e disk found name size h live =
      if-elim (Brings n msg.bundle_id msg.chunk_id e) (mem msg.chunk_id st.received_chunks) _ _
        (λ old.
          let same = send_sack-active msg.bundle_id addr e in
          let here = ap (lookup msg.bundle_id) same ∙ found in
          (
            λ s q. let e' : st ≡ s = cc in subst (IsLive n) e' (live old),
            λ low. (st, here, h msg.chunk_id low old),
            λ i (s, q, p). (s, ap (lookup msg.bundle_id) same ∙ q, p),
          ))
        (λ _.
          let entered = new_chunk-Entered n env msg addr st e disk name size h in
          Brings-Entered n msg.bundle_id msg.chunk_id st e (new_chunk env msg addr st e) (λ s q. cc)
            entered.0 entered.1)

  created_received :
      (env : Env) (msg : DataMsg) (addr : Address) (e : ReceiveEngine T)
      → (create_receive_state env msg.bundle_id msg.total_chunks msg.k msg.r addr
          e).0.received_chunks
        ≡ []
  unfolding create_receive_state
  created_received env msg addr e = refl

  known_or_new-Brings :
      (c : Contract) (path : Text) (found : Option ReceiveState) (env : Env) (msg : DataMsg)
      (addr : Address) (e : ReceiveEngine T)
      → lookup msg.bundle_id e.active_receives ≡ found
      → env.disk ≡ writable
      → Carries c msg.bundle_id msg
      → EngineOk c msg.bundle_id path e
      → Live c.n msg.bundle_id e
      → Brings c.n msg.bundle_id msg.chunk_id e (known_or_new found env msg addr e)
  known_or_new-Brings c path none env msg addr e q disk m ok live =
      let (st, e') = create_receive_state env msg.bundle_id msg.total_chunks msg.k msg.r addr e in
      let created = create_receive_state-StateOk c msg.bundle_id path env msg addr e m ok in
      let here : lookup msg.bundle_id (put_state msg.bundle_id st e').active_receives ≡ some st =
        lookup-insert_self msg.bundle_id st e'.active_receives in
      let none_in : (i : ℕ) → mem i st.received_chunks ≢ true =
        λ i p. nothing_in i (ap (mem i) (sym (created_received env msg addr e)) ∙ p) in
      let step =
        with_state-Brings c.n env msg addr st (put_state msg.bundle_id st e') disk here
          created.0.1.named created.0.0.0.num_eq (λ i low p. absurd (none_in i p))
          (λ p. absurd (none_in msg.chunk_id p)) in
      (step.0, step.1, λ i (s, found, p). absurd (cc))
  known_or_new-Brings c path (some st) env msg addr e q disk m ok live =
      let entry = ok.entry st q in
      with_state-Brings c.n env msg addr st e disk q entry.1.named entry.0.0.num_eq (live st q).0
        (λ _. live st q)

  pub handle_data-Brings :
      (c : Contract) (b path : Text) (env : Env) (msg : DataMsg) (addr : Address)
      (e : ReceiveEngine T)
      → env.disk ≡ writable
      → Carries c b msg
      → EngineOk c b path e
      → Live c.n b e
      → Brings c.n b msg.chunk_id e (handle_data env msg addr e)
  unfolding handle_data
  handle_data-Brings c b path env msg addr e disk m ok live =
      subst
        (λ t.
          Carries c t msg
          → EngineOk c t path e
          → Live c.n t e
          → Brings c.n t msg.chunk_id e
              (known_or_new (lookup msg.bundle_id e.active_receives) env msg addr e))
        m.for_bundle
        (λ m' ok' live'.
          known_or_new-Brings c path (lookup msg.bundle_id e.active_receives) env msg addr e refl
            disk m' ok' live')
        m ok live
