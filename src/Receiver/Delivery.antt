-- ===== src/Receiver/Delivery.antt =====
-- `handle_data` as a whole (courier/receive_engine.py): with every message of a bundle the engine
-- stays faithful to its contract, and a delivered bundle has its file.
use cs60_final_project.Common.{
  ◌≡◌, refl, sym, ap, ◌∙◌, subst, true, false, Option, none, some, Text, range, nat_eq, text_eq,
  arith, if◌then◌else◌, inl, inr, Option-cases, if-elim,
}
use cs60_final_project.Common.Dict.{lookup, insert, lookup-insert_self}
use cs60_final_project.Common.NatSet.{mem}
use cs60_final_project.Chunk.{Chunk}
use cs60_final_project.Protocol.{DataMsg, Address}
use cs60_final_project.Receiver.{
  ReceiveState, ReceiveEngine, Env, Disk, writable, unopened, breaks_after, FecFields, fec_fields,
  absent_ids, concat, num_data_of, ordered_payloads, put_state, send_sack, create_receive_state,
  maybe_deliver, finish_data, flush_buffer, is_sack_due, record_chunk, reconstruct_if_fec,
  save_recovered, with_state, known_or_new, new_chunk, handle_data, is_empty, after_write,
  output_path_of,
}
use cs60_final_project.Receiver.Contract.{Contract, Carries}
use cs60_final_project.Receiver.Stored.{
  StateOk, ordered_payloads-Restored, record_chunk-StateOk, reconstruct_if_fec-StateOk,
}

module _ (c : Contract) (b path : Text) where
  pub record EngineOk {T : Type 0} (e : ReceiveEngine T) : Type 0 where
    pub entry :
        (st : ReceiveState) → lookup b e.active_receives ≡ some st → StateOk c b path e.files st
    pub placed : output_path_of e.output_dir b ≡ path
    pub settled :
        fec_fields e.fec_config.enabled c.total c.k c.r
        ≡ record { fec_enabled = c.fec; k = c.k; r = c.r; num_data_chunks = c.n }

  module _ {T : Type 0} where
    put_state-EngineOk :
        (st : ReceiveState) (e : ReceiveEngine T)
        → StateOk c b path e.files st
        → EngineOk e
        → EngineOk (put_state b st e)
    put_state-EngineOk st e ok h = record {
      entry = λ s q.
          subst (StateOk c b path e.files) {x = st} {y = s}
            (ground (arith, lookup-insert_self b st e.active_receives)) ok;
      placed = h.placed;
      settled = h.settled;
    }

    send_sack-EngineOk :
        (a : Text) (addr : Address) (e : ReceiveEngine T)
        → EngineOk e
        → EngineOk (send_sack a addr e)
    unfolding send_sack
    send_sack-EngineOk a addr e h = elim (Option-cases (lookup a e.active_receives)) [
      | inl unknown ↦ rw (unknown, send_sack) h
      | inr (st, known) ↦
          rw (known, send_sack) (record { entry = h.entry; placed = h.placed; settled = h.settled })
    ]

    -- Writing the file of a bundle that is complete.
    after_write-EngineOk :
        (disk : Disk) (env : Env) (addr : Address) (st : ReceiveState) (e : ReceiveEngine T)
        → lookup b e.active_receives ≡ some st
        → st.delivered ≡ false
        → c.Restored (concat (ordered_payloads st))
        → EngineOk e
        → EngineOk (after_write disk env st addr e)
    after_write-EngineOk writable env addr st e known open_yet good h =
        let ok = h.entry st known in
        record {
          entry = λ s q.
              subst
                (StateOk c b path (insert st.output_path (concat (ordered_payloads st)) e.files))
                {x = record st { delivered = true }} {y = s}
                (ground (
                  arith,
                  ok.1.named,
                  lookup-insert_self b (record st { delivered = true }) e.active_receives,
                ))
                (
                  ok.0,
                  record {
                    named = ok.1.named;
                    placed = ok.1.placed;
                    written = λ _. (
                      concat (ordered_payloads st),
                      ground (
                        arith,
                        ok.1.placed,
                        lookup-insert_self path (concat (ordered_payloads st)) e.files,
                      ),
                      good,
                    );
                  },
                );
          placed = h.placed;
          settled = h.settled;
        }
    after_write-EngineOk unopened env addr st e known open_yet good h = h
    after_write-EngineOk (breaks_after n) env addr st e known open_yet good h = record {
      entry = λ s q.
          let same : s ≡ st = cc in
          let ok = h.entry s q in
          (ok.0, record { named = ok.1.named; placed = ok.1.placed; written = λ d. absurd (cc) });
      placed = h.placed;
      settled = h.settled;
    }

    maybe_deliver-EngineOk :
        (env : Env) (addr : Address) (st : ReceiveState) (e : ReceiveEngine T)
        → lookup b e.active_receives ≡ some st
        → EngineOk e
        → EngineOk (maybe_deliver env st addr e)
    unfolding maybe_deliver
    maybe_deliver-EngineOk env addr st e known h =
        if-elim EngineOk st.delivered _ _ (λ _. h)
          λ open_yet.
            if-elim EngineOk (is_empty (absent_ids st.data_chunks (range 0 (num_data_of st)))) _ _
              (λ complete.
                after_write-EngineOk env.disk env addr st e known open_yet
                  (ordered_payloads-Restored c b path st (h.entry st known).0 complete) h)
              (λ _. h)

    lookup-send_sack :
        (a : Text) (addr : Address) (e : ReceiveEngine T)
        → (send_sack a addr e).active_receives ≡ e.active_receives
    unfolding send_sack
    lookup-send_sack a addr e = elim (Option-cases (lookup a e.active_receives)) [
      | inl unknown ↦ rw (unknown, send_sack)
      | inr (st, known) ↦ rw (known, send_sack)
    ]

    flush_buffer-EngineOk :
        (st : ReceiveState) (e : ReceiveEngine T)
        → StateOk c b path e.files st
        → EngineOk e
        → let (st', e') = flush_buffer st e in StateOk c b path e'.files st' × EngineOk e'
    unfolding flush_buffer
    flush_buffer-EngineOk st e ok h =
        if-elim
          (λ (p : ReceiveState × ReceiveEngine T). StateOk c b path p.1.files p.0 × EngineOk p.1) _
          _ _ (λ _. (ok, record { entry = h.entry; placed = h.placed; settled = h.settled }))
          (λ _. (ok, h))

    deliver_acked-EngineOk :
        (env : Env) (addr : Address) (st : ReceiveState) (e : ReceiveEngine T)
        → StateOk c b path e.files st
        → EngineOk e
        → EngineOk (
            maybe_deliver env st addr
              (if is_sack_due st then send_sack b addr (put_state b st e) else put_state b st e))
    deliver_acked-EngineOk env addr st e ok h =
        let known = lookup-insert_self b st e.active_receives in
        let kept = put_state-EngineOk st e ok h in
        if-elim (λ a. EngineOk (maybe_deliver env st addr a)) (is_sack_due st) _ _
          (λ _.
            maybe_deliver-EngineOk env addr st _
              (ap (lookup b) (lookup-send_sack b addr (put_state b st e)) ∙ known)
              (send_sack-EngineOk b addr _ kept))
          (λ _. maybe_deliver-EngineOk env addr st _ known kept)

    finish_data-EngineOk :
        (env : Env) (addr : Address) (st : ReceiveState) (e : ReceiveEngine T)
        → StateOk c b path e.files st
        → EngineOk e
        → EngineOk (finish_data env b addr st e)
    unfolding finish_data
    finish_data-EngineOk env addr st e ok h =
        let flushed = flush_buffer-EngineOk st e ok h in
        deliver_acked-EngineOk env addr (flush_buffer st e).0 (flush_buffer st e).1 flushed.0
          flushed.1

    save_recovered-EngineOk :
        (saved : Option Chunk) (e : ReceiveEngine T)
        → EngineOk e
        → EngineOk (save_recovered saved e) × ((save_recovered saved e).files ≡ e.files)
    save_recovered-EngineOk none e h = (h, refl)
    save_recovered-EngineOk (some x) e h =
        (record { entry = h.entry; placed = h.placed; settled = h.settled }, refl)

    new_chunk-EngineOk :
        (env : Env) (msg : DataMsg) (addr : Address) (st : ReceiveState) (e : ReceiveEngine T)
        → Carries c b msg
        → StateOk c b path e.files st
        → EngineOk e
        → EngineOk (new_chunk env msg addr st e)
    unfolding new_chunk
    new_chunk-EngineOk env msg addr st e m ok h =
        let buffered = record_chunk msg st in
        let tried = reconstruct_if_fec buffered msg.block_id in
        let saved = save_recovered-EngineOk tried.1 e h in
        let fine =
          reconstruct_if_fec-StateOk c b path msg.block_id buffered e.files
            (record_chunk-StateOk c b path msg st e.files m ok) in
        subst (λ t. EngineOk (finish_data env t addr tried.0 (save_recovered tried.1 e)))
          (sym m.for_bundle)
          (finish_data-EngineOk env addr tried.0 (save_recovered tried.1 e)
            (subst (λ f. StateOk c b path f tried.0) (sym saved.1) fine) saved.0)

    with_state-EngineOk :
        (env : Env) (msg : DataMsg) (addr : Address) (st : ReceiveState) (e : ReceiveEngine T)
        → Carries c b msg
        → StateOk c b path e.files st
        → EngineOk e
        → EngineOk (with_state env msg addr st e)
    with_state-EngineOk env msg addr st e m ok h =
        if-elim EngineOk (mem msg.chunk_id st.received_chunks) _ _
          (λ _. send_sack-EngineOk msg.bundle_id addr e h)
          (λ _. new_chunk-EngineOk env msg addr st e m ok h)

    -- A new receive state is faithful.
    pub create_receive_state-StateOk :
        (env : Env) (msg : DataMsg) (addr : Address) (e : ReceiveEngine T)
        → Carries c b msg
        → EngineOk e
        → let (st, e') =
            create_receive_state env msg.bundle_id msg.total_chunks msg.k msg.r addr e in
          StateOk c b path e.files st × EngineOk e' × (e'.files ≡ e.files)
    unfolding create_receive_state
    create_receive_state-StateOk env msg addr e m h =
        let settled : fec_fields e.fec_config.enabled msg.total_chunks msg.k msg.r
            ≡ record { fec_enabled = c.fec; k = c.k; r = c.r; num_data_chunks = c.n } =
          rw (m.in_total, m.with_k, m.with_r) h.settled in
        (
          (
            (
              record {
                total_eq = m.in_total;
                fec_eq = ap (λ (f : FecFields). f.fec_enabled) settled;
                num_eq = ap (λ (f : FecFields). f.num_data_chunks) settled;
                k_eq = ap (λ (f : FecFields). f.k) settled;
                r_eq = ap (λ (f : FecFields). f.r) settled;
              },
              record { good_data = λ i q e. absurd (cc); good_parity = λ i. tt },
            ),
            record {
              named = m.for_bundle;
              placed = ap (output_path_of e.output_dir) m.for_bundle ∙ h.placed;
              written = λ d. absurd (cc);
            },
          ),
          record { entry = h.entry; placed = h.placed; settled = h.settled },
          refl,
        )

    known_or_new-EngineOk :
        (found : Option ReceiveState) (env : Env) (msg : DataMsg) (addr : Address)
        (e : ReceiveEngine T)
        → lookup b e.active_receives ≡ found
        → Carries c b msg
        → EngineOk e
        → EngineOk (known_or_new found env msg addr e)
    known_or_new-EngineOk none env msg addr e q m h =
        let (st, e') = create_receive_state env msg.bundle_id msg.total_chunks msg.k msg.r addr e in
        let created = create_receive_state-StateOk env msg addr e m h in
        let ok : StateOk c b path e'.files st =
          subst (λ f. StateOk c b path f st) (sym created.2) created.0 in
        with_state-EngineOk env msg addr st (put_state msg.bundle_id st e') m ok (
          subst (λ t. EngineOk (put_state t st e')) (sym m.for_bundle)
            (put_state-EngineOk st e' ok created.1))
    known_or_new-EngineOk (some st) env msg addr e q m h =
        with_state-EngineOk env msg addr st e m (h.entry st q) h

    -- Whatever the engine has received before, a message of the bundle keeps it faithful.
    pub handle_data-EngineOk :
        (env : Env) (msg : DataMsg) (addr : Address) (e : ReceiveEngine T)
        → Carries c b msg
        → EngineOk e
        → EngineOk (handle_data env msg addr e)
    unfolding handle_data
    handle_data-EngineOk env msg addr e m h =
        known_or_new-EngineOk (lookup msg.bundle_id e.active_receives) env msg addr e
          (ap (λ t. lookup t e.active_receives) (sym m.for_bundle)) m h
