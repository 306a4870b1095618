-- ===== src/Receiver/Progress.antt =====
-- What a DATA message brings forward in the receive engine (courier/receive_engine.py): its chunk is
-- there afterwards, nothing that was there is lost, and a bundle with all its data chunks is delivered
-- if the disk can be written.
use cs60_final_project.Common.{
  ℕ, ◌≡◌, ◌<◌, refl, sym, ap, ◌∙◌, subst, true, ◌||◌, Option, none, some, [], Text, length, range,
  map, arith, leb, if◌then◌else◌, if-elim, nat_eq, text_eq,
}
use cs60_final_project.Common.Dict.{lookup, insert, contains, lookup-insert_self}
use cs60_final_project.Common.Int.{pos}
use cs60_final_project.Protocol.{DataMsg, Address, sack_msg, make_sack_msg}
use cs60_final_project.Receiver.{
  ReceiveState, ReceiveEngine, Env, writable, absent_ids, num_data_of, is_empty, record_chunk,
  reconstruct_if_fec, network_send, send_sack, put_state, maybe_deliver, after_write, flush_buffer,
  finish_data, is_sack_due, is_full, new_chunk, save_recovered,
}
use cs60_final_project.Receiver.Payloads.{
  HasPayloads, IsProgress-same, IsProgress-trans, reconstruct_if_fec-IsProgress,
  record_chunk-IsProgress, IsProgress,
}

module _ {T : Type 0} where
  -- What stands in the engine for the bundle after a step: a state with all that, delivered if it
  -- is complete.
  abbrev pub Entered : ℕ → Text → ReceiveState → ReceiveEngine T → Type 0
  Entered n b st e =
      (st' : ReceiveState) × (lookup b e.active_receives ≡ some st')
      × IsProgress n st st'
      × (absent_ids st'.data_chunks (range 0 (num_data_of st')) ≡ [] → st'.delivered ≡ true)

  pub send_sack-active :
      (b : Text) (addr : Address) (e : ReceiveEngine T)
      → (send_sack b addr e).active_receives ≡ e.active_receives
  unfolding send_sack
  send_sack-active b addr e = active_of (lookup b e.active_receives)
    where
      active_of :
          (found : Option ReceiveState)
          → (elim found as (λ _. ReceiveEngine T) [
            | none ↦ e
            | some st ↦
                network_send (sack_msg (make_sack_msg b (map pos st.received_chunks))) addr e
          ]).active_receives
            ≡ e.active_receives
      active_of none = refl
      active_of (some st) = refl

  maybe_deliver-Entered :
      (n : ℕ) (env : Env) (b : Text) (addr : Address) (st : ReceiveState) (e : ReceiveEngine T)
      → env.disk ≡ writable
      → st.bundle_id ≡ b
      → lookup b e.active_receives ≡ some st
      → HasPayloads n st
      → Entered n b st (maybe_deliver env st addr e)
  unfolding maybe_deliver
  maybe_deliver-Entered n env b addr st e disk name found h =
      if-elim (Entered n b st) st.delivered _ _
        (λ done. (st, found, IsProgress-same n st h, λ _. done))
        (λ _.
          if-elim (Entered n b st) (is_empty (absent_ids st.data_chunks (range 0 (num_data_of st))))
            _ _
            (λ full.
              subst (λ k. Entered n b st (after_write k env st addr e)) (sym disk)
                (
                  record st { delivered = true },
                  ap (λ t. lookup b (insert t (record st { delivered = true }) e.active_receives))
                        name
                      ∙ lookup-insert_self b (record st { delivered = true }) e.active_receives,
                  record { has = h; keeps = λ i p. p; named = refl; counted = refl },
                  λ _. refl,
                ))
            (λ missing.
              (st, found, IsProgress-same n st h, λ full. absurd (ground (arith, missing, full)))))

  flush_buffer-IsProgress :
      (n : ℕ) (st : ReceiveState) (e : ReceiveEngine T)
      → HasPayloads n st
      → IsProgress n st (flush_buffer st e).0
  unfolding flush_buffer
  flush_buffer-IsProgress n st e h =
      if-elim (λ (p : ReceiveState × ReceiveEngine T). IsProgress n st p.0)
        (leb 500 (length st.write_buffer) || is_full st) _ _
        (λ _. record { has = h; keeps = λ i p. p; named = refl; counted = refl })
        (λ _. IsProgress-same n st h)

  finish_data-Entered :
      (n : ℕ) (env : Env) (b : Text) (addr : Address) (st : ReceiveState) (e : ReceiveEngine T)
      → env.disk ≡ writable
      → st.bundle_id ≡ b
      → HasPayloads n st
      → Entered n b st (finish_data env b addr st e)
  unfolding finish_data
  finish_data-Entered n env b addr st e disk name h =
      let flushed = flush_buffer st e in
      let first = flush_buffer-IsProgress n st e h in
      let placed = put_state b flushed.0 flushed.1 in
      let here : lookup b placed.active_receives ≡ some flushed.0 =
        lookup-insert_self b flushed.0 flushed.1.active_receives in
      let acked = if is_sack_due flushed.0 then send_sack b addr placed else placed in
      let there : lookup b acked.active_receives ≡ some flushed.0 =
        if-elim (λ (x : ReceiveEngine T). lookup b x.active_receives ≡ some flushed.0)
          (is_sack_due flushed.0) _ _ (λ _. ap (lookup b) (send_sack-active b addr placed) ∙ here)
          (λ _. here) in
      let (st', found, more, done) =
        maybe_deliver-Entered n env b addr flushed.0 acked disk (first.named ∙ name) there
          first.has in
      (st', found, IsProgress-trans n st flushed.0 st' first more, done)

  pub new_chunk-Entered :
      (n : ℕ) (env : Env) (msg : DataMsg) (addr : Address) (st : ReceiveState) (e : ReceiveEngine T)
      → env.disk ≡ writable
      → st.bundle_id ≡ msg.bundle_id
      → st.num_data_chunks ≡ n
      → HasPayloads n st
      → (entered : Entered n msg.bundle_id st (new_chunk env msg addr st e)) × (msg.chunk_id < n
          → contains msg.chunk_id entered.0.data_chunks ≡ true)
  unfolding new_chunk
  new_chunk-Entered n env msg addr st e disk name size h =
      let buffered = record_chunk msg st in
      let first = record_chunk-IsProgress n msg st size h in
      let rebuilt = reconstruct_if_fec buffered msg.block_id in
      let second = reconstruct_if_fec-IsProgress n msg.block_id buffered first.0.has in
      let both = IsProgress-trans n st buffered rebuilt.0 first.0 second in
      let (st', found, more, done) =
        finish_data-Entered n env msg.bundle_id addr rebuilt.0 (save_recovered rebuilt.1 e) disk
          (both.named ∙ name) both.has in
      (
        (st', found, IsProgress-trans n st rebuilt.0 st' both more, done),
        λ low. more.keeps msg.chunk_id (second.keeps msg.chunk_id (first.1 low)),
      )
