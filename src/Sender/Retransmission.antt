-- ===== src/Sender/Retransmission.antt =====
-- A chunk whose timer has run out is sent again (courier/send_engine.py, `check_timeouts` and
-- `retransmit_chunks`).
use cs60_final_project.Common.{
  ℕ, ◌≡◌, refl, sym, ap, subst, ◌∙◌, Bool, true, false, none, some, List, [], ◌∷◌, Text, ◌==◌,
  ==_iff, text_eq, nat_eq, arith, if◌then◌else◌, inl, inr, Bool-cases, elim-some,
}
use cs60_final_project.Common.Dict.{Dict, lookup, contains, lookup-insert_self}
use cs60_final_project.Common.NatSet.{NatSet, mem, mem-append}
use cs60_final_project.Chunk.{Chunk}
use cs60_final_project.Protocol.{Address, data_msg}
use cs60_final_project.Storage.{load_chunks_for_bundle}
use cs60_final_project.Transfer.{chunk_msg}
use cs60_final_project.Sender.State.{Floats, SendState, SendEngine, SendEnv, Outbox, put_send}
use cs60_final_project.Sender.Sending.{chunk_dict, drain_queue, retransmit_of, retransmit_chunks}
use cs60_final_project.Sender.Timeouts.{
  timed_out, open_timers, enqueue, check_transfer, check_timeouts,
}
use cs60_final_project.Sender.KeptWindows.{lookup-check_transfers}
use cs60_final_project.Sender.Safety.{IsSameTransfer}
use cs60_final_project.Sender.Queue.{HasNew, drain_queue-HasNew, drain_queue-timed}

module _ {F : Type 0} where
  pub timed_out-mem :
      (fl : Floats F) (now : F) (acked : NatSet) (i : ℕ) (t : F) (timers : Dict ℕ F)
      → lookup i timers ≡ some t
      → fl.le t now ≡ true
      → mem i acked ≡ false
      → mem i (timed_out fl now acked timers) ≡ true
  unfolding timed_out
  timed_out-mem fl now acked i t [] found due fresh = absurd (cc)
  timed_out-mem fl now acked i t ((j, s) ∷ timers) found due fresh = elim (Bool-cases (j == i)) [
    | inl same ↦
        let here : j ≡ i = (==_iff j i).0 same in
        let first : s ≡ t = ground (arith, found, same) in
        rw (here, first, fresh, due) (ground (arith, ==_iff i i))
    | inr other ↦
        let later =
          timed_out-mem fl now acked i t timers (ground (arith, found, other)) due fresh in
        ground (arith, later)
  ]

  enqueue_lem :
      (fl : Floats F) (max_rto_ms : ℕ) (i : ℕ) (is : List ℕ) (st : SendState F)
      → mem i is ≡ true
      → IsSameTransfer st (enqueue fl max_rto_ms is st)
        × (mem i (enqueue fl max_rto_ms is st).retransmit_queue ≡ true)
  unfolding enqueue
  enqueue_lem fl max_rto_ms i [] st h = absurd (cc)
  enqueue_lem fl max_rto_ms i (j ∷ is) st h =
      ((refl, refl, refl), ground (arith, mem-append i st.retransmit_queue (j ∷ is), h))

  pub check_transfer_lem :
      (fl : Floats F) (now : F) (max_rto_ms : ℕ) (i : ℕ) (t : F) (st : SendState F)
      → st.completed ≡ false
      → lookup i st.chunk_timers ≡ some t
      → fl.le t now ≡ true
      → mem i st.acked_chunks ≡ false
      → let st' = check_transfer fl now max_rto_ms st in
        IsSameTransfer st st' × (mem i st'.retransmit_queue ≡ true)
  unfolding check_transfer
  check_transfer_lem fl now max_rto_ms i t st unfinished found due fresh =
      let out = timed_out fl now st.acked_chunks st.chunk_timers in
      let opened = record st { chunk_timers = open_timers st.acked_chunks st.chunk_timers } in
      let checked = enqueue fl max_rto_ms out opened in
      let run : check_transfer fl now max_rto_ms st ≡ checked =
        ap (λ (a : Bool). if a then st else checked) unfinished in
      subst (λ (x : SendState F). IsSameTransfer st x × (mem i x.retransmit_queue ≡ true)) (sym run)
        (enqueue_lem fl max_rto_ms i out opened
          (timed_out-mem fl now st.acked_chunks i t st.chunk_timers found due fresh))

  -- retransmit_chunks for a transfer that is not complete
  pub retransmit_chunks-found :
      (fl : Floats F) (env : SendEnv F) (b : Text) (addr : Address) (e : SendEngine F)
      (st : SendState F)
      → lookup b e.active_sends ≡ some st
      → st.completed ≡ false
      → let chunks = chunk_dict (load_chunks_for_bundle b e.storage) in
        let after = drain_queue fl env addr chunks st.retransmit_queue (st, e.sent) in
        retransmit_chunks fl env b addr e ≡ put_send b after.0 (record e { sent = after.1 })
  unfolding retransmit_chunks retransmit_of
  retransmit_chunks-found fl env b addr e st found unfinished =
      let chunks = chunk_dict (load_chunks_for_bundle b e.storage) in
      let after = drain_queue fl env addr chunks st.retransmit_queue (st, e.sent) in
      elim-some (lookup b e.active_sends) e (λ (x : SendState F). retransmit_of fl env b addr x e)
        found
      ∙ ap (λ (a : Bool). if a then e else put_send b after.0 (record e { sent = after.1 }))
          unfinished

  pub check_timeouts-found :
      (fl : Floats F) (now : F) (b : Text) (e : SendEngine F) (st : SendState F)
      → lookup b e.active_sends ≡ some st
      → lookup b (check_timeouts fl now e).active_sends
        ≡ some (check_transfer fl now e.config.max_rto_ms st)
  unfolding check_timeouts
  check_timeouts-found fl now b e st found =
      lookup-check_transfers fl now e.config.max_rto_ms b e.active_sends
      ∙ elim-some (lookup b e.active_sends) none
          (λ (x : SendState F). some (check_transfer fl now e.config.max_rto_ms x)) found

  module _ (fl : Floats F) (now : F) (env : SendEnv F) (b : Text) (addr : Address)
      (e : SendEngine F) (st : SendState F) (i : ℕ) (t : F) (c : Chunk)
      (found : lookup b e.active_sends ≡ some st) (unfinished : st.completed ≡ false)
      (timer : lookup i st.chunk_timers ≡ some t) (due : fl.le t now ≡ true)
      (fresh : mem i st.acked_chunks ≡ false)
      (stored : lookup i (chunk_dict (load_chunks_for_bundle b e.storage)) ≡ some c) where
    abbrev checked : SendState F
    checked = check_transfer fl now e.config.max_rto_ms st

    abbrev queue_sent : SendState F × Outbox
    queue_sent =
        drain_queue fl env addr (chunk_dict (load_chunks_for_bundle b e.storage))
          checked.retransmit_queue (checked, e.sent)

    run :
        retransmit_chunks fl env b addr (check_timeouts fl now e)
        ≡ put_send b queue_sent.0 (record (check_timeouts fl now e) { sent = queue_sent.1 })
    unfolding check_timeouts
    run =
        let (kept, queued) =
          check_transfer_lem fl now e.config.max_rto_ms i t st unfinished timer due fresh in
        retransmit_chunks-found fl env b addr (check_timeouts fl now e) checked
          (check_timeouts-found fl now b e st found) (kept.2 ∙ unfinished)

    -- A chunk that is in storage, not acknowledged, and whose timer has run out, of a transfer that
    -- is not complete, goes to the network again when the timers are checked and the queue is sent.
    pub retransmit_chunks-check_timeouts :
        HasNew
          (data_msg (chunk_msg st.total_chunks c), addr)
          e.sent
          (retransmit_chunks fl env b addr (check_timeouts fl now e)).sent
    retransmit_chunks-check_timeouts =
        let (kept, queued) =
          check_transfer_lem fl now e.config.max_rto_ms i t st unfinished timer due fresh in
        let (xs, ys, grown) =
          drain_queue-HasNew fl env addr (chunk_dict (load_chunks_for_bundle b e.storage)) st i c
            fresh stored checked.retransmit_queue (checked, e.sent) kept queued in
        (xs, ys, ap (λ (x : SendEngine F). x.sent) run ∙ grown)

    -- If the network takes every message, the chunk then has a timer again.
    pub retransmit_chunks-timed :
        ((n : ℕ) → env.accepts n ≡ true)
        → (x : SendState F) × (lookup b
              (retransmit_chunks fl env b addr (check_timeouts fl now e)).active_sends
            ≡ some x)
          × (contains i x.chunk_timers ≡ true)
    unfolding check_timeouts
    retransmit_chunks-timed taken =
        let (kept, queued) =
          check_transfer_lem fl now e.config.max_rto_ms i t st unfinished timer due fresh in
        (
          queue_sent.0,
          ap (λ (x : SendEngine F). lookup b x.active_sends) run
              ∙ lookup-insert_self b queue_sent.0 (check_timeouts fl now e).active_sends,
          drain_queue-timed fl env addr (chunk_dict (load_chunks_for_bundle b e.storage)) st i c
              fresh stored taken checked.retransmit_queue (checked, e.sent) kept
              (ground (arith, queued)),
        )
