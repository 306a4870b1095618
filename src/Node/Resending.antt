-- ===== src/Node/Resending.antt =====
-- A chunk whose timer has run out, in a round of the event loop (courier/node.py, `_check_timeouts`).
use cs60_final_project.Common.{
  ℕ, ◌≡◌, refl, sym, ap, subst, ◌∙◌, Bool, true, false, some, [], ◌∷◌, append-nil, Text, text_beq,
  text_beq_iff, text_eq, nat_eq, arith, if◌then◌else◌, if-elim, inl, inr, Bool-cases,
}
use cs60_final_project.Common.Dict.{Dict, lookup}
use cs60_final_project.Common.NatSet.{mem}
use cs60_final_project.Chunk.{Chunk}
use cs60_final_project.Protocol.{Message, Address, data_msg}
use cs60_final_project.Storage.{CustodyRow, load_chunks_for_bundle}
use cs60_final_project.Transfer.{chunk_msg}
use cs60_final_project.Custody.{
  Clock, CustodyManager, save_record, check_record, check_records, check_retry_timers,
}
use cs60_final_project.Sender.State.{Floats, SendState, SendEngine, SendEnv, Outbox, ratio}
use cs60_final_project.Sender.Sending.{chunk_dict, retransmit_chunks}
use cs60_final_project.Sender.Timeouts.{check_transfer, check_timeouts}
use cs60_final_project.Sender.Files.{cleanup_completed_transfers}
use cs60_final_project.Sender.Queue.{HasNew}
use cs60_final_project.Sender.Retransmission.{check_transfer_lem, check_timeouts-found}
use cs60_final_project.Sender.Resending.{
  Grows, Grows-trans, HasNew-Grows, Grows-HasNew, Waits, retransmit_chunks-Grows,
  retransmit_chunks-HasNew, retransmit_chunks-Waits,
}
use cs60_final_project.Node.State.{Node, clock_of, with_send}
use cs60_final_project.Node.Loop.{
  RoundEnv, retransmit_each, node_check_timeouts, periodic_cleanup, timeouts_if_due, cleanup_if_due,
  event_round,
}

module _ {T : Type 0} where
  check_record-sent :
      (clock : Clock T) (now : T) (row : CustodyRow T) (m : CustodyManager T)
      → (check_record clock now row m).sent ≡ m.sent
  unfolding check_record save_record
  check_record-sent clock now row m = ground arith

  check_records-sent :
      (clock : Clock T) (now : T) (entries : Dict Text (CustodyRow T)) (m : CustodyManager T)
      → (check_records clock now entries m).sent ≡ m.sent
  unfolding check_records
  check_records-sent clock now [] m = refl
  check_records-sent clock now ((b, row) ∷ entries) m =
      check_records-sent clock now entries (check_record clock now row m)
      ∙ check_record-sent clock now row m

module _ {F : Type 0} (fl : Floats F) where
  -- The send engine as it is called.
  abbrev send_of : Node F → SendEngine F
  send_of n = record n.send_engine { storage = n.storage; sent = n.sent }

  retransmit_each-Grows :
      (envs : Text → SendEnv F) (dests : Dict Text Address) (n : Node F)
      → Grows n.sent (retransmit_each fl envs dests n).sent
  unfolding retransmit_each
  retransmit_each-Grows envs [] n = ([], sym (append-nil n.sent))
  retransmit_each-Grows envs ((d, addr) ∷ rest) n =
      let next = with_send (retransmit_chunks fl (envs d) d addr) n in
      Grows-trans n.sent next.sent (retransmit_each fl envs rest next).sent
        (retransmit_chunks-Grows fl (envs d) d addr (send_of n))
        (retransmit_each-Grows envs rest next)

  module _ (b : Text) (i total : ℕ) (c : Chunk) (addr : Address) where
    abbrev again : Message × Address
    again = (data_msg (chunk_msg total c), addr)

    -- The loop comes to every bundle that has a destination.
    retransmit_each-HasNew :
        (envs : Text → SendEnv F) (dests : Dict Text Address) (n : Node F)
        → lookup b dests ≡ some addr
        → Waits fl b i total c (send_of n)
        → HasNew again n.sent (retransmit_each fl envs dests n).sent
    unfolding retransmit_each
    retransmit_each-HasNew envs [] n known waits = absurd (cc)
    retransmit_each-HasNew envs ((d, to) ∷ rest) n known waits =
        let next = with_send (retransmit_chunks fl (envs d) d to) n in
        let last = (retransmit_each fl envs rest next).sent in
        elim (Bool-cases (text_beq d b)) [
          | inl hit ↦
              let same : d ≡ b = (text_beq_iff d b).0 hit in
              let there : to ≡ addr = ground (arith, known, hit) in
              HasNew-Grows again n.sent next.sent last
                (subst
                  (λ (t : Text).
                    HasNew again n.sent (retransmit_chunks fl (envs d) t to (send_of n)).sent)
                  (sym same)
                  (subst
                    (λ (a : Address).
                      HasNew again n.sent (retransmit_chunks fl (envs d) b a (send_of n)).sent)
                    (sym there)
                    (retransmit_chunks-HasNew fl b i total c (envs d) addr (send_of n) waits)))
                (retransmit_each-Grows envs rest next)
          | inr other ↦
              Grows-HasNew again n.sent next.sent last
                (retransmit_chunks-Grows fl (envs d) d to (send_of n))
                (retransmit_each-HasNew envs rest next (ground (arith, known, other))
                  (retransmit_chunks-Waits fl b i total c (envs d) d to (send_of n) other waits))
        ]

  cleanup_if_due-sent : (env : RoundEnv F) (n : Node F) → (cleanup_if_due fl env n).sent ≡ n.sent
  unfolding periodic_cleanup cleanup_completed_transfers
  cleanup_if_due-sent env n =
      if-elim (λ (x : Node F). x.sent ≡ n.sent)
        (fl.lt (fl.of_nat 60) (fl.sub env.current_time n.last_cleanup))
        (record (periodic_cleanup fl env n) { last_cleanup = env.current_time }) n (λ _. refl)
        (λ _. refl)

  event_round-sent :
      (env : RoundEnv F) (n : Node F)
      → n.running ≡ true
      → fl.lt (ratio fl 1 20) (fl.sub env.current_time n.last_timeout_check) ≡ true
      → (event_round fl env n).sent ≡ (node_check_timeouts fl env n).sent
  unfolding event_round
  event_round-sent env n running late =
      let checked = record (node_check_timeouts fl env n) {
        last_timeout_check = env.current_time;
      } in
      ap (λ (a : Bool). (if a then cleanup_if_due fl env (timeouts_if_due fl env n) else n).sent)
        running
      ∙ cleanup_if_due-sent env (timeouts_if_due fl env n)
      ∙ ap (λ (a : Bool). (if a then checked else n).sent) late

  -- A round of the event loop of a running node, more than 50 ms after the last check: a chunk whose
  -- timer has run out, and that is in storage and not acknowledged, of a transfer that is not complete
  -- and whose destination the node knows, is handed to the network again, for that destination,
  -- whatever other transfers there are.
  pub event_round-HasNew :
      (env : RoundEnv F) (n : Node F) (b : Text) (addr : Address) (st : SendState F) (i : ℕ) (t : F)
      (c : Chunk)
      → n.running ≡ true
      → fl.lt (ratio fl 1 20) (fl.sub env.current_time n.last_timeout_check) ≡ true
      → lookup b n.send_destinations ≡ some addr
      → lookup b n.send_engine.active_sends ≡ some st
      → st.completed ≡ false
      → lookup i st.chunk_timers ≡ some t
      → fl.le t env.now_ms ≡ true
      → mem i st.acked_chunks ≡ false
      → lookup i (chunk_dict (load_chunks_for_bundle b n.storage)) ≡ some c
      → HasNew (data_msg (chunk_msg st.total_chunks c), addr) n.sent (event_round fl env n).sent
  unfolding node_check_timeouts check_retry_timers check_timeouts
  event_round-HasNew env n b addr st i t c running late known found unfinished timer due fresh
        stored =
      let checked = with_send (check_timeouts fl env.now_ms) n in
      let max_rto_ms = n.send_engine.config.max_rto_ms in
      let (kept, queued) =
        check_transfer_lem fl env.now_ms max_rto_ms i t st unfinished timer due fresh in
      let waits : Waits fl b i st.total_chunks c (send_of checked) = (
        check_transfer fl env.now_ms max_rto_ms st,
        check_timeouts-found fl env.now_ms b (send_of n) st found,
        kept.2 ∙ unfinished,
        kept.1,
        ap (mem i) kept.0 ∙ fresh,
        queued,
        stored,
      ) in
      let resent = retransmit_each fl env.resending checked.send_destinations checked in
      let new =
        retransmit_each-HasNew b i st.total_chunks c addr env.resending checked.send_destinations
          checked known waits in
      let Ok : Outbox → Type 0 = HasNew (data_msg (chunk_msg st.total_chunks c), addr) n.sent in
      subst Ok
        (sym (
          event_round-sent env n running late
          ∙ check_records-sent (clock_of fl) env.custody_now _ _))
        new
