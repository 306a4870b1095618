-- ===== src/Sender/Queue.antt =====
-- The queue of retransmissions goes to the network (courier/send_engine.py, `retransmit_chunks`).
use cs60_final_project.Common.{
  ℕ, ◌≡◌, refl, sym, ap, ◌∙◌, true, false, ◌||◌, some, List, [], ◌∷◌, ◌++◌, append-nil,
  append_assoc, length, ◌==◌, ==_iff, text_eq, nat_eq, arith, if◌then◌else◌, inl, inr, Bool-cases,
  Option-cases, is_some,
}
use cs60_final_project.Common.Dict.{Dict, lookup, contains, lookup-insert, lookup-insert_self}
use cs60_final_project.Common.NatSet.{mem}
use cs60_final_project.Chunk.{Chunk}
use cs60_final_project.Protocol.{Address, Message, data_msg}
use cs60_final_project.Transfer.{chunk_msg}
use cs60_final_project.Sender.State.{Floats, SendState, SendEnv, Outbox}
use cs60_final_project.Sender.Sending.{hand_over, note_resent, resend_one, drain_queue}
use cs60_final_project.Sender.Safety.{IsSameTransfer, resend_one-IsSameTransfer, resend_one-IsGrown}

-- The outbox has grown, and the message is among what is new.
abbrev pub HasNew : Message × Address → Outbox → Outbox → Type 0
HasNew m before after = (xs : Outbox) × (ys : Outbox) × (after ≡ before ++ (xs ++ m ∷ ys))

module _ {F : Type 0} where
  module _ (fl : Floats F) (env : SendEnv F) (addr : Address) (chunks : Dict ℕ Chunk)
      (st : SendState F) where
    pub drain_queue-grows :
        (queue : List ℕ) (now : SendState F × Outbox)
        → IsSameTransfer st now.0
        → (news : Outbox) × ((drain_queue fl env addr chunks queue now).1 ≡ now.1 ++ news)
    unfolding drain_queue
    drain_queue-grows [] now ok = ([], sym (append-nil now.1))
    drain_queue-grows (i ∷ queue) (x, sent) ok =
        let popped = record x { retransmit_queue = queue } in
        let (first, e, _, _) = resend_one-IsGrown fl env addr chunks st i (popped, sent) ok in
        let (more, e') =
          drain_queue-grows queue (resend_one fl env addr chunks i (popped, sent))
            (resend_one-IsSameTransfer fl env addr chunks st i (popped, sent) ok) in
        (first ++ more, e' ∙ ap (λ (t : Outbox). t ++ more) e ∙ append_assoc sent first more)

    module _ (i : ℕ) (c : Chunk) (fresh : mem i st.acked_chunks ≡ false)
        (found : lookup i chunks ≡ some c) where
      resend_one_lem :
          (x : SendState F) (sent : Outbox)
          → IsSameTransfer st x
          → resend_one fl env addr chunks i (x, sent) ≡ (
            if env.accepts (length sent) then note_resent fl env.now i x else x,
            hand_over st.total_chunks c addr sent,
          )
      unfolding resend_one
      resend_one_lem x sent ok =
          let unacked : mem i x.acked_chunks ≡ false = rw (ok.0) fresh in
          rw (unacked, found, ok.1) refl

      pub drain_queue-HasNew :
          (queue : List ℕ) (now : SendState F × Outbox)
          → IsSameTransfer st now.0
          → mem i queue ≡ true
          → HasNew
              (data_msg (chunk_msg st.total_chunks c), addr)
              now.1
              (drain_queue fl env addr chunks queue now).1
      unfolding drain_queue
      drain_queue-HasNew [] now ok h = absurd (cc)
      drain_queue-HasNew (j ∷ queue) (x, sent) ok h =
          let popped = record x { retransmit_queue = queue } in
          let m : Message × Address = (data_msg (chunk_msg st.total_chunks c), addr) in
          let next = resend_one fl env addr chunks j (popped, sent) in
          let ok' = resend_one-IsSameTransfer fl env addr chunks st j (popped, sent) ok in
          elim (Bool-cases (j == i)) [
            | inl same ↦
                let here : j ≡ i = (==_iff j i).0 same in
                let (news, e) = drain_queue-grows queue next ok' in
                let out : next.1 ≡ hand_over st.total_chunks c addr sent =
                  rw here
                    (ap (λ (n : SendState F × Outbox). n.1) (resend_one_lem popped sent ok)) in
                ([], news, e ∙ ap (λ (t : Outbox). t ++ news) out ∙ append_assoc sent (m ∷ []) news)
            | inr other ↦
                let (first, e, _, _) =
                  resend_one-IsGrown fl env addr chunks st j (popped, sent) ok in
                let (xs, ys, e') = drain_queue-HasNew queue next ok' (ground (arith, h, other)) in
                (
                  first ++ xs,
                  ys,
                  e'
                      ∙ ap (λ (t : Outbox). t ++ (xs ++ m ∷ ys)) e
                      ∙ append_assoc sent first (xs ++ m ∷ ys)
                      ∙ ap (λ (t : Outbox). sent ++ t) (sym (append_assoc first xs (m ∷ ys))),
                )
          ]

      -- The network takes everything.
      module _ (taken : (n : ℕ) → env.accepts n ≡ true) where
        resend_one-timed_before :
            (j : ℕ) (x : SendState F) (sent : Outbox)
            → contains i x.chunk_timers ≡ true
            → contains i (resend_one fl env addr chunks j (x, sent)).0.chunk_timers ≡ true
        unfolding resend_one
        resend_one-timed_before j x sent h = ground (
          arith,
          lookup-insert j i (fl.add env.now x.timeout_interval) x.chunk_timers,
          Option-cases (lookup j chunks),
          taken (length sent),
        )

        resend_one-timed :
            (x : SendState F) (sent : Outbox)
            → IsSameTransfer st x
            → contains i (resend_one fl env addr chunks i (x, sent)).0.chunk_timers ≡ true
        resend_one-timed x sent ok =
            rw (resend_one_lem x sent ok, taken (length sent))
              (ap is_some (lookup-insert_self i (fl.add env.now x.timeout_interval) x.chunk_timers))

        pub drain_queue-timed :
            (queue : List ℕ) (now : SendState F × Outbox)
            → IsSameTransfer st now.0
            → (mem i queue || contains i now.0.chunk_timers) ≡ true
            → contains i (drain_queue fl env addr chunks queue now).0.chunk_timers ≡ true
        unfolding drain_queue
        drain_queue-timed [] now ok h = h
        drain_queue-timed (j ∷ queue) (x, sent) ok h =
            let popped = record x { retransmit_queue = queue } in
            let next = resend_one fl env addr chunks j (popped, sent) in
            let ok' = resend_one-IsSameTransfer fl env addr chunks st j (popped, sent) ok in
            drain_queue-timed queue next ok' (elim (Bool-cases (j == i)) [
              | inl same ↦
                  let here : j ≡ i = (==_iff j i).0 same in
                  let timed : contains i next.0.chunk_timers ≡ true =
                    rw here (resend_one-timed popped sent ok) in
                  ground (arith, timed)
              | inr other ↦ elim (Bool-cases (mem i queue)) [
                | inl later ↦ ground (arith, later)
                | inr never ↦
                    let timed =
                      resend_one-timed_before j popped sent (ground (arith, h, other, never)) in
                    ground (arith, timed)
              ]
            ])
