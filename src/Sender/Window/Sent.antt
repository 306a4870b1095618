-- ===== src/Sender/Window/Sent.antt =====
-- Sending keeps the window of a transfer in order (courier/send_engine.py, `_send_window` and
-- `retransmit_chunks`).
use cs60_final_project.Common.{
  ℕ, ◌<◌, ◌≡◌, true, Option, none, some, List, [], ◌∷◌, length, arith, if-elim, All, nat_eq,
}
use cs60_final_project.Common.Dict.{Dict, lookup}
use cs60_final_project.Common.NatSet.{mem, mem-All}
use cs60_final_project.Chunk.{Chunk}
use cs60_final_project.Protocol.{Address}
use cs60_final_project.Sender.State.{Floats, SendState, SendEnv, Outbox}
use cs60_final_project.Sender.Sending.{
  offer, is_waiting, note_sent, send_one, send_each, note_resent, resend_one, drain_queue,
}
use cs60_final_project.Sender.Window.{IsWindow, timer-IsWindow, queue-IsWindow}

module _ {F : Type 0} where
  -- A state with the window that ends at `end`.
  abbrev pub IsWindowTo : ℕ → SendState F × Outbox → Type 0
  IsWindowTo end now = IsWindow now.0 × (now.0.window_end ≡ end)

  module _ (fl : Floats F) (env : SendEnv F) (addr : Address) (chunks : Dict ℕ Chunk)
      (end : ℕ) where
    offer-IsWindow :
        (note : Chunk → SendState F → SendState F) (found : Option Chunk)
        (now : SendState F × Outbox)
        → ((c : Chunk) (st : SendState F)
            → IsWindowTo end (st, now.1)
            → IsWindowTo end (note c st, now.1))
        → IsWindowTo end now
        → IsWindowTo end (offer env addr note found now)
    offer-IsWindow note none now h ok = ok
    offer-IsWindow note (some c) (st, sent) h ok =
        if-elim (λ (x : SendState F). IsWindow x × (x.window_end ≡ end)) (env.accepts (length sent))
          _ _ (λ _. h c st ok) (λ _. ok)

    send_one-IsWindow :
        (i : ℕ) (now : SendState F × Outbox)
        → i < end
        → IsWindowTo end now
        → IsWindowTo end (send_one fl env addr chunks i now)
    unfolding send_one
    send_one-IsWindow i (st, sent) h ok =
        if-elim (IsWindowTo end) (mem i st.acked_chunks) _ _ (λ _. ok)
          (λ _.
            if-elim (IsWindowTo end) (is_waiting fl env.send_now (lookup i st.chunk_timers)) _ _
              (λ _. ok)
              (λ _.
                offer-IsWindow (note_sent fl env.send_now i) (lookup i chunks) (st, sent)
                  (λ c x p. (timer-IsWindow i _ x (omega (arith, p.1)) p.0, p.1)) ok))

    pub send_each-IsWindow :
        (is : List ℕ) (now : SendState F × Outbox)
        → All (λ (i : ℕ). i < end) is
        → IsWindowTo end now
        → IsWindowTo end (send_each fl env addr chunks is now)
    unfolding send_each
    send_each-IsWindow [] now h ok = ok
    send_each-IsWindow (i ∷ is) now h ok =
        send_each-IsWindow is (send_one fl env addr chunks i now) h.1
          (send_one-IsWindow i now h.0 ok)

    resend_one-IsWindow :
        (i : ℕ) (now : SendState F × Outbox)
        → i < end
        → IsWindowTo end now
        → IsWindowTo end (resend_one fl env addr chunks i now)
    unfolding resend_one
    resend_one-IsWindow i (st, sent) h ok =
        let note : Chunk → SendState F → SendState F = λ _. note_resent fl env.now i in
        if-elim (IsWindowTo end) (mem i st.acked_chunks) (st, sent)
          (offer env addr note (lookup i chunks) (st, sent)) (λ _. ok)
          (λ _.
            offer-IsWindow (λ _. note_resent fl env.now i) (lookup i chunks) (st, sent)
              (λ c x p. (timer-IsWindow i _ x (omega (arith, p.1)) p.0, p.1)) ok)

    pub drain_queue-IsWindow :
        (queue : List ℕ) (now : SendState F × Outbox)
        → All (λ (i : ℕ). i < end) queue
        → IsWindowTo end now
        → IsWindowTo end (drain_queue fl env addr chunks queue now)
    unfolding drain_queue
    drain_queue-IsWindow [] now h ok = ok
    drain_queue-IsWindow (i ∷ queue) (st, sent) h ok =
        let popped = record st { retransmit_queue = queue } in
        let below : (j : ℕ) → mem j queue ≡ true → j < st.window_end =
          λ j k. omega (arith, mem-All (λ (x : ℕ). x < end) j queue h.1 k, ok.1) in
        drain_queue-IsWindow queue (resend_one fl env addr chunks i (popped, sent)) h.1
          (resend_one-IsWindow i (popped, sent) h.0 (queue-IsWindow queue st below ok.0, ok.1))
