-- ===== src/Sender/Window/Timed.antt =====
-- Timeouts keep the window of a transfer in order (courier/send_engine.py, `check_timeouts`).
use cs60_final_project.Common.{
  ℕ, ◌<◌, ◌≡◌, refl, true, none, List, [], ◌∷◌, arith, if◌then◌else◌, if-elim, nat_eq,
}
use cs60_final_project.Common.Dict.{Dict, lookup, contains, lookup-remove, remove}
use cs60_final_project.Common.NatSet.{NatSet, mem, mem-append}
use cs60_final_project.Sender.State.{Floats, SendState}
use cs60_final_project.Sender.Timeouts.{
  timed_out, open_timers, remove_each, enqueue, check_transfer,
}
use cs60_final_project.Sender.Window.{IsWindow}

module _ {F : Type 0} where
  timed_out-below :
      (fl : Floats F) (now : F) (acked : NatSet) (timers : Dict ℕ F) (i : ℕ)
      → mem i (timed_out fl now acked timers) ≡ true
      → contains i timers ≡ true
  unfolding timed_out
  timed_out-below fl now acked [] i h = absurd (cc)
  timed_out-below fl now acked ((j, t) ∷ timers) i h =
      ground (arith, timed_out-below fl now acked timers i)

  contains-open_timers :
      (acked : NatSet) (timers : Dict ℕ F) (i : ℕ)
      → contains i (open_timers acked timers) ≡ true
      → contains i timers ≡ true
  unfolding open_timers
  contains-open_timers acked [] i h = h
  contains-open_timers acked ((j, t) ∷ timers) i h =
      ground (arith, contains-open_timers acked timers i)

  pub lookup-remove_each :
      (is : List ℕ) (i : ℕ) (timers : Dict ℕ F)
      → lookup i (remove_each is timers) ≡ (if mem i is then none else lookup i timers)
  lookup-remove_each [] i timers = refl
  lookup-remove_each (j ∷ is) i timers =
      ground (arith, lookup-remove_each is i (remove j timers), lookup-remove j i timers)

  enqueue-IsWindow :
      (fl : Floats F) (max_rto_ms : ℕ) (is : List ℕ) (st : SendState F)
      → ((i : ℕ) → mem i is ≡ true → i < st.window_end)
      → IsWindow st
      → IsWindow (enqueue fl max_rto_ms is st)
  unfolding enqueue
  enqueue-IsWindow fl max_rto_ms [] st h ok = ok
  enqueue-IsWindow fl max_rto_ms (j ∷ is) st h ok = record {
    inside = ok.inside;
    end_at = ok.end_at;
    acked_below = ok.acked_below;
    open_at = ok.open_at;
    sorted = ok.sorted;
    timed = λ i k. ground (arith, lookup-remove_each (j ∷ is) i st.chunk_timers, ok.timed i, k);
    queued = λ i k. ground (arith, mem-append i st.retransmit_queue (j ∷ is), ok.queued i, h i, k);
  }

  pub check_transfer-IsWindow :
      (fl : Floats F) (now : F) (max_rto_ms : ℕ) (st : SendState F)
      → IsWindow st
      → IsWindow (check_transfer fl now max_rto_ms st)
  unfolding check_transfer
  check_transfer-IsWindow fl now max_rto_ms st ok =
      let timers = open_timers st.acked_chunks st.chunk_timers in
      let opened : IsWindow (record st { chunk_timers = timers }) = record {
        inside = ok.inside;
        end_at = ok.end_at;
        acked_below = ok.acked_below;
        open_at = ok.open_at;
        sorted = ok.sorted;
        timed = λ i h. ok.timed i (contains-open_timers st.acked_chunks st.chunk_timers i h);
        queued = ok.queued;
      } in
      if-elim IsWindow st.completed st _ (λ _. ok)
        (λ _.
          enqueue-IsWindow fl max_rto_ms (timed_out fl now st.acked_chunks st.chunk_timers)
            (record st { chunk_timers = timers })
            (λ i h. ok.timed i (timed_out-below fl now st.acked_chunks st.chunk_timers i h)) opened)
