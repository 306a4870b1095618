-- ===== src/Sender/Window/Acked.antt =====
-- A SACK keeps the window of a transfer in order (courier/send_engine.py, `handle_sack`).
use cs60_final_project.Common.{
  ℕ, ◌-◌, refl, ◌||◌, Option, none, some, List, [], ◌∷◌, arith, if-elim, nat_eq,
}
use cs60_final_project.Common.Dict.{lookup}
use cs60_final_project.Common.NatSet.{
  NatSet, mem, add_all, difference, mem-add_all, add_all-IsSorted,
}
use cs60_final_project.Sender.State.{Floats, SendState, SendEngine, SendEnv}
use cs60_final_project.Sender.Estimates.{first_sample, next_sample, update_rtt_estimates}
use cs60_final_project.Sender.Acks.{
  sample, acknowledge, acknowledge_each, reset_interval, slide, take_acks,
}
use cs60_final_project.Sender.Window.{IsWindow, IsWindowSince, advance_lem, no_timer-IsWindow}

module _ {F : Type 0} where
  module _ (fl : Floats F) (max_rto_ms : ℕ) (now : F) (seen : NatSet) where
    sample-IsWindow :
        (i : ℕ) (sent_at : Option F) (st : SendState F)
        → IsWindowSince seen st
        → IsWindowSince seen (sample fl max_rto_ms now i sent_at st)
    unfolding update_rtt_estimates
    sample-IsWindow i none st ok = ok
    sample-IsWindow i (some t) st ok =
        if-elim (IsWindowSince seen) (mem i st.retransmitted_chunks) st
          (update_rtt_estimates fl max_rto_ms (fl.sub now t) st) (λ _. ok)
          (λ _.
            let rtt = fl.sub now t in
            if-elim (IsWindowSince seen)
              (fl.eq st.smoothed_rtt (fl.of_nat 0) || fl.eq st.smoothed_rtt (fl.of_nat 300))
              (first_sample fl rtt st) (next_sample fl rtt st) (λ _. ok) (λ _. ok))

    acknowledge-IsWindow :
        (i : ℕ) (st : SendState F)
        → IsWindowSince seen st
        → IsWindowSince seen (acknowledge fl max_rto_ms now i st)
    unfolding acknowledge
    acknowledge-IsWindow i st ok =
        let sent_at = lookup i st.send_timestamps in
        no_timer-IsWindow seen i (sample fl max_rto_ms now i sent_at st)
          (sample-IsWindow i sent_at st ok)

    acknowledge_each-IsWindow :
        (is : List ℕ) (st : SendState F)
        → IsWindowSince seen st
        → IsWindowSince seen (acknowledge_each fl max_rto_ms now is st)
    unfolding acknowledge_each
    acknowledge_each-IsWindow [] st ok = ok
    acknowledge_each-IsWindow (i ∷ is) st ok =
        acknowledge_each-IsWindow is (acknowledge fl max_rto_ms now i st)
          (acknowledge-IsWindow i st ok)

  slide-IsWindow : (seen : NatSet) (st : SendState F) → IsWindowSince seen st → IsWindow (slide st)
  unfolding slide
  slide-IsWindow seen st ok =
      let stop = advance_lem (st.total_chunks - st.window_start) st.acked_chunks st.window_start in
      record {
        inside = omega (arith, stop.1, ok.inside);
        end_at = refl;
        acked_below = λ i h. ground (arith, stop.2 i, ok.acked_below i, h);
        open_at = λ h. stop.3 (omega (arith, ok.inside));
        sorted = ok.sorted;
        timed = λ i h. omega (arith, ok.timed i h, ok.end_at, stop.0);
        queued = λ i h. omega (arith, ok.queued i h, ok.end_at, stop.0);
      }

  reset_interval-IsWindow :
      (fl : Floats F) (base_rto_ms : ℕ) (seen newly : NatSet) (st : SendState F)
      → IsWindowSince seen st
      → IsWindowSince seen (reset_interval fl base_rto_ms newly st)
  reset_interval-IsWindow fl base_rto_ms seen [] st ok = ok
  reset_interval-IsWindow fl base_rto_ms seen (i ∷ newly) st ok = ok

  pub take_acks-IsWindow :
      (fl : Floats F) (env : SendEnv F) (e : SendEngine F) (acked : NatSet) (st : SendState F)
      → IsWindow st
      → IsWindow (take_acks fl env e acked st)
  unfolding take_acks
  take_acks-IsWindow fl env e acked st ok =
      let seen = st.acked_chunks in
      let newly = difference acked st.acked_chunks in
      let noted : IsWindowSince seen (record st { acked_chunks = add_all acked st.acked_chunks }) =
        record {
          inside = ok.inside;
          end_at = ok.end_at;
          acked_below = λ i h. ground (arith, ok.acked_below i h, mem-add_all acked i seen);
          open_at = ok.open_at;
          sorted = add_all-IsSorted acked seen ok.sorted;
          timed = ok.timed;
          queued = ok.queued;
        } in
      let with_acks = record st { acked_chunks = add_all acked seen } in
      let told = acknowledge_each fl e.config.max_rto_ms env.now (env.iterate newly) with_acks in
      slide-IsWindow seen (reset_interval fl e.config.base_rto_ms newly told) (
        reset_interval-IsWindow fl e.config.base_rto_ms seen newly told (
          acknowledge_each-IsWindow fl e.config.max_rto_ms env.now seen (env.iterate newly)
            with_acks noted))
