-- ===== src/Sender/Acknowledged.antt =====
-- What the acknowledgements of a SACK do to a transfer, the window and the estimates aside
-- (courier/send_engine.py, `handle_sack`).
use cs60_final_project.Common.{
  ℕ, ◌≡◌, refl, ◌||◌, Option, none, some, List, [], ◌∷◌, text_eq, nat_eq, if-elim,
}
use cs60_final_project.Common.Dict.{lookup}
use cs60_final_project.Common.NatSet.{NatSet, mem, add_all, difference}
use cs60_final_project.Sender.State.{Floats, SendState, SendEngine, SendEnv}
use cs60_final_project.Sender.Estimates.{first_sample, next_sample, update_rtt_estimates}
use cs60_final_project.Sender.Acks.{
  sample, acknowledge, acknowledge_each, reset_interval, slide, take_acks,
}

module _ {F : Type 0} where
  -- A state that differs in the window, the timers and the estimates only.
  abbrev IsLike : SendState F → SendState F → Type 0
  IsLike st x =
      (x.acked_chunks ≡ st.acked_chunks)
      × (x.total_chunks ≡ st.total_chunks)
      × (x.completed ≡ st.completed)
      × (x.bytes_sent ≡ st.bytes_sent)
      × (x.chunks_retransmitted ≡ st.chunks_retransmitted)

  module _ (fl : Floats F) (max_rto_ms : ℕ) (now : F) (st : SendState F) where
    sample-IsLike :
        (i : ℕ) (sent_at : Option F) (x : SendState F)
        → IsLike st x
        → IsLike st (sample fl max_rto_ms now i sent_at x)
    unfolding update_rtt_estimates
    sample-IsLike i none x ok = ok
    sample-IsLike i (some t) x ok =
        let rtt = fl.sub now t in
        if-elim (IsLike st) (mem i x.retransmitted_chunks) x
          (update_rtt_estimates fl max_rto_ms rtt x) (λ _. ok)
          (λ _.
            if-elim (IsLike st)
              (fl.eq x.smoothed_rtt (fl.of_nat 0) || fl.eq x.smoothed_rtt (fl.of_nat 300))
              (first_sample fl rtt x) (next_sample fl rtt x) (λ _. ok) (λ _. ok))

    acknowledge_each-IsLike :
        (is : List ℕ) (x : SendState F)
        → IsLike st x
        → IsLike st (acknowledge_each fl max_rto_ms now is x)
    unfolding acknowledge_each acknowledge
    acknowledge_each-IsLike [] x ok = ok
    acknowledge_each-IsLike (i ∷ is) x ok =
        acknowledge_each-IsLike is (acknowledge fl max_rto_ms now i x)
          (sample-IsLike i (lookup i x.send_timestamps) x ok)

  reset_interval-IsLike :
      (fl : Floats F) (base_rto_ms : ℕ) (newly : NatSet) (st x : SendState F)
      → IsLike st x
      → IsLike st (reset_interval fl base_rto_ms newly x)
  reset_interval-IsLike fl base_rto_ms [] st x ok = ok
  reset_interval-IsLike fl base_rto_ms (i ∷ newly) st x ok = ok

  -- The acknowledgements of a SACK are added; the counters stay.
  pub take_acks_lem :
      (fl : Floats F) (env : SendEnv F) (e : SendEngine F) (acked : NatSet) (st : SendState F)
      → let st' = take_acks fl env e acked st in
        (st'.acked_chunks ≡ add_all acked st.acked_chunks)
        × (st'.total_chunks ≡ st.total_chunks)
        × (st'.completed ≡ st.completed)
        × (st'.bytes_sent ≡ st.bytes_sent)
        × (st'.chunks_retransmitted ≡ st.chunks_retransmitted)
  unfolding take_acks slide
  take_acks_lem fl env e acked st =
      let newly = difference acked st.acked_chunks in
      let noted = record st { acked_chunks = add_all acked st.acked_chunks } in
      reset_interval-IsLike fl e.config.base_rto_ms newly noted _ (
        acknowledge_each-IsLike fl e.config.max_rto_ms env.now noted (env.iterate newly) noted
          (refl, refl, refl, refl, refl))
