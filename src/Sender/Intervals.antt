-- ===== src/Sender/Intervals.antt =====
-- The bounds of the interval after which a chunk times out (courier/send_engine.py, `check_timeouts` and
-- `handle_sack`).
use cs60_final_project.Common.{
  ℕ, ◌≡◌, true, false, some, List, [], ◌∷◌, if-elim, inl, inr, Bool-cases, nat_eq, arith,
}
use cs60_final_project.Common.Dict.{lookup}
use cs60_final_project.Common.NatSet.{NatSet, mem, add_all, difference, mem-difference}
use cs60_final_project.Sender.State.{Floats, SendState, SendEngine, SendEnv, py_max, py_min}
use cs60_final_project.Sender.Estimates.{rto_of}
use cs60_final_project.Sender.Acks.{acknowledge_each, reset_interval, slide, take_acks}
use cs60_final_project.Sender.Timeouts.{timed_out, open_timers, enqueue, check_transfer}
use cs60_final_project.Sender.Retransmission.{timed_out-mem}

module _ {F : Type 0} (fl : Floats F)
    (asymmetric : (x y : F) → fl.lt x y ≡ true → fl.lt y x ≡ false) where
  irreflexive : (x : F) → fl.lt x x ≡ false
  irreflexive x = elim (Bool-cases (fl.lt x x)) [ inl less ↦ asymmetric x x less | inr same ↦ same ]

  py_min-bounded : (x y : F) → fl.lt y (py_min fl x y) ≡ false
  py_min-bounded x y =
      if-elim (λ (z : F). fl.lt y z ≡ false) (fl.lt y x) y x (λ _. irreflexive y) (λ h. h)

  py_max-bounded : (x y : F) → fl.lt (py_max fl x y) y ≡ false
  py_max-bounded x y =
      if-elim (λ (z : F). fl.lt z y ≡ false) (fl.lt x y) y x (λ _. irreflexive y) (λ h. h)

  enqueue-bounded :
      (max_rto_ms i : ℕ) (is : List ℕ) (st : SendState F)
      → mem i is ≡ true
      → fl.lt (fl.of_nat max_rto_ms) (enqueue fl max_rto_ms is st).timeout_interval ≡ false
  unfolding enqueue
  enqueue-bounded max_rto_ms i [] st h = absurd (cc)
  enqueue-bounded max_rto_ms i (j ∷ is) st h =
      py_min-bounded (fl.mul st.timeout_interval (fl.of_nat 2)) (fl.of_nat max_rto_ms)

  reset_interval-bounded :
      (base_rto_ms i : ℕ) (newly : NatSet) (st : SendState F)
      → mem i newly ≡ true
      → fl.lt (reset_interval fl base_rto_ms newly st).timeout_interval (fl.of_nat base_rto_ms)
        ≡ false
  reset_interval-bounded base_rto_ms i [] st h = absurd (cc)
  reset_interval-bounded base_rto_ms i (j ∷ newly) st h =
      py_max-bounded (rto_of fl st) (fl.of_nat base_rto_ms)

  -- When a chunk of a transfer that is not complete times out, the interval of the transfer becomes at
  -- most `max_rto_ms`. The comparison of two times must not hold in both directions.
  pub check_transfer-bounded :
      (now : F) (max_rto_ms i : ℕ) (t : F) (st : SendState F)
      → st.completed ≡ false
      → lookup i st.chunk_timers ≡ some t
      → fl.le t now ≡ true
      → mem i st.acked_chunks ≡ false
      → fl.lt (fl.of_nat max_rto_ms) (check_transfer fl now max_rto_ms st).timeout_interval ≡ false
  unfolding check_transfer
  check_transfer-bounded now max_rto_ms i t st unfinished found due fresh =
      let out = timed_out fl now st.acked_chunks st.chunk_timers in
      let opened = record st { chunk_timers = open_timers st.acked_chunks st.chunk_timers } in
      if-elim (λ (x : SendState F). fl.lt (fl.of_nat max_rto_ms) x.timeout_interval ≡ false)
        st.completed st (enqueue fl max_rto_ms out opened) (λ done. absurd (cc))
        (λ _.
          enqueue-bounded max_rto_ms i out opened
            (timed_out-mem fl now st.acked_chunks i t st.chunk_timers found due fresh))

  -- When a SACK acknowledges a chunk that was not acknowledged before, the interval of the transfer
  -- becomes at least `base_rto_ms`. The comparison of two times must not hold in both directions.
  pub take_acks-bounded :
      (env : SendEnv F) (e : SendEngine F) (acked : NatSet) (st : SendState F) (i : ℕ)
      → mem i acked ≡ true
      → mem i st.acked_chunks ≡ false
      → fl.lt (take_acks fl env e acked st).timeout_interval (fl.of_nat e.config.base_rto_ms)
        ≡ false
  unfolding take_acks slide
  take_acks-bounded env e acked st i new fresh =
      let newly = difference acked st.acked_chunks in
      reset_interval-bounded e.config.base_rto_ms i newly
        (acknowledge_each fl e.config.max_rto_ms env.now (env.iterate newly)
          (record st { acked_chunks = add_all acked st.acked_chunks }))
        (ground (arith, mem-difference i acked st.acked_chunks, new, fresh))
