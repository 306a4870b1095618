-- ===== src/Sender/Timeouts.antt =====
-- The timers: `check_timeouts` (courier/send_engine.py).
use cs60_final_project.Common.{ℕ, ◌+◌, List, [], ◌∷◌, ◌++◌, Text, length, if◌then◌else◌, nat_eq}
use cs60_final_project.Common.Dict.{Dict, remove}
use cs60_final_project.Common.NatSet.{NatSet, mem}
use cs60_final_project.Sender.State.{Floats, SendState, SendEngine, py_min}

module _ {F : Type 0} where
  -- timed_out_chunks, over the entries of the timers
  unfoldable pub timed_out : Floats F → F → NatSet → Dict ℕ F → List ℕ
  timed_out fl now acked [] = []
  timed_out fl now acked ((i, expiry) ∷ timers) =
      let rest = timed_out fl now acked timers in
      if mem i acked then rest else if fl.le expiry now then i ∷ rest else rest

  -- The timers without those of acknowledged chunks.
  unfoldable pub open_timers : NatSet → Dict ℕ F → Dict ℕ F
  open_timers acked [] = []
  open_timers acked ((i, expiry) ∷ timers) =
      let rest = open_timers acked timers in if mem i acked then rest else (i, expiry) ∷ rest

  abbrev pub remove_each : List ℕ → Dict ℕ F → Dict ℕ F
  remove_each [] timers = timers
  remove_each (i ∷ is) timers = remove_each is (remove i timers)

  -- The chunks that timed out, from the timers to the queue.
  unfoldable pub enqueue : Floats F → ℕ → List ℕ → SendState F → SendState F
  enqueue fl max_rto_ms [] st = st
  enqueue fl max_rto_ms (i ∷ is) st = record st {
    retransmit_queue = st.retransmit_queue ++ i ∷ is;
    chunk_timers = remove_each (i ∷ is) st.chunk_timers;
    timeout_interval = py_min fl (fl.mul st.timeout_interval (fl.of_nat 2)) (fl.of_nat max_rto_ms);
    chunks_retransmitted = st.chunks_retransmitted + length (i ∷ is);
  }

  -- The body of the loop over the transfers.
  unfoldable pub check_transfer : Floats F → F → ℕ → SendState F → SendState F
  unfolding timed_out open_timers enqueue
  check_transfer fl now max_rto_ms st =
      let checked =
        enqueue fl max_rto_ms (timed_out fl now st.acked_chunks st.chunk_timers)
          (record st { chunk_timers = open_timers st.acked_chunks st.chunk_timers }) in
      if st.completed then st else checked

  -- The loop over list(self.active_sends.items()).
  unfoldable pub check_transfers :
      Floats F → F → ℕ → Dict Text (SendState F) → Dict Text (SendState F)
  unfolding check_transfer
  check_transfers fl now max_rto_ms [] = []
  check_transfers fl now max_rto_ms ((b, st) ∷ sends) =
      (b, check_transfer fl now max_rto_ms st) ∷ check_transfers fl now max_rto_ms sends

  -- check_timeouts(), at the time `now`
  unfoldable pub check_timeouts : Floats F → F → SendEngine F → SendEngine F
  unfolding check_transfers
  check_timeouts fl now e = record e {
    active_sends = check_transfers fl now e.config.max_rto_ms e.active_sends;
  }
