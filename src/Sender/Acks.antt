-- ===== src/Sender/Acks.antt =====
-- The acknowledgements: `handle_sack`, `handle_delivered` and `_complete_transfer`
-- (courier/send_engine.py).
use cs60_final_project.Common.{
  ℕ, zero, suc, ◌+◌, ◌-◌, min, true, Option, none, some, List, [], ◌∷◌, Text, length, ltb, leb,
  if◌then◌else◌, is_some, nat_eq, text_eq,
}
use cs60_final_project.Common.Dict.{lookup, remove}
use cs60_final_project.Common.NatSet.{NatSet, mem, add_all, discard, difference}
use cs60_final_project.Protocol.{SackMsg, Address}
use cs60_final_project.Storage.{BundleState, update_bundle_state, update_bundle_stats, or_default}
use cs60_final_project.Sender.State.{Floats, SendState, SendEngine, SendEnv, put_send, py_max}
use cs60_final_project.Sender.Estimates.{rto_of, update_rtt_estimates}
use cs60_final_project.Sender.Sending.{send_window}

-- The loop that moves the start of the window over the acknowledged chunks, with the chunks left
-- before the end of the bundle.
unfoldable pub advance : ℕ → NatSet → ℕ → ℕ
advance zero acked start = start
advance (suc left) acked start =
    let further = advance left acked (suc start) in if mem start acked then further else start

module _ {F : Type 0} where
  -- The round trip of a newly acknowledged chunk, if it was sent once.
  abbrev pub sample : Floats F → ℕ → F → ℕ → Option F → SendState F → SendState F
  sample fl max_rto_ms now i none st = st
  sample fl max_rto_ms now i (some sent_at) st =
      if mem i st.retransmitted_chunks
      then st
      else update_rtt_estimates fl max_rto_ms (fl.sub now sent_at) st

  -- The body of the loop over newly_acked.
  unfoldable pub acknowledge : Floats F → ℕ → F → ℕ → SendState F → SendState F
  acknowledge fl max_rto_ms now i st =
      let sampled = sample fl max_rto_ms now i (lookup i st.send_timestamps) st in
      record sampled {
        chunk_timers = remove i sampled.chunk_timers;
        send_timestamps = remove i sampled.send_timestamps;
        retransmitted_chunks = discard i sampled.retransmitted_chunks;
      }

  unfoldable pub acknowledge_each : Floats F → ℕ → F → List ℕ → SendState F → SendState F
  unfolding acknowledge
  acknowledge_each fl max_rto_ms now [] st = st
  acknowledge_each fl max_rto_ms now (i ∷ is) st =
      acknowledge_each fl max_rto_ms now is (acknowledge fl max_rto_ms now i st)

  -- if newly_acked: the interval is at least `base_rto_ms`.
  abbrev pub reset_interval : Floats F → ℕ → NatSet → SendState F → SendState F
  reset_interval fl base_rto_ms [] st = st
  reset_interval fl base_rto_ms (i ∷ newly) st = record st {
    timeout_interval = py_max fl (rto_of fl st) (fl.of_nat base_rto_ms);
  }

  -- The window after the acknowledgements.
  unfoldable pub slide : SendState F → SendState F
  unfolding advance
  slide st =
      let start = advance (st.total_chunks - st.window_start) st.acked_chunks st.window_start in
      record st { window_start = start; window_end = min (start + st.window_size) st.total_chunks }

  -- The state of the transfer after the acknowledgements of a SACK, up to the test for completion.
  unfoldable pub take_acks :
      Floats F → SendEnv F → SendEngine F → NatSet → SendState F → SendState F
  unfolding slide acknowledge_each
  take_acks fl env e acked st =
      let newly = difference acked st.acked_chunks in
      let noted = record st { acked_chunks = add_all acked st.acked_chunks } in
      slide (
        reset_interval fl e.config.base_rto_ms newly
          (acknowledge_each fl e.config.max_rto_ms env.now (env.iterate newly) noted))

  -- _complete_transfer(bundle_id), for a transfer that there is
  unfoldable pub complete_of : Text → SendState F → SendEngine F → SendEngine F
  complete_of b st e =
      let done : SendEngine F = record e {
        storage =
            update_bundle_stats b (some st.bytes_sent) (some st.chunks_retransmitted)
              (update_bundle_state b BundleState.delivered e.storage);
        chunk_cache = remove b e.chunk_cache;
      } in
      if st.completed then e else put_send b (record st { completed = true }) done

  -- _complete_transfer(bundle_id)
  unfoldable pub complete_transfer : Text → SendEngine F → SendEngine F
  complete_transfer b e = elim (lookup b e.active_sends) [ none ↦ e | some st ↦ complete_of b st e ]

  -- The end of handle_sack: completion, or the chunks that the window has come to.
  unfoldable pub after_acks :
      Floats F → SendEnv F → Text → Address → ℕ → SendState F → SendEngine F → SendEngine F
  after_acks fl env b addr old_window_end st e =
      if leb st.total_chunks (length st.acked_chunks)
      then complete_transfer b e
      else if ltb old_window_end st.window_end
      then send_window fl env b addr e
      else e

  -- handle_sack(msg, sender_addr)
  unfoldable pub handle_sack :
      Floats F → SendEnv F → SackMsg → Address → SendEngine F → SendEngine F
  handle_sack fl env msg addr e = elim (lookup msg.bundle_id e.active_sends) [
    | none ↦ e
    | some st ↦
        let st' = take_acks fl env e (or_default msg.acked_chunks []) st in
        after_acks fl env msg.bundle_id addr st.window_end st' (put_send msg.bundle_id st' e)
  ]

  -- handle_delivered(msg)
  unfoldable pub handle_delivered : Text → SendEngine F → SendEngine F
  handle_delivered b e = if is_some (lookup b e.active_sends) then complete_transfer b e else e
