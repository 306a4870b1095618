-- ===== src/Sender/Window.antt =====
-- The window of one transfer (courier/send_engine.py): what holds of its state, and that every
-- change of the state keeps it.
pub mod Sent
pub mod Acked
pub mod Timed
use cs60_final_project.Common.{
  ℕ, zero, suc, ◌+◌, ◌-◌, ◌≤◌, ◌<◌, min, ◌≡◌, refl, subst, true, false, ◌||◌, Option, none, some,
  List, [], ◌∷◌, length, arith, if◌then◌else◌, if-elim, ◌==◌, inl, inr, Bool-cases, All, nat_eq,
  ==_iff,
}
use cs60_final_project.Common.Dict.{
  Dict, lookup, insert, contains, lookup-insert, lookup-remove, remove,
}
use cs60_final_project.Common.NatSet.{
  NatSet, mem, add_all, IsSorted, mem-append, mem-All, difference, mem-add_all, add_all-IsSorted,
}
use cs60_final_project.Chunk.{Chunk}
use cs60_final_project.Protocol.{Address}
use cs60_final_project.Sender.State.{Floats, SendState, SendEngine, SendEnv, Outbox}
use cs60_final_project.Sender.Estimates.{first_sample, next_sample, update_rtt_estimates}
use cs60_final_project.Sender.Sending.{
  offer, is_waiting, note_sent, send_one, send_each, note_resent, resend_one, drain_queue,
}
use cs60_final_project.Sender.Acks.{
  advance, sample, acknowledge, acknowledge_each, reset_interval, slide, take_acks,
}
use cs60_final_project.Sender.Timeouts.{
  timed_out, open_timers, remove_each, enqueue, check_transfer,
}

abbrev IsStop : ℕ → NatSet → ℕ → ℕ → Type 0
IsStop left acked start stop =
    (start ≤ stop)
    × (stop ≤ start + suc left)
    × ((i : ℕ) → start ≤ i → i < stop → mem i acked ≡ true)
    × (stop < start + suc left → mem stop acked ≡ false)

-- The loop over the acknowledged chunks ends within the chunks left: at the first number from `start`
-- on that is not acknowledged, or after them.
pub advance_lem :
    (left : ℕ) (acked : NatSet) (start : ℕ)
    → let stop = advance left acked start in
      (start ≤ stop)
      × (stop ≤ start + left)
      × ((i : ℕ) → start ≤ i → i < stop → mem i acked ≡ true)
      × (stop < start + left → mem stop acked ≡ false)
unfolding advance
advance_lem zero acked start =
    (omega arith, omega arith, λ i h k. absurd (omega arith), λ h. absurd (omega arith))
advance_lem (suc left) acked start =
    let later = advance_lem left acked (suc start) in
    if-elim (IsStop left acked start) (mem start acked) _ _
      (λ hit. (
        omega (arith, later.0),
        omega (arith, later.1),
        λ i h k. elim (Bool-cases (start == i)) [
          | inl same ↦ subst (λ (n : ℕ). mem n acked ≡ true) ((==_iff start i).0 same) hit
          | inr other ↦ later.2 i (ground arith) k
        ],
        λ h. later.3 (omega arith),
      ))
      (λ miss. (omega arith, omega arith, λ i h k. absurd (omega arith), λ h. miss))

-- A window that goes with what is acknowledged, queued and timed: it starts at the first chunk that is
-- not acknowledged, ends where its size or the bundle ends, and no chunk behind its end is queued
-- or timed.
pub record FitsWindow {F : Type 0} (start end size total : ℕ) (acked seen : NatSet) (queue : List ℕ)
    (timers : Dict ℕ F) : Type 0 where
  pub inside : start ≤ total
  pub end_at : end ≡ min (start + size) total
  pub acked_below : (i : ℕ) → i < start → mem i acked ≡ true
  pub open_at : start < total → mem start seen ≡ false
  pub sorted : IsSorted acked
  pub timed : (i : ℕ) → contains i timers ≡ true → i < end
  pub queued : (i : ℕ) → mem i queue ≡ true → i < end

module _ {F : Type 0} where
  -- `seen` is what was acknowledged when the start of the window was last moved.
  abbrev pub IsWindowSince : NatSet → SendState F → Type 0
  IsWindowSince seen st =
      FitsWindow st.window_start st.window_end st.window_size st.total_chunks st.acked_chunks seen
        st.retransmit_queue st.chunk_timers

  abbrev pub IsWindow : SendState F → Type 0
  IsWindow st = IsWindowSince st.acked_chunks st

  pub timer-IsWindow :
      (i : ℕ) (t : F) (st : SendState F)
      → i < st.window_end
      → IsWindow st
      → IsWindow (record st { chunk_timers = insert i t st.chunk_timers })
  timer-IsWindow i t st h ok = record {
    inside = ok.inside;
    end_at = ok.end_at;
    acked_below = ok.acked_below;
    open_at = ok.open_at;
    sorted = ok.sorted;
    timed = λ j k. ground (arith, lookup-insert i j t st.chunk_timers, ok.timed j, ==_iff i j);
    queued = ok.queued;
  }

  pub no_timer-IsWindow :
      (seen : NatSet) (i : ℕ) (st : SendState F)
      → IsWindowSince seen st
      → IsWindowSince seen (record st { chunk_timers = remove i st.chunk_timers })
  no_timer-IsWindow seen i st ok = record {
    inside = ok.inside;
    end_at = ok.end_at;
    acked_below = ok.acked_below;
    open_at = ok.open_at;
    sorted = ok.sorted;
    timed = λ j k. ground (arith, lookup-remove i j st.chunk_timers, ok.timed j);
    queued = ok.queued;
  }

  pub queue-IsWindow :
      (queue : List ℕ) (st : SendState F)
      → ((i : ℕ) → mem i queue ≡ true → i < st.window_end)
      → IsWindow st
      → IsWindow (record st { retransmit_queue = queue })
  queue-IsWindow queue st h ok = record {
    inside = ok.inside;
    end_at = ok.end_at;
    acked_below = ok.acked_below;
    open_at = ok.open_at;
    sorted = ok.sorted;
    timed = ok.timed;
    queued = h;
  }
