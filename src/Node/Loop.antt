-- ===== src/Node/Loop.antt =====
-- The event loop (courier/node.py): one round of it, with the checks that it makes every 50 ms and
-- every 60 s.
use cs60_final_project.Common.{ℕ, [], ◌∷◌, Text, if◌then◌else◌}
use cs60_final_project.Common.Dict.{Dict}
use cs60_final_project.Protocol.{Address}
use cs60_final_project.Storage.{cleanup_expired_bundles}
use cs60_final_project.Custody.{check_retry_timers}
use cs60_final_project.Sender.State.{Floats, SendEnv, ratio}
use cs60_final_project.Sender.Sending.{retransmit_chunks}
use cs60_final_project.Sender.Timeouts.{check_timeouts}
use cs60_final_project.Sender.Files.{cleanup_completed_transfers}
use cs60_final_project.Node.State.{Node, clock_of, with_send, with_custody}

-- What a round finds outside: time.time() when it begins, the time in milliseconds at
-- check_timeouts, the worlds of the retransmissions, time.time() at check_retry_timers, and the time
-- of the database in milliseconds.
pub record RoundEnv (F : Type 0) : Type 0 where
  pub current_time : F
  pub now_ms : F
  pub resending : Text → SendEnv F
  pub custody_now : F
  pub database_now : ℕ

module _ {F : Type 0} (fl : Floats F) where
  -- The loop over send_destinations.
  unfoldable pub retransmit_each : (Text → SendEnv F) → Dict Text Address → Node F → Node F
  retransmit_each envs [] n = n
  retransmit_each envs ((b, addr) ∷ rest) n =
      retransmit_each envs rest (with_send (retransmit_chunks fl (envs b) b addr) n)

  -- _check_timeouts()
  unfoldable pub node_check_timeouts : RoundEnv F → Node F → Node F
  unfolding retransmit_each
  node_check_timeouts env n =
      let checked = with_send (check_timeouts fl env.now_ms) n in
      let resent = retransmit_each env.resending checked.send_destinations checked in
      with_custody (check_retry_timers (clock_of fl) env.custody_now) resent

  -- _periodic_cleanup()
  unfoldable pub periodic_cleanup : RoundEnv F → Node F → Node F
  periodic_cleanup env n =
      let cleaned = with_send cleanup_completed_transfers n in
      record cleaned { storage = cleanup_expired_bundles env.database_now cleaned.storage }

  abbrev pub timeouts_if_due : RoundEnv F → Node F → Node F
  timeouts_if_due env n =
      let checked = node_check_timeouts env n in
      if fl.lt (ratio fl 1 20) (fl.sub env.current_time n.last_timeout_check)
      then record checked { last_timeout_check = env.current_time }
      else n

  abbrev pub cleanup_if_due : RoundEnv F → Node F → Node F
  cleanup_if_due env n =
      let cleaned = periodic_cleanup env n in
      if fl.lt (fl.of_nat 60) (fl.sub env.current_time n.last_cleanup)
      then record cleaned { last_cleanup = env.current_time }
      else n

  -- The body of the loop of _event_loop, while the node is running.
  unfoldable pub event_round : RoundEnv F → Node F → Node F
  unfolding node_check_timeouts periodic_cleanup
  event_round env n = if n.running then cleanup_if_due env (timeouts_if_due env n) else n
