-- ===== src/Custody.antt =====
-- `CustodyManager` (courier/custody_manager.py): its records are kept in memory and in storage. Points
-- of time are floating-point numbers in the program, and here values of a type `T` with the two
-- operations that the code applies to them.
pub mod Records
use cs60_final_project.Common.{
  ℕ, ◌+◌, ◌*◌, ◌^◌, Bool, true, false, Option, none, some, List, [], ◌∷◌, ◌++◌, Text, leb,
  if◌then◌else◌, text_eq,
}
use cs60_final_project.Common.Dict.{Dict, lookup, insert}
use cs60_final_project.Config.{CustodyConfig}
use cs60_final_project.Protocol.{
  CustodyReqMsg, Message, Address, custody_ack_msg, make_custody_ack_msg,
}
use cs60_final_project.Storage.{
  Storage, BundleState, CustodyRow, CustodyState, save_custody_record, update_bundle_state,
}

-- now + seconds, and now >= retry_timer
pub record Clock (T : Type 0) : Type 0 where
  pub plus : T → ℕ → T
  pub is_due : T → T → Bool

-- `sent` is what went to `network_send`, in order. A record of `active_records` is one mutable object;
-- its new value is written back with each save.
pub record CustodyManager (T : Type 0) : Type 0 where
  pub config : CustodyConfig
  pub storage : Storage T
  pub node_id : Text
  pub active_records : Dict Text (CustodyRow T)
  pub sent : List (Message × Address)

-- record.state in ("complete", "failed")
abbrev pub is_over : CustodyState → Bool
is_over CustodyState.complete = true
is_over CustodyState.failed = true
is_over _ = false

module _ {T : Type 0} where
  -- _save_record(record)
  unfoldable pub save_record : CustodyRow T → CustodyManager T → CustodyManager T
  save_record row m = record m {
    storage = save_custody_record row m.storage;
    active_records = insert row.bundle_id row m.active_records;
  }

  -- handle_custody_req(msg, sender_addr); `random` is secrets.randbits(64).
  unfoldable pub handle_custody_req :
      Clock T → T → ℕ → CustodyReqMsg → Address → CustodyManager T → CustodyManager T
  handle_custody_req clock now random msg addr m =
      let accepted : CustodyRow T = record {
        bundle_id = msg.bundle_id;
        owner_node = m.node_id;
        chunk_ranges = msg.ranges;
        retry_timer = clock.plus now m.config.backoff_base_sec;
        retry_count = 0;
        max_retries = m.config.max_retries;
        state = CustodyState.accepted;
      } in
      let saved = save_record accepted m in
      record saved {
        sent =
            saved.sent
            ++ (custody_ack_msg (make_custody_ack_msg random msg.bundle_id msg.ranges none), addr)
              ∷ [];
      }

  -- handle_custody_ack(msg): the nonce and the ranges are only logged.
  unfoldable pub handle_custody_ack : Text → CustodyManager T → CustodyManager T
  handle_custody_ack bundle_id m = record m {
    storage = update_bundle_state bundle_id BundleState.custody_transferred m.storage;
  }

  abbrev complete_record : Option (CustodyRow T) → CustodyManager T → CustodyManager T
  complete_record none m = m
  complete_record (some row) m =
      if is_over row.state then m else save_record (record row { state = CustodyState.complete }) m

  -- handle_delivered(msg)
  unfoldable pub handle_delivered : Text → CustodyManager T → CustodyManager T
  handle_delivered bundle_id m = complete_record (lookup bundle_id m.active_records) m

  -- The record after a retry.
  abbrev pub retried : Clock T → T → CustodyConfig → CustodyRow T → CustodyRow T
  retried clock now config row =
      let count = row.retry_count + 1 in
      record row {
        retry_count = count;
        retry_timer = clock.plus now (2 ^ count * config.backoff_base_sec);
      }

  -- The body of the loop of check_retry_timers.
  unfoldable pub check_record : Clock T → T → CustodyRow T → CustodyManager T → CustodyManager T
  check_record clock now row m =
      let failed = save_record (record row { state = CustodyState.failed }) m in
      let again = save_record (retried clock now m.config row) m in
      if is_over row.state
      then m
      else if clock.is_due now row.retry_timer
      then (if leb row.max_retries row.retry_count then failed else again)
      else m

  -- The loop over the entries that there are when it begins.
  unfoldable pub check_records :
      Clock T → T → Dict Text (CustodyRow T) → CustodyManager T → CustodyManager T
  check_records clock now [] m = m
  check_records clock now ((b, row) ∷ entries) m =
      check_records clock now entries (check_record clock now row m)

  -- check_retry_timers(), at the time `now`
  unfoldable pub check_retry_timers : Clock T → T → CustodyManager T → CustodyManager T
  check_retry_timers clock now m = check_records clock now m.active_records m

  -- One call of a method.
  pub data Step (clock : Clock T) : CustodyManager T → CustodyManager T → Type 0 where
    requested :
        {m : CustodyManager T} (now : T) (random : ℕ) (msg : CustodyReqMsg) (addr : Address)
        → Step clock m (handle_custody_req clock now random msg addr m)
    acknowledged : {m : CustodyManager T} (b : Text) → Step clock m (handle_custody_ack b m)
    delivered : {m : CustodyManager T} (b : Text) → Step clock m (handle_delivered b m)
    checked : {m : CustodyManager T} (now : T) → Step clock m (check_retry_timers clock now m)

  -- Any number of calls.
  pub data Steps (clock : Clock T) : CustodyManager T → CustodyManager T → Type 0 where
    stay : {m : CustodyManager T} → Steps clock m m
    then_step : {m n p : CustodyManager T} → Steps clock m n → Step clock n p → Steps clock m p
