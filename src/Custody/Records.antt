-- ===== src/Custody/Records.antt =====
-- The custody records in memory stand in storage too, and no record is retried more often than its
-- limit allows (courier/custody_manager.py).
use cs60_final_project.Common.{
  ℕ, ◌≤◌, ◌≡◌, refl, sym, ◌∙◌, subst, Option, none, some, [], ◌∷◌, Text, text_beq, text_beq_iff,
  text_eq, arith, leb, if-elim, inl, inr, All, Bool-cases,
}
use cs60_final_project.Common.Dict.{Dict, lookup, insert, lookup-insert}
use cs60_final_project.Protocol.{CustodyReqMsg, Address}
use cs60_final_project.Storage.{CustodyRow, custody_dict, load_custody_record, update_bundle_state}
use cs60_final_project.Storage.Custodies.{load_custody_record-save_custody_record}
use cs60_final_project.Custody.{
  Clock, CustodyManager, is_over, save_record, handle_custody_req, handle_custody_ack,
  handle_delivered, complete_record, check_record, check_records, check_retry_timers, Step, Steps,
}

module _ {T : Type 0} where
  -- An entry of the dictionary: it stands under its bundle id, within its limit.
  abbrev pub IsWithin : Text × CustodyRow T → Type 0
  IsWithin entry = (entry.1.bundle_id ≡ entry.0) × (entry.1.retry_count ≤ entry.1.max_retries)

  All-insert :
      (b : Text) (row : CustodyRow T) (d : Dict Text (CustodyRow T))
      → IsWithin (b, row)
      → All IsWithin d
      → All IsWithin (insert b row d)
  All-insert b row [] g h = (g, tt)
  All-insert b row ((c, x) ∷ d) g h =
      if-elim (All IsWithin) (text_beq c b) _ _
        (λ same. let e : c ≡ b = (text_beq_iff c b).0 same in ((g.0 ∙ sym e, g.1), h.1))
        (λ _. (h.0, All-insert b row d g h.1))

  -- Every record in memory is within its limit, and storage has it as the row of its bundle.
  pub record IsConsistent (m : CustodyManager T) : Type 0 where
    pub within : All IsWithin m.active_records
    pub stored :
        (b : Text) (row : CustodyRow T)
        → lookup b m.active_records ≡ some row
        → load_custody_record b m.storage ≡ some (custody_dict row)

  save_record-IsConsistent :
      (row : CustodyRow T) (m : CustodyManager T)
      → row.retry_count ≤ row.max_retries
      → IsConsistent m
      → IsConsistent (save_record row m)
  unfolding save_record
  save_record-IsConsistent row m limit ok = record {
    within = All-insert row.bundle_id row m.active_records (refl, limit) ok.within;
    stored = λ b found e. ground (
      arith,
      load_custody_record-save_custody_record row b m.storage,
      lookup-insert row.bundle_id b row m.active_records,
      ok.stored b found,
      e,
    );
  }

  handle_custody_req-IsConsistent :
      (clock : Clock T) (now : T) (random : ℕ) (msg : CustodyReqMsg) (addr : Address)
      (m : CustodyManager T)
      → IsConsistent m
      → IsConsistent (handle_custody_req clock now random msg addr m)
  unfolding handle_custody_req
  handle_custody_req-IsConsistent clock now random msg addr m ok =
      let saved = save_record-IsConsistent _ m (omega arith) ok in
      record { within = saved.within; stored = saved.stored }

  handle_custody_ack-IsConsistent :
      (b : Text) (m : CustodyManager T) → IsConsistent m → IsConsistent (handle_custody_ack b m)
  unfolding handle_custody_ack update_bundle_state load_custody_record
  handle_custody_ack-IsConsistent b m ok = record { within = ok.within; stored = ok.stored }

  lookup-IsWithin :
      (b : Text) (row : CustodyRow T) (d : Dict Text (CustodyRow T))
      → All IsWithin d
      → lookup b d ≡ some row
      → row.retry_count ≤ row.max_retries
  lookup-IsWithin b row [] h e = absurd (cc)
  lookup-IsWithin b row ((c, x) ∷ d) h e = elim (Bool-cases (text_beq c b)) [
    | inl hit ↦
        let same : x ≡ row = ground (arith, e, hit) in
        subst (λ (y : CustodyRow T). y.retry_count ≤ y.max_retries) same h.0.1
    | inr miss ↦ lookup-IsWithin b row d h.1 (ground (arith, e, miss))
  ]

  complete_record-IsConsistent :
      (found : Option (CustodyRow T)) (b : Text) (m : CustodyManager T)
      → lookup b m.active_records ≡ found
      → IsConsistent m
      → IsConsistent (complete_record found m)
  complete_record-IsConsistent none b m e ok = ok
  complete_record-IsConsistent (some row) b m e ok =
      if-elim IsConsistent (is_over row.state) _ _ (λ _. ok)
        (λ _. save_record-IsConsistent _ m (lookup-IsWithin b row m.active_records ok.within e) ok)

  handle_delivered-IsConsistent :
      (b : Text) (m : CustodyManager T) → IsConsistent m → IsConsistent (handle_delivered b m)
  unfolding handle_delivered
  handle_delivered-IsConsistent b m ok =
      complete_record-IsConsistent (lookup b m.active_records) b m refl ok

  check_record-IsConsistent :
      (clock : Clock T) (now : T) (row : CustodyRow T) (m : CustodyManager T)
      → row.retry_count ≤ row.max_retries
      → IsConsistent m
      → IsConsistent (check_record clock now row m)
  unfolding check_record
  check_record-IsConsistent clock now row m limit ok =
      if-elim IsConsistent (is_over row.state) _ _ (λ _. ok)
        (λ _.
          if-elim IsConsistent (clock.is_due now row.retry_timer) _ _
            (λ _.
              if-elim IsConsistent (leb row.max_retries row.retry_count) _ _
                (λ _. save_record-IsConsistent _ m limit ok)
                (λ left. save_record-IsConsistent _ m (ground (arith, left)) ok))
            (λ _. ok))

  check_records-IsConsistent :
      (clock : Clock T) (now : T) (entries : Dict Text (CustodyRow T)) (m : CustodyManager T)
      → All IsWithin entries
      → IsConsistent m
      → IsConsistent (check_records clock now entries m)
  unfolding check_records
  check_records-IsConsistent clock now [] m h ok = ok
  check_records-IsConsistent clock now ((b, row) ∷ entries) m h ok =
      check_records-IsConsistent clock now entries (check_record clock now row m) h.1
        (check_record-IsConsistent clock now row m h.0.1 ok)

  Step-IsConsistent :
      {clock : Clock T} {m n : CustodyManager T} → Step clock m n → IsConsistent m → IsConsistent n
  unfolding check_retry_timers
  Step-IsConsistent (Step.requested now random msg addr) ok =
      handle_custody_req-IsConsistent _ now random msg addr _ ok
  Step-IsConsistent (Step.acknowledged b) ok = handle_custody_ack-IsConsistent b _ ok
  Step-IsConsistent (Step.delivered b) ok = handle_delivered-IsConsistent b _ ok
  Step-IsConsistent (Step.checked now) ok = check_records-IsConsistent _ now _ _ ok.within ok

  -- Whatever methods of the custody manager are called, in any order and at any times, while nothing
  -- else writes to the storage (as the removal of expired bundles does), the records in memory stay consistent: each has been
  -- retried at most as often as its limit allows, and `load_custody_record` finds the same in storage,
  -- with its ranges as lists. Nothing is said of rows in storage that are not in memory.
  pub Steps-IsConsistent :
      (clock : Clock T) (m n : CustodyManager T) → Steps clock m n → IsConsistent m → IsConsistent n
  Steps-IsConsistent clock m n Steps.stay ok = ok
  Steps-IsConsistent clock m n (Steps.then_step {n = between} before last) ok =
      Step-IsConsistent last (Steps-IsConsistent clock m between before ok)
