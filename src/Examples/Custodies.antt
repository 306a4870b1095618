-- ===== src/Examples/Custodies.antt =====
-- A custody manager that accepts a bundle, retries it and sees it delivered.
use cs60_final_project.Common.{ℕ, ◌+◌, [], ◌∷◌, leb, text_eq}
use cs60_final_project.Protocol.{float_of, CustodyReqMsg, Address}
use cs60_final_project.Storage.{empty}
use cs60_final_project.Custody.{
  Clock, CustodyManager, Step, Steps, handle_custody_req, check_retry_timers,
}
use cs60_final_project.Custody.Records.{IsConsistent, Steps-IsConsistent}

-- Whole seconds.
abbrev seconds : Clock ℕ
seconds = record { plus = ◌+◌; is_due = λ now timer. leb timer now }

abbrev manager : CustodyManager ℕ
manager = record {
  config = record { max_retries = 1; backoff_base_sec = 2 };
  storage = empty;
  node_id = b'n' ∷ [];
  active_records = [];
  sent = [];
}

manager-IsConsistent : IsConsistent manager
manager-IsConsistent = record { within = tt; stored = λ b row e. absurd (cc) }

abbrev request : CustodyReqMsg
request = record { bundle_id = b'b' ∷ []; ranges = (0, 4) ∷ []; ttl_remaining = float_of 60 }

abbrev peer : Address
peer = (b'h' ∷ [], 9000)

abbrev at_the_end : CustodyManager ℕ
at_the_end =
    check_retry_timers seconds 100
      (check_retry_timers seconds 10 (handle_custody_req seconds 0 7 request peer manager))

abbrev three_calls : Steps seconds manager at_the_end
three_calls =
    Steps.then_step
      (Steps.then_step (Steps.then_step Steps.stay (Step.requested 0 7 request peer))
        (Step.checked 10))
      (Step.checked 100)

Steps-IsConsistent_example : IsConsistent at_the_end
Steps-IsConsistent_example =
    Steps-IsConsistent seconds manager at_the_end three_calls manager-IsConsistent
