-- ===== src/Node/Answers.antt =====
-- The answers of `wait_for_completion` (courier/node.py): the wait ends in time, and says yes only of
-- a bundle that is complete.
use cs60_final_project.Common.{
  ◌≡◌, refl, Bool, true, false, ◌||◌, ◌⊎◌, inl, inr, Option, none, some, List, [], ◌∷◌, Text,
  is_some, if-elim, Bool-cases, Option-cases, arith,
}
use cs60_final_project.Sender.State.{Floats}
use cs60_final_project.Node.Status.{NodeStatus, is_delivered, node_send_status}
use cs60_final_project.Node.Waiting.{
  WaitRound, is_over_time, wait_answer, or_wait, wait_for_completion,
}

module _ {F : Type 0} (fl : Floats F) where
  -- Some round meets a condition.
  abbrev pub AnyRound : (WaitRound F → Type 0) → List (WaitRound F) → Type 0
  AnyRound P [] = ⊥
  AnyRound P (x ∷ xs) = P x ⊎ AnyRound P xs

  abbrev IsAnswer : Option Bool → Type 0
  IsAnswer o = is_some o ≡ true

  wait_answer-over : (status : Option (NodeStatus F)) → IsAnswer (wait_answer fl status true)
  wait_answer-over none = refl
  wait_answer-over (some s) =
      if-elim IsAnswer (s.completed || is_delivered s.state) (some true) (some false) (λ _. refl)
        (λ _. refl)

  or_wait-left : (answer later : Option Bool) → IsAnswer answer → IsAnswer (or_wait fl answer later)
  or_wait-left none later h = absurd (cc)
  or_wait-left (some a) later h = refl

  or_wait-right : (answer later : Option Bool) → IsAnswer later → IsAnswer (or_wait fl answer later)
  or_wait-right none later h = h
  or_wait-right (some a) later h = refl

  -- In a round past the timeout the wait is over at the latest: with an answer.
  pub wait_for_completion-ends :
      (b : Text) (timeout : Option F) (start_time : F) (rounds : List (WaitRound F))
      → AnyRound (λ x. is_over_time fl timeout start_time x.time ≡ true) rounds
      → is_some (wait_for_completion fl b timeout start_time rounds) ≡ true
  unfolding wait_for_completion
  wait_for_completion-ends b timeout start_time [] h = elim h [ ]
  wait_for_completion-ends b timeout start_time (x ∷ rounds) (inl now) =
      let answer =
        wait_answer fl (node_send_status fl b x.node) (is_over_time fl timeout start_time x.time) in
      let later = wait_for_completion fl b timeout start_time rounds in
      if-elim IsAnswer x.node.running (or_wait fl answer later) (some false)
        (λ _. or_wait-left answer later (rw now (wait_answer-over (node_send_status fl b x.node))))
        (λ _. refl)
  wait_for_completion-ends b timeout start_time (x ∷ rounds) (inr later) =
      let answer =
        wait_answer fl (node_send_status fl b x.node) (is_over_time fl timeout start_time x.time) in
      let rest = wait_for_completion fl b timeout start_time rounds in
      if-elim IsAnswer x.node.running (or_wait fl answer rest) (some false)
        (λ _.
          or_wait-right answer rest (wait_for_completion-ends b timeout start_time rounds later))
        (λ _. refl)

  wait_answer-true :
      (status : Option (NodeStatus F)) (over : Bool)
      → wait_answer fl status over ≡ some true
      → (s : NodeStatus F) × (status ≡ some s) × ((s.completed || is_delivered s.state) ≡ true)
  wait_answer-true none over h = absurd (ground (arith, h))
  wait_answer-true (some s) over h = (s, refl, ground (arith, h))

  abbrev pub IsDoneRound : Text → WaitRound F → Type 0
  IsDoneRound b x =
      (x.node.running ≡ true)
      × (s : NodeStatus F) × (node_send_status fl b x.node ≡ some s)
      × ((s.completed || is_delivered s.state) ≡ true)

  -- The wait says yes only if in some round the node is running and tells that the bundle is complete
  -- or delivered.
  pub wait_for_completion-true :
      (b : Text) (timeout : Option F) (start_time : F) (rounds : List (WaitRound F))
      → wait_for_completion fl b timeout start_time rounds ≡ some true
      → AnyRound (IsDoneRound b) rounds
  unfolding wait_for_completion
  wait_for_completion-true b timeout start_time [] h = absurd (cc)
  wait_for_completion-true b timeout start_time (x ∷ rounds) h =
      let over = is_over_time fl timeout start_time x.time in
      let status = node_send_status fl b x.node in
      let answer = wait_answer fl status over in
      let later = wait_for_completion fl b timeout start_time rounds in
      elim (Bool-cases x.node.running) [
        | inl running ↦ elim (Option-cases answer) [
          | inl waiting ↦ inr (
              wait_for_completion-true b timeout start_time rounds
                (ground (arith, h, running, waiting)))
          | inr (a, answered) ↦
              let yes : answer ≡ some true = ground (arith, h, running, answered) in
              let (s, told, done) = wait_answer-true status over yes in inl (running, s, told, done)
        ]
        | inr stopped ↦ absurd (ground (arith, h, stopped))
      ]
