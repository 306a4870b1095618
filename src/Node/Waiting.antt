-- ===== src/Node/Waiting.antt =====
-- `wait_for_completion` (courier/node.py): its loop looks at the node, which other threads change, in
-- rounds. What it finds in the rounds is a list; `none` says that it is still waiting at its end.
use cs60_final_project.Common.{
  Bool, true, false, ◌||◌, Option, none, some, List, [], ◌∷◌, Text, if◌then◌else◌,
}
use cs60_final_project.Sender.State.{Floats}
use cs60_final_project.Node.State.{Node}
use cs60_final_project.Node.Status.{NodeStatus, is_delivered, node_send_status}

-- A round: the node as it is then, and time.time() at the test for the timeout.
pub record WaitRound (F : Type 0) : Type 0 where
  pub node : Node F
  pub time : F

module _ {F : Type 0} (fl : Floats F) where
  -- timeout is not None and time.time() - start_time > timeout
  abbrev pub is_over_time : Option F → F → F → Bool
  is_over_time none start_time time = false
  is_over_time (some timeout) start_time time = fl.lt timeout (fl.sub time start_time)

  -- The test of the status: done, not there, or `none` to go on.
  abbrev pub wait_answer : Option (NodeStatus F) → Bool → Option Bool
  wait_answer none over = some false
  wait_answer (some s) over =
      if s.completed || is_delivered s.state then some true else if over then some false else none

  abbrev pub or_wait : Option Bool → Option Bool → Option Bool
  or_wait (some answer) later = some answer
  or_wait none later = later

  -- wait_for_completion(bundle_id, timeout)
  unfoldable pub wait_for_completion : Text → Option F → F → List (WaitRound F) → Option Bool
  wait_for_completion b timeout start_time [] = none
  wait_for_completion b timeout start_time (round ∷ rounds) =
      let later = wait_for_completion b timeout start_time rounds in
      let answer =
        wait_answer (node_send_status fl b round.node)
          (is_over_time timeout start_time round.time) in
      if round.node.running then or_wait answer later else some false
