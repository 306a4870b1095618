-- ===== src/Node/Windows.antt =====
-- Whatever happens to a node (courier/node.py), the windows of its transfers are in order.
use cs60_final_project.Common.{
  Bool, true, ◌≡◌, subst, ap, none, ◌⊎◌, inl, inr, Option, some, [], ◌∷◌, Text, if-elim,
}
use cs60_final_project.Common.Dict.{Dict}
use cs60_final_project.Protocol.{
  Message, Address, data_msg, sack_msg, custody_req_msg, custody_ack_msg, delivered_msg,
}
use cs60_final_project.Sender.State.{Floats, SendEngine, SendEnv, ratio}
use cs60_final_project.Sender.Timeouts.{check_timeouts}
use cs60_final_project.Sender.Files.{FileEnv, SendError}
use cs60_final_project.Sender.Calls.{Call}
use cs60_final_project.Sender.KeptWindows.{HasWindows}
use cs60_final_project.Sender.Invariant.{Leaves, Call-HasWindows, send_file-HasWindows}
use cs60_final_project.Node.State.{Node, with_send, start, stop}
use cs60_final_project.Node.Dispatch.{NodeEnv, handle_message, note_destination, node_send_file}
use cs60_final_project.Node.Loop.{
  RoundEnv, retransmit_each, node_check_timeouts, periodic_cleanup, timeouts_if_due, cleanup_if_due,
  event_round,
}

module _ {F : Type 0} (fl : Floats F) where
  -- What happens to a node: a message, a file to send, a round of the event loop, its start, its stop.
  pub data NodeStep : Node F → Node F → Type 0 where
    received :
        {n : Node F} (env : NodeEnv F) (message : Message) (addr : Address)
        → NodeStep n (handle_message fl env message addr n)
    file_sent :
        {n : Node F} (env : SendEnv F) (files : FileEnv) (path destination : Text) (addr : Address)
        (fec : Bool) (b : Text) (n' : Node F)
        → node_send_file fl env files path destination addr fec n ≡ inr (b, n')
        → NodeStep n n'
    looped : {n : Node F} (env : RoundEnv F) → NodeStep n (event_round fl env n)
    started : {n : Node F} (n' : Node F) → start fl true n ≡ some n' → NodeStep n n'
    stopped : {n : Node F} → NodeStep n (stop n)

  pub data NodeSteps : Node F → Node F → Type 0 where
    nothing_yet : {n : Node F} → NodeSteps n n
    then_step : {n n' n'' : Node F} → NodeSteps n n' → NodeStep n' n'' → NodeSteps n n''

  abbrev pub AreInOrder : Node F → Type 0
  AreInOrder n = HasWindows n.send_engine

  handle_message-AreInOrder :
      (env : NodeEnv F) (message : Message) (addr : Address) (n : Node F)
      → AreInOrder n
      → AreInOrder (handle_message fl env message addr n)
  unfolding handle_message
  handle_message-AreInOrder env (data_msg msg) addr n ok = ok
  handle_message-AreInOrder env (sack_msg msg) addr n ok =
      Call-HasWindows {fl = fl} (Call.sacked env.sending msg addr) ok
  handle_message-AreInOrder env (delivered_msg b) addr n ok =
      Call-HasWindows {fl = fl} (Call.delivered b) ok
  handle_message-AreInOrder env (custody_req_msg msg) addr n ok = ok
  handle_message-AreInOrder env (custody_ack_msg msg) addr n ok = ok

  retransmit_each-AreInOrder :
      (envs : Text → SendEnv F) (dests : Dict Text Address) (n : Node F)
      → AreInOrder n
      → AreInOrder (retransmit_each fl envs dests n)
  unfolding retransmit_each
  retransmit_each-AreInOrder envs [] n ok = ok
  retransmit_each-AreInOrder envs ((b, addr) ∷ rest) n ok =
      retransmit_each-AreInOrder envs rest _
        (Call-HasWindows {fl = fl} (Call.retransmitted (envs b) b addr) ok)

  timeouts_if_due-AreInOrder :
      (env : RoundEnv F) (n : Node F) → AreInOrder n → AreInOrder (timeouts_if_due fl env n)
  unfolding node_check_timeouts
  timeouts_if_due-AreInOrder env n ok =
      let checked = with_send (check_timeouts fl env.now_ms) n in
      if-elim AreInOrder (fl.lt (ratio fl 1 20) (fl.sub env.current_time n.last_timeout_check))
        (record (node_check_timeouts fl env n) { last_timeout_check = env.current_time }) n
        (λ _.
          retransmit_each-AreInOrder env.resending checked.send_destinations checked
            (Call-HasWindows {fl = fl} (Call.timed env.now_ms) ok))
        (λ _. ok)

  cleanup_if_due-AreInOrder :
      (env : RoundEnv F) (n : Node F) → AreInOrder n → AreInOrder (cleanup_if_due fl env n)
  unfolding periodic_cleanup
  cleanup_if_due-AreInOrder env n ok =
      if-elim AreInOrder (fl.lt (fl.of_nat 60) (fl.sub env.current_time n.last_cleanup))
        (record (periodic_cleanup fl env n) { last_cleanup = env.current_time }) n
        (λ _. Call-HasWindows {fl = fl} Call.cleaned ok) (λ _. ok)

  event_round-AreInOrder :
      (env : RoundEnv F) (n : Node F) → AreInOrder n → AreInOrder (event_round fl env n)
  unfolding event_round
  event_round-AreInOrder env n ok =
      if-elim AreInOrder n.running (cleanup_if_due fl env (timeouts_if_due fl env n)) n
        (λ _. cleanup_if_due-AreInOrder env _ (timeouts_if_due-AreInOrder env n ok)) (λ _. ok)

  stop-AreInOrder : (n : Node F) → AreInOrder n → AreInOrder (stop n)
  unfolding stop
  stop-AreInOrder n ok = if-elim AreInOrder n.running _ n (λ _. ok) (λ _. ok)

  Leaves-AreInOrder :
      (addr : Address) (n : Node F) (r : SendError ⊎ (Text × SendEngine F)) (b : Text) (n' : Node F)
      → Leaves HasWindows r
      → note_destination fl addr n r ≡ inr (b, n')
      → AreInOrder n'
  Leaves-AreInOrder addr n (inl error) b n' h e = absurd (cc)
  Leaves-AreInOrder addr n (inr (d, engine)) b n' h e =
      subst AreInOrder
        (ap (λ (r : SendError ⊎ (Text × Node F)). elim r [ inl _ ↦ n | inr x ↦ x.1 ]) e) h

  NodeStep-AreInOrder : {n n' : Node F} → NodeStep n n' → AreInOrder n → AreInOrder n'
  unfolding start node_send_file
  NodeStep-AreInOrder (NodeStep.received env message addr) ok =
      handle_message-AreInOrder env message addr _ ok
  NodeStep-AreInOrder (NodeStep.file_sent {n = n} env files path destination addr fec b n' e) ok =
      Leaves-AreInOrder addr n _ b n'
        (send_file-HasWindows fl env files path destination addr (some fec)
          (record n.send_engine { storage = n.storage; sent = n.sent }) ok)
        e
  NodeStep-AreInOrder (NodeStep.looped env) ok = event_round-AreInOrder env _ ok
  NodeStep-AreInOrder (NodeStep.started {n = n} n' e) ok =
      subst AreInOrder (ap (λ (o : Option (Node F)). elim o [ none ↦ n | some x ↦ x ]) e)
        (Call-HasWindows {fl = fl} Call.resumed ok)
  NodeStep-AreInOrder NodeStep.stopped ok = stop-AreInOrder _ ok

  -- Whatever a node receives, sends and does in its loop, in any order and at any times, the windows
  -- of its transfers stay in order.
  NodeSteps-AreInOrder : (n n' : Node F) → NodeSteps n n' → AreInOrder n → AreInOrder n'
  NodeSteps-AreInOrder n n' NodeSteps.nothing_yet ok = ok
  NodeSteps-AreInOrder n n' (NodeSteps.then_step {n' = between} before last) ok =
      NodeStep-AreInOrder last (NodeSteps-AreInOrder n between before ok)
