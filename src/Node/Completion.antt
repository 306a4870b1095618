-- ===== src/Node/Completion.antt =====
-- What a node tells of a bundle (courier/node.py): after the SACK that completes the transfer, and after a
-- CUSTODY_ACK.
use cs60_final_project.Common.{
  ℕ, ◌<◌, ◌≡◌, refl, true, false, ◌||◌, Option, none, some, [], Text, elim-some, elim-none, text_eq,
  arith,
}
use cs60_final_project.Common.Dict.{lookup, beq_refl}
use cs60_final_project.Common.NatSet.{mem, IsSorted}
use cs60_final_project.Protocol.{
  Address, SackMsg, CustodyAckMsg, sack_msg, custody_ack_msg, make_delivered_msg,
}
use cs60_final_project.Storage.{Bundle, BundleState, load_bundle, update_bundle_state, or_default}
use cs60_final_project.Storage.Bundles.{load_bundle-update_bundle_state}
use cs60_final_project.Sender.State.{Floats, SendState}
use cs60_final_project.Sender.Files.{send_status, get_send_status}
use cs60_final_project.Sender.Completion.{
  is_completed, handle_sack-completes, handle_delivered-completes,
}
use cs60_final_project.Node.State.{Node}
use cs60_final_project.Node.Dispatch.{
  NodeEnv, handle_sack_message, handle_delivered_message, handle_custody_ack_message,
  handle_message,
}
use cs60_final_project.Node.Status.{
  NodeStatus, status_of_row, with_row, without_row, node_send_status,
}
use cs60_final_project.Custody.{handle_custody_ack}

module _ {F : Type 0} (fl : Floats F) where
  -- The node says that the bundle is complete.
  abbrev pub TellsDelivered : Text → Node F → Type 0
  TellsDelivered b n =
      (s : NodeStatus F) × (node_send_status fl b n ≡ some s)
      × (s.completed ≡ true)
      × (s.state ≡ BundleState.delivered)

  found_status :
      (b : Text) (n : Node F) (st : SendState F)
      → lookup b n.send_engine.active_sends ≡ some st
      → get_send_status fl b n.send_engine ≡ some (send_status fl b st)
  unfolding get_send_status
  found_status b n st h =
      elim-some (lookup b n.send_engine.active_sends) none
        (λ (x : SendState F). some (send_status fl b x)) h

  tells_completed :
      (b : Text) (n : Node F) (found : Option (SendState F)) (row : Option Bundle)
      → lookup b n.send_engine.active_sends ≡ found
      → load_bundle b n.storage ≡ row
      → is_completed found ≡ true
      → TellsDelivered b n
  unfolding node_send_status
  tells_completed b n none row e e' h = absurd (cc)
  tells_completed b n (some st) none e e' h = (
    without_row fl n.node_id (send_status fl b st),
    rw (found_status b n st e, e') refl,
    h,
    rw h refl,
  )
  tells_completed b n (some st) (some x) e e' h =
      (with_row fl (send_status fl b st) x, rw (found_status b n st e, e') refl, h, rw h refl)

  -- A SACK after which every chunk of the bundle is acknowledged, by it or before, completes the
  -- transfer: right after it the node tells that the bundle is complete and delivered, whatever its
  -- row says.
  pub node_send_status-sack :
      (env : NodeEnv F) (msg : SackMsg) (addr : Address) (n : Node F) (st : SendState F)
      → lookup msg.bundle_id n.send_engine.active_sends ≡ some st
      → IsSorted st.acked_chunks
      → ((i : ℕ)
          → i < st.total_chunks
          → (mem i (or_default msg.acked_chunks []) || mem i st.acked_chunks) ≡ true)
      → TellsDelivered msg.bundle_id (handle_message fl env (sack_msg msg) addr n)
  unfolding handle_message
  node_send_status-sack env msg addr n st found sorted all =
      let e = record n.send_engine { storage = n.storage; sent = n.sent } in
      let (done, _, _) = handle_sack-completes fl env.sending msg addr e st found sorted all in
      tells_completed msg.bundle_id (handle_sack_message fl env msg addr n) _ _ refl refl done

  -- A DELIVERED message does so too.
  pub node_send_status-delivered :
      (env : NodeEnv F) (b : Text) (addr : Address) (n : Node F) (st : SendState F)
      → lookup b n.send_engine.active_sends ≡ some st
      → TellsDelivered b (handle_message fl env (make_delivered_msg b) addr n)
  unfolding handle_message make_delivered_msg handle_delivered_message
  node_send_status-delivered env b addr n st found =
      let e = record n.send_engine { storage = n.storage; sent = n.sent } in
      let (done, _, _) = handle_delivered-completes b st e found in
      tells_completed b (handle_delivered_message fl b n) _ _ refl refl done

  -- A CUSTODY_ACK takes the word "delivered" from the row of its bundle: once the transfer is no
  -- longer in memory, the node tells that the bundle is not complete and its custody transferred.
  pub node_send_status-custody_ack :
      (env : NodeEnv F) (msg : CustodyAckMsg) (addr : Address) (n : Node F) (row : Bundle)
      → lookup msg.bundle_id n.send_engine.active_sends ≡ none
      → load_bundle msg.bundle_id n.storage ≡ some row
      → (s : NodeStatus F) × (node_send_status fl msg.bundle_id
            (handle_message fl env (custody_ack_msg msg) addr n)
          ≡ some s)
        × (s.completed ≡ false)
        × (s.state ≡ BundleState.custody_transferred)
  unfolding handle_message handle_custody_ack_message handle_custody_ack node_send_status
      get_send_status
  node_send_status-custody_ack env msg addr n row gone stored =
      let b = msg.bundle_id in
      let moved = record row { state = BundleState.custody_transferred } in
      let unknown : get_send_status fl b n.send_engine ≡ none =
        elim-none (lookup b n.send_engine.active_sends) none
          (λ (x : SendState F). some (send_status fl b x)) gone in
      let written : load_bundle b (update_bundle_state b BundleState.custody_transferred n.storage)
          ≡ some moved =
        ground (
          arith,
          load_bundle-update_bundle_state b b BundleState.custody_transferred n.storage,
          beq_refl b,
          stored,
        ) in
      (with_row fl (status_of_row fl b moved) moved, rw (unknown, written) refl, refl, refl)
