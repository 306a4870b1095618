-- ===== src/Node/Dispatch.antt =====
-- The handling of messages, and `send_file` (courier/node.py). A message has one of the types of
-- `Message`; the program logs and drops others.
use cs60_final_project.Common.{ℕ, Bool, ◌⊎◌, inl, inr, some, Text, text_eq}
use cs60_final_project.Common.Dict.{insert}
use cs60_final_project.Protocol.{
  Message, Address, DataMsg, SackMsg, CustodyReqMsg, data_msg, sack_msg, custody_req_msg,
  custody_ack_msg, delivered_msg,
}
use cs60_final_project.Receiver.{Env, handle_data}
use cs60_final_project.Custody.{handle_custody_req, handle_custody_ack}
use cs60_final_project.Sender.State.{Floats, SendEngine, SendEnv}
use cs60_final_project.Sender.Acks.{handle_sack}
use cs60_final_project.Sender.Files.{FileEnv, SendError, send_file}
use cs60_final_project.Node.State.{Node, clock_of, with_send, with_receive, with_custody}

-- What a handler finds outside: the worlds of the engines, time.time() in seconds, and
-- secrets.randbits(64) for a CUSTODY_ACK.
pub record NodeEnv (F : Type 0) : Type 0 where
  pub sending : SendEnv F
  pub receiving : Env
  pub seconds : F
  pub random : ℕ

module _ {F : Type 0} (fl : Floats F) where
  -- _handle_data_message
  unfoldable pub handle_data_message : NodeEnv F → DataMsg → Address → Node F → Node F
  handle_data_message env msg addr n = with_receive (handle_data env.receiving msg addr) n

  -- _handle_sack_message
  unfoldable pub handle_sack_message : NodeEnv F → SackMsg → Address → Node F → Node F
  handle_sack_message env msg addr n = with_send (handle_sack fl env.sending msg addr) n

  -- _handle_delivered_message
  unfoldable pub handle_delivered_message : Text → Node F → Node F
  handle_delivered_message b n =
      with_custody (cs60_final_project.Custody.handle_delivered b)
        (with_send (cs60_final_project.Sender.Acks.handle_delivered b) n)

  -- _handle_custody_req_message
  unfoldable pub handle_custody_req_message : NodeEnv F → CustodyReqMsg → Address → Node F → Node F
  handle_custody_req_message env msg addr n =
      with_custody (handle_custody_req (clock_of fl) env.seconds env.random msg addr) n

  -- _handle_custody_ack_message
  unfoldable pub handle_custody_ack_message : Text → Node F → Node F
  handle_custody_ack_message b n = with_custody (handle_custody_ack b) n

  -- _handle_message(message, sender_addr)
  unfoldable pub handle_message : NodeEnv F → Message → Address → Node F → Node F
  unfolding handle_data_message handle_sack_message handle_delivered_message
      handle_custody_req_message handle_custody_ack_message
  handle_message env (data_msg msg) addr n = handle_data_message env msg addr n
  handle_message env (sack_msg msg) addr n = handle_sack_message env msg addr n
  handle_message env (delivered_msg b) addr n = handle_delivered_message b n
  handle_message env (custody_req_msg msg) addr n = handle_custody_req_message env msg addr n
  handle_message env (custody_ack_msg msg) addr n = handle_custody_ack_message msg.bundle_id n

  abbrev pub note_destination :
      Address → Node F → SendError ⊎ (Text × SendEngine F) → SendError ⊎ (Text × Node F)
  note_destination addr n (inl error) = inl error
  note_destination addr n (inr (b, e)) = inr (
    b,
    record n {
      send_engine = e;
      storage = e.storage;
      sent = e.sent;
      send_destinations = insert b addr n.send_destinations;
    },
  )

  -- send_file(file_path, destination_node, dest_host, dest_port, fec_enabled)
  unfoldable pub node_send_file :
      SendEnv F → FileEnv → Text → Text → Address → Bool → Node F → SendError ⊎ (Text × Node F)
  node_send_file env files file_path destination addr fec_enabled n = note_destination addr n (
      send_file fl env files file_path destination addr (some fec_enabled)
        (record n.send_engine { storage = n.storage; sent = n.sent }))
