-- ===== src/Examples/Nodes.antt =====
-- A node whose send engine has a transfer of two chunks, and the command line that sends a file.
use cs60_final_project.Common.{
  ◌⊎◌, ℕ, ◌≡◌, refl, true, false, none, some, inl, inr, Option, List, [], ◌∷◌, Text, is_some, arith,
  text_eq, nat_eq, ◌<◌, ◌++◌, map, replicate, get_elem?,
}
use cs60_final_project.Common.Dict.{lookup}
use cs60_final_project.Chunking.{data_chunks_of, create_chunks}
use cs60_final_project.Config.{CourierConfig, load_config}
use cs60_final_project.Protocol.{
  data_msg, Address, CustodyAckMsg, sack_msg, custody_ack_msg, make_delivered_msg,
}
use cs60_final_project.Storage.{
  Storage, BundleState, load_bundle, list_bundles_by_state, load_chunks_for_bundle,
}
use cs60_final_project.Receiver.{Disk, ReceiveState, output_path_of}
use cs60_final_project.Sender.State.{Outbox}
use cs60_final_project.Sender.Files.{
  exists, send_file, send_data, get_send_status, resume_transfers,
}
use cs60_final_project.Node.State.{Node, new_node, start}
use cs60_final_project.Node.Dispatch.{NodeEnv, handle_message, node_send_file}
use cs60_final_project.Node.Loop.{RoundEnv, event_round}
use cs60_final_project.Node.Resending.{event_round-HasNew}
use cs60_final_project.Sender.Queue.{HasNew}
use cs60_final_project.Transfer.{chunk_msg}
use cs60_final_project.Node.Status.{NodeStatus, node_send_status}
use cs60_final_project.Node.Waiting.{WaitRound, wait_for_completion}
use cs60_final_project.Node.Completion.{
  TellsDelivered, node_send_status-sack, node_send_status-custody_ack,
}
use cs60_final_project.Transfer.Lossless.{arrives}
use cs60_final_project.Node.Delivery.{
  NodeArrival, arrival_of, arrive, arrive_all, node_send_file-delivered,
}
use cs60_final_project.Node.Confirmation.{node_send_file-confirmed}
use cs60_final_project.Node.Answers.{
  AnyRound, IsDoneRound, wait_for_completion-ends, wait_for_completion-true,
}
use cs60_final_project.Cli.{SendArgs, split_colon, destination, cmd_send}
use cs60_final_project.Cli.ExitCodes.{IsSent, cmd_send-zero}
use cs60_final_project.Examples.SenderWorld.{
  row, whole, bundle, two_rows, both_sent, engine, world, peer, both_acked, a_file, file_chunks,
  bundle_in,
}

abbrev defaults : CourierConfig
defaults = load_config (b'n' ∷ []) none

abbrev new : Node ℕ
new = new_node defaults none two_rows 0

-- The node sends the bundle of two chunks.
abbrev node : Node ℕ
node = record new { running = true; send_engine = engine; storage = two_rows }

abbrev outside : NodeEnv ℕ
outside = record {
  sending = world;
  receiving = record { now = 3; disk = Disk.writable; random = 7 };
  seconds = 3;
  random = 8;
}

abbrev round : RoundEnv ℕ
round = record {
  current_time = 100;
  now_ms = 100000;
  resending = λ b. world;
  custody_now = 100;
  database_now = 100000;
}

node_send_status-sack_example :
    TellsDelivered whole bundle (handle_message whole outside (sack_msg both_acked) peer node)
node_send_status-sack_example =
    node_send_status-sack whole outside both_acked peer node both_sent refl tt
      (λ i h. ground (arith, h))

abbrev released : CustodyAckMsg
released = record { bundle_id = bundle; ranges = []; ack_nonce = 1 }

-- The row says "delivered".
abbrev delivered_rows : Storage ℕ
delivered_rows = record two_rows { bundles = bundle_in BundleState.delivered ∷ [] }

abbrev done_node : Node ℕ
done_node = record new { running = true; storage = delivered_rows }

node_send_status-custody_ack_example :
    (s : NodeStatus ℕ) × (node_send_status whole bundle
        (handle_message whole outside (custody_ack_msg released) peer done_node)
      ≡ some s)
    × (s.completed ≡ false)
    × (s.state ≡ BundleState.custody_transferred)
unfolding new_node load_bundle
node_send_status-custody_ack_example =
    node_send_status-custody_ack whole outside released peer done_node
      (bundle_in BundleState.delivered) refl refl

abbrev late : List (WaitRound ℕ)
late = record { node = node; time = 0 } ∷ record { node = node; time = 400 } ∷ []

wait_for_completion-ends_example :
    is_some (wait_for_completion whole bundle (some 300) 0 late) ≡ true
wait_for_completion-ends_example =
    wait_for_completion-ends whole bundle (some 300) 0 late (inr (inl refl))

abbrev well : List (WaitRound ℕ)
well = record { node = node; time = 0 } ∷ record { node = done_node; time = 1 } ∷ []

wait_for_completion-true_example : AnyRound whole (IsDoneRound whole bundle) well
unfolding wait_for_completion node_send_status get_send_status load_bundle new_node
wait_for_completion-true_example = wait_for_completion-true whole bundle (some 300) 0 well refl

abbrev arguments : SendArgs ℕ
arguments = record {
  file = b'f' ∷ [];
  to = b'd' ∷ [];
  dst_port = 5000;
  fec = false;
  wait = false;
  timeout = 300;
}

abbrev no_int : Text → Option ℕ
no_int t = none

sent_and_done : cmd_send whole no_int true false world a_file 0 well arguments done_node ≡ some 0
unfolding cmd_send destination split_colon start node_send_file send_file send_data create_chunks
    data_chunks_of resume_transfers list_bundles_by_state load_config wait_for_completion
    node_send_status get_send_status load_bundle new_node
sent_and_done = refl

cmd_send-zero_example :
    (false ≡ true)
    ⊎ ((started : Node ℕ) × (addr : Address) × (start whole true done_node ≡ some started)
        × (exists a_file.file ≡ true)
        × (destination no_int arguments.to arguments.dst_port ≡ some addr)
        × IsSent whole well
            (node_send_file whole world a_file arguments.file addr.0 addr arguments.fec started))
cmd_send-zero_example =
    cmd_send-zero whole no_int true false world a_file 0 well arguments done_node sent_and_done

abbrev arrives_at : ℕ → NodeArrival ℕ
arrives_at i = record { index = i; addr = peer; env = outside }

-- The second chunk first, and twice.
abbrev arrivals : List (NodeArrival ℕ)
arrivals = arrives_at 1 ∷ arrives_at 1 ∷ arrives_at 0 ∷ []

both_arrive : (i : ℕ) → i < 2 → arrives i (map arrival_of arrivals) ≡ true
both_arrive i h = ground (arith, h)

node_send_file-delivered_example :
    (s' : Node ℕ) × (news : Outbox) × (st : ReceiveState) × (z : ℕ) × (node_send_file whole world
        a_file
        (b'f' ∷ [])
        (b'd' ∷ [])
        peer
        false
        node
      ≡ inr (bundle, s'))
    × (s'.sent ≡ [] ++ news)
    × (lookup bundle (arrive_all whole news arrivals new).receive_engine.active_receives ≡ some st)
    × (st.delivered ≡ true)
    × (lookup
          (output_path_of new.receive_engine.output_dir bundle)
          (arrive_all whole news arrivals new).receive_engine.files
        ≡ some ((1 ∷ 2 ∷ 3 ∷ []) ++ replicate z 0))
    × (z < 2)
unfolding create_chunks data_chunks_of new_node
node_send_file-delivered_example =
    node_send_file-delivered whole world a_file (b'f' ∷ []) (b'd' ∷ []) peer false node new
      (1 ∷ 2 ∷ 3 ∷ []) file_chunks arrivals refl (omega arith) refl (omega arith) (λ h. absurd (cc))
      refl (refl, (refl, (refl, tt))) both_arrive

node_send_file-confirmed_example :
    (s' : Node ℕ) × (news : Outbox) × (i : ℕ) × (to : Address) × (node_send_file whole world a_file
        (b'f' ∷ [])
        (b'd' ∷ [])
        peer
        false
        node
      ≡ inr (bundle, s'))
    × (s'.sent ≡ [] ++ news)
    × (get_elem? (arrive_all whole news arrivals new).sent i ≡ some (make_delivered_msg bundle, to))
    × TellsDelivered whole bundle (
        arrive whole
          (get_elem? (arrive_all whole news arrivals new).sent i)
          (record { index = i; addr = peer; env = outside })
          s')
unfolding create_chunks data_chunks_of new_node
node_send_file-confirmed_example =
    node_send_file-confirmed whole world a_file (b'f' ∷ []) (b'd' ∷ []) peer false node new
      (1 ∷ 2 ∷ 3 ∷ []) file_chunks arrivals peer outside refl (omega arith) refl (omega arith)
      (λ h. absurd (cc)) refl (refl, (refl, (refl, tt))) both_arrive

-- The node sends another bundle too, which comes first.
abbrev two_sends : Node ℕ
two_sends = record node { send_destinations = (b'a' ∷ [], peer) ∷ (bundle, peer) ∷ [] }

event_round-HasNew_example :
    HasNew
      (data_msg (chunk_msg 2 (row 1 (3 ∷ []))), peer)
      two_sends.sent
      (event_round whole round two_sends).sent
unfolding load_chunks_for_bundle new_node
event_round-HasNew_example =
    event_round-HasNew whole round two_sends bundle peer both_sent 1 5 (row 1 (3 ∷ [])) refl refl
      refl refl refl refl refl refl refl
