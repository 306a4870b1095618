-- ===== src/Node/State.antt =====
-- The state of a node, and how it is made (courier/node.py).
use cs60_final_project.Common.{
  ℕ, Bool, true, false, Option, none, some, [], ◌∷◌, ◌++◌, Text, if◌then◌else◌,
}
use cs60_final_project.Common.Dict.{Dict}
use cs60_final_project.Common.Decimal.{decimal}
use cs60_final_project.Config.{CourierConfig, ConfigData, load_config}
use cs60_final_project.Protocol.{Address}
use cs60_final_project.Storage.{Storage}
use cs60_final_project.Receiver.{ReceiveEngine}
use cs60_final_project.Custody.{Clock, CustodyManager}
use cs60_final_project.Sender.State.{Floats, SendEngine, Outbox}
use cs60_final_project.Sender.Files.{resume_transfers}

-- The engines share one storage and one `network_io.send_message`. They are the node's fields `storage`
-- and `sent`; the fields of that name in the engines' records are set before each call of an engine,
-- and taken back after it.
pub record Node (F : Type 0) : Type 0 where
  pub config : CourierConfig
  pub node_id : Text
  pub port : ℕ
  pub running : Bool
  pub db_path : Text
  pub storage : Storage F
  pub sent : Outbox
  pub send_engine : SendEngine F
  pub receive_engine : ReceiveEngine F
  pub custody_manager : CustodyManager F
  pub send_destinations : Dict Text Address
  pub last_timeout_check : F
  pub last_cleanup : F

-- time.time() + seconds, and the comparison of the custody timers
abbrev pub clock_of : {F : Type 0} → Floats F → Clock F
clock_of fl = record {
  plus = λ now seconds. fl.add now (fl.of_nat seconds);
  is_due = λ now timer. fl.le timer now;
}

-- The argument `storage_path`, the configured path, or f"courier_{node_id}_{port}.db"
unfoldable pub db_path_of : CourierConfig → Option Text → Text
db_path_of config (some storage_path) = storage_path
db_path_of config none = elim config.storage.db_path [
  | some path ↦ path
  | none ↦
      b'c' ∷ b'o' ∷ b'u' ∷ b'r' ∷ b'i' ∷ b'e' ∷ b'r' ∷ b'_' ∷ config.node.node_id
      ++ b'_' ∷ decimal config.node.port
      ++ b'.' ∷ b'd' ∷ b'b' ∷ []
]

abbrev with_port : Option ℕ → CourierConfig → CourierConfig
with_port none c = c
with_port (some port) c = record c { node = record c.node { port = port } }

abbrev with_node_id : Option Text → CourierConfig → CourierConfig
with_node_id none c = c
with_node_id (some id) c = record c { node = record c.node { node_id = id } }

module _ {F : Type 0} where
  abbrev pub with_send : (SendEngine F → SendEngine F) → Node F → Node F
  with_send call n =
      let e = call (record n.send_engine { storage = n.storage; sent = n.sent }) in
      record n { send_engine = e; storage = e.storage; sent = e.sent }

  abbrev pub with_receive : (ReceiveEngine F → ReceiveEngine F) → Node F → Node F
  with_receive call n =
      let e = call (record n.receive_engine { storage = n.storage; sent = n.sent }) in
      record n { receive_engine = e; storage = e.storage; sent = e.sent }

  abbrev pub with_custody : (CustodyManager F → CustodyManager F) → Node F → Node F
  with_custody call n =
      let m = call (record n.custody_manager { storage = n.storage; sent = n.sent }) in
      record n { custody_manager = m; storage = m.storage; sent = m.sent }

  -- Node(config, storage_path), at the time `now`; `stored` is what the database holds.
  unfoldable pub new_node : CourierConfig → Option Text → Storage F → F → Node F
  unfolding db_path_of
  new_node config storage_path stored now =
      let id = config.node.node_id in
      record {
        config = config;
        node_id = id;
        port = config.node.port;
        running = false;
        db_path = db_path_of config storage_path;
        storage = stored;
        sent = [];
        send_engine = record {
          config = config.transfer;
          fec_config = config.fec;
          storage = stored;
          src_node_id = id;
          active_sends = [];
          chunk_cache = [];
          sent = [];
        };
        receive_engine = record {
          transfer_config = config.transfer;
          fec_config = config.fec;
          node_id = id;
          output_dir = b'r' ∷ b'e' ∷ b'c' ∷ b'e' ∷ b'i' ∷ b'v' ∷ b'e' ∷ b'd' ∷ [];
          storage = stored;
          active_receives = [];
          sent = [];
          files = [];
        };
        custody_manager = record {
          config = config.custody;
          storage = stored;
          node_id = id;
          active_records = [];
          sent = [];
        };
        send_destinations = [];
        last_timeout_check = now;
        last_cleanup = now;
      }

  -- create_node(port, node_id, config_path)
  unfoldable pub create_node :
      Text → Option ConfigData → Option ℕ → Option Text → Storage F → F → Node F
  unfolding new_node load_config
  create_node hostname file port node_id stored now =
      new_node (with_node_id node_id (with_port port (load_config hostname file))) none stored now

  -- start(): `bound` tells whether the socket could be opened. If not, the exception is `none`; the node,
  -- which is not running, is left as it is by stop().
  unfoldable pub start : Floats F → Bool → Node F → Option (Node F)
  start fl bound n =
      if bound then some (record (with_send (resume_transfers fl) n) { running = true }) else none

  -- stop(), as far as the state goes
  unfoldable pub stop : Node F → Node F
  stop n = if n.running then record n { running = false } else n
