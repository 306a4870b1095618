-- ===== src/Receiver/State.antt =====
-- The state of `ReceiveEngine` (courier/receive_engine.py), and what its environment decides.
use cs60_final_project.Common.{ℕ, Bool, List, Text, Bytes}
use cs60_final_project.Common.Dict.{Dict}
use cs60_final_project.Common.NatSet.{NatSet}
use cs60_final_project.Chunk.{Chunk}
use cs60_final_project.Config.{TransferConfig, FecConfig}
use cs60_final_project.Protocol.{Message, Address}
use cs60_final_project.Storage.{Storage}

pub record ReceiveState : Type 0 where
  pub bundle_id : Text
  pub total_chunks : ℕ
  pub fec_enabled : Bool
  pub k : ℕ
  pub r : ℕ
  pub output_path : Text
  pub num_data_chunks : ℕ
  pub received_chunks : NatSet
  pub data_chunks : Dict ℕ Bytes
  pub parity_chunks : Dict ℕ (List Bytes)
  pub delivered : Bool
  pub write_buffer : List Chunk

-- `sent` is what went to `network_send`, in order, and `files` the output directory.
pub record ReceiveEngine (T : Type 0) : Type 0 where
  pub transfer_config : TransferConfig
  pub fec_config : FecConfig
  pub node_id : Text
  pub output_dir : Text
  pub storage : Storage T
  pub active_receives : Dict Text ReceiveState
  pub sent : List (Message × Address)
  pub files : Dict Text Bytes

-- How the writing of the output file ends: well, with an exception from `open`, or with an
-- exception after some of the chunks.
pub data Disk : Type 0 where
  writable : Disk
  unopened : Disk
  breaks_after : ℕ → Disk

-- What a call finds outside: the time of the database, the disk, and secrets.randbits(64).
pub record Env : Type 0 where
  pub now : ℕ
  pub disk : Disk
  pub random : ℕ
