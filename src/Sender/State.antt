-- ===== src/Sender/State.antt =====
-- The state of `SendEngine` and of one transfer (courier/send_engine.py). Python's floats are a
-- parameter: values of a type `F` with the operations that the code applies to them.
use cs60_final_project.Common.{ℕ, Bool, List, Text, if◌then◌else◌, text_eq}
use cs60_final_project.Common.Dict.{Dict, insert}
use cs60_final_project.Common.NatSet.{NatSet}
use cs60_final_project.Chunk.{Chunk}
use cs60_final_project.Config.{TransferConfig, FecConfig}
use cs60_final_project.Protocol.{Message, Address}
use cs60_final_project.Storage.{Storage}

-- A constant of the source, such as 0.05, is the quotient of two whole numbers, 1 / 20: division is
-- correctly rounded, so the quotient is the value of the literal.
pub record Floats (F : Type 0) : Type 0 where
  pub of_nat : ℕ → F
  pub add : F → F → F
  pub sub : F → F → F
  pub mul : F → F → F
  pub div : F → F → F
  pub abs : F → F
  pub lt : F → F → Bool
  pub le : F → F → Bool
  pub eq : F → F → Bool

module _ {F : Type 0} (fl : Floats F) where
  -- max(x, y) and min(x, y) take the first of two that are neither above nor below each other.
  abbrev pub py_max : F → F → F
  py_max x y = if fl.lt x y then y else x

  abbrev pub py_min : F → F → F
  py_min x y = if fl.lt y x then y else x

  -- n / d for literals
  abbrev pub ratio : ℕ → ℕ → F
  ratio n d = fl.div (fl.of_nat n) (fl.of_nat d)

pub record SendState (F : Type 0) : Type 0 where
  pub bundle_id : Text
  pub window_start : ℕ
  pub window_end : ℕ
  pub window_size : ℕ
  pub acked_chunks : NatSet
  pub retransmit_queue : List ℕ
  pub chunk_timers : Dict ℕ F
  pub send_timestamps : Dict ℕ F
  pub retransmitted_chunks : NatSet
  pub timeout_interval : F
  pub smoothed_rtt : F
  pub rtt_variance : F
  pub total_chunks : ℕ
  pub bytes_sent : ℕ
  pub chunks_retransmitted : ℕ
  pub completed : Bool
  pub srtt : F
  pub rttvar : F
  pub rto : F
  pub send_times : Dict ℕ F

-- What was handed to `network_send`, in order, whether it took the message or not.
abbrev pub Outbox : Type 0
Outbox = List (Message × Address)

-- `timeout_interval` starts as `config.base_rto_ms`. The attribute `_last_send_ms` is never read.
pub record SendEngine (F : Type 0) : Type 0 where
  pub config : TransferConfig
  pub fec_config : FecConfig
  pub storage : Storage F
  pub src_node_id : Text
  pub active_sends : Dict Text (SendState F)
  pub chunk_cache : Dict Text (Dict ℕ Chunk)
  pub sent : Outbox

-- What one call finds outside: the time in milliseconds when it begins, and when it comes to
-- send; whether `network_send` takes a message, by the number of messages before it; and the order in
-- which Python runs through a set.
pub record SendEnv (F : Type 0) : Type 0 where
  pub now : F
  pub send_now : F
  pub accepts : ℕ → Bool
  pub iterate : NatSet → List ℕ

-- An entry of `active_sends` is one mutable object; its new value is written back here.
abbrev pub put_send : {F : Type 0} → Text → SendState F → SendEngine F → SendEngine F
put_send b st e = record e { active_sends = insert b st e.active_sends }
