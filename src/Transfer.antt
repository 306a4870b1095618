-- ===== src/Transfer.antt =====
-- From the send engine to the receive engine (courier/send_engine.py, courier/receive_engine.py):
-- the chunks of a file as DATA messages, over a network that loses, repeats and reorders them.
pub mod Bundle
pub mod Numbering
pub mod Messages
pub mod EndToEnd
pub mod Lossless
use cs60_final_project.Common.{
  ℕ, Bool, ◌&&◌, Option, none, some, List, [], ◌∷◌, ◌++◌, length, get_elem?,
}
use cs60_final_project.Chunk.{Chunk, int_of}
use cs60_final_project.Config.{FecConfig}
use cs60_final_project.Protocol.{DataMsg, Address, make_data_msg}
use cs60_final_project.Receiver.{ReceiveEngine, Env, handle_data}

-- The message that SendEngine._send_window and retransmit_chunks make of a chunk.
unfoldable pub chunk_msg : ℕ → Chunk → DataMsg
unfolding make_data_msg
chunk_msg total_chunks c =
    make_data_msg c.bundle_id c.chunk_id total_chunks c.block_id c.k c.r (int_of c.checksum)
      (some c.payload)

-- bool(fec_enabled and self.fec_config.enabled) of SendEngine.send_file
abbrev pub use_fec : Bool → FecConfig → Bool
use_fec fec_enabled fec_config = fec_enabled && fec_config.enabled

-- What the network hands over: the place of a chunk in the list of the sender, the sender's address
-- as the receiver sees it, and what the receiver finds outside at that time. Any list of arrivals is
-- possible; a number past the end of the list is no message.
pub record Arrival : Type 0 where
  pub index : ℕ
  pub addr : Address
  pub env : Env

abbrev pub receive_one :
    {T : Type 0} → ℕ → Option Chunk → Arrival → ReceiveEngine T → ReceiveEngine T
receive_one total none a e = e
receive_one total (some c) a e = handle_data a.env (chunk_msg total c) a.addr e

-- The receive engine after all the arrivals, in order.
unfoldable pub receive_all :
    {T : Type 0} → List Chunk → List Arrival → ReceiveEngine T → ReceiveEngine T
receive_all chunks [] e = e
receive_all chunks (a ∷ more) e =
    receive_all chunks more (receive_one (length chunks) (get_elem? chunks a.index) a e)
