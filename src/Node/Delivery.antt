-- ===== src/Node/Delivery.antt =====
-- A file goes from one node to another (courier/node.py): what the first hands to its network reaches the
-- second as an arbitrary list of arrivals, in which messages may be lost, repeated and reordered.
use cs60_final_project.Common.{
  ℕ, suc, ◌≤◌, ◌<◌, ◌≡◌, refl, ap, ◌∙◌, Bool, true, inr, Option, none, some, List, [], ◌∷◌, ◌++◌,
  Text, Bytes, All, length, map, take-of_le, get_elem?, replicate, zero, text_eq,
}
use cs60_final_project.Common.Dict.{lookup}
use cs60_final_project.Chunk.{Chunk}
use cs60_final_project.Chunking.{create_chunks}
use cs60_final_project.Layout.{ceil_div}
use cs60_final_project.Protocol.{Message, Address, data_msg}
use cs60_final_project.Receiver.{ReceiveEngine, ReceiveState, output_path_of}
use cs60_final_project.Transfer.{chunk_msg, use_fec, Arrival, receive_one, receive_all}
use cs60_final_project.Transfer.EndToEnd.{delivered_file}
use cs60_final_project.Transfer.Lossless.{IsWritable, arrives, delivered_once_arrived}
use cs60_final_project.Sender.State.{Floats, SendEnv, Outbox}
use cs60_final_project.Sender.Files.{FileEnv, SourceFile}
use cs60_final_project.Sender.FreshSending.{messages_of}
use cs60_final_project.Sender.FirstWindow.{send_file-first_window}
use cs60_final_project.Node.State.{Node}
use cs60_final_project.Node.Dispatch.{
  NodeEnv, handle_data_message, handle_message, note_destination, node_send_file,
}

-- A message that arrives: its place among those that were sent, the sender's address as the receiver
-- sees it, and what the receiving node finds outside.
pub record NodeArrival (F : Type 0) : Type 0 where
  pub index : ℕ
  pub addr : Address
  pub env : NodeEnv F

module _ {F : Type 0} where
  abbrev pub arrival_of : NodeArrival F → Arrival
  arrival_of a = record { index = a.index; addr = a.addr; env = a.env.receiving }

  -- The receive engine as it is called.
  abbrev pub engine_of : Node F → ReceiveEngine F
  engine_of n = record n.receive_engine { storage = n.storage; sent = n.sent }

module _ {F : Type 0} (fl : Floats F) where
  abbrev pub arrive : Option (Message × Address) → NodeArrival F → Node F → Node F
  arrive none a n = n
  arrive (some (message, addr)) a n = handle_message fl a.env message a.addr n

  -- The node after all the arrivals, in order.
  abbrev pub arrive_all : Outbox → List (NodeArrival F) → Node F → Node F
  arrive_all sent [] n = n
  arrive_all sent (a ∷ more) n = arrive_all sent more (arrive (get_elem? sent a.index) a n)

  get_elem?-messages_of :
      (total : ℕ) (addr : Address) (cs : List Chunk) (i : ℕ)
      → get_elem? (messages_of total addr cs) i
        ≡ elim (get_elem? cs i) [ none ↦ none | some c ↦ some (data_msg (chunk_msg total c), addr) ]
  get_elem?-messages_of total addr [] i = refl
  get_elem?-messages_of total addr (c ∷ cs) zero = refl
  get_elem?-messages_of total addr (c ∷ cs) (suc i) = get_elem?-messages_of total addr cs i

  engine_of-arrive :
      (total : ℕ) (addr : Address) (found : Option Chunk) (a : NodeArrival F) (n : Node F)
      → engine_of (
          arrive
            (elim found [ none ↦ none | some c ↦ some (data_msg (chunk_msg total c), addr) ])
            a
            n)
        ≡ receive_one total found (arrival_of a) (engine_of n)
  unfolding handle_message handle_data_message
  engine_of-arrive total addr none a n = refl
  engine_of-arrive total addr (some c) a n = refl

  pub engine_of-arrive_all :
      (addr : Address) (cs : List Chunk) (arrivals : List (NodeArrival F)) (n : Node F)
      → engine_of (arrive_all (messages_of (length cs) addr cs) arrivals n)
        ≡ receive_all cs (map arrival_of arrivals) (engine_of n)
  unfolding receive_all
  engine_of-arrive_all addr cs [] n = refl
  engine_of-arrive_all addr cs (a ∷ more) n =
      let sent = messages_of (length cs) addr cs in
      engine_of-arrive_all addr cs more (arrive (get_elem? sent a.index) a n)
      ∙ ap (receive_all cs (map arrival_of more)) (
          ap (λ (m : Option (Message × Address)). engine_of (arrive m a n))
            (get_elem?-messages_of (length cs) addr cs a.index)
          ∙ engine_of-arrive (length cs) addr (get_elem? cs a.index) a n)

  -- A node sends a file that is not empty and fits in one window. If every data chunk that it hands to
  -- its network arrives at another node, in any order, among repeated chunks and parity chunks, and
  -- the disk can be written, then that node, which did not know the bundle, delivers it: its output
  -- file holds the file and after it a number of zeros smaller than the chunk size. With FEC the
  -- receiver must have FEC enabled too.
  pub node_send_file-delivered :
      (env : SendEnv F) (files : FileEnv) (path destination : Text) (addr : Address) (fec : Bool)
      (s r : Node F) (f : Bytes) (chunks : List Chunk) (arrivals : List (NodeArrival F))
      → files.file ≡ SourceFile.readable f
      → 0 < length f
      → create_chunks s.send_engine.config s.send_engine.fec_config f files.fresh_id
          (use_fec fec s.send_engine.fec_config)
        ≡ some chunks
      → length chunks ≤ s.send_engine.config.window_size
      → (use_fec fec s.send_engine.fec_config ≡ true → r.receive_engine.fec_config.enabled ≡ true)
      → lookup files.fresh_id r.receive_engine.active_receives ≡ none
      → All IsWritable (map arrival_of arrivals)
      → ((i : ℕ)
          → i < ceil_div (length f) s.send_engine.config.chunk_size
          → arrives i (map arrival_of arrivals) ≡ true)
      → (s' : Node F) × (news : Outbox) × (st : ReceiveState) × (z : ℕ) × (node_send_file fl env
            files path destination addr fec s
          ≡ inr (files.fresh_id, s'))
        × (s'.sent ≡ s.sent ++ news)
        × (lookup files.fresh_id (arrive_all news arrivals r).receive_engine.active_receives
            ≡ some st)
        × (st.delivered ≡ true)
        × (lookup
              (output_path_of r.receive_engine.output_dir files.fresh_id)
              (arrive_all news arrivals r).receive_engine.files
            ≡ some (f ++ replicate z 0))
        × (z < s.send_engine.config.chunk_size)
  unfolding node_send_file
  node_send_file-delivered env files path destination addr fec s r f chunks arrivals there some_data
        made small known fresh disk all =
      let b = files.fresh_id in
      let e = record s.send_engine { storage = s.storage; sent = s.sent } in
      let config = e.config in
      let fec_config = e.fec_config in
      let news = messages_of (length chunks) addr chunks in
      let (e', run, sent) =
        send_file-first_window fl env files path destination addr (some fec) e f chunks there made
          some_data in
      let engine = engine_of-arrive_all addr chunks arrivals r in
      let (st, found, done) =
        delivered_once_arrived config fec_config f b fec chunks (map arrival_of arrivals)
          (engine_of r) made some_data known fresh disk all in
      let (z, written, short, _, _) =
        delivered_file config fec_config f b fec chunks (map arrival_of arrivals) (engine_of r) st
          made some_data known fresh found done in
      (
        _,
        news,
        st,
        z,
        ap (note_destination fl addr s) run,
        sent
            ∙ ap (λ (cs : List Chunk). s.sent ++ messages_of (length chunks) addr cs)
                (take-of_le config.window_size chunks small),
        ap (λ (x : ReceiveEngine F). lookup b x.active_receives) engine ∙ found,
        done,
        ap (λ (x : ReceiveEngine F). lookup (output_path_of r.receive_engine.output_dir b) x.files)
              engine
            ∙ written,
        short,
      )
