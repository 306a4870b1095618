-- ===== src/Node/Confirmation.antt =====
-- A delivered file is confirmed (courier/receive_engine.py, courier/node.py, courier/send_engine.py): the
-- receiving node sends DELIVERED, and the sending node handles it.
use cs60_final_project.Common.{
  ℕ, ◌≤◌, ◌<◌, ◌≡◌, refl, sym, ap, ◌∙◌, subst, Bool, true, inr, Option, none, some, List, [], ◌∷◌,
  ◌++◌, Text, Bytes, All, length, map, get_elem?, text_eq, take-of_le,
}
use cs60_final_project.Common.Dict.{lookup, insert}
use cs60_final_project.Chunk.{Chunk}
use cs60_final_project.Chunking.{create_chunks}
use cs60_final_project.Layout.{ceil_div}
use cs60_final_project.Protocol.{Address, make_delivered_msg}
use cs60_final_project.Receiver.{ReceiveEngine}
use cs60_final_project.Receiver.Announced.{Announces, handle_data-Announces}
use cs60_final_project.Transfer.{chunk_msg, use_fec, Arrival, receive_one, receive_all}
use cs60_final_project.Transfer.Messages.{chunk_msg-Carries}
use cs60_final_project.Transfer.Lossless.{IsWritable, arrives, delivered_once_arrived}
use cs60_final_project.Sender.State.{Floats, SendEnv, Outbox}
use cs60_final_project.Sender.Files.{FileEnv, SourceFile}
use cs60_final_project.Sender.FreshSending.{messages_of}
use cs60_final_project.Sender.FirstWindow.{send_file-first_window, send_file-active}
use cs60_final_project.Node.State.{Node}
use cs60_final_project.Node.Dispatch.{NodeEnv, note_destination, node_send_file}
use cs60_final_project.Node.Completion.{TellsDelivered, node_send_status-delivered}
use cs60_final_project.Node.Delivery.{
  NodeArrival, arrival_of, engine_of, arrive, arrive_all, engine_of-arrive_all,
}

module _ {T : Type 0} (b : Text) (chunks : List Chunk)
    (for_bundle : (x : ℕ) (m : Chunk)
      → get_elem? chunks x ≡ some m
      → (chunk_msg (length chunks) m).bundle_id ≡ b) where
  receive_one-Announces :
      (found : Option Chunk) (a : Arrival) (e : ReceiveEngine T)
      → get_elem? chunks a.index ≡ found
      → Announces b e
      → Announces b (receive_one (length chunks) found a e)
  receive_one-Announces none a e q h = h
  receive_one-Announces (some m) a e q h =
      handle_data-Announces b a.env (chunk_msg (length chunks) m) a.addr e (for_bundle a.index m q)
        h

  receive_all-Announces :
      (arrivals : List Arrival) (e : ReceiveEngine T)
      → Announces b e
      → Announces b (receive_all chunks arrivals e)
  unfolding receive_all
  receive_all-Announces [] e h = h
  receive_all-Announces (a ∷ more) e h =
      receive_all-Announces more (receive_one (length chunks) (get_elem? chunks a.index) a e)
        (receive_one-Announces (get_elem? chunks a.index) a e refl h)

module _ {F : Type 0} (fl : Floats F) where
  -- A node sends a file that is not empty and fits in one window. If every data chunk that it hands to
  -- its network arrives at another node, in any order, among repeated chunks and parity chunks, and
  -- the disk can be written, then that node, which did not know the bundle, hands a DELIVERED message
  -- of it to its network. When this message arrives at the sender, from whatever address, the sender
  -- tells that the bundle is complete and delivered. With FEC the receiver must have FEC enabled too.
  pub node_send_file-confirmed :
      (env : SendEnv F) (files : FileEnv) (path destination : Text) (addr : Address) (fec : Bool)
      (s r : Node F) (f : Bytes) (chunks : List Chunk) (arrivals : List (NodeArrival F))
      (from : Address) (back : NodeEnv F)
      → files.file ≡ SourceFile.readable f
      → 0 < length f
      → create_chunks s.send_engine.config s.send_engine.fec_config f files.fresh_id
          (use_fec fec s.send_engine.fec_config)
        ≡ some chunks
      → length chunks ≤ s.send_engine.config.window_size
      → (use_fec fec s.send_engine.fec_config ≡ true → r.receive_engine.fec_config.enabled ≡ true)
      → lookup files.fresh_id r.receive_engine.active_receives ≡ none
      → All IsWritable (map arrival_of arrivals)
      → ((i : ℕ)
          → i < ceil_div (length f) s.send_engine.config.chunk_size
          → arrives i (map arrival_of arrivals) ≡ true)
      → (s' : Node F) × (news : Outbox) × (i : ℕ) × (to : Address) × (node_send_file fl env files
            path destination addr fec s
          ≡ inr (files.fresh_id, s'))
        × (s'.sent ≡ s.sent ++ news)
        × (get_elem? (arrive_all fl news arrivals r).sent i
            ≡ some (make_delivered_msg files.fresh_id, to))
        × TellsDelivered fl files.fresh_id (
            arrive fl
              (get_elem? (arrive_all fl news arrivals r).sent i)
              (record { index = i; addr = from; env = back })
              s')
  unfolding node_send_file
  node_send_file-confirmed env files path destination addr fec s r f chunks arrivals from back there
        some_data made small known fresh disk all =
      let b = files.fresh_id in
      let e = record s.send_engine { storage = s.storage; sent = s.sent } in
      let fec_on = use_fec fec e.fec_config in
      let news = messages_of (length chunks) addr chunks in
      let (e', run, sent) =
        send_file-first_window fl env files path destination addr (some fec) e f chunks there made
          some_data in
      let (x, active) =
        send_file-active fl env files path destination addr (some fec) e f chunks there made e'
          run in
      let s' = record s {
        send_engine = e';
        storage = e'.storage;
        sent = e'.sent;
        send_destinations = insert b addr s.send_destinations;
      } in
      let ends = arrive_all fl news arrivals r in
      let engine = engine_of-arrive_all fl addr chunks arrivals r in
      let (st, found, done) =
        delivered_once_arrived e.config e.fec_config f b fec chunks (map arrival_of arrivals)
          (engine_of r) made some_data known fresh disk all in
      let carries = chunk_msg-Carries e.config e.fec_config f b fec_on chunks made some_data in
      let announced =
        receive_all-Announces b chunks (λ x m q. (carries x m q).for_bundle)
          (map arrival_of arrivals) (engine_of r) (λ y q. absurd (cc)) in
      let (i, to, there_now) = (announced st found).1 done in
      let answer : get_elem? ends.sent i ≡ some (make_delivered_msg b, to) =
        ap (λ (y : ReceiveEngine F). get_elem? y.sent i) engine ∙ there_now in
      (
        s',
        news,
        i,
        to,
        ap (note_destination fl addr s) run,
        sent
            ∙ ap (λ (cs : List Chunk). s.sent ++ messages_of (length chunks) addr cs)
                (take-of_le e.config.window_size chunks small),
        answer,
        subst
            (λ m.
              TellsDelivered fl b (arrive fl m (record { index = i; addr = from; env = back }) s'))
            (sym answer) (node_send_status-delivered fl back b from s' x active),
      )
