-- ===== src/Sender/Sending.antt =====
-- What goes to the network: `_send_window` and `retransmit_chunks` (courier/send_engine.py). The
-- pauses of a millisecond have no effect on the state.
use cs60_final_project.Common.{
  ℕ, ◌+◌, Bool, false, Option, none, some, List, [], ◌∷◌, ◌++◌, Text, length, range, if◌then◌else◌,
  nat_eq, text_eq,
}
use cs60_final_project.Common.Dict.{Dict, lookup, insert}
use cs60_final_project.Common.NatSet.{mem, add}
use cs60_final_project.Chunk.{Chunk}
use cs60_final_project.Protocol.{Address, data_msg}
use cs60_final_project.Storage.{load_chunks_for_bundle}
use cs60_final_project.Transfer.{chunk_msg}
use cs60_final_project.Sender.State.{Floats, SendState, SendEngine, SendEnv, Outbox, put_send}

-- {c["chunk_id"]: c for c in chunks}, from a dictionary on
abbrev pub chunk_dict_from : List Chunk → Dict ℕ Chunk → Dict ℕ Chunk
chunk_dict_from [] d = d
chunk_dict_from (c ∷ cs) d = chunk_dict_from cs (insert c.chunk_id c d)

abbrev pub chunk_dict : List Chunk → Dict ℕ Chunk
chunk_dict cs = chunk_dict_from cs []

-- self._chunk_cache.get(bundle_id): a missing or empty dictionary is replaced by the stored chunks.
abbrev pub cached_or_stored : Option (Dict ℕ Chunk) → Dict ℕ Chunk → Dict ℕ Chunk
cached_or_stored none stored = stored
cached_or_stored (some []) stored = stored
cached_or_stored (some (entry ∷ d)) stored = entry ∷ d

-- The data message of a chunk, handed to the network.
abbrev pub hand_over : ℕ → Chunk → Address → Outbox → Outbox
hand_over total_chunks c addr sent = sent ++ (data_msg (chunk_msg total_chunks c), addr) ∷ []

module _ {F : Type 0} where
  -- A chunk that there is goes to `network_send`; the state notes it if the network took it.
  abbrev pub offer :
      SendEnv F
      → Address
      → (Chunk → SendState F → SendState F)
      → Option Chunk
      → SendState F × Outbox
      → SendState F × Outbox
  offer env addr note none now = now
  offer env addr note (some c) (st, sent) =
      (if env.accepts (length sent) then note c st else st, hand_over st.total_chunks c addr sent)

  -- chunk_id in chunk_timers, and current_time before its timer
  abbrev pub is_waiting : Floats F → F → Option F → Bool
  is_waiting fl now none = false
  is_waiting fl now (some expiry) = fl.lt now expiry

  -- The state after the network took a chunk of the window.
  abbrev pub note_sent : Floats F → F → ℕ → Chunk → SendState F → SendState F
  note_sent fl now i c st = record st {
    chunk_timers = insert i (fl.add now st.timeout_interval) st.chunk_timers;
    send_timestamps = insert i now st.send_timestamps;
    bytes_sent = st.bytes_sent + length c.payload;
  }

  -- The body of the loop of _send_window.
  unfoldable pub send_one :
      Floats F
      → SendEnv F
      → Address
      → Dict ℕ Chunk
      → ℕ
      → SendState F × Outbox
      → SendState F × Outbox
  send_one fl env addr chunks i (st, sent) =
      if mem i st.acked_chunks
      then (st, sent)
      else if is_waiting fl env.send_now (lookup i st.chunk_timers)
      then (st, sent)
      else offer env addr (note_sent fl env.send_now i) (lookup i chunks) (st, sent)

  -- The loop over the given ids.
  unfoldable pub send_each :
      Floats F
      → SendEnv F
      → Address
      → Dict ℕ Chunk
      → List ℕ
      → SendState F × Outbox
      → SendState F × Outbox
  send_each fl env addr chunks [] now = now
  send_each fl env addr chunks (i ∷ is) now =
      send_each fl env addr chunks is (send_one fl env addr chunks i now)

  -- _send_window(bundle_id, dest_addr), for a transfer that there is
  unfoldable pub send_window_of :
      Floats F → SendEnv F → Text → Address → SendState F → SendEngine F → SendEngine F
  send_window_of fl env b addr st e =
      let chunks =
        cached_or_stored (lookup b e.chunk_cache)
          (chunk_dict (load_chunks_for_bundle b e.storage)) in
      let (st', sent') =
        send_each fl env addr chunks (range st.window_start st.window_end) (st, e.sent) in
      put_send b st' (record e { chunk_cache = insert b chunks e.chunk_cache; sent = sent' })

  -- _send_window(bundle_id, dest_addr)
  unfoldable pub send_window : Floats F → SendEnv F → Text → Address → SendEngine F → SendEngine F
  send_window fl env b addr e = elim (lookup b e.active_sends) [
    | none ↦ e
    | some st ↦ send_window_of fl env b addr st e
  ]

  -- The state after the network took a chunk of the queue.
  abbrev pub note_resent : Floats F → F → ℕ → SendState F → SendState F
  note_resent fl now i st = record st {
    chunk_timers = insert i (fl.add now st.timeout_interval) st.chunk_timers;
    retransmitted_chunks = add i st.retransmitted_chunks;
  }

  -- The body of the loop of retransmit_chunks, after the id is taken from the queue.
  unfoldable pub resend_one :
      Floats F
      → SendEnv F
      → Address
      → Dict ℕ Chunk
      → ℕ
      → SendState F × Outbox
      → SendState F × Outbox
  resend_one fl env addr chunks i (st, sent) =
      if mem i st.acked_chunks
      then (st, sent)
      else offer env addr (λ _. note_resent fl env.now i) (lookup i chunks) (st, sent)

  -- while send_state.retransmit_queue: the queue is taken from the front until it is empty.
  unfoldable pub drain_queue :
      Floats F
      → SendEnv F
      → Address
      → Dict ℕ Chunk
      → List ℕ
      → SendState F × Outbox
      → SendState F × Outbox
  drain_queue fl env addr chunks [] now = now
  drain_queue fl env addr chunks (i ∷ queue) (st, sent) =
      drain_queue fl env addr chunks queue
        (resend_one fl env addr chunks i (record st { retransmit_queue = queue }, sent))

  -- retransmit_chunks(bundle_id, dest_addr), for a transfer that there is
  unfoldable pub retransmit_of :
      Floats F → SendEnv F → Text → Address → SendState F → SendEngine F → SendEngine F
  retransmit_of fl env b addr st e =
      let chunks = chunk_dict (load_chunks_for_bundle b e.storage) in
      let (st', sent') = drain_queue fl env addr chunks st.retransmit_queue (st, e.sent) in
      if st.completed then e else put_send b st' (record e { sent = sent' })

  -- retransmit_chunks(bundle_id, dest_addr)
  unfoldable pub retransmit_chunks :
      Floats F → SendEnv F → Text → Address → SendEngine F → SendEngine F
  retransmit_chunks fl env b addr e = elim (lookup b e.active_sends) [
    | none ↦ e
    | some st ↦ retransmit_of fl env b addr st e
  ]
