-- ===== src/Examples/Senders.antt =====
-- The theorems about the send engine at a sender with a bundle of two chunks.
use cs60_final_project.Common.{
  ℕ, ◌+◌, ◌≤◌, ◌<◌, ◌≡◌, refl, ◌||◌, true, false, none, some, inr, [], ◌∷◌, ◌++◌, Bytes, length,
  All, take, map, arith, ltb, text_eq, nat_eq, range,
}
use cs60_final_project.Common.Int.{pos}
use cs60_final_project.Common.Dict.{lookup, contains}
use cs60_final_project.Common.NatSet.{mem}
use cs60_final_project.Chunking.{data_chunks_of, create_chunks}
use cs60_final_project.Protocol.{SackMsg, data_msg, sack_msg, make_sack_msg}
use cs60_final_project.Storage.{load_bundle, load_chunks_for_bundle}
use cs60_final_project.Transfer.{chunk_msg}
use cs60_final_project.Wire.{Json, datagram_of, received_message}
use cs60_final_project.Wire.Ids.{IsId}
use cs60_final_project.Sender.State.{SendState, SendEngine, Outbox}
use cs60_final_project.Sender.Sending.{chunk_dict, cached_or_stored, send_window, retransmit_chunks}
use cs60_final_project.Sender.Acks.{advance, take_acks, handle_sack}
use cs60_final_project.Sender.Timeouts.{check_transfer, check_timeouts}
use cs60_final_project.Sender.Files.{send_data, send_file}
use cs60_final_project.Sender.Calls.{Call, Calls}
use cs60_final_project.Sender.Window.{advance_lem}
use cs60_final_project.Sender.KeptWindows.{HasWindows}
use cs60_final_project.Sender.Invariant.{Calls-HasWindows}
use cs60_final_project.Sender.Safety.{IsOpenChunk, IsSameTransfer, send_window-IsGrown}
use cs60_final_project.Sender.Completion.{
  is_completed, delivered_row, handle_sack-completes, handle_sack-completes_only,
}
use cs60_final_project.Sender.Queue.{HasNew}
use cs60_final_project.Sender.Retransmission.{
  retransmit_chunks-check_timeouts, retransmit_chunks-timed,
}
use cs60_final_project.Sender.FreshSending.{messages_of}
use cs60_final_project.Sender.FirstWindow.{send_file-first_window}
use cs60_final_project.Sender.Intervals.{check_transfer-bounded, take_acks-bounded}
use cs60_final_project.Sender.OverWire.{handle_sack-over_wire}
use cs60_final_project.Examples.SenderWorld.{
  whole, whole-asymmetric, bundle, row, two_rows, both_sent, none_sent, none_sent-IsWindow, engine,
  idle_engine, new_engine, world, peer, both_acked, a_file, file_chunks, engine_after,
}

file_goes :
    send_file whole world a_file (b'f' ∷ []) (b'd' ∷ []) peer none new_engine
    ≡ inr (bundle, engine_after)
unfolding send_file send_data create_chunks
file_goes = refl

abbrev three_calls :
    Calls whole new_engine
      (check_timeouts whole 20000 (handle_sack whole world both_acked peer engine_after))
three_calls =
    Calls.then_call
      (Calls.then_call
        (Calls.then_call Calls.none_yet (
          Call.file_sent world a_file (b'f' ∷ []) (b'd' ∷ []) peer none bundle engine_after
            file_goes))
        (Call.sacked world both_acked peer))
      (Call.timed 20000)

Calls-HasWindows_example :
    HasWindows (check_timeouts whole 20000 (handle_sack whole world both_acked peer engine_after))
Calls-HasWindows_example =
    Calls-HasWindows whole new_engine
      (check_timeouts whole 20000 (handle_sack whole world both_acked peer engine_after))
      three_calls (λ b st e. absurd (cc))

both_covered : (i : ℕ) → i < 2 → (mem i (0 ∷ 1 ∷ []) || false) ≡ true
both_covered i h = ground (arith, h)

handle_sack-completes_example :
    let e' = handle_sack whole world both_acked peer engine in
    (is_completed (lookup bundle e'.active_sends) ≡ true)
    × (e'.sent ≡ [])
    × (load_bundle bundle e'.storage ≡ delivered_row both_sent (load_bundle bundle two_rows))
handle_sack-completes_example =
    handle_sack-completes whole world both_acked peer engine both_sent refl tt both_covered

handle_sack-completes_only_example : (mem 1 (0 ∷ 1 ∷ []) || false) ≡ true
unfolding handle_sack take_acks
handle_sack-completes_only_example =
    handle_sack-completes_only whole world both_acked peer engine both_sent refl refl tt tt
      (omega arith, (omega arith, tt)) ((handle_sack-completes_example).0) 1 (omega arith)

send_window-IsGrown_example :
    let chunks = cached_or_stored none (chunk_dict (load_chunks_for_bundle bundle two_rows)) in
    (news : Outbox) × ((send_window whole world bundle peer idle_engine).sent ≡ [] ++ news)
    × (length news ≤ 2)
    × All (IsOpenChunk whole world peer chunks none_sent (range 0 2)) news
    × ((x : SendState ℕ) × (lookup bundle
            (send_window whole world bundle peer idle_engine).active_sends
          ≡ some x)
        × IsSameTransfer none_sent x)
send_window-IsGrown_example =
    send_window-IsGrown whole world bundle peer idle_engine none_sent refl none_sent-IsWindow

retransmit_chunks-check_timeouts_example :
    HasNew
      (data_msg (chunk_msg 2 (row 1 (3 ∷ []))), peer)
      []
      (retransmit_chunks whole world bundle peer (check_timeouts whole 7 engine)).sent
unfolding load_chunks_for_bundle
retransmit_chunks-check_timeouts_example =
    retransmit_chunks-check_timeouts whole 7 world bundle peer engine both_sent 1 5 (row 1 (3 ∷ []))
      refl refl refl refl refl refl

retransmit_chunks-timed_example :
    (x : SendState ℕ) × (lookup bundle
        (retransmit_chunks whole world bundle peer (check_timeouts whole 7 engine)).active_sends
      ≡ some x)
    × (contains 1 x.chunk_timers ≡ true)
unfolding load_chunks_for_bundle
retransmit_chunks-timed_example =
    retransmit_chunks-timed whole 7 world bundle peer engine both_sent 1 5 (row 1 (3 ∷ [])) refl
      refl refl refl refl refl (λ n. refl)

send_file-first_window_example :
    (e' : SendEngine ℕ) × (send_file whole world a_file (b'f' ∷ []) (b'd' ∷ []) peer none new_engine
      ≡ inr (bundle, e'))
    × (e'.sent ≡ [] ++ messages_of 2 peer (take 2 file_chunks))
unfolding create_chunks data_chunks_of
send_file-first_window_example =
    send_file-first_window whole world a_file (b'f' ∷ []) (b'd' ∷ []) peer none new_engine
      (1 ∷ 2 ∷ 3 ∷ []) file_chunks refl refl (omega arith)

-- Chunks 0, 1 and 3 of four are acknowledged.
advance_lem_example :
    let stop = advance 4 (0 ∷ 1 ∷ 3 ∷ []) 0 in
    (0 ≤ stop)
    × (stop ≤ 0 + 4)
    × ((i : ℕ) → 0 ≤ i → i < stop → mem i (0 ∷ 1 ∷ 3 ∷ []) ≡ true)
    × (stop < 0 + 4 → mem stop (0 ∷ 1 ∷ 3 ∷ []) ≡ false)
advance_lem_example = advance_lem 4 (0 ∷ 1 ∷ 3 ∷ []) 0

check_transfer-bounded_example :
    ltb 500 (check_transfer whole 7 500 both_sent).timeout_interval ≡ false
check_transfer-bounded_example =
    check_transfer-bounded whole whole-asymmetric 7 500 1 5 both_sent refl refl refl refl

take_acks-bounded_example :
    ltb (take_acks whole world engine (0 ∷ []) both_sent).timeout_interval 900 ≡ false
take_acks-bounded_example =
    take_acks-bounded whole whole-asymmetric world engine (0 ∷ []) both_sent 0 refl refl

abbrev no_json : Json
no_json = record { dumps = λ r. []; loads = λ t. some []; loads_message = λ t. none }

bundle-IsId : IsId bundle
bundle-IsId = (omega arith, ((omega arith, omega arith), tt))

handle_sack-over_wire_example :
    (bytes : Bytes) × (read : SackMsg) × (datagram_of no_json
        (sack_msg (make_sack_msg bundle (map pos (1 ∷ 0 ∷ []))))
      ≡ some bytes)
    × (received_message no_json bytes ≡ some (sack_msg read))
    × (is_completed (lookup bundle (handle_sack whole world read peer engine).active_sends) ≡ true)
handle_sack-over_wire_example =
    handle_sack-over_wire whole world no_json bundle (1 ∷ 0 ∷ []) peer engine both_sent bundle-IsId
      (omega arith) refl tt (λ i h. ground (arith, h))
