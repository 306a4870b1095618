-- ===== src/Sender/OverWire.antt =====
-- The SACK of a receiver that has every chunk goes over the wire and completes the transfer at the
-- sender (courier/protocol.py, courier/network_io.py, courier/send_engine.py).
use cs60_final_project.Common.{
  ℕ, ◌≤◌, ◌<◌, ◌≡◌, refl, sym, ap, ◌∙◌, true, some, List, [], ◌∷◌, Text, Bytes, map, text_eq, inl,
  inr, Bool-cases, arith, ltb,
}
use cs60_final_project.Common.Int.{ℤ, next, pos}
use cs60_final_project.Common.Dict.{lookup}
use cs60_final_project.Common.NatSet.{NatSet, mem, of_list, IsSorted, of_list-IsSorted, mem-add_all}
use cs60_final_project.Protocol.{
  Address, SackMsg, sack_msg, max_of, scan_watermark, sack_window_of, make_sack_msg,
}
use cs60_final_project.Protocol.Watermark.{scan_watermark-IsFirstMissing}
use cs60_final_project.Wire.{Json, datagram_of, received_message}
use cs60_final_project.Wire.Ids.{IsId}
use cs60_final_project.Wire.SackTrip.{sack_over_wire}
use cs60_final_project.Sender.State.{Floats, SendState, SendEngine, SendEnv}
use cs60_final_project.Sender.Acks.{handle_sack}
use cs60_final_project.Sender.Completion.{is_completed, handle_sack-completes}

sack_window_of-covers :
    (n : ℕ) (s : NatSet)
    → IsSorted s
    → ((i : ℕ) → i < n → mem i s ≡ true)
    → n ≤ next (sack_window_of s).0
unfolding sack_window_of
sack_window_of-covers n [] p h = elim (Bool-cases (ltb 0 n)) [
  | inl less ↦ absurd (ground (arith, h 0, less))
  | inr none_at_all ↦ ground arith
]
sack_window_of-covers n (c ∷ s) p h =
    let stop = scan_watermark-IsFirstMissing (c ∷ s) (ℤ.negsuc 0) 0 p refl in
    let w = next (scan_watermark (c ∷ s) (ℤ.negsuc 0) 0) in
    elim (Bool-cases (ltb w n)) [
      | inl less ↦ absurd (ground (arith, less, h w, stop.2))
      | inr more ↦ ground arith
    ]

module _ {F : Type 0} where
  -- A receiver acknowledges the ids that it has, none of them 2^32 - 1 or more, and with them every
  -- chunk of the bundle. Its SACK is sent as one datagram, and when the sender handles what it reads
  -- from it, the transfer is complete. The bundle id is ASCII, of at most 16 characters.
  pub handle_sack-over_wire :
      (fl : Floats F) (env : SendEnv F) (json : Json) (b : Text) (ids : List ℕ) (addr : Address)
      (e : SendEngine F) (st : SendState F)
      → IsId b
      → max_of (of_list ids) < 4294967295
      → lookup b e.active_sends ≡ some st
      → IsSorted st.acked_chunks
      → ((i : ℕ) → i < st.total_chunks → mem i ids ≡ true)
      → (bytes : Bytes) × (read : SackMsg) × (datagram_of json
            (sack_msg (make_sack_msg b (map pos ids)))
          ≡ some bytes)
        × (received_message json bytes ≡ some (sack_msg read))
        × (is_completed (lookup b (handle_sack fl env read addr e).active_sends) ≡ true)
  handle_sack-over_wire fl env json b ids addr e st id low found sorted all =
      let (bytes, acked, sent, received, same_b, mark, elements) =
        sack_over_wire json b ids id low in
      let read = record (make_sack_msg b (map pos ids)) { acked_chunks = some acked } in
      let known : (i : ℕ) → i < st.total_chunks → mem i (of_list ids) ≡ true =
        λ i h. ground (arith, mem-add_all ids i [], all i h) in
      let covered =
        sack_window_of-covers st.total_chunks (of_list ids) (of_list-IsSorted ids) known in
      let done =
        (handle_sack-completes fl env read addr e st
          (ap (λ (d : Text). lookup d e.active_sends) same_b ∙ found) sorted
          (λ i h. ground (arith, elements i, all i h, mark, covered))).0 in
      (
        bytes,
        read,
        sent,
        received,
        ap (λ (d : Text). is_completed (lookup d (handle_sack fl env read addr e).active_sends))
              (sym same_b)
            ∙ done,
      )
