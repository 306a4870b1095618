-- ===== src/Wire/SackTrip.antt =====
-- A SACK goes from the receive engine over the wire to the send engine (courier/protocol.py,
-- courier/network_io.py).
use cs60_final_project.Common.{
  ℕ, ◌+◌, ◌-◌, ◌/◌, ◌^◌, ◌≤◌, ◌<◌, ◌≡◌, refl, sym, ap, ◌∙◌, subst, ◌&&◌, some, List, [], ◌∷◌, ◌++◌,
  Text, Bytes, length, map, take-of_le, replicate, arith, ltb, ◌==◌, if-elim, length-append,
  length-replicate,
}
use cs60_final_project.Common.Int.{ℤ, next, pos}
use cs60_final_project.Common.NatSet.{NatSet, mem, of_list, mem-add_all, of_list-IsSorted}
use cs60_final_project.Protocol.{
  SackMsg, sack_msg, non_negative, scan_watermark, max_of, high_end, sack_bitmap_of, sack_window_of,
  compute_sack_window, make_sack_msg,
}
use cs60_final_project.Protocol.Bitmap.{length-fill_bitmap}
use cs60_final_project.Wire.{
  Json, id_field, read_id, sack_format, raw_watermark_of, watermark_of, cut_bitmap, acked_of,
  serialize_message, serialize_sack_message, deserialize_message, deserialize_sack_message,
  datagram_of, received_message,
}
use cs60_final_project.Wire.Struct.{
  big_endian, number-big_endian, length-big_endian, pack_uint-fits, join, total, length-join,
  unpack-header,
}
use cs60_final_project.Wire.Ids.{IsId, read_id-id_field}
use cs60_final_project.Wire.RoundTrip.{slice-payload, datagram-received}
use cs60_final_project.Wire.Sack.{mem-sack_window_of}

-- A watermark that its field can hold, where 0xFFFFFFFF stands for -1.
abbrev IsMark : ℤ → Type 0
IsMark (ℤ.pos n) = n < 4294967295
IsMark (ℤ.negsuc n) = n ≡ 0

scan_watermark-IsMark :
    (s : NatSet) (watermark : ℤ) (n : ℕ)
    → max_of s < 4294967295
    → IsMark watermark
    → IsMark (scan_watermark s watermark n)
unfolding scan_watermark
scan_watermark-IsMark [] watermark n h m = m
scan_watermark-IsMark (c ∷ cs) watermark n h m =
    if-elim IsMark (c == n) _ _
      (λ _. scan_watermark-IsMark cs (ℤ.pos c) (n + 1) (omega (arith, h)) (omega (arith, h)))
      (λ _.
        if-elim IsMark (ltb n c) _ _ (λ _. m)
          (λ _. scan_watermark-IsMark cs watermark n (omega (arith, h)) m))

sack_window_of-IsMark : (s : NatSet) → max_of s < 4294967295 → IsMark (sack_window_of s).0
unfolding sack_window_of
sack_window_of-IsMark [] h = refl
sack_window_of-IsMark (c ∷ cs) h = scan_watermark-IsMark (c ∷ cs) (ℤ.negsuc 0) 0 h refl

length-sack_bitmap_of : (s : NatSet) (w : ℤ) → length (sack_bitmap_of s w) ≤ 256
unfolding sack_bitmap_of
length-sack_bitmap_of s w =
    let base = next w in
    let high = high_end base (max_of s) in
    let size = (high - base + 1 + 7) / 8 in
    if-elim (λ (t : Bytes). length t ≤ 256) (ltb (max_of s) base) _ _ (λ _. omega arith)
      (λ _.
        omega (
          arith,
          length-fill_bitmap base high s (replicate size 0),
          length-replicate {A = ℕ} size 0,
        ))

-- The bitmap has at most 2048 bits.
length-sack_window_of : (s : NatSet) → length (sack_window_of s).1 ≤ 256
unfolding sack_window_of
length-sack_window_of [] = omega arith
length-sack_window_of (c ∷ cs) = length-sack_bitmap_of (c ∷ cs) _

cut_bitmap-short : (bitmap : Bytes) → length bitmap ≤ 256 → cut_bitmap bitmap ≡ bitmap
cut_bitmap-short bitmap h =
    if-elim (λ (t : Bytes). t ≡ bitmap) (ltb 256 (length bitmap)) _ _ (λ _. take-of_le 256 bitmap h)
      (λ _. refl)

watermark_of-raw : (w : ℤ) → IsMark w → watermark_of (raw_watermark_of w) ≡ w
watermark_of-raw (ℤ.pos n) h = ground (arith, h)
watermark_of-raw (ℤ.negsuc n) h = ap ℤ.negsuc (sym h)

raw_watermark_of-fits : (w : ℤ) → IsMark w → raw_watermark_of w < 256 ^ 4
raw_watermark_of-fits (ℤ.pos n) h = omega (arith, h)
raw_watermark_of-fits (ℤ.negsuc n) h = omega arith

module _ (json : Json) (msg : SackMsg) (mark : IsMark msg.recv_watermark)
    (short : length msg.sack_bitmap ≤ 256) where
  abbrev sack_fields : Bytes → List Bytes
  sack_fields id =
      (2 ∷ [])
      ∷ id
      ∷ big_endian 4 (raw_watermark_of msg.recv_watermark)
      ∷ big_endian 2 (length msg.sack_bitmap)
      ∷ []

  serialize-sack :
      (id : Bytes)
      → id_field msg.bundle_id ≡ some id
      → serialize_sack_message msg ≡ some (join (sack_fields id) ++ msg.sack_bitmap)
  unfolding serialize_sack_message
  serialize-sack id made =
      let whole : cut_bitmap msg.sack_bitmap ≡ msg.sack_bitmap =
        cut_bitmap-short msg.sack_bitmap short in
      rw (
        made,
        pack_uint-fits 4 (raw_watermark_of msg.recv_watermark)
            (raw_watermark_of-fits msg.recv_watermark mark),
        whole,
        pack_uint-fits 2 (length msg.sack_bitmap) (omega (arith, short)),
      )

  deserialize-sack :
      (id : Bytes)
      → length id ≡ 16
      → read_id id ≡ some msg.bundle_id
      → deserialize_sack_message (join (sack_fields id) ++ msg.sack_bitmap)
        ≡ some (
            sack_msg
              (record msg { acked_chunks = some (acked_of msg.recv_watermark msg.sack_bitmap) }))
  unfolding deserialize_sack_message
  deserialize-sack id size read =
      let format : map length (sack_fields id) ≡ sack_format = simp (size, length-big_endian) in
      let room : length msg.sack_bitmap < 256 ^ 2 = omega (arith, short) in
      rw (
        unpack-header sack_format (sack_fields id) msg.sack_bitmap format,
        read,
        number-big_endian 4 (raw_watermark_of msg.recv_watermark)
            (raw_watermark_of-fits msg.recv_watermark mark),
        number-big_endian 2 (length msg.sack_bitmap) room,
        slice-payload (join (sack_fields id)) msg.sack_bitmap 23
            (length-join (sack_fields id) ∙ ap total format),
        watermark_of-raw msg.recv_watermark mark,
      )

  length-sack :
      (id : Bytes) → length id ≡ 16 → length (join (sack_fields id) ++ msg.sack_bitmap) ≤ 1200
  length-sack id size =
      let format : map length (sack_fields id) ≡ sack_format = simp (size, length-big_endian) in
      let header = length-join (sack_fields id) ∙ ap total format in
      omega (arith, short, header, length-append (join (sack_fields id)) msg.sack_bitmap)

non_negative-pos : (xs : List ℕ) → non_negative (map pos xs) ≡ xs
non_negative-pos [] = refl
non_negative-pos (x ∷ xs) = ap (λ t. x ∷ t) (non_negative-pos xs)

mem-of_list : (x : ℕ) (xs : List ℕ) → mem x (of_list xs) ≡ mem x xs
mem-of_list x xs = mem-add_all xs x [] ∙ ground arith

-- The SACK of some ids, as it is read on the other side.
pub sack_over_wire :
    (json : Json) (b : Text) (ids : List ℕ)
    → IsId b
    → max_of (of_list ids) < 4294967295
    → let msg = make_sack_msg b (map pos ids) in
      (bytes : Bytes) × (acked : NatSet) × (datagram_of json (sack_msg msg) ≡ some bytes)
      × (received_message json bytes ≡ some (sack_msg (record msg { acked_chunks = some acked })))
      × (msg.bundle_id ≡ b)
      × (msg.recv_watermark ≡ (sack_window_of (of_list ids)).0)
      × ((x : ℕ) → mem x acked ≡ (mem x ids && ltb x (next msg.recv_watermark + 2048)))
unfolding serialize_message deserialize_message make_sack_msg compute_sack_window
sack_over_wire json b ids h low =
    let msg = make_sack_msg b (map pos ids) in
    let set = of_list ids in
    let window : compute_sack_window (map pos ids) ≡ sack_window_of set =
      ap (λ t. sack_window_of (of_list t)) (non_negative-pos ids) in
    let mark : IsMark msg.recv_watermark =
      subst (λ w. IsMark w.0) (sym window) (sack_window_of-IsMark set low) in
    let short : length msg.sack_bitmap ≤ 256 =
      subst (λ w. length w.1 ≤ 256) (sym window) (length-sack_window_of set) in
    let (id, made, size, read) = read_id-id_field b h in
    let acked = acked_of msg.recv_watermark msg.sack_bitmap in
    let received = record msg { acked_chunks = some acked } in
    let fields = sack_fields json msg mark short id in
    let sent =
      datagram-received json (sack_msg msg) (sack_msg received) (join fields ++ msg.sack_bitmap)
        (serialize-sack json msg mark short id made) (length-sack json msg mark short id size)
        (deserialize-sack json msg mark short id size read) in
    (
      join fields ++ msg.sack_bitmap,
      acked,
      sent.0,
      sent.1,
      refl,
      ap (λ w. w.0) window,
      λ x.
          subst (λ w. mem x (acked_of w.0 w.1) ≡ (mem x ids && ltb x (next w.0 + 2048)))
            (sym window)
            (mem-sack_window_of set x (of_list-IsSorted ids)
              ∙ ap (λ t. t && ltb x (next (sack_window_of set).0 + 2048)) (mem-of_list x ids)),
    )

-- The SACK that the receive engine makes of the ids it has, none of them 2^32 - 1 or more, is sent as
-- one datagram. From it the other side reads as acknowledged the ids below the end of the
-- window, which begins after the watermark and has 2048 ids, and no others. The bundle id is
-- ASCII, of at most 16 characters.
pub received_message-datagram_of_sack :
    (json : Json) (b : Text) (ids : List ℕ)
    → IsId b
    → max_of (of_list ids) < 4294967295
    → (bytes : Bytes) × (read : SackMsg) × (acked : NatSet) × (datagram_of json
          (sack_msg (make_sack_msg b (map pos ids)))
        ≡ some bytes)
      × (received_message json bytes ≡ some (sack_msg read))
      × (read.acked_chunks ≡ some acked)
      × ((x : ℕ) → mem x acked ≡ (mem x ids && ltb x (next read.recv_watermark + 2048)))
received_message-datagram_of_sack json b ids h low =
    let (bytes, acked, sent, received, _, _, elements) = sack_over_wire json b ids h low in
    let read = record (make_sack_msg b (map pos ids)) { acked_chunks = some acked } in
    (bytes, read, acked, sent, received, refl, elements)
