-- ===== src/Wire/CustodyTrip.antt =====
-- The custody messages over the wire (courier/network_io.py), where `json.loads` reads back as lists the
-- ranges that `json.dumps` wrote, and these are written in ASCII.
use cs60_final_project.Common.{
  ℕ, ◌^◌, ◌≤◌, ◌<◌, ◌≡◌, refl, ap, ◌∙◌, some, List, [], ◌∷◌, ◌++◌, Bytes, length, map, arith, All,
  length-append,
}
use cs60_final_project.Protocol.{
  CustodyReqMsg, CustodyAckMsg, custody_req_msg, custody_ack_msg, tuple_of, json_pair, float_of,
}
use cs60_final_project.Wire.{
  Json, read_id, sack_format, custody_ack_format, serialize_message, deserialize_message,
  serialize_custody_req_message, serialize_custody_ack_message, deserialize_custody_req_message,
  deserialize_custody_ack_message, datagram_of, received_message,
}
use cs60_final_project.Wire.Struct.{
  big_endian, number-big_endian, length-big_endian, pack_uint-fits, join, total, length-join,
  unpack-header,
}
use cs60_final_project.Wire.Ids.{IsId, IsAscii, read_id-id_field, encode_ascii, decode_ascii}
use cs60_final_project.Wire.RoundTrip.{slice-payload, datagram-received}

tuples : (ranges : List (ℕ × ℕ)) → map tuple_of (map json_pair ranges) ≡ ranges
tuples [] = refl
tuples (r ∷ ranges) = ap (λ rs. r ∷ rs) (tuples ranges)

-- The message with its time to live in whole seconds.
abbrev pub in_seconds : CustodyReqMsg → CustodyReqMsg
in_seconds msg = record msg { ttl_remaining = float_of msg.ttl_remaining.whole }

-- Ranges that the module `json` writes in ASCII, in at most 1173 bytes, and reads back.
pub record IsWritten (json : Json) (ranges : List (ℕ × ℕ)) : Type 0 where
  pub ascii : All IsAscii (json.dumps ranges)
  pub short : length (json.dumps ranges) ≤ 1173
  pub reads : json.loads (json.dumps ranges) ≡ some (map json_pair ranges)

module _ (json : Json) (ranges : List (ℕ × ℕ)) (w : IsWritten json ranges) (id : Bytes)
    (size : length id ≡ 16) where
  abbrev req_fields : ℕ → List Bytes
  req_fields ttl = (3 ∷ []) ∷ id ∷ big_endian 4 ttl ∷ big_endian 2 (length (json.dumps ranges)) ∷ []

  abbrev ack_fields : ℕ → List Bytes
  ack_fields nonce =
      (4 ∷ []) ∷ id ∷ big_endian 8 nonce ∷ big_endian 2 (length (json.dumps ranges)) ∷ []

  room : length (json.dumps ranges) < 256 ^ 2
  room = omega (arith, w.short)

  req_fields-format : (ttl : ℕ) → map length (req_fields ttl) ≡ sack_format
  req_fields-format ttl = simp (size, length-big_endian)

  ack_fields-format : (nonce : ℕ) → map length (ack_fields nonce) ≡ custody_ack_format
  ack_fields-format nonce = simp (size, length-big_endian)

  deserialize-req :
      (msg : CustodyReqMsg)
      → msg.ranges ≡ ranges
      → msg.ttl_remaining.whole < 2 ^ 32
      → read_id id ≡ some msg.bundle_id
      → deserialize_custody_req_message json
          (join (req_fields msg.ttl_remaining.whole) ++ json.dumps ranges)
        ≡ some (custody_req_msg (in_seconds msg))
  unfolding deserialize_custody_req_message
  deserialize-req msg same h read =
      let format = req_fields-format msg.ttl_remaining.whole in
      rw (
        unpack-header sack_format (req_fields msg.ttl_remaining.whole) (json.dumps ranges) format,
        read,
        number-big_endian 4 msg.ttl_remaining.whole h,
        number-big_endian 2 (length (json.dumps ranges)) room,
        slice-payload (join (req_fields msg.ttl_remaining.whole)) (json.dumps ranges) 23
            (length-join (req_fields msg.ttl_remaining.whole) ∙ ap total format),
        decode_ascii (json.dumps ranges) w.ascii,
        w.reads,
        tuples ranges,
        same,
      )

  deserialize-ack :
      (msg : CustodyAckMsg)
      → msg.ranges ≡ ranges
      → msg.ack_nonce < 2 ^ 64
      → read_id id ≡ some msg.bundle_id
      → deserialize_custody_ack_message json (join (ack_fields msg.ack_nonce) ++ json.dumps ranges)
        ≡ some (custody_ack_msg msg)
  unfolding deserialize_custody_ack_message
  deserialize-ack msg same h read =
      let format = ack_fields-format msg.ack_nonce in
      rw (
        unpack-header custody_ack_format (ack_fields msg.ack_nonce) (json.dumps ranges) format,
        read,
        number-big_endian 8 msg.ack_nonce h,
        number-big_endian 2 (length (json.dumps ranges)) room,
        slice-payload (join (ack_fields msg.ack_nonce)) (json.dumps ranges) 27
            (length-join (ack_fields msg.ack_nonce) ∙ ap total format),
        decode_ascii (json.dumps ranges) w.ascii,
        w.reads,
        tuples ranges,
        same,
      )

-- A CUSTODY_REQ is sent as one datagram, from which the receiver reads the message with its time to
-- live cut to whole seconds, and else the same: with an ASCII bundle id of at most 16 characters, a
-- time to live that is not negative and below 2^32, and ranges that `json` writes in ASCII, in at
-- most 1173 bytes, and reads back as lists.
pub received_message-datagram_of_custody_req :
    (json : Json) (msg : CustodyReqMsg)
    → IsId msg.bundle_id
    → msg.ttl_remaining.whole < 2 ^ 32
    → IsWritten json msg.ranges
    → (bytes : Bytes) × (datagram_of json (custody_req_msg msg) ≡ some bytes)
      × (received_message json bytes ≡ some (custody_req_msg (in_seconds msg)))
unfolding serialize_message deserialize_message serialize_custody_req_message
received_message-datagram_of_custody_req json msg h low w =
    let (id, made, size, read) = read_id-id_field msg.bundle_id h in
    let text = json.dumps msg.ranges in
    let fields = req_fields json msg.ranges w id size msg.ttl_remaining.whole in
    let header =
      length-join fields
      ∙ ap total (req_fields-format json msg.ranges w id size msg.ttl_remaining.whole) in
    let sent =
      datagram-received json (custody_req_msg msg) (custody_req_msg (in_seconds msg))
        (join fields ++ text)
        (rw (
          made,
          encode_ascii text w.ascii,
          pack_uint-fits 4 msg.ttl_remaining.whole low,
          pack_uint-fits 2 (length text) (room json msg.ranges w id size),
        ))
        (omega (arith, header, w.short, length-append (join fields) text))
        (deserialize-req json msg.ranges w id size msg refl low read) in
    (join fields ++ text, sent.0, sent.1)

-- A CUSTODY_ACK is sent as one datagram, from which the receiver reads the same message: with an ASCII
-- bundle id of at most 16 characters, a nonce below 2^64, and ranges that `json` writes in ASCII, in
-- at most 1173 bytes, and reads back as lists.
pub received_message-datagram_of_custody_ack :
    (json : Json) (msg : CustodyAckMsg)
    → IsId msg.bundle_id
    → msg.ack_nonce < 2 ^ 64
    → IsWritten json msg.ranges
    → (bytes : Bytes) × (datagram_of json (custody_ack_msg msg) ≡ some bytes)
      × (received_message json bytes ≡ some (custody_ack_msg msg))
unfolding serialize_message deserialize_message serialize_custody_ack_message
received_message-datagram_of_custody_ack json msg h low w =
    let (id, made, size, read) = read_id-id_field msg.bundle_id h in
    let text = json.dumps msg.ranges in
    let fields = ack_fields json msg.ranges w id size msg.ack_nonce in
    let header =
      length-join fields ∙ ap total (ack_fields-format json msg.ranges w id size msg.ack_nonce) in
    let sent =
      datagram-received json (custody_ack_msg msg) (custody_ack_msg msg) (join fields ++ text)
        (rw (
          made,
          encode_ascii text w.ascii,
          pack_uint-fits 8 msg.ack_nonce low,
          pack_uint-fits 2 (length text) (room json msg.ranges w id size),
        ))
        (omega (arith, header, w.short, length-append (join fields) text))
        (deserialize-ack json msg.ranges w id size msg refl low read) in
    (join fields ++ text, sent.0, sent.1)
