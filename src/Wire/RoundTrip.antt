-- ===== src/Wire/RoundTrip.antt =====
-- Messages go over the wire unchanged (courier/network_io.py).
use cs60_final_project.Common.{
  ℕ, ◌+◌, ◌-◌, ◌^◌, ◌≤◌, ◌<◌, ◌≡◌, ap, ◌∙◌, some, List, [], ◌∷◌, ◌++◌, Text, Bytes, length, take,
  drop, arith, le→leb, map, drop-append_eq, take-of_le, length-append,
}
use cs60_final_project.Chunking.{slice}
use cs60_final_project.Protocol.{DataMsg, Message, data_msg, delivered_msg}
use cs60_final_project.Wire.{
  Json, id_field, read_id, data_format, delivered_format, serialize_data_message,
  deserialize_data_message, serialize_message, deserialize_message, serialize_delivered_message,
  deserialize_delivered_message, datagram_of, received_message,
}
use cs60_final_project.Wire.Struct.{
  big_endian, total, join, pack_uint-fits, number-big_endian, length-big_endian, unpack-join,
  length-join, unpack-header,
}
use cs60_final_project.Wire.Ids.{IsId, read_id-id_field}

-- A DATA message whose numbers fit their fields and whose datagram is not too large.
pub record FitsData (msg : DataMsg) : Type 0 where
  pub id : IsId msg.bundle_id
  pub chunk_id : msg.chunk_id < 2 ^ 32
  pub total_chunks : msg.total_chunks < 2 ^ 32
  pub block_id : msg.block_id < 2 ^ 32
  pub k : msg.k < 2 ^ 16
  pub r : msg.r < 2 ^ 16
  pub checksum : msg.checksum < 2 ^ 32
  pub payload : length msg.payload ≤ 1160

-- The fields before the payload, for a bundle id's field.
abbrev data_fields : Bytes → DataMsg → List Bytes
data_fields id msg =
    (1 ∷ [])
    ∷ id
    ∷ big_endian 4 msg.chunk_id
    ∷ big_endian 4 msg.total_chunks
    ∷ big_endian 4 msg.block_id
    ∷ big_endian 2 msg.k
    ∷ big_endian 2 msg.r
    ∷ big_endian 4 msg.checksum
    ∷ (0 ∷ [])
    ∷ big_endian 2 (length msg.payload)
    ∷ []

pub slice-payload :
    (header payload : Bytes) (n : ℕ)
    → length header ≡ n
    → slice n (n + length payload) (header ++ payload) ≡ payload
slice-payload header payload n size =
    let e : n + length payload - n ≡ length payload = omega arith in
    ap (λ t. take t (drop n (header ++ payload))) e
    ∙ ap (take (length payload)) (drop-append_eq n header payload size)
    ∙ take-of_le (length payload) payload (omega arith)

data_fields-format :
    (id : Bytes) (msg : DataMsg) → length id ≡ 16 → map length (data_fields id msg) ≡ data_format
data_fields-format id msg h = simp (h, length-big_endian)

serialize-data :
    (msg : DataMsg) (id : Bytes)
    → FitsData msg
    → id_field msg.bundle_id ≡ some id
    → serialize_data_message msg ≡ some (join (data_fields id msg) ++ msg.payload)
unfolding serialize_data_message
serialize-data msg id h made = rw (
  made,
  pack_uint-fits 4 msg.chunk_id h.chunk_id,
  pack_uint-fits 4 msg.total_chunks h.total_chunks,
  pack_uint-fits 4 msg.block_id h.block_id,
  pack_uint-fits 2 msg.k h.k,
  pack_uint-fits 2 msg.r h.r,
  pack_uint-fits 4 msg.checksum h.checksum,
  pack_uint-fits 2 (length msg.payload) (omega (arith, h.payload)),
)

deserialize-data :
    (msg : DataMsg) (id : Bytes)
    → FitsData msg
    → length id ≡ 16
    → read_id id ≡ some msg.bundle_id
    → deserialize_data_message (join (data_fields id msg) ++ msg.payload) ≡ some (data_msg msg)
unfolding deserialize_data_message
deserialize-data msg id h size read =
    let format = data_fields-format id msg size in
    let fits : length msg.payload < 256 ^ 2 = omega (arith, h.payload) in
    rw (
      unpack-header data_format (data_fields id msg) msg.payload format,
      read,
      number-big_endian 4 msg.chunk_id h.chunk_id,
      number-big_endian 4 msg.total_chunks h.total_chunks,
      number-big_endian 4 msg.block_id h.block_id,
      number-big_endian 2 msg.k h.k,
      number-big_endian 2 msg.r h.r,
      number-big_endian 4 msg.checksum h.checksum,
      number-big_endian 2 (length msg.payload) fits,
      slice-payload (join (data_fields id msg)) msg.payload 40
          (length-join (data_fields id msg) ∙ ap total format),
    )

-- What is handed over is received: the first byte chooses the reader, and nothing is cut off.
module _ (json : Json) where
  pub datagram-received :
      (message read : Message) (bytes : Bytes)
      → serialize_message json message ≡ some bytes
      → length bytes ≤ 1200
      → deserialize_message json bytes ≡ some read
      → (datagram_of json message ≡ some bytes) × (received_message json bytes ≡ some read)
  unfolding datagram_of received_message
  datagram-received message read bytes made fits received = (
    rw (made, le→leb (length bytes) 1200 fits),
    ap (deserialize_message json) (take-of_le 1200 bytes fits) ∙ received,
  )

  -- A DATA message whose numbers fit their fields, with at most 1160 bytes of payload and an ASCII
  -- bundle id of at most 16 characters, is sent as one datagram, from which the receiver reads the
  -- same message.
  pub received_message-datagram_of_data :
      (msg : DataMsg)
      → FitsData msg
      → (bytes : Bytes) × (datagram_of json (data_msg msg) ≡ some bytes)
        × (received_message json bytes ≡ some (data_msg msg))
  unfolding serialize_message deserialize_message
  received_message-datagram_of_data msg h =
      let (id, made, size, read) = read_id-id_field msg.bundle_id h.id in
      let bytes = join (data_fields id msg) ++ msg.payload in
      let format = data_fields-format id msg size in
      let long = length-join (data_fields id msg) ∙ ap total format in
      let sent =
        datagram-received (data_msg msg) (data_msg msg) bytes (serialize-data msg id h made)
          (omega (arith, length-append (join (data_fields id msg)) msg.payload, long, h.payload))
          (deserialize-data msg id h size read) in
      (bytes, sent.0, sent.1)

  -- A DELIVERED message with an ASCII bundle id of at most 16 characters is sent as one datagram,
  -- from which the receiver reads the same message.
  pub received_message-datagram_of_delivered :
      (b : Text)
      → IsId b
      → (bytes : Bytes) × (datagram_of json (delivered_msg b) ≡ some bytes)
        × (received_message json bytes ≡ some (delivered_msg b))
  unfolding serialize_message deserialize_message serialize_delivered_message
      deserialize_delivered_message
  received_message-datagram_of_delivered b h =
      let (id, made, size, read) = read_id-id_field b h in
      let fields : List Bytes = (5 ∷ []) ∷ id ∷ [] in
      let format : map length fields ≡ delivered_format = rw size in
      let long = length-join fields ∙ ap total format in
      let sent =
        datagram-received (delivered_msg b) (delivered_msg b) (join fields) (rw made)
          (omega (arith, long))
          (rw (
            take-of_le 17 (join fields) (omega (arith, long)),
            unpack-join delivered_format fields format,
            read,
          )) in
      (join fields, sent.0, sent.1)
