-- ===== src/Wire.antt =====
-- The wire format of `NetworkIO` (courier/network_io.py): messages to bytes and back. `none` is an
-- exception, and for `deserialize_message` also the result None. The sockets and the receiving thread
-- are not modelled, only what goes into `sendto` and what becomes of what `recvfrom` delivers.
pub mod Struct
pub mod Utf8
pub mod Ids
pub mod RoundTrip
pub mod Sack
pub mod SackTrip
pub mod CustodyTrip
use Prim.Native.Nat.{bit_and}
use cs60_final_project.Common.{
  ℕ, zero, suc, ◌+◌, ◌-◌, ◌*◌, ◌/◌, ◌^◌, Bool, true, false, ◌&&◌, Option, none, some, List, [], ◌∷◌,
  ◌++◌, Text, Bytes, length, get_or, take, drop, replicate, range, ltb, leb, ◌==◌, if◌then◌else◌,
  ◌>>=◌, ◌>>◌, guard, map,
}
use cs60_final_project.Common.Int.{ℤ, next}
use cs60_final_project.Common.NatSet.{NatSet, add, of_list}
use cs60_final_project.Chunking.{slice}
use cs60_final_project.Protocol.{
  DataMsg, SackMsg, CustodyReqMsg, CustodyAckMsg, Message, max_sack_window_bits, data_msg, sack_msg,
  custody_req_msg, custody_ack_msg, delivered_msg, JsonPair, tuple_of, float_of,
}
use cs60_final_project.Wire.Struct.{big_endian, number, pack_uint, pack_bytes, unpack, total, join}
use cs60_final_project.Wire.Utf8.{encode, decode}

-- The module `json`: `json.dumps` of a list of ranges, `json.loads` of one, and `json.loads` of a whole
-- message.
pub record Json : Type 0 where
  pub dumps : List (ℕ × ℕ) → Text
  pub loads : Text → Option (List JsonPair)
  pub loads_message : Text → Option Message

-- message["bundle_id"][:16].encode("utf-8").ljust(16, b"\0"), as the format 16s packs it
unfoldable pub id_field : Text → Option Bytes
id_field bundle_id = do
  encoded ← encode (take 16 bundle_id)
  some (pack_bytes 16 (encoded ++ replicate (16 - length encoded) 0))

-- field.rstrip(b"\0")
abbrev pub rstrip : Bytes → Bytes
rstrip [] = []
rstrip (b ∷ bytes) = elim (rstrip bytes) [
  | [] ↦ if b == 0 then [] else b ∷ []
  | c ∷ kept ↦ b ∷ c ∷ kept
]

-- field.rstrip(b"\0").decode("utf-8")
abbrev pub read_id : Bytes → Option Text
read_id field = decode (rstrip field)

abbrev pub data_format : List ℕ
data_format = 1 ∷ 16 ∷ 4 ∷ 4 ∷ 4 ∷ 2 ∷ 2 ∷ 4 ∷ 1 ∷ 2 ∷ []

abbrev pub sack_format : List ℕ
sack_format = 1 ∷ 16 ∷ 4 ∷ 2 ∷ []

abbrev pub custody_ack_format : List ℕ
custody_ack_format = 1 ∷ 16 ∷ 8 ∷ 2 ∷ []

abbrev pub delivered_format : List ℕ
delivered_format = 1 ∷ 16 ∷ []

-- header[i], and header[i] as a number
abbrev pub field : List Bytes → ℕ → Bytes
field header i = get_or header i []

abbrev pub value : List Bytes → ℕ → ℕ
value header i = number (field header i)

unfoldable pub serialize_data_message : DataMsg → Option Bytes
serialize_data_message msg = do
  bundle_id ← id_field msg.bundle_id
  chunk_id ← pack_uint 4 msg.chunk_id
  total_chunks ← pack_uint 4 msg.total_chunks
  block_id ← pack_uint 4 msg.block_id
  k ← pack_uint 2 msg.k
  r ← pack_uint 2 msg.r
  checksum ← pack_uint 4 msg.checksum
  payload_len ← pack_uint 2 (length msg.payload)
  some (
      join (
        (1 ∷ [])
        ∷ bundle_id
        ∷ chunk_id
        ∷ total_chunks
        ∷ block_id
        ∷ k
        ∷ r
        ∷ checksum
        ∷ (0 ∷ [])
        ∷ payload_len
        ∷ [])
      ++ msg.payload)

-- The number of the watermark in a SACK: 0xFFFFFFFF for none.
abbrev pub raw_watermark_of : ℤ → ℕ
raw_watermark_of (ℤ.pos n) = n
raw_watermark_of (ℤ.negsuc n) = 4294967295

-- bitmap[: MAX_SACK_WINDOW_BITS // 8] of a longer bitmap
abbrev pub cut_bitmap : Bytes → Bytes
cut_bitmap bitmap =
    if ltb (max_sack_window_bits / 8) (length bitmap)
    then take (max_sack_window_bits / 8) bitmap
    else bitmap

unfoldable pub serialize_sack_message : SackMsg → Option Bytes
serialize_sack_message msg = do
  bundle_id ← id_field msg.bundle_id
  watermark ← pack_uint 4 (raw_watermark_of msg.recv_watermark)
  bitmap_len ← pack_uint 2 (length (cut_bitmap msg.sack_bitmap))
  some (join ((2 ∷ []) ∷ bundle_id ∷ watermark ∷ bitmap_len ∷ []) ++ cut_bitmap msg.sack_bitmap)

unfoldable pub serialize_custody_req_message : Json → CustodyReqMsg → Option Bytes
serialize_custody_req_message json msg = do
  bundle_id ← id_field msg.bundle_id
  ranges_data ← encode (json.dumps msg.ranges)
  ttl_remaining ← pack_uint 4 msg.ttl_remaining.whole
  ranges_len ← pack_uint 2 (length ranges_data)
  some (join ((3 ∷ []) ∷ bundle_id ∷ ttl_remaining ∷ ranges_len ∷ []) ++ ranges_data)

unfoldable pub serialize_custody_ack_message : Json → CustodyAckMsg → Option Bytes
serialize_custody_ack_message json msg = do
  bundle_id ← id_field msg.bundle_id
  ranges_data ← encode (json.dumps msg.ranges)
  ack_nonce ← pack_uint 8 msg.ack_nonce
  ranges_len ← pack_uint 2 (length ranges_data)
  some (join ((4 ∷ []) ∷ bundle_id ∷ ack_nonce ∷ ranges_len ∷ []) ++ ranges_data)

unfoldable pub serialize_delivered_message : Text → Option Bytes
serialize_delivered_message b = do bundle_id ← id_field b; some (join ((5 ∷ []) ∷ bundle_id ∷ []))

-- _serialize_message: a message has one of the five types.
unfoldable pub serialize_message : Json → Message → Option Bytes
serialize_message json (data_msg msg) = serialize_data_message msg
serialize_message json (sack_msg msg) = serialize_sack_message msg
serialize_message json (custody_req_msg msg) = serialize_custody_req_message json msg
serialize_message json (custody_ack_msg msg) = serialize_custody_ack_message json msg
serialize_message json (delivered_msg b) = serialize_delivered_message b

unfoldable pub deserialize_data_message : Bytes → Option Message
deserialize_data_message bytes = do
  header ← unpack data_format (take 40 bytes)
  bundle_id ← read_id (field header 1)
  some (
      data_msg (record {
        bundle_id = bundle_id;
        chunk_id = value header 2;
        total_chunks = value header 3;
        block_id = value header 4;
        k = value header 5;
        r = value header 6;
        checksum = value header 7;
        payload = slice 40 (40 + value header 9) bytes;
      }))

-- for bit_pos in range(8), with the rounds left
unfoldable pub read_bits : ℕ → ℕ → ℕ → ℕ → ℕ → NatSet → NatSet
read_bits zero bit_pos base byte_index b acked_chunks = acked_chunks
read_bits (suc left) bit_pos base byte_index b acked_chunks =
    read_bits left (suc bit_pos) base byte_index b (
      if bit_and b (2 ^ (7 - bit_pos)) == 0
      then acked_chunks
      else add (base + byte_index * 8 + bit_pos) acked_chunks)

-- for byte_index, b in enumerate(bitmap)
unfoldable pub read_bitmap : ℕ → ℕ → Bytes → NatSet → NatSet
unfolding read_bits
read_bitmap base byte_index [] acked_chunks = acked_chunks
read_bitmap base byte_index (b ∷ bitmap) acked_chunks =
    read_bitmap base (suc byte_index) bitmap (read_bits 8 0 base byte_index b acked_chunks)

abbrev pub watermark_of : ℕ → ℤ
watermark_of raw_watermark = if raw_watermark == 4294967295 then ℤ.negsuc 0 else ℤ.pos raw_watermark

-- The ids that a SACK stands for: all up to the watermark, and those of the bitmap.
unfoldable pub acked_of : ℤ → Bytes → NatSet
unfolding read_bitmap
acked_of recv_watermark bitmap =
    read_bitmap (next recv_watermark) 0 bitmap (of_list (range 0 (next recv_watermark)))

unfoldable pub deserialize_sack_message : Bytes → Option Message
deserialize_sack_message bytes = do
  header ← unpack sack_format (take 23 bytes)
  bundle_id ← read_id (field header 1)
  let recv_watermark = watermark_of (value header 2)
  let bitmap = slice 23 (23 + value header 3) bytes
  some (
      sack_msg (record {
        bundle_id = bundle_id;
        recv_watermark = recv_watermark;
        sack_bitmap = bitmap;
        acked_chunks = some (acked_of recv_watermark bitmap);
      }))

unfoldable pub deserialize_custody_req_message : Json → Bytes → Option Message
deserialize_custody_req_message json bytes = do
  header ← unpack sack_format (take 23 bytes)
  bundle_id ← read_id (field header 1)
  ranges_text ← decode (slice 23 (23 + value header 3) bytes)
  ranges_raw ← json.loads ranges_text
  some (
      custody_req_msg (record {
        bundle_id = bundle_id;
        ranges = map tuple_of ranges_raw;
        ttl_remaining = float_of (value header 2);
      }))

unfoldable pub deserialize_custody_ack_message : Json → Bytes → Option Message
deserialize_custody_ack_message json bytes = do
  header ← unpack custody_ack_format (take 27 bytes)
  bundle_id ← read_id (field header 1)
  ranges_text ← decode (slice 27 (27 + value header 3) bytes)
  ranges_raw ← json.loads ranges_text
  some (
      custody_ack_msg (record {
        bundle_id = bundle_id;
        ranges = map tuple_of ranges_raw;
        ack_nonce = value header 2;
      }))

unfoldable pub deserialize_delivered_message : Bytes → Option Message
deserialize_delivered_message bytes = do
  header ← unpack delivered_format (take 17 bytes)
  bundle_id ← read_id (field header 1)
  some (delivered_msg bundle_id)

abbrev other_message : Json → Bytes → Option Message
other_message json bytes = decode bytes >>= json.loads_message

-- _deserialize_message
unfoldable pub deserialize_message : Json → Bytes → Option Message
deserialize_message json [] = none
deserialize_message json (msg_type ∷ rest) =
    if msg_type == 1
    then deserialize_data_message (msg_type ∷ rest)
    else if msg_type == 2
    then deserialize_sack_message (msg_type ∷ rest)
    else if msg_type == 3
    then deserialize_custody_req_message json (msg_type ∷ rest)
    else if msg_type == 4
    then deserialize_custody_ack_message json (msg_type ∷ rest)
    else if msg_type == 5
    then deserialize_delivered_message (msg_type ∷ rest)
    else other_message json (msg_type ∷ rest)

-- What send_message hands to `sendto`; with `none` it returns False.
unfoldable pub datagram_of : Json → Message → Option Bytes
datagram_of json message = do
  bytes ← serialize_message json message
  guard (leb (length bytes) 1200)
  some bytes

-- What _receive_loop makes of a datagram: recvfrom(1200) delivers at most 1200 bytes of it.
unfoldable pub received_message : Json → Bytes → Option Message
received_message json datagram = deserialize_message json (take 1200 datagram)
