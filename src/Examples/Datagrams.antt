-- ===== src/Examples/Datagrams.antt =====
-- Messages that go over the wire.
use cs60_final_project.Common.{
  List, ℕ, ◌+◌, ◌≡◌, refl, ◌&&◌, none, some, [], ◌∷◌, Text, Bytes, map, arith, ltb,
}
use cs60_final_project.Common.Int.{next, pos}
use cs60_final_project.Common.NatSet.{NatSet, mem}
use cs60_final_project.Protocol.{
  DataMsg, SackMsg, data_msg, sack_msg, delivered_msg, custody_req_msg, custody_ack_msg,
  make_sack_msg, json_pair, float_of,
}
use cs60_final_project.Wire.{Json, datagram_of, received_message}
use cs60_final_project.Wire.Ids.{IsId}
use cs60_final_project.Wire.CustodyTrip.{
  IsWritten, received_message-datagram_of_custody_req, received_message-datagram_of_custody_ack,
}
use cs60_final_project.Wire.RoundTrip.{
  FitsData, received_message-datagram_of_data, received_message-datagram_of_delivered,
}
use cs60_final_project.Wire.SackTrip.{received_message-datagram_of_sack}

abbrev no_json : Json
no_json = record { dumps = λ r. []; loads = λ t. some []; loads_message = λ t. none }

abbrev short_id : Text
short_id = b'a' ∷ b'7' ∷ []

short_id-IsId : IsId short_id
short_id-IsId = (omega arith, ((omega arith, omega arith), ((omega arith, omega arith), tt)))

abbrev small_data : DataMsg
small_data = record {
  bundle_id = short_id;
  chunk_id = 300;
  total_chunks = 70000;
  block_id = 75;
  k = 4;
  r = 2;
  checksum = 4294967295;
  payload = 0 ∷ 255 ∷ [];
}

small_data-FitsData : FitsData small_data
small_data-FitsData = record {
  id = short_id-IsId;
  chunk_id = omega arith;
  total_chunks = omega arith;
  block_id = omega arith;
  k = omega arith;
  r = omega arith;
  checksum = omega arith;
  payload = omega arith;
}

received_message-datagram_of_data_example :
    (bytes : Bytes) × (datagram_of no_json (data_msg small_data) ≡ some bytes)
    × (received_message no_json bytes ≡ some (data_msg small_data))
received_message-datagram_of_data_example =
    received_message-datagram_of_data no_json small_data small_data-FitsData

received_message-datagram_of_delivered_example :
    (bytes : Bytes) × (datagram_of no_json (delivered_msg short_id) ≡ some bytes)
    × (received_message no_json bytes ≡ some (delivered_msg short_id))
received_message-datagram_of_delivered_example =
    received_message-datagram_of_delivered no_json short_id short_id-IsId

received_message-datagram_of_sack_example :
    (bytes : Bytes) × (read : SackMsg) × (acked : NatSet) × (datagram_of no_json
        (sack_msg (make_sack_msg short_id (map pos (0 ∷ 1 ∷ 5 ∷ 9 ∷ []))))
      ≡ some bytes)
    × (received_message no_json bytes ≡ some (sack_msg read))
    × (read.acked_chunks ≡ some acked)
    × ((x : ℕ)
        → mem x acked ≡ (mem x (0 ∷ 1 ∷ 5 ∷ 9 ∷ []) && ltb x (next read.recv_watermark + 2048)))
received_message-datagram_of_sack_example =
    received_message-datagram_of_sack no_json short_id (0 ∷ 1 ∷ 5 ∷ 9 ∷ []) short_id-IsId
      (omega arith)

-- A `json` that knows one list of ranges.
abbrev one_range : List (ℕ × ℕ)
one_range = (0, 4) ∷ []

abbrev range_text : Text
range_text = b'[' ∷ b'[' ∷ b'0' ∷ b',' ∷ b' ' ∷ b'4' ∷ b']' ∷ b']' ∷ []

abbrev range_json : Json
range_json = record {
  dumps = λ r. range_text;
  loads = λ t. some (map json_pair one_range);
  loads_message = λ t. none;
}

range_json-IsWritten : IsWritten range_json one_range
range_json-IsWritten = record { ascii = ground arith; short = omega arith; reads = refl }

received_message-datagram_of_custody_req_example :
    (bytes : Bytes) × (datagram_of range_json (
        custody_req_msg (record {
          bundle_id = short_id;
          ranges = one_range;
          ttl_remaining = record { whole = 300; rest = 5 };
        }))
      ≡ some bytes)
    × (received_message range_json bytes
        ≡ some (
            custody_req_msg
              (record { bundle_id = short_id; ranges = one_range; ttl_remaining = float_of 300 })))
received_message-datagram_of_custody_req_example =
    received_message-datagram_of_custody_req range_json
      (record {
        bundle_id = short_id;
        ranges = one_range;
        ttl_remaining = record { whole = 300; rest = 5 };
      })
      short_id-IsId (omega arith) range_json-IsWritten

received_message-datagram_of_custody_ack_example :
    (bytes : Bytes) × (datagram_of range_json
        (custody_ack_msg (record { bundle_id = short_id; ranges = one_range; ack_nonce = 7 }))
      ≡ some bytes)
    × (received_message range_json bytes
        ≡ some
            (custody_ack_msg (record { bundle_id = short_id; ranges = one_range; ack_nonce = 7 })))
received_message-datagram_of_custody_ack_example =
    received_message-datagram_of_custody_ack range_json
      (record { bundle_id = short_id; ranges = one_range; ack_nonce = 7 }) short_id-IsId
      (omega arith) range_json-IsWritten
