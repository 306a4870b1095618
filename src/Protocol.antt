-- ===== src/Protocol.antt =====
-- The messages and their makers (courier/protocol.py). A message is a value of `Message`, where the
-- program has a dictionary with a key "msg_type". Numbers in messages are non-negative.
pub mod Bitmap
pub mod Watermark
use cs60_final_project.Common.{
  ℕ, ◌+◌, ◌-◌, ◌/◌, ◌%◌, ◌^◌, max, min, Option, none, some, List, [], ◌∷◌, Text, Bytes, get_or, set,
  replicate, ltb, ◌==◌, if◌then◌else◌,
}
use cs60_final_project.Common.Int.{ℤ, next}
use cs60_final_project.Common.NatSet.{NatSet, of_list}
use Prim.Native.Nat.{bit_or}

abbrev pub max_sack_window_bits : ℕ
max_sack_window_bits = 2048

pub record DataMsg : Type 0 where
  pub bundle_id : Text
  pub chunk_id : ℕ
  pub total_chunks : ℕ
  pub block_id : ℕ
  pub k : ℕ
  pub r : ℕ
  pub checksum : ℕ
  pub payload : Bytes

-- `acked_chunks` is there only in a message that was received.
pub record SackMsg : Type 0 where
  pub bundle_id : Text
  pub recv_watermark : ℤ
  pub sack_bitmap : Bytes
  pub acked_chunks : Option NatSet

-- An array of two numbers as `json.loads` gives it: a Python list, where the messages hold tuples.
pub record JsonPair : Type 0 where
  pub first : ℕ
  pub second : ℕ

-- tuple(r)
abbrev pub tuple_of : JsonPair → ℕ × ℕ
tuple_of r = (r.first, r.second)

abbrev pub json_pair : ℕ × ℕ → JsonPair
json_pair (first, second) = record { first = first; second = second }

-- A float that is finite and not negative: its whole part, which is its int(), and what is left in
-- units of 2^-1074, of which every such float is a multiple.
pub record PyFloat : Type 0 where
  pub whole : ℕ
  pub rest : ℕ

-- A whole number, which is equal to its float().
abbrev pub float_of : ℕ → PyFloat
float_of n = record { whole = n; rest = 0 }

pub record CustodyReqMsg : Type 0 where
  pub bundle_id : Text
  pub ranges : List (ℕ × ℕ)
  pub ttl_remaining : PyFloat

pub record CustodyAckMsg : Type 0 where
  pub bundle_id : Text
  pub ranges : List (ℕ × ℕ)
  pub ack_nonce : ℕ

pub data Message : Type 0 where
  data_msg : DataMsg → Message
  sack_msg : SackMsg → Message
  custody_req_msg : CustodyReqMsg → Message
  custody_ack_msg : CustodyAckMsg → Message
  delivered_msg : Text → Message

-- (host, port)
abbrev pub Address : Type 0
Address = Text × ℕ

-- The argument `payload` or `payload_str` of the source, as bytes; missing, it is empty.
unfoldable pub make_data_msg : Text → ℕ → ℕ → ℕ → ℕ → ℕ → ℕ → Option Bytes → DataMsg
make_data_msg bundle_id chunk_id total_chunks block_id k r checksum payload = record {
  bundle_id = bundle_id;
  chunk_id = chunk_id;
  total_chunks = total_chunks;
  block_id = block_id;
  k = k;
  r = r;
  checksum = checksum;
  payload = elim payload [ none ↦ [] | some p ↦ p ];
}

-- {int(c) for c in acked_chunks if c >= 0}
abbrev pub non_negative : List ℤ → List ℕ
non_negative [] = []
non_negative (ℤ.pos n ∷ cs) = n ∷ non_negative cs
non_negative (ℤ.negsuc n ∷ cs) = non_negative cs

-- The loop over sorted(acked_set), with `watermark` and `next_expected`.
unfoldable pub scan_watermark : NatSet → ℤ → ℕ → ℤ
scan_watermark [] watermark next_expected = watermark
scan_watermark (c ∷ cs) watermark next_expected =
    let taken = scan_watermark cs (ℤ.pos c) (next_expected + 1) in
    let passed = scan_watermark cs watermark next_expected in
    if c == next_expected then taken else if ltb next_expected c then watermark else passed

-- max of a set, 0 for the empty one
abbrev pub max_of : NatSet → ℕ
max_of [] = 0
max_of (c ∷ cs) = max c (max_of cs)

-- bitmap[i // 8] |= 1 << (7 - i % 8)
abbrev pub set_bit : ℕ → Bytes → Bytes
set_bit i bitmap = set bitmap (i / 8) (bit_or (get_or bitmap (i / 8) 0) (2 ^ (7 - i % 8)))

-- The loop over acked_set that fills the bitmap; `base` is watermark + 1. A number up to the
-- watermark, or above max_high, is skipped.
unfoldable pub fill_bitmap : ℕ → ℕ → NatSet → Bytes → Bytes
fill_bitmap base max_high [] bitmap = bitmap
fill_bitmap base max_high (c ∷ cs) bitmap =
    fill_bitmap base max_high cs
      (if ltb c base then bitmap else if ltb max_high c then bitmap else set_bit (c - base) bitmap)

-- min(max_acked, watermark + MAX_SACK_WINDOW_BITS)
abbrev pub high_end : ℕ → ℕ → ℕ
high_end base max_acked = min max_acked (base + max_sack_window_bits - 1)

-- The end of _compute_sack_window, from the watermark on.
unfoldable pub sack_bitmap_of : NatSet → ℤ → Bytes
sack_bitmap_of acked_set watermark =
    let base = next watermark in
    let max_acked = max_of acked_set in
    let max_high = high_end base max_acked in
    let num_bits = max_high - base + 1 in
    let filled = fill_bitmap base max_high acked_set (replicate ((num_bits + 7) / 8) 0) in
    if ltb max_acked base then [] else filled

-- The body of _compute_sack_window, on acked_set.
unfoldable pub sack_window_of : NatSet → ℤ × Bytes
unfolding scan_watermark fill_bitmap sack_bitmap_of
sack_window_of [] = (ℤ.negsuc 0, [])
sack_window_of (c ∷ cs) =
    let watermark = scan_watermark (c ∷ cs) (ℤ.negsuc 0) 0 in
    (watermark, sack_bitmap_of (c ∷ cs) watermark)

-- _compute_sack_window(acked_chunks)
unfoldable pub compute_sack_window : List ℤ → ℤ × Bytes
unfolding sack_window_of
compute_sack_window acked_chunks = sack_window_of (of_list (non_negative acked_chunks))

-- make_sack_msg(bundle_id, acked_chunks_list)
unfoldable pub make_sack_msg : Text → List ℤ → SackMsg
make_sack_msg bundle_id acked_chunks_list =
    let (recv_watermark, bitmap) = compute_sack_window acked_chunks_list in
    record {
      bundle_id = bundle_id;
      recv_watermark = recv_watermark;
      sack_bitmap = bitmap;
      acked_chunks = none;
    }

-- The argument `ttl_remaining` is already a float here: a whole number is `float_of`.
unfoldable pub make_custody_req_msg : Text → List (ℕ × ℕ) → PyFloat → CustodyReqMsg
make_custody_req_msg bundle_id ranges ttl_remaining = record {
  bundle_id = bundle_id;
  ranges = ranges;
  ttl_remaining = ttl_remaining;
}

-- `random` is secrets.randbits(64), for a call without a nonce.
unfoldable pub make_custody_ack_msg : ℕ → Text → List (ℕ × ℕ) → Option ℕ → CustodyAckMsg
make_custody_ack_msg random bundle_id ranges ack_nonce = record {
  bundle_id = bundle_id;
  ranges = ranges;
  ack_nonce = elim ack_nonce [ none ↦ random | some nonce ↦ nonce ];
}

unfoldable pub make_delivered_msg : Text → Message
make_delivered_msg bundle_id = delivered_msg bundle_id
