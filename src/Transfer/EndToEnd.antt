-- ===== src/Transfer/EndToEnd.antt =====
-- A file that is delivered is the file that was sent (courier/send_engine.py,
-- courier/receive_engine.py).
use native.Mathlib.Nat.{lt_of_mul-lt-mul_left, mul-le-mul_left}
use native.Mathlib.Omega.{div_any}
use cs60_final_project.Common.{
  suc, ℕ, ◌+◌, ◌*◌, ◌/◌, ◌%◌, ◌≤◌, ◌<◌, ◌≡◌, refl, ap, ◌∙◌, Bool, true, false, Option, none, some,
  List, [], ◌∷◌, ◌++◌, Text, Bytes, length, get_elem?, replicate, arith, text_eq,
}
use cs60_final_project.Common.Dict.{lookup}
use cs60_final_project.Chunk.{Chunk}
use cs60_final_project.Config.{TransferConfig, FecConfig}
use cs60_final_project.Receiver.{ReceiveEngine, ReceiveState, output_path_of}
use cs60_final_project.Receiver.Contract.{Contract, Carries}
use cs60_final_project.Receiver.Delivery.{EngineOk, handle_data-EngineOk}
use cs60_final_project.Layout.{ceil_div}
use cs60_final_project.Chunking.{create_chunks}
use cs60_final_project.Chunking.Slices.{pieces_bounds}
use cs60_final_project.Transfer.{chunk_msg, use_fec, Arrival, receive_one, receive_all}
use cs60_final_project.Transfer.Bundle.{contract, has_parity, size_pos, fec_fields-settled}
use cs60_final_project.Transfer.Messages.{chunk_msg-Carries}

module _ {T : Type 0} (c : Contract) (b path : Text) (chunks : List Chunk)
    (allowed : (x : ℕ) (m : Chunk)
      → get_elem? chunks x ≡ some m
      → Carries c b (chunk_msg (length chunks) m)) where
  pub receive_one-EngineOk :
      (found : Option Chunk) (a : Arrival) (e : ReceiveEngine T)
      → get_elem? chunks a.index ≡ found
      → EngineOk c b path e
      → EngineOk c b path (receive_one (length chunks) found a e)
  receive_one-EngineOk none a e q h = h
  receive_one-EngineOk (some m) a e q h =
      handle_data-EngineOk c b path a.env (chunk_msg (length chunks) m) a.addr e
        (allowed a.index m q) h

  pub receive_all-EngineOk :
      (arrivals : List Arrival) (e : ReceiveEngine T)
      → EngineOk c b path e
      → EngineOk c b path (receive_all chunks arrivals e)
  unfolding receive_all
  receive_all-EngineOk [] e h = h
  receive_all-EngineOk (a ∷ arrivals) e h =
      receive_all-EngineOk arrivals (receive_one (length chunks) (get_elem? chunks a.index) a e)
        (receive_one-EngineOk (get_elem? chunks a.index) a e refl h)

use_fec_enabled :
    (a : Bool) (fec_config : FecConfig) → use_fec a fec_config ≡ true → fec_config.enabled ≡ true
use_fec_enabled a fec_config h = ground (arith, h)

not_parity : (fec : Bool) (fec_config : FecConfig) → fec ≡ false → has_parity fec fec_config ≡ false
not_parity fec fec_config off = ground (arith, off)

-- A number of zeros that ends on a multiple of the chunk size is a whole number of chunks.
no_zeros : (len z cs n : ℕ) → 0 < cs → n * cs < len + cs → len + z ≤ n * cs → len % cs ≡ 0 → z ≡ 0
no_zeros len z cs n pos low high divides =
    let q = len / cs in
    let split : cs * q + len % cs ≡ len = div_any len cs in
    let least : n ≤ q =
      omega (arith, lt_of_mul-lt-mul_left cs {m = n} {n = suc q} (omega (arith, split))) in
    let most : cs * n ≤ cs * q = mul-le-mul_left cs least in omega (arith, split)

-- A receive engine that does not know the bundle.
pub start-EngineOk :
    {T : Type 0} (config : TransferConfig) (fec_config : FecConfig) (f : Bytes) (b : Text)
    (fec_enabled : Bool) (chunks : List Chunk) (e : ReceiveEngine T)
    (made : create_chunks config fec_config f b (use_fec fec_enabled fec_config) ≡ some chunks)
    (some_data : 0 < length f)
    → (use_fec fec_enabled fec_config ≡ true → e.fec_config.enabled ≡ true)
    → lookup b e.active_receives ≡ none
    → EngineOk
        (contract config fec_config f b (use_fec fec_enabled fec_config) chunks made some_data)
        b
        (output_path_of e.output_dir b)
        e
start-EngineOk config fec_config f b fec_enabled chunks e made some_data there fresh = record {
  entry = λ s q. absurd (cc);
  placed = refl;
  settled =
      fec_fields-settled config fec_config f b (use_fec fec_enabled fec_config) chunks made
        some_data e.fec_config.enabled there (λ h. use_fec_enabled fec_enabled fec_config h);
}

-- Let a file that is not empty be cut into chunks, and let the messages of the chunks arrive at
-- a receive engine that does not know the bundle, in any order, any of them lost or repeated. If the
-- bundle is then delivered, its output file holds the sent file and after it a number of
-- zeros smaller than the chunk size. There are no zeros if no FEC is used, nor if the chunk size
-- divides the length of the file. With FEC the receiver must have FEC enabled too.
pub delivered_file :
    {T : Type 0} (config : TransferConfig) (fec_config : FecConfig) (f : Bytes) (b : Text)
    (fec_enabled : Bool) (chunks : List Chunk) (arrivals : List Arrival) (e : ReceiveEngine T)
    (st : ReceiveState)
    → create_chunks config fec_config f b (use_fec fec_enabled fec_config) ≡ some chunks
    → 0 < length f
    → (use_fec fec_enabled fec_config ≡ true → e.fec_config.enabled ≡ true)
    → lookup b e.active_receives ≡ none
    → lookup b (receive_all chunks arrivals e).active_receives ≡ some st
    → st.delivered ≡ true
    → (z : ℕ) × (lookup (output_path_of e.output_dir b) (receive_all chunks arrivals e).files
        ≡ some (f ++ replicate z 0))
      × (z < config.chunk_size)
      × (use_fec fec_enabled fec_config ≡ false → z ≡ 0)
      × (length f % config.chunk_size ≡ 0 → z ≡ 0)
delivered_file config fec_config f b fec_enabled chunks arrivals e st made some_data there fresh
      found done =
    let fec = use_fec fec_enabled fec_config in
    let path = output_path_of e.output_dir b in
    let c = contract config fec_config f b fec chunks made some_data in
    let start =
      start-EngineOk config fec_config f b fec_enabled chunks e made some_data there fresh in
    let end_ok =
      receive_all-EngineOk c b path chunks
        (chunk_msg-Carries config fec_config f b fec chunks made some_data) arrivals e start in
    let size = size_pos config fec_config f b fec chunks made some_data in
    let (g, stored, whole) = (end_ok.entry st found).1.written done in
    let (z, joined, bound, exact) = whole in
    let pieces = pieces_bounds config.chunk_size f size in
    (
      z,
      stored ∙ ap some joined,
      omega (arith, bound, pieces.1),
      λ off. exact (not_parity fec fec_config off),
      λ divides.
          no_zeros (length f) z config.chunk_size (ceil_div (length f) config.chunk_size) size
            pieces.1 bound divides,
    )
