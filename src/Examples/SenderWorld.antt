-- ===== src/Examples/SenderWorld.antt =====
-- A sender with a bundle of two chunks, of which it has sent both. Times are natural numbers.
use cs60_final_project.Common.{
  ℕ, ◌+◌, ◌-◌, ◌*◌, ◌/◌, ◌≡◌, refl, true, false, some, List, [], ◌∷◌, Text, Bytes, arith, ltb, leb,
  ◌==◌, text_eq, nat_eq,
}
use cs60_final_project.Common.Int.{pos}
use cs60_final_project.Chunk.{Chunk, Checksum}
use cs60_final_project.Config.{TransferConfig, FecConfig}
use cs60_final_project.Chunking.{data_chunks_of}
use cs60_final_project.Protocol.{Address, SackMsg}
use cs60_final_project.Storage.{Storage, Bundle, BundleState, empty}
use cs60_final_project.Sender.State.{Floats, SendState, SendEngine, SendEnv}
use cs60_final_project.Sender.Sending.{send_window}
use cs60_final_project.Sender.Files.{FileEnv, SourceFile, register_transfer}
use cs60_final_project.Sender.Window.{IsWindow}

abbrev pub whole : Floats ℕ
whole = record {
  of_nat = λ n. n;
  add = ◌+◌;
  sub = ◌-◌;
  mul = ◌*◌;
  div = ◌/◌;
  abs = λ n. n;
  lt = ltb;
  le = leb;
  eq = ◌==◌;
}

pub whole-asymmetric : (x y : ℕ) → ltb x y ≡ true → ltb y x ≡ false
whole-asymmetric x y h = ground (arith, h)

abbrev pub bundle : Text
bundle = b'b' ∷ []

abbrev pub by_two : TransferConfig
by_two = record {
  chunk_size = 2;
  window_size = 2;
  base_rto_ms = 900;
  ttl_sec = 60;
  max_rto_ms = 500;
  pacing_delay_ms = 0;
}

abbrev no_fec : FecConfig
no_fec = record { enabled = false; k = 0; r = 0 }

abbrev pub row : ℕ → Bytes → Chunk
row i payload = record {
  bundle_id = bundle;
  chunk_id = i;
  is_parity = false;
  block_id = 0;
  k = 0;
  r = 0;
  payload = payload;
  checksum = Checksum.number 0;
  flags = 0;
}

abbrev pub bundle_in : BundleState → Bundle
bundle_in state = record {
  bundle_id = bundle;
  src = b's' ∷ [];
  dst = b'd' ∷ [];
  ttl = 60;
  state = state;
  total_chunks = 2;
  bytes_sent = 0;
  chunks_retransmitted = 0;
  fec_enabled = false;
  k = 0;
  r = 0;
  created_at = 1;
  file_path = b'f' ∷ [];
  file_size = 3;
}

abbrev pub two_rows : Storage ℕ
two_rows = record {
  bundles = bundle_in BundleState.sending ∷ [];
  chunks = row 0 (1 ∷ 2 ∷ []) ∷ row 1 (3 ∷ []) ∷ [];
  custody_records = [];
}

-- Both chunks are sent, and time out at 5; or none is.
abbrev state_with : List (ℕ × ℕ) → SendState ℕ
state_with timers = record {
  bundle_id = bundle;
  window_start = 0;
  window_end = 2;
  window_size = 2;
  acked_chunks = [];
  retransmit_queue = [];
  chunk_timers = timers;
  send_timestamps = [];
  retransmitted_chunks = [];
  timeout_interval = 900;
  smoothed_rtt = 300;
  rtt_variance = 150;
  total_chunks = 2;
  bytes_sent = 3;
  chunks_retransmitted = 0;
  completed = false;
  srtt = 0;
  rttvar = 0;
  rto = 300;
  send_times = [];
}

abbrev pub both_sent : SendState ℕ
both_sent = state_with ((0, 5) ∷ (1, 5) ∷ [])

abbrev pub none_sent : SendState ℕ
none_sent = state_with []

pub none_sent-IsWindow : IsWindow none_sent
none_sent-IsWindow = record {
  inside = omega arith;
  end_at = refl;
  acked_below = λ i h. absurd (omega arith);
  open_at = λ h. refl;
  sorted = tt;
  timed = λ i h. absurd (cc);
  queued = λ i h. absurd (cc);
}

abbrev engine_with : List (Text × SendState ℕ) → Storage ℕ → SendEngine ℕ
engine_with sends stored = record {
  config = by_two;
  fec_config = no_fec;
  storage = stored;
  src_node_id = b's' ∷ [];
  active_sends = sends;
  chunk_cache = [];
  sent = [];
}

abbrev pub engine : SendEngine ℕ
engine = engine_with ((bundle, both_sent) ∷ []) two_rows

abbrev pub idle_engine : SendEngine ℕ
idle_engine = engine_with ((bundle, none_sent) ∷ []) two_rows

abbrev pub new_engine : SendEngine ℕ
new_engine = engine_with [] empty

abbrev pub world : SendEnv ℕ
world = record { now = 10; send_now = 10; accepts = λ n. true; iterate = λ s. s }

abbrev pub peer : Address
peer = (b'h' ∷ [], 9000)

abbrev pub both_acked : SackMsg
both_acked = record {
  bundle_id = bundle;
  recv_watermark = pos 1;
  sack_bitmap = [];
  acked_chunks = some (0 ∷ 1 ∷ []);
}

abbrev pub a_file : FileEnv
a_file = record { timestamp = 1; fresh_id = bundle; file = SourceFile.readable (1 ∷ 2 ∷ 3 ∷ []) }

abbrev pub file_chunks : List Chunk
file_chunks = data_chunks_of by_two no_fec (1 ∷ 2 ∷ 3 ∷ []) bundle false

abbrev pub engine_after : SendEngine ℕ
engine_after = send_window whole world bundle peer (
    register_transfer whole a_file (b'f' ∷ []) (b'd' ∷ []) false (1 ∷ 2 ∷ 3 ∷ []) file_chunks
      new_engine)
