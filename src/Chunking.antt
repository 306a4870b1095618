-- ===== src/Chunking.antt =====
-- How the send engine cuts a file into chunks and adds parity chunks:
-- `SendEngine._create_chunks` and `SendEngine._generate_fec_chunks` (courier/send_engine.py).
pub mod Slices
pub mod Restoring
pub mod Parity
pub mod Contents
use cs60_final_project.Common.{
  ℕ, zero, suc, ◌+◌, ◌-◌, ◌*◌, ◌/◌, ◌%◌, ◌^◌, min, Bool, true, false, ◌&&◌, Option, none, some,
  List, [], ◌∷◌, ◌++◌, map, Text, Bytes, length, take, drop, range, ltb, ◌==◌, if◌then◌else◌,
}
use cs60_final_project.Common.Crc32.{crc32}
use cs60_final_project.Chunk.{Chunk, Checksum}
use cs60_final_project.Config.{TransferConfig, FecConfig}
use cs60_final_project.Fec.{xor_chunks}
use cs60_final_project.Layout.{ceil_div}

-- file_data[start:end]
abbrev pub slice : ℕ → ℕ → Bytes → Bytes
slice start end bytes = take (end - start) (drop start bytes)

-- The i-th piece of the file.
unfoldable pub piece : ℕ → Bytes → ℕ → Bytes
piece chunk_size file_data i =
    let start = i * chunk_size in
    slice start (min (start + chunk_size) (length file_data)) file_data

-- zlib.crc32(payload) & 0xFFFFFFFF
abbrev pub checksum_of : Bytes → ℕ
checksum_of payload = crc32 payload % 2 ^ 32

-- The body of the loop over the data chunks.
unfoldable pub data_chunk : TransferConfig → FecConfig → Bytes → Text → Bool → ℕ → Chunk
unfolding piece
data_chunk config fec_config file_data bundle_id fec_enabled i =
    let payload = piece config.chunk_size file_data i in
    record {
      bundle_id = bundle_id;
      chunk_id = i;
      is_parity = false;
      block_id = if fec_enabled && ltb 0 fec_config.k then i / fec_config.k else 0;
      k = if fec_enabled then fec_config.k else 0;
      r = if fec_enabled then fec_config.r else 0;
      payload = payload;
      checksum = Checksum.number (checksum_of payload);
      flags = 0;
    }

-- The body of the loop over the r parity chunks of a block.
unfoldable pub parity_chunk : FecConfig → ℕ → ℕ → Bytes → Text → ℕ → Chunk
parity_chunk fec_config num_data_chunks block_id parity_data bundle_id parity_idx = record {
  bundle_id = bundle_id;
  chunk_id = num_data_chunks + block_id * fec_config.r + parity_idx;
  is_parity = true;
  block_id = block_id;
  k = fec_config.k;
  r = fec_config.r;
  payload = parity_data;
  checksum = Checksum.number (checksum_of parity_data);
  flags = 0;
}

-- data_chunks[block_start : block_start + k]
abbrev pub block_chunks : ℕ → List Chunk → ℕ → List Chunk
block_chunks k data_chunks block_start = take k (drop block_start data_chunks)

-- The parity chunks of one block; an empty block is passed over.
abbrev pub parities_of : FecConfig → Text → ℕ → ℕ → List Chunk → List Chunk
parities_of fec_config bundle_id n block_id [] = []
parities_of fec_config bundle_id n block_id (c ∷ cs) =
    map (parity_chunk fec_config n block_id (xor_chunks (c ∷ cs)) bundle_id) (range 0 fec_config.r)

-- for block_start in range(0, num_data_chunks, k), with the blocks left and the next block's number;
-- block_start // k is that number.
unfoldable pub parity_blocks : FecConfig → Text → List Chunk → ℕ → ℕ → List Chunk
unfolding parity_chunk
parity_blocks fec_config bundle_id data_chunks zero block_id = []
parity_blocks fec_config bundle_id data_chunks (suc left) block_id =
    parities_of fec_config bundle_id (length data_chunks) block_id
      (block_chunks fec_config.k data_chunks (block_id * fec_config.k))
    ++ parity_blocks fec_config bundle_id data_chunks left (suc block_id)

-- SendEngine._generate_fec_chunks(data_chunks, bundle_id)
unfoldable pub generate_fec_chunks : FecConfig → List Chunk → Text → List Chunk
unfolding parity_blocks
generate_fec_chunks fec_config data_chunks bundle_id =
    let parity_chunks =
      parity_blocks fec_config bundle_id data_chunks (ceil_div (length data_chunks) fec_config.k)
        0 in
    if ltb 0 fec_config.k && ltb 0 fec_config.r then parity_chunks else []

-- The chunks of the loop over range(num_data_chunks).
unfoldable pub data_chunks_of : TransferConfig → FecConfig → Bytes → Text → Bool → List Chunk
unfolding data_chunk
data_chunks_of config fec_config file_data bundle_id fec_enabled =
    map (data_chunk config fec_config file_data bundle_id fec_enabled)
      (range 0 (ceil_div (length file_data) config.chunk_size))

-- SendEngine._create_chunks on the bytes of the file; `none` is the ZeroDivisionError of a chunk
-- size of zero.
unfoldable pub create_chunks :
    TransferConfig → FecConfig → Bytes → Text → Bool → Option (List Chunk)
create_chunks config fec_config file_data bundle_id fec_enabled =
    let chunks = data_chunks_of config fec_config file_data bundle_id fec_enabled in
    let with_fec =
      fec_enabled && (fec_config.enabled && (ltb 0 fec_config.k && ltb 0 fec_config.r)) in
    if config.chunk_size == 0
    then none
    else some
        (if with_fec then chunks ++ generate_fec_chunks fec_config chunks bundle_id else chunks)
