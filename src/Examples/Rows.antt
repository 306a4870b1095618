-- ===== src/Examples/Rows.antt =====
-- A storage with two bundles, of which one is over, and some chunks of each.
use cs60_final_project.Common.{ℕ, ◌≡◌, refl, true, false, none, some, List, [], ◌∷◌, Text, Bytes}
use cs60_final_project.Chunk.{Chunk, Checksum}
use cs60_final_project.Storage.{
  Storage, BundleDict, BundleState, bundle_row, find, chunk_at, chunk_row, load_bundle,
  save_chunks_bulk, load_chunks_for_bundle, delete_bundle, cleanup_expired_bundles,
  load_custody_record,
}
use cs60_final_project.Storage.Chunks.{
  stored_chunk, HasChunkKeys, IsAscending, load_chunks_for_bundle-save_chunks_bulk,
  load_chunks_for_bundle-IsAscending,
}
use cs60_final_project.Storage.Refinement.{
  Write, write_all, view_of, view_write_all, view_of-write_all,
}
use cs60_final_project.Storage.Bundles.{delete_bundle_lem, cleanup_expired_bundles_lem}

abbrev dict : Text → ℕ → BundleDict
dict b ttl = record {
  bundle_id = b;
  src = [];
  dst = [];
  ttl = ttl;
  state = BundleState.receiving;
  total_chunks = 3;
  bytes_sent = none;
  chunks_retransmitted = none;
  fec_enabled = some true;
  k = some 2;
  r = some 1;
  file_path = none;
  file_size = none;
}

abbrev row : Text → ℕ → Bytes → Chunk
row b i payload = record {
  bundle_id = b;
  chunk_id = i;
  is_parity = false;
  block_id = 0;
  k = 2;
  r = 1;
  payload = payload;
  checksum = Checksum.number 0;
  flags = 0;
}

abbrev old : Text
old = b'o' ∷ []

abbrev young : Text
young = b'y' ∷ []

-- Made at 10 seconds, with 5 and 500 seconds to live.
abbrev two_bundles : Storage ℕ
two_bundles = record {
  bundles = bundle_row 10 (dict old 5) ∷ bundle_row 10 (dict young 500) ∷ [];
  chunks = row young 1 (4 ∷ []) ∷ row old 0 (5 ∷ []) ∷ row young 0 (6 ∷ []) ∷ [];
  custody_records = [];
}

two_bundles-HasChunkKeys : HasChunkKeys two_bundles
two_bundles-HasChunkKeys = (refl, (refl, (refl, tt)))

load_chunks_for_bundle-save_chunks_bulk_example :
    find (chunk_at young 1) (
      load_chunks_for_bundle young (
        save_chunks_bulk
          (row young 1 (7 ∷ []) ∷ row young 2 (8 ∷ []) ∷ row young 1 (9 ∷ []) ∷ [])
          two_bundles))
    ≡ some (chunk_row (row young 1 (9 ∷ [])))
load_chunks_for_bundle-save_chunks_bulk_example =
    load_chunks_for_bundle-save_chunks_bulk young 1
      (row young 1 (7 ∷ []) ∷ row young 2 (8 ∷ []) ∷ row young 1 (9 ∷ []) ∷ []) two_bundles

load_chunks_for_bundle-IsAscending_example : IsAscending (load_chunks_for_bundle young two_bundles)
load_chunks_for_bundle-IsAscending_example =
    load_chunks_for_bundle-IsAscending young two_bundles two_bundles-HasChunkKeys

delete_bundle_lem_example :
    (load_bundle old (delete_bundle old two_bundles) ≡ none)
    × (stored_chunk old 0 (delete_bundle old two_bundles) ≡ none)
    × (load_custody_record old (delete_bundle old two_bundles) ≡ none)
delete_bundle_lem_example = delete_bundle_lem old old 0 two_bundles

-- At 100 seconds the old bundle goes, and its chunk.
cleanup_expired_bundles_lem_example :
    (load_bundle old (cleanup_expired_bundles 100000 two_bundles) ≡ none)
    × (stored_chunk old 0 (cleanup_expired_bundles 100000 two_bundles) ≡ none)
    × (load_custody_record old (cleanup_expired_bundles 100000 two_bundles) ≡ none)
unfolding load_bundle bundle_row
cleanup_expired_bundles_lem_example =
    cleanup_expired_bundles_lem 100000 old 0 two_bundles (refl, (refl, tt))

-- A bundle is saved, delivered and deleted, and another one saved; then the expired ones go.
abbrev writes : List (Write ℕ)
writes =
    Write.bundle_saved 5 (dict old 10)
    ∷ Write.state_updated old BundleState.delivered
    ∷ Write.chunks_saved (row old 0 (1 ∷ []) ∷ [])
    ∷ Write.bundle_deleted old
    ∷ Write.bundle_saved 6 (dict young 20)
    ∷ Write.expired_removed 20000
    ∷ []

view_of-write_all_example :
    view_of (write_all writes two_bundles) ≡ view_write_all writes (view_of two_bundles)
unfolding bundle_row
view_of-write_all_example = view_of-write_all writes two_bundles (refl, (refl, tt))
