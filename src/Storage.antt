-- ===== src/Storage.antt =====
-- `SQLiteStorage` (courier/storage.py), behind `StorageAPI` (courier/storage_api.py): the three
-- tables as lists of rows in rowid order, and each method as the SQL statements that it runs. The
-- lock is held for a whole method, so a method is one step. The tables are created empty.
mod Rows
pub mod Tables
pub mod Chunks
pub mod Keys
pub mod Bundles
pub mod Custodies
pub mod Refinement
unfoldable pub use Rows.*
use cs60_final_project.Common.{
  ℕ, zero, suc, ◌+◌, ◌*◌, Bool, true, false, not, ◌&&◌, Option, none, some, List, [], ◌∷◌, ◌++◌,
  map, Text, text_beq, ltb, leb, ◌==◌, if◌then◌else◌,
}
use cs60_final_project.Chunk.{Chunk, Checksum, int_of}

-- `T` is the type of the points of time that `retry_timer` holds.
pub record Storage (T : Type 0) : Type 0 where
  pub bundles : List Bundle
  pub chunks : List Chunk
  pub custody_records : List (CustodyRow T)

abbrev pub empty : {T : Type 0} → Storage T
empty = record { bundles = []; chunks = []; custody_records = [] }

module _ {A : Type 0} where
  -- The rows that a DELETE ... WHERE leaves, or that a SELECT ... WHERE finds.
  abbrev pub keep : (A → Bool) → List A → List A
  keep p [] = []
  keep p (x ∷ xs) = let rest = keep p xs in if p x then x ∷ rest else rest

  -- fetchone() of a SELECT ... WHERE
  abbrev pub find : (A → Bool) → List A → Option A
  find p [] = none
  find p (x ∷ xs) = if p x then some x else find p xs

  -- UPDATE ... WHERE
  abbrev pub update : (A → Bool) → (A → A) → List A → List A
  update p f [] = []
  update p f (x ∷ xs) = (if p x then f x else x) ∷ update p f xs

  -- INSERT OR REPLACE: the row with the key, if there is one, goes, and the new row is the last.
  abbrev pub insert_or_replace : (A → Bool) → A → List A → List A
  insert_or_replace same_key row rows = keep (λ x. not (same_key x)) rows ++ row ∷ []

  -- ORDER BY key: rows with one key stay in rowid order.
  abbrev pub insert_by : (A → A → Bool) → A → List A → List A
  insert_by before x [] = x ∷ []
  insert_by before x (y ∷ ys) = if before y x then y ∷ insert_by before x ys else x ∷ y ∷ ys

  abbrev pub order_by : (A → A → Bool) → List A → List A
  order_by before [] = []
  order_by before (x ∷ xs) = insert_by before x (order_by before xs)

abbrev pub has_bundle_id : Text → Bundle → Bool
has_bundle_id b x = text_beq x.bundle_id b

abbrev pub chunk_of : Text → Chunk → Bool
chunk_of b x = text_beq x.bundle_id b

abbrev pub chunk_at : Text → ℕ → Chunk → Bool
chunk_at b c x = text_beq x.bundle_id b && x.chunk_id == c

abbrev pub has_custody_id : {T : Type 0} → Text → CustodyRow T → Bool
has_custody_id b x = text_beq x.bundle_id b

-- `none` leaves the column alone.
abbrev pub set_bytes_sent : Option ℕ → Bundle → Bundle
set_bytes_sent none x = x
set_bytes_sent (some n) x = record x { bytes_sent = n }

abbrev pub set_chunks_retransmitted : Option ℕ → Bundle → Bundle
set_chunks_retransmitted none x = x
set_chunks_retransmitted (some n) x = record x { chunks_retransmitted = n }

-- ORDER BY created_at DESC
abbrev pub newest_first : Bundle → Bundle → Bool
newest_first x y = ltb y.created_at x.created_at

-- A row of the table `chunks`: the column `checksum` is of type TEXT.
abbrev pub chunk_row : Chunk → Chunk
chunk_row c = record c { checksum = Checksum.digits (int_of c.checksum) }

-- executemany of one INSERT OR REPLACE, in one transaction
abbrev pub insert_chunks : List Chunk → List Chunk → List Chunk
insert_chunks [] rows = rows
insert_chunks (c ∷ cs) rows =
    insert_chunks cs (insert_or_replace (chunk_at c.bundle_id c.chunk_id) (chunk_row c) rows)

-- ORDER BY chunk_id
abbrev pub by_chunk_id : Chunk → Chunk → Bool
by_chunk_id x y = ltb x.chunk_id y.chunk_id

-- (julianday('now') - julianday(created_at)) * 86400 > ttl, with `now` in milliseconds
abbrev pub is_expired : ℕ → Bundle → Bool
is_expired now x = ltb ((x.created_at + x.ttl) * 1000) now

module _ {T : Type 0} where
  -- `now` is CURRENT_TIMESTAMP, in seconds; a new row gets it as `created_at`.
  unfoldable pub save_bundle : ℕ → BundleDict → Storage T → Storage T
  save_bundle now d s = record s {
    bundles = insert_or_replace (has_bundle_id d.bundle_id) (bundle_row now d) s.bundles;
  }

  unfoldable pub load_bundle : Text → Storage T → Option Bundle
  load_bundle b s = find (has_bundle_id b) s.bundles

  unfoldable pub update_bundle_state : Text → BundleState → Storage T → Storage T
  update_bundle_state b new_state s = record s {
    bundles = update (has_bundle_id b) (λ (x : Bundle). record x { state = new_state }) s.bundles;
  }

  unfoldable pub update_bundle_stats : Text → Option ℕ → Option ℕ → Storage T → Storage T
  update_bundle_stats b bytes_sent chunks_retransmitted s = record s {
    bundles =
        update (has_bundle_id b) (set_chunks_retransmitted chunks_retransmitted)
          (update (has_bundle_id b) (set_bytes_sent bytes_sent) s.bundles);
  }

  unfoldable pub list_bundles : Storage T → List Bundle
  list_bundles s = order_by newest_first s.bundles

  unfoldable pub list_bundles_by_state : BundleState → Storage T → List Bundle
  list_bundles_by_state state s =
      order_by newest_first (keep (λ (x : Bundle). state_beq x.state state) s.bundles)

  unfoldable pub save_chunks_bulk : List Chunk → Storage T → Storage T
  save_chunks_bulk cs s = record s { chunks = insert_chunks cs s.chunks }

  unfoldable pub save_chunk : Chunk → Storage T → Storage T
  unfolding save_chunks_bulk
  save_chunk c s = save_chunks_bulk (c ∷ []) s

  unfoldable pub load_chunks_for_bundle : Text → Storage T → List Chunk
  load_chunks_for_bundle b s = order_by by_chunk_id (keep (chunk_of b) s.chunks)

  unfoldable pub save_custody_record : CustodyRow T → Storage T → Storage T
  save_custody_record row s = record s {
    custody_records = insert_or_replace (has_custody_id row.bundle_id) row s.custody_records;
  }

  unfoldable pub load_custody_record : Text → Storage T → Option (CustodyDict T)
  load_custody_record b s = loaded (find (has_custody_id b) s.custody_records)

  unfoldable pub delete_bundle : Text → Storage T → Storage T
  delete_bundle b s = record {
    bundles = keep (λ x. not (has_bundle_id b x)) s.bundles;
    chunks = keep (λ x. not (chunk_of b x)) s.chunks;
    custody_records = keep (λ x. not (has_custody_id b x)) s.custody_records;
  }

  delete_each : List Bundle → Storage T → Storage T
  unfolding delete_bundle
  delete_each [] s = s
  delete_each (x ∷ xs) s = delete_each xs (delete_bundle x.bundle_id s)

  -- The argument `current_time` is not used: the statement asks SQLite for the time.
  unfoldable pub cleanup_expired_bundles : ℕ → Storage T → Storage T
  unfolding delete_each
  cleanup_expired_bundles now s = delete_each (keep (is_expired now) s.bundles) s
