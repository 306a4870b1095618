-- ===== src/Storage/Refinement.antt =====
-- The storage refines three finite maps (courier/storage.py): bundles and custody records under
-- their bundle id, chunks under bundle id and number. The order of the rows is forgotten.
use cs60_final_project.Common.{
  ℕ, ◌≡◌, refl, ap, ◌∙◌, Bool, Option, none, some, List, [], ◌∷◌, Text, text_beq, if◌then◌else◌,
  not,
}
use cs60_final_project.Chunk.{Chunk}
use cs60_final_project.Storage.{
  Storage, Bundle, BundleDict, BundleState, CustodyRow, CustodyDict, custody_dict, bundle_row,
  set_bytes_sent, set_chunks_retransmitted, save_bundle, load_bundle, update_bundle_state,
  update_bundle_stats, save_chunks_bulk, save_custody_record, load_custody_record, delete_bundle,
  cleanup_expired_bundles, update, has_bundle_id,
}
use cs60_final_project.Storage.Tables.{or_else}
use cs60_final_project.Storage.Chunks.{stored_chunk, last_for, find-insert_chunks}
use cs60_final_project.Storage.Custodies.{load_custody_record-save_custody_record}
use cs60_final_project.Storage.Bundles.{
  load_bundle-save_bundle, load_bundle-update_bundle_state, load_bundle-update_bundle_stats,
  delete_bundle_lem, cleanup_expired_bundles_lem, over, set_bytes_sent-id,
  set_chunks_retransmitted-id,
}
use cs60_final_project.Storage.Keys.{
  HasBundleKeys, insert-IsKeyed, update-IsKeyed, keep-IsKeyed,
  cleanup_expired_bundles-HasBundleKeys,
}

-- A write of the storage.
pub data Write (T : Type 0) : Type 0 where
  bundle_saved : ℕ → BundleDict → Write T
  state_updated : Text → BundleState → Write T
  stats_updated : Text → Option ℕ → Option ℕ → Write T
  chunks_saved : List Chunk → Write T
  custody_saved : CustodyRow T → Write T
  bundle_deleted : Text → Write T
  expired_removed : ℕ → Write T

-- What there is to know of a storage.
pub record View (T : Type 0) : Type 0 where
  pub bundle : Text → Option Bundle
  pub chunk : Text → ℕ → Option Chunk
  pub custody : Text → Option (CustodyDict T)

-- A row, if it is the one, changed.
abbrev pub change : Bool → (Bundle → Bundle) → Option Bundle → Option Bundle
change hit f row = elim row [ none ↦ none | some x ↦ some (if hit then f x else x) ]

abbrev pub stats_set : Option ℕ → Option ℕ → Bundle → Bundle
stats_set bytes_sent chunks_retransmitted x =
    set_chunks_retransmitted chunks_retransmitted (set_bytes_sent bytes_sent x)

module _ {T : Type 0} where
  -- The writes by the program.
  abbrev pub write : Write T → Storage T → Storage T
  write (Write.bundle_saved now dict) s = save_bundle now dict s
  write (Write.state_updated b state) s = update_bundle_state b state s
  write (Write.stats_updated b bytes_sent chunks_retransmitted) s =
      update_bundle_stats b bytes_sent chunks_retransmitted s
  write (Write.chunks_saved cs) s = save_chunks_bulk cs s
  write (Write.custody_saved row) s = save_custody_record row s
  write (Write.bundle_deleted b) s = delete_bundle b s
  write (Write.expired_removed now) s = cleanup_expired_bundles now s

  abbrev pub write_all : List (Write T) → Storage T → Storage T
  write_all [] s = s
  write_all (w ∷ ws) s = write_all ws (write w s)

  -- The writes as they are meant.
  abbrev pub view_write : Write T → View T → View T
  view_write (Write.bundle_saved now dict) v = record v {
    bundle = λ d. if text_beq dict.bundle_id d then some (bundle_row now dict) else v.bundle d;
  }
  view_write (Write.state_updated b state) v = record v {
    bundle = λ d. change (text_beq d b) (λ (x : Bundle). record x { state = state }) (v.bundle d);
  }
  view_write (Write.stats_updated b bytes_sent chunks_retransmitted) v = record v {
    bundle = λ d. change (text_beq d b) (stats_set bytes_sent chunks_retransmitted) (v.bundle d);
  }
  view_write (Write.chunks_saved cs) v = record v {
    chunk = λ d i. or_else (last_for d i cs) (v.chunk d i);
  }
  view_write (Write.custody_saved row) v = record v {
    custody = λ d. if text_beq row.bundle_id d then some (custody_dict row) else v.custody d;
  }
  view_write (Write.bundle_deleted b) v = record {
    bundle = λ d. if text_beq b d then none else v.bundle d;
    chunk = λ d i. if text_beq b d then none else v.chunk d i;
    custody = λ d. if text_beq b d then none else v.custody d;
  }
  view_write (Write.expired_removed now) v = record {
    bundle = λ d. if over now (v.bundle d) then none else v.bundle d;
    chunk = λ d i. if over now (v.bundle d) then none else v.chunk d i;
    custody = λ d. if over now (v.bundle d) then none else v.custody d;
  }

  abbrev pub view_write_all : List (Write T) → View T → View T
  view_write_all [] v = v
  view_write_all (w ∷ ws) v = view_write_all ws (view_write w v)

  abbrev pub view_of : Storage T → View T
  view_of s = record {
    bundle = λ d. load_bundle d s;
    chunk = λ d i. stored_chunk d i s;
    custody = λ d. load_custody_record d s;
  }

  -- A view is its three maps.
  View_ext :
      {u v : View T}
      → ((d : Text) → u.bundle d ≡ v.bundle d)
      → ((d : Text) (i : ℕ) → u.chunk d i ≡ v.chunk d i)
      → ((d : Text) → u.custody d ≡ v.custody d)
      → u ≡ v
  View_ext h k l = λ x. record { bundle = λ d. h d x; chunk = λ d i. k d i x; custody = λ d. l d x }

  write-HasBundleKeys : (w : Write T) (s : Storage T) → HasBundleKeys s → HasBundleKeys (write w s)
  unfolding save_bundle update_bundle_state update_bundle_stats save_chunks_bulk save_custody_record
      delete_bundle bundle_row
  write-HasBundleKeys (Write.bundle_saved now dict) s h =
      insert-IsKeyed (bundle_row now dict) s.bundles h
  write-HasBundleKeys (Write.state_updated b state) s h =
      update-IsKeyed (has_bundle_id b) (λ (x : Bundle). record x { state = state }) s.bundles
        (λ x. refl) h
  write-HasBundleKeys (Write.stats_updated b bytes_sent chunks_retransmitted) s h =
      update-IsKeyed (has_bundle_id b) (set_chunks_retransmitted chunks_retransmitted)
        (update (has_bundle_id b) (set_bytes_sent bytes_sent) s.bundles)
        (set_chunks_retransmitted-id chunks_retransmitted)
        (update-IsKeyed (has_bundle_id b) (set_bytes_sent bytes_sent) s.bundles
          (set_bytes_sent-id bytes_sent) h)
  write-HasBundleKeys (Write.chunks_saved cs) s h = h
  write-HasBundleKeys (Write.custody_saved row) s h = h
  write-HasBundleKeys (Write.bundle_deleted b) s h =
      keep-IsKeyed (λ x. not (has_bundle_id b x)) s.bundles h
  write-HasBundleKeys (Write.expired_removed now) s h =
      cleanup_expired_bundles-HasBundleKeys now s h

  view_of-write :
      (w : Write T) (s : Storage T)
      → HasBundleKeys s
      → view_of (write w s) ≡ view_write w (view_of s)
  unfolding load_bundle load_custody_record save_bundle update_bundle_state update_bundle_stats
      save_chunks_bulk save_custody_record
  view_of-write (Write.bundle_saved now dict) s h =
      View_ext (λ d. load_bundle-save_bundle now dict d s) (λ d i. refl) (λ d. refl)
  view_of-write (Write.state_updated b state) s h =
      View_ext (λ d. load_bundle-update_bundle_state b d state s) (λ d i. refl) (λ d. refl)
  view_of-write (Write.stats_updated b bytes_sent chunks_retransmitted) s h =
      View_ext (λ d. load_bundle-update_bundle_stats b d bytes_sent chunks_retransmitted s)
        (λ d i. refl) (λ d. refl)
  view_of-write (Write.chunks_saved cs) s h =
      View_ext (λ d. refl) (λ d i. find-insert_chunks d i cs s.chunks) (λ d. refl)
  view_of-write (Write.custody_saved row) s h =
      View_ext (λ d. refl) (λ d i. refl) (λ d. load_custody_record-save_custody_record row d s)
  view_of-write (Write.bundle_deleted b) s h =
      View_ext (λ d. (delete_bundle_lem b d 0 s).0) (λ d i. (delete_bundle_lem b d i s).1)
        (λ d. (delete_bundle_lem b d 0 s).2)
  view_of-write (Write.expired_removed now) s h =
      View_ext (λ d. (cleanup_expired_bundles_lem now d 0 s h).0)
        (λ d i. (cleanup_expired_bundles_lem now d i s h).1)
        (λ d. (cleanup_expired_bundles_lem now d 0 s h).2)

  -- Any sequence of writes, the removal of expired bundles among them, does to the three tables what
  -- it does to the maps: what is found under a key afterwards is what the maps hold there, whatever
  -- the order of the rows. The table of bundles has its primary key to begin with.
  pub view_of-write_all :
      (ws : List (Write T)) (s : Storage T)
      → HasBundleKeys s
      → view_of (write_all ws s) ≡ view_write_all ws (view_of s)
  view_of-write_all [] s h = refl
  view_of-write_all (w ∷ ws) s h =
      view_of-write_all ws (write w s) (write-HasBundleKeys w s h)
      ∙ ap (view_write_all ws) (view_of-write w s h)
