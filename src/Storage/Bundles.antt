-- ===== src/Storage/Bundles.antt =====
-- The bundle rows: what `load_bundle` finds after each write, and what DELETE and the removal of
-- expired bundles leave of a bundle in the three tables (courier/storage.py).
use cs60_final_project.Common.{
  ℕ, ◌≡◌, refl, ap, ◌∙◌, subst, Bool, true, false, not, Option, none, some, List, [], ◌∷◌, Text,
  text_beq, text_beq_iff, arith, if◌then◌else◌, is_some, inl, inr, Bool-cases,
}
use cs60_final_project.Chunk.{Chunk}
use cs60_final_project.Storage.{
  Storage, loaded, Bundle, BundleDict, BundleState, CustodyRow, bundle_row, keep, find, update,
  has_bundle_id, has_custody_id, chunk_at, save_bundle, load_bundle, update_bundle_state,
  set_bytes_sent, set_chunks_retransmitted, update_bundle_stats, load_custody_record, delete_bundle,
  delete_each, is_expired, cleanup_expired_bundles,
}
use cs60_final_project.Storage.Tables.{or_else-none, find-keep_bundle, find-append, IsKeyed}
use cs60_final_project.Storage.Chunks.{stored_chunk}
use cs60_final_project.Storage.Keys.{HasBundleKeys}

update_rows :
    (b d : Text) (f : Bundle → Bundle) (rows : List Bundle)
    → ((x : Bundle) → (f x).bundle_id ≡ x.bundle_id)
    → find (has_bundle_id d) (update (has_bundle_id b) f rows)
      ≡ elim (find (has_bundle_id d) rows) [
        | none ↦ none
        | some x ↦ some (if text_beq d b then f x else x)
      ]
update_rows b d f [] h = refl
update_rows b d f (x ∷ rows) h = ground (
  arith,
  update_rows b d f rows h,
  h x,
  text_beq_iff x.bundle_id b,
  text_beq_iff x.bundle_id d,
  text_beq_iff d b,
)

-- Whether there is a row, and its time to live is over.
abbrev pub over : ℕ → Option Bundle → Bool
over now none = false
over now (some x) = is_expired now x

find-keep_expired :
    (now : ℕ) (d : Text) (rows : List Bundle)
    → find (has_bundle_id d) rows ≡ none
    → find (has_bundle_id d) (keep (is_expired now) rows) ≡ none
find-keep_expired now d [] h = refl
find-keep_expired now d (x ∷ rows) h = ground (arith, find-keep_expired now d rows)

expired_rows :
    (now : ℕ) (d : Text) (rows : List Bundle)
    → IsKeyed (λ (x y : Bundle). has_bundle_id x.bundle_id y) rows
    → is_some (find (has_bundle_id d) (keep (is_expired now) rows))
      ≡ over now (find (has_bundle_id d) rows)
expired_rows now d [] h = refl
expired_rows now d (x ∷ rows) h = elim (Bool-cases (has_bundle_id d x)) [
  | inl hit ↦
      let same : x.bundle_id ≡ d = (text_beq_iff x.bundle_id d).0 hit in
      let absent : find (has_bundle_id d) rows ≡ none =
        subst (λ (t : Text). find (has_bundle_id t) rows ≡ none) same h.0 in
      ground (arith, find-keep_expired now d rows absent)
  | inr miss ↦ ground (arith, expired_rows now d rows h.1)
]

pub set_bytes_sent-id : (n : Option ℕ) (x : Bundle) → (set_bytes_sent n x).bundle_id ≡ x.bundle_id
set_bytes_sent-id none x = refl
set_bytes_sent-id (some n) x = refl

pub set_chunks_retransmitted-id :
    (n : Option ℕ) (x : Bundle) → (set_chunks_retransmitted n x).bundle_id ≡ x.bundle_id
set_chunks_retransmitted-id none x = refl
set_chunks_retransmitted-id (some n) x = refl

module _ {T : Type 0} where
  loaded-if :
      (gone : Bool) (row : Option (CustodyRow T))
      → loaded (if gone then none else row) ≡ (if gone then none else loaded row)
  loaded-if true row = refl
  loaded-if false row = refl

  -- A state update changes the state of its bundle and no other row or column.
  pub load_bundle-update_bundle_state :
      (b d : Text) (new_state : BundleState) (s : Storage T)
      → load_bundle d (update_bundle_state b new_state s) ≡ elim (load_bundle d s) [
        | none ↦ none
        | some x ↦ some (if text_beq d b then record x { state = new_state } else x)
      ]
  unfolding load_bundle update_bundle_state
  load_bundle-update_bundle_state b d new_state s =
      update_rows b d (λ (x : Bundle). record x { state = new_state }) s.bundles (λ x. refl)

  -- A statistics update changes the two counters of its bundle, those that are given, and no other
  -- row or column.
  pub load_bundle-update_bundle_stats :
      (b d : Text) (bytes_sent chunks_retransmitted : Option ℕ) (s : Storage T)
      → load_bundle d (update_bundle_stats b bytes_sent chunks_retransmitted s)
        ≡ elim (load_bundle d s) [
          | none ↦ none
          | some x ↦ some (
              if text_beq d b
              then set_chunks_retransmitted chunks_retransmitted (set_bytes_sent bytes_sent x)
              else x)
        ]
  unfolding load_bundle update_bundle_stats
  load_bundle-update_bundle_stats b d bytes_sent chunks_retransmitted s = ground (
    arith,
    update_rows b d (set_bytes_sent bytes_sent) s.bundles (set_bytes_sent-id bytes_sent),
    update_rows b d (set_chunks_retransmitted chunks_retransmitted)
        (update (has_bundle_id b) (set_bytes_sent bytes_sent) s.bundles)
        (set_chunks_retransmitted-id chunks_retransmitted),
  )

  -- Deleting a bundle takes its rows out of all three tables, and no other row.
  pub delete_bundle_lem :
      (b d : Text) (i : ℕ) (s : Storage T)
      → let s' = delete_bundle b s in
        (load_bundle d s' ≡ (if text_beq b d then none else load_bundle d s))
        × (stored_chunk d i s' ≡ (if text_beq b d then none else stored_chunk d i s))
        × (load_custody_record d s' ≡ (if text_beq b d then none else load_custody_record d s))
  unfolding delete_bundle load_bundle load_custody_record
  delete_bundle_lem b d i s = (
    find-keep_bundle (λ (x : Bundle). x.bundle_id) (has_bundle_id d) b d s.bundles
        (λ x h. (text_beq_iff x.bundle_id d).0 h),
    find-keep_bundle (λ (x : Chunk). x.bundle_id) (chunk_at d i) b d s.chunks
        (λ x h. (text_beq_iff x.bundle_id d).0 (ground arith)),
    ap loaded (
          find-keep_bundle (λ (x : CustodyRow T). x.bundle_id) (has_custody_id d) b d
            s.custody_records (λ x h. (text_beq_iff x.bundle_id d).0 h))
        ∙ loaded-if (text_beq b d) (find (has_custody_id d) s.custody_records),
  )

  pub load_bundle-save_bundle :
      (now : ℕ) (dict : BundleDict) (d : Text) (s : Storage T)
      → load_bundle d (save_bundle now dict s)
        ≡ (if text_beq dict.bundle_id d then some (bundle_row now dict) else load_bundle d s)
  unfolding load_bundle save_bundle
  load_bundle-save_bundle now dict d s =
      find-append (has_bundle_id d) (keep (λ x. not (has_bundle_id dict.bundle_id x)) s.bundles)
        (bundle_row now dict ∷ [])
      ∙ unfold bundle_row in
        ground (
          arith,
          find-keep_bundle (λ (x : Bundle). x.bundle_id) (has_bundle_id d) dict.bundle_id d
              s.bundles (λ x h. (text_beq_iff x.bundle_id d).0 h),
          or_else-none (find (has_bundle_id d) s.bundles),
        )

  load_bundle-delete_each :
      (d : Text) (xs : List Bundle) (s : Storage T)
      → load_bundle d (delete_each xs s)
        ≡ (if is_some (find (has_bundle_id d) xs) then none else load_bundle d s)
  unfolding delete_each
  load_bundle-delete_each d [] s = refl
  load_bundle-delete_each d (x ∷ xs) s = ground (
    arith,
    load_bundle-delete_each d xs (delete_bundle x.bundle_id s),
    (delete_bundle_lem x.bundle_id d 0 s).0,
  )

  stored_chunk-delete_each :
      (d : Text) (i : ℕ) (xs : List Bundle) (s : Storage T)
      → stored_chunk d i (delete_each xs s)
        ≡ (if is_some (find (has_bundle_id d) xs) then none else stored_chunk d i s)
  unfolding delete_each
  stored_chunk-delete_each d i [] s = refl
  stored_chunk-delete_each d i (x ∷ xs) s = ground (
    arith,
    stored_chunk-delete_each d i xs (delete_bundle x.bundle_id s),
    (delete_bundle_lem x.bundle_id d i s).1,
  )

  load_custody_record-delete_each :
      (d : Text) (xs : List Bundle) (s : Storage T)
      → load_custody_record d (delete_each xs s)
        ≡ (if is_some (find (has_bundle_id d) xs) then none else load_custody_record d s)
  unfolding delete_each
  load_custody_record-delete_each d [] s = refl
  load_custody_record-delete_each d (x ∷ xs) s = ground (
    arith,
    load_custody_record-delete_each d xs (delete_bundle x.bundle_id s),
    (delete_bundle_lem x.bundle_id d 0 s).2,
  )

  -- The removal of expired bundles takes away exactly the bundles whose time is over, with their
  -- chunks and their custody records: of a bundle that is not expired, or that has no row, all three
  -- tables keep what they hold.
  pub cleanup_expired_bundles_lem :
      (now : ℕ) (d : Text) (i : ℕ) (s : Storage T)
      → HasBundleKeys s
      → let s' = cleanup_expired_bundles now s in
        let gone = over now (load_bundle d s) in
        (load_bundle d s' ≡ (if gone then none else load_bundle d s))
        × (stored_chunk d i s' ≡ (if gone then none else stored_chunk d i s))
        × (load_custody_record d s' ≡ (if gone then none else load_custody_record d s))
  unfolding cleanup_expired_bundles load_bundle
  cleanup_expired_bundles_lem now d i s h = (
    load_bundle-delete_each d (keep (is_expired now) s.bundles) s
        ∙ ap (λ t. if t then none else load_bundle d s) (expired_rows now d s.bundles h),
    stored_chunk-delete_each d i (keep (is_expired now) s.bundles) s
        ∙ ap (λ t. if t then none else stored_chunk d i s) (expired_rows now d s.bundles h),
    load_custody_record-delete_each d (keep (is_expired now) s.bundles) s
        ∙ ap (λ t. if t then none else load_custody_record d s) (expired_rows now d s.bundles h),
  )
