-- ===== src/Storage/Chunks.antt =====
-- What is read back from the `chunks` table (courier/storage.py).
use cs60_final_project.Common.{
  ℕ, ◌<◌, ◌≡◌, refl, ◌∙◌, Bool, true, false, not, Option, none, some, List, [], ◌∷◌, Text,
  text_beq_iff, arith, ◌==◌, if◌then◌else◌, All, Bool-cases, inl, inr, ◌≢◌,
}
use cs60_final_project.Chunk.{Chunk}
use cs60_final_project.Storage.{
  Storage, keep, find, insert_or_replace, insert_by, order_by, chunk_of, chunk_at, chunk_row,
  insert_chunks, by_chunk_id, save_chunks_bulk, load_chunks_for_bundle,
}
use cs60_final_project.Storage.Tables.{
  or_else, or_else-none, find-append, find-keep_apart, find-keep_within, find-order_by, IsKeyed,
  find-keep_selected, find-keep_excluded, find-keep-none,
}

abbrev pub same_chunk : Chunk → Chunk → Bool
same_chunk c = chunk_at c.bundle_id c.chunk_id

-- The row of one chunk, which `load_chunks_for_bundle` has to deliver.
abbrev pub stored_chunk : {T : Type 0} → Text → ℕ → Storage T → Option Chunk
stored_chunk b i s = find (chunk_at b i) s.chunks

-- The last of the given chunks with a key, as its row.
abbrev pub last_for : Text → ℕ → List Chunk → Option Chunk
last_for b i [] = none
last_for b i (c ∷ cs) =
    or_else (last_for b i cs) (if chunk_at b i c then some (chunk_row c) else none)

same_chunk_of :
    (b : Text) (i : ℕ) (c x : Chunk)
    → chunk_at b i c ≡ true
    → chunk_at b i x ≡ true
    → same_chunk c x ≡ true
same_chunk_of b i c x h k = ground (
  arith,
  text_beq_iff x.bundle_id c.bundle_id,
  text_beq_iff x.bundle_id b,
  text_beq_iff c.bundle_id b,
)

other_chunk_of :
    (b : Text) (i : ℕ) (c x : Chunk)
    → chunk_at b i c ≡ false
    → chunk_at b i x ≡ true
    → same_chunk c x ≡ false
other_chunk_of b i c x h k = ground (
  arith,
  text_beq_iff x.bundle_id c.bundle_id,
  text_beq_iff x.bundle_id b,
  text_beq_iff c.bundle_id b,
)

find-insert_or_replace :
    (b : Text) (i : ℕ) (c : Chunk) (rows : List Chunk)
    → find (chunk_at b i) (insert_or_replace (same_chunk c) c rows)
      ≡ (if chunk_at b i c then some c else find (chunk_at b i) rows)
find-insert_or_replace b i c rows = elim (Bool-cases (chunk_at b i c)) [
  | inl hit ↦ ground (
    arith,
    find-append (chunk_at b i) (keep (λ x. not (same_chunk c x)) rows) (c ∷ []),
    find-keep_within (chunk_at b i) (same_chunk c) rows (λ x h. same_chunk_of b i c x hit h),
  )
  | inr miss ↦ ground (
    arith,
    find-append (chunk_at b i) (keep (λ x. not (same_chunk c x)) rows) (c ∷ []),
    find-keep_apart (chunk_at b i) (same_chunk c) rows (λ x h. other_chunk_of b i c x miss h),
    or_else-none (find (chunk_at b i) rows),
  )
]

pub find-insert_chunks :
    (b : Text) (i : ℕ) (cs rows : List Chunk)
    → find (chunk_at b i) (insert_chunks cs rows)
      ≡ or_else (last_for b i cs) (find (chunk_at b i) rows)
find-insert_chunks b i [] rows = refl
find-insert_chunks b i (c ∷ cs) rows = ground (
  arith,
  find-insert_chunks b i cs (insert_or_replace (same_chunk c) (chunk_row c) rows),
  find-insert_or_replace b i (chunk_row c) rows,
)

-- A chunk with a smaller number is another chunk.
apart :
    (b : Text) (i : ℕ) (x y : Chunk)
    → chunk_at b i x ≡ true
    → by_chunk_id y x ≡ true
    → chunk_at b i y ≡ false
apart b i x y h k = ground arith

-- After a bulk write, `load_chunks_for_bundle` delivers for each chunk of the bundle the last of
-- the written chunks with its key, with the number of its checksum as a text, and for a chunk that
-- was not written the row of before.
pub load_chunks_for_bundle-save_chunks_bulk :
    {T : Type 0} (b : Text) (i : ℕ) (cs : List Chunk) (s : Storage T)
    → find (chunk_at b i) (load_chunks_for_bundle b (save_chunks_bulk cs s))
      ≡ or_else (last_for b i cs) (stored_chunk b i s)
unfolding load_chunks_for_bundle save_chunks_bulk
load_chunks_for_bundle-save_chunks_bulk b i cs s =
    find-order_by by_chunk_id (chunk_at b i) (apart b i)
      (keep (chunk_of b) (insert_chunks cs s.chunks))
    ∙ find-keep_selected (chunk_at b i) (chunk_of b) (insert_chunks cs s.chunks)
        (λ x h. ground arith)
    ∙ find-insert_chunks b i cs s.chunks

-- The chunks of another bundle are not delivered.
pub load_chunks_for_bundle_only :
    {T : Type 0} (b d : Text) (i : ℕ) (s : Storage T)
    → d ≢ b
    → find (chunk_at d i) (load_chunks_for_bundle b s) ≡ none
unfolding load_chunks_for_bundle
load_chunks_for_bundle_only b d i s h =
    find-order_by by_chunk_id (chunk_at d i) (apart d i) (keep (chunk_of b) s.chunks)
    ∙ find-keep_excluded (chunk_at d i) (chunk_of b) s.chunks
        (λ x t. ground (arith, text_beq_iff x.bundle_id b, text_beq_iff x.bundle_id d))

-- The rows of the table: ascending, with no number twice.
abbrev pub IsAscending : List Chunk → Type 0
IsAscending [] = Unit
IsAscending (c ∷ cs) = All (λ (d : Chunk). c.chunk_id < d.chunk_id) cs × IsAscending cs

-- The primary key of the table: (bundle_id, chunk_id).
abbrev pub HasChunkKeys : {T : Type 0} → Storage T → Type 0
HasChunkKeys s = IsKeyed same_chunk s.chunks

abbrev same_number : Chunk → Chunk → Bool
same_number c x = x.chunk_id == c.chunk_id

find-keep_number :
    (b : Text) (c : Chunk) (xs : List Chunk)
    → chunk_of b c ≡ true
    → find (same_number c) (keep (chunk_of b) xs) ≡ find (same_chunk c) xs
find-keep_number b c [] h = refl
find-keep_number b c (x ∷ xs) h = ground (
  arith,
  find-keep_number b c xs h,
  text_beq_iff x.bundle_id c.bundle_id,
  text_beq_iff x.bundle_id b,
  text_beq_iff c.bundle_id b,
)

keep-IsKeyed :
    (b : Text) (xs : List Chunk)
    → IsKeyed same_chunk xs
    → IsKeyed same_number (keep (chunk_of b) xs)
keep-IsKeyed b [] h = tt
keep-IsKeyed b (x ∷ xs) h = ground (arith, find-keep_number b x xs, keep-IsKeyed b xs h.1)

module _ (P : Chunk → Type 0) where
  All-insert_by :
      (x : Chunk) (ys : List Chunk) → P x → All P ys → All P (insert_by by_chunk_id x ys)
  All-insert_by x [] p h = (p, tt)
  All-insert_by x (y ∷ ys) p h = ground (arith, All-insert_by x ys p h.1)

All-above :
    (a b : ℕ) (ys : List Chunk)
    → a < b
    → All (λ (d : Chunk). b < d.chunk_id) ys
    → All (λ (d : Chunk). a < d.chunk_id) ys
All-above a b [] h p = tt
All-above a b (y ∷ ys) h p = (omega arith, All-above a b ys h p.1)

insert_by-IsAscending :
    (x : Chunk) (ys : List Chunk)
    → IsAscending ys
    → find (same_number x) ys ≡ none
    → IsAscending (insert_by by_chunk_id x ys)
insert_by-IsAscending x [] h e = (tt, tt)
insert_by-IsAscending x (y ∷ ys) h e = ground (
  arith,
  insert_by-IsAscending x ys h.1,
  All-insert_by (λ (d : Chunk). y.chunk_id < d.chunk_id) x ys,
  All-above x.chunk_id y.chunk_id ys,
)

order_by-IsAscending :
    (xs : List Chunk) → IsKeyed same_number xs → IsAscending (order_by by_chunk_id xs)
order_by-IsAscending [] h = tt
order_by-IsAscending (x ∷ xs) h =
    insert_by-IsAscending x (order_by by_chunk_id xs) (order_by-IsAscending xs h.1)
      (find-order_by by_chunk_id (same_number x) (λ y z p q. ground arith) xs ∙ h.0)

-- The chunks of a bundle come in ascending order of their numbers, none twice.
pub load_chunks_for_bundle-IsAscending :
    {T : Type 0} (b : Text) (s : Storage T)
    → HasChunkKeys s
    → IsAscending (load_chunks_for_bundle b s)
unfolding load_chunks_for_bundle
load_chunks_for_bundle-IsAscending b s h =
    order_by-IsAscending (keep (chunk_of b) s.chunks) (keep-IsKeyed b s.chunks h)

same_chunk_sym : (c x : Chunk) → same_chunk c x ≡ same_chunk x c
same_chunk_sym c x =
    ground (arith, text_beq_iff x.bundle_id c.bundle_id, text_beq_iff c.bundle_id x.bundle_id)

insert-IsKeyed :
    (c : Chunk) (xs : List Chunk)
    → IsKeyed same_chunk xs
    → IsKeyed same_chunk (insert_or_replace (same_chunk c) c xs)
insert-IsKeyed c [] h = (refl, tt)
insert-IsKeyed c (x ∷ xs) h = ground (
  arith,
  insert-IsKeyed c xs h.1,
  same_chunk_sym c x,
  find-append (same_chunk x) (keep (λ y. not (same_chunk c y)) xs) (c ∷ []),
  find-keep-none (same_chunk x) (λ y. not (same_chunk c y)) xs h.0,
)

insert_chunks-IsKeyed :
    (cs xs : List Chunk) → IsKeyed same_chunk xs → IsKeyed same_chunk (insert_chunks cs xs)
insert_chunks-IsKeyed [] xs h = h
insert_chunks-IsKeyed (c ∷ cs) xs h =
    insert_chunks-IsKeyed cs (insert_or_replace (same_chunk c) (chunk_row c) xs)
      (insert-IsKeyed (chunk_row c) xs h)

-- A bulk write keeps the primary key of the table.
save_chunks_bulk-HasChunkKeys :
    {T : Type 0} (cs : List Chunk) (s : Storage T)
    → HasChunkKeys s
    → HasChunkKeys (save_chunks_bulk cs s)
unfolding save_chunks_bulk
save_chunks_bulk-HasChunkKeys cs s h = insert_chunks-IsKeyed cs s.chunks h
