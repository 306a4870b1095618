-- ===== src/Storage/Keys.antt =====
-- The writes keep the primary key of the table `bundles` (courier/storage.py).
use cs60_final_project.Common.{
  ◌≡◌, refl, sym, ap, subst, Bool, not, none, List, [], ◌∷◌, text_beq, text_beq_iff, arith, ℕ,
}
use cs60_final_project.Storage.{
  Storage, Bundle, keep, find, update, insert_or_replace, has_bundle_id, delete_bundle, delete_each,
  cleanup_expired_bundles, is_expired,
}
use cs60_final_project.Storage.Tables.{IsKeyed, find-append, find-update, find-keep-none}

abbrev same_bundle : Bundle → Bundle → Bool
same_bundle x = has_bundle_id x.bundle_id

-- The primary key of the table `bundles`.
abbrev pub HasBundleKeys : {T : Type 0} → Storage T → Type 0
HasBundleKeys s = IsKeyed same_bundle s.bundles

pub keep-IsKeyed :
    (p : Bundle → Bool) (xs : List Bundle)
    → IsKeyed same_bundle xs
    → IsKeyed same_bundle (keep p xs)
keep-IsKeyed p [] h = tt
keep-IsKeyed p (x ∷ xs) h =
    ground (arith, keep-IsKeyed p xs h.1, find-keep-none (same_bundle x) p xs h.0)

find-update-none :
    (q p : Bundle → Bool) (f : Bundle → Bundle) (xs : List Bundle)
    → ((x : Bundle) → q (f x) ≡ q x)
    → find q xs ≡ none
    → find q (update p f xs) ≡ none
find-update-none q p f xs h e = ground (arith, find-update q p f xs h, e)

pub update-IsKeyed :
    (p : Bundle → Bool) (f : Bundle → Bundle) (xs : List Bundle)
    → ((x : Bundle) → (f x).bundle_id ≡ x.bundle_id)
    → IsKeyed same_bundle xs
    → IsKeyed same_bundle (update p f xs)
update-IsKeyed p f [] h k = tt
update-IsKeyed p f (x ∷ xs) h k =
    let absent =
      find-update-none (same_bundle x) p f xs (λ y. ap (λ b. text_beq b x.bundle_id) (h y)) k.0 in
    let kept : find (same_bundle (f x)) (update p f xs) ≡ none =
      subst (λ b. find (has_bundle_id b) (update p f xs) ≡ none) (sym (h x)) absent in
    ground (arith, update-IsKeyed p f xs h k.1, absent, kept)

pub insert-IsKeyed :
    (row : Bundle) (xs : List Bundle)
    → IsKeyed same_bundle xs
    → IsKeyed same_bundle (insert_or_replace (same_bundle row) row xs)
insert-IsKeyed row [] h = (refl, tt)
insert-IsKeyed row (x ∷ xs) h = ground (
  arith,
  insert-IsKeyed row xs h.1,
  text_beq_iff x.bundle_id row.bundle_id,
  text_beq_iff row.bundle_id x.bundle_id,
  find-append (same_bundle x) (keep (λ y. not (same_bundle row y)) xs) (row ∷ []),
  find-keep-none (same_bundle x) (λ y. not (same_bundle row y)) xs h.0,
)

module _ {T : Type 0} where
  delete_each-HasBundleKeys :
      (xs : List Bundle) (s : Storage T) → HasBundleKeys s → HasBundleKeys (delete_each xs s)
  unfolding delete_each delete_bundle
  delete_each-HasBundleKeys [] s h = h
  delete_each-HasBundleKeys (x ∷ xs) s h =
      delete_each-HasBundleKeys xs (delete_bundle x.bundle_id s)
        (keep-IsKeyed (λ y. not (has_bundle_id x.bundle_id y)) s.bundles h)

  pub cleanup_expired_bundles-HasBundleKeys :
      (now : ℕ) (s : Storage T) → HasBundleKeys s → HasBundleKeys (cleanup_expired_bundles now s)
  unfolding cleanup_expired_bundles
  cleanup_expired_bundles-HasBundleKeys now s h =
      delete_each-HasBundleKeys (keep (is_expired now) s.bundles) s h
