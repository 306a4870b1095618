-- ===== src/Storage/Tables.antt =====
-- The SQL statements on a table, whatever its rows: what a SELECT finds after an INSERT OR
-- REPLACE, an UPDATE, a DELETE and an ORDER BY.
use cs60_final_project.Common.{
  ◌≡◌, refl, Bool, true, false, not, Option, none, some, List, [], ◌∷◌, ◌++◌, arith, if◌then◌else◌,
  Bool-cases, inl, inr, Text, text_beq, text_beq_iff,
}
use cs60_final_project.Storage.{keep, find, update, insert_by, order_by}

module _ {A : Type 0} where
  abbrev pub or_else : Option A → Option A → Option A
  or_else none b = b
  or_else (some a) b = some a

  pub find-append :
      (q : A → Bool) (xs ys : List A) → find q (xs ++ ys) ≡ or_else (find q xs) (find q ys)
  find-append q [] ys = refl
  find-append q (x ∷ xs) ys = ground (arith, find-append q xs ys)

  -- Rows that are dropped and rows that are looked for are others.
  pub find-keep_apart :
      (q p : A → Bool) (xs : List A)
      → ((x : A) → q x ≡ true → p x ≡ false)
      → find q (keep (λ x. not (p x)) xs) ≡ find q xs
  find-keep_apart q p [] h = refl
  find-keep_apart q p (x ∷ xs) h = ground (arith, find-keep_apart q p xs h, h x)

  -- Every row that is looked for is dropped.
  pub find-keep_within :
      (q p : A → Bool) (xs : List A)
      → ((x : A) → q x ≡ true → p x ≡ true)
      → find q (keep (λ x. not (p x)) xs) ≡ none
  find-keep_within q p [] h = refl
  find-keep_within q p (x ∷ xs) h = ground (arith, find-keep_within q p xs h, h x)

  -- A SELECT that all the rows that are looked for pass.
  pub find-keep_selected :
      (q p : A → Bool) (xs : List A)
      → ((x : A) → q x ≡ true → p x ≡ true)
      → find q (keep p xs) ≡ find q xs
  find-keep_selected q p [] h = refl
  find-keep_selected q p (x ∷ xs) h = ground (arith, find-keep_selected q p xs h, h x)

  pub find-keep_excluded :
      (q p : A → Bool) (xs : List A)
      → ((x : A) → q x ≡ true → p x ≡ false)
      → find q (keep p xs) ≡ none
  find-keep_excluded q p [] h = refl
  find-keep_excluded q p (x ∷ xs) h = ground (arith, find-keep_excluded q p xs h, h x)

  pub find-keep-none : (q p : A → Bool) (xs : List A) → find q xs ≡ none → find q (keep p xs) ≡ none
  find-keep-none q p [] h = refl
  find-keep-none q p (x ∷ xs) h = ground (arith, find-keep-none q p xs)

  pub find-holds : (q : A → Bool) (xs : List A) {x : A} → find q xs ≡ some x → q x ≡ true
  find-holds q [] e = cc
  find-holds q (y ∷ xs) {x} e = elim (Bool-cases (q y)) [
    | inl t ↦ let same : y ≡ x = ground arith in rw (← same) t
    | inr f ↦ find-holds q xs (ground arith)
  ]

  pub find-update :
      (q p : A → Bool) (f : A → A) (xs : List A)
      → ((x : A) → q (f x) ≡ q x)
      → find q (update p f xs)
        ≡ elim (find q xs) [ none ↦ none | some x ↦ some (if p x then f x else x) ]
  find-update q p f [] h = refl
  find-update q p f (x ∷ xs) h = ground (arith, find-update q p f xs h, h x)

  module _ (before : A → A → Bool) (q : A → Bool)
      (apart : (x y : A) → q x ≡ true → before y x ≡ true → q y ≡ false) where
    find-insert_by :
        (x : A) (ys : List A) → find q (insert_by before x ys) ≡ (if q x then some x else find q ys)
    find-insert_by x [] = refl
    find-insert_by x (y ∷ ys) = ground (arith, find-insert_by x ys, apart x y)

    -- Sorting by a key does not change which row of one key comes first.
    pub find-order_by : (xs : List A) → find q (order_by before xs) ≡ find q xs
    find-order_by [] = refl
    find-order_by (x ∷ xs) = ground (arith, find-insert_by x (order_by before xs), find-order_by xs)

-- A key column: the table holds at most one row for each key.
abbrev pub IsKeyed : {A : Type 0} → (A → A → Bool) → List A → Type 0
IsKeyed same [] = Unit
IsKeyed same (x ∷ xs) = (find (same x) xs ≡ none) × IsKeyed same xs

-- A DELETE of the rows of one bundle, seen by a query for the rows of some bundle.
pub find-keep_bundle :
    {A : Type 0} (name : A → Text) (q : A → Bool) (b d : Text) (xs : List A)
    → ((x : A) → q x ≡ true → name x ≡ d)
    → find q (keep (λ x. not (text_beq (name x) b)) xs) ≡ (if text_beq b d then none else find q xs)
find-keep_bundle name q b d [] h = ground arith
find-keep_bundle name q b d (x ∷ xs) h =
    ground (arith, find-keep_bundle name q b d xs h, h x, text_beq_iff b d, text_beq_iff (name x) b)

pub or_else-none : {A : Type 0} (o : Option A) → or_else o none ≡ o
or_else-none none = refl
or_else-none (some a) = refl
