-- ===== src/Layout.antt =====
-- How a bundle is laid out in chunks: the number of data chunks and of FEC blocks that the sender
-- makes (`SendEngine._create_chunks`, courier/send_engine.py), and the search by which the receiver
-- finds them again (`ReceiveEngine._infer_block_and_data_count`, courier/receive_engine.py).
use native.Mathlib.Nat.{mul-div-le, lt-mul-div-succ, le-div_iff_mul-le, div-le_of_le-mul}
use cs60_final_project.Common.{
  ℕ, zero, suc, ◌+◌, ◌-◌, ◌*◌, ◌/◌, ◌≤◌, ◌<◌, ◌≡◌, ap, ◌∙◌, ltb→lt, Bool, true, ◌&&◌, Option, none,
  some, arith, ltb, leb, if◌then◌else◌, Bool-cases, inl, inr,
}

-- (a + b - 1) // b, the rounded-up quotient
abbrev pub ceil_div : ℕ → ℕ → ℕ
ceil_div a b = (a + b - 1) / b

-- One round of the search: num_data = total_chunks - r * B is positive, and lies in the B-th block.
-- In the source num_data may be negative; then the truncated difference is 0, and both go on.
abbrev pub fits : ℕ → ℕ → ℕ → ℕ → Bool
fits total_chunks k r b =
    let num_data = total_chunks - r * b in
    ltb 0 num_data && (ltb (k * (b - 1)) num_data && leb num_data (k * b))

-- for B in range(1, total_chunks + 1), with the rounds left and the next B
unfoldable pub search_blocks : ℕ → ℕ → ℕ → ℕ → ℕ → Option (ℕ × ℕ)
search_blocks zero b total_chunks k r = none
search_blocks (suc n) b total_chunks k r =
    let later = search_blocks n (suc b) total_chunks k r in
    if fits total_chunks k r b then some (b, total_chunks - r * b) else later

-- ReceiveEngine._infer_block_and_data_count: `none` is (None, None).
unfoldable pub infer_block_and_data_count : ℕ → ℕ → ℕ → Option (ℕ × ℕ)
unfolding search_blocks
infer_block_and_data_count total_chunks k r = search_blocks total_chunks 1 total_chunks k r

-- Chunks of a bundle with parity: the data chunks, and r for each block of k.
abbrev pub with_parity : ℕ → ℕ → ℕ → ℕ
with_parity n k r = n + r * ceil_div n k

abbrev within : ℕ → ℕ → ℕ → Bool
within a lo hi = ltb 0 a && (ltb lo a && leb a hi)

within_sound : (a lo hi : ℕ) → within a lo hi ≡ true → (0 < a) × (lo < a) × (a ≤ hi)
within_sound a lo hi h = ground arith

within_complete : (a lo hi : ℕ) → 0 < a → lo < a → a ≤ hi → within a lo hi ≡ true
within_complete a lo hi p q h = ground arith

-- Two block counts that pass the test are equal: the chunk counts that they stand for lie in
-- disjoint ranges.
fits_gap : (t k r b d : ℕ) → fits t k r b ≡ true → fits t k r (suc (b + d)) ≡ true → ⊥
fits_gap t k r b d h h' =
    let p = within_sound (t - r * b) (k * (b - 1)) (k * b) h in
    let q = within_sound (t - r * suc (b + d)) (k * (suc (b + d) - 1)) (k * suc (b + d)) h' in
    let e : suc (b + d) - 1 ≡ b + d = omega arith in omega (arith, ap (λ (x : ℕ). k * x) e)

fits_unique : (t k r b c : ℕ) → fits t k r b ≡ true → fits t k r c ≡ true → b ≡ c
fits_unique t k r b c h h' = elim (Bool-cases (ltb b c)) [
  | inl less ↦
      let e : suc (b + (c - b - 1)) ≡ c = omega (arith, ltb→lt b c less) in
      absurd (fits_gap t k r b (c - b - 1) h (rw e h'))
  | inr not_less ↦ elim (Bool-cases (ltb c b)) [
    | inl more ↦
        let e : suc (c + (b - c - 1)) ≡ b = omega (arith, ltb→lt c b more) in
        absurd (fits_gap t k r c (b - c - 1) h' (rw e h))
    | inr not_more ↦ ground arith
  ]
]

search_blocks-finds :
    (n b c t k r : ℕ)
    → b ≤ c
    → c < b + n
    → fits t k r c ≡ true
    → search_blocks n b t k r ≡ some (c, t - r * c)
unfolding search_blocks
search_blocks-finds zero b c t k r lo hi h = absurd (omega arith)
search_blocks-finds (suc n) b c t k r lo hi h = elim (Bool-cases (fits t k r b)) [
  | inl hit ↦ let e : b ≡ c = fits_unique t k r b c hit h in rw (hit, e)
  | inr miss ↦ rw miss (search_blocks-finds n (suc b) c t k r (ground arith) (omega arith) h)
]

-- The block count of the sender passes the test.
pub ceil_div_bounds :
    (n k : ℕ)
    → 0 < n
    → 0 < k
    → (k * (ceil_div n k - 1) < n) × (n ≤ k * ceil_div n k) × (1 ≤ ceil_div n k)
ceil_div_bounds n k hn hk =
    let q = (n + k - 1) / k in
    let lower : k * q ≤ n + k - 1 = mul-div-le (n + k - 1) k in
    let upper : n + k - 1 < k * (q + 1) = lt-mul-div-succ (n + k - 1) hk in
    let positive : 1 ≤ q = (le-div_iff_mul-le {k = k} {x = 1} {y = n + k - 1} hk).1 (omega arith) in
    let split : q ≡ suc (q - 1) = omega arith in
    let product : k * q ≡ k * suc (q - 1) = ap (λ (x : ℕ). k * x) split in
    (omega arith, omega arith, positive)

ceil_div-le : (n k : ℕ) → 0 < n → 0 < k → ceil_div n k ≤ n
ceil_div-le zero k hn hk = absurd (omega arith)
ceil_div-le (suc n) zero hn hk = absurd (omega arith)
ceil_div-le (suc n) (suc k) hn hk =
    div-le_of_le-mul (suc k) {m = suc n + suc k - 1} {n = suc n} (omega arith)

-- From the number of chunks that the sender announces for n data chunks with r parity chunks for
-- each block of k, the receiver finds the sender's number of blocks, and n.
pub infer_block_and_data_count-with_parity :
    (n k r : ℕ)
    → 0 < n
    → 0 < k
    → infer_block_and_data_count (with_parity n k r) k r ≡ some (ceil_div n k, n)
unfolding infer_block_and_data_count
infer_block_and_data_count-with_parity n k r hn hk =
    let b = ceil_div_bounds n k hn hk in
    let e : with_parity n k r - r * ceil_div n k ≡ n = omega arith in
    search_blocks-finds (with_parity n k r) 1 (ceil_div n k) (with_parity n k r) k r b.2
      (omega (arith, ceil_div-le n k hn hk)) (rw e (within_complete n _ _ hn b.0 b.1))
    ∙ rw e
