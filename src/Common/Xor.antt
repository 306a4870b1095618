-- ===== src/Common/Xor.antt =====
-- Laws of the native `bit_xor` at variables, from its recursion on binary digits.
use Prim.Native.Nat.{
  ℕ, zero, suc, ◌+◌, ◌-◌, ◌*◌, ◌/◌, ◌%◌, ◌≤◌, ◌<◌, bit_xor, digits, bit_xor-bitwise, differ,
}
use mathlib.Core.Path.{◌≡◌, refl, sym, ap, ◌∙◌}
use native.Mathlib.Omega.{arith}
use native.Mathlib.Nat.{le_refl}

abbrev xor_rounds : ℕ → ℕ → ℕ → ℕ
xor_rounds rounds a b = digits (λ y. y) differ rounds a b

-- A round more changes nothing when there are as many rounds as the number is large.
one_more : (rounds a b : ℕ) → a ≤ rounds → xor_rounds (suc rounds) a b ≡ xor_rounds rounds a b
one_more zero zero b enough = refl
one_more zero (suc a) b enough = absurd (omega arith)
one_more (suc rounds) zero b enough = refl
one_more (suc rounds) (suc a) b enough =
    ap (λ t. t * 2 + differ (suc a % 2) (b % 2)) (one_more rounds (suc a / 2) (b / 2) (omega arith))

spare : (extra a b : ℕ) → xor_rounds (extra + a) a b ≡ xor_rounds a a b
spare zero a b = ap (λ t. xor_rounds t a b) (omega arith)
spare (suc extra) a b =
    let e : suc extra + a ≡ suc (extra + a) = omega arith in
    ap (λ t. xor_rounds t a b) e ∙ one_more (extra + a) a b (omega arith) ∙ spare extra a b

differ_bits : (x y : ℕ) → x < 2 → y < 2 → differ x y ≡ (x + y) % 2
differ_bits zero y p q = omega arith
differ_bits (suc x) zero p q = omega arith
differ_bits (suc zero) (suc zero) p q = refl
differ_bits (suc zero) (suc (suc y)) p q = absurd (omega arith)
differ_bits (suc (suc x)) (suc y) p q = absurd (omega arith)

differ_digits : (a b : ℕ) → differ (a % 2) (b % 2) ≡ (a + b) % 2
differ_digits a b = differ_bits (a % 2) (b % 2) (omega arith) (omega arith) ∙ omega arith

bit_xor_step : (a b : ℕ) → bit_xor a b ≡ bit_xor (a / 2) (b / 2) * 2 + (a + b) % 2
bit_xor_step zero b = simp bit_xor-bitwise (omega arith)
bit_xor_step (suc a) b =
    let q = suc a / 2 in
    let split : a ≡ (a - q) + q = omega arith in
    simp bit_xor-bitwise (
      ap (λ t. xor_rounds t q (b / 2) * 2 + differ (suc a % 2) (b % 2)) split
      ∙ ap (λ t. t * 2 + differ (suc a % 2) (b % 2)) (spare (a - q) q (b / 2))
      ∙ ap (λ t. xor_rounds q q (b / 2) * 2 + t) (differ_digits (suc a) b))

half-bit_xor : (a b : ℕ) → bit_xor a b / 2 ≡ bit_xor (a / 2) (b / 2)
half-bit_xor a b = omega (arith, bit_xor_step a b)

parity-bit_xor : (a b : ℕ) → bit_xor a b % 2 ≡ (a + b) % 2
parity-bit_xor a b = omega (arith, bit_xor_step a b)

-- Two numbers with equal halves and equal last digits are equal.
eq_of_digits : (a b : ℕ) → a / 2 ≡ b / 2 → a % 2 ≡ b % 2 → a ≡ b
eq_of_digits a b p q = omega arith

comm_fuel : (n a b : ℕ) → a + b ≤ n → bit_xor a b ≡ bit_xor b a
comm_fuel zero zero zero h = refl
comm_fuel zero zero (suc b) h = absurd (omega arith)
comm_fuel zero (suc a) b h = absurd (omega arith)
comm_fuel (suc n) zero zero h = refl
comm_fuel (suc n) a b h =
    omega (arith, bit_xor_step a b, bit_xor_step b a, comm_fuel n (a / 2) (b / 2) (omega arith))

pub bit_xor_comm : (a b : ℕ) → bit_xor a b ≡ bit_xor b a
bit_xor_comm a b = comm_fuel (a + b) a b (le_refl _)

self_fuel : (n a : ℕ) → a ≤ n → bit_xor a a ≡ 0
self_fuel n zero h = refl
self_fuel zero (suc a) h = absurd (omega arith)
self_fuel (suc n) (suc a) h =
    omega (arith, bit_xor_step (suc a) (suc a), self_fuel n (suc a / 2) (omega arith))

pub bit_xor_self : (a : ℕ) → bit_xor a a ≡ 0
bit_xor_self a = self_fuel a a (le_refl _)

pub zero-bit_xor : (a : ℕ) → bit_xor 0 a ≡ a
zero-bit_xor a = bit_xor-bitwise 0 a

pub bit_xor-zero : (a : ℕ) → bit_xor a 0 ≡ a
bit_xor-zero a = bit_xor_comm a 0 ∙ zero-bit_xor a

assoc_fuel : (n a b c : ℕ) → a + b + c ≤ n → bit_xor (bit_xor a b) c ≡ bit_xor a (bit_xor b c)
assoc_fuel zero zero zero c h = simp (zero-bit_xor)
assoc_fuel zero zero (suc b) c h = absurd (omega arith)
assoc_fuel zero (suc a) b c h = absurd (omega arith)
assoc_fuel (suc n) zero zero c h = simp (zero-bit_xor)
assoc_fuel (suc n) a b c h =
    eq_of_digits _ _ (simp half-bit_xor (assoc_fuel n (a / 2) (b / 2) (c / 2) (omega arith))) (
      omega (
        arith,
        parity-bit_xor (bit_xor a b) c,
        parity-bit_xor a (bit_xor b c),
        parity-bit_xor a b,
        parity-bit_xor b c,
      ))

pub bit_xor_assoc : (a b c : ℕ) → bit_xor (bit_xor a b) c ≡ bit_xor a (bit_xor b c)
bit_xor_assoc a b c = assoc_fuel (a + b + c) a b c (le_refl _)

-- A value that is mixed in twice falls out.
pub bit_xor_cancel : (a b : ℕ) → bit_xor a (bit_xor a b) ≡ b
bit_xor_cancel a b = simp (← bit_xor_assoc, bit_xor_self, zero-bit_xor)

pub bit_xor_left_comm : (a b c : ℕ) → bit_xor a (bit_xor b c) ≡ bit_xor b (bit_xor a c)
bit_xor_left_comm a b c =
    sym (bit_xor_assoc a b c) ∙ ap (λ t. bit_xor t c) (bit_xor_comm a b) ∙ bit_xor_assoc b a c
