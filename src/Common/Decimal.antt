-- ===== src/Common/Decimal.antt =====
-- str(n) of a non-negative number: its decimal digits. The fuel n + 1 is more than the digits need.
use Prim.Native.Nat.{ℕ, zero, suc, ◌+◌, ◌/◌, ◌%◌}
use mathlib.Core.Path.{◌≡◌, refl}
use mathlib.Core.List.{[], ◌∷◌, ◌++◌}
use cs60_final_project.Common.Tests.{Text, if◌then◌else◌, ltb}

digits : ℕ → ℕ → Text
digits zero n = []
digits (suc f) n =
    let more = digits f (n / 10) ++ (48 + n % 10) ∷ [] in if ltb n 10 then (48 + n) ∷ [] else more

unfoldable pub decimal : ℕ → Text
unfolding digits
decimal n = digits (suc n) n

decimal_port : decimal 5001 ≡ b'5' ∷ b'0' ∷ b'0' ∷ b'1' ∷ []
unfolding decimal
decimal_port = refl
