-- ===== src/Base/Decimals.antt =====
-- A natural number in a template literal.
use Prim.Native.Nat.{ℕ, zero, suc, ◌+◌, ◌/◌, ◌%◌, ◌<◌}
use mathlib.Core.Path.{◌≡◌, refl}
use mathlib.Core.List.{List, [], ◌∷◌, ◌++◌}
use native.Mathlib.Omega.{arith}
use fleet_agent.Base.Tests.{ltb, if◌then◌else◌}

-- the decimal digits of a number; the fuel is the number itself, which has fewer
unfoldable pub decimal_from : ℕ → ℕ → List ℕ
decimal_from zero n = []
decimal_from (suc fuel) n =
    let rest = decimal_from fuel (n / 10) in
    if ltb n 10 then (b'0' + n) ∷ [] else rest ++ (b'0' + n % 10) ∷ []

unfoldable pub decimal : ℕ → List ℕ
unfolding decimal_from
decimal n = decimal_from (suc n) n

pub decimal_digit : (n : ℕ) → n < 10 → decimal n ≡ (b'0' + n) ∷ []
unfolding decimal
decimal_digit n h = ground arith

decimal_test : decimal 1250 ≡ b'1' ∷ b'2' ∷ b'5' ∷ b'0' ∷ []
unfolding decimal
decimal_test = refl
