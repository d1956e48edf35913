-- ===== src/Base/Hex.antt =====
-- Numbers in base 16, and `padStart` with zeros.
use Prim.Native.Nat.{ℕ, zero, suc, ◌+◌, ◌-◌, ◌/◌, ◌%◌, ◌^◌, ◌<◌, ◌≤◌}
use Prim.Native.Char.{Char}
use Prim.Native.String.{String, [], ◌∷◌}
use mathlib.Core.Path.{◌≡◌, refl}
use native.Mathlib.Omega.{arith}
use fleet_agent.Base.Tests.{ltb, if◌then◌else◌}
use fleet_agent.Base.Strings.{prefixed}

abbrev char_at : String → ℕ → Char
char_at [] n = "0"
char_at (c ∷ s) zero = c
char_at (c ∷ s) (suc n) = char_at s n

-- a digit of a number below 16
abbrev pub hex_digit : ℕ → Char
hex_digit n = char_at "0123456789abcdef" n

-- how many characters a text has
abbrev pub count : String → ℕ
count [] = 0
count (c ∷ s) = suc (count s)

-- `n.toString(16)`; a number has fewer digits than the fuel, one more than the number
unfoldable pub hex_from : ℕ → ℕ → String
hex_from zero n = []
hex_from (suc fuel) n =
    let rest = hex_from fuel (n / 16) in
    if ltb n 16 then hex_digit n ∷ [] else prefixed rest (hex_digit (n % 16) ∷ [])

unfoldable pub hex : ℕ → String
unfolding hex_from
hex n = hex_from (suc n) n

abbrev pub zeros : ℕ → String
zeros zero = []
zeros (suc n) = hex_digit 0 ∷ zeros n

-- `s.padStart(width, '0')`
unfoldable pub pad_zeros : ℕ → String → String
pad_zeros width s = prefixed (zeros (width - count s)) s

hex_test : hex 48879 ≡ "beef"
unfolding hex
hex_test = refl

count-prefixed : (s t : String) → count (prefixed s t) ≡ count s + count t
count-prefixed [] t = omega arith
count-prefixed (c ∷ s) t = omega (arith, count-prefixed s t)

count-zeros : (n : ℕ) → count (zeros n) ≡ n
count-zeros zero = refl
count-zeros (suc n) = omega (arith, count-zeros n)

-- A number below a power of 16 has no more digits than the exponent.
count-hex_from : (fuel k n : ℕ) → n < 16 ^ suc k → count (hex_from fuel n) ≤ suc k
unfolding hex_from
count-hex_from zero k n h = omega arith
count-hex_from (suc fuel) zero n h = ground arith
count-hex_from (suc fuel) (suc k) n h =
    let rest = hex_from fuel (n / 16) in
    ground (
      arith,
      count-hex_from fuel k (n / 16) (omega arith),
      count-prefixed rest (hex_digit (n % 16) ∷ []),
    )

pub count-hex : (k n : ℕ) → n < 16 ^ suc k → count (hex n) ≤ suc k
unfolding hex
count-hex k n h = count-hex_from (suc n) k n h

-- A padded text that fits has the width.
pub count-pad_zeros : (width : ℕ) (s : String) → count s ≤ width → count (pad_zeros width s) ≡ width
unfolding pad_zeros
count-pad_zeros width s h =
    omega (arith, count-prefixed (zeros (width - count s)) s, count-zeros (width - count s))
