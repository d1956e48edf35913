-- ===== src/Base/Strings.antt =====
-- What the client uses of JavaScript's strings. A `String` is a list of code points here; the
-- routines that count or cut UTF-16 code units work on `List ℕ` (`units`).
use Prim.Native.Nat.{ℕ}
use Prim.Native.Char.{code}
use Prim.Native.String.{String, [], ◌∷◌}
use mathlib.Core.Path.{◌≡◌, refl}
use mathlib.Core.Bool.{Bool, true, false, not, ◌&&◌, ◌||◌}
use mathlib.Core.Option.{Option, none, some}
use mathlib.Core.List.{List}
use native.Mathlib.Omega.{arith}
use mathlib.Core.Logic.{inl, inr, ◌≢◌}
use text.Mathlib.Text.{◌==◌}
use text.Mathlib.TextEquality.{eq_iff}
use fleet_agent.Base.Tests.{leb, nat_eq, Bool-cases, if◌then◌else◌}

-- The code units of a text without characters above U+FFFF.
abbrev pub units : String → List ℕ
units String.[] = List.[]
units (String.◌∷◌ c s) = List.◌∷◌ (code c) (units s)

-- WhiteSpace and LineTerminator of ECMAScript: what `trim` removes and `\s` matches.
unfoldable pub is_space : ℕ → Bool
is_space c =
    (leb 9 c && leb c 13)
    || nat_eq c 32
    || nat_eq c 0xa0
    || nat_eq c 0x1680
    || (leb 0x2000 c && leb c 0x200a)
    || nat_eq c 0x2028
    || nat_eq c 0x2029
    || nat_eq c 0x202f
    || nat_eq c 0x205f
    || nat_eq c 0x3000
    || nat_eq c 0xfeff

-- a text behind a known one, in a template literal
abbrev pub prefixed : String → String → String
prefixed [] s = s
prefixed (c ∷ p) s = c ∷ prefixed p s

-- `Boolean(s)` of a string or `undefined`
abbrev pub is_empty : String → Bool
is_empty [] = true
is_empty (c ∷ s) = false

abbrev pub given : Option String → Bool
given none = false
given (some s) = not (is_empty s)

-- `replace(/\/+$/, '')`: the text without the slashes at its end
unfoldable pub strip_slashes : String → String
strip_slashes [] = []
strip_slashes (c ∷ s) =
    let rest = strip_slashes s in if nat_eq (code c) b'/' && is_empty rest then [] else c ∷ rest

-- Whether a text ends with a slash.
abbrev pub ends_with_slash : String → Bool
ends_with_slash [] = false
ends_with_slash (c ∷ s) = if is_empty s then nat_eq (code c) b'/' else ends_with_slash s

pub ends_with_slash-strip_slashes : (s : String) → ends_with_slash (strip_slashes s) ≡ false
unfolding strip_slashes
ends_with_slash-strip_slashes [] = refl
ends_with_slash-strip_slashes (c ∷ s) = ground (arith, ends_with_slash-strip_slashes s)

trim_start : String → String
trim_start [] = []
trim_start (c ∷ s) = let rest = trim_start s in if is_space (code c) then rest else c ∷ s

trim_end : String → String
trim_end [] = []
trim_end (c ∷ s) =
    let rest = trim_end s in if is_space (code c) && is_empty rest then [] else c ∷ rest

unfoldable pub trim : String → String
unfolding trim_start trim_end is_space
trim s = trim_end (trim_start s)

trim_end_idem : (s : String) → trim_end (trim_end s) ≡ trim_end s
unfolding trim_end
trim_end_idem [] = refl
trim_end_idem (c ∷ s) = elim (Bool-cases (is_space (code c) && is_empty (trim_end s))) [
  | inl blank ↦ rw blank
  | inr kept ↦ rw (kept, trim_end_idem s, kept)
]

-- A text that does not begin with a space.
abbrev HasNoMargin : String → Type 0
HasNoMargin [] = Unit
HasNoMargin (c ∷ s) = is_space (code c) ≡ false

trim_start-HasNoMargin : (s : String) → HasNoMargin (trim_start s)
unfolding trim_start
trim_start-HasNoMargin [] = tt
trim_start-HasNoMargin (c ∷ s) = ground (arith, trim_start-HasNoMargin s)

trim_end-HasNoMargin : (s : String) → HasNoMargin s → HasNoMargin (trim_end s)
unfolding trim_end
trim_end-HasNoMargin [] h = tt
trim_end-HasNoMargin (c ∷ s) h = ground arith

trim_start_of_HasNoMargin : (s : String) → HasNoMargin s → trim_start s ≡ s
unfolding trim_start
trim_start_of_HasNoMargin [] h = refl
trim_start_of_HasNoMargin (c ∷ s) h = ground arith

-- Trimming a second time changes nothing.
pub trim_idem : (s : String) → trim (trim s) ≡ trim s
trim_idem s =
    unfold trim in
    rw
      (trim_start_of_HasNoMargin (trim_end (trim_start s))
        (trim_end-HasNoMargin (trim_start s) (trim_start-HasNoMargin s)))
      (trim_end_idem (trim_start s))

abbrev pub first : String → ℕ
first [] = 0
first (c ∷ s) = code c

-- Texts that begin with other characters differ.
pub differ_by_first : (a b : String) → first a ≢ first b → (a == b) ≡ false
differ_by_first a b h = ground (arith, eq_iff a b, h)

-- What is left after trimming was there before.
pub nonempty_of_trim : (k : String) → is_empty (trim k) ≡ false → is_empty k ≡ false
unfolding trim
nonempty_of_trim [] h = h
nonempty_of_trim (c ∷ s) h = refl

trim_test : trim " \t sk-1 2\n" ≡ "sk-1 2"
unfolding trim
trim_test = refl

-- The characters that the titles turn on.
pub is_space_table :
    (is_space b' ' ≡ true)
    × (is_space b'\n' ≡ true)
    × (is_space b'\r' ≡ true)
    × (is_space 0x2026 ≡ false)
unfolding is_space
is_space_table = (refl, refl, refl, refl)
