-- ===== src/Providers/OpenRouter/Base64.antt =====
-- openrouter-auth.ts: the base64url text of random bytes or of a digest. Bytes are numbers below
-- 256, and the text is the list of its code units.
use fleet_agent.Base.{
  ℕ, suc, ◌+◌, ◌-◌, ◌*◌, ◌/◌, ◌%◌, ◌<◌, ◌≡◌, refl, ap, Bool, true, false, ◌&&◌, ◌||◌, List, [], ◌∷◌,
  map, length, All, ltb, leb, nat_eq, if◌then◌else◌, arith,
}

unfoldable pub digit : ℕ → ℕ
digit d =
    if ltb d 26
    then b'A' + d
    else if ltb d 52
    then b'a' + (d - 26)
    else if ltb d 62
    then b'0' + (d - 52)
    else if nat_eq d 62
    then b'+'
    else b'/'

-- `btoa`, of ECMAScript's hosts
unfoldable pub btoa : List ℕ → List ℕ
btoa [] = []
btoa (a ∷ []) = digit (a / 4) ∷ digit (a % 4 * 16) ∷ b'=' ∷ b'=' ∷ []
btoa (a ∷ b ∷ []) = digit (a / 4) ∷ digit (a % 4 * 16 + b / 16) ∷ digit (b % 16 * 4) ∷ b'=' ∷ []
btoa (a ∷ b ∷ c ∷ rest) =
    digit (a / 4)
    ∷ digit (a % 4 * 16 + b / 16)
    ∷ digit (b % 16 * 4 + c / 64)
    ∷ digit (c % 64)
    ∷ btoa rest

-- `.replace(/\+/g, '-').replace(/\//g, '_')`
unfoldable pub url_unit : ℕ → ℕ
url_unit c = if nat_eq c b'+' then b'-' else if nat_eq c b'/' then b'_' else c

-- `.replace(/=+$/, '')`
unfoldable pub strip_padding : List ℕ → List ℕ
strip_padding [] = []
strip_padding (c ∷ cs) = elim (strip_padding cs) [
  | [] ↦ if nat_eq c b'=' then [] else c ∷ []
  | d ∷ ds ↦ c ∷ d ∷ ds
]

-- the text of `generateCodeVerifier`, from its random bytes, and of `computeS256Challenge`, from
-- its digest
unfoldable pub base64url : List ℕ → List ℕ
base64url bytes = strip_padding (map url_unit (btoa bytes))

-- The alphabet of base64url, and the byte groups that its digits stand for.
abbrev pub is_url_safe : ℕ → Bool
is_url_safe c =
    (leb b'A' c && leb c b'Z')
    || (leb b'a' c && leb c b'z')
    || (leb b'0' c && leb c b'9')
    || nat_eq c b'-'
    || nat_eq c b'_'

value : ℕ → ℕ
value c =
    if leb b'a' c
    then c - b'a' + 26
    else if nat_eq c b'_'
    then 63
    else if leb b'A' c
    then c - b'A'
    else if leb b'0' c
    then c - b'0' + 52
    else 62

-- A decoder for the round trip.
pub decode : List ℕ → List ℕ
decode (p ∷ q ∷ []) = (value p * 4 + value q / 16) ∷ []
decode (p ∷ q ∷ r ∷ []) = (value p * 4 + value q / 16) ∷ (value q % 16 * 16 + value r / 4) ∷ []
decode (p ∷ q ∷ r ∷ s ∷ rest) =
    (value p * 4 + value q / 16)
    ∷ (value q % 16 * 16 + value r / 4)
    ∷ (value r % 4 * 64 + value s)
    ∷ decode rest
decode _ = []

url_digit : ℕ → ℕ
url_digit d = url_unit (digit d)

value-url_digit : (d : ℕ) → d < 64 → value (url_digit d) ≡ d
unfolding value url_digit url_unit digit
value-url_digit d h = ground arith

url_digit-safe : (d : ℕ) → d < 64 → is_url_safe (url_digit d) ≡ true
unfolding url_digit url_unit digit
url_digit-safe d h = ground arith

url_digit-no_padding : (d : ℕ) → d < 64 → nat_eq (url_digit d) b'=' ≡ false
unfolding url_digit url_unit digit
url_digit-no_padding d h = ground arith

-- The six-bit groups of a byte string.
groups : List ℕ → List ℕ
groups [] = []
groups (a ∷ []) = a / 4 ∷ a % 4 * 16 ∷ []
groups (a ∷ b ∷ []) = a / 4 ∷ (a % 4 * 16 + b / 16) ∷ b % 16 * 4 ∷ []
groups (a ∷ b ∷ c ∷ rest) =
    a / 4 ∷ (a % 4 * 16 + b / 16) ∷ (b % 16 * 4 + c / 64) ∷ c % 64 ∷ groups rest

abbrev pub IsByte : ℕ → Type 0
IsByte b = b < 256

groups-lt : (bs : List ℕ) → All IsByte bs → All (λ d. d < 64) (groups bs)
unfolding groups
groups-lt [] h = tt
groups-lt (a ∷ []) h = omega arith
groups-lt (a ∷ b ∷ []) h = omega arith
groups-lt (a ∷ b ∷ c ∷ rest) (x, (y, (z, h))) =
    (omega arith, (omega arith, (omega arith, (omega arith, groups-lt rest h))))

strip_padding-cons :
    (c : ℕ) (cs : List ℕ) → nat_eq c b'=' ≡ false → strip_padding (c ∷ cs) ≡ c ∷ strip_padding cs
unfolding strip_padding
strip_padding-cons c cs h = ground arith

strip-digit :
    (d : ℕ) (cs : List ℕ)
    → d < 64
    → strip_padding (url_digit d ∷ cs) ≡ url_digit d ∷ strip_padding cs
strip-digit d cs h = strip_padding-cons (url_digit d) cs (url_digit-no_padding d h)

strip_one : strip_padding (url_unit b'=' ∷ []) ≡ []
unfolding strip_padding url_unit
strip_one = refl

strip_two : strip_padding (url_unit b'=' ∷ url_unit b'=' ∷ []) ≡ []
unfolding strip_padding url_unit
strip_two = refl

-- The text holds one digit for each group, and no padding.
base64url-groups : (bs : List ℕ) → All IsByte bs → base64url bs ≡ map url_digit (groups bs)
unfolding base64url btoa groups url_digit
base64url-groups [] h = unfold strip_padding in refl
base64url-groups (a ∷ []) h =
    rw (strip-digit (a / 4) _ (omega arith))
      (rw (strip-digit (a % 4 * 16) _ (omega arith)) (rw strip_two))
base64url-groups (a ∷ b ∷ []) h = rw (strip-digit (a / 4) _ (omega arith)) (
    rw (strip-digit (a % 4 * 16 + b / 16) _ (omega arith))
      (rw (strip-digit (b % 16 * 4) _ (omega arith)) (rw strip_one)))
base64url-groups (a ∷ b ∷ c ∷ rest) (x, (y, (z, h))) = rw (strip-digit (a / 4) _ (omega arith)) (
    rw (strip-digit (a % 4 * 16 + b / 16) _ (omega arith)) (
      rw (strip-digit (b % 16 * 4 + c / 64) _ (omega arith))
        (rw (strip-digit (c % 64) _ (omega arith)) (rw (base64url-groups rest h)))))

decode-groups : (bs : List ℕ) → All IsByte bs → decode (map url_digit (groups bs)) ≡ bs
unfolding decode groups
decode-groups [] h = refl
decode-groups (a ∷ []) h = grind (arith, value-url_digit)
decode-groups (a ∷ b ∷ []) h = grind (arith, value-url_digit)
decode-groups (a ∷ b ∷ c ∷ rest) (x, (y, (z, h))) =
    grind (arith, value-url_digit, decode-groups rest h)

-- The bytes are read back from the text: no two byte strings share a text.
decode-base64url : (bs : List ℕ) → All IsByte bs → decode (base64url bs) ≡ bs
decode-base64url bs h = rw (base64url-groups bs h) (decode-groups bs h)

length-groups : (bs : List ℕ) → length (groups bs) ≡ (length bs * 4 + 2) / 3
unfolding groups
length-groups [] = refl
length-groups (a ∷ []) = refl
length-groups (a ∷ b ∷ []) = refl
length-groups (a ∷ b ∷ c ∷ rest) = omega (arith, length-groups rest)

safe-digits :
    (ds : List ℕ) → All (λ d. d < 64) ds → All (λ c. is_url_safe c ≡ true) (map url_digit ds)
safe-digits [] h = tt
safe-digits (d ∷ ds) (x, h) = (url_digit-safe d x, safe-digits ds h)

length-digits : (ds : List ℕ) → length (map url_digit ds) ≡ length ds
length-digits [] = refl
length-digits (d ∷ ds) = ap suc (length-digits ds)

-- The verifier of 32 bytes, or the challenge of a 32-byte digest, has 43 characters, each a letter, a
-- digit, "-" or "_".
base64url_of_32_bytes :
    (bs : List ℕ)
    → All IsByte bs
    → length bs ≡ 32
    → (length (base64url bs) ≡ 43) × All (λ c. is_url_safe c ≡ true) (base64url bs)
base64url_of_32_bytes bs h n = rw (base64url-groups bs h) (
  omega (arith, length-digits (groups bs), length-groups bs),
  safe-digits (groups bs) (groups-lt bs h),
)
