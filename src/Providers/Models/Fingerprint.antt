-- ===== src/Providers/Models/Fingerprint.antt =====
-- use-provider-models.ts: `apiKeyFingerprint`, the 64-bit FNV-1a hash that stands for a key in the
-- cache of queries, over the code units of the key.
use fleet_agent.Base.{
  ℕ, zero, suc, ◌+◌, ◌*◌, ◌/◌, ◌%◌, ◌^◌, ◌<◌, String, ◌≡◌, refl, Option, none, some, List, [], ◌∷◌,
  hex, pad_zeros, count, count-hex, count-pad_zeros, hex_from, arith,
}

-- `a ^ b` of numbers of so many bits
unfoldable pub xor_bits : ℕ → ℕ → ℕ → ℕ
xor_bits zero a b = 0
xor_bits (suc bits) a b = (a + b) % 2 + 2 * xor_bits bits (a / 2) (b / 2)

abbrev pub offset_basis : ℕ
offset_basis = 0xcbf29ce484222325

abbrev pub fnv_prime : ℕ
fnv_prime = 0x100000001b3

-- the loop over the code units; `BigInt.asUintN(64, …)` of each round
unfoldable pub fnv_from : ℕ → List ℕ → ℕ
unfolding xor_bits
fnv_from hash [] = hash
fnv_from hash (unit ∷ rest) = fnv_from ((xor_bits 64 hash unit * fnv_prime) % 2 ^ 64) rest

unfoldable pub api_key_fingerprint : Option (List ℕ) → Option String
unfolding fnv_from
api_key_fingerprint none = none
api_key_fingerprint (some []) = none
api_key_fingerprint (some (unit ∷ rest)) =
    some (pad_zeros 16 (hex (fnv_from offset_basis (unit ∷ rest))))

fnv_from-lt : (hash : ℕ) (key : List ℕ) → hash < 2 ^ 64 → fnv_from hash key < 2 ^ 64
unfolding fnv_from
fnv_from-lt hash [] h = h
fnv_from-lt hash (unit ∷ rest) h =
    fnv_from-lt ((xor_bits 64 hash unit * fnv_prime) % 2 ^ 64) rest (omega arith)

-- The fingerprint of a key that is not empty has exactly 16 hexadecimal digits.
pub api_key_fingerprint-count :
    (unit : ℕ) (rest : List ℕ)
    → (s : String) × (api_key_fingerprint (some (unit ∷ rest)) ≡ some s) × (count s ≡ 16)
unfolding api_key_fingerprint
api_key_fingerprint-count unit rest =
    let hash = fnv_from offset_basis (unit ∷ rest) in
    let small = fnv_from-lt offset_basis (unit ∷ rest) (omega arith) in
    (_, refl, count-pad_zeros 16 (hex hash) (count-hex 15 hash (omega (arith, small))))

-- the published value for the text "a"
fingerprint_test : api_key_fingerprint (some (b'a' ∷ [])) ≡ some "af63dc4c8601ec8c"
unfolding api_key_fingerprint fnv_from xor_bits pad_zeros hex hex_from
fingerprint_test = refl
