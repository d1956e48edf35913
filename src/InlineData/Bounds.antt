-- ===== src/InlineData/Bounds.antt =====
-- What every text and every list that the parsers take over is bounded by.
use fleet_agent.Base.{
  decimal, decimal_digit, ℕ, suc, ◌+◌, ◌≤◌, ◌<◌, ◌≡◌, refl, ap, false, Option, none, some, List, [],
  ◌∷◌, ◌++◌, take, length, length-take, length-append, All, arith,
}
use fleet_agent.Json.{Json, Fields, str}
use fleet_agent.Threads.Units.{utf16, is_blank, trim}
use fleet_agent.InlineData.{text, text_or, map_from}

-- A text that is there and has at most this many units.
pub record IsText (limit : ℕ) (t : List ℕ) : Type 0 where
  pub visible : is_blank t ≡ false
  pub short : length t ≤ limit

pub text-short : (o : Option Json) (limit : ℕ) → length (text o limit) ≤ limit
unfolding text
text-short (some (str s)) limit = omega (arith, length-take {0} limit (trim (utf16 s)))
text-short none limit = omega arith
text-short (some _) limit = omega arith

text_or-IsText :
    (limit : ℕ) (t d : List ℕ) → length t ≤ limit → IsText limit d → IsText limit (text_or t d)
unfolding is_blank
text_or-IsText limit [] d h i = i
text_or-IsText limit (c ∷ cs) d h i = record { visible = refl; short = h }

-- A field's text, or the one that stands in for it.
pub field-IsText :
    (limit : ℕ) (o : Option Json) (d : List ℕ)
    → IsText limit d
    → IsText limit (text_or (text o limit) d)
field-IsText limit o d = text_or-IsText limit (text o limit) d (text-short o limit)

-- A name with the index of an item behind it.
pub indexed-IsText :
    (limit index : ℕ) (name : List ℕ)
    → index < 10
    → is_blank name ≡ false
    → length name + 1 ≤ limit
    → IsText limit (name ++ decimal index)
unfolding is_blank
indexed-IsText limit index [] i v h = cc
indexed-IsText limit index (c ∷ cs) i v h =
    rw (decimal_digit index i)
      (record { visible = refl; short = omega (arith, length-append {0} cs ((b'0' + index) ∷ [])) })

pub length-map_from {ℓ} :
    {A : Type ℓ} (f : ℕ → Fields → A) (index : ℕ) (xs : List Fields)
    → length (map_from f index xs) ≡ length xs
length-map_from f index [] = refl
length-map_from f index (x ∷ xs) = ap suc (length-map_from f (suc index) xs)

pub All-map_from {ℓ κ} :
    {A : Type ℓ} (P : A → Type κ) (f : ℕ → Fields → A) (n index : ℕ) (xs : List Fields)
    → index + length xs ≤ n
    → ((k : ℕ) (x : Fields) → k < n → P (f k x))
    → All P (map_from f index xs)
All-map_from P f n index [] h each = tt
All-map_from P f n index (x ∷ xs) h each =
    (each index x (omega arith), All-map_from P f n (suc index) xs (omega arith) each)

-- The first few records, made into items.
pub length-taken {ℓ} :
    {A : Type ℓ} (f : ℕ → Fields → A) (n : ℕ) (xs : List Fields)
    → length (map_from f 0 (take n xs)) ≤ n
length-taken f n xs = omega (arith, length-map_from f 0 (take n xs), length-take n xs)

pub All-taken {ℓ κ} :
    {A : Type ℓ} (P : A → Type κ) (f : ℕ → Fields → A) (n : ℕ) (xs : List Fields)
    → ((k : ℕ) (x : Fields) → k < n → P (f k x))
    → All P (map_from f 0 (take n xs))
All-taken P f n xs each = All-map_from P f n 0 (take n xs) (omega (arith, length-take n xs)) each
