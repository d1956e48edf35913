-- ===== src/Providers/OpenRouter/Masking.antt =====
-- openrouter-auth.ts: `maskApiKey`, over UTF-16 code units, and what a masked key shows.
use fleet_agent.Base.{
  ℕ, ◌+◌, ◌-◌, ◌<◌, zero, suc, ◌≡◌, refl, ap, sym, ◌∙◌, false, Option, none, some, List, [], ◌∷◌,
  ◌++◌, take, drop, length, length-append, append_assoc, leb, arith, if◌then◌else◌,
}
use fleet_agent.Threads.Units.{is_blank, trim}

-- eight times "•"
abbrev pub dots : List ℕ
dots = 0x2022 ∷ 0x2022 ∷ 0x2022 ∷ 0x2022 ∷ 0x2022 ∷ 0x2022 ∷ 0x2022 ∷ 0x2022 ∷ []

-- the mask of a trimmed key
unfoldable pub masked : List ℕ → List ℕ
masked key = if leb (length key) 12 then dots else take 8 key ++ dots ++ drop (length key - 4) key

unfoldable pub mask_api_key : Option (List ℕ) → List ℕ
mask_api_key none = []
mask_api_key (some key) = if is_blank key then [] else masked (trim key)

drop-append : (n : ℕ) (xs ys : List ℕ) → n ≡ length xs → drop n (xs ++ ys) ≡ ys
drop-append zero [] ys e = refl
drop-append (suc n) [] ys e = absurd (omega arith)
drop-append zero (x ∷ xs) ys e = absurd (omega arith)
drop-append (suc n) (x ∷ xs) ys e = drop-append n xs ys (omega arith)

take-append : (n : ℕ) (xs ys : List ℕ) → n ≡ length xs → take n (xs ++ ys) ≡ xs
take-append zero [] ys e = refl
take-append (suc n) [] ys e = absurd (omega arith)
take-append zero (x ∷ xs) ys e = absurd (omega arith)
take-append (suc n) (x ∷ xs) ys e = ap (λ (l : List ℕ). x ∷ l) (take-append n xs ys (omega arith))

masked-middle :
    (first middle last : List ℕ)
    → length first ≡ 8
    → length last ≡ 4
    → 0 < length middle
    → masked (first ++ (middle ++ last)) ≡ first ++ dots ++ last
unfolding masked
masked-middle first middle last f l m =
    let whole = first ++ (middle ++ last) in
    let whole_length : length whole ≡ length middle + 12 =
      omega (arith, length-append {0} first (middle ++ last), length-append {0} middle last) in
    let long : leb (length whole) 12 ≡ false = ground arith in
    let ends : drop (length whole - 4) whole ≡ last =
      ap (drop (length whole - 4)) (sym (append_assoc first middle last))
      ∙ drop-append (length whole - 4) (first ++ middle) last
          (omega (arith, length-append {0} first middle)) in
    rw long (rw ends (rw (take-append 8 first (middle ++ last) (sym f)) refl))

trim_nothing : trim [] ≡ []
unfolding trim
trim_nothing = refl

-- A masked key of more than twelve units shows its first eight and its last four, and nothing of what
-- stands between them.
mask_api_key-middle :
    (key first middle last : List ℕ)
    → trim key ≡ first ++ (middle ++ last)
    → length first ≡ 8
    → length last ≡ 4
    → 0 < length middle
    → mask_api_key (some key) ≡ first ++ dots ++ last
unfolding mask_api_key is_blank
mask_api_key-middle [] first middle last e f l m = absurd (
    omega (
      arith,
      length-append {0} first (middle ++ last),
      ap (λ (cs : List ℕ). length cs) (sym trim_nothing ∙ e),
    ))
mask_api_key-middle (c ∷ key) first middle last e f l m =
    rw e (masked-middle first middle last f l m)
