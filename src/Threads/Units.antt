-- ===== src/Threads/Units.antt =====
-- Texts as UTF-16 code units: what `thread-title.ts` and `maskApiKey` use of `String.prototype`.
use Prim.Native.Char.{code}
use fleet_agent.Base.{
  ℕ, ◌+◌, ◌-◌, ◌/◌, ◌%◌, String, ◌≡◌, Bool, true, false, ◌&&◌, List, [], ◌∷◌, ltb, nat_eq, ◌↔◌,
  is_space, if◌then◌else◌, arith,
}

unfoldable pub utf16 : String → List ℕ
utf16 String.[] = []
utf16 (String.◌∷◌ c s) =
    let rest = utf16 s in
    if ltb (code c) 0x10000
    then code c ∷ rest
    else (0xd800 + (code c - 0x10000) / 0x400) ∷ (0xdc00 + (code c - 0x10000) % 0x400) ∷ rest

unfoldable pub is_blank : List ℕ → Bool
is_blank [] = true
is_blank (c ∷ cs) = false

unfoldable pub same : List ℕ → List ℕ → Bool
same [] [] = true
same (a ∷ as_) (b ∷ bs) = nat_eq a b && same as_ bs
same _ _ = false

unfoldable pub trim_start : List ℕ → List ℕ
trim_start [] = []
trim_start (c ∷ cs) = let rest = trim_start cs in if is_space c then rest else c ∷ cs

unfoldable pub trim_end : List ℕ → List ℕ
unfolding is_blank
trim_end [] = []
trim_end (c ∷ cs) = let rest = trim_end cs in if is_space c && is_blank rest then [] else c ∷ rest

unfoldable pub trim : List ℕ → List ℕ
unfolding trim_start trim_end
trim cs = trim_end (trim_start cs)

pub same_iff : (xs ys : List ℕ) → (same xs ys ≡ true) ↔ (xs ≡ ys)
unfolding same
same_iff [] [] = ground arith
same_iff [] (y ∷ ys) = ground arith
same_iff (x ∷ xs) [] = ground arith
same_iff (x ∷ xs) (y ∷ ys) = ground (arith, same_iff xs ys)
