-- ===== src/Range.antt =====
-- lib/range.ts, over what it uses of JavaScript's numbers.
pub mod Laws
use fleet_agent.Base.{
  ℕ, ◌-◌, ◌≤◌, ◌≡◌, Bool, true, false, Option, none, some, List, [], ◌∷◌, length, get_elem?,
  if◌then◌else◌,
}
use fleet_agent.Base

-- Numbers with their order, and laws of them that IEEE 754 gives: `least` and `greatest` are
-- `Math.min` and `Math.max`, `from` a count as a number, and `floor` is that of a number from 0 on.
pub record Floats : Type 1 where
  pub N : Type 0
  pub is_nan : N → Bool
  pub le : N → N → Bool
  pub least : N → N → N
  pub greatest : N → N → N
  pub from : ℕ → N
  pub floor : N → ℕ
  pub percent : N → N → N  -- `(value / total) * 100`
  pub is_positive : N → Bool  -- `total > 0`
  pub from_not_nan : (n : ℕ) → is_nan (from n) ≡ false
  pub from_le : (m n : ℕ) → m ≤ n → le (from m) (from n) ≡ true
  pub greatest_not_nan :
      (a b : N) → is_nan a ≡ false → is_nan b ≡ false → is_nan (greatest a b) ≡ false
  pub le_greatest : (a b : N) → is_nan a ≡ false → is_nan b ≡ false → le a (greatest a b) ≡ true
  pub least_le : (a b : N) → is_nan a ≡ false → is_nan b ≡ false → le (least a b) a ≡ true
  pub le_least : (a b c : N) → le c a ≡ true → le c b ≡ true → le c (least a b) ≡ true
  pub floor_le : (x : N) (m n : ℕ) → le (from m) x ≡ true → le x (from n) ≡ true → floor x ≤ n

module _ (F : Floats) where
  unfoldable pub clamp : F.N → F.N → F.N → F.N
  clamp value lo hi = if F.is_nan value then lo else F.least hi (F.greatest lo value)

  unfoldable pub take {ℓ} : {A : Type ℓ} → List A → F.N → List A
  unfolding clamp
  take items count = Base.take (F.floor (clamp count (F.from 0) (F.from (length items)))) items

  unfoldable pub index_in {ℓ} : {A : Type ℓ} → List A → F.N → ℕ
  unfolding clamp
  index_in items index = F.floor (clamp index (F.from 0) (F.from (length items - 1)))

  unfoldable pub at {ℓ} : {A : Type ℓ} → List A → F.N → Option A
  unfolding index_in
  at [] index = none
  at (a ∷ as_) index = get_elem? (a ∷ as_) (index_in (a ∷ as_) index)

  unfoldable pub pct : F.N → F.N → F.N
  unfolding clamp
  pct value total =
      if F.is_positive total
      then clamp (F.percent value total) (F.from 0) (F.from 100)
      else F.from 0

  unfoldable pub progress_of : F.N → F.N → ℕ
  unfolding clamp
  progress_of index total =
      if F.is_positive total then F.floor (clamp index (F.from 0) total) else 0
