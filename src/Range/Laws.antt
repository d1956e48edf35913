-- ===== src/Range/Laws.antt =====
-- That the helpers stay within their ranges, for every number, NaN included.
use fleet_agent.Base.{
  ℕ, zero, suc, ◌-◌, ◌≤◌, ◌<◌, ◌≡◌, refl, Bool, true, false, Option, none, some, List, [], ◌∷◌,
  length, get_elem?, arith, Bool-cases, inl, inr,
}
use fleet_agent.Base
use fleet_agent.Range.{Floats, clamp, take, index_in, at, progress_of}

module _ (F : Floats) where
  -- A value that was clamped lies between the bounds.
  clamp-le :
      (value : F.N) (m n : ℕ)
      → m ≤ n
      → (F.le (F.from m) (clamp F value (F.from m) (F.from n)) ≡ true)
        × (F.le (clamp F value (F.from m) (F.from n)) (F.from n) ≡ true)
  unfolding clamp
  clamp-le value m n h = elim (Bool-cases (F.is_nan value)) [
    | inl e ↦ rw e (F.from_le m m (omega arith), F.from_le m n h)
    | inr e ↦ rw e (
      F.le_least (F.from n) (F.greatest (F.from m) value) (F.from m) (F.from_le m n h)
          (F.le_greatest (F.from m) value (F.from_not_nan m) e),
      F.least_le (F.from n) (F.greatest (F.from m) value) (F.from_not_nan n)
          (F.greatest_not_nan (F.from m) value (F.from_not_nan m) e),
    )
  ]

  floor_clamp-le : (value : F.N) (n : ℕ) → F.floor (clamp F value (F.from 0) (F.from n)) ≤ n
  floor_clamp-le value n =
      let c = clamp-le value 0 n (omega arith) in
      F.floor_le (clamp F value (F.from 0) (F.from n)) 0 n c.0 c.1

elem_of_lt {ℓ} :
    {A : Type ℓ} (xs : List A) (i : ℕ) → i < length xs → (a : A) × (get_elem? xs i ≡ some a)
elem_of_lt [] i h = absurd (omega arith)
elem_of_lt (x ∷ xs) zero h = (x, refl)
elem_of_lt (x ∷ xs) (suc i) h = elem_of_lt xs i (omega arith)

-- In a list that is not empty `at` finds an item at every index, one that is out of range or NaN
-- included; `take` takes a number of items that there are; and the progress is at most the total.
pub range-stays :
    (F : Floats) (A : Type 0) (a : A) (as_ : List A) (value : F.N) (total : ℕ)
    → ((x : A) × (at F (a ∷ as_) value ≡ some x))
      × ((n : ℕ) × (n ≤ length (a ∷ as_)) × (take F (a ∷ as_) value ≡ Base.take n (a ∷ as_)))
      × (progress_of F value (F.from total) ≤ total)
unfolding at index_in take progress_of
range-stays F A a as_ value total = (
  elem_of_lt (a ∷ as_) (F.floor (clamp F value (F.from 0) (F.from (length (a ∷ as_) - 1))))
      (omega (arith, floor_clamp-le F value (length (a ∷ as_) - 1))),
  (_, floor_clamp-le F value (length (a ∷ as_)), refl),
  elim (Bool-cases (F.is_positive (F.from total))) [
    | inl e ↦ rw e (floor_clamp-le F value total)
    | inr e ↦ rw e (omega arith)
  ],
)
