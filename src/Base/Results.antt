-- ===== src/Base/Results.antt =====
-- A call that returns or throws.
use mathlib.Core.Path.{◌≡◌, refl}

-- How a call ends: what it threw, or what it returned.
pub data Result {ℓ} (Thrown Returned : Type ℓ) : Type ℓ where
  err : Thrown → Result Thrown Returned
  ok : Returned → Result Thrown Returned

infixl 5 ◌>>=◌
-- The code after a call, which a throw skips.
abbrev pub ◌>>=◌ {ℓ} :
    {Thrown R S : Type ℓ} → Result Thrown R → (R → Result Thrown S) → Result Thrown S
err thrown >>= next = err thrown
ok returned >>= next = next returned

-- Inversion of a successful chain.
pub >>=-eq-ok {ℓ} :
    {Thrown R S : Type ℓ} (call : Result Thrown R) (next : R → Result Thrown S) {s : S}
    → (call >>= next) ≡ ok s
    → (r : R) × (call ≡ ok r) × (next r ≡ ok s)
>>=-eq-ok (ok r) next h = (r, refl, h)
>>=-eq-ok (err thrown) next h = cc
