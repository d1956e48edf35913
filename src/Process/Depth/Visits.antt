-- ===== src/Process/Depth/Visits.antt =====
-- How many steps there are left to visit, and the depth that a step has.
use fleet_agent.Base.{
  ◌+◌, length-keep-le, ℕ, zero, suc, ◌≤◌, ◌<◌, ◌≡◌, refl, sym, ap, ◌∙◌, subst, String, true, false,
  not, none, some, List, [], ◌∷◌, ◌==◌, any, keep, length, eq_iff, inl, inr, arith, Bool-cases,
}
use mathlib.Core.Option.{some-injective}
use fleet_agent.Process.State.{ProcessStep}
use fleet_agent.Process.Depth.{last_of, truthy_parent, parent_of, is_visiting}

-- The steps whose identifiers are not among those visited.
pub unvisited : List ProcessStep → List String → ℕ
unvisited steps visiting =
    length (keep (λ (s : ProcessStep). not (is_visiting visiting s.id)) steps)

-- The number of steps above a step, whose topmost has no parent.
abbrev pub HasDepth : List ProcessStep → ℕ → String → Type 0
HasDepth steps zero id = parent_of steps id ≡ none
HasDepth steps (suc n) id = (p : String) × (parent_of steps id ≡ some p) × HasDepth steps n p

pub HasDepth-unique :
    (steps : List ProcessStep) (n m : ℕ) (id : String)
    → HasDepth steps n id
    → HasDepth steps m id
    → n ≡ m
HasDepth-unique steps zero zero id h i = refl
HasDepth-unique steps zero (suc m) id h (p, e, i) = cc
HasDepth-unique steps (suc n) zero id (p, e, h) i = cc
HasDepth-unique steps (suc n) (suc m) id (p, e, h) (q, f, i) =
    ap suc
      (HasDepth-unique steps n m q (subst (HasDepth steps n) (some-injective _ _ (sym e ∙ f)) h) i)

unvisited-cons :
    (steps : List ProcessStep) (visiting : List String) (id : String)
    → unvisited steps (id ∷ visiting) ≤ unvisited steps visiting
unfolding unvisited is_visiting
unvisited-cons [] visiting id = omega arith
unvisited-cons (s ∷ rest) visiting id = ground (arith, unvisited-cons rest visiting id)

last_of-any :
    (steps : List ProcessStep) (id : String)
    → any (λ (s : ProcessStep). s.id == id) steps ≡ false
    → last_of (λ (s : ProcessStep). s.id) id steps ≡ none
unfolding last_of
last_of-any [] id h = refl
last_of-any (s ∷ rest) id h = ground (arith, last_of-any rest id)

pub parent_of-any :
    (steps : List ProcessStep) (id p : String)
    → parent_of steps id ≡ some p
    → any (λ (s : ProcessStep). s.id == id) steps ≡ true
parent_of-any steps id p h = elim (Bool-cases (any (λ (s : ProcessStep). s.id == id) steps)) [
  | inl e ↦ e
  | inr e ↦
      let f : truthy_parent none ≡ some p =
        sym (ap truthy_parent (last_of-any steps id e)) ∙ unfold parent_of in h in
      cc
]

-- Visiting the identifier of a step leaves fewer to visit.
pub unvisited-less :
    (steps : List ProcessStep) (visiting : List String) (id : String)
    → is_visiting visiting id ≡ false
    → any (λ (s : ProcessStep). s.id == id) steps ≡ true
    → unvisited steps (id ∷ visiting) < unvisited steps visiting
unfolding unvisited is_visiting
unvisited-less [] visiting id h e = cc
unvisited-less (s ∷ rest) visiting id h e = ground (
  arith,
  unvisited-less rest visiting id h,
  unvisited-cons rest visiting id,
  eq_iff s.id id,
  eq_iff id s.id,
)

-- There are no more steps to visit than there are steps.
pub enough : (steps : List ProcessStep) → unvisited steps [] < length steps + 1
unfolding unvisited
enough steps = omega (arith, length-keep-le (λ (s : ProcessStep). not (is_visiting [] s.id)) steps)
