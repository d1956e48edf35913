-- ===== src/Process/Depth.antt =====
-- features/process-panel/run-activity-inline.tsx: how deep a step is nested.
pub mod Visits
pub mod Laws
use fleet_agent.Base.{
  ℕ, zero, suc, ◌+◌, String, Bool, true, false, Option, none, some, List, [], ◌∷◌, ◌==◌, any,
  is_empty, length, if◌then◌else◌,
}
use fleet_agent.Process.State.{ProcessStep}

-- `new Map(list.map((item) => [item.id, …])).get(id)`: the last of the items with the identifier
unfoldable pub last_of {ℓ} : {A : Type ℓ} → (A → String) → String → List A → Option A
last_of name id [] = none
last_of name id (a ∷ rest) = elim (last_of name id rest) [
  | some b ↦ some b
  | none ↦ if name a == id then some a else none
]

-- `stepsById.get(id)?.parentId`, if it is truthy
abbrev pub truthy_parent : Option ProcessStep → Option String
truthy_parent none = none
truthy_parent (some s) = elim s.parent_id [
  | none ↦ none
  | some p ↦ if is_empty p then none else some p
]

unfoldable pub parent_of : List ProcessStep → String → Option String
parent_of steps id = truthy_parent (last_of (λ (s : ProcessStep). s.id) id steps)

-- `depths`: the latest entry first
abbrev pub Depths : Type 0
Depths = List (String × ℕ)

unfoldable pub depth_at : Depths → String → Option ℕ
depth_at [] id = none
depth_at ((k, d) ∷ rest) id = if k == id then some d else depth_at rest id

unfoldable pub is_visiting : List String → String → Bool
is_visiting visiting id = any (λ v. v == id) visiting

-- `depthOf(id, visiting)`, with the depths after it; none when the fuel is not enough
unfoldable pub depth_of : ℕ → List ProcessStep → List String → Depths → String → Option (ℕ × Depths)
depth_of zero steps visiting depths id = none
depth_of (suc fuel) steps visiting depths id = elim (depth_at depths id) [
  | some cached ↦ some (cached, depths)
  | none ↦
      let deeper = depth_of fuel steps (id ∷ visiting) depths in
      if is_visiting visiting id then some (0, depths) else elim (parent_of steps id) [
        | none ↦ some (0, (id, 0) ∷ depths)
        | some parent ↦ elim (deeper parent) [
          | none ↦ none
          | some (d, after) ↦ some (d + 1, (id, d + 1) ∷ after)
        ]
      ]
]

-- `steps.forEach((step) => depthOf(step.id))`
unfoldable pub depths_of_all : ℕ → List ProcessStep → List ProcessStep → Depths → Option Depths
depths_of_all fuel steps [] depths = some depths
depths_of_all fuel steps (s ∷ rest) depths = elim (depth_of fuel steps [] depths s.id) [
  | none ↦ none
  | some (d, after) ↦ depths_of_all fuel steps rest after
]

-- `stepDepthById`; every call but the last visits another step
unfoldable pub step_depths : List ProcessStep → Option Depths
step_depths steps = depths_of_all (length steps + 1) steps steps []
