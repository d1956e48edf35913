-- ===== src/InlineData/Views/Laws.antt =====
-- That the plan which is shown counts what it marks.
use fleet_agent.Base.{
  ℕ, suc, ◌≤◌, ◌≡◌, refl, subst, Bool, true, false, some, List, [], ◌∷◌, length, length-keep-le,
  keep, map, ℤ, arith, Option-cases, inl, inr,
}
use fleet_agent.Json.{Json}
use fleet_agent.Range.{Floats}
use fleet_agent.InlineData.{PlanStatus, PlanStep, Progress, parse_progress}
use fleet_agent.InlineData.Views.{
  Mark, check, is_completed, marks_from, PlanView, agent_plan, InlineProgressView, progress_view,
  inline_progress,
}
use mathlib.Core.Option.{some-injective}
use fleet_agent.InlineData.Parsers.{parse_progress_lem}

abbrev pub is_check : Mark × List ℕ → Bool
is_check (check, step) = true
is_check _ = false

length-marks :
    (all_done : Bool) (completed i : ℕ) (steps : List (List ℕ)) (statuses : List PlanStatus)
    → length (marks_from all_done completed i steps statuses) ≡ length steps
unfolding marks_from
length-marks all_done completed i [] statuses = refl
length-marks all_done completed i (step ∷ steps) [] =
    omega (arith, length-marks all_done completed (suc i) steps [])
length-marks all_done completed i (step ∷ steps) (status ∷ statuses) =
    omega (arith, length-marks all_done completed (suc i) steps statuses)

checked_marks :
    (all_done : Bool) (completed i : ℕ) (steps : List PlanStep)
    → length (
        keep is_check (
          marks_from all_done completed i
            (map (λ (s : PlanStep). s.label) steps)
            (map (λ (s : PlanStep). s.status) steps)))
      ≡ length (keep is_completed (map (λ (s : PlanStep). s.status) steps))
unfolding marks_from
checked_marks all_done completed i [] = refl
checked_marks all_done completed i (s ∷ steps) =
    ground (arith, checked_marks all_done completed (suc i) steps)

length-map {ℓ κ} :
    {A : Type ℓ} {B : Type κ} (f : A → B) (xs : List A) → length (map f xs) ≡ length xs
length-map f [] = refl
length-map f (x ∷ xs) = omega (arith, length-map f xs)

-- What the head of a plan says of its rows.
pub record Counts (F : Floats) (v : PlanView F) : Type 0 where
  pub rows : length v.rows ≡ v.total
  pub checked : length (keep is_check v.rows) ≡ v.completed
  pub bounded : v.completed ≤ v.total
  pub few : v.total ≤ 4

progress_view-Counts :
    (F : Floats) (of_int : ℤ → F.N) (is_open : Bool) (p : Progress)
    → length p.steps ≤ 4
    → Counts F (progress_view F of_int is_open p).plan
unfolding agent_plan
progress_view-Counts F of_int is_open p h =
    let labels = map (λ (s : PlanStep). s.label) p.steps in
    let statuses = map (λ (s : PlanStep). s.status) p.steps in
    record {
      rows = length-marks _ _ 0 labels statuses;
      checked = checked_marks _ _ 0 p.steps;
      bounded = omega (
        arith,
        length-keep-le is_completed statuses,
        length-map (λ (s : PlanStep). s.status) p.steps,
        length-map (λ (s : PlanStep). s.label) p.steps,
      );
      few = omega (arith, length-map (λ (s : PlanStep). s.label) p.steps);
    }

-- Whatever event the agent sends: a plan that is shown has one row for each step, at most four, and
-- the number of completed steps in its head is the number of rows with a check mark.
pub inline_progress-Counts :
    (F : Floats) (of_int : ℤ → F.N) (is_open : Bool) (value : Json)
    (v : InlineProgressView F of_int)
    → inline_progress F of_int is_open value ≡ some v
    → Counts F v.plan
unfolding inline_progress
inline_progress-Counts F of_int is_open value v h = elim (Option-cases (parse_progress value)) [
  | inl e ↦ cc (rw (e, inline_progress) at h)
  | inr (p, e) ↦
      let shown : progress_view F of_int is_open p ≡ v =
        some-injective _ _ (rw (e, inline_progress) at h) in
      subst (λ (w : InlineProgressView F of_int). Counts F w.plan) shown
        (progress_view-Counts F of_int is_open p (parse_progress_lem value p e).1.few_steps)
]
