-- ===== src/InlineData/Parsers.antt =====
-- What `parseProgress` accepts, and that what it yields is bounded.
use fleet_agent.Base.{
  ℕ, ◌≤◌, String, ◌<◌, ◌≡◌, refl, subst, Option, none, some, List, [], ◌∷◌, take, length, units,
  All, inl, inr, arith, Option-cases,
}
use fleet_agent.Json.{Json, Items, Fields, num, arr, obj, field}
use fleet_agent.Threads.Units.{is_blank}
use fleet_agent.InlineData.{
  and_then, progress_of, map_from, versioned, records, nonempty, PlanStep, GroupedTool, Progress,
  plan_step, grouped_tool, progress_tools, parse_progress,
}
use fleet_agent.InlineData.Bounds.{IsText, field-IsText, indexed-IsText, length-taken, All-taken}

-- An event of version 1 with an array under this key.
abbrev pub IsVersioned : String → Json → Type 0
IsVersioned key value =
    (fs : Fields) × (items : Items) × (value ≡ obj fs)
    × (field "schemaVersion" fs ≡ some (num 1))
    × (field key fs ≡ some (arr items))

pub record IsBoundedStep (s : PlanStep) : Type 0 where
  pub id : IsText 80 s.id
  pub label : IsText 240 s.label

pub record IsBoundedTool (t : GroupedTool) : Type 0 where
  pub id : IsText 80 t.id
  pub name : IsText 80 t.name
  pub target : IsText 240 t.target

pub record IsBoundedProgress (p : Progress) : Type 0 where
  pub some_steps : 0 < length p.steps
  pub few_steps : length p.steps ≤ 4
  pub steps : All IsBoundedStep p.steps
  pub few_tools : length p.tools ≤ 4
  pub tools : All IsBoundedTool p.tools

pub plain-IsText : (limit c : ℕ) (cs : List ℕ) → length cs < limit → IsText limit (c ∷ cs)
unfolding is_blank
plain-IsText limit c cs h = record { visible = refl; short = omega arith }

plan_step-IsBoundedStep : (k : ℕ) (fs : Fields) → k < 4 → IsBoundedStep (plan_step k fs)
plan_step-IsBoundedStep k fs h = record {
  id =
      field-IsText 80 (field "id" fs) _ (
        indexed-IsText 80 k (units "phase-") (omega arith) (unfold is_blank in refl) (omega arith));
  label = field-IsText 240 (field "label" fs) _ (plain-IsText 240 _ _ (omega arith));
}

grouped_tool-IsBoundedTool : (k : ℕ) (fs : Fields) → k < 4 → IsBoundedTool (grouped_tool k fs)
grouped_tool-IsBoundedTool k fs h = record {
  id = field-IsText 80 (field "id" fs) _ (
      indexed-IsText 80 k (units "research-") (omega arith) (unfold is_blank in refl)
        (omega arith));
  name = field-IsText 80 (field "name" fs) _ (plain-IsText 80 _ _ (omega arith));
  target = field-IsText 240 (field "target" fs) _ (plain-IsText 240 _ _ (omega arith));
}

progress_tools_few :
    (o : Option Json) → (length (progress_tools o) ≤ 4) × All IsBoundedTool (progress_tools o)
unfolding progress_tools
progress_tools_few (some (arr items)) = (
  length-taken grouped_tool 4 (records items),
  All-taken IsBoundedTool grouped_tool 4 (records items) grouped_tool-IsBoundedTool,
)
progress_tools_few none = (omega arith, tt)
progress_tools_few (some _) = (omega arith, tt)

pub nonempty-eq-some {ℓ κ} :
    {A : Type ℓ} {B : Type κ} (xs : List A) (b c : B)
    → nonempty xs b ≡ some c
    → (0 < length xs) × (b ≡ c)
nonempty-eq-some [] b c h = cc
nonempty-eq-some (x ∷ xs) b c h = (omega arith, cc)

-- What `versioned` takes is an event of version 1 with an array.
pub versioned-IsVersioned :
    (key : String) (value : Json) (fs : Fields) (items : Items)
    → versioned key value ≡ some (fs, items)
    → IsVersioned key value
unfolding versioned
versioned-IsVersioned key (obj gs) fs items h = elim (Option-cases (field "schemaVersion" gs)) [
  | inl e ↦ ground (arith, e)
  | inr (num n, e) ↦ elim (Option-cases (field key gs)) [
    | inl f ↦ ground (arith, e, f)
    | inr (arr xs, f) ↦ ground (arith, e, f, IsVersioned)
    | inr (j, f) ↦ ground (arith, e, f)
  ]
  | inr (j, e) ↦ ground (arith, e)
]
versioned-IsVersioned key _ fs items h = cc

pub and_then-eq-some {ℓ κ} :
    {A : Type ℓ} {B : Type κ} (o : Option A) (next : A → Option B) (b : B)
    → and_then o next ≡ some b
    → (a : A) × (o ≡ some a) × (next a ≡ some b)
and_then-eq-some none next b h = cc
and_then-eq-some (some a) next b h = (a, refl, h)

progress_of-IsBounded :
    (fs : Fields) (items : Items) (p : Progress)
    → progress_of (fs, items) ≡ some p
    → IsBoundedProgress p
progress_of-IsBounded fs items p h =
    let tools = progress_tools_few (field "tools" fs) in
    let k = nonempty-eq-some (map_from plan_step 0 (take 4 (records items))) _ p h in
    subst IsBoundedProgress k.1 (record {
      some_steps = k.0;
      few_steps = length-taken plan_step 4 (records items);
      steps = All-taken IsBoundedStep plan_step 4 (records items) plan_step-IsBoundedStep;
      few_tools = tools.0;
      tools = tools.1;
    })

-- A progress that is shown was read from an event of version 1, has one to four steps and at most
-- four tools, and every identifier, label, name and target of them is a text that is not empty and
-- within its limit.
pub parse_progress_lem :
    (value : Json) (p : Progress)
    → parse_progress value ≡ some p
    → IsVersioned "steps" value × IsBoundedProgress p
unfolding parse_progress
parse_progress_lem value p h =
    let k = and_then-eq-some (versioned "steps" value) progress_of p h in
    (versioned-IsVersioned "steps" value k.0.0 k.0.1 k.1, progress_of-IsBounded k.0.0 k.0.1 p k.2)
