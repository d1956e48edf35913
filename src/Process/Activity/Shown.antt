-- ===== src/Process/Activity/Shown.antt =====
-- Where the tools and steps of a run are shown.
use fleet_agent.Base.{
  ℕ, ◌≡◌, ◌*◌, refl, String, Bool, true, not, some, List, [], ◌∷◌, ◌==◌, ◌&&◌, map, any, keep, min,
  is_some, All, arith, eq_iff, Option-cases, inl, inr,
}
use fleet_agent.Process.State.{ProcessStep, ToolExecution, AgentWorkspaceState}
use fleet_agent.Process.Depth.{last_of, Depths, depth_at}
use fleet_agent.Process.Depth.Visits.{HasDepth}
use fleet_agent.Process.Depth.Laws.{step_depths-All, depth_at-HasDepth}
use fleet_agent.Process.Notice.{some_of}
use fleet_agent.Process.Activity.{tools_of, is_linked, orphan_tools, step_row, depth_in}

-- A tool with this identifier is in the list.
abbrev pub has_tool : String → List ToolExecution → Bool
has_tool id tools = any (λ (t : ToolExecution). t.id == id) tools

last_of-has_tool :
    (id : String) (calls : List ToolExecution)
    → is_some (last_of (λ (t : ToolExecution). t.id) id calls) ≡ has_tool id calls
unfolding last_of
last_of-has_tool id [] = refl
last_of-has_tool id (t ∷ rest) = ground (arith, last_of-has_tool id rest)

last_of-id :
    (id : String) (calls : List ToolExecution) (t : ToolExecution)
    → last_of (λ (t : ToolExecution). t.id) id calls ≡ some t
    → t.id ≡ id
unfolding last_of
last_of-id id [] t h = cc
last_of-id id (u ∷ rest) t h = elim (Option-cases (last_of (λ (t : ToolExecution). t.id) id rest)) [
  | inl e ↦ ground (arith, e, eq_iff u.id id)
  | inr (b, e) ↦ last_of-id id rest t (ground (arith, e))
]

has_tool-keep :
    (steps : List ProcessStep) (id : String) (calls : List ToolExecution)
    → has_tool id (keep (λ (t : ToolExecution). not (is_linked steps t.id)) calls)
      ≡ (has_tool id calls && not (is_linked steps id))
has_tool-keep steps id [] = refl
has_tool-keep steps id (t ∷ rest) = ground (arith, has_tool-keep steps id rest, eq_iff t.id id)

has_tool-some_of :
    (calls : List ToolExecution) (id : String) (ids : List String)
    → has_tool id (some_of (map (λ i. last_of (λ (t : ToolExecution). t.id) i calls) ids))
      ≡ (any (λ i. i == id) ids && has_tool id calls)
has_tool-some_of calls id [] = refl
has_tool-some_of calls id (i ∷ rest) =
    elim (Option-cases (last_of (λ (t : ToolExecution). t.id) i calls)) [
      | inl e ↦
          rw e (
            ground
              (arith, has_tool-some_of calls id rest, last_of-has_tool i calls, eq_iff i id, e))
      | inr (t, e) ↦ rw e (
          ground (
            arith,
            has_tool-some_of calls id rest,
            last_of-has_tool i calls,
            eq_iff i id,
            e,
            last_of-id i calls t e,
          ))
    ]

-- Some step shows a tool with this identifier.
abbrev pub is_under_step : AgentWorkspaceState → String → Bool
is_under_step state id =
    any (λ (s : ProcessStep). has_tool id (tools_of state.tool_calls s)) state.steps

any_step-has_tool :
    (calls : List ToolExecution) (id : String) (steps : List ProcessStep)
    → any (λ (s : ProcessStep). has_tool id (tools_of calls s)) steps
      ≡ (is_linked steps id && has_tool id calls)
unfolding is_linked tools_of
any_step-has_tool calls id [] = refl
any_step-has_tool calls id (s ∷ rest) =
    ground (arith, any_step-has_tool calls id rest, has_tool-some_of calls id s.tool_call_ids)

both_ways :
    (orphan known linked under : Bool)
    → orphan ≡ (known && not linked)
    → under ≡ (linked && known)
    → known ≡ true
    → orphan ≡ not under
both_ways orphan known linked under k j h = ground arith

-- A tool call of the run is shown in one place: under a step, or among the tool calls that stand for
-- themselves, and never in both.
pub orphan_tools-is_under_step :
    (state : AgentWorkspaceState) (id : String)
    → has_tool id state.tool_calls ≡ true
    → has_tool id (orphan_tools state) ≡ not (is_under_step state id)
orphan_tools-is_under_step state id h =
    let k : has_tool id (orphan_tools state)
        ≡ (has_tool id state.tool_calls && not (is_linked state.steps id)) =
      unfold orphan_tools in has_tool-keep state.steps id state.tool_calls in
    let j = any_step-has_tool state.tool_calls id state.steps in both_ways _ _ _ _ k j h

is_known :
    (ds : Depths) (steps : List ProcessStep) (id : String)
    → All (λ (s : ProcessStep). is_some (depth_at ds s.id) ≡ true) steps
    → any (λ (s : ProcessStep). s.id == id) steps ≡ true
    → is_some (depth_at ds id) ≡ true
is_known ds [] id h e = cc
is_known ds (s ∷ rest) id (f, h) e = ground (arith, f, is_known ds rest id h, eq_iff s.id id)

-- A step whose parents end after n steps is shown at depth n, and moved in by 16 pixels for each of
-- them, but for no more than three.
pub step_row-HasDepth :
    (state : AgentWorkspaceState) (detailed : Bool) (step : ProcessStep) (n : ℕ)
    → any (λ (s : ProcessStep). s.id == step.id) state.steps ≡ true
    → HasDepth state.steps n step.id
    → ((step_row state detailed step).depth ≡ n)
      × ((step_row state detailed step).margin_px ≡ min n 3 * 16)
unfolding step_row depth_in
step_row-HasDepth state detailed step n known h =
    let a = step_depths-All state.steps in
    elim (Option-cases (depth_at a.0 step.id)) [
      | inl e ↦ absurd (let k = is_known a.0 state.steps step.id a.2 known in ground (arith, e))
      | inr (d, e) ↦
          let f = depth_at-HasDepth state.steps a.0 step.id d n a.1 e h in
          rw (a.1, e, f) (refl, refl)
    ]
