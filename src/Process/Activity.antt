-- ===== src/Process/Activity.antt =====
-- features/process-panel/run-activity-inline.tsx: the card of a run's activity.
pub mod Shown
pub mod Toggles
use fleet_agent.Base.{
  ℕ, ◌+◌, ◌-◌, ◌*◌, suc, min, String, Bool, true, false, not, Option, none, some, List, [], ◌∷◌,
  ◌++◌, ◌==◌, ◌&&◌, ◌||◌, map, any, keep, length, nat_eq, units, decimal, ℤ, pos, negsuc,
  if◌then◌else◌,
}
use fleet_agent.Process.State.{
  RunStatus, Run, ProcessStep, ProcessDecision, ToolExecution, AgentSource, AgentWorkspaceState,
}
use fleet_agent.Process.Status.{ChipView, status_chip, of_run, format_duration}
use fleet_agent.Process.Depth.{last_of, Depths, depth_at, step_depths}
use fleet_agent.Process.Notice.{
  said, some_of, NoticeView, termination_notice, run_metrics_line, or_else,
}
use fleet_agent.Process.Cards.{
  is_filled, is_said, is_route, DecisionView, decision_card, ToolRows, tool_rows, StepProps,
}

abbrev pub is_idle : RunStatus → Bool
is_idle RunStatus.idle = true
is_idle _ = false

abbrev is_queued : RunStatus → Bool
is_queued RunStatus.queued = true
is_queued _ = false

abbrev is_running : RunStatus → Bool
is_running RunStatus.running = true
is_running _ = false

abbrev is_failed : RunStatus → Bool
is_failed RunStatus.failed = true
is_failed _ = false

-- `hasRunActivity` of a state that is there
unfoldable pub has_run_activity : AgentWorkspaceState → Bool
has_run_activity state =
    not (is_idle state.run.status)
    || is_filled state.steps
    || is_filled state.decisions
    || is_filled state.tool_calls
    || is_filled (or_else state.caveats [])

-- `toolsById.get(id)` of each identifier of a step, where there is one
unfoldable pub tools_of : List ToolExecution → ProcessStep → List ToolExecution
tools_of calls step =
    some_of (map (λ id. last_of (λ (t : ToolExecution). t.id) id calls) step.tool_call_ids)

abbrev title_of : List AgentSource → String → Option String
title_of sources id = elim (last_of (λ (s : AgentSource). s.id) id sources) [
  | none ↦ none
  | some s ↦ said (some s.title)
]

unfoldable pub titles_of : List AgentSource → ProcessStep → List String
titles_of sources step = some_of (map (title_of sources) step.source_ids)

-- `linkedToolIds.has(id)`
unfoldable pub is_linked : List ProcessStep → String → Bool
is_linked steps id = any (λ (s : ProcessStep). any (λ linked. linked == id) s.tool_call_ids) steps

unfoldable pub orphan_tools : AgentWorkspaceState → List ToolExecution
orphan_tools state = keep (λ (t : ToolExecution). not (is_linked state.steps t.id)) state.tool_calls

unfoldable pub decisions_heading : List ProcessDecision → String
decisions_heading decisions =
    let route_count = length (keep is_route decisions) in
    if nat_eq route_count 0
    then "Decisions"
    else if nat_eq route_count (length decisions)
    then "Route"
    else "Route and decisions"

-- `Math.max(0, nowMs - Date.parse(startedAt))`; none is NaN
abbrev elapsed : ℕ → Option ℤ → Option ℕ
elapsed now none = none
elapsed now (some (pos started)) = some (now - started)
elapsed now (some (negsuc before)) = some (now + suc before)

abbrev elapsed_text : (ℕ → Bool) → Option ℕ → List ℕ
elapsed_text tie none = units "NaNs"
elapsed_text tie (some ms) = format_duration tie (some ms)

-- the duration shown; `parse_date` is the browser's `Date.parse`
unfoldable pub duration_text :
    (ℕ → Bool) → (String → Option ℤ) → Bool → ℕ → AgentWorkspaceState → List ℕ
duration_text tie parse_date running now state = elim (said state.run.started_at) [
  | none ↦ format_duration tie state.metrics.duration_ms
  | some started ↦
      if running
      then elapsed_text tie (elapsed now (parse_date started))
      else format_duration tie state.metrics.duration_ms
]

-- `open`: what the user chose in this run, the running it is compared with, and the panel's own
pub record Opening : Type 0 where
  pub user_open : Option Bool
  pub was_running : Bool
  pub panel_open : Bool

unfoldable pub mount_opening : Bool → Opening
mount_opening running = record { user_open = none; was_running = running; panel_open = true }

-- a render, and the effect, which runs when `isRunning` has changed
unfoldable pub render_opening : Bool → Opening → Opening
render_opening running o =
    if running && not o.was_running
    then record { user_open = none; was_running = running; panel_open = o.panel_open }
    else record { user_open = o.user_open; was_running = running; panel_open = o.panel_open }

-- `onOpenChange`
unfoldable pub toggle_opening : Bool → Bool → Opening → Opening
toggle_opening panel opened o =
    if panel then record o { panel_open = opened } else record o { user_open = some opened }

unfoldable pub is_open : Bool → Opening → Bool
is_open panel o = if panel then o.panel_open else or_else o.user_open o.was_running

pub record StepRow : Type 0 where
  pub depth : ℕ
  pub parent_id : Option String
  pub margin_px : ℕ
  pub card : StepProps

unfoldable pub depth_in : Option Depths → String → ℕ
depth_in none id = 0
depth_in (some depths) id = or_else (depth_at depths id) 0

abbrev is_active_step : Option String → String → Bool
is_active_step none id = false
is_active_step (some active) id = id == active

unfoldable pub step_row : AgentWorkspaceState → Bool → ProcessStep → StepRow
step_row state detailed step =
    let depth = depth_in (step_depths state.steps) step.id in
    record {
      depth = depth;
      parent_id = step.parent_id;
      margin_px = min depth 3 * 16;
      card = record {
        step = step;
        tools = tools_of state.tool_calls step;
        source_titles = titles_of state.sources step;
        is_active = is_active_step state.run.active_step_id step.id;
        detailed_tools = detailed;
      };
    }

abbrev is_forced : Option String → Bool
is_forced none = false
is_forced (some reason) = reason == "forced_submit"

abbrev has_caution_caveat : Run → Bool
has_caution_caveat run =
    is_failed run.status || is_said run.error_code || is_forced run.termination_reason

-- What is shown; a section of which the list is empty, or which is none, is left out.
pub record ActivityView : Type 0 where
  pub is_busy : Bool
  pub is_open : Bool
  pub duration : List ℕ
  pub chip : ChipView
  pub decisions_heading : String
  pub decisions : List DecisionView
  pub steps : List StepRow
  pub orphans : ToolRows
  pub notice : Option NoticeView
  pub caveats : List String
  pub caveats_caution : Bool
  pub metrics : Option (List ℕ)

-- What `RunActivityInlineContent` is given and reads.
pub record ActivityProps : Type 0 where
  pub tie : ℕ → Bool
  pub to_locale : ℕ → List ℕ
  pub parse_date : String → Option ℤ
  pub is_running : Bool
  pub panel : Bool
  pub detailed_tools : Bool
  pub now : ℕ
  pub opening : Opening

abbrev activity_view : ActivityProps → AgentWorkspaceState → ActivityView
activity_view p state =
    let status = state.run.status in
    record {
      is_busy = p.is_running || is_queued status;
      is_open = is_open p.panel p.opening;
      duration = duration_text p.tie p.parse_date p.is_running p.now state;
      chip = status_chip (of_run status);
      decisions_heading = decisions_heading state.decisions;
      decisions = map decision_card state.decisions;
      steps = map (step_row state p.detailed_tools) state.steps;
      orphans = tool_rows p.tie p.detailed_tools (orphan_tools state);
      notice = termination_notice state.run.termination_reason state.run.error_code;
      caveats = or_else state.caveats [];
      caveats_caution = has_caution_caveat state.run;
      metrics =
          if is_running status || is_queued status
          then none
          else some (run_metrics_line p.tie p.to_locale state.metrics);
    }

-- `RunActivityInlineContent`: nothing without activity
unfoldable pub run_activity : ActivityProps → Option AgentWorkspaceState → Option ActivityView
run_activity p none = none
run_activity p (some state) = if has_run_activity state then some (activity_view p state) else none
