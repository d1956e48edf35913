-- ===== src/Process/Cards.antt =====
-- features/process-panel: decision-card.tsx, tool-execution-card.tsx and process-step-card.tsx.
pub mod Laws
use fleet_agent.Base.{
  ℕ, String, Bool, true, false, not, Option, none, some, List, [], ◌∷◌, ◌++◌, ◌==◌, ◌&&◌, ◌||◌, map,
  leb, units, if◌then◌else◌,
}
use fleet_agent.Threads.Units.{utf16}
use fleet_agent.Process.State.{
  ProcessDecision, ToolExecution, ToolCallStatus, ProcessStep, StepStatus,
}
use fleet_agent.Process.Status.{
  IconView, status_icon, of_decision, of_tool, of_step, format_duration,
}
use fleet_agent.Process.Notice.{said, some_of, map_some}

abbrev pub is_filled {ℓ} : {A : Type ℓ} → List A → Bool
is_filled [] = false
is_filled (a ∷ as_) = true

abbrev pub is_said : Option String → Bool
is_said o = elim (said o) [ none ↦ false | some s ↦ true ]

abbrev pub is_route : ProcessDecision → Bool
is_route d = is_filled d.alternatives || is_said d.selected

abbrev is_selected : Option String → String → Bool
is_selected none alternative = false
is_selected (some s) alternative = alternative == s

abbrev alternative_text : Option String → String → List ℕ
alternative_text selected alternative =
    utf16 alternative ++ (if is_selected selected alternative then units " · selected" else [])

pub record DecisionView : Type 0 where
  pub name : List ℕ
  pub is_route : Bool
  pub icon : IconView
  pub title : String
  pub chosen : Option String
  pub alternatives : List (List ℕ)
  pub rationale : Option String

-- `DecisionCard`
unfoldable pub decision_card : ProcessDecision → DecisionView
decision_card d = record {
  name = (if is_route d then units "route: " else units "decision: ") ++ utf16 d.title;
  is_route = is_route d;
  icon = status_icon (of_decision d.status) false;
  title = d.title;
  chosen = if is_filled d.alternatives then none else said d.selected;
  alternatives = map (alternative_text d.selected) d.alternatives;
  rationale = said d.public_rationale;
}

-- A `TerminalBlock`: its title, and the text that it shows and copies
pub record Block : Type 0 where
  pub title : String
  pub text : String

abbrev block : String → Option String → Option Block
block title text = map_some (λ t. record { title = title; text = t }) (said text)

pub record ToolView : Type 0 where
  pub name : List ℕ
  pub icon : IconView
  pub code : String
  pub duration : List ℕ
  pub blocks : List Block

-- `ToolExecutionCard`
unfoldable pub tool_execution_card : (ℕ → Bool) → ToolExecution → ToolView
tool_execution_card tie tool = record {
  name = units "tool: " ++ utf16 tool.name;
  icon = status_icon (of_tool tool.status) false;
  code = tool.name;
  duration = format_duration tie tool.duration_ms;
  blocks = some_of (
      block "error" tool.error_message
      ∷ block "in" tool.input_preview
      ∷ block "out" tool.output_preview
      ∷ []);
}

pub record ToolSummary : Type 0 where
  pub name : List ℕ
  pub icon : IconView
  pub code : String
  pub status : ToolCallStatus
  pub duration : List ℕ

-- `NestedToolSummary`, and the same of run-activity-inline.tsx, `ToolExecutionSummary`
unfoldable pub tool_summary : (ℕ → Bool) → ToolExecution → ToolSummary
tool_summary tie tool = record {
  name = units "tool: " ++ utf16 tool.name;
  icon = status_icon (of_tool tool.status) false;
  code = tool.name;
  status = tool.status;
  duration = format_duration tie tool.duration_ms;
}

pub data ToolRows : Type 0 where
  cards : List ToolView → ToolRows
  summaries : List ToolSummary → ToolRows

abbrev pub tool_rows : (ℕ → Bool) → Bool → List ToolExecution → ToolRows
tool_rows tie detailed tools =
    if detailed
    then cards (map (tool_execution_card tie) tools)
    else summaries (map (tool_summary tie) tools)

-- `ProcessStepCardProps`
pub record StepProps : Type 0 where
  pub step : ProcessStep
  pub tools : List ToolExecution
  pub source_titles : List String
  pub is_active : Bool
  pub detailed_tools : Bool

abbrev pub has_details : StepProps → Bool
has_details p = is_filled p.tools || is_filled p.source_titles

abbrev pub is_failed : StepStatus → Bool
is_failed StepStatus.failed = true
is_failed _ = false

abbrev is_running : StepStatus → Bool
is_running StepStatus.running = true
is_running _ = false

unfoldable pub prefer_open : StepProps → Bool
prefer_open p = has_details p && (p.is_active || is_failed p.step.status)

-- The state of a mounted card: `expanded`, and the `preferOpen` that the effect last ran with.
pub record StepCard : Type 0 where
  pub expanded : Bool
  pub preferred : Bool

abbrev bool_eq : Bool → Bool → Bool
bool_eq a b = if a then b else not b

unfoldable pub mount_step : StepProps → StepCard
mount_step p = record { expanded = prefer_open p; preferred = prefer_open p }

-- a render with other properties, and the effect, which runs when `preferOpen` has changed
unfoldable pub render_step : StepProps → StepCard → StepCard
render_step p card =
    if bool_eq (prefer_open p) card.preferred
    then card
    else record { expanded = prefer_open p || card.expanded; preferred = prefer_open p }

-- `onClick` of the row, which is a button when there are details
unfoldable pub click_step : StepProps → StepCard → StepCard
click_step p card = if has_details p then record card { expanded = not card.expanded } else card

pub record StepBody : Type 0 where
  pub tools : ToolRows
  pub source_titles : List String

pub record StepView : Type 0 where
  pub name : List ℕ
  pub is_button : Bool
  pub icon : IconView
  pub title : String
  pub duration : Option (List ℕ)
  pub summary : Option String
  pub has_cursor : Bool
  pub body : Option StepBody

-- Durations below `DURATION_FLOOR_MS` are not shown.
abbrev shows_duration : Option ℕ → Bool
shows_duration none = true
shows_duration (some ms) = leb 100 ms

-- what `ProcessStepCard` renders
unfoldable pub step_view : (ℕ → Bool) → StepProps → StepCard → StepView
step_view tie p card = record {
  name = units "step: " ++ utf16 p.step.title;
  is_button = has_details p;
  icon = status_icon (of_step p.step.status) false;
  title = p.step.title;
  duration =
      if shows_duration p.step.duration_ms
      then some (format_duration tie p.step.duration_ms)
      else none;
  summary = said p.step.public_summary;
  has_cursor = (p.is_active && is_running p.step.status) && is_said p.step.public_summary;
  body =
      if has_details p && card.expanded
      then some (record {
        tools = tool_rows tie p.detailed_tools p.tools;
        source_titles = p.source_titles;
      })
      else none;
}
