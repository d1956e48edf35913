-- ===== src/Process/Tests.antt =====
-- Runs of the panel on a small state.
use fleet_agent.Base.{
  All, decimal, decimal_from, ℕ, ◌*◌, ◌≡◌, refl, String, Bool, true, false, not, Option, none, some,
  List, [], ◌∷◌, is_some, min, units, if◌then◌else◌,
}
use fleet_agent.Process.State.{
  RunStatus, StepPhase, StepStatus, ToolCallStatus, ArtifactStatus, Run, ProcessStep, ToolExecution,
  AgentArtifact, RunMetrics, AgentWorkspaceState,
}
use fleet_agent.Process.Status.{tenths_of_second, format_duration, format_size, tenths_of_unit}
use fleet_agent.Process.Depth.{
  last_of, parent_of, depth_at, is_visiting, depth_of, depths_of_all, step_depths,
}
use fleet_agent.Process.Depth.Visits.{HasDepth}
use fleet_agent.Process.Depth.Laws.{step_depths-All}
use fleet_agent.Process.Notice.{lookup, notice_copy, NoticeView, notice_view}
use fleet_agent.Process.Cards.{StepProps}
use fleet_agent.Process.Activity.{Opening, orphan_tools, step_row}
use fleet_agent.Process.Activity.Shown.{
  has_tool, is_under_step, orphan_tools-is_under_step, step_row-HasDepth,
}
use fleet_agent.Process.Previews.{Previews, loading, idle, can_preview, begin_preview}
use fleet_agent.Process.Previews.Laws.{answer_all, answers_to, begin_preview-answer_all}
use fleet_agent.Process.Tabs.{PanelProps}

abbrev step : String → Option String → List String → ProcessStep
step id parent tools = record {
  id = id;
  parent_id = parent;
  phase = StepPhase.research;
  title = id;
  public_summary = none;
  status = StepStatus.failed;
  started_at = none;
  finished_at = none;
  duration_ms = none;
  tool_call_ids = tools;
  source_ids = [];
  artifact_ids = [];
}

abbrev tool : String → ToolExecution
tool id = record {
  id = id;
  name = id;
  status = ToolCallStatus.completed;
  input_preview = none;
  output_preview = none;
  error_message = none;
  started_at = none;
  finished_at = none;
  duration_ms = some 1250;
}

abbrev run : Run
run = record {
  id = "r";
  status = RunStatus.running;
  started_at = none;
  finished_at = none;
  active_step_id = none;
  termination_reason = none;
  error_code = none;
  tool_call_count = 2;
}

abbrev metrics : RunMetrics
metrics = record {
  duration_ms = none;
  input_tokens = none;
  output_tokens = none;
  total_tokens = none;
  tool_call_count = 2;
  model_call_count = none;
}

-- a root with a child that shows a tool, two steps that are each other's parents, and a stray tool
abbrev steps : List ProcessStep
steps =
    step "child" (some "root") ("t" ∷ [])
    ∷ step "root" none []
    ∷ step "x" (some "y") []
    ∷ step "y" (some "x") []
    ∷ []

abbrev state : AgentWorkspaceState
state = record {
  thread_id = "thread";
  run = run;
  steps = steps;
  decisions = [];
  tool_calls = tool "t" ∷ tool "u" ∷ [];
  sources = [];
  artifacts = [];
  metrics = metrics;
  caveats = none;
}

step_depths_test : step_depths steps ≡ some (("x", 2) ∷ ("y", 1) ∷ ("child", 1) ∷ ("root", 0) ∷ [])
unfolding step_depths depths_of_all depth_of depth_at is_visiting parent_of last_of
step_depths_test = refl

step_depths-All_example :
    (ds : List (String × ℕ)) × (step_depths steps ≡ some ds)
    × All (λ (s : ProcessStep). is_some (depth_at ds s.id) ≡ true) steps
step_depths-All_example = step_depths-All steps

root-HasDepth : HasDepth steps 1 "child"
unfolding parent_of last_of
root-HasDepth = ("root", refl, refl)

step_row-HasDepth_example :
    ((step_row state true (step "child" (some "root") ("t" ∷ []))).depth ≡ 1)
    × ((step_row state true (step "child" (some "root") ("t" ∷ []))).margin_px ≡ min 1 3 * 16)
step_row-HasDepth_example =
    step_row-HasDepth state true (step "child" (some "root") ("t" ∷ [])) 1 refl root-HasDepth

orphan_tools-is_under_step_example :
    has_tool "u" (orphan_tools state) ≡ not (is_under_step state "u")
orphan_tools-is_under_step_example = orphan_tools-is_under_step state "u" refl

abbrev forced_notice : NoticeView
forced_notice = notice_view (some "forced_submit") (some "unheard_of")

forced_title_test : forced_notice.title ≡ "The agent run failed."
unfolding notice_copy lookup
forced_title_test = refl

abbrev props : Bool → List ToolExecution → StepProps
props is_active tools = record {
  step = record (step "s" none []) { status = StepStatus.running };
  tools = tools;
  source_titles = [];
  is_active = is_active;
  detailed_tools = true;
}

abbrev streaming : Opening
streaming = record { user_open = none; was_running = true; panel_open = true }

abbrev artifact : AgentArtifact
artifact = record {
  id = "a";
  name = "Report";
  media_type = "text/markdown";
  size_bytes = some 1536;
  download_url = some "/api/artifacts/a";
  status = ArtifactStatus.ready;
}

abbrev previews : Previews
previews = record { state = loading; request = some 3; next = 4 }

-- the answer to the request before comes late
begin_preview-answer_all_example :
    (answer_all
      ((3, some (units "old")) ∷ (4, some (units "new")) ∷ [])
      (begin_preview (some artifact) previews)).state
    ≡ (if can_preview (some artifact)
        then answers_to 4 ((3, some (units "old")) ∷ (4, some (units "new")) ∷ []) loading
        else idle)
begin_preview-answer_all_example =
    begin_preview-answer_all (some artifact)
      ((3, some (units "old")) ∷ (4, some (units "new")) ∷ []) previews

can_preview_test : can_preview (some artifact) ≡ true
unfolding can_preview
can_preview_test = refl

format_test :
    (format_duration (λ ms. false) (some 1250) ≡ units "1.2s")
    × (format_duration (λ ms. false) (some 1251) ≡ units "1.3s")
    × (format_size (some 1536) ≡ some (units "1.5 KB"))
unfolding format_duration tenths_of_second format_size tenths_of_unit decimal decimal_from
format_test = (refl, refl, refl)

abbrev panel : PanelProps
panel = record {
  activity = record {
    tie = λ ms. true;
    to_locale = λ n. [];
    parse_date = λ s. none;
    is_running = false;
    panel = true;
    detailed_tools = true;
    now = 0;
    opening = streaming;
  };
  url_hostname = λ s. none;
  base = [];
  selected = none;
  preview = idle;
  sources_baseline = 0;
  artifacts_baseline = 0;
}
