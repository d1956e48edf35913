-- ===== src/InlineData/Views.antt =====
-- components/elements: agent-plan.tsx, tool-group.tsx, research-report.tsx, web-search.tsx and
-- sources.tsx, and the components of inline-agent-data-ui.tsx that show a parsed event in them.
pub mod Laws
use fleet_agent.Base.{
  ℕ, suc, ◌+◌, ◌-◌, String, Bool, true, false, not, Option, none, some, List, [], ◌∷◌, ◌++◌, length,
  keep, all, map, get_elem?, ltb, leb, nat_eq, units, decimal, ◌||◌, ◌&&◌, is_some, ℤ,
  if◌then◌else◌,
}
use fleet_agent.Json.{Json}
use fleet_agent.Range
use fleet_agent.Range.{Floats}
use fleet_agent.InlineData.{
  PlanStatus, ToolState, SectionState, PlanStep, GroupedTool, Progress, Source, Search,
  ReportSection, Report, parse_progress, parse_sources, parse_report, inline_web_search, and_then,
}

abbrev pub is_completed : PlanStatus → Bool
is_completed PlanStatus.completed = true
is_completed _ = false

-- `['completed', 'failed', 'skipped'].includes(status)`
abbrev is_over : PlanStatus → Bool
is_over PlanStatus.completed = true
is_over PlanStatus.failed = true
is_over PlanStatus.skipped = true
is_over _ = false

-- The sign in front of a step.
pub data Mark : Type 0 where
  check cross dash spinner dot : Mark

abbrev mark_of_status : PlanStatus → Mark
mark_of_status PlanStatus.completed = check
mark_of_status PlanStatus.failed = cross
mark_of_status PlanStatus.skipped = dash
mark_of_status PlanStatus.running = spinner
mark_of_status PlanStatus.pending = dot

abbrev mark_of_index : Bool → ℕ → ℕ → Mark
mark_of_index all_done completed i =
    if all_done || ltb i completed
    then check
    else if not all_done && nat_eq i completed
    then spinner
    else dot

-- the marks of the steps from an index on; a step without a status goes by its index
unfoldable pub marks_from : Bool → ℕ → ℕ → List (List ℕ) → List PlanStatus → List (Mark × List ℕ)
marks_from all_done completed i [] statuses = []
marks_from all_done completed i (step ∷ steps) [] =
    (mark_of_index all_done completed i, step) ∷ marks_from all_done completed (suc i) steps []
marks_from all_done completed i (step ∷ steps) (status ∷ statuses) =
    (mark_of_status status, step) ∷ marks_from all_done completed (suc i) steps statuses

pub record PlanView (F : Floats) : Type 0 where
  pub completed : ℕ
  pub total : ℕ
  pub progress : F.N  -- the width of the bar, in percent
  pub rows : List (Mark × List ℕ)

module _ (F : Floats) where
  abbrev completed_of : Option (List PlanStatus) → F.N → ℕ → ℕ
  completed_of (some statuses) active total = length (keep is_completed statuses)
  completed_of none active total = Range.progress_of F active (F.from total)

  abbrev all_done_of : Option (List PlanStatus) → ℕ → ℕ → Bool
  all_done_of (some statuses) completed total = all is_over statuses
  all_done_of none completed total = leb total completed

  abbrev statuses_of : Option (List PlanStatus) → List PlanStatus
  statuses_of none = []
  statuses_of (some statuses) = statuses

  unfoldable pub agent_plan : List (List ℕ) → F.N → Option (List PlanStatus) → PlanView F
  unfolding marks_from
  agent_plan steps active statuses =
      let total = length steps in
      let completed = completed_of statuses active total in
      record {
        completed = completed;
        total = total;
        progress = Range.pct F (F.from completed) (F.from total);
        rows =
            marks_from (all_done_of statuses completed total) completed 0 steps
              (statuses_of statuses);
      }

abbrev is_running : GroupedTool → Bool
is_running t = elim t.state [ ToolState.running ↦ true | _ ↦ false ]

abbrev has_failed : GroupedTool → Bool
has_failed t = elim t.state [ ToolState.failed ↦ true | _ ↦ false ]

pub record ToolGroupView : Type 0 where
  pub label : List ℕ
  pub summary : List ℕ
  pub tools : Option (List GroupedTool)

-- how far a group of tools has got
unfoldable pub group_summary : List GroupedTool → List ℕ
group_summary tools =
    let n = length tools in
    let running = length (keep is_running tools) in
    let failed = length (keep has_failed tools) in
    if ltb 0 running
    then decimal (n - running) ++ units "/" ++ decimal n
    else if ltb 0 failed
    then decimal failed ++ units " failed"
    else decimal n ++ units " done"

unfoldable pub tool_group : List ℕ → List GroupedTool → Bool → ToolGroupView
tool_group label tools is_open = record {
  label = label;
  summary = group_summary tools;
  tools = if is_open then some tools else none;
}

abbrev is_done : ReportSection → Bool
is_done s = elim s.state [ SectionState.done ↦ true | _ ↦ false ]

pub record ReportView : Type 0 where
  pub title : List ℕ
  pub summary : List ℕ
  pub sections : List ReportSection

unfoldable pub research_report : Report → ReportView
research_report r = record {
  title = r.title;
  summary =
      decimal (length (keep is_done r.sections))
      ++ units "/"
      ++ decimal (length r.sections)
      ++ units " sections · "
      ++ decimal r.sources_read
      ++ units " sources read";
  sections = r.sections;
}

pub record WebSearchView : Type 0 where
  pub query : List ℕ
  pub status : List ℕ
  pub rows : List Source

module _ (F : Floats) (of_int : ℤ → F.N) where
  unfoldable pub web_search : Search → WebSearchView
  web_search s = record {
    query = s.query;
    status =
        if s.searching
        then units "Searching"
        else units "Read "
          ++ decimal (length s.results)
          ++ (if nat_eq (length s.results) 1 then units " source" else units " sources");
    rows = Range.take F s.results (of_int s.visible_results);
  }

  pub record InlineProgressView : Type 0 where
    pub plan : PlanView F
    pub tools : Option ToolGroupView

  abbrev group_of : List GroupedTool → Bool → Option ToolGroupView
  group_of [] is_open = none
  group_of (t ∷ ts) is_open = some (tool_group (units "Parallel research tasks") (t ∷ ts) is_open)

  abbrev progress_view : Bool → Progress → InlineProgressView
  progress_view is_open p = record {
    plan =
        agent_plan F (map (λ (s : PlanStep). s.label) p.steps) (of_int p.active_index)
          (some (map (λ (s : PlanStep). s.status) p.steps));
    tools = group_of p.tools is_open;
  }

  -- `InlineProgress`, with whether its group of tools is open
  unfoldable pub inline_progress : Bool → Json → Option InlineProgressView
  inline_progress is_open value = elim (parse_progress value) [
    | none ↦ none
    | some p ↦ some (progress_view is_open p)
  ]

  -- `InlineWebSearch`, with whether a run goes on
  unfoldable pub inline_web_search_view : Bool → Json → Option WebSearchView
  inline_web_search_view is_live value = elim (inline_web_search is_live value) [
    | none ↦ none
    | some s ↦ some (web_search s)
  ]

pub record SourcesView : Type 0 where
  pub count : ℕ
  pub sources : Option (List Source)

-- `InlineSources`, with whether it is open
unfoldable pub inline_sources : Bool → Json → Option SourcesView
inline_sources is_open value = elim (parse_sources value) [
  | none ↦ none
  | some sources ↦
      some (record { count = length sources; sources = if is_open then some sources else none })
]

-- `InlineResearchReport`
unfoldable pub inline_research_report : Json → Option ReportView
inline_research_report value = elim (parse_report value) [
  | none ↦ none
  | some r ↦ some (research_report r)
]
