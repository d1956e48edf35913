-- ===== src/InlineData.antt =====
-- features/agent-runtime/inline-agent-data-ui.tsx: the parsers of the custom events that a transcript
-- shows. Texts are UTF-16 code units. A field that may be left out is an Option.
pub mod Bounds
pub mod Parsers
pub mod Results
pub mod Artifact
pub mod Views
mod Tests
use fleet_agent.Base.{
  ℕ, zero, suc, ◌+◌, ◌/◌, ◌%◌, String, Bool, true, false, not, Option, none, some, List, [], ◌∷◌,
  ◌++◌, ◌==◌, ◌&&◌, ◌||◌, take, length, ltb, nat_eq, units, decimal, ℤ, pos, negsuc, if◌then◌else◌,
}
use fleet_agent.Json.{
  Json, Items, Fields, null, bool, num, other_num, str, arr, obj, nil, cons, end, property, field,
}
use fleet_agent.Threads.Units.{utf16, is_blank, trim}

abbrev pub max_text : ℕ
max_text = 240

abbrev pub max_steps : ℕ
max_steps = 4

abbrev pub max_tools : ℕ
max_tools = 4

abbrev pub max_sources : ℕ
max_sources = 12

abbrev pub max_sections : ℕ
max_sections = 8

-- `text(value, limit)`
unfoldable pub text : Option Json → ℕ → List ℕ
text (some (str s)) limit = take limit (trim (utf16 s))
text _ limit = []

-- `text(…) || other`
abbrev pub text_or : List ℕ → List ℕ → List ℕ
text_or [] other = other
text_or (c ∷ cs) other = c ∷ cs

-- `if (!…) return null`, and what follows
abbrev pub and_then {ℓ κ} : {A : Type ℓ} {B : Type κ} → Option A → (A → Option B) → Option B
and_then none next = none
and_then (some a) next = next a

-- `versioned(value) && Array.isArray(value[key])`, with the properties of the value and the array
unfoldable pub versioned : String → Json → Option (Fields × Items)
versioned key (obj fs) = elim (field "schemaVersion" fs) [
  | some (num n) ↦
      if nat_eq n 1
      then elim (field key fs) [ some (arr items) ↦ some (fs, items) | _ ↦ none ]
      else none
  | _ ↦ none
]
versioned key _ = none

-- `.filter(isRecord)`
unfoldable pub records : Items → List Fields
records nil = []
records (cons (obj fs) rest) = fs ∷ records rest
records (cons _ rest) = records rest

-- `.map((value, index) => …)`, from an index on
abbrev pub map_from {ℓ} : {A : Type ℓ} → (ℕ → Fields → A) → ℕ → List Fields → List A
map_from f index [] = []
map_from f index (fs ∷ rest) = f index fs ∷ map_from f (suc index) rest

pub data PlanStatus : Type 0 where
  pending running completed failed skipped : PlanStatus

pub data ToolState : Type 0 where
  running done failed : ToolState

pub data SectionState : Type 0 where
  pending writing done failed : SectionState

-- `isPlanStatus(value) ? value : 'pending'`
unfoldable pub plan_status : Option Json → PlanStatus
plan_status (some (str s)) =
    if s == "running"
    then PlanStatus.running
    else if s == "completed"
    then PlanStatus.completed
    else if s == "failed"
    then PlanStatus.failed
    else if s == "skipped"
    then PlanStatus.skipped
    else PlanStatus.pending
plan_status _ = PlanStatus.pending

unfoldable pub tool_state : Option Json → ToolState
tool_state (some (str s)) =
    if s == "done"
    then ToolState.done
    else if s == "failed"
    then ToolState.failed
    else ToolState.running
tool_state _ = ToolState.running

unfoldable pub section_state : Option Json → SectionState
section_state (some (str s)) =
    if s == "writing"
    then SectionState.writing
    else if s == "done"
    then SectionState.done
    else if s == "failed"
    then SectionState.failed
    else SectionState.pending
section_state _ = SectionState.pending

-- `Math.floor` of a value that is a number
unfoldable pub floor : Option Json → Option ℤ
floor (some (num n)) = some (pos n)
floor (some (other_num which z)) = some z
floor _ = none

-- the same of a number that is not negative
unfoldable pub natural_floor : Option Json → Option ℕ
natural_floor (some (num n)) = some n
natural_floor (some (other_num which (pos n))) = some n
natural_floor _ = none

abbrev pub or_int {ℓ} : {A : Type ℓ} → A → Option A → A
or_int d none = d
or_int d (some a) = a

abbrev pub is_true : Option Json → Bool
is_true (some (bool b)) = b
is_true _ = false

pub record PlanStep : Type 0 where
  pub id : List ℕ
  pub label : List ℕ
  pub status : PlanStatus

pub record GroupedTool : Type 0 where
  pub id : List ℕ
  pub name : List ℕ
  pub target : List ℕ
  pub state : ToolState
  pub duration_ms : Option ℕ

pub record Progress : Type 0 where
  pub steps : List PlanStep
  pub active_index : ℤ
  pub tools : List GroupedTool

abbrev pub plan_step : ℕ → Fields → PlanStep
plan_step index step = record {
  id = text_or (text (field "id" step) 80) (units "phase-" ++ decimal index);
  label = text_or (text (field "label" step) max_text) (units "Agent step");
  status = plan_status (field "status" step);
}

abbrev pub grouped_tool : ℕ → Fields → GroupedTool
grouped_tool index tool = record {
  id = text_or (text (field "id" tool) 80) (units "research-" ++ decimal index);
  name = text_or (text (field "name" tool) 80) (units "research");
  target = text_or (text (field "target" tool) max_text) (units "Research task");
  state = tool_state (field "state" tool);
  duration_ms = natural_floor (field "durationMs" tool);
}

unfoldable pub progress_tools : Option Json → List GroupedTool
progress_tools (some (arr items)) = map_from grouped_tool 0 (take max_tools (records items))
progress_tools _ = []

-- the list, unless it is empty
abbrev pub nonempty {ℓ κ} : {A : Type ℓ} {B : Type κ} → List A → B → Option B
nonempty [] b = none
nonempty (a ∷ as_) b = some b

abbrev pub progress_of : Fields × Items → Option Progress
progress_of (fs, items) =
    let steps = map_from plan_step 0 (take max_steps (records items)) in
    nonempty steps (record {
      steps = steps;
      active_index = or_int (pos 0) (floor (field "activeIndex" fs));
      tools = progress_tools (field "tools" fs);
    })

unfoldable pub parse_progress : Json → Option Progress
parse_progress value = and_then (versioned "steps" value) progress_of

pub record Source : Type 0 where
  pub title : List ℕ
  pub domain : List ℕ

abbrev pub source : ℕ → Fields → Source
source index fs = record {
  title = text_or (text (field "title" fs) max_text) (units "Untitled source");
  domain = text_or (text (field "domain" fs) 120) (units "source");
}

pub record Search : Type 0 where
  pub query : List ℕ
  pub results : List Source
  pub visible_results : ℤ
  pub searching : Bool
  pub cycle : ℤ

abbrev pub search_of : Fields × Items → Option Search
search_of (fs, items) =
    let results = map_from source 0 (take max_sources (records items)) in
    some (record {
      query = text_or (text (field "query" fs) max_text) (units "Web search");
      results = results;
      visible_results = or_int (pos (length results)) (floor (field "visibleResults" fs));
      searching = is_true (field "searching" fs);
      cycle = or_int (pos 0) (floor (field "cycle" fs));
    })

unfoldable pub parse_web_search : Json → Option Search
parse_web_search value = and_then (versioned "results" value) search_of

abbrev pub sources_of : Fields × Items → Option (List Source)
sources_of (fs, items) =
    let sources = map_from source 0 (take max_sources (records items)) in nonempty sources sources

unfoldable pub parse_sources : Json → Option (List Source)
parse_sources value = and_then (versioned "sources" value) sources_of

pub record ReportSection : Type 0 where
  pub id : List ℕ
  pub heading : List ℕ
  pub state : SectionState
  pub sources : ℕ
  pub preview : Option (List ℕ)

pub record Report : Type 0 where
  pub title : List ℕ
  pub sections : List ReportSection
  pub sources_read : ℕ

abbrev pub given_text : List ℕ → Option (List ℕ)
given_text [] = none
given_text (c ∷ cs) = some (c ∷ cs)

abbrev pub report_section : ℕ → Fields → ReportSection
report_section index fs = record {
  id = text_or (text (field "id" fs) 80) (units "section-" ++ decimal index);
  heading = text_or (text (field "heading" fs) max_text) (units "Report section");
  state = section_state (field "state" fs);
  sources = or_int 0 (natural_floor (field "sources" fs));
  preview = given_text (text (field "preview" fs) max_text);
}

abbrev pub report_of : Fields × Items → Option Report
report_of (fs, items) =
    let sections = map_from report_section 0 (take max_sections (records items)) in
    nonempty sections (record {
      title = text_or (text (field "title" fs) max_text) (units "Research report");
      sections = sections;
      sources_read = or_int 0 (natural_floor (field "sourcesRead" fs));
    })

unfoldable pub parse_report : Json → Option Report
parse_report value = and_then (versioned "sections" value) report_of

abbrev pub shown_search : Bool → Search → Option Search
shown_search is_running s =
    if (not is_running && s.searching) && nat_eq (length s.results) 0
    then none
    else some (record s { searching = s.searching && is_running })

-- `InlineWebSearch`: what is shown, if anything; `is_running` is the run's
unfoldable pub inline_web_search : Bool → Json → Option Search
inline_web_search is_running value = and_then (parse_web_search value) (shown_search is_running)
