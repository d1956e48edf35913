-- ===== src/Process/Tabs.antt =====
-- features/process-panel: sources-tab.tsx, artifacts-tab.tsx and process-panel.tsx.
pub mod Laws
use fleet_agent.Base.{
  ℕ, suc, ◌+◌, String, Bool, true, false, not, Option, none, some, List, [], ◌∷◌, ◌++◌, ◌==◌, ◌&&◌,
  map, find, leb, length, units, if◌then◌else◌,
}
use text.Mathlib.Text.{starts_with}
use fleet_agent.Threads.Units.{utf16}
use fleet_agent.Process.State.{
  AgentSource, SourceType, AgentArtifact, ToolExecution, AgentWorkspaceState,
}
use fleet_agent.Process.Status.{ChipView, status_chip, of_artifact, format_size}
use fleet_agent.Process.Depth.{last_of}
use fleet_agent.Process.Notice.{said, or_else, map_some}
use fleet_agent.Process.Cards.{is_filled}
use fleet_agent.Process.Activity.{ActivityProps, ActivityView, run_activity}
use fleet_agent.Process.Previews.{PreviewState, ready, loading, failed, is_ready}

-- `.map((item, index) => …)`, from an index on
abbrev pub map_indexed {ℓ κ} : {A : Type ℓ} {B : Type κ} → (ℕ → A → B) → ℕ → List A → List B
map_indexed f index [] = []
map_indexed f index (a ∷ rest) = f index a ∷ map_indexed f (suc index) rest

-- `hostname`; `url_hostname` is the browser's URL parser, none where it throws
unfoldable pub hostname : (String → Option String) → Option String → Option String
hostname url_hostname uri = elim (said uri) [
  | none ↦ none
  | some u ↦ some (or_else (url_hostname u) u)
]

abbrev source_type_text : SourceType → List ℕ
source_type_text SourceType.web = units "web"
source_type_text SourceType.document = units "document"
source_type_text SourceType.repository = units "repository"
source_type_text SourceType.database = units "database"
source_type_text SourceType.other = units "other"

abbrev pub suffix : List ℕ → Option String → List ℕ
suffix before none = []
suffix before (some s) = before ++ utf16 s

-- `toolNamesById?.get(source.toolCallId)`
abbrev pub tool_name : List ToolExecution → Option String → Option String
tool_name tools id = elim (said id) [
  | none ↦ none
  | some i ↦ elim (last_of (λ (t : ToolExecution). t.id) i tools) [
    | none ↦ none
    | some t ↦ said (some t.name)
  ]
]

-- the text that the copy button writes to the clipboard
unfoldable pub citation : AgentSource → List ℕ
citation source = elim (said source.uri) [
  | none ↦ utf16 source.title
  | some uri ↦ b'[' ∷ utf16 source.title ++ units "](" ++ utf16 uri ++ units ")"
]

pub record SourceView : Type 0 where
  pub name : List ℕ
  pub is_new : Bool
  pub title : String
  pub origin : List ℕ
  pub link : Option String
  pub citation : List ℕ
  pub excerpt : Option String

-- An article of `SourcesTab`; `baseline` is the number of sources at the last render.
unfoldable pub source_view :
    (String → Option String) → List ToolExecution → ℕ → ℕ → AgentSource → SourceView
source_view url_hostname tools baseline index source = record {
  name = units "source: " ++ utf16 source.title;
  is_new = leb baseline index;
  title = source.title;
  origin =
      source_type_text source.source_type
      ++ suffix (units " · ")
          (elim (hostname url_hostname source.uri) [ none ↦ none | some link ↦ said (some link) ])
      ++ suffix (units " · via ") (tool_name tools source.tool_call_id);
  link = said source.uri;
  citation = citation source;
  excerpt = said source.excerpt;
}

-- `SourcesTab`: nothing stands for the empty state
unfoldable pub sources_tab :
    (String → Option String) → List ToolExecution → ℕ → List AgentSource → List SourceView
sources_tab url_hostname tools baseline sources =
    map_indexed (source_view url_hostname tools baseline) 0 sources

abbrev pub resolved : List ℕ → String → List ℕ
resolved base url = if starts_with url "/" then base ++ utf16 url else utf16 url

-- `resolveDownloadUrl`; `base` is `API_BASE_URL`
unfoldable pub resolve_download_url : List ℕ → Option String → Option (List ℕ)
resolve_download_url base url = map_some (resolved base) (said url)

pub data PreviewView : Type 0 where
  loading_text error_text : PreviewView
  markdown : List ℕ → Bool → PreviewView

abbrev pub preview_view : PreviewState → Option PreviewView
preview_view PreviewState.idle = none
preview_view PreviewState.loading = some loading_text
preview_view PreviewState.failed = some error_text
preview_view (PreviewState.ready content truncated) = some (markdown content truncated)

pub record ArtifactView : Type 0 where
  pub name : List ℕ
  pub is_current : Bool
  pub is_new : Bool
  pub title : String
  pub detail : List ℕ
  pub chip : ChipView
  pub download : Option (List ℕ)
  pub preview : Option PreviewView

abbrev pub is_selected : Option String → AgentArtifact → Bool
is_selected none artifact = false
is_selected (some id) artifact = artifact.id == id

-- `href &&`: an empty address is none
abbrev pub nonempty_text : Option (List ℕ) → Option (List ℕ)
nonempty_text none = none
nonempty_text (some []) = none
nonempty_text (some (c ∷ cs)) = some (c ∷ cs)

-- An article of `ArtifactsTab`.
unfoldable pub artifact_view :
    List ℕ → Option String → PreviewState → ℕ → ℕ → AgentArtifact → ArtifactView
artifact_view base selected preview baseline index artifact =
    let selected_here = is_selected selected artifact in
    record {
      name = units "artifact: " ++ utf16 artifact.name;
      is_current = selected_here;
      is_new = leb baseline index;
      title = artifact.name;
      detail =
          utf16 artifact.media_type
          ++ or_else (map_some (λ size. units " · " ++ size) (format_size artifact.size_bytes)) [];
      chip = status_chip (of_artifact artifact.status);
      download =
          if is_ready artifact.status
          then nonempty_text (resolve_download_url base artifact.download_url)
          else none;
      preview = if selected_here then preview_view preview else none;
    }

-- `ArtifactsTab`: nothing stands for the empty state
unfoldable pub artifacts_tab :
    List ℕ → Option String → PreviewState → ℕ → List AgentArtifact → List ArtifactView
artifacts_tab base selected preview baseline artifacts =
    map_indexed (artifact_view base selected preview baseline) 0 artifacts

-- the artifact whose preview is asked for
unfoldable pub selected_artifact : Option String → List AgentArtifact → Option AgentArtifact
selected_artifact selected artifacts = find (is_selected selected) artifacts

pub data ProcessPanelTab : Type 0 where
  activity sources artifacts : ProcessPanelTab

abbrev sources_in : Option AgentWorkspaceState → List AgentSource
sources_in none = []
sources_in (some state) = state.sources

abbrev artifacts_in : Option AgentWorkspaceState → List AgentArtifact
artifacts_in none = []
artifacts_in (some state) = state.artifacts

abbrev tools_in : Option AgentWorkspaceState → List ToolExecution
tools_in none = []
tools_in (some state) = state.tool_calls

abbrev pub positive : ℕ → Option ℕ
positive ℕ.zero = none
positive (suc n) = some (suc n)

-- `TabCountBadge` and `AgUiTabCount`; without a runtime there is no state to read
unfoldable pub tab_count : Bool → ProcessPanelTab → Option AgentWorkspaceState → Option ℕ
tab_count has_ag_ui tab state =
    if has_ag_ui
    then elim tab [
      | activity ↦ none
      | sources ↦ positive (length (sources_in state))
      | artifacts ↦ positive (length (artifacts_in state))
    ]
    else none

pub data PanelBody : Type 0 where
  no_activity : PanelBody
  activity_body : Option ActivityView → PanelBody
  sources_body : List SourceView → PanelBody
  artifacts_body : List ArtifactView → PanelBody

-- What the tabs read besides the state of the run.
pub record PanelProps : Type 0 where
  pub activity : ActivityProps
  pub url_hostname : String → Option String
  pub base : List ℕ
  pub selected : Option String
  pub preview : PreviewState
  pub sources_baseline : ℕ
  pub artifacts_baseline : ℕ

-- `ProcessPanelBody`: the content of a tab
unfoldable pub panel_body :
    Bool → ProcessPanelTab → PanelProps → Option AgentWorkspaceState → PanelBody
panel_body has_ag_ui ProcessPanelTab.activity p state =
    if has_ag_ui then activity_body (run_activity p.activity state) else no_activity
panel_body has_ag_ui ProcessPanelTab.sources p state =
    if has_ag_ui
    then sources_body
        (sources_tab p.url_hostname (tools_in state) p.sources_baseline (sources_in state))
    else sources_body (sources_tab p.url_hostname [] p.sources_baseline [])
panel_body has_ag_ui ProcessPanelTab.artifacts p state =
    if has_ag_ui
    then artifacts_body
        (artifacts_tab p.base p.selected p.preview p.artifacts_baseline (artifacts_in state))
    else artifacts_body (artifacts_tab p.base none PreviewState.idle p.artifacts_baseline [])
