-- ===== src/InlineData/Artifact.antt =====
-- features/artifacts/artifact-data-ui.tsx: the card of an artifact in a message. Texts are UTF-16
-- code units; the identifier that is selected is one of them.
pub mod Laws
mod Tests
use fleet_agent.Base.{
  ℕ, String, Bool, true, false, not, Option, none, some, List, [], ◌∷◌, ◌++◌, length, nat_eq, units,
  ◌||◌, ◌&&◌, if◌then◌else◌,
}
use fleet_agent.Json.{Json, Fields, str, obj, field}
use fleet_agent.Threads.Units.{utf16, is_blank, trim}
use fleet_agent.InlineData.{text}
use fleet_agent.Process.Tabs.{ProcessPanelTab, artifacts}
use fleet_agent.Workspace.{
  Change, set_process_panel_open, set_process_panel_tab, set_selected_artifact_id,
}

pub record ArtifactData : Type 0 where
  pub id : List ℕ
  pub name : List ℕ
  pub media_type : List ℕ
  pub download_url : List ℕ

-- `typeof value === 'string' ? value.trim() : ''`
abbrev whole_text : Option Json → List ℕ
whole_text (some (str s)) = trim (utf16 s)
whole_text _ = []

-- `url.startsWith(prefix)`
abbrev pub begins_with : List ℕ → List ℕ → Bool
begins_with [] url = true
begins_with (c ∷ cs) [] = false
begins_with (c ∷ cs) (d ∷ ds) = nat_eq c d && begins_with cs ds

abbrev pub artifacts_prefix : List ℕ
artifacts_prefix = units "/api/artifacts/"

abbrev pub is_refused : ArtifactData → Bool
is_refused d =
    is_blank d.id
    || is_blank d.name
    || is_blank d.media_type
    || not (begins_with artifacts_prefix d.download_url)

abbrev pub artifact_of : Fields → ArtifactData
artifact_of fs = record {
  id = text (field "id" fs) 120;
  name = text (field "name" fs) 240;
  media_type = text (field "mediaType" fs) 120;
  download_url = whole_text (field "downloadUrl" fs);
}

unfoldable pub parse_artifact_data : Json → Option ArtifactData
parse_artifact_data (obj fs) = if is_refused (artifact_of fs) then none else some (artifact_of fs)
parse_artifact_data _ = none

pub record ArtifactCard : Type 0 where
  pub label : List ℕ
  pub title : List ℕ
  pub meta : List ℕ

unfoldable pub inline_artifact_card : Json → Option ArtifactCard
inline_artifact_card value = elim (parse_artifact_data value) [
  | none ↦ none
  | some d ↦ some (record {
    label = units "Open artifact " ++ d.name;
    title = d.name;
    meta = d.media_type ++ units " · open in Artifacts";
  })
]

-- the click on the card; `id` is the identifier of the data as a text
unfoldable pub open_artifact : String → List Change
open_artifact id =
    set_process_panel_open true
    ∷ set_process_panel_tab artifacts
    ∷ set_selected_artifact_id (some id)
    ∷ []
