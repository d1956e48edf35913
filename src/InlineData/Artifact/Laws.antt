-- ===== src/InlineData/Artifact/Laws.antt =====
-- What a card of an artifact holds, and where a click on it leads.
use fleet_agent.Base.{
  String, ◌≡◌, refl, subst, Bool, true, false, some, List, [], ◌∷◌, arith, if◌then◌else◌,
  Bool-cases, inl, inr,
}
use fleet_agent.Json.{Json, Fields, obj, field}
use fleet_agent.InlineData.Bounds.{IsText, text-short}
use fleet_agent.InlineData.Artifact.{
  is_refused, artifact_of, ArtifactData, begins_with, artifacts_prefix, parse_artifact_data,
  open_artifact,
}
use fleet_agent.Process.Tabs.{artifacts}
use fleet_agent.Workspace.{Change, Workspace, change}
use fleet_agent.Workspace.Panes.{
  Width, mobile, compact, wide, is_compact, in_panel, process_place, sheet,
}
use mathlib.Core.Option.{some-injective}

-- What the code after the parser relies on.
pub record IsArtifact (d : ArtifactData) : Type 0 where
  pub id : IsText 120 d.id
  pub name : IsText 240 d.name
  pub media_type : IsText 120 d.media_type
  pub download_url : begins_with artifacts_prefix d.download_url ≡ true

accepted : (fs : Fields) → is_refused (artifact_of fs) ≡ false → IsArtifact (artifact_of fs)
accepted fs h = record {
  id = record { visible = ground arith; short = text-short (field "id" fs) 120 };
  name = record { visible = ground arith; short = text-short (field "name" fs) 240 };
  media_type = record { visible = ground arith; short = text-short (field "mediaType" fs) 120 };
  download_url = ground arith;
}

-- An artifact that is shown has an identifier, a name and a media type that are not empty and not
-- longer than 120, 240 and 120 code units, and a URL below /api/artifacts/, whatever the event was.
pub parse_artifact_data-IsArtifact :
    (value : Json) (d : ArtifactData) → parse_artifact_data value ≡ some d → IsArtifact d
unfolding parse_artifact_data
parse_artifact_data-IsArtifact (obj fs) d h = elim (Bool-cases (is_refused (artifact_of fs))) [
  | inl refused ↦ cc (rw refused at h)
  | inr kept ↦ subst IsArtifact (some-injective _ _ (rw kept at h)) (accepted fs kept)
]
parse_artifact_data-IsArtifact _ d h = cc

abbrev pub changes_all : Bool → List Change → Workspace → Workspace
changes_all system_dark [] w = w
changes_all system_dark (c ∷ rest) w = changes_all system_dark rest (change system_dark c w)

-- A click on the card selects its artifact and the tab of artifacts. In a window of 1200 pixels or
-- more the process is then shown beside the conversation; in a narrower one, where it stands in a
-- sheet, it is shown only if the sheet was open before.
pub open_artifact-place :
    (width : Width) (system_dark : Bool) (id : String) (w : Workspace)
    → ((changes_all system_dark (open_artifact id) w).state.selected_artifact_id ≡ some id)
      × ((changes_all system_dark (open_artifact id) w).state.process_panel_tab ≡ artifacts)
      × (process_place width (changes_all system_dark (open_artifact id) w).state
          ≡ (if is_compact width then sheet w.state.process_sheet_open else in_panel))
unfolding open_artifact change process_place
open_artifact-place mobile system_dark id w = (refl, refl, refl)
open_artifact-place compact system_dark id w = (refl, refl, refl)
open_artifact-place wide system_dark id w = (refl, refl, refl)
