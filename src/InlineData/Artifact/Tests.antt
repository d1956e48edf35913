-- ===== src/InlineData/Artifact/Tests.antt =====
-- Runs of the card of an artifact.
use fleet_agent.Base.{◌≡◌, refl, true, some, units, is_space, if◌then◌else◌}
use fleet_agent.Json.{Json, str, obj, end, property, field}
use fleet_agent.Threads.Units.{utf16, trim, is_blank}
use fleet_agent.InlineData.{text}
use fleet_agent.InlineData.Artifact.{ArtifactData, parse_artifact_data, open_artifact}
use fleet_agent.InlineData.Artifact.Laws.{
  IsArtifact, parse_artifact_data-IsArtifact, changes_all, open_artifact-place,
}
use fleet_agent.Process.Tabs.{artifacts}
use fleet_agent.Workspace.{Workspace, initial_state}
use fleet_agent.Workspace.Panes.{compact, is_compact, in_panel, process_place, sheet}

abbrev first : Workspace
first = record { is_dark = true; state = initial_state }

open_artifact-place_example :
    ((changes_all true (open_artifact "a") first).state.selected_artifact_id ≡ some "a")
    × ((changes_all true (open_artifact "a") first).state.process_panel_tab ≡ artifacts)
    × (process_place compact (changes_all true (open_artifact "a") first).state
        ≡ (if is_compact compact then sheet initial_state.process_sheet_open else in_panel))
open_artifact-place_example = open_artifact-place compact true "a" first

abbrev event : Json
event = obj (
    property "id" (str " a1 ") (
      property "name" (str "Report") (
        property "mediaType" (str "text/plain")
          (property "downloadUrl" (str "/api/artifacts/a1") end))))

abbrev parsed_event : ArtifactData
parsed_event = record {
  id = units "a1";
  name = units "Report";
  media_type = units "text/plain";
  download_url = units "/api/artifacts/a1";
}

event-parsed : parse_artifact_data event ≡ some parsed_event
unfolding parse_artifact_data field text utf16 trim is_space is_blank
event-parsed = refl

parse_artifact_data-IsArtifact_example : IsArtifact parsed_event
parse_artifact_data-IsArtifact_example =
    parse_artifact_data-IsArtifact event parsed_event event-parsed
