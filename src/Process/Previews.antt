-- ===== src/Process/Previews.antt =====
-- features/process-panel/artifacts-tab.tsx: the preview of the selected artifact, `useArtifactPreview`.
-- A request is known by a number; an answer is the text of `apiFetchText`, or none when it failed.
pub mod Laws
use fleet_agent.Base.{
  ℕ, ◌+◌, ◌*◌, String, Bool, true, false, Option, none, some, List, [], ◌∷◌, ◌==◌, ◌&&◌, take,
  length, ltb, nat_eq, if◌then◌else◌,
}
use text.Mathlib.Text.{starts_with}
use fleet_agent.Process.State.{AgentArtifact, ArtifactStatus}

abbrev pub max_preview_chars : ℕ
max_preview_chars = 64 * 1024

pub data PreviewState : Type 0 where
  idle loading failed : PreviewState
  ready : List ℕ → Bool → PreviewState

-- the request whose answer is waited for, which `active` of its closure says, and the next number
pub record Previews : Type 0 where
  pub state : PreviewState
  pub request : Option ℕ
  pub next : ℕ

abbrev pub is_ready : ArtifactStatus → Bool
is_ready ArtifactStatus.ready = true
is_ready _ = false

abbrev is_controlled : Option String → Bool
is_controlled none = false
is_controlled (some url) = starts_with url "/api/artifacts/"

unfoldable pub can_preview : Option AgentArtifact → Bool
can_preview none = false
can_preview (some a) =
    (is_ready a.status && a.media_type == "text/markdown") && is_controlled a.download_url

-- a run of the effect, after the cleanup of the one before; React has one when the artifact's
-- address, identifier, type or status is another
unfoldable pub begin_preview : Option AgentArtifact → Previews → Previews
begin_preview artifact p =
    if can_preview artifact
    then record { state = loading; request = some p.next; next = p.next + 1 }
    else record { state = idle; request = none; next = p.next }

-- what an answer makes of the state
unfoldable pub preview_of : Option (List ℕ) → PreviewState
preview_of none = failed
preview_of (some content) =
    ready (take max_preview_chars content) (ltb max_preview_chars (length content))

abbrev is_awaited : Option ℕ → ℕ → Bool
is_awaited none number = false
is_awaited (some r) number = nat_eq r number

-- `.then` and `.catch` of the request with this number
unfoldable pub answer_request : ℕ → Option (List ℕ) → Previews → Previews
answer_request number answer p =
    if is_awaited p.request number then record p { state = preview_of answer } else p

-- the cleanup when the tab goes away
unfoldable pub ended : Previews → Previews
ended p = record p { request = none }
