-- ===== src/Process/Status.antt =====
-- features/process-panel/status-chip.tsx, and formatSize of artifacts-tab.tsx. Texts are UTF-16 code
-- units.
pub mod Rounding
use fleet_agent.Base.{
  ℕ, ◌+◌, ◌*◌, ◌/◌, ◌%◌, Bool, true, false, Option, none, some, List, [], ◌∷◌, ◌++◌, ltb, nat_eq,
  units, decimal, if◌then◌else◌,
}
use fleet_agent.Process.State.{
  RunStatus, StepStatus, DecisionStatus, ToolCallStatus, ArtifactStatus,
}

pub data AnyStatus : Type 0 where
  idle queued pending considering generating running interrupted completed accepted ready failed
        rejected cancelled :
      AnyStatus

-- The statuses of each kind are statuses.
abbrev pub of_run : RunStatus → AnyStatus
of_run RunStatus.idle = AnyStatus.idle
of_run RunStatus.queued = AnyStatus.queued
of_run RunStatus.running = AnyStatus.running
of_run RunStatus.interrupted = AnyStatus.interrupted
of_run RunStatus.completed = AnyStatus.completed
of_run RunStatus.failed = AnyStatus.failed
of_run RunStatus.cancelled = AnyStatus.cancelled

abbrev pub of_step : StepStatus → AnyStatus
of_step StepStatus.pending = AnyStatus.pending
of_step StepStatus.running = AnyStatus.running
of_step StepStatus.completed = AnyStatus.completed
of_step StepStatus.failed = AnyStatus.failed

abbrev pub of_decision : DecisionStatus → AnyStatus
of_decision DecisionStatus.considering = AnyStatus.considering
of_decision DecisionStatus.accepted = AnyStatus.accepted
of_decision DecisionStatus.rejected = AnyStatus.rejected

abbrev pub of_tool : ToolCallStatus → AnyStatus
of_tool ToolCallStatus.pending = AnyStatus.pending
of_tool ToolCallStatus.running = AnyStatus.running
of_tool ToolCallStatus.completed = AnyStatus.completed
of_tool ToolCallStatus.failed = AnyStatus.failed

abbrev pub of_artifact : ArtifactStatus → AnyStatus
of_artifact ArtifactStatus.generating = AnyStatus.generating
of_artifact ArtifactStatus.ready = AnyStatus.ready
of_artifact ArtifactStatus.failed = AnyStatus.failed

pub data Icon : Type 0 where
  circle clock spinner slash check cross : Icon

-- `ICONS`
abbrev pub icon : AnyStatus → Icon
icon AnyStatus.idle = circle
icon AnyStatus.queued = clock
icon AnyStatus.pending = circle
icon AnyStatus.considering = clock
icon AnyStatus.generating = spinner
icon AnyStatus.running = spinner
icon AnyStatus.interrupted = slash
icon AnyStatus.completed = check
icon AnyStatus.accepted = check
icon AnyStatus.ready = check
icon AnyStatus.failed = cross
icon AnyStatus.rejected = cross
icon AnyStatus.cancelled = slash

-- `LABELS`
abbrev pub label : AnyStatus → List ℕ
label AnyStatus.idle = units "Idle"
label AnyStatus.queued = units "Queued"
label AnyStatus.pending = units "Pending"
label AnyStatus.considering = units "Considering"
label AnyStatus.generating = units "Generating"
label AnyStatus.running = units "Running"
label AnyStatus.interrupted = units "Waiting for approval"
label AnyStatus.completed = units "Completed"
label AnyStatus.accepted = units "Accepted"
label AnyStatus.ready = units "Ready"
label AnyStatus.failed = units "Failed"
label AnyStatus.rejected = units "Rejected"
label AnyStatus.cancelled = units "Cancelled"

-- `StatusIcon`: the icon and what it is called, unless it is decorative
pub record IconView : Type 0 where
  pub shape : Icon
  pub name : Option (List ℕ)

abbrev pub status_icon : AnyStatus → Bool → IconView
status_icon status decorative = record {
  shape = icon status;
  name = if decorative then none else some (units "status: " ++ label status);
}

pub data Tone : Type 0 where
  red green amber strong faint : Tone

abbrev pub tone : AnyStatus → Tone
tone AnyStatus.failed = red
tone AnyStatus.rejected = red
tone AnyStatus.completed = green
tone AnyStatus.accepted = green
tone AnyStatus.ready = green
tone AnyStatus.interrupted = amber
tone AnyStatus.running = strong
tone AnyStatus.generating = strong
tone _ = faint

pub record ChipView : Type 0 where
  pub icon : IconView
  pub text : List ℕ
  pub tone : Tone

abbrev pub status_chip : AnyStatus → ChipView
status_chip status = record {
  icon = status_icon status true;
  text = label status;
  tone = tone status;
}

-- A number of tenths, as `toFixed(1)` writes it.
abbrev pub tenths_text : ℕ → List ℕ
tenths_text n = decimal (n / 10) ++ b'.' ∷ decimal (n % 10)

-- The tenths of a second that are nearest. Halfway between two, `toFixed` looks at the floating-point
-- quotient, which may lie on either side: `tie` says whether it rounds up.
unfoldable pub tenths_of_second : (ℕ → Bool) → ℕ → ℕ
tenths_of_second tie ms =
    let q = ms / 100 in
    let r = ms % 100 in
    if ltb r 50 then q else if nat_eq r 50 then (if tie ms then q + 1 else q) else q + 1

unfoldable pub format_duration : (ℕ → Bool) → Option ℕ → List ℕ
format_duration tie none = units "—"
format_duration tie (some ms) =
    if ltb ms 1000
    then decimal ms ++ units "ms"
    else tenths_text (tenths_of_second tie ms) ++ units "s"

-- The tenths of a unit of 2^k bytes, of which the quotient is exact: halfway, `toFixed` rounds up.
unfoldable pub tenths_of_unit : ℕ → ℕ → ℕ
tenths_of_unit unit_bytes size = (20 * size + unit_bytes) / (2 * unit_bytes)

unfoldable pub format_size : Option ℕ → Option (List ℕ)
format_size none = none
format_size (some size) =
    if ltb size 1024
    then some (decimal size ++ units " B")
    else if ltb size (1024 * 1024)
    then some (tenths_text (tenths_of_unit 1024 size) ++ units " KB")
    else some (tenths_text (tenths_of_unit (1024 * 1024) size) ++ units " MB")
