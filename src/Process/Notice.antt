-- ===== src/Process/Notice.antt =====
-- features/process-panel/run-metrics.tsx: how a run ended, and what it used.
pub mod Laws
use fleet_agent.Base.{
  ℕ, ◌+◌, String, Bool, true, false, not, Option, none, some, List, [], ◌∷◌, ◌++◌, ◌==◌, ◌&&◌, ◌||◌,
  any, nat_eq, units, decimal, is_empty, if◌then◌else◌,
}
use fleet_agent.Threads.Units.{utf16}
use fleet_agent.Process.State.{RunMetrics}
use fleet_agent.Process.Status.{format_duration}

-- `filter(Boolean)` of what may be left out
abbrev pub some_of {ℓ} : {A : Type ℓ} → List (Option A) → List A
some_of [] = []
some_of (none ∷ rest) = some_of rest
some_of (some a ∷ rest) = a ∷ some_of rest

-- `parts.join(' · ')`
abbrev pub joined : List (List ℕ) → List ℕ
joined [] = []
joined (p ∷ []) = p
joined (p ∷ q ∷ rest) = p ++ units " · " ++ joined (q ∷ rest)

-- `${count} ${noun}${count === 1 ? '' : 's'}`
abbrev pub counted : ℕ → List ℕ → List ℕ
counted count noun = decimal count ++ b' ' ∷ noun ++ (if nat_eq count 1 then [] else b's' ∷ [])

abbrev pub map_some {ℓ κ} : {A : Type ℓ} {B : Type κ} → (A → B) → Option A → Option B
map_some f none = none
map_some f (some a) = some (f a)

-- `RunMetricsLine`; `to_locale` is the browser's `toLocaleString`
unfoldable pub run_metrics_line : (ℕ → Bool) → (ℕ → List ℕ) → RunMetrics → List ℕ
run_metrics_line tie to_locale m = joined (
    some_of (
      map_some (λ ms. format_duration tie (some ms)) m.duration_ms
      ∷ some (counted m.tool_call_count (units "tool"))
      ∷ map_some (λ n. counted n (units "model call")) m.model_call_count
      ∷ map_some (λ n. to_locale n ++ units " tokens") m.total_tokens
      ∷ []))

-- The first entry of a table under a key.
unfoldable pub lookup : List (String × String) → String → Option String
lookup [] key = none
lookup ((k, v) ∷ rest) key = if k == key then some v else lookup rest key

-- `TERMINATION_LABELS`
abbrev pub termination_labels : List (String × String)
termination_labels =
    ("submit", "Completed normally")
    ∷ ("synthesis", "Completed normally")
    ∷ ("forced_submit", "Stopped early — answer may be incomplete")
    ∷ ("max_iters", "Stopped: iteration limit reached")
    ∷ ("empty_tool_calls", "Stopped: the agent returned no actions")
    ∷ ("parse_error", "Stopped: the agent response could not be parsed")
    ∷ ("context_window_exceeded", "Stopped: conversation is too long for the model")
    ∷ ("timeout", "Stopped: the agent run timed out")
    ∷ ("cancelled", "Run cancelled")
    ∷ ("server_restart", "Stopped: the server restarted during the run")
    ∷ ("approval_required", "Waiting for approval")
    ∷ ("approval_expired", "Approval expired")
    ∷ ("approval_invalid", "Approval could not be applied")
    ∷ ("failed", "Run failed")
    ∷ []

abbrev pub internal_error : String
internal_error = "The agent run failed."

-- packages/contracts/error-codes.json
abbrev pub error_code_labels : List (String × String)
error_code_labels =
    ("agent_timeout", "The agent did not finish in time. Please try again.")
    ∷ (
      "agent_no_output",
      "The agent finished without producing a final answer. Please try rephrasing your request.",
    )
    ∷ ("agent_parse_error", "The agent's response could not be parsed. Please try again.")
    ∷ (
      "agent_context_limit",
      "The conversation is too long for the model. Please start a new thread.",
    )
    ∷ ("tool_timeout", "A tool call timed out.")
    ∷ ("tool_failed", "A tool call failed.")
    ∷ ("tool_unauthorized", "A tool was not permitted to perform that action.")
    ∷ ("rate_limited", "The system is busy right now. Please retry in a moment.")
    ∷ ("run_cancelled", "The run was cancelled.")
    ∷ ("provider_override_invalid", "The selected provider settings are invalid.")
    ∷ (
      "provider_request_rejected",
      "The selected provider rejected the request. Check the model, endpoint, and tool-call format in provider settings.",
    )
    ∷ (
      "provider_unauthorized",
      "The language model rejected the configured API key. Check the provider credentials and base URL.",
    )
    ∷ ("approval_expired", "The approval request is no longer available.")
    ∷ ("approval_invalid", "The approval response is invalid.")
    ∷ ("internal_error", internal_error)
    ∷ []

-- `Set.has`
unfoldable pub is_among : List String → String → Bool
is_among set s = any (λ t. t == s) set

abbrev pub normal_terminations : List String
normal_terminations = "submit" ∷ "synthesis" ∷ []

abbrev pub caution_terminations : List String
caution_terminations =
    "forced_submit" ∷ "approval_required" ∷ "approval_expired" ∷ "approval_invalid" ∷ []

abbrev pub quiet_terminations : List String
quiet_terminations = "cancelled" ∷ []

pub data NoticeTone : Type 0 where
  normal caution quiet problem : NoticeTone

-- What an optional text says, if it is truthy.
abbrev pub said : Option String → Option String
said none = none
said (some s) = if is_empty s then none else some s

abbrev pub reason_tone : Option String → NoticeTone
reason_tone none = problem
reason_tone (some reason) =
    if is_among normal_terminations reason
    then normal
    else if is_among caution_terminations reason
    then caution
    else if is_among quiet_terminations reason
    then quiet
    else problem

unfoldable pub notice_tone : Option String → Option String → NoticeTone
notice_tone reason error_code = elim (said error_code) [
  | some code ↦ problem
  | none ↦ reason_tone (said reason)
]

abbrev pub or_else {ℓ} : {A : Type ℓ} → Option A → A → A
or_else none d = d
or_else (some a) d = a

abbrev pub error_label : String → String
error_label code = or_else (lookup error_code_labels code) internal_error

abbrev pub reason_label : String → String
reason_label reason = or_else (lookup termination_labels reason) reason

-- The quieter text under the title: the reason, unless it says the same.
abbrev pub detail_of : Option String → String → Option String
detail_of none title = none
detail_of (some reason) title =
    if reason_label reason == title then none else some (reason_label reason)

-- a title, and a detail under it
unfoldable pub notice_copy : Option String → Option String → String × Option String
notice_copy reason error_code = elim (said error_code) [
  | some code ↦ (error_label code, detail_of (said reason) (error_label code))
  | none ↦ elim (said reason) [ some r ↦ (reason_label r, none) | none ↦ ("Run failed", none) ]
]

pub data NoticeIcon : Type 0 where
  warning done info : NoticeIcon

abbrev pub notice_icon : NoticeTone → NoticeIcon
notice_icon problem = warning
notice_icon caution = warning
notice_icon normal = done
notice_icon quiet = info

abbrev pub is_problem : NoticeTone → Bool
is_problem problem = true
is_problem _ = false

pub record NoticeView : Type 0 where
  pub is_alert : Bool
  pub tone : NoticeTone
  pub icon : NoticeIcon
  pub title : String
  pub detail : Option String
  pub code : Option String

abbrev pub notice_view : Option String → Option String → NoticeView
notice_view reason error_code =
    let tone = notice_tone reason error_code in
    let copy = notice_copy reason error_code in
    record {
      is_alert = is_problem tone;
      tone = tone;
      icon = notice_icon tone;
      title = copy.0;
      detail = copy.1;
      code = said error_code;
    }

abbrev pub shown_if_said : Option String → Option String → NoticeView → Option NoticeView
shown_if_said none none view = none
shown_if_said none (some code) view = some view
shown_if_said (some reason) code view = some view

-- `TerminationNotice`: nothing, when neither a reason nor a code is there
unfoldable pub termination_notice : Option String → Option String → Option NoticeView
termination_notice reason error_code =
    shown_if_said (said reason) (said error_code) (notice_view reason error_code)
