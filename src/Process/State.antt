-- ===== src/Process/State.antt =====
-- contracts/generated.ts: the state of a run that the agent sends. Durations, sizes and counts are
-- natural numbers; an optional property is an Option.
use fleet_agent.Base.{ℕ, String, Option, List}

pub data RunStatus : Type 0 where
  idle queued running interrupted completed failed cancelled : RunStatus

pub data StepPhase : Type 0 where
  understanding planning research analysis critique synthesis : StepPhase

pub data StepStatus : Type 0 where
  pending running completed failed : StepStatus

pub data DecisionStatus : Type 0 where
  considering accepted rejected : DecisionStatus

pub data ToolCallStatus : Type 0 where
  pending running completed failed : ToolCallStatus

pub data SourceType : Type 0 where
  web document repository database other : SourceType

pub data ArtifactStatus : Type 0 where
  generating ready failed : ArtifactStatus

pub record Run : Type 0 where
  pub id : String
  pub status : RunStatus
  pub started_at : Option String
  pub finished_at : Option String
  pub active_step_id : Option String
  pub termination_reason : Option String
  pub error_code : Option String
  pub tool_call_count : ℕ

pub record ProcessStep : Type 0 where
  pub id : String
  pub parent_id : Option String
  pub phase : StepPhase
  pub title : String
  pub public_summary : Option String
  pub status : StepStatus
  pub started_at : Option String
  pub finished_at : Option String
  pub duration_ms : Option ℕ
  pub tool_call_ids : List String
  pub source_ids : List String
  pub artifact_ids : List String

pub record ProcessDecision : Type 0 where
  pub id : String
  pub title : String
  pub alternatives : List String
  pub selected : Option String
  pub public_rationale : Option String
  pub status : DecisionStatus

pub record ToolExecution : Type 0 where
  pub id : String
  pub name : String
  pub status : ToolCallStatus
  pub input_preview : Option String
  pub output_preview : Option String
  pub error_message : Option String
  pub started_at : Option String
  pub finished_at : Option String
  pub duration_ms : Option ℕ

pub record AgentSource : Type 0 where
  pub id : String
  pub title : String
  pub source_type : SourceType
  pub uri : Option String
  pub excerpt : Option String
  pub tool_call_id : Option String

pub record AgentArtifact : Type 0 where
  pub id : String
  pub name : String
  pub media_type : String
  pub size_bytes : Option ℕ
  pub download_url : Option String
  pub status : ArtifactStatus

pub record RunMetrics : Type 0 where
  pub duration_ms : Option ℕ
  pub input_tokens : Option ℕ
  pub output_tokens : Option ℕ
  pub total_tokens : Option ℕ
  pub tool_call_count : ℕ
  pub model_call_count : Option ℕ

pub record AgentWorkspaceState : Type 0 where
  pub thread_id : String
  pub run : Run
  pub steps : List ProcessStep
  pub decisions : List ProcessDecision
  pub tool_calls : List ToolExecution
  pub sources : List AgentSource
  pub artifacts : List AgentArtifact
  pub metrics : RunMetrics
  pub caveats : Option (List String)
