-- ===== src/Planner/Types.antt =====
-- The request, the plan and their parts (internal/agentplan/planner.go, lines 10 to 129). A finding
-- stands for its code and message, a marker for its text; `strings.ToUpper(string(mode))` on the
-- native screen is kept as `upper_of`.
use a21_stackchan_workmate.Base.{Bool, true, false, Option, List, Text}
use a21_stackchan_workmate.Protocol.{Mode, professional, ExpressionState}

pub data ExecutionPath : Type 0 where
  native_core agent_io_path v21_professional : ExecutionPath

pub data MemoryPolicy : Type 0 where
  no_memory ephemeral candidate confirmed_save professional_pointer_only : MemoryPolicy

pub data PrivacyState : Type 0 where
  default_privacy public_privacy private_privacy professional_only no_privacy : PrivacyState
  other_privacy : Text → PrivacyState

pub data MemorySource : Type 0 where
  task_window user_preference project_convention configuration_choice : MemorySource
  private_source companion_source v21_evidence external_raw : MemorySource
  other_source : Text → MemorySource

pub record MemoryItem : Type 0 where
  pub id : Text
  pub source : MemorySource
  pub text : Text
  pub sensitive : Bool

pub record MemorySnippet : Type 0 where
  pub id : Text
  pub source : MemorySource
  pub text : Text

pub record AgentIoBinding : Type 0 where
  pub enabled : Bool
  pub name : Text
  pub endpoint_configured : Bool

pub record PlannerRequest : Type 0 where
  pub trace_id : Text
  pub session_id : Text
  pub device_id : Text
  pub mode : Mode
  pub privacy_state : PrivacyState
  pub task_summary : Text
  pub current_turn_transcript : Text
  pub expected_output : Text
  pub constraints : List Text
  pub task_window_memory : List MemoryItem
  pub non_sensitive_preferences : List MemoryItem
  pub agent_binding : AgentIoBinding
  pub v21_requested : Bool

pub data InputSource : Type 0 where
  task_summary_source fallback_current_turn fallback_minimal : InputSource

pub record AgentIoMessage : Type 0 where
  pub external_agent_name : Text
  pub trace_id : Text
  pub session_id : Text
  pub mode : Mode
  pub task_summary : Text
  pub expected_output : Text
  pub constraints : List Text
  pub task_window_memory : List MemorySnippet
  pub preferences : List MemorySnippet
  pub input_source : InputSource
  pub boundary : List Text

pub data Screen : Type 0 where
  agent_io_screen pro_v21_screen private_screen : Screen
  upper_of : Mode → Screen

pub data OutputHint : Type 0 where
  draft_pending evidence_pending a21_native local_only : OutputHint

pub record ExpressionPlan : Type 0 where
  pub state : ExpressionState
  pub screen : Screen
  pub output_hint : OutputHint

pub data Finding : Type 0 where
  v21_blocked_private agent_io_blocked_private agent_io_blocked_professional : Finding
  v21_requires_professional agent_io_not_configured agent_io_blocked_mode : Finding

pub data Marker : Type 0 where
  plan_start policy_selected scenario_selected message_sent plan_selected : Marker

pub record Plan : Type 0 where
  pub trace_id : Text
  pub session_id : Text
  pub device_id : Text
  pub mode : Mode
  pub privacy_state : PrivacyState
  pub execution_path : ExecutionPath
  pub persona_pack : Text
  pub memory_policy : MemoryPolicy
  pub scenario_playbook : Text
  pub v21_allowed : Bool
  pub agent_io_allowed : Bool
  pub agent_io : Option AgentIoMessage
  pub expression : ExpressionPlan
  pub markers : List Marker
  pub findings : List Finding

abbrev pub is_private : PrivacyState → Bool
is_private private_privacy = true
is_private _ = false

abbrev pub is_professional_only : PrivacyState → Bool
is_professional_only professional_only = true
is_professional_only _ = false

abbrev pub is_professional : Mode → Bool
is_professional professional = true
is_professional _ = false
