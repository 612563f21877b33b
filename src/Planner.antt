-- ===== src/Planner.antt =====
-- The agent planner (internal/agentplan/planner.go): privacy, policies and the plan.
mod Types
mod Message
unfoldable pub use Types.*
unfoldable pub use Message.*
mod Tests
pub mod Boundary
pub mod Memory
use a21_stackchan_workmate.Base.{
  ℕ, zero, suc, ◌+◌, ◌-◌, ◌*◌, ◌/◌, ◌%◌, ◌^◌, ◌≤◌, ◌<◌, ◌≡◌, refl, sym, ap, ◌∙◌, ◌≢◌, ◌↔◌, ◌⊎◌, inl,
  inr, Bool, true, false, not, ◌&&◌, ◌||◌, Option, none, some, List, [], ◌∷◌, ◌++◌, map, arith, ltb,
  leb, ◌==◌, if◌then◌else◌, Bool-cases, Option-cases, length, take, drop, is_empty, length-append,
  length-drop, length-take-le, All, All-append, All-drop, Text, codes, text_eq, text_eq_iff,
  text_eq_refl, one_of, is_space, trim_left, trim_right, trim_space, lower_rune, to_lower,
  has_prefix, contains, byte_len, decimal, all_runes, is_digit, is_lower, is_upper, trim_space_idem,
  trim_space_of_no_space, to_lower_idem, trim_space-to_lower_idem, ℤ, pos, negsuc, is_nat, below,
  above,
}
use a21_stackchan_workmate.Protocol.{
  Mode, workmate, co_creation, roleplay, professional, focus, public, private, no_mode,
  ExpressionState, listening, thinking, professional_expression,
}

unfoldable pub mode_privacy : Mode → PrivacyState
mode_privacy private = private_privacy
mode_privacy public = public_privacy
mode_privacy professional = professional_only
mode_privacy _ = default_privacy

unfoldable pub normalize_privacy : Mode → PrivacyState → PrivacyState
normalize_privacy mode no_privacy = mode_privacy mode
normalize_privacy mode default_privacy = mode_privacy mode
normalize_privacy mode explicit = explicit

unfoldable pub is_agent_io_mode : Mode → Bool
is_agent_io_mode co_creation = true
is_agent_io_mode roleplay = true
is_agent_io_mode _ = false

unfoldable pub can_use_agent_io : Mode → PrivacyState → Bool
can_use_agent_io mode privacy =
    is_agent_io_mode mode && not (is_private privacy) && not (is_professional_only privacy)

unfoldable pub memory_policy : Mode → PrivacyState → PlannerRequest → MemoryPolicy
memory_policy mode privacy request =
    if is_private privacy
    then ephemeral
    else if is_professional mode
    then professional_pointer_only
    else if not (is_empty (allowed_preferences request.non_sensitive_preferences))
    then candidate
    else if is_agent_io_mode mode
    then ephemeral
    else no_memory

abbrev pub mode_pack : Mode → Text
mode_pack professional = codes "professional_evidence"
mode_pack co_creation = codes "co_creation_rewriter"
mode_pack roleplay = codes "office_roleplay"
mode_pack focus = codes "quiet_focus"
mode_pack _ = codes "workmate_default"

unfoldable pub persona_pack : Mode → PrivacyState → Text
persona_pack mode privacy =
    if is_private privacy then codes "private_boundary_workmate" else mode_pack mode

unfoldable pub scenario_playbook : Mode → Text
scenario_playbook co_creation = codes "messy_input_to_usable_language"
scenario_playbook roleplay = codes "office_scenario_rehearsal"
scenario_playbook professional = codes "v21_evidence_handoff"
scenario_playbook focus = codes "low_interruption_focus"
scenario_playbook _ = codes "default_workmate"

abbrev pub private_expression_plan : ExpressionPlan
private_expression_plan = record {
  state = listening;
  screen = private_screen;
  output_hint = local_only;
}

abbrev pub native_expression : Mode → ExpressionPlan
native_expression private = private_expression_plan
native_expression mode = record {
  state = listening;
  screen = upper_of mode;
  output_hint = a21_native;
}

unfoldable pub expression_plan : Mode → ExecutionPath → ExpressionPlan
expression_plan mode agent_io_path = record {
  state = thinking;
  screen = agent_io_screen;
  output_hint = draft_pending;
}
expression_plan mode v21_professional = record {
  state = professional_expression;
  screen = pro_v21_screen;
  output_hint = evidence_pending;
}
expression_plan mode native_core = native_expression mode

abbrev pub finalize_plan : Plan → Plan
finalize_plan plan = record plan { markers = plan.markers ++ plan_selected ∷ [] }

abbrev pub add_finding : Finding → Plan → Plan
add_finding f plan = record plan { findings = plan.findings ++ f ∷ [] }

abbrev pub effective_mode : Mode → Mode
effective_mode no_mode = workmate
effective_mode mode = mode

-- The plan as BuildPlan first sets it.
abbrev pub first_plan : PlannerRequest → Mode → PrivacyState → Plan
first_plan request mode privacy = record {
  trace_id = trim_space request.trace_id;
  session_id = trim_space request.session_id;
  device_id = trim_space request.device_id;
  mode = mode;
  privacy_state = privacy;
  execution_path = native_core;
  persona_pack = persona_pack mode privacy;
  memory_policy = memory_policy mode privacy request;
  scenario_playbook = scenario_playbook mode;
  v21_allowed = false;
  agent_io_allowed = false;
  agent_io = none;
  expression = expression_plan mode native_core;
  markers = plan_start ∷ policy_selected ∷ scenario_selected ∷ [];
  findings = [];
}

-- The branches on agent I/O at the end of BuildPlan.
unfoldable pub plan_agent_io : PlannerRequest → Mode → PrivacyState → Plan → Plan
plan_agent_io request mode privacy plan =
    let binding = request.agent_binding in
    if can_use_agent_io mode privacy
    then if binding.enabled
        && binding.endpoint_configured
        && not (is_empty (trim_space binding.name))
      then record plan {
        execution_path = agent_io_path;
        agent_io_allowed = true;
        agent_io = some (build_agent_io_message request mode);
        expression = expression_plan mode agent_io_path;
        markers = plan.markers ++ message_sent ∷ [];
      }
      else add_finding agent_io_not_configured plan
    else if is_agent_io_mode mode
    then add_finding agent_io_blocked_private plan
    else if binding.enabled
    then add_finding agent_io_blocked_mode plan
    else plan

unfoldable pub build_plan : PlannerRequest → Plan
build_plan request =
    let mode = effective_mode request.mode in
    let privacy = normalize_privacy mode request.privacy_state in
    let private_v21_blocked =
      is_private privacy && (is_professional mode || request.v21_requested) in
    let start = first_plan request mode privacy in
    let blocked = if private_v21_blocked then add_finding v21_blocked_private start else start in
    if private_v21_blocked && is_professional mode
    then (let quiet = record blocked { expression = private_expression_plan } in
        finalize_plan (
          if request.agent_binding.enabled
          then add_finding agent_io_blocked_private quiet
          else quiet))
    else if is_professional mode
    then finalize_plan (
        add_finding agent_io_blocked_professional (record blocked {
          execution_path = v21_professional;
          v21_allowed = true;
          memory_policy = professional_pointer_only;
          expression = expression_plan mode v21_professional;
        }))
    else (let asked =
          if request.v21_requested && not private_v21_blocked
          then add_finding v21_requires_professional blocked
          else blocked in
        finalize_plan (plan_agent_io request mode privacy asked))
