-- ===== src/Planner/Boundary.antt =====
-- Which path a plan takes (BuildPlan of internal/agentplan/planner.go).
use a21_stackchan_workmate.Base.{
  ◌≡◌, sym, inl, inr, Bool, true, false, not, ◌&&◌, ◌||◌, Option, none, some, arith, if◌then◌else◌,
  Bool-cases, is_empty, trim_space,
}
use mathlib.Core.Path.{subst}
use a21_stackchan_workmate.Protocol.{Mode, professional, co_creation, roleplay}
use a21_stackchan_workmate.Planner.{
  ExecutionPath, native_core, agent_io_path, v21_professional, PrivacyState, private_privacy,
  professional_only, mode_privacy, PlannerRequest, AgentIoMessage, Plan, is_private,
  is_professional, normalize_privacy, is_agent_io_mode, can_use_agent_io, build_agent_io_message,
  effective_mode, plan_agent_io, build_plan, first_plan, add_finding, finalize_plan,
  v21_blocked_private, v21_requires_professional,
}

-- The mode and the privacy that a request comes to.
abbrev mode_of : PlannerRequest → Mode
mode_of request = effective_mode request.mode

abbrev privacy_of : PlannerRequest → PrivacyState
privacy_of request = normalize_privacy (mode_of request) request.privacy_state

-- Professional mode, unless the request asks for privacy.
abbrev pub wants_v21 : Mode → PrivacyState → Bool
wants_v21 professional private_privacy = false
wants_v21 professional _ = true
wants_v21 _ _ = false

-- The two modes for agents, unless the request keeps what it says to itself or to professionals.
abbrev pub wants_agent : Mode → PrivacyState → Bool
wants_agent co_creation private_privacy = false
wants_agent co_creation professional_only = false
wants_agent co_creation _ = true
wants_agent roleplay private_privacy = false
wants_agent roleplay professional_only = false
wants_agent roleplay _ = true
wants_agent _ _ = false

-- An endpoint with a name is enabled and configured.
abbrev pub has_endpoint : PlannerRequest → Bool
has_endpoint r =
    r.agent_binding.enabled
    && r.agent_binding.endpoint_configured
    && not (is_empty (trim_space r.agent_binding.name))

-- No professional mode is one for an agent.
modes_apart : (m : Mode) → is_professional m ≡ true → is_agent_io_mode m ≡ false
unfolding is_agent_io_mode
modes_apart m h = ground arith

-- The four fields of a plan that say where it goes.
abbrev pub Goes : Plan → ExecutionPath → Bool → Bool → Option AgentIoMessage → Type 0
Goes plan path v21 agent message =
    (plan.execution_path ≡ path)
    × (plan.v21_allowed ≡ v21)
    × (plan.agent_io_allowed ≡ agent)
    × (plan.agent_io ≡ message)

-- What the code asks for a message to an agent and for V21.
abbrev asks_agent : PlannerRequest → Bool
asks_agent r = can_use_agent_io (mode_of r) (privacy_of r) && has_endpoint r

abbrev asks_v21 : PlannerRequest → Bool
asks_v21 r = is_professional (mode_of r) && not (is_private (privacy_of r))

asks_agent-wants :
    (r : PlannerRequest) → asks_agent r ≡ (wants_agent r.mode r.privacy_state && has_endpoint r)
unfolding can_use_agent_io is_agent_io_mode normalize_privacy mode_privacy
asks_agent-wants r = ground arith

asks_v21-wants : (r : PlannerRequest) → asks_v21 r ≡ wants_v21 r.mode r.privacy_state
unfolding normalize_privacy mode_privacy
asks_v21-wants r = ground arith

plan_agent_io-Goes :
    (r : PlannerRequest) (plan : Plan)
    → Goes plan native_core false false none
    → Goes
        (plan_agent_io r (mode_of r) (privacy_of r) plan)
        (if asks_agent r then agent_io_path else native_core)
        false
        (asks_agent r)
        (if asks_agent r then some (build_agent_io_message r (mode_of r)) else none)
unfolding plan_agent_io
plan_agent_io-Goes r plan h = ground arith

-- The plan that the branches on agent I/O are given.
abbrev asked_plan : PlannerRequest → Plan
asked_plan r =
    let mode = mode_of r in
    let privacy = privacy_of r in
    let start = first_plan r mode privacy in
    let private_v21_blocked = is_private privacy && (is_professional mode || r.v21_requested) in
    let blocked = if private_v21_blocked then add_finding v21_blocked_private start else start in
    if r.v21_requested && not private_v21_blocked
    then add_finding v21_requires_professional blocked
    else blocked

asked_plan-Goes : (r : PlannerRequest) → Goes (asked_plan r) native_core false false none
asked_plan-Goes r = ground arith

build_plan-other :
    (r : PlannerRequest)
    → is_professional (mode_of r) ≡ false
    → build_plan r ≡ finalize_plan (plan_agent_io r (mode_of r) (privacy_of r) (asked_plan r))
unfolding build_plan
build_plan-other r h =
    elim (Bool-cases
      (is_private (privacy_of r) && (is_professional (mode_of r) || r.v21_requested))) [
        | inl e ↦ rw (e, h)
        | inr e ↦ rw (e, h)
      ]

build_plan-professional :
    (r : PlannerRequest)
    → is_professional (mode_of r) ≡ true
    → Goes
        (build_plan r)
        (if is_private (privacy_of r) then native_core else v21_professional)
        (not (is_private (privacy_of r)))
        false
        none
unfolding build_plan
build_plan-professional r h = elim (Bool-cases (is_private (privacy_of r))) [
  | inl e ↦ rw (e, h) (ground arith)
  | inr e ↦ rw (e, h) (ground arith)
]

-- No professional mode is one for an agent.
asks_agent-professional :
    (r : PlannerRequest) → is_professional (mode_of r) ≡ true → asks_agent r ≡ false
unfolding can_use_agent_io
asks_agent-professional r h = ground (arith, modes_apart (mode_of r))

-- The same in the words of the code.
build_plan-path :
    (r : PlannerRequest)
    → Goes
        (build_plan r)
        (if asks_v21 r
          then v21_professional
          else if asks_agent r
          then agent_io_path
          else native_core)
        (asks_v21 r)
        (asks_agent r)
        (if asks_agent r then some (build_agent_io_message r (mode_of r)) else none)
build_plan-path r = elim (Bool-cases (is_professional (mode_of r))) [
  | inl e ↦
      let g = build_plan-professional r e in
      let no_agent = asks_agent-professional r e in
      elim (Bool-cases (is_private (privacy_of r))) [
        | inl q ↦ rw (e, q, no_agent) (rw q at g)
        | inr q ↦ rw (e, q, no_agent) (rw q at g)
      ]
  | inr e ↦
      let g = plan_agent_io-Goes r (asked_plan r) (asked_plan-Goes r) in
      let at_plan : Goes (build_plan r) (if asks_agent r then agent_io_path else native_core) false
          (asks_agent r)
          (if asks_agent r then some (build_agent_io_message r (mode_of r)) else none) =
        subst
          (λ (plan : Plan).
            Goes plan (if asks_agent r then agent_io_path else native_core) false (asks_agent r)
              (if asks_agent r then some (build_agent_io_message r (mode_of r)) else none))
          (sym (build_plan-other r e)) g in
      rw e at_plan
]

-- A plan goes to V21 exactly where the request names professional mode and not private privacy; it
-- asks an external agent, with the message that is built for it, exactly where the request names
-- co-creation or roleplay, neither private nor professional-only privacy, and an endpoint with a
-- name that is enabled and configured; and it stays native otherwise.
pub build_plan-Goes :
    (r : PlannerRequest)
    → let v21 = wants_v21 r.mode r.privacy_state in
      let agent = wants_agent r.mode r.privacy_state && has_endpoint r in
      Goes
        (build_plan r)
        (if v21 then v21_professional else if agent then agent_io_path else native_core)
        v21
        agent
        (if agent then some (build_agent_io_message r (effective_mode r.mode)) else none)
build_plan-Goes r = rw (← asks_v21-wants r, ← asks_agent-wants r) (build_plan-path r)
