-- ===== src/Planner/Message.antt =====
-- The message to an external agent and what memory it may hold (internal/agentplan/planner.go).
use a21_stackchan_workmate.Base.{
  ℕ, Bool, true, false, not, ◌&&◌, ◌||◌, List, [], ◌∷◌, ◌++◌, leb, ◌==◌, if◌then◌else◌, length,
  take, is_empty, Text, codes, is_space, trim_space,
}
use a21_stackchan_workmate.Protocol.{Mode, roleplay}
use a21_stackchan_workmate.Planner.Types.{
  MemorySource, MemoryItem, MemorySnippet, PlannerRequest, InputSource, AgentIoMessage, task_window,
  user_preference, project_convention, configuration_choice, task_summary_source,
  fallback_current_turn, fallback_minimal,
}

-- strings.Fields: the runs of runes that are no white space; `cur` is the run being read.
unfoldable pub fields_from : Text → Text → List Text
fields_from cur [] = if is_empty cur then [] else cur ∷ []
fields_from cur (c ∷ s) =
    let closed = cur ∷ fields_from [] s in
    let skipped = fields_from [] s in
    let longer = fields_from (cur ++ c ∷ []) s in
    if is_space c then (if is_empty cur then skipped else closed) else longer

-- strings.Join with one space.
unfoldable pub join_spaces : List Text → Text
join_spaces [] = []
join_spaces (t ∷ []) = t
join_spaces (t ∷ u ∷ ts) = t ++ (b' ' ∷ join_spaces (u ∷ ts))

unfoldable pub one_line : Text → Text
one_line value = join_spaces (fields_from [] (trim_space value))

unfoldable pub truncate_runes : Text → ℕ → Text
truncate_runes value limit =
    if limit == 0 || leb (length value) limit then value else take limit value

unfoldable pub task_summary_of : Text → Text → Text × InputSource
task_summary_of summary transcript =
    if not (is_empty (one_line summary))
    then (one_line summary, task_summary_source)
    else if not (is_empty (one_line transcript))
    then (truncate_runes (one_line transcript) 240, fallback_current_turn)
    else (
      codes "A21 task context is minimal; ask for a concise draft that A21 can rewrite.",
      fallback_minimal,
    )

abbrev pub is_task_window : MemorySource → Bool
is_task_window task_window = true
is_task_window _ = false

abbrev pub is_preference : MemorySource → Bool
is_preference user_preference = true
is_preference project_convention = true
is_preference configuration_choice = true
is_preference _ = false

abbrev pub snippet : MemoryItem → MemorySnippet
snippet item = record {
  id = item.id;
  source = item.source;
  text = truncate_runes (one_line item.text) 180;
}

unfoldable pub allowed_memory : List MemoryItem → List MemorySnippet
allowed_memory [] = []
allowed_memory (item ∷ items) =
    let rest = allowed_memory items in
    if item.sensitive || not (is_task_window item.source)
    then rest
    else if is_empty (one_line item.text)
    then rest
    else snippet item ∷ rest

unfoldable pub allowed_preferences : List MemoryItem → List MemorySnippet
allowed_preferences [] = []
allowed_preferences (item ∷ items) =
    let rest = allowed_preferences items in
    if item.sensitive
    then rest
    else if is_preference item.source && not (is_empty (one_line item.text))
    then snippet item ∷ rest
    else rest

abbrev pub default_expected_output : Mode → Text
default_expected_output roleplay = codes "roleplay draft for A21 to rewrite"
default_expected_output _ = codes "co-creation draft for A21 to rewrite"

abbrev pub default_agent_io_constraints : List Text
default_agent_io_constraints =
    codes "Return draft text only; A21 decides user-facing wording"
    ∷ codes "Do not call firmware, device-control, provider-secret, or V21-internal tools"
    ∷ codes "Do not store private, V21 evidence, or raw external-agent output as memory"
    ∷ []

abbrev pub boundary_rules : List Text
boundary_rules =
    codes "A21 remains the voice, persona, privacy, memory, and expression authority"
    ∷ codes
        "External agent output is a draft and must be rewritten by A21 before user-facing expression"
    ∷ codes
        "No V21 evidence body, private history, firmware command, device control, or provider secret may be sent"
    ∷ []

unfoldable pub compact_strings : List Text → List Text
compact_strings [] = []
compact_strings (value ∷ values) =
    let rest = compact_strings values in
    if is_empty (one_line value) then rest else one_line value ∷ rest

unfoldable pub first_line : List Text → Text
first_line [] = []
first_line (value ∷ values) =
    if is_empty (one_line value) then first_line values else one_line value

unfoldable pub build_agent_io_message : PlannerRequest → Mode → AgentIoMessage
build_agent_io_message request mode =
    let (summary, input_source) =
      task_summary_of request.task_summary request.current_turn_transcript in
    record {
      external_agent_name = trim_space request.agent_binding.name;
      trace_id = trim_space request.trace_id;
      session_id = trim_space request.session_id;
      mode = mode;
      task_summary = summary;
      expected_output = first_line (request.expected_output ∷ default_expected_output mode ∷ []);
      constraints = default_agent_io_constraints ++ compact_strings request.constraints;
      task_window_memory = allowed_memory request.task_window_memory;
      preferences = allowed_preferences request.non_sensitive_preferences;
      input_source = input_source;
      boundary = boundary_rules;
    }
