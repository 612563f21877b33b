-- ===== src/Planner/Tests.antt =====
-- Plans of concrete requests.
use a21_stackchan_workmate.Base.{
  ◌≡◌, refl, true, false, some, [], ◌∷◌, All, codes, is_space, trim_left, trim_right, trim_space,
}
use a21_stackchan_workmate.Protocol.{co_creation}
use a21_stackchan_workmate.Planner.{
  agent_io_path, PlannerRequest, MemoryItem, task_window, v21_evidence, no_privacy, is_task_window,
  is_preference, build_agent_io_message, build_plan, normalize_privacy, mode_privacy,
  can_use_agent_io, is_agent_io_mode, allowed_memory, one_line, fields_from, join_spaces,
  truncate_runes,
}
use a21_stackchan_workmate.Planner.Boundary.{Goes, build_plan-Goes}
use a21_stackchan_workmate.Planner.Memory.{Comes, build_plan-Comes}

abbrev note_item : MemoryItem
note_item = record {
  id = codes "m1";
  source = task_window;
  text = codes " keep  it short ";
  sensitive = false;
}

abbrev secret_item : MemoryItem
secret_item = record {
  id = codes "m2";
  source = task_window;
  text = codes "salary";
  sensitive = true;
}

abbrev evidence_item : MemoryItem
evidence_item = record {
  id = codes "m3";
  source = v21_evidence;
  text = codes "file";
  sensitive = false;
}

abbrev request : PlannerRequest
request = record {
  trace_id = codes "t";
  session_id = codes "s";
  device_id = codes "desk";
  mode = co_creation;
  privacy_state = no_privacy;
  task_summary = codes "write a mail";
  current_turn_transcript = [];
  expected_output = [];
  constraints = [];
  task_window_memory = note_item ∷ secret_item ∷ evidence_item ∷ [];
  non_sensitive_preferences = [];
  agent_binding = record { enabled = true; name = codes "writer"; endpoint_configured = true };
  v21_requested = false;
}

sent_memory_test :
    allowed_memory request.task_window_memory
    ≡ record { id = codes "m1"; source = task_window; text = codes "keep it short" } ∷ []
unfolding allowed_memory one_line fields_from join_spaces truncate_runes trim_space trim_left
    trim_right is_space
sent_memory_test = refl

Goes-to_agent :
    Goes
      (build_plan request)
      agent_io_path
      false
      true
      (some (build_agent_io_message request co_creation))
unfolding normalize_privacy mode_privacy can_use_agent_io is_agent_io_mode trim_space trim_left
    trim_right is_space
Goes-to_agent = build_plan-Goes request

build_plan-Goes_example :
    Goes
      (build_plan request)
      agent_io_path
      false
      true
      (some (build_agent_io_message request co_creation))
unfolding normalize_privacy mode_privacy can_use_agent_io is_agent_io_mode trim_space trim_left
    trim_right is_space
build_plan-Goes_example = build_plan-Goes request

message_of : (build_plan request).agent_io ≡ some (build_agent_io_message request co_creation)
message_of = (Goes-to_agent).3

build_plan-Comes_example :
    All
      (Comes is_task_window request.task_window_memory)
      (build_agent_io_message request co_creation).task_window_memory
    × All
        (Comes is_preference request.non_sensitive_preferences)
        (build_agent_io_message request co_creation).preferences
build_plan-Comes_example =
    build_plan-Comes request (build_agent_io_message request co_creation) message_of
