-- ===== src/Guard/Tests.antt =====
-- Runs of the control guard, and its theorems at concrete inputs.
use a21_stackchan_workmate.Base.{
  ◌≡◌, ◌↔◌, refl, true, false, List, [], ◌∷◌, Text, codes, text_eq, trim_space, trim_left,
  trim_right, is_space, trim_prefix, has_prefix, fields, fields_func, join, split, contains, lookup,
  decimal, digits_above, if◌then◌else◌,
}
use a21_stackchan_workmate.Guard.{
  Environment, Answer, said, erred, ControlGuardInput, evaluate_control_guard,
  detect_control_git_state, read_git_state, count_control_status_lines, lookup_control_command_spec,
  lookup_normalized, control_command_specs, flashing_spec, is_raw_write, command_has_flag,
  normalize_control_command, hardware_findings, is_codex_background_worktree, new_result, any_block,
  when,
}
use a21_stackchan_workmate.Guard.Window.{
  Readable, IsHardwareWindow, evaluate_control_guard-ok_iff, evaluate_control_guard_of_declared,
}

-- A git that answers the four questions alike in every directory.
abbrev answering : Text → Text → Text → List Text → Answer
answering branch status directory [] = erred (codes "no command")
answering branch status directory (word ∷ []) = erred (codes "no such command")
answering branch status directory (word ∷ flag ∷ rest) =
    if text_eq word (codes "status")
    then said status
    else if text_eq flag (codes "--show-toplevel")
    then said (codes "/work/a21\n")
    else if text_eq flag (codes "--abbrev-ref")
    then said branch
    else said (codes "0123456789ab\n")

abbrev here : Text → Text → Environment
here branch status = record {
  git = answering branch status;
  getwd = said (codes "/work/a21");
  clean = λ path. path;
}

abbrev window : Environment
window = here (codes "codex/a21-hardware-window-7\n") []

abbrev dirty_main : Environment
dirty_main = here (codes "main\n") (codes " M a.go\n?? b.go\n")

abbrev flash : ControlGuardInput
flash = record {
  command = codes "a21 xiaozhi-firmware-flash --port /dev/ttyACM0 --execute";
  tier = [];
  cwd = [];
}

abbrev unknown_flash : ControlGuardInput
unknown_flash = record { command = codes "my-flash --execute"; tier = codes "T7"; cwd = [] }

passes_on_window : (evaluate_control_guard window flash).result.ok ≡ true
unfolding evaluate_control_guard detect_control_git_state read_git_state count_control_status_lines
    lookup_control_command_spec lookup_normalized control_command_specs flashing_spec is_raw_write
    command_has_flag normalize_control_command hardware_findings is_codex_background_worktree
    new_result any_block when text_eq trim_space trim_left trim_right is_space trim_prefix
    has_prefix fields fields_func join split contains lookup decimal digits_above
passes_on_window = refl

stops_on_dirty_main : (evaluate_control_guard dirty_main flash).result.ok ≡ false
unfolding evaluate_control_guard detect_control_git_state read_git_state count_control_status_lines
    lookup_control_command_spec lookup_normalized control_command_specs flashing_spec is_raw_write
    command_has_flag normalize_control_command hardware_findings is_codex_background_worktree
    new_result any_block when text_eq trim_space trim_left trim_right is_space trim_prefix
    has_prefix fields fields_func join split contains lookup decimal digits_above
stops_on_dirty_main = refl

evaluate_control_guard-ok_iff_example :
    ((evaluate_control_guard window flash).result.ok ≡ true) ↔ IsHardwareWindow window []
unfolding evaluate_control_guard detect_control_git_state read_git_state count_control_status_lines
    lookup_control_command_spec lookup_normalized control_command_specs flashing_spec is_raw_write
    command_has_flag normalize_control_command hardware_findings is_codex_background_worktree
    new_result any_block when text_eq trim_space trim_left trim_right is_space trim_prefix
    has_prefix fields fields_func join split contains lookup decimal digits_above
evaluate_control_guard-ok_iff_example = evaluate_control_guard-ok_iff window flash refl

unknown_flash-Readable : Readable dirty_main []
unfolding trim_space text_eq
unknown_flash-Readable = record {
  directory = codes "/work/a21";
  root = codes "/work/a21";
  branch = codes "main";
  commit = codes "0123456789ab";
  status = codes "M a.go\n?? b.go";
  found = refl;
  says_root = refl;
  says_branch = refl;
  says_commit = refl;
  says_status = refl;
}

evaluate_control_guard_of_declared_example :
    (evaluate_control_guard dirty_main unknown_flash).result.ok ≡ true
unfolding evaluate_control_guard detect_control_git_state read_git_state count_control_status_lines
    lookup_control_command_spec lookup_normalized control_command_specs flashing_spec is_raw_write
    command_has_flag normalize_control_command hardware_findings is_codex_background_worktree
    new_result any_block when text_eq trim_space trim_left trim_right is_space trim_prefix
    has_prefix fields fields_func join split contains lookup decimal digits_above
evaluate_control_guard_of_declared_example =
    evaluate_control_guard_of_declared dirty_main unknown_flash refl refl refl
      unknown_flash-Readable
