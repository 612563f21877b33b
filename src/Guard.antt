-- ===== src/Guard.antt =====
-- The guard before commands that write hardware (internal/runtimeguard/control.go). What git and the
-- system answer is a parameter, and so is filepath.Clean.
mod Types
mod Commands
mod Git
pub mod Known
pub mod Window
mod Tests
unfoldable pub use Types.*
unfoldable pub use Commands.*
unfoldable pub use Git.*
use a21_stackchan_workmate.Base.{
  ℕ, Bool, true, false, not, ◌&&◌, ◌||◌, Option, none, some, List, [], ◌∷◌, ◌++◌, ltb,
  if◌then◌else◌, is_empty, Text, codes, text_eq, trim_space, has_prefix, decimal,
}

pub record ControlGuardInput : Type 0 where
  pub command : Text
  pub tier : Text
  pub cwd : Text

pub record ControlGuardReport : Type 0 where
  pub command : Text
  pub tier : Text
  pub spec : ControlCommandSpec
  pub git : ControlGitState
  pub result : Result

-- The tier and the spec that count: those of a known command, or what the caller declared.
abbrev pub tier_of : Option ControlCommandSpec → Text → Text
tier_of (some spec) tier = spec.tier
tier_of none tier = tier

abbrev pub spec_of : Option ControlCommandSpec → Text → Text → ControlCommandSpec
spec_of (some spec) command tier = spec
spec_of none command tier =
    if is_empty tier
    then plain_spec [] [] []
    else plain_spec command tier (codes "caller declared command")

abbrev pub window_prefix : Text
window_prefix = codes "codex/a21-hardware-window-"

abbrev pub is_background : Environment → ControlGitState → Text → Bool
is_background e git cwd =
    is_codex_background_worktree e.clean git.worktree_path
    || is_codex_background_worktree e.clean cwd

unfoldable pub hardware_findings :
    Environment → ControlGuardInput → ControlCommandSpec → Text → ControlGitState → List Finding
unfolding is_codex_background_worktree has_prefix when
hardware_findings e input spec tier git =
    if text_eq tier (codes "T7") || spec.requires_hardware_window
    then when ((spec.rejects_detached_head || spec.requires_hardware_window) && git.detached_head) (
        blocking (codes "control_detached_head")
          (codes "A21 hardware writes must not run from detached HEAD") git.commit)
      ++ (when (spec.requires_hardware_window && not (has_prefix git.branch window_prefix)) (
            blocking (codes "control_hardware_window_branch_required")
              (codes "A21 hardware writes require a codex/a21-hardware-window-* branch") git.branch)
          ++ (when (spec.requires_clean_worktree && ltb 0 git.dirty_file_count) (
                blocking (codes "control_dirty_worktree")
                  (codes "A21 hardware writes require a clean worktree")
                  (decimal git.dirty_file_count ++ codes " dirty files"))
              ++ when (spec.rejects_background_worktree && is_background e git input.cwd) (
                  blocking (codes "control_background_worktree")
                    (codes
                      "A21 hardware writes must run in the foreground hardware window, not a background Codex worktree")
                    git.worktree_path)))
    else []

unfoldable pub evaluate_control_guard : Environment → ControlGuardInput → ControlGuardReport
unfolding hardware_findings new_result when
evaluate_control_guard e input =
    let command = normalize_control_command input.command in
    let known = lookup_control_command_spec command in
    let tier = tier_of known (trim_space input.tier) in
    let spec = spec_of known command tier in
    let (git, git_findings) = detect_control_git_state e input.cwd in
    record {
      command = command;
      tier = tier;
      spec = spec;
      git = git;
      result = new_result (
          when (is_empty command) (
            blocking (codes "control_command_required")
              (codes "A21 control guard requires a command name") [])
          ++ (when (is_empty tier) (
                blocking (codes "control_tier_required")
                  (codes "A21 control guard requires a tool tier or known command") [])
              ++ (git_findings
                  ++ (when (spec.blocked_until_adr || text_eq tier (codes "T8")) (
                        blocking (codes "control_t8_blocked_until_adr")
                          (codes
                            "A21 T8 command is blocked until an ADR and reviewed execute guard approve it")
                          command)
                      ++ hardware_findings e input spec tier git))));
    }
