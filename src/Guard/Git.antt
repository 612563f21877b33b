-- ===== src/Guard/Git.antt =====
-- What the control guard reads from git (detectControlGitState of internal/runtimeguard/control.go).
use a21_stackchan_workmate.Base.{
  ℕ, suc, Bool, false, List, [], ◌∷◌, if◌then◌else◌, is_empty, Text, codes, text_eq, trim_space,
  contains, split,
}
use a21_stackchan_workmate.Guard.Types.{Finding, blocking}

-- What a command answers: its output, or the text of its error.
pub data Answer : Type 0 where
  said : Text → Answer
  erred : Text → Answer

-- What the guard meets: the output of `git -C <directory> <arguments>`, the working directory, and
-- filepath.Clean.
pub record Environment : Type 0 where
  pub git : Text → List Text → Answer
  pub getwd : Answer
  pub clean : Text → Text

pub record ControlGitState : Type 0 where
  pub project_root : Text
  pub worktree_path : Text
  pub branch : Text
  pub commit : Text
  pub detached_head : Bool
  pub dirty_file_count : ℕ

abbrev pub no_git_state : ControlGitState
no_git_state = record {
  project_root = [];
  worktree_path = [];
  branch = [];
  commit = [];
  detached_head = false;
  dirty_file_count = 0;
}

abbrev pub not_blank : List Text → ℕ
not_blank [] = 0
not_blank (line ∷ lines) =
    if is_empty (trim_space line) then not_blank lines else suc (not_blank lines)

unfoldable pub count_control_status_lines : Text → ℕ
unfolding trim_space split
count_control_status_lines status = not_blank (split b'\n' (trim_space status))

unfoldable pub is_codex_background_worktree : (Text → Text) → Text → Bool
is_codex_background_worktree clean path = contains (clean path) (codes "/.codex/worktrees/")

abbrev pub trimmed : Answer → Answer
trimmed (said out) = said (trim_space out)
trimmed (erred why) = erred why

abbrev pub show_toplevel : List Text
show_toplevel = codes "rev-parse" ∷ codes "--show-toplevel" ∷ []

abbrev pub abbrev_ref : List Text
abbrev_ref = codes "rev-parse" ∷ codes "--abbrev-ref" ∷ codes "HEAD" ∷ []

abbrev pub short_head : List Text
short_head = codes "rev-parse" ∷ codes "--short=12" ∷ codes "HEAD" ∷ []

abbrev pub porcelain : List Text
porcelain = codes "status" ∷ codes "--porcelain" ∷ codes "--untracked-files=all" ∷ []

abbrev pub head : Text
head = codes "HEAD"

module _ (e : Environment) (cwd : Text) where
  abbrev pub run_git : List Text → Answer
  run_git arguments = trimmed (e.git cwd arguments)

  abbrev with_status : Text → Text → Text → Answer → ControlGitState × List Finding
  with_status root branch commit (said status) = (
    record {
      project_root = e.clean root;
      worktree_path = e.clean cwd;
      branch = branch;
      commit = commit;
      detached_head = text_eq branch head;
      dirty_file_count = count_control_status_lines status;
    },
    [],
  )
  with_status root branch commit (erred why) = (
    record no_git_state {
      project_root = root;
      worktree_path = e.clean cwd;
      branch = branch;
      commit = commit;
      detached_head = text_eq branch head;
    },
    blocking (codes "control_git_status_unavailable")
          (codes "A21 control guard could not read git status") why
        ∷ [],
  )

  abbrev with_commit : Text → Text → Answer → ControlGitState × List Finding
  with_commit root branch (said commit) = with_status root branch commit (run_git porcelain)
  with_commit root branch (erred why) = (
    record no_git_state { project_root = root; worktree_path = e.clean cwd; branch = branch },
    blocking (codes "control_git_commit_unavailable")
          (codes "A21 control guard could not read git commit") why
        ∷ [],
  )

  abbrev with_branch : Text → Answer → ControlGitState × List Finding
  with_branch root (said branch) = with_commit root branch (run_git short_head)
  with_branch root (erred why) = (
    record no_git_state { project_root = root; worktree_path = e.clean cwd },
    blocking (codes "control_git_branch_unavailable")
          (codes "A21 control guard could not read git branch") why
        ∷ [],
  )

  abbrev with_root : Answer → ControlGitState × List Finding
  with_root (said root) = with_branch root (run_git abbrev_ref)
  with_root (erred why) = (
    record no_git_state { worktree_path = e.clean cwd },
    blocking (codes "control_git_root_unavailable")
          (codes "A21 control guard requires a git worktree") why
        ∷ [],
  )

  unfoldable pub read_git_state : ControlGitState × List Finding
  unfolding count_control_status_lines
  read_git_state = with_root (run_git show_toplevel)

abbrev at_directory : Environment → Answer → ControlGitState × List Finding
at_directory e (said cwd) = read_git_state e cwd
at_directory e (erred why) = (
  no_git_state,
  blocking (codes "control_cwd_unavailable")
        (codes "A21 control guard could not read current working directory") why
      ∷ [],
)

-- The directory that was asked for, or the working directory where it is blank.
abbrev pub directory_of : Environment → Text → Answer
directory_of e asked = if is_empty (trim_space asked) then e.getwd else said (trim_space asked)

unfoldable pub detect_control_git_state : Environment → Text → ControlGitState × List Finding
unfolding read_git_state
detect_control_git_state e asked = at_directory e (directory_of e asked)
