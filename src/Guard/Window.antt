-- ===== src/Guard/Window.antt =====
-- What the control guard demands of a command that writes hardware.
use a21_stackchan_workmate.Base.{
  ℕ, ◌≡◌, ◌↔◌, refl, sym, ◌∙◌, arith, inl, inr, ◌⊎◌, Bool, true, false, not, ◌||◌, none, some, List,
  [], ◌∷◌, ◌++◌, ltb, Bool-cases, is_empty, Text, codes, text_eq, text_eq_iff, fields, fields_func,
  trim_space, has_prefix,
}
use a21_stackchan_workmate.Guard.{
  Finding, any_block, any_block-append, any_block-when, new_result, when, blocking,
  ControlCommandSpec, ControlGuardInput, ControlGitState, Environment, Answer, said, erred, run_git,
  show_toplevel, abbrev_ref, short_head, porcelain, head, read_git_state, directory_of,
  detect_control_git_state, count_control_status_lines, hardware_findings, is_background,
  is_codex_background_worktree, window_prefix, evaluate_control_guard, normalize_control_command,
  lookup_control_command_spec, flashing_commands, command_has_flag,
}
use a21_stackchan_workmate.Guard.Known.{
  executes, IsWrite, is_hardware_write, lookup_normalized-IsWrite,
}

-- The directory, and what git says there of the worktree, the branch, the commit and the status.
pub record Readable (e : Environment) (asked : Text) : Type 0 where
  pub directory : Text
  pub root : Text
  pub branch : Text
  pub commit : Text
  pub status : Text
  pub found : directory_of e asked ≡ said directory
  pub says_root : run_git e directory show_toplevel ≡ said root
  pub says_branch : run_git e directory abbrev_ref ≡ said branch
  pub says_commit : run_git e directory short_head ≡ said commit
  pub says_status : run_git e directory porcelain ≡ said status

abbrev state_of : (e : Environment) (asked : Text) → Readable e asked → ControlGitState
state_of e asked r = record {
  project_root = e.clean r.root;
  worktree_path = e.clean r.directory;
  branch = r.branch;
  commit = r.commit;
  detached_head = text_eq r.branch head;
  dirty_file_count = count_control_status_lines r.status;
}

detect_of_Readable :
    (e : Environment) (asked : Text) (r : Readable e asked)
    → detect_control_git_state e asked ≡ (state_of e asked r, [])
unfolding detect_control_git_state read_git_state
detect_of_Readable e asked r =
    rw (r.found, r.says_root, r.says_branch, r.says_commit, r.says_status) refl

Answer-cases : (a : Answer) → ((t : Text) × (a ≡ said t)) ⊎ ((t : Text) × (a ≡ erred t))
Answer-cases (said t) = inl (t, refl)
Answer-cases (erred t) = inr (t, refl)

-- Where no finding comes from git, git has answered every question.
readable :
    (e : Environment) (asked : Text)
    → any_block ((detect_control_git_state e asked).1) ≡ false
    → Readable e asked
unfolding detect_control_git_state read_git_state any_block
readable e asked = elim (Answer-cases (directory_of e asked)) [
  | inr (why, h) ↦ rw h (λ b. cc)
  | inl (directory, found) ↦ elim (Answer-cases (run_git e directory show_toplevel)) [
    | inr (why, h) ↦ rw (found, h) (λ b. cc)
    | inl (root, says_root) ↦ elim (Answer-cases (run_git e directory abbrev_ref)) [
      | inr (why, h) ↦ rw (found, says_root, h) (λ b. cc)
      | inl (branch, says_branch) ↦ elim (Answer-cases (run_git e directory short_head)) [
        | inr (why, h) ↦ rw (found, says_root, says_branch, h) (λ b. cc)
        | inl (commit, says_commit) ↦ elim (Answer-cases (run_git e directory porcelain)) [
          | inr (why, h) ↦ rw (found, says_root, says_branch, says_commit, h) (λ b. cc)
          | inl (status, says_status) ↦ λ b. record {
            directory = directory;
            root = root;
            branch = branch;
            commit = commit;
            status = status;
            found = found;
            says_root = says_root;
            says_branch = says_branch;
            says_commit = says_commit;
            says_status = says_status;
          }
        ]
      ]
    ]
  ]
]

-- What the guard looks at before a write of hardware, in the state that git shows.
abbrev objects : Environment → Text → ControlGitState → Bool
objects e cwd git =
    git.detached_head
    || (not (has_prefix git.branch window_prefix)
        || (ltb 0 git.dirty_file_count || is_background e git cwd))

any_block_four :
    (a b c d : Bool) (f g h k : Text) (i j l m : Text) (p q r s : Text)
    → any_block (
        when a (blocking f i p)
        ++ (when b (blocking g j q) ++ (when c (blocking h l r) ++ when d (blocking k m s))))
      ≡ (a || (b || (c || d)))
any_block_four a b c d f g h k i j l m p q r s = simp (any_block-append, any_block-when) refl

-- The guards of a write of hardware, one by one.
record Guards (spec : ControlCommandSpec) : Type 0 where
  window : spec.requires_hardware_window ≡ true
  tidy : spec.requires_clean_worktree ≡ true
  foreground : spec.rejects_background_worktree ≡ true
  attached : spec.rejects_detached_head ≡ true
  unblocked : spec.blocked_until_adr ≡ false
  seventh : spec.tier ≡ codes "T7"

guards : (spec : ControlCommandSpec) → is_hardware_write spec ≡ true → Guards spec
guards spec write = record {
  window = ground (arith, write);
  tidy = ground (arith, write);
  foreground = ground (arith, write);
  attached = ground (arith, write);
  unblocked = ground (arith, write);
  seventh = (text_eq_iff spec.tier (codes "T7")).0 (ground (arith, write));
}

hardware_findings-any_block :
    (e : Environment) (input : ControlGuardInput) (spec : ControlCommandSpec)
    (git : ControlGitState)
    → Guards spec
    → any_block (hardware_findings e input spec spec.tier git) ≡ objects e input.cwd git
unfolding hardware_findings when text_eq
hardware_findings-any_block e input spec git g =
    rw (g.seventh, g.window, g.tidy, g.foreground, g.attached)
      (any_block_four git.detached_head (not (has_prefix git.branch window_prefix))
        (ltb 0 git.dirty_file_count) (is_background e git input.cwd) _ _ _ _ _ _ _ _ _ _ _ _)

any_block_report :
    (a b c : Bool) (f g h i j l p q r : Text) (git hardware : List Finding)
    → any_block (
        when a (blocking f i p)
        ++ (when b (blocking g j q) ++ (git ++ (when c (blocking h l r) ++ hardware))))
      ≡ (a || (b || (any_block git || (c || any_block hardware))))
any_block_report a b c f g h i j l p q r git hardware = simp (any_block-append, any_block-when) refl

evaluate_control_guard-ok :
    (e : Environment) (input : ControlGuardInput) (spec : ControlCommandSpec)
    → lookup_control_command_spec (normalize_control_command input.command) ≡ some spec
    → is_empty (normalize_control_command input.command) ≡ false
    → Guards spec
    → (evaluate_control_guard e input).result.ok
      ≡ not (
          any_block ((detect_control_git_state e input.cwd).1)
          || objects e input.cwd ((detect_control_git_state e input.cwd).0))
unfolding evaluate_control_guard new_result text_eq
evaluate_control_guard-ok e input spec known some_command g =
    rw
      (
        known,
        some_command,
        any_block_report,
        hardware_findings-any_block e input spec _ g,
        g.unblocked,
        g.seventh,
      )
      refl

-- Git answers every question, on a window's branch, with a clean worktree in the foreground.
pub record IsHardwareWindow (e : Environment) (asked : Text) : Type 0 where
  pub git : Readable e asked
  pub on_window : has_prefix git.branch window_prefix ≡ true
  pub undirtied : count_control_status_lines git.status ≡ 0
  pub foreground_directory : is_codex_background_worktree e.clean (e.clean git.directory) ≡ false
  pub foreground_asked : is_codex_background_worktree e.clean asked ≡ false

window_no_head :
    (branch : Text) → has_prefix branch window_prefix ≡ true → text_eq branch head ≡ false
unfolding has_prefix
window_no_head branch on_window = elim (Bool-cases (text_eq branch head)) [
  | inr other ↦ other
  | inl same ↦
      let is_head : branch ≡ head = (text_eq_iff branch head).0 same in cc (is_head, on_window)
]

objects_iff :
    (a b c d : Bool) (n : ℕ)
    → ((a || (not b || (ltb 0 n || (c || d)))) ≡ false)
      ↔ ((a ≡ false) × (b ≡ true) × (n ≡ 0) × (c ≡ false) × (d ≡ false))
objects_iff a b c d n = ground arith

window_of :
    (e : Environment) (asked : Text)
    → any_block ((detect_control_git_state e asked).1) ≡ false
    → objects e asked ((detect_control_git_state e asked).0) ≡ false
    → IsHardwareWindow e asked
window_of e asked answered clear =
    let r = readable e asked answered in
    let clear_here : objects e asked (state_of e asked r) ≡ false =
      rw (detect_of_Readable e asked r) at clear in
    let parts =
      (objects_iff (text_eq r.branch head) (has_prefix r.branch window_prefix)
          (is_codex_background_worktree e.clean (e.clean r.directory))
          (is_codex_background_worktree e.clean asked) (count_control_status_lines r.status)).0
        clear_here in
    record {
      git = r;
      on_window = parts.1;
      undirtied = parts.2;
      foreground_directory = parts.3;
      foreground_asked = parts.4;
    }

of_window :
    (e : Environment) (asked : Text)
    → IsHardwareWindow e asked
    → (any_block ((detect_control_git_state e asked).1)
        || objects e asked ((detect_control_git_state e asked).0))
      ≡ false
unfolding any_block
of_window e asked w = rw (detect_of_Readable e asked w.git) (
    (objects_iff (text_eq w.git.branch head) (has_prefix w.git.branch window_prefix) _ _ _).1 (
      window_no_head w.git.branch w.on_window,
      w.on_window,
      w.undirtied,
      w.foreground_directory,
      w.foreground_asked,
    ))

known_command :
    (command : Text)
    → executes flashing_commands (normalize_control_command command) ≡ true
    → is_empty command ≡ false
unfolding normalize_control_command trim_space fields fields_func command_has_flag
known_command [] h = cc
known_command (c ∷ command) h = refl

lookup-IsWrite :
    (command : Text)
    → executes flashing_commands (normalize_control_command command) ≡ true
    → IsWrite (lookup_control_command_spec command)
unfolding lookup_control_command_spec
lookup-IsWrite command h = lookup_normalized-IsWrite (normalize_control_command command) h

not_iff : (b : Bool) → (not b ≡ true) ↔ (b ≡ false)
not_iff b = ground arith

any_or : (a b : Bool) → (a || b) ≡ false → (a ≡ false) × (b ≡ false)
any_or a b h = ground (arith, h)

-- A command line whose first word, behind "a21" or "go run", is one of the flashing commands and
-- that has --execute is let through exactly where git answers every question about the directory,
-- the branch is a window's, no file is changed, and neither the directory nor the one that was asked
-- for is a background worktree.
pub evaluate_control_guard-ok_iff :
    (e : Environment) (input : ControlGuardInput)
    → executes flashing_commands
        (normalize_control_command (normalize_control_command input.command))
      ≡ true
    → ((evaluate_control_guard e input).result.ok ≡ true) ↔ IsHardwareWindow e input.cwd
evaluate_control_guard-ok_iff e input h =
    let command = normalize_control_command input.command in
    let (spec, known, write) = lookup-IsWrite command h in
    let ok =
      evaluate_control_guard-ok e input spec known (known_command command h) (guards spec write) in
    (
      λ passes.
          let (answered, clear) = any_or _ _ ((not_iff _).0 (sym ok ∙ passes)) in
          window_of e input.cwd answered clear,
      λ w. ok ∙ (not_iff _).1 (of_window e input.cwd w),
    )

-- A command that the guard does not know, declared as tier T7, is let through wherever git answers
-- every question about the directory: on any branch, a detached head included, with changed files,
-- and in a background worktree.
pub evaluate_control_guard_of_declared :
    (e : Environment) (input : ControlGuardInput)
    → lookup_control_command_spec (normalize_control_command input.command) ≡ none
    → is_empty (normalize_control_command input.command) ≡ false
    → text_eq (trim_space input.tier) (codes "T7") ≡ true
    → Readable e input.cwd
    → (evaluate_control_guard e input).result.ok ≡ true
unfolding evaluate_control_guard hardware_findings new_result any_block when text_eq
evaluate_control_guard_of_declared e input unknown some_command seventh r =
    let tier : trim_space input.tier ≡ codes "T7" =
      (text_eq_iff (trim_space input.tier) (codes "T7")).0 seventh in
    rw (unknown, some_command, tier, detect_of_Readable e input.cwd r) refl
