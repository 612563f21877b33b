-- ===== src/Memory.antt =====
-- The hints that the personality remembers (internal/personality/memory.go): they are read from the
-- environment, checked, shortened and counted. A scope has a constructor for each constant and one
-- for any other string.
pub mod Bounds
pub mod Cut
mod Tests
use a21_stackchan_workmate.Base.{
  ℕ, zero, suc, ◌+◌, Bool, true, false, not, ◌&&◌, ◌||◌, ltb, leb, ◌==◌, Option, none, some, List,
  [], ◌∷◌, ◌++◌, if◌then◌else◌, length, take, drop, is_empty, Text, codes, trim_space, trim_prefix,
  has_prefix, to_lower, contains, split, decimal, all_runes, is_lower, is_upper, is_digit,
}

pub data MemoryScope : Type 0 where
  user_preference session_memory no_scope : MemoryScope
  other_scope : Text → MemoryScope

pub record MemoryHint : Type 0 where
  pub scope : MemoryScope
  pub id : Text
  pub text : Text

-- The codes of the findings; each comes with one message.
pub data MemoryFinding : Type 0 where
  hint_limit_reached hint_rejected hint_truncated : MemoryFinding

pub data MemoryStatus : Type 0 where
  empty ready blocked : MemoryStatus

-- The fields that are not the same in every state.
pub record MemoryState : Type 0 where
  pub status : MemoryStatus
  pub configured : Bool
  pub prompt_input_ready : Bool
  pub user_preference_count : ℕ
  pub session_memory_count : ℕ
  pub source_env : List Text
  pub findings : List MemoryFinding

abbrev pub max_items : ℕ
max_items = 6

abbrev pub max_item_runes : ℕ
max_item_runes = 80

abbrev scope_name : MemoryScope → Text
scope_name user_preference = codes "user_preference"
scope_name session_memory = codes "session_memory"
scope_name no_scope = []
scope_name (other_scope name) = name

abbrev unsafe_markers : List Text
unsafe_markers =
    codes "http://"
    ∷ codes "https://"
    ∷ codes "file://"
    ∷ codes "/users/"
    ∷ codes "/tmp/"
    ∷ codes "\\users\\"
    ∷ codes "secret"
    ∷ codes "token"
    ∷ codes "sk-"
    ∷ []

abbrev contains_marker : Text → List Text → Bool
contains_marker lower [] = false
contains_marker lower (marker ∷ markers) = contains lower marker || contains_marker lower markers

unfoldable pub unsafe_memory_hint_text : Text → Bool
unfolding contains to_lower
unsafe_memory_hint_text text = contains_marker (to_lower text) unsafe_markers

unfoldable pub truncate_memory_hint_text : Text → Text × Bool
unfolding trim_space
truncate_memory_hint_text text =
    if leb (length text) max_item_runes
    then (text, false)
    else (trim_space (take max_item_runes text), true)

abbrev is_id_rune : ℕ → Bool
is_id_rune r = is_lower r || is_upper r || is_digit r || r == b'_' || r == b'-'

unfoldable pub safe_memory_hint_id : Text → Text
unfolding trim_space
safe_memory_hint_id raw = let id = trim_space raw in if all_runes is_id_rune id then id else []

abbrev numbered_id : MemoryScope → ℕ → Text
numbered_id scope n = scope_name scope ++ (codes "_" ++ decimal n)

-- The lines of one value; `count` lines were taken before.
abbrev append_lines : MemoryScope → ℕ → List Text → List MemoryHint × ℕ
append_lines scope count [] = ([], count)
append_lines scope count (line ∷ lines) =
    let text = trim_space line in
    let blank = is_empty text in
    let (hints, last) = append_lines scope (if blank then count else suc count) lines in
    if blank
    then (hints, last)
    else (record { scope = scope; id = numbered_id scope (suc count); text = text } ∷ hints, last)

abbrev append_values : MemoryScope → ℕ → List Text → List MemoryHint
append_values scope count [] = []
append_values scope count (value ∷ values) =
    let (hints, last) = append_lines scope count (split b'\n' value) in
    hints ++ append_values scope last values

unfoldable pub append_memory_candidates :
    List MemoryHint → MemoryScope → List Text → List MemoryHint
unfolding split trim_space decimal
append_memory_candidates out scope values = out ++ append_values scope 0 values

-- The values of one name of the environment, in order; there is one where the list is not empty.
unfoldable pub memory_env_values : List Text → Text → List Text
unfolding trim_prefix has_prefix
memory_env_values [] name = []
memory_env_values (entry ∷ env) name =
    let prefix = name ++ codes "=" in
    let rest = memory_env_values env name in
    if has_prefix entry prefix then trim_prefix entry prefix ∷ rest else rest

-- Counting a hint that is kept.
abbrev count_hint : MemoryScope → MemoryState → MemoryState
count_hint user_preference state = record state {
  user_preference_count = suc state.user_preference_count;
}
count_hint session_memory state = record state {
  session_memory_count = suc state.session_memory_count;
}
count_hint scope state = state

abbrev find_if : Bool → MemoryFinding → MemoryState → MemoryState
find_if test finding state =
    if test then record state { findings = state.findings ++ finding ∷ [] } else state

-- One round of the loop: the state, and the hint where one is kept.
unfoldable pub take_candidate : MemoryHint → MemoryState → MemoryState × Option MemoryHint
unfolding unsafe_memory_hint_text truncate_memory_hint_text trim_space
take_candidate candidate state =
    let text = trim_space candidate.text in
    if is_empty text
    then (state, none)
    else if unsafe_memory_hint_text text
    then (find_if true hint_rejected state, none)
    else (let (truncated, did_truncate) = truncate_memory_hint_text text in
        (
          count_hint candidate.scope (find_if did_truncate hint_truncated state),
          some (record { scope = candidate.scope; id = candidate.id; text = truncated }),
        ))

abbrev keep_hint : Option MemoryHint → List MemoryHint → List MemoryHint
keep_hint none hints = hints
keep_hint (some hint) hints = hints ++ hint ∷ []

-- The loop over the candidates, with the hints that are kept so far.
unfoldable pub hint_loop :
    List MemoryHint → MemoryState → List MemoryHint → MemoryState × List MemoryHint
unfolding take_candidate
hint_loop [] state hints = (state, hints)
hint_loop (candidate ∷ candidates) state hints =
    let (next, kept) = take_candidate candidate state in
    let rest = hint_loop candidates next (keep_hint kept hints) in
    if leb max_items (length hints) then (find_if true hint_limit_reached state, hints) else rest

abbrev concluded : MemoryState × List MemoryHint → MemoryState × List MemoryHint
concluded (state, []) = (
  if state.configured && not (is_empty state.findings)
      then record state { status = blocked }
      else state,
  [],
)
concluded (state, hint ∷ hints) =
    (record state { status = ready; prompt_input_ready = true }, hint ∷ hints)

abbrev env_names : Text × List Text → Text × List Text → List Text
env_names (first, []) (second, []) = []
env_names (first, []) (second, values) = second ∷ []
env_names (first, values) (second, []) = first ∷ []
env_names (first, values) (second, values') = first ∷ second ∷ []

abbrev preferences_env : Text
preferences_env = codes "A21_MEMORY_USER_PREFERENCES"

abbrev notes_env : Text
notes_env = codes "A21_MEMORY_SESSION_NOTES"

unfoldable pub memory_state_from_env : List Text → MemoryState × List MemoryHint
unfolding memory_env_values append_memory_candidates hint_loop
memory_state_from_env env =
    let preferences = memory_env_values env preferences_env in
    let notes = memory_env_values env notes_env in
    let names = env_names (preferences_env, preferences) (notes_env, notes) in
    let candidates =
      append_memory_candidates (append_memory_candidates [] user_preference preferences)
        session_memory notes in
    let start : MemoryState = record {
      status = empty;
      configured = not (is_empty names);
      prompt_input_ready = false;
      user_preference_count = 0;
      session_memory_count = 0;
      source_env = names;
      findings = [];
    } in
    concluded (hint_loop candidates start [])

abbrev given_scope : MemoryScope → MemoryScope
given_scope no_scope = session_memory
given_scope scope = scope

abbrev given_id : Text → MemoryScope → ℕ → Text
given_id id scope n = if is_empty id then numbered_id scope n else id

-- The loop of safeMemoryHints, with the hints that are kept so far.
unfoldable pub safe_hint_loop : List MemoryHint → List MemoryHint → List MemoryHint
unfolding unsafe_memory_hint_text truncate_memory_hint_text trim_space safe_memory_hint_id decimal
safe_hint_loop [] out = out
safe_hint_loop (hint ∷ hints) out =
    let text = trim_space hint.text in
    let scope = given_scope hint.scope in
    let safe : MemoryHint = record {
      scope = scope;
      id = given_id (safe_memory_hint_id hint.id) scope (suc (length out));
      text = (truncate_memory_hint_text text).0;
    } in
    let skip = is_empty text || unsafe_memory_hint_text text in
    let rest = safe_hint_loop hints (if skip then out else out ++ safe ∷ []) in
    if leb max_items (length out) then out else rest

unfoldable pub safe_memory_hints : List MemoryHint → List MemoryHint
unfolding safe_hint_loop
safe_memory_hints hints = safe_hint_loop hints []
