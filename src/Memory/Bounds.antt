-- ===== src/Memory/Bounds.antt =====
-- The hints that MemoryStateFromEnv (internal/personality/memory.go) gives.
use a21_stackchan_workmate.Base.{
  ℕ, suc, ◌+◌, ◌≤◌, ◌≡◌, ◌⊎◌, refl, ap, ◌∙◌, arith, inl, inr, Bool, true, false, not, ◌&&◌, leb,
  ltb, Bool-cases, Option, none, some, List, [], ◌∷◌, ◌++◌, is_empty, length, length-append,
  length-take-le, take, All, All-append, Text, trim_space, trim_left, trim_right, keep, split,
}
use a21_stackchan_workmate.Memory.{
  MemoryScope, user_preference, session_memory, MemoryHint, MemoryFinding, hint_truncated,
  hint_limit_reached, MemoryState, max_items, max_item_runes, unsafe_memory_hint_text,
  truncate_memory_hint_text, append_lines, append_values, append_memory_candidates,
  memory_env_values, count_hint, find_if, take_candidate, keep_hint, hint_loop, concluded,
  preferences_env, notes_env, memory_state_from_env,
}
use a21_stackchan_workmate.Memory.Cut.{truncate-unsafe}

length-trim_left : (s : Text) → length (trim_left s) ≤ length s
unfolding trim_left
length-trim_left [] = omega arith
length-trim_left (c ∷ s) = ground (arith, length-trim_left s)

length-keep : (c : ℕ) (s : Text) → length (keep c s) ≤ suc (length s)
length-keep c s = ground arith

length-trim_right : (s : Text) → length (trim_right s) ≤ length s
unfolding trim_right
length-trim_right [] = omega arith
length-trim_right (c ∷ s) = omega (arith, length-keep c (trim_right s), length-trim_right s)

length-trim_space : (s : Text) → length (trim_space s) ≤ length s
unfolding trim_space
length-trim_space s = omega (arith, length-trim_right (trim_left s), length-trim_left s)

length-cut : (n : ℕ) (s : Text) → length (trim_space (take n s)) ≤ n
length-cut n s = omega (arith, length-trim_space (take n s), length-take-le n s)

leb_le : (m n : ℕ) → leb m n ≡ true → m ≤ n
leb_le m n e = ground arith

length-truncate : (s : Text) → length ((truncate_memory_hint_text s).0) ≤ max_item_runes
unfolding truncate_memory_hint_text
length-truncate s = elim (Bool-cases (leb (length s) max_item_runes)) [
  | inl e ↦ rw e (leb_le (length s) max_item_runes e)
  | inr e ↦ rw e (length-cut max_item_runes s)
]

-- A hint of one of the two scopes.
abbrev IsKnown : MemoryHint → Type 0
IsKnown h = (h.scope ≡ user_preference) ⊎ (h.scope ≡ session_memory)

-- A hint without a marker.
abbrev IsSafe : MemoryHint → Type 0
IsSafe h = unsafe_memory_hint_text h.text ≡ false

-- As many hints as are counted, at most six, each of at most 80 runes, without a marker, and of a
-- known scope.
pub record Bounded (state : MemoryState) (hints : List MemoryHint) : Type 0 where
  pub few : length hints ≤ 6
  pub safe : All IsSafe hints
  pub brief : All (λ h. length h.text ≤ 80) hints
  pub known : All IsKnown hints
  pub counted : state.user_preference_count + state.session_memory_count ≡ length hints

-- How many hints a state has counted.
abbrev tally : MemoryState → ℕ
tally state = state.user_preference_count + state.session_memory_count

data Took (state : MemoryState) : MemoryState × Option MemoryHint → Type 0 where
  passed_over : {next : MemoryState} → tally next ≡ tally state → Took state (next, none)
  kept :
      {next : MemoryState} {hint : MemoryHint}
      → length hint.text ≤ max_item_runes
      → IsSafe hint
      → IsKnown hint
      → tally next ≡ suc (tally state)
      → Took state (next, some hint)

tally-count_hint :
    (hint : MemoryHint) (state : MemoryState)
    → IsKnown hint
    → tally (count_hint hint.scope state) ≡ suc (tally state)
tally-count_hint hint state known = elim known [
  | inl p ↦ rw p (omega arith)
  | inr p ↦ rw p (omega arith)
]

tally-find_if :
    (test : Bool) (finding : MemoryFinding) (state : MemoryState)
    → tally (find_if test finding state) ≡ tally state
tally-find_if true finding state = refl
tally-find_if false finding state = refl

take_candidate-Took :
    (candidate : MemoryHint) (state : MemoryState)
    → IsKnown candidate
    → Took state (take_candidate candidate state)
unfolding take_candidate
take_candidate-Took candidate state known =
    let text = trim_space candidate.text in
    elim (Bool-cases (is_empty text)) [
      | inl blank ↦ rw blank (passed_over refl)
      | inr filled ↦ elim (Bool-cases (unsafe_memory_hint_text text)) [
        | inl bad ↦ rw (filled, bad) (passed_over refl)
        | inr fine ↦
            let did = (truncate_memory_hint_text text).1 in
            rw (filled, fine)
              (kept (length-truncate text) (truncate-unsafe text fine) known (
                tally-count_hint candidate (find_if did hint_truncated state) known
                ∙ ap suc (tally-find_if did hint_truncated state)))
      ]
    ]

keep_hint-Bounded :
    (state : MemoryState) (hints : List MemoryHint) (took : MemoryState × Option MemoryHint)
    → ltb (length hints) max_items ≡ true
    → Bounded state hints
    → Took state took
    → Bounded took.0 (keep_hint took.1 hints)
keep_hint-Bounded state hints _ room bounded (passed_over same) = record {
  few = bounded.few;
  safe = bounded.safe;
  brief = bounded.brief;
  known = bounded.known;
  counted = same ∙ bounded.counted;
}
keep_hint-Bounded state hints _ room bounded (kept {next} {hint} brief safe known more) = record {
  few = rw (length-append hints (hint ∷ [])) (ground arith);
  safe = All-append _ hints (hint ∷ []) bounded.safe (safe, tt);
  brief = All-append _ hints (hint ∷ []) bounded.brief (brief, tt);
  known = All-append _ hints (hint ∷ []) bounded.known (known, tt);
  counted = omega (arith, more, bounded.counted, length-append hints (hint ∷ []));
}

find_if-Bounded :
    (finding : MemoryFinding) (state : MemoryState) (hints : List MemoryHint)
    → Bounded state hints
    → Bounded (find_if true finding state) hints
find_if-Bounded finding state hints bounded = record {
  few = bounded.few;
  safe = bounded.safe;
  brief = bounded.brief;
  known = bounded.known;
  counted = bounded.counted;
}

hint_loop-Bounded :
    (candidates : List MemoryHint) (state : MemoryState) (hints : List MemoryHint)
    → All IsKnown candidates
    → Bounded state hints
    → let (next, all) = hint_loop candidates state hints in Bounded next all
unfolding hint_loop
hint_loop-Bounded [] state hints known bounded = bounded
hint_loop-Bounded (candidate ∷ candidates) state hints (known, all) bounded =
    elim (Bool-cases (leb max_items (length hints))) [
      | inl full ↦ rw full (find_if-Bounded hint_limit_reached state hints bounded)
      | inr room ↦
          let took = take_candidate candidate state in
          rw room (
            hint_loop-Bounded candidates took.0 (keep_hint took.1 hints) all (
              keep_hint-Bounded state hints took (ground arith) bounded
                (take_candidate-Took candidate state known)))
    ]

append_lines-IsKnown :
    (scope : MemoryScope) (count : ℕ) (lines : List Text)
    → (scope ≡ user_preference) ⊎ (scope ≡ session_memory)
    → All IsKnown ((append_lines scope count lines).0)
append_lines-IsKnown scope count [] known = tt
append_lines-IsKnown scope count (line ∷ lines) known =
    elim (Bool-cases (is_empty (trim_space line))) [
      | inl blank ↦ rw blank (append_lines-IsKnown scope count lines known)
      | inr filled ↦ rw filled (known, append_lines-IsKnown scope (suc count) lines known)
    ]

append_values-IsKnown :
    (scope : MemoryScope) (count : ℕ) (values : List Text)
    → (scope ≡ user_preference) ⊎ (scope ≡ session_memory)
    → All IsKnown (append_values scope count values)
append_values-IsKnown scope count [] known = tt
append_values-IsKnown scope count (value ∷ values) known =
    let lines = append_lines scope count (split b'\n' value) in
    All-append IsKnown lines.0 (append_values scope lines.1 values)
      (append_lines-IsKnown scope count (split b'\n' value) known)
      (append_values-IsKnown scope lines.1 values known)

concluded-Bounded :
    (state : MemoryState) (hints : List MemoryHint)
    → Bounded state hints
    → let (next, all) = concluded (state, hints) in Bounded next all
concluded-Bounded state [] bounded =
    elim (Bool-cases (state.configured && not (is_empty state.findings))) [
      | inl e ↦ rw e (record {
        few = bounded.few;
        safe = tt;
        brief = tt;
        known = tt;
        counted = bounded.counted;
      })
      | inr e ↦ rw e bounded
    ]
concluded-Bounded state (hint ∷ hints) bounded = record {
  few = bounded.few;
  safe = bounded.safe;
  brief = bounded.brief;
  known = bounded.known;
  counted = bounded.counted;
}

-- Whatever the environment holds, the hints that `memory_state_from_env` gives are at most six,
-- each of at most 80 runes, without a marker of what is unsafe (a locator of the network or of a
-- file, a secret, a token) and of one of the two scopes, and the two counts of the state add up to
-- their number.
pub memory_state_from_env-Bounded :
    (env : List Text) → let (state, hints) = memory_state_from_env env in Bounded state hints
unfolding memory_state_from_env append_memory_candidates
memory_state_from_env-Bounded env =
    let preferences = memory_env_values env preferences_env in
    let notes = memory_env_values env notes_env in
    let candidates =
      append_values user_preference 0 preferences ++ append_values session_memory 0 notes in
    let known : All IsKnown candidates =
      All-append IsKnown (append_values user_preference 0 preferences)
        (append_values session_memory 0 notes)
        (append_values-IsKnown user_preference 0 preferences (inl refl))
        (append_values-IsKnown session_memory 0 notes (inr refl)) in
    let done = hint_loop candidates _ [] in
    concluded-Bounded done.0 done.1 (
      hint_loop-Bounded candidates _ [] known
        (record { few = omega arith; safe = tt; brief = tt; known = tt; counted = refl }))
