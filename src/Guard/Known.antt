-- ===== src/Guard/Known.antt =====
-- Every command line that flashes hardware is known as a hardware write.
use a21_stackchan_workmate.Base.{
  ◌≡◌, refl, ap, arith, inl, inr, Bool, true, false, not, ◌&&◌, ◌||◌, Option, none, some, List, [],
  ◌∷◌, ◌++◌, Bool-cases, Option-cases, Text, codes, text_eq, text_eq_iff, one_of, Table, lookup,
  fields, fields_func, is_space, trim_space, trim_prefix, contains,
}
use a21_stackchan_workmate.Guard.{
  ControlCommandSpec, control_command_specs, has_flag, command_has_flag, spec_at, flashing_commands,
  execute, flashing_spec, is_raw_write, lookup_normalized, lookup_control_command_spec,
  normalize_control_command,
}

-- A spec with every guard of a hardware write.
abbrev pub is_hardware_write : ControlCommandSpec → Bool
is_hardware_write spec =
    spec.requires_hardware_window
    && spec.requires_clean_worktree
    && spec.rejects_background_worktree
    && spec.rejects_detached_head
    && not spec.blocked_until_adr
    && text_eq spec.tier (codes "T7")

-- One of the commands stands first, and --execute behind it.
abbrev pub executes : List Text → Text → Bool
executes [] command = false
executes (name ∷ names) command = command_has_flag command name execute || executes names command

module _ {ℓ} {V : Type ℓ} (P : Text → V → Bool) where
  abbrev all_entries : Table V → Bool
  all_entries [] = true
  all_entries ((k, v) ∷ table) = P k v && all_entries table

  lookup-all_entries :
      (k : Text) (v : V) (table : Table V)
      → lookup k table ≡ some v
      → all_entries table ≡ true
      → P k v ≡ true
  unfolding lookup
  lookup-all_entries k v [] found all = cc
  lookup-all_entries k v ((j, w) ∷ table) found all = elim (Bool-cases (text_eq k j)) [
    | inl same ↦
        let e : k ≡ j = (text_eq_iff k j).0 same in
        let f : w ≡ v = ground (arith, found, same) in rw (e, ← f) (ground arith)
    | inr other ↦ lookup-all_entries k v table (ground (arith, found, other)) (ground (arith, all))
  ]

abbrev write_if_flashing : Text → ControlCommandSpec → Bool
write_if_flashing command spec = not (executes flashing_commands command) || is_hardware_write spec

known_flashes : all_entries write_if_flashing control_command_specs ≡ true
unfolding control_command_specs command_has_flag fields fields_func is_space text_eq
known_flashes = refl

-- A command line whose first word is one of the names starts with no other word.
one_of-other :
    (first other : Text) (names : List Text)
    → one_of first names ≡ true
    → one_of other names ≡ false
    → text_eq first other ≡ false
unfolding one_of
one_of-other first other [] found none_of = cc
one_of-other first other (name ∷ names) found none_of = elim (Bool-cases (text_eq first other)) [
  | inl same ↦
      let e : first ≡ other = (text_eq_iff first other).0 same in
      absurd (ground (arith, ap (λ t. one_of t (name ∷ names)) e, found, none_of))
  | inr differs ↦ differs
]

first_word : List Text → Text
first_word [] = []
first_word (first ∷ rest) = first

executes-first :
    (names : List Text) (command : Text)
    → executes names command ≡ true
    → one_of (first_word (fields command)) names ≡ true
unfolding command_has_flag one_of first_word
executes-first [] command h = h
executes-first (name ∷ names) command h = ground (arith, executes-first names command, h)

has_flag_other :
    (words : List Text) (other flag : Text)
    → text_eq (first_word words) other ≡ false
    → has_flag words other flag ≡ false
unfolding first_word
has_flag_other [] other flag h = refl
has_flag_other (first ∷ words) other flag h = ground (arith, h)

-- No command but those that flash has one of their names first.
executes-other :
    (command other flag : Text)
    → executes flashing_commands command ≡ true
    → one_of other flashing_commands ≡ false
    → command_has_flag command other flag ≡ false
unfolding command_has_flag
executes-other command other flag h differs = has_flag_other (fields command) other flag (
    one_of-other (first_word (fields command)) other flashing_commands
      (executes-first flashing_commands command h) differs)

abbrev all_writes : List Text → Bool
all_writes [] = true
all_writes (name ∷ names) =
    is_hardware_write (spec_at (name ++ codes " --execute")) && all_writes names

flashing_writes : all_writes flashing_commands ≡ true
unfolding control_command_specs lookup text_eq
flashing_writes = refl

abbrev pub IsWrite : Option ControlCommandSpec → Type 0
IsWrite found = (spec : ControlCommandSpec) × (found ≡ some spec) × (is_hardware_write spec ≡ true)

flashing_spec-IsWrite :
    (names : List Text) (command : Text) (rest : Option ControlCommandSpec)
    → all_writes names ≡ true
    → executes names command ≡ true
    → IsWrite (flashing_spec names command rest)
unfolding flashing_spec
flashing_spec-IsWrite [] command rest writes h = cc
flashing_spec-IsWrite (name ∷ names) command rest writes h =
    elim (Bool-cases (command_has_flag command name execute)) [
      | inl here ↦ rw here (spec_at (name ++ codes " --execute"), refl, ground (arith, writes))
      | inr not_here ↦ rw not_here (
          flashing_spec-IsWrite names command rest (ground (arith, writes))
            (ground (arith, h, not_here)))
    ]

imply : (a b : Bool) → (not a || b) ≡ true → a ≡ true → b ≡ true
imply a b either h = ground (arith, either, h)

write_of :
    (command : Text) (spec : ControlCommandSpec)
    → executes flashing_commands command ≡ true
    → write_if_flashing command spec ≡ true
    → is_hardware_write spec ≡ true
write_of command spec h writes =
    imply (executes flashing_commands command) (is_hardware_write spec) writes h

-- A command line that starts with a flashing command and has --execute behind it is known as a write
-- of hardware, whatever else stands on it.
pub lookup_normalized-IsWrite :
    (command : Text)
    → executes flashing_commands command ≡ true
    → IsWrite (lookup_normalized command)
unfolding lookup_normalized
lookup_normalized-IsWrite command h = elim (Option-cases (lookup command control_command_specs)) [
  | inl new ↦
      rw
        (
          new,
          executes-other command (codes "provider-smoke") execute h (unfold one_of in refl),
          executes-other command (codes "v21-adapter-smoke") execute h (unfold one_of in refl),
          executes-other command (codes "local-voice-loopback") (codes "--execute-text-provider") h
              (unfold one_of in refl),
          executes-other command (codes "stackchan-fast-companion-turn")
              (codes "--execute-text-provider") h (unfold one_of in refl),
          executes-other command (codes "provider-realtime-fixture") execute h
              (unfold one_of in refl),
        )
        (flashing_spec-IsWrite flashing_commands command _ flashing_writes h)
  | inr (spec, found) ↦
      let writes : write_if_flashing command spec ≡ true =
        lookup-all_entries write_if_flashing command spec control_command_specs found
          known_flashes in
      rw found (spec, refl, write_of command spec h writes)
]

-- No command line is known where it is empty.
pub lookup_empty : lookup_control_command_spec [] ≡ none
unfolding lookup_control_command_spec lookup_normalized control_command_specs lookup text_eq
    normalize_control_command trim_prefix command_has_flag fields fields_func flashing_spec
    is_raw_write contains trim_space
lookup_empty = refl
