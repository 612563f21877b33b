-- ===== src/Guard/Commands.antt =====
-- The commands that the control guard knows (LookupControlCommandSpec, controlCommandSpecs and
-- normalizeControlCommand of internal/runtimeguard/control.go).
use a21_stackchan_workmate.Base.{
  Bool, true, false, ◌&&◌, ◌||◌, Option, none, some, List, [], ◌∷◌, ◌++◌, if◌then◌else◌, Text,
  codes, text_eq, trim_space, contains, Table, lookup, fields, join, trim_prefix,
}

pub record ControlCommandSpec : Type 0 where
  pub command : Text
  pub tier : Text
  pub label : Text
  pub requires_hardware_window : Bool
  pub blocked_until_adr : Bool
  pub requires_clean_worktree : Bool
  pub rejects_background_worktree : Bool
  pub rejects_detached_head : Bool
  pub allows_provider_network : Bool
  pub allows_explicit_v21_execution : Bool

-- A spec with its other fields at Go's zero values.
abbrev pub plain_spec : Text → Text → Text → ControlCommandSpec
plain_spec command tier label = record {
  command = command;
  tier = tier;
  label = label;
  requires_hardware_window = false;
  blocked_until_adr = false;
  requires_clean_worktree = false;
  rejects_background_worktree = false;
  rejects_detached_head = false;
  allows_provider_network = false;
  allows_explicit_v21_execution = false;
}

abbrev t7_hardware_write : Text → Text → Text × ControlCommandSpec
t7_hardware_write command label = (
  command,
  record (plain_spec command (codes "T7") label) {
    requires_hardware_window = true;
    requires_clean_worktree = true;
    rejects_background_worktree = true;
    rejects_detached_head = true;
  },
)

abbrev provider_command : Text → Text → Text × ControlCommandSpec
provider_command command label =
    (command, record (plain_spec command (codes "T4") label) { allows_provider_network = true })

unfoldable pub control_command_specs : Table ControlCommandSpec
control_command_specs =
    t7_hardware_write (codes "stackchan-official-audio-smoke-flash --execute")
      (codes "official StackChan app flash execute")
    ∷ t7_hardware_write (codes "stackchan-official-audio-smoke-flash-execute")
        (codes "official StackChan app flash execute")
    ∷ t7_hardware_write (codes "stackchan-official-baseline-flash --execute")
        (codes "official StackChan baseline diagnostic flash execute")
    ∷ t7_hardware_write (codes "stackchan-official-baseline-flash-execute")
        (codes "official StackChan baseline diagnostic flash execute")
    ∷ t7_hardware_write (codes "stackchan-official-pcm-bridge-nvs --execute")
        (codes "official StackChan PCM bridge NVS write")
    ∷ t7_hardware_write (codes "stackchan-official-pcm-bridge-nvs-execute")
        (codes "official StackChan PCM bridge NVS write")
    ∷ t7_hardware_write (codes "a21-stackchan-official-xiaozhi-compatible-flash --execute")
        (codes "A21 official Xiaozhi compatible app flash execute")
    ∷ t7_hardware_write (codes "a21-stackchan-official-xiaozhi-compatible-flash-execute")
        (codes "A21 official Xiaozhi compatible app flash execute")
    ∷ t7_hardware_write (codes "a21-stackchan-official-xiaozhi-compatible-nvs --execute")
        (codes "A21 official Xiaozhi compatible connection NVS write")
    ∷ t7_hardware_write (codes "a21-stackchan-official-xiaozhi-compatible-nvs-execute")
        (codes "A21 official Xiaozhi compatible connection NVS write")
    ∷ t7_hardware_write (codes "firmware-bootstrap-flash --execute")
        (codes "release firmware flash execute")
    ∷ t7_hardware_write (codes "firmware-bootstrap-flash-execute")
        (codes "release firmware flash execute")
    ∷ t7_hardware_write (codes "firmware-mic-probe-flash --execute")
        (codes "mic probe firmware flash execute")
    ∷ t7_hardware_write (codes "firmware-mic-probe-flash-execute")
        (codes "mic probe firmware flash execute")
    ∷ t7_hardware_write (codes "firmware-imu-probe-flash --execute")
        (codes "IMU probe firmware flash execute")
    ∷ t7_hardware_write (codes "firmware-imu-probe-flash-execute")
        (codes "IMU probe firmware flash execute")
    ∷ t7_hardware_write (codes "firmware-sensor-probe-flash --execute")
        (codes "sensor probe firmware flash execute")
    ∷ t7_hardware_write (codes "firmware-sensor-probe-flash-execute")
        (codes "sensor probe firmware flash execute")
    ∷ t7_hardware_write (codes "stackchan-official-pcm-bridge-flash --execute")
        (codes "official StackChan PCM bridge app flash execute")
    ∷ t7_hardware_write (codes "stackchan-official-pcm-bridge-flash-execute")
        (codes "official StackChan PCM bridge app flash execute")
    ∷ t7_hardware_write (codes "xiaozhi-firmware-flash --execute")
        (codes "xiaozhi firmware flash execute")
    ∷ t7_hardware_write (codes "xiaozhi-firmware-flash-execute")
        (codes "xiaozhi firmware flash execute")
    ∷ (
      codes "raw-firmware-write",
      record (plain_spec (codes "raw-firmware-write") (codes "T8")
          (codes "raw firmware write command")) { blocked_until_adr = true },
    )
    ∷ provider_command (codes "provider-smoke --execute")
        (codes "provider smoke with external execution")
    ∷ (
      codes "v21-adapter-smoke --execute",
      record (plain_spec (codes "v21-adapter-smoke --execute") (codes "T4")
          (codes "V21 adapter smoke with explicit execution")) {
            allows_explicit_v21_execution = true;
          },
    )
    ∷ provider_command (codes "local-voice-loopback --execute-text-provider")
        (codes "local voice loopback with paid text-provider execution")
    ∷ provider_command (codes "stackchan-fast-companion-turn --execute-text-provider")
        (codes "StackChan fast companion turn with paid text-provider execution")
    ∷ (
      codes "provider-realtime-fixture --execute",
      plain_spec (codes "provider-realtime-fixture --execute") (codes "T2")
          (codes "offline realtime provider fixture execute"),
    )
    ∷ []

unfoldable pub normalize_control_command : Text → Text
unfolding trim_space trim_prefix fields join
normalize_control_command command =
    let trimmed = trim_space command in
    let first = trim_prefix trimmed (codes "go run ./cmd/a21 ") in
    let second = trim_prefix first (codes "go run cmd/a21 ") in
    join (codes " ") (fields (trim_prefix second (codes "a21 ")))

abbrev pub word_in : Text → List Text → Bool
word_in flag [] = false
word_in flag (field ∷ rest) = text_eq field flag || word_in flag rest

abbrev pub has_flag : List Text → Text → Text → Bool
has_flag [] name flag = false
has_flag (first ∷ rest) name flag = text_eq first name && word_in flag rest

unfoldable pub command_has_flag : Text → Text → Text → Bool
command_has_flag command name flag = has_flag (fields command) name flag

-- A map gives the zero value for a key that it does not have.
abbrev zero_if_missing : Option ControlCommandSpec → ControlCommandSpec
zero_if_missing none = plain_spec [] [] []
zero_if_missing (some spec) = spec

abbrev pub spec_at : Text → ControlCommandSpec
spec_at command = zero_if_missing (lookup command control_command_specs)

abbrev pub flashing_commands : List Text
flashing_commands =
    codes "stackchan-official-audio-smoke-flash"
    ∷ codes "stackchan-official-baseline-flash"
    ∷ codes "stackchan-official-pcm-bridge-flash"
    ∷ codes "a21-stackchan-official-xiaozhi-compatible-flash"
    ∷ codes "a21-stackchan-official-xiaozhi-compatible-nvs"
    ∷ codes "stackchan-official-pcm-bridge-nvs"
    ∷ codes "firmware-bootstrap-flash"
    ∷ codes "firmware-mic-probe-flash"
    ∷ codes "firmware-imu-probe-flash"
    ∷ codes "firmware-sensor-probe-flash"
    ∷ codes "xiaozhi-firmware-flash"
    ∷ []

abbrev pub execute : Text
execute = codes "--execute"

-- The loop over the flashing commands; what follows it is `rest`.
unfoldable pub flashing_spec :
    List Text → Text → Option ControlCommandSpec → Option ControlCommandSpec
unfolding control_command_specs
flashing_spec [] normalized rest = rest
flashing_spec (name ∷ names) normalized rest =
    if command_has_flag normalized name execute
    then some (spec_at (name ++ codes " --execute"))
    else flashing_spec names normalized rest

unfoldable pub is_raw_write : Text → Bool
is_raw_write normalized =
    contains normalized (codes "pio run -t upload")
    || contains normalized (codes "idf.py flash")
    || (contains normalized (codes "esptool") && contains normalized (codes "write_flash"))

-- One more command with a flag, before what follows.
abbrev flagged : Text → Text → Text → Text → Option ControlCommandSpec → Option ControlCommandSpec
flagged normalized name flag key rest =
    if command_has_flag normalized name flag then some (spec_at key) else rest

abbrev or_next : Option ControlCommandSpec → Option ControlCommandSpec → Option ControlCommandSpec
or_next (some spec) rest = some spec
or_next none rest = rest

unfoldable pub lookup_normalized : Text → Option ControlCommandSpec
unfolding flashing_spec is_raw_write control_command_specs
lookup_normalized normalized = or_next (lookup normalized control_command_specs) (
    flagged normalized (codes "provider-smoke") execute (codes "provider-smoke --execute") (
      flagged normalized (codes "v21-adapter-smoke") execute (codes "v21-adapter-smoke --execute") (
        flagged normalized (codes "local-voice-loopback") (codes "--execute-text-provider")
          (codes "local-voice-loopback --execute-text-provider")
          (flagged normalized (codes "stackchan-fast-companion-turn")
            (codes "--execute-text-provider")
            (codes "stackchan-fast-companion-turn --execute-text-provider")
            (flagged normalized (codes "provider-realtime-fixture") execute
              (codes "provider-realtime-fixture --execute")
              (flashing_spec flashing_commands normalized (
                if is_raw_write normalized
                then some (spec_at (codes "raw-firmware-write"))
                else none)))))))

unfoldable pub lookup_control_command_spec : Text → Option ControlCommandSpec
unfolding lookup_normalized
lookup_control_command_spec command = lookup_normalized (normalize_control_command command)
