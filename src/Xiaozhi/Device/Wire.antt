-- ===== src/Xiaozhi/Device/Wire.antt =====
-- Device events on the wire (internal/transport/xiaozhi/device_extension.go): the JSON object that
-- BuildDeviceExtensionEvent fills and ParseDeviceExtensionEvent reads. `json.Marshal` and
-- `json.Unmarshal` are left out: the functions here end and begin at the Go struct.
use a21_stackchan_workmate.Base.{
  suc, Bool, true, false, not, Option, none, some, [], ◌∷◌, if◌then◌else◌, is_empty, Text, codes,
  text_eq, trim_space, decimal, ℤ, pos, negsuc, is_nat,
}
use a21_stackchan_workmate.Xiaozhi.Identity.{
  unsupported_message_type, device_events_disabled, Result, ok, reject, ◌>>=◌, ◌>>◌, Identity,
  no_identity, resolve_identity, first_non_empty,
}
use a21_stackchan_workmate.Xiaozhi.Frame.{HelloFeatures}
use a21_stackchan_workmate.Xiaozhi.Device.{
  DeviceExtensionEvent, DeviceExtensionProfile, Echo, put_echo, normalize_device_extension_event,
  device_extension_allowed,
}

pub record DeviceExtensionWire : Type 0 where
  pub type : Text
  pub kind : Text
  pub event : Text
  pub state : Text
  pub face : Text
  pub emotion : Text
  pub display : Text
  pub slot : Text
  pub motion : Text
  pub name : Text
  pub playback : Text
  pub touch : Text
  pub source : Text
  pub y_angle : Option ℤ
  pub stream_id : Text
  pub text : Text
  pub reason : Text
  pub trace_id : Text
  pub session_id : Text
  pub device_id : Text
  pub battery_level : Option ℤ
  pub battery_charging : Option Bool
  pub battery_discharging : Option Bool
  pub external_power : Option Bool
  pub power_source : Text
  pub pmic_profile : Text
  pub pmic_power_status : Text

-- The struct with its type and identity set, as BuildDeviceExtensionEvent declares it.
abbrev pub new_wire : Identity → DeviceExtensionWire
new_wire id = record {
  type = codes "device";
  kind = [];
  event = [];
  state = [];
  face = [];
  emotion = [];
  display = [];
  slot = [];
  motion = [];
  name = [];
  playback = [];
  touch = [];
  source = [];
  y_angle = none;
  stream_id = [];
  text = [];
  reason = [];
  trace_id = id.trace_id;
  session_id = id.session_id;
  device_id = id.device_id;
  battery_level = none;
  battery_charging = none;
  battery_discharging = none;
  external_power = none;
  power_source = [];
  pmic_profile = [];
  pmic_power_status = [];
}

unfoldable pub assign_device_event_value :
    DeviceExtensionWire → DeviceExtensionEvent → DeviceExtensionWire
assign_device_event_value w' e =
    let w = record w' { event = e.kind } in
    if text_eq e.kind (codes "state")
    then record w { state = e.value }
    else if text_eq e.kind (codes "face")
    then record w { emotion = e.value }
    else if text_eq e.kind (codes "display")
    then record w { slot = e.value; text = e.text }
    else if text_eq e.kind (codes "motion")
    then record w {
      name = e.value;
      reason = e.reason;
      y_angle = if is_nat e.y_angle 0 then w.y_angle else some e.y_angle;
    }
    else if text_eq e.kind (codes "playback")
    then record w { playback = e.value; stream_id = e.stream_id }
    else if text_eq e.kind (codes "touch")
    then record w { touch = e.value; source = e.source }
    else w

unfoldable pub build_device_extension_event :
    Identity
    → HelloFeatures
    → DeviceExtensionProfile
    → DeviceExtensionEvent
    → Result DeviceExtensionWire
build_device_extension_event identity features profile event = do
  reject (not (device_extension_allowed features profile)) device_events_disabled
  resolved ← resolve_identity identity no_identity
  normalized ← normalize_device_extension_event event
  ok (assign_device_event_value (new_wire resolved) normalized)

-- strconv.Itoa and strconv.FormatBool.
unfoldable pub itoa : ℤ → Text
itoa (pos n) = decimal n
itoa (negsuc n) = b'-' ∷ decimal (suc n)

abbrev pub format_bool : Bool → Text
format_bool true = codes "true"
format_bool false = codes "false"

abbrev pub add_int : Text → Option ℤ → Echo → Echo
add_int key none echo = echo
add_int key (some n) echo = put_echo key (itoa n) echo

abbrev pub add_bool : Text → Option Bool → Echo → Echo
add_bool key none echo = echo
add_bool key (some b) echo = put_echo key (format_bool b) echo

abbrev pub add_text : Text → Text → Echo → Echo
add_text key value echo =
    let trimmed = trim_space value in if is_empty trimmed then echo else put_echo key trimmed echo

unfoldable pub device_extension_runtime_echo_from_wire : DeviceExtensionWire → Echo
device_extension_runtime_echo_from_wire w =
    add_text (codes "pmic_power_status") w.pmic_power_status (
      add_text (codes "pmic_power_key_profile") w.pmic_profile (
        add_text (codes "power_source") w.power_source (
          add_bool (codes "external_power") w.external_power (
            add_bool (codes "battery_discharging") w.battery_discharging (
              add_bool (codes "battery_charging") w.battery_charging
                (add_int (codes "battery_level") w.battery_level []))))))

abbrev pub angle_of : Option ℤ → ℤ
angle_of none = pos 0
angle_of (some y) = y

-- The `switch` on the kind of a wire object.
unfoldable pub event_of_wire : DeviceExtensionWire → DeviceExtensionEvent
event_of_wire w =
    let kind = first_non_empty (w.kind ∷ w.event ∷ []) in
    let e : DeviceExtensionEvent = record {
      kind = kind;
      value = [];
      y_angle = pos 0;
      stream_id = [];
      source = [];
      text = w.text;
      reason = w.reason;
      runtime_echo = device_extension_runtime_echo_from_wire w;
    } in
    if text_eq kind (codes "state")
    then record e { value = w.state }
    else if text_eq kind (codes "face")
    then record e { value = first_non_empty (w.face ∷ w.emotion ∷ []) }
    else if text_eq kind (codes "display")
    then record e { value = first_non_empty (w.display ∷ w.slot ∷ []) }
    else if text_eq kind (codes "motion")
    then record e { value = first_non_empty (w.motion ∷ w.name ∷ []); y_angle = angle_of w.y_angle }
    else if text_eq kind (codes "heartbeat")
    then e
    else if text_eq kind (codes "playback")
    then record e { value = w.playback; stream_id = w.stream_id }
    else if text_eq kind (codes "touch")
    then record e { value = first_non_empty (w.touch ∷ w.name ∷ []); source = w.source }
    else record e {
      value = first_non_empty (w.state ∷ w.face ∷ w.display ∷ w.motion ∷ w.playback ∷ w.touch ∷ []);
    }

-- ParseDeviceExtensionEvent, behind json.Unmarshal.
unfoldable pub parse_device_extension_event : DeviceExtensionWire → Result DeviceExtensionEvent
parse_device_extension_event w = do
  reject (not (text_eq (trim_space w.type) (codes "device"))) unsupported_message_type
  normalize_device_extension_event (event_of_wire w)
