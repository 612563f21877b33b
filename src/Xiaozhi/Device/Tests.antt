-- ===== src/Xiaozhi/Device/Tests.antt =====
-- Runs of the device events' functions at concrete inputs.
use a21_stackchan_workmate.Base.{
  ◌≡◌, refl, false, some, [], ◌∷◌, codes, text_eq, one_of, is_space, trim_left, trim_right,
  trim_space, lower_rune, to_lower, has_prefix, contains, byte_len, all_runes, is_digit, is_lower,
  is_upper, pos,
}
use a21_stackchan_workmate.Xiaozhi.Identity.{
  ok, Identity, contains_legacy_identity, first_non_empty, safe_id_component, resolve_identity,
  is_component_rune, component_round, component_loop, cut_left, cut_right,
}
use a21_stackchan_workmate.Xiaozhi.Frame.{HelloFeatures}
use a21_stackchan_workmate.Xiaozhi.Device.{
  DeviceExtensionEvent, stackchan_profile, Echo, clamp_y_angle, put_echo, is_echo_rune,
  safe_device_runtime_echo_value, echo_round, echo_loop, normalize_device_runtime_echo, legacy_echo,
  check_kind, normal_texts, normalize_device_extension_event, device_extension_allowed,
}
use a21_stackchan_workmate.Xiaozhi.Device.Echo.{IsEcho}
use a21_stackchan_workmate.Xiaozhi.Device.Normal.{
  Legal, IsCurrent, normalize_device_extension_event-Legal,
}
use a21_stackchan_workmate.Xiaozhi.Device.Wire.{
  DeviceExtensionWire, new_wire, assign_device_event_value, build_device_extension_event,
  parse_device_extension_event,
}
use a21_stackchan_workmate.Xiaozhi.Device.RoundTrip.{carried, parse_device_extension_event-build}

-- An allowed entry, one with a key that is not allowed, and the first key again.
abbrev some_echo : Echo
some_echo =
    (codes " Battery_Level", codes "88 ")
    ∷ (codes "wifi", codes "on")
    ∷ (codes "battery_level", codes "90")
    ∷ []

echo_test : normalize_device_runtime_echo some_echo ≡ (codes "battery_level", codes "90") ∷ []
unfolding normalize_device_runtime_echo echo_loop echo_round put_echo one_of text_eq byte_len
    safe_device_runtime_echo_value is_echo_rune all_runes to_lower lower_rune trim_space trim_left
    trim_right is_space is_lower is_upper is_digit
echo_test = refl

abbrev far_nod : DeviceExtensionEvent
far_nod = record {
  kind = codes "Motion";
  value = codes " NOD ";
  y_angle = pos 120;
  stream_id = [];
  source = [];
  text = [];
  reason = codes "greeting";
  runtime_echo = [];
}

abbrev nod : DeviceExtensionEvent
nod = record {
  kind = codes "motion";
  value = codes "nod";
  y_angle = pos 85;
  stream_id = [];
  source = [];
  text = [];
  reason = codes "greeting";
  runtime_echo = [];
}

nod_normalizes : normalize_device_extension_event far_nod ≡ ok nod
unfolding normalize_device_extension_event normal_texts check_kind clamp_y_angle legacy_echo
    normalize_device_runtime_echo echo_loop one_of text_eq contains_legacy_identity contains
    has_prefix to_lower lower_rune trim_space trim_left trim_right is_space
nod_normalizes = refl

-- Only a touch's source is checked.
abbrev sourced_state : DeviceExtensionEvent
sourced_state = record {
  kind = codes "state";
  value = codes "idle";
  y_angle = pos 0;
  stream_id = [];
  source = codes "x21";
  text = [];
  reason = [];
  runtime_echo = [];
}

source_test : normalize_device_extension_event sourced_state ≡ ok sourced_state
unfolding normalize_device_extension_event normal_texts check_kind legacy_echo
    normalize_device_runtime_echo echo_loop one_of text_eq contains_legacy_identity contains
    has_prefix to_lower lower_rune trim_space trim_left trim_right is_space
source_test = refl

normalize_device_extension_event-Legal_example : Legal nod × IsCurrent nod × IsEcho nod.runtime_echo
normalize_device_extension_event-Legal_example =
    normalize_device_extension_event-Legal far_nod nod nod_normalizes

abbrev desk : Identity
desk = record { device_id = codes "desk"; trace_id = codes "t"; session_id = codes "s" }

abbrev no_features : HelloFeatures
no_features = record {
  mcp = false;
  aec = false;
  device_events = false;
  playback_events = false;
  keepalive_events = false;
  touch_events = false;
  debug_metrics = false;
}

abbrev nod_wire : DeviceExtensionWire
nod_wire = record (new_wire desk) {
  event = codes "motion";
  name = codes "nod";
  reason = codes "greeting";
  y_angle = some (pos 85);
}

nod_builds : build_device_extension_event desk no_features stackchan_profile far_nod ≡ ok nod_wire
unfolding build_device_extension_event device_extension_allowed assign_device_event_value
    resolve_identity first_non_empty safe_id_component component_loop component_round
    is_component_rune cut_left cut_right is_lower is_upper is_digit normalize_device_extension_event
    normal_texts check_kind clamp_y_angle legacy_echo normalize_device_runtime_echo echo_loop one_of
    text_eq contains_legacy_identity contains has_prefix to_lower lower_rune trim_space trim_left
    trim_right is_space
nod_builds = refl

parse_device_extension_event-build_example :
    (e : DeviceExtensionEvent) × (normalize_device_extension_event far_nod ≡ ok e)
    × (parse_device_extension_event nod_wire ≡ ok (carried e))
parse_device_extension_event-build_example =
    parse_device_extension_event-build desk no_features stackchan_profile far_nod nod_wire
      nod_builds
