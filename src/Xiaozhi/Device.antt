-- ===== src/Xiaozhi/Device.antt =====
-- Device events of the xiaozhi extension (internal/transport/xiaozhi/device_extension.go and
-- ClampYAngle of builders.go). A map is an association list in the order of iteration, and a nil
-- map is the empty one.
mod Tests
pub mod Wire
pub mod Echo
pub mod Normal
pub mod RoundTrip
use a21_stackchan_workmate.Base.{
  ℕ, zero, suc, ◌+◌, ◌-◌, ◌*◌, ◌/◌, ◌%◌, ◌^◌, ◌≤◌, ◌<◌, ◌≡◌, refl, sym, ap, ◌∙◌, ◌≢◌, ◌↔◌, ◌⊎◌, inl,
  inr, Bool, true, false, not, ◌&&◌, ◌||◌, Option, none, some, List, [], ◌∷◌, ◌++◌, map, arith, ltb,
  leb, ◌==◌, if◌then◌else◌, Bool-cases, Option-cases, length, take, drop, is_empty, length-append,
  length-drop, length-take-le, All, All-append, All-drop, Text, codes, text_eq, text_eq_iff,
  text_eq_refl, one_of, is_space, trim_left, trim_right, trim_space, lower_rune, to_lower,
  has_prefix, contains, byte_len, decimal, all_runes, is_digit, is_lower, is_upper, trim_space_idem,
  trim_space_of_no_space, to_lower_idem, ℤ, pos, negsuc, is_nat, below, above,
}
use a21_stackchan_workmate.Xiaozhi.Identity.{
  Error, legacy_identity, device_events_disabled, unsupported_device_event_kind,
  unsupported_device_event_value, Result, ok, err, reject, ◌>>=◌, ◌>>◌, contains_legacy_identity,
}
use a21_stackchan_workmate.Xiaozhi.Frame.{HelloFeatures}

pub data DeviceExtensionProfile : Type 0 where
  stock_profile debug_profile stackchan_profile : DeviceExtensionProfile
  other_profile : Text → DeviceExtensionProfile

abbrev pub Echo : Type 0
Echo = List (Text × Text)

pub record DeviceExtensionEvent : Type 0 where
  pub kind : Text
  pub value : Text
  pub y_angle : ℤ
  pub stream_id : Text
  pub source : Text
  pub text : Text
  pub reason : Text
  pub runtime_echo : Echo

unfoldable pub clamp_y_angle : ℤ → ℤ
clamp_y_angle y = if below y 5 then pos 5 else if above y 85 then pos 85 else y

-- `m[key] = value`
unfoldable pub put_echo : Text → Text → Echo → Echo
put_echo key value [] = (key, value) ∷ []
put_echo key value ((k, v) ∷ m) =
    if text_eq k key then (k, value) ∷ m else (k, v) ∷ put_echo key value m

abbrev pub echo_keys : List Text
echo_keys =
    codes "battery_level"
    ∷ codes "battery_charging"
    ∷ codes "battery_discharging"
    ∷ codes "external_power"
    ∷ codes "power_source"
    ∷ codes "pmic_power_key_profile"
    ∷ codes "pmic_power_status"
    ∷ []

unfoldable pub is_echo_rune : ℕ → Bool
is_echo_rune r =
    is_lower r
    || is_upper r
    || is_digit r
    || r == b'_'
    || r == b'-'
    || r == b'.'
    || r == b':'
    || r == b'+'

unfoldable pub safe_device_runtime_echo_value : Text → Bool
safe_device_runtime_echo_value value = all_runes is_echo_rune value

-- One round of the loop over the map.
unfoldable pub echo_round : Text × Text → Echo → Echo
echo_round (key', value') normalized =
    let key = trim_space (to_lower key') in
    let value = trim_space value' in
    if is_empty key || is_empty value
    then normalized
    else if not (one_of key echo_keys)
    then normalized
    else if ltb 96 (byte_len value) || not (safe_device_runtime_echo_value value)
    then normalized
    else put_echo key value normalized

unfoldable pub echo_loop : Echo → Echo → Echo
echo_loop [] normalized = normalized
echo_loop (entry ∷ input) normalized = echo_loop input (echo_round entry normalized)

unfoldable pub normalize_device_runtime_echo : Echo → Echo
normalize_device_runtime_echo input = echo_loop input []

unfoldable pub legacy_echo : Echo → Bool
legacy_echo [] = false
legacy_echo ((key, value) ∷ m) =
    contains_legacy_identity key || contains_legacy_identity value || legacy_echo m

unfoldable pub is_stream_rune : ℕ → Bool
is_stream_rune r = is_lower r || is_digit r || r == b'.' || r == b'_' || r == b'-'

abbrev pub starts_alnum : Text → Bool
starts_alnum [] = false
starts_alnum (r ∷ rest) = is_lower r || is_digit r

-- The regular expression ^a21-[a-z0-9][a-z0-9._-]{0,91}$
unfoldable pub matches_stream_pattern : Text → Bool
matches_stream_pattern s =
    has_prefix s (codes "a21-")
    && starts_alnum (drop 4 s)
    && all_runes is_stream_rune (drop 5 s)
    && leb (length (drop 5 s)) 91

abbrev pub contains_any : Text → List Text → Bool
contains_any s [] = false
contains_any s (t ∷ ts) = contains s t || contains_any s ts

abbrev pub forbidden_stream_words : List Text
forbidden_stream_words =
    codes "secret"
    ∷ codes "token"
    ∷ codes "password"
    ∷ codes "passwd"
    ∷ codes "credential"
    ∷ codes "api_key"
    ∷ codes "apikey"
    ∷ codes "bearer"
    ∷ codes "sk-"
    ∷ []

unfoldable pub safe_playback_stream_id : Text → Bool
safe_playback_stream_id s =
    if is_empty s
    then true
    else if ltb 96 (byte_len s) || not (matches_stream_pattern s)
    then false
    else not (contains_any (to_lower s) forbidden_stream_words)

abbrev pub states : List Text
states = codes "idle" ∷ codes "listening" ∷ codes "thinking" ∷ codes "speaking" ∷ codes "error" ∷ []

abbrev pub faces : List Text
faces =
    codes "idle"
    ∷ codes "attentive"
    ∷ codes "thinking"
    ∷ codes "speaking"
    ∷ codes "happy"
    ∷ codes "error"
    ∷ []

abbrev pub displays : List Text
displays = codes "status" ∷ codes "asr" ∷ codes "tts" ∷ []

abbrev pub motions : List Text
motions = codes "look_up" ∷ codes "nod" ∷ codes "shake" ∷ codes "stop" ∷ codes "dance" ∷ []

abbrev pub playbacks : List Text
playbacks = codes "start" ∷ codes "stop_done" ∷ []

abbrev pub touches : List Text
touches =
    codes "screen_tap"
    ∷ codes "screen_barge_in"
    ∷ codes "top_tap"
    ∷ codes "top_swipe_forward"
    ∷ codes "top_swipe_backward"
    ∷ codes "top_barge_in"
    ∷ []

abbrev pub sources : List Text
sources = codes "screen" ∷ codes "top_sensor" ∷ []

abbrev pub with_value : DeviceExtensionEvent → List Text → Result DeviceExtensionEvent
with_value e values = do reject (not (one_of e.value values)) unsupported_device_event_value; ok e

-- The `switch` on the kind, over the event whose texts are normalized.
unfoldable pub check_kind : DeviceExtensionEvent → Result DeviceExtensionEvent
check_kind e =
    if text_eq e.kind (codes "state")
    then with_value e states
    else if text_eq e.kind (codes "face")
    then with_value e faces
    else if text_eq e.kind (codes "display")
    then with_value e displays
    else if text_eq e.kind (codes "motion")
    then (do
      reject (not (one_of e.value motions)) unsupported_device_event_value
      ok (record e { y_angle = if is_nat e.y_angle 0 then e.y_angle else clamp_y_angle e.y_angle }))
    else if text_eq e.kind (codes "heartbeat")
    then (do reject (not (is_empty e.value)) unsupported_device_event_value; ok e)
    else if text_eq e.kind (codes "playback")
    then (do
      reject (not (one_of e.value playbacks)) unsupported_device_event_value
      reject (not (safe_playback_stream_id e.stream_id)) unsupported_device_event_value
      ok e)
    else if text_eq e.kind (codes "touch")
    then (do
      reject (not (one_of e.value touches)) unsupported_device_event_value
      reject (not (is_empty e.source) && not (one_of e.source sources))
          unsupported_device_event_value
      ok e)
    else err unsupported_device_event_kind

-- The texts trimmed, and lower-cased where the program compares them.
unfoldable pub normal_texts : DeviceExtensionEvent → DeviceExtensionEvent
normal_texts e = record {
  kind = trim_space (to_lower e.kind);
  value = trim_space (to_lower e.value);
  y_angle = e.y_angle;
  stream_id = trim_space e.stream_id;
  source = trim_space (to_lower e.source);
  text = trim_space e.text;
  reason = trim_space e.reason;
  runtime_echo = normalize_device_runtime_echo e.runtime_echo;
}

unfoldable pub normalize_device_extension_event : DeviceExtensionEvent → Result DeviceExtensionEvent
normalize_device_extension_event event = do
  let n = normal_texts event
  reject (contains_legacy_identity n.kind || contains_legacy_identity n.value) legacy_identity
  reject
      (contains_legacy_identity n.stream_id
        || contains_legacy_identity n.text
        || contains_legacy_identity n.reason)
      legacy_identity
  reject (legacy_echo n.runtime_echo) legacy_identity
  check_kind n

unfoldable pub device_extension_allowed : HelloFeatures → DeviceExtensionProfile → Bool
device_extension_allowed features debug_profile = true
device_extension_allowed features stackchan_profile = true
device_extension_allowed features _ = features.device_events
