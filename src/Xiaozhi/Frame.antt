-- ===== src/Xiaozhi/Frame.antt =====
-- Frames of the xiaozhi transport and text messages (internal/transport/xiaozhi/frame.go).
-- `json.Unmarshal` is a parameter: it yields the fields that each message type reads. A Go string
-- type with named constants has a constructor for each of them and one for every other string.
pub mod Hello
use a21_stackchan_workmate.Base.{
  ℕ, zero, suc, ◌+◌, ◌-◌, ◌*◌, ◌/◌, ◌%◌, ◌^◌, ◌≤◌, ◌<◌, ◌≡◌, refl, sym, ap, ◌∙◌, ◌≢◌, ◌↔◌, ◌⊎◌, inl,
  inr, Bool, true, false, not, ◌&&◌, ◌||◌, Option, none, some, List, [], ◌∷◌, ◌++◌, map, arith, ltb,
  leb, ◌==◌, if◌then◌else◌, Bool-cases, Option-cases, length, take, drop, is_empty, length-append,
  length-drop, length-take-le, All, All-append, All-drop, Text, codes, text_eq, text_eq_iff,
  text_eq_refl, one_of, is_space, trim_left, trim_right, trim_space, lower_rune, to_lower,
  has_prefix, contains, byte_len, all_runes, is_digit, is_lower, is_upper, trim_space_idem,
  trim_space_of_no_space, to_lower_idem, ℤ, pos, negsuc, is_nat, below, above,
}
use a21_stackchan_workmate.Xiaozhi.Identity.{
  Error, malformed_json, unsupported_message_type, unsupported_listen_state,
  unsupported_hello_version, unsupported_transport, unsupported_audio_params,
  unsupported_binary_protocol, Result, ok, err, reject, ◌>>=◌, ◌>>◌, Identity, resolve_identity,
}

pub data Direction : Type 0 where
  device_to_server server_to_device : Direction
  other_direction : Text → Direction

pub data FrameKind : Type 0 where
  control_kind opus_kind : FrameKind

pub data MessageType : Type 0 where
  hello_type listen_type abort_type mcp_type : MessageType
  other_type : Text → MessageType

pub record HelloFeatures : Type 0 where
  pub mcp : Bool
  pub aec : Bool
  pub device_events : Bool
  pub playback_events : Bool
  pub keepalive_events : Bool
  pub touch_events : Bool
  pub debug_metrics : Bool

-- Also `audioParamsWire`, whose fields are the same.
pub record AudioParams : Type 0 where
  pub format : Text
  pub sample_rate : ℤ
  pub channels : ℤ
  pub frame_duration : ℤ
  pub binary_protocol_version : ℤ

pub record HelloMessage : Type 0 where
  pub version : ℤ
  pub transport : Text
  pub audio_params : AudioParams
  pub features : HelloFeatures

pub record ListenMessage : Type 0 where
  pub state : Text
  pub mode : Text

pub record OpusFrame : Type 0 where
  pub codec : Text
  pub binary_version : ℤ
  pub timestamp_ms : ℕ
  pub payload_bytes : ℕ
  pub payload : List ℕ

-- `Hello`, `Listen` and `Abort` are pointers, nil for another type.
pub record ControlMessage : Type 0 where
  pub type : MessageType
  pub raw : List ℕ
  pub hello : Option HelloMessage
  pub listen : Option ListenMessage
  pub abort : Option Text

pub record Frame : Type 0 where
  pub kind : FrameKind
  pub direction : Direction
  pub device_id : Text
  pub trace_id : Text
  pub session_id : Text
  pub control : Option ControlMessage
  pub opus : Option OpusFrame

pub record ControlWire : Type 0 where
  pub type : MessageType
  pub ids : Identity

pub record HelloWire : Type 0 where
  pub version : ℤ
  pub transport : Text
  pub features : HelloFeatures
  pub audio : AudioParams
  pub audio_params : AudioParams

-- What `json.Unmarshal` makes of the bytes of a message, for each of the wire types.
pub record Decoder : Type 0 where
  pub common : List ℕ → Option ControlWire
  pub hello : List ℕ → Option HelloWire
  pub listen : List ℕ → Option ListenMessage
  pub abort : List ℕ → Option Text

abbrev pub decoded {ℓ} : {A : Type ℓ} → Option A → Result A
decoded none = err malformed_json
decoded (some a) = ok a

unfoldable pub supported_binary_protocol_version : ℤ → Bool
supported_binary_protocol_version v = is_nat v 1 || is_nat v 2 || is_nat v 3

abbrev pub or_int : ℤ → ℤ → ℤ
or_int v d = if is_nat v 0 then d else v

abbrev pub or_text : Text → Text → Text
or_text v d = if is_empty v then d else v

-- The case folding of strings.EqualFold, for a second text in lower-case ASCII.
unfoldable pub fold_rune : ℕ → ℕ
fold_rune r =
    if leb b'A' r && leb r b'Z'
    then r + 32
    else if r == 0x17f
    then b's'
    else if r == 0x212a
    then b'k'
    else r

unfoldable pub equal_fold : Text → Text → Bool
unfolding text_eq fold_rune
equal_fold s t = text_eq (map fold_rune s) t

-- It mutates the message that it is given a pointer to; here it returns the new one.
unfoldable pub validate_hello : HelloMessage → Result HelloMessage
unfolding equal_fold
validate_hello m = do
  let version = or_int m.version (pos 1)
  reject (not (supported_binary_protocol_version version)) unsupported_hello_version
  let transport = or_text m.transport (codes "websocket")
  reject (not (text_eq transport (codes "websocket"))) unsupported_transport
  reject (not (equal_fold m.audio_params.format (codes "opus"))) unsupported_audio_params
  reject (not (is_nat m.audio_params.sample_rate 16000)) unsupported_audio_params
  reject (not (is_nat m.audio_params.channels 1)) unsupported_audio_params
  reject (not (is_nat m.audio_params.frame_duration 60)) unsupported_audio_params
  let binary = or_int m.audio_params.binary_protocol_version version
  reject (not (supported_binary_protocol_version binary)) unsupported_binary_protocol
  let audio : AudioParams = record {
    format = codes "opus";
    sample_rate = m.audio_params.sample_rate;
    channels = m.audio_params.channels;
    frame_duration = m.audio_params.frame_duration;
    binary_protocol_version = binary;
  }
  ok (record {
    version = version;
    transport = transport;
    audio_params = audio;
    features = m.features;
  })

unfoldable pub first_audio_params : AudioParams → AudioParams → AudioParams
first_audio_params primary fallback =
    if not (is_empty primary.format)
      || not (is_nat primary.sample_rate 0)
      || not (is_nat primary.channels 0)
      || not (is_nat primary.frame_duration 0)
      || not (is_nat primary.binary_protocol_version 0)
    then primary
    else fallback

unfoldable pub supported_listen_state : Text → Bool
unfolding text_eq
supported_listen_state s =
    text_eq s (codes "start") || text_eq s (codes "detect") || text_eq s (codes "stop")

unfoldable pub supported_message_type : MessageType → Bool
supported_message_type (other_type t) = false
supported_message_type _ = true

unfoldable pub hello_of_wire : HelloWire → HelloMessage
unfolding first_audio_params
hello_of_wire msg =
    let params = first_audio_params msg.audio_params msg.audio in
    record {
      version = msg.version;
      transport = trim_space msg.transport;
      audio_params = record params { format = trim_space params.format };
      features = msg.features;
    }

-- The body of the `switch` on the message type.
unfoldable pub parse_control : Decoder → MessageType → List ℕ → Result ControlMessage
parse_control d hello_type bytes = do
  msg ← decoded (d.hello bytes)
  hello ← validate_hello (hello_of_wire msg)
  ok (record { type = hello_type; raw = bytes; hello = some hello; listen = none; abort = none })
parse_control d listen_type bytes = do
  msg ← decoded (d.listen bytes)
  let state = trim_space msg.state
  reject (not (supported_listen_state state)) unsupported_listen_state
  let listen : Option ListenMessage = some (record { state = state; mode = trim_space msg.mode })
  ok (record { type = listen_type; raw = bytes; hello = none; listen = listen; abort = none })
parse_control d abort_type bytes = do
  reason ← decoded (d.abort bytes)
  ok (record {
    type = abort_type;
    raw = bytes;
    hello = none;
    listen = none;
    abort = some (trim_space reason);
  })
parse_control d t bytes =
    ok (record { type = t; raw = bytes; hello = none; listen = none; abort = none })

unfoldable pub parse_text_frame : Decoder → List ℕ → Direction → Identity → Result Frame
parse_text_frame d bytes direction identity = do
  common ← decoded (d.common bytes)
  reject (not (supported_message_type common.type)) unsupported_message_type
  resolved ← resolve_identity identity common.ids
  control ← parse_control d common.type bytes
  ok (record {
    kind = control_kind;
    direction = direction;
    device_id = resolved.device_id;
    trace_id = resolved.trace_id;
    session_id = resolved.session_id;
    control = some control;
    opus = none;
  })
