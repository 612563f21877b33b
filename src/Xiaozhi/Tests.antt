-- ===== src/Xiaozhi/Tests.antt =====
-- Runs of the transport's functions at concrete inputs.
use a21_stackchan_workmate.Base.{
  ℕ, ◌^◌, ◌<◌, ◌≡◌, refl, ◌≢◌, inl, inr, true, false, none, some, List, [], ◌∷◌, arith, length,
  take, codes, text_eq, is_space, trim_left, trim_right, trim_space, lower_rune, to_lower,
  has_prefix, contains, is_digit, is_lower, is_upper, pos,
}
use a21_stackchan_workmate.Xiaozhi.Identity.{
  ok, err, malformed_binary_frame, Identity, no_identity, contains_legacy_identity, first_non_empty,
  safe_id_component, resolve_identity, is_component_rune, component_round, component_loop, cut_left,
  cut_right,
}
use a21_stackchan_workmate.Xiaozhi.Identity.Component.{
  safe_id_component-IsSafeComponent, IsSafeComponent,
}
use a21_stackchan_workmate.Xiaozhi.Identity.Laws.{IsResolved, resolve_identity-IsResolved}
use a21_stackchan_workmate.Xiaozhi.Frame.{
  device_to_server, Frame, OpusFrame, opus_kind, HelloMessage, HelloFeatures, validate_hello,
  Decoder, parse_text_frame, ControlMessage, listen_type, control_kind, parse_control,
  supported_message_type, supported_listen_state, equal_fold, fold_rune,
  supported_binary_protocol_version,
}
use a21_stackchan_workmate.Xiaozhi.Frame.Hello.{IsTextFrame, parse_text_frame-IsTextFrame}
use a21_stackchan_workmate.Xiaozhi.Binary.{
  unwrap_version, unwrap_binary_protocol2, parse_binary_frame_version, wrap_voice_bench_opus,
}
use a21_stackchan_workmate.Xiaozhi.Binary.RoundTrip.{
  parse_binary_frame_version-wrap_voice_bench_opus,
}
use a21_stackchan_workmate.Xiaozhi.Binary.Parsed.{
  Carries, parse_binary_frame_version-Carries, unwrap_version-take,
}

abbrev desk : Identity
desk = record { device_id = codes " A21 Desk "; trace_id = []; session_id = codes "s-1" }

abbrev desk_resolved : Identity
desk_resolved = record {
  device_id = codes "A21 Desk";
  trace_id = codes "a21-trace-a21-desk";
  session_id = codes "s-1";
}

desk_resolves : resolve_identity desk no_identity ≡ ok desk_resolved
unfolding resolve_identity first_non_empty contains_legacy_identity safe_id_component component_loop
    component_round is_component_rune cut_left cut_right to_lower lower_rune trim_space trim_left
    trim_right is_space contains has_prefix is_lower is_upper is_digit
desk_resolves = refl

resolve_identity-IsResolved_example : IsResolved desk_resolved
resolve_identity-IsResolved_example =
    resolve_identity-IsResolved desk no_identity desk_resolved desk_resolves

safe_id_component-IsSafeComponent_example : IsSafeComponent (safe_id_component (codes "--A b__"))
safe_id_component-IsSafeComponent_example = safe_id_component-IsSafeComponent (codes "--A b__")

safe_id_component_test : safe_id_component (codes "--A  b.C__") ≡ codes "a-b.c"
unfolding safe_id_component component_loop component_round is_component_rune cut_left cut_right
    to_lower lower_rune trim_space trim_left trim_right is_space is_lower is_upper is_digit
safe_id_component_test = refl

abbrev packet : List ℕ
packet = 7 ∷ 8 ∷ 9 ∷ []

abbrev packet_frame : Frame
packet_frame = record {
  kind = opus_kind;
  direction = device_to_server;
  device_id = desk_resolved.device_id;
  trace_id = desk_resolved.trace_id;
  session_id = desk_resolved.session_id;
  control = none;
  opus = some (record {
    codec = codes "opus";
    binary_version = pos 2;
    timestamp_ms = 5;
    payload_bytes = 3;
    payload = packet;
  });
}

short_packet : (pos 2 ≡ pos 2) → length packet < 2 ^ 32
short_packet h = omega arith

not_third : (pos 2 ≡ pos 3) → length packet < 2 ^ 16
not_third h = omega arith

parse_binary_frame_version-wrap_voice_bench_opus_example :
    parse_binary_frame_version
      (wrap_voice_bench_opus 4294967301 packet (pos 2))
      device_to_server
      desk
      (pos 2)
    ≡ ok packet_frame
parse_binary_frame_version-wrap_voice_bench_opus_example =
    parse_binary_frame_version-wrap_voice_bench_opus (pos 2) 4294967301 packet device_to_server desk
      desk_resolved (inr (inl refl)) short_packet not_third refl refl desk_resolves

abbrev wrapped : List ℕ
wrapped = 0 ∷ 2 ∷ 0 ∷ 0 ∷ 0 ∷ 0 ∷ 0 ∷ 0 ∷ 0 ∷ 0 ∷ 0 ∷ 5 ∷ 0 ∷ 0 ∷ 0 ∷ 3 ∷ 7 ∷ 8 ∷ 9 ∷ []

wrapped_parses : parse_binary_frame_version wrapped device_to_server desk (pos 2) ≡ ok packet_frame
unfolding parse_binary_frame_version unwrap_version unwrap_binary_protocol2 resolve_identity
    first_non_empty contains_legacy_identity safe_id_component component_loop component_round
    is_component_rune cut_left cut_right to_lower lower_rune trim_space trim_left trim_right
    is_space contains has_prefix is_lower is_upper is_digit
wrapped_parses = refl

parse_binary_frame_version-Carries_example :
    (o : OpusFrame) × Carries wrapped (pos 2) packet_frame o
parse_binary_frame_version-Carries_example =
    parse_binary_frame_version-Carries wrapped device_to_server desk (pos 2) packet_frame
      wrapped_parses

wrapped_unwraps : unwrap_version (pos 2) wrapped ≡ ok (packet, 5)
unfolding unwrap_version unwrap_binary_protocol2
wrapped_unwraps = refl

second_not_first : pos 2 ≢ pos 1
second_not_first = ground arith

unwrap_version-take_example : unwrap_version (pos 2) (take 18 wrapped) ≡ err malformed_binary_frame
unwrap_version-take_example =
    unwrap_version-take (pos 2) wrapped packet 5 18 second_not_first wrapped_unwraps (omega arith)

abbrev features : HelloFeatures
features = record {
  mcp = true;
  aec = false;
  device_events = true;
  playback_events = false;
  keepalive_events = false;
  touch_events = false;
  debug_metrics = false;
}

abbrev asked_hello : HelloMessage
asked_hello = record {
  version = pos 0;
  transport = [];
  audio_params = record {
    format = codes "OPUS";
    sample_rate = pos 16000;
    channels = pos 1;
    frame_duration = pos 60;
    binary_protocol_version = pos 3;
  };
  features = features;
}

abbrev accepted_hello : HelloMessage
accepted_hello = record {
  version = pos 1;
  transport = codes "websocket";
  audio_params = record {
    format = codes "opus";
    sample_rate = pos 16000;
    channels = pos 1;
    frame_duration = pos 60;
    binary_protocol_version = pos 3;
  };
  features = features;
}

hello_validates : validate_hello asked_hello ≡ ok accepted_hello
unfolding validate_hello supported_binary_protocol_version text_eq equal_fold fold_rune
hello_validates = refl

-- A decoder that reads every message as a listen that starts.
abbrev listening : Decoder
listening = record {
  common = λ _. some (record { type = listen_type; ids = no_identity });
  hello = λ _. none;
  listen = λ _. some (record { state = codes " start "; mode = codes "auto" });
  abort = λ _. none;
}

abbrev listen_control : ControlMessage
listen_control = record {
  type = listen_type;
  raw = 123 ∷ [];
  hello = none;
  listen = some (record { state = codes "start"; mode = codes "auto" });
  abort = none;
}

abbrev listen_frame : Frame
listen_frame = record {
  kind = control_kind;
  direction = device_to_server;
  device_id = desk_resolved.device_id;
  trace_id = desk_resolved.trace_id;
  session_id = desk_resolved.session_id;
  control = some listen_control;
  opus = none;
}

listen_parses : parse_text_frame listening (123 ∷ []) device_to_server desk ≡ ok listen_frame
unfolding parse_text_frame supported_message_type parse_control supported_listen_state text_eq
    resolve_identity first_non_empty contains_legacy_identity safe_id_component component_loop
    component_round is_component_rune cut_left cut_right to_lower lower_rune trim_space trim_left
    trim_right is_space contains has_prefix is_lower is_upper is_digit
listen_parses = refl

parse_text_frame-IsTextFrame_example :
    (c : ControlMessage) × IsTextFrame device_to_server listen_frame c
parse_text_frame-IsTextFrame_example =
    parse_text_frame-IsTextFrame listening (123 ∷ []) device_to_server desk listen_frame
      listen_parses
