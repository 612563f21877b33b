-- ===== src/Gateway/Tests.antt =====
-- Runs of the handlers of a connection, and their theorems at concrete inputs.
use a21_stackchan_workmate.Base.{
  is_lower, is_digit, contains, has_prefix, one_of, List, ◌==◌, if◌then◌else◌, ℕ, ◌≡◌, refl, arith,
  true, false, [], ◌∷◌, some, none, codes, pos, text_eq, trim_space, trim_left, trim_right,
  is_space, to_lower, lower_rune,
}
use a21_stackchan_workmate.Protocol.{workmate}
use a21_stackchan_workmate.Audio.Pacer.{new_controller}
use a21_stackchan_workmate.Xiaozhi.Identity.{
  no_identity, resolve_identity, contains_legacy_identity, first_non_empty, safe_id_component,
  component_loop, component_round, is_component_rune, cut_left, cut_right,
}
use a21_stackchan_workmate.Xiaozhi.Frame.{
  HelloFeatures, ListenMessage, listen_type, parse_text_frame, parse_control,
  supported_listen_state, supported_message_type,
}
use a21_stackchan_workmate.Session.{Session, Turn, complete_turn}
use a21_stackchan_workmate.Gateway.{
  Client, World, ignored_suppressed_listen, on_session, handle_listen, handle_opus, text, Message,
  handle, handle_all,
}
use a21_stackchan_workmate.Gateway.Asked.{accepted_starts}
use a21_stackchan_workmate.Gateway.Begins.{Begins, handle_all-Begins}
use a21_stackchan_workmate.Gateway.Greeting.{GreetedOrRefused, handle-GreetedOrRefused}
use a21_stackchan_workmate.Gateway.Stale.{handle_opus_of_stale_mark}

abbrev new_session : Session
new_session = record {
  turns = λ p. none;
  allocated = 0;
  trace_id = codes "t";
  session_id = codes "s";
  device_id = codes "desk";
  current_turn = none;
  next_turn_id = 0;
  hello_received = false;
  listening = false;
  listen_started_at = 0;
  suppressed_listen_active = false;
  tts_stop_sent = false;
  last_downlink_at = 0;
  last_downlink_turn_id = [];
  last_playback_stop_done_at = 0;
  input_cooldown_until = 0;
  input_cooldown_reason = [];
  official_state = [];
  state_reaction = [];
}

abbrev features : HelloFeatures
features = record {
  mcp = false;
  aec = false;
  device_events = false;
  playback_events = false;
  keepalive_events = false;
  touch_events = false;
  debug_metrics = false;
}

abbrev client_of : Session → Client
client_of s = record {
  session = s;
  features = features;
  binary_protocol_version = pos 1;
  opus_frame_count = 0;
  opus_byte_count = 0;
  wake_preroll_payload_bytes = [];
}

abbrev new_client : Client
new_client = client_of new_session

-- A server whose messages are all starts of listening.
abbrev at_time : ℕ → World
at_time now = record {
  options = record {
    stock_professional = false;
    voice_professional = false;
    product_playback_events = false;
    product_touch_events = false;
    product_state_reactions = false;
  };
  wire = record {
    type_of_message = λ bytes. codes "listen";
    frames = record {
      common = λ bytes. some (record { type = listen_type; ids = no_identity });
      hello = λ bytes. none;
      listen = λ bytes. some (record { state = codes "start"; mode = codes "auto" });
      abort = λ bytes. none;
    };
    device = λ bytes. none;
  };
  marshal = λ payload. none;
  now = now;
  later = now;
  next = 7;
  has_codec = true;
  decodes = true;
  stop_written = true;
  official_connected = false;
}

abbrev starts : ListenMessage
starts = record { state = codes "start"; mode = codes "auto" }

abbrev stops : ListenMessage
stops = record { state = codes "stop"; mode = codes "auto" }

abbrev greeted : Session
greeted = record new_session { hello_received = true }

abbrev two_starts : List (World × Message)
two_starts = (at_time 5, text []) ∷ (at_time 6, text []) ∷ []

handle_all-Begins_example :
    Begins
      (accepted_starts two_starts (client_of greeted))
      greeted
      (handle_all two_starts (client_of greeted)).0.session
handle_all-Begins_example = handle_all-Begins two_starts (client_of greeted)

asked_test : accepted_starts ((at_time 5, text []) ∷ []) (client_of greeted) ≡ 1
unfolding accepted_starts parse_text_frame parse_control resolve_identity contains_legacy_identity
    first_non_empty safe_id_component component_loop component_round is_component_rune cut_left
    cut_right supported_listen_state supported_message_type is_lower is_digit contains has_prefix
    text_eq one_of trim_space trim_left trim_right is_space to_lower lower_rune
asked_test = refl

handle-GreetedOrRefused_example :
    GreetedOrRefused new_client (handle (at_time 5) (text []) new_client)
handle-GreetedOrRefused_example = handle-GreetedOrRefused (at_time 5) (text []) new_client refl

abbrev turn : Turn
turn = record {
  id = 1;
  cause = none;
  pacer = new_controller (pos 60000000) (pos 1);
  mode = workmate;
  cancel_reason = [];
}

abbrev speaking : Session
speaking = record greeted {
  turns = λ p. if p == 0 then some turn else none;
  allocated = 1;
  next_turn_id = 1;
  current_turn = some 0;
}

abbrev suppressed : Client
suppressed = client_of (record greeted { suppressed_listen_active = true })

handle_opus_of_stale_mark_example :
    (handle_opus (at_time 9) 40 (
      on_session
        (complete_turn (some 0))
        (handle_listen (at_time 6) stops (handle_listen (at_time 5) starts suppressed).0).0)).1
    ≡ ignored_suppressed_listen ∷ []
unfolding text_eq
handle_opus_of_stale_mark_example =
    handle_opus_of_stale_mark (at_time 5) (at_time 6) (at_time 9) starts stops (some 0) 40
      suppressed refl refl refl (omega arith) refl
