-- ===== src/Gateway/Policy.antt =====
-- The texts and tests that decide what a handler does (internal/gateway/server.go).
use a21_stackchan_workmate.Base.{
  ℕ, Bool, true, false, not, ◌&&◌, ◌||◌, ◌==◌, leb, List, [], ◌∷◌, if◌then◌else◌, is_empty, length,
  Text, codes, text_eq, one_of, trim_space, to_lower, contains, split, byte_len, all_runes,
  is_digit,
}
use a21_stackchan_workmate.Protocol.{Mode, professional, workmate}
use a21_stackchan_workmate.Xiaozhi.Identity.{
  Error, malformed_json, missing_device_identity, legacy_identity, unsupported_message_type,
  unsupported_listen_state, unsupported_hello_version, unsupported_transport,
  unsupported_audio_params, unsupported_binary_protocol, malformed_binary_frame,
  unsupported_binary_frame_type, empty_binary_payload, unexpected_binary_direction,
  unsupported_device_event_kind, unsupported_device_event_value,
}
use a21_stackchan_workmate.Xiaozhi.Frame.{HelloFeatures, equal_fold}
use a21_stackchan_workmate.Gateway.Types.{Options}

unfoldable pub xiaozhi_error_code : Error → Text
xiaozhi_error_code malformed_json = codes "invalid_json"
xiaozhi_error_code missing_device_identity = codes "invalid_device_id"
xiaozhi_error_code legacy_identity = codes "invalid_device_id"
xiaozhi_error_code unsupported_message_type = codes "unsupported_message_type"
xiaozhi_error_code unsupported_listen_state = codes "unsupported_listen_state"
xiaozhi_error_code unsupported_hello_version = codes "unsupported_hello_version"
xiaozhi_error_code unsupported_transport = codes "unsupported_transport"
xiaozhi_error_code unsupported_audio_params = codes "unsupported_audio_params"
xiaozhi_error_code unsupported_binary_protocol = codes "unsupported_binary_protocol_version"
xiaozhi_error_code malformed_binary_frame = codes "malformed_binary_frame"
xiaozhi_error_code unsupported_binary_frame_type = codes "unsupported_binary_frame_type"
xiaozhi_error_code empty_binary_payload = codes "empty_binary_payload"
xiaozhi_error_code unexpected_binary_direction = codes "unexpected_binary_frame_direction"
xiaozhi_error_code unsupported_device_event_kind = codes "unsupported_device_event_kind"
xiaozhi_error_code unsupported_device_event_value = codes "unsupported_device_event_value"
xiaozhi_error_code _ = codes "invalid_xiaozhi_message"

abbrev is_hex : ℕ → Bool
is_hex r = is_digit r || leb b'a' r && leb r b'f' || leb b'A' r && leb r b'F'

abbrev hex_pairs : List Text → Bool
hex_pairs [] = true
hex_pairs (part ∷ parts) = byte_len part == 2 && all_runes is_hex part && hex_pairs parts

unfoldable pub hardware_mac_device_id : Text → Bool
unfolding split trim_space
hardware_mac_device_id device_id =
    let parts = split b':' (trim_space device_id) in length parts == 6 && hex_pairs parts

-- xiaozhiClientProfile is "debug".
abbrev pub is_debug_client : HelloFeatures → Bool
is_debug_client f = f.device_events || f.debug_metrics

module _ (o : Options) (f : HelloFeatures) where
  abbrev pub is_product_device : Text → Bool
  is_product_device device_id =
      not f.device_events && not f.debug_metrics && hardware_mac_device_id device_id

  abbrev pub product_playback_events_allowed : Text → Bool
  product_playback_events_allowed device_id =
      o.product_playback_events && f.playback_events && is_product_device device_id

  -- The option is that of the playback events.
  abbrev pub product_keepalive_events_allowed : Text → Bool
  product_keepalive_events_allowed device_id =
      o.product_playback_events && f.keepalive_events && is_product_device device_id

  abbrev pub product_touch_events_allowed : Text → Bool
  product_touch_events_allowed device_id =
      o.product_touch_events && f.touch_events && is_product_device device_id

  abbrev pub product_state_reactions_allowed : Text → Bool
  product_state_reactions_allowed device_id =
      o.product_state_reactions && f.mcp && is_product_device device_id

  abbrev is_professional_listen : Text → Bool
  is_professional_listen raw = text_eq (trim_space (to_lower raw)) (codes "professional")

  abbrev stock_professional_route_selected : Text → Bool
  stock_professional_route_selected raw =
      o.stock_professional
      && o.voice_professional
      && not (is_debug_client f)
      && not (is_professional_listen raw)

  unfoldable pub listen_mode : Text → Mode
  listen_mode raw =
      if is_professional_listen raw || stock_professional_route_selected raw
      then professional
      else workmate

abbrev touches : List Text
touches =
    codes "screen_tap"
    ∷ codes "screen_barge_in"
    ∷ codes "top_tap"
    ∷ codes "top_swipe_forward"
    ∷ codes "top_swipe_backward"
    ∷ codes "top_barge_in"
    ∷ []

-- Whether xiaozhiTouchEventKindAndSource knows the touch.
abbrev pub is_known_touch : Text → Bool
is_known_touch value = one_of value touches

abbrev pub touch_event_is_barge_in : Text → Bool
touch_event_is_barge_in value =
    text_eq value (codes "screen_barge_in") || text_eq value (codes "top_barge_in")

-- Whether a reason names an interruption by the user.
abbrev is_interruption : Text → Bool
is_interruption reason =
    contains reason (codes "abort")
    || contains reason (codes "barge")
    || contains reason (codes "wake")

unfoldable pub official_state_for_tts_stop : Text → Text
official_state_for_tts_stop raw =
    let reason = to_lower (trim_space raw) in
    if is_empty reason || is_interruption reason
    then codes "listening"
    else if contains reason (codes "error") || contains reason (codes "unavailable")
    then codes "error"
    else codes "idle"

unfoldable pub should_suppress_input_after_tts_stop : Text → Bool
should_suppress_input_after_tts_stop raw =
    let reason = to_lower (trim_space raw) in
    if is_empty reason || is_interruption reason
    then false
    else contains reason (codes "local_fallback")
      || contains reason (codes "placeholder")
      || contains reason (codes "host_say_complete")
      || contains reason (codes "degraded")
      || contains reason (codes "error")
      || contains reason (codes "unavailable")

abbrev pub state_reaction_suppressed : Text → Text → Bool
state_reaction_suppressed state reason =
    equal_fold (trim_space state) (codes "listening")
    && equal_fold (trim_space reason) (codes "listen_start")

-- Whether xiaozhiStateReactionPlans has plans for the state.
abbrev pub has_state_reaction : Text → Bool
has_state_reaction state = one_of (to_lower (trim_space state)) (
    codes "idle"
    ∷ codes "listening"
    ∷ codes "thinking"
    ∷ codes "speaking"
    ∷ codes "error"
    ∷ codes "fatal_error"
    ∷ [])
