-- ===== src/Gateway/Replies.antt =====
-- What the handlers send, and the claims on the session that come with it: errors, the replies to
-- listen, the state of the official device, and the stop of the playback.
use a21_stackchan_workmate.Base.{
  ℕ, ◌+◌, Bool, true, false, not, ◌||◌, Option, none, some, List, [], ◌∷◌, ◌++◌, if◌then◌else◌,
  is_empty, Text, codes, trim_space, pos, numbered,
}
use a21_stackchan_workmate.Session.{
  Session, TurnTask, should_abort_turn, claim_tts_stop, claim_official_state, claim_state_reaction,
  suppress_input_until, safe_gateway_fallback_token,
}
use a21_stackchan_workmate.Xiaozhi.Device.{DeviceExtensionEvent}
use a21_stackchan_workmate.Stackchan.{Packet, Attempt, built, failed, build_official_packets}
use a21_stackchan_workmate.Gateway.Types.{
  Client, World, Output, error_reply, listen_reply, tts_stop,
}
use a21_stackchan_workmate.Gateway.Policy.{
  is_debug_client, hardware_mac_device_id, official_state_for_tts_stop,
  should_suppress_input_after_tts_stop, product_state_reactions_allowed, state_reaction_suppressed,
  has_state_reaction,
}

abbrev pub on_session : (Session → Session) → Client → Client
on_session change c = record c { session = change c.session }

abbrev named : Text → ℕ → Text → Text
named prefix next id = if is_empty id then numbered prefix next else id

-- xiaozhiError, which fills the ids of the session in.
unfoldable pub xiaozhi_error : World → Text → Client → Client × List Output
xiaozhi_error w code c = (
  on_session
      (λ s. record s {
        trace_id = named (codes "a21-trace-") w.next s.trace_id;
        session_id = named (codes "a21-session-") w.next s.session_id;
      })
      c,
  error_reply code ∷ [],
)

unfoldable pub should_send_listen_reply : Client → Bool
should_send_listen_reply c =
    if is_debug_client c.features then true else not (hardware_mac_device_id c.session.device_id)

unfoldable pub write_listen_reply : Text → Text → Text → Client → List Output
unfolding should_send_listen_reply
write_listen_reply state status turn c =
    if should_send_listen_reply c then listen_reply state status turn ∷ [] else []

abbrev state_event : Text → DeviceExtensionEvent
state_event state = record {
  kind = codes "state";
  value = state;
  y_angle = pos 0;
  stream_id = [];
  source = [];
  text = [];
  reason = [];
  runtime_echo = [];
}

abbrev has_packets : Attempt (List Packet) → Bool
has_packets (built packets) = true
has_packets (failed why) = false

unfoldable pub maybe_send_state_reaction : World → Text → Text → Bool → Client → Client
unfolding claim_state_reaction
maybe_send_state_reaction w state reason force c =
    if not (product_state_reactions_allowed w.options c.features c.session.device_id)
      || state_reaction_suppressed state reason
      || not (has_state_reaction state)
    then c
    else on_session (λ s. (claim_state_reaction state force s).0) c

unfoldable pub write_official_state : World → Text → Text → Bool → Client → Client
unfolding maybe_send_state_reaction claim_official_state
write_official_state w state reason force c =
    if is_empty (trim_space c.session.device_id)
    then c
    else let reacted = maybe_send_state_reaction w state reason force c in
      if not (has_packets (build_official_packets w.marshal (state_event state)))
        || not w.official_connected
      then reacted
      else on_session (λ s. (claim_official_state state force s).0) reacted

abbrev suppress_after_tts_stop : World → Text → Client → Client
suppress_after_tts_stop w reason c =
    if should_suppress_input_after_tts_stop reason
    then on_session (suppress_input_until (w.later + 900) (codes "post_tts_drain")) c
    else c

-- The stop of the playback, once it may be written. Where the write fails nothing is sent.
unfoldable pub send_tts_stop : World → TurnTask → Text → Client → Client × List Output
unfolding write_official_state suppress_input_until safe_gateway_fallback_token
send_tts_stop w task reason c =
    if w.stop_written
    then (
      suppress_after_tts_stop w reason (
          write_official_state w (official_state_for_tts_stop reason)
            (codes "tts_stop_" ++ safe_gateway_fallback_token reason (codes "unknown")) true c),
      tts_stop task.turn_id reason ∷ [],
    )
    else (c, [])

-- A turn that is nil is written for.
abbrev must_abort : Bool → Option ℕ → Session → Bool
must_abort parent_done none s = false
must_abort parent_done (some p) s = should_abort_turn parent_done (some p) s

-- `parent_done` is whether the connection's context is done.
unfoldable pub write_tts_stop :
    World → Bool → Bool → TurnTask → Text → Client → Client × List Output
unfolding send_tts_stop claim_tts_stop should_abort_turn
write_tts_stop w parent_done force task reason c =
    if force
    then send_tts_stop w task reason c
    else if must_abort parent_done task.turn c.session
    then (c, [])
    else let (claimed, mine) = claim_tts_stop c.session in
      if mine then send_tts_stop w task reason (record c { session = claimed }) else (c, [])
