-- ===== src/Gateway/Listening.antt =====
-- The messages of the xiaozhi protocol but for the device events (handleXiaozhiText of
-- internal/gateway/server.go): hello, listen, abort and MCP.
use a21_stackchan_workmate.Base.{
  ℕ, ◌+◌, true, false, not, Option, none, some, List, [], ◌∷◌, ◌++◌, if◌then◌else◌, is_empty,
  length, Text, codes, text_eq, trim_space,
}
use a21_stackchan_workmate.Protocol.{Mode, professional}
use a21_stackchan_workmate.Xiaozhi.Frame.{HelloMessage, ListenMessage}
use a21_stackchan_workmate.Session.{
  Session, TurnTask, turn_at, turn_id, start_turn, set_current_turn_mode,
  prepare_listen_start_barge_in, suppress_input_until, input_suppression, clear_suppressed_listen,
  set_listening, receive_hello,
}
use a21_stackchan_workmate.Gateway.Types.{Client, World, Output, hello_reply, drain}
use a21_stackchan_workmate.Gateway.Policy.{listen_mode}
use a21_stackchan_workmate.Gateway.Replies.{
  on_session, xiaozhi_error, write_listen_reply, write_official_state, write_tts_stop,
}

-- What came before, then what follows.
infixl 5 ◌then_send◌
abbrev pub ◌then_send◌ :
    Client × List Output → (Client → Client × List Output) → Client × List Output
(c, sent) then_send next = let (c', more) = next c in (c', sent ++ more)

-- resetXiaozhiOpusIngressLocked, as far as the counters go.
abbrev pub reset_opus_ingress : Client → Client
reset_opus_ingress c = record c { opus_frame_count = 0; opus_byte_count = 0 }

abbrev pub reset_wake_preroll : Client → Client
reset_wake_preroll c = record c { wake_preroll_payload_bytes = [] }

abbrev sum : List ℕ → ℕ
sum [] = 0
sum (n ∷ ns) = n + sum ns

unfoldable pub attach_wake_preroll : Client → Client
attach_wake_preroll c = record c {
  opus_frame_count = c.opus_frame_count + length c.wake_preroll_payload_bytes;
  opus_byte_count = c.opus_byte_count + sum c.wake_preroll_payload_bytes;
  wake_preroll_payload_bytes = [];
}

-- The stop of the playback of a turn that a barge-in cancelled.
abbrev pub stop_playback : World → Option TurnTask → Text → Client → Client × List Output
stop_playback w none reason c = (c, [])
stop_playback w (some task) reason c = write_tts_stop w false true task reason c

-- prepareXiaozhiListenStartBargeIn with the window of 3000 ms, and the stop that it asks for.
unfoldable pub barge_in : World → Text → Text → Client → Client × List Output
unfolding prepare_listen_start_barge_in write_tts_stop
barge_in w cancel_reason stop_reason c =
    let (session, task) = prepare_listen_start_barge_in cancel_reason w.now 3000 c.session in
    stop_playback w task stop_reason (record c { session = session })

unfoldable pub handle_hello : World → HelloMessage → Client → Client × List Output
unfolding xiaozhi_error receive_hello
handle_hello w m c =
    if not w.has_codec then xiaozhi_error w (codes "unsupported_audio_params") c else (
      record (reset_wake_preroll (reset_opus_ingress (on_session receive_hello c))) {
        features = m.features;
        binary_protocol_version = m.audio_params.binary_protocol_version;
      },
      hello_reply ∷ [],
    )

-- A listen start while the input is suppressed.
unfoldable pub ignore_listen_start : Client → Client × List Output
unfolding write_listen_reply set_listening
ignore_listen_start c =
    let ignored = reset_wake_preroll (
      reset_opus_ingress (
        on_session (λ s. record (set_listening false 0 s) { suppressed_listen_active = true })
          c)) in
    (ignored, write_listen_reply (codes "start") (codes "ignored") [] ignored)

-- A new turn that listens.
unfoldable pub begin_turn : World → Mode → Client → Client × List Output
unfolding start_turn set_listening attach_wake_preroll write_official_state write_listen_reply
    turn_id
begin_turn w mode c =
    let started = on_session (λ s. set_listening true w.now (start_turn mode s)) c in
    let attached = attach_wake_preroll (reset_opus_ingress started) in
    let renewed = on_session (λ s. record s { tts_stop_sent = false }) attached in
    let shown = write_official_state w (codes "listening") (codes "listen_start") true renewed in
    let turn = turn_id (turn_at (some c.session.allocated) shown.session) in
    (shown, write_listen_reply (codes "start") (codes "accepted") turn shown)

unfoldable pub handle_listen_start : World → Mode → Client → Client × List Output
unfolding input_suppression ignore_listen_start barge_in begin_turn
handle_listen_start w mode c = elim (input_suppression w.now c.session) [
  | some reason ↦ ignore_listen_start c
  | none ↦ barge_in w (codes "barge_in") (codes "barge_in") c then_send begin_turn w mode
]

abbrev pub end_suppressed_listen : ℕ → Session → Session
end_suppressed_listen now s =
    let (cleared, was_active) = clear_suppressed_listen s in
    if was_active
    then suppress_input_until (now + 1200) (codes "after_suppressed_listen") cleared
    else cleared

abbrev pub set_professional : Mode → Session → Session
set_professional professional s = set_current_turn_mode professional s
set_professional mode s = s

-- The goroutine does nothing where there is no turn.
abbrev drained : Option ℕ → List Output
drained none = []
drained (some p) = drain (some p) ∷ []

unfoldable pub handle_listen_stop : World → Mode → Client → Client × List Output
unfolding clear_suppressed_listen suppress_input_until write_listen_reply set_listening
    set_current_turn_mode
handle_listen_stop w mode c =
    if not c.session.listening
    then (let ended = on_session (end_suppressed_listen w.now) c in
        (ended, write_listen_reply (codes "stop") (codes "ignored") [] ended))
    else (let stopped = on_session (λ s. set_professional mode (set_listening false 0 s)) c in
        (stopped, drained stopped.session.current_turn))

unfoldable pub handle_listen : World → ListenMessage → Client → Client × List Output
unfolding xiaozhi_error listen_mode handle_listen_start handle_listen_stop write_listen_reply
    turn_id
handle_listen w m c =
    if not c.session.hello_received
    then xiaozhi_error w (codes "hello_required") c
    else if text_eq m.state (codes "start")
    then handle_listen_start w (listen_mode w.options c.features m.mode) c
    else if text_eq m.state (codes "detect")
    then (
      c,
      write_listen_reply (codes "detect") (codes "accepted")
          (turn_id (turn_at c.session.current_turn c.session)) c,
    )
    else if text_eq m.state (codes "stop")
    then handle_listen_stop w (listen_mode w.options c.features m.mode) c
    else (c, [])

-- A touch barge-in, the abort with no reason, holds the input back for a while.
abbrev pub suppress_after_abort : World → Text → Session → Session
suppress_after_abort w reason s =
    if is_empty (trim_space reason)
    then suppress_input_until (w.later + 700) (codes "after_barge") s
    else s

unfoldable pub handle_abort : World → Text → Client → Client × List Output
unfolding xiaozhi_error set_listening prepare_listen_start_barge_in suppress_input_until
    write_tts_stop
handle_abort w reason c =
    if not c.session.hello_received
    then xiaozhi_error w (codes "hello_required") c
    else let silent = set_listening false 0 c.session in
      let (session, task) = prepare_listen_start_barge_in reason w.now 3000 silent in
      stop_playback w task (codes "abort")
        (record c { session = suppress_after_abort w reason session })

unfoldable pub handle_mcp : World → Client → Client × List Output
unfolding xiaozhi_error
handle_mcp w c =
    if not c.session.hello_received then xiaozhi_error w (codes "hello_required") c else (c, [])
