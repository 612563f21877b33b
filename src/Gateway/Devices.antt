-- ===== src/Gateway/Devices.antt =====
-- Device events and binary frames (handleXiaozhiDeviceExtension and handleXiaozhiBinary of
-- internal/gateway/server.go). What they write to the registry of devices, to the traces and to the
-- official device after a touch is left out.
use a21_stackchan_workmate.Base.{
  ℕ, suc, ◌+◌, ◌-◌, Bool, true, not, ◌&&◌, ◌||◌, Option, none, some, List, [], ◌∷◌, ◌++◌,
  if◌then◌else◌, is_empty, length, drop, Text, codes, text_eq, trim_space,
}
use a21_stackchan_workmate.Xiaozhi.Identity.{Result, ok, err, ◌>>=◌, Identity}
use a21_stackchan_workmate.Xiaozhi.Frame.{Frame, OpusFrame, decoded, device_to_server}
use a21_stackchan_workmate.Xiaozhi.Binary.{parse_binary_frame_version}
use a21_stackchan_workmate.Xiaozhi.Device.{DeviceExtensionEvent}
use a21_stackchan_workmate.Xiaozhi.Device.Wire.{parse_device_extension_event}
use a21_stackchan_workmate.Session.{should_buffer_wake_preroll}
use a21_stackchan_workmate.Gateway.Types.{
  Client, World, Output, received, preroll, ignored_suppressed_listen, ignored_not_listening,
}
use a21_stackchan_workmate.Gateway.Policy.{
  xiaozhi_error_code, product_playback_events_allowed, product_keepalive_events_allowed,
  product_touch_events_allowed, is_known_touch, touch_event_is_barge_in,
}
use a21_stackchan_workmate.Gateway.Replies.{on_session, xiaozhi_error}
use a21_stackchan_workmate.Gateway.Listening.{barge_in}

abbrev pub identity : Client → Identity
identity c = record {
  device_id = c.session.device_id;
  trace_id = c.session.trace_id;
  session_id = c.session.session_id;
}

unfoldable pub adopt_frame : Frame → Client → Client
adopt_frame f c =
    on_session
      (λ s. record s { device_id = f.device_id; trace_id = f.trace_id; session_id = f.session_id })
      c

abbrev pub unsupported_device_event : World → Client → Client × List Output
unsupported_device_event w c = xiaozhi_error w (codes "unsupported_device_event") c

abbrev playback_allowed : World → Client → Bool
playback_allowed w c = product_playback_events_allowed w.options c.features c.session.device_id

abbrev keepalive_allowed : World → Client → Bool
keepalive_allowed w c = product_keepalive_events_allowed w.options c.features c.session.device_id

abbrev touch_allowed : World → Client → Bool
touch_allowed w c = product_touch_events_allowed w.options c.features c.session.device_id

-- Whether the client may send device events at all.
abbrev pub device_events_allowed : World → Client → Bool
device_events_allowed w c =
    c.features.device_events || playback_allowed w c || keepalive_allowed w c || touch_allowed w c

-- Whether it may send events of the kind.
abbrev pub kind_allowed : World → Text → Client → Bool
kind_allowed w kind c =
    if c.features.device_events
    then true
    else if text_eq kind (codes "playback")
    then playback_allowed w c
    else if text_eq kind (codes "heartbeat")
    then keepalive_allowed w c
    else text_eq kind (codes "touch") && touch_allowed w c

abbrev has_device : Client → Bool
has_device c = not (is_empty (trim_space c.session.device_id))

-- recordXiaozhiPlaybackEvent
abbrev pub playback_stop_done : World → Client → Client
playback_stop_done w c =
    if has_device c then on_session (λ s. record s { last_playback_stop_done_at = w.now }) c else c

unfoldable pub handle_touch : World → Text → Client → Client × List Output
unfolding xiaozhi_error barge_in
handle_touch w value c =
    if not (has_device c && is_known_touch value)
    then unsupported_device_event w c
    else if touch_event_is_barge_in value
    then barge_in w (codes "touch_barge_in") (codes "touch_barge_in") c
    else (c, [])

unfoldable pub handle_device_event : World → DeviceExtensionEvent → Client → Client × List Output
unfolding xiaozhi_error handle_touch
handle_device_event w event c =
    if not (kind_allowed w event.kind c)
    then unsupported_device_event w c
    else if text_eq event.kind (codes "playback")
    then (if text_eq event.value (codes "start")
        then (c, [])
        else if text_eq event.value (codes "stop_done")
        then (playback_stop_done w c, [])
        else unsupported_device_event w c)
    else if text_eq event.kind (codes "heartbeat")
    then (c, [])
    else if text_eq event.kind (codes "touch")
    then handle_touch w event.value c
    else unsupported_device_event w c

abbrev pub handle_parsed_event : World → Result DeviceExtensionEvent → Client → Client × List Output
handle_parsed_event w (err why) c = xiaozhi_error w (xiaozhi_error_code why) c
handle_parsed_event w (ok event) c = handle_device_event w event c

unfoldable pub handle_device_extension : World → List ℕ → Client → Client × List Output
unfolding xiaozhi_error xiaozhi_error_code handle_device_event parse_device_extension_event
handle_device_extension w bytes c =
    if not c.session.hello_received
    then xiaozhi_error w (codes "hello_required") c
    else if not (device_events_allowed w c)
    then xiaozhi_error w (codes "device_events_disabled") c
    else handle_parsed_event w
        (decoded (w.wire.device bytes) >>= λ object. parse_device_extension_event object) c

-- The last five.
abbrev last_frames : List ℕ → List ℕ
last_frames sizes = drop (length sizes - 5) sizes

unfoldable pub buffer_wake_preroll : World → ℕ → Client → Client
buffer_wake_preroll w size c =
    if w.decodes
    then record c {
      wake_preroll_payload_bytes = last_frames (c.wake_preroll_payload_bytes ++ size ∷ []);
    }
    else c

abbrev payload_bytes : Option OpusFrame → ℕ
payload_bytes none = 0
payload_bytes (some frame) = frame.payload_bytes

abbrev pub handle_opus : World → ℕ → Client → Client × List Output
handle_opus w size c =
    if c.session.listening
    then (
      record c {
        opus_frame_count = suc c.opus_frame_count;
        opus_byte_count = c.opus_byte_count + size;
      },
      received (suc c.opus_frame_count) c.session.current_turn ∷ [],
    )
    else if c.session.suppressed_listen_active
    then (c, ignored_suppressed_listen ∷ [])
    else if should_buffer_wake_preroll w.now c.session
    then (buffer_wake_preroll w size c, preroll ∷ [])
    else (c, ignored_not_listening ∷ [])

abbrev pub handle_binary_frame : World → Result Frame → Client → Client × List Output
handle_binary_frame w (err why) c = xiaozhi_error w (xiaozhi_error_code why) c
handle_binary_frame w (ok frame) c = handle_opus w (payload_bytes frame.opus) (adopt_frame frame c)

unfoldable pub handle_binary : World → List ℕ → Client → Client × List Output
unfolding xiaozhi_error xiaozhi_error_code adopt_frame should_buffer_wake_preroll
    buffer_wake_preroll parse_binary_frame_version
handle_binary w bytes c =
    if not c.session.hello_received
    then xiaozhi_error w (codes "hello_required") c
    else handle_binary_frame w
        (parse_binary_frame_version bytes device_to_server (identity c) c.binary_protocol_version) c
