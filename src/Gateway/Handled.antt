-- ===== src/Gateway/Handled.antt =====
-- The handlers of a connection (internal/gateway/server.go) as sequences of the operations on a session.
mod Messages
use a21_stackchan_workmate.Base.{
  if◌then◌else◌, Bool, suc, ◌&&◌, Bool-cases, to_lower, ℕ, ◌+◌, refl, inl, inr, true, false, not,
  Option, none, some, List, [], ◌∷◌, is_empty, Text, codes, text_eq, trim_space,
}
use a21_stackchan_workmate.Protocol.{Mode, professional}
use a21_stackchan_workmate.Xiaozhi.Identity.{Result, ok, err}
use a21_stackchan_workmate.Xiaozhi.Frame.{
  Frame, HelloMessage, ListenMessage, ControlMessage, MessageType, hello_type, listen_type,
  abort_type, mcp_type, other_type,
}
use a21_stackchan_workmate.Xiaozhi.Device.{DeviceExtensionEvent}
use a21_stackchan_workmate.Session.{Session, input_suppression}
use a21_stackchan_workmate.Session.Steps.{
  set_mode, listen_barge_in, suppress_input, suppress_listen, clear_suppressed, reset_stop, listen,
  hello, playback_stopped, adopt, apply,
}
use a21_stackchan_workmate.Gateway.{
  Client, World, Output, xiaozhi_error_code, attach_wake_preroll, end_suppressed_listen,
  set_professional, handle_given, handle_type, barge_in, handle_hello, ignore_listen_start,
  begin_turn, handle_listen_start, handle_listen_stop, handle_listen, handle_abort, handle_mcp,
  adopt_frame, playback_stop_done, kind_allowed, handle_touch, handle_device_event,
  handle_device_extension, handle_parsed_event, buffer_wake_preroll, handle_opus,
  handle_binary_frame, handle_binary, handle_adopted, handle_text_frame, handle_text, Message, text,
  binary, handle, handle_all,
}
use a21_stackchan_workmate.Gateway.Asked.{
  with_one, holds_back, may_begin, is_start, asks_type, asks_control, asks_frame, asks,
  accepted_starts,
}
use a21_stackchan_workmate.Gateway.Steps.{
  then_start, Reaches, Handled, Changed, leaves, stays, joins, then_op, if_holds,
  xiaozhi_error-Handled, write_official_state-Changed, stop_playback-Handled, barge_in-Handled,
}
use a21_stackchan_workmate.Gateway.Handled.Messages.{
  handle_hello-Handled, handle_given_listen-Handled, handle_abort-Handled, handle_mcp-Handled,
}

handle_given-Handled {ℓ} :
    {A : Type ℓ} (handler : A → Client → Client × List Output) (part : Option A) (c : Client)
    {n : ℕ} {s : Session}
    → ((a : A) → Handled n s (handler a c))
    → Changed n s c
    → Handled n s (handle_given handler part c)
handle_given-Handled handler none c each r = leaves r
handle_given-Handled handler (some part) c each r = each part

handle_type-Handled :
    (w : World) (type : MessageType) (m : ControlMessage) (c : Client) {n : ℕ} {s : Session}
    → Changed n s c
    → Handled (with_one (asks_type type m && may_begin w c) n) s (handle_type w type m c)
handle_type-Handled w hello_type m c r =
    handle_given-Handled (handle_hello w) m.hello c (λ hello. handle_hello-Handled w hello c r) r
handle_type-Handled w listen_type m c r = handle_given_listen-Handled w m.listen c r
handle_type-Handled w abort_type m c r =
    handle_given-Handled (handle_abort w) m.abort c (λ reason. handle_abort-Handled w reason c r) r
handle_type-Handled w mcp_type m c r = handle_mcp-Handled w c r
handle_type-Handled w (other_type t) m c r = leaves r

adopt_frame-Changed :
    (f : Frame) (c : Client) {n : ℕ} {s : Session} → Changed n s c → Changed n s (adopt_frame f c)
unfolding adopt_frame apply
adopt_frame-Changed f c r = record {
  reached = then_op (adopt f.device_id f.trace_id f.session_id) refl r.reached;
}

handle_touch-Handled :
    (w : World) (value : Text) (c : Client) {n : ℕ} {s : Session}
    → Changed n s c
    → Handled n s (handle_touch w value c)
unfolding handle_touch
handle_touch-Handled w value c {n} {s} r =
    if_holds (Handled n s) _ (xiaozhi_error-Handled w (codes "unsupported_device_event") c r) (
      if_holds (Handled n s) _
        (barge_in-Handled w (codes "touch_barge_in") (codes "touch_barge_in") c r) (leaves r))

playback_stop_done-Changed :
    (w : World) (c : Client) {n : ℕ} {s : Session}
    → Changed n s c
    → Changed n s (playback_stop_done w c)
unfolding apply
playback_stop_done-Changed w c {n} {s} r =
    if_holds (Changed n s) _ (record { reached = then_op (playback_stopped w.now) refl r.reached })
      r

handle_device_event-Handled :
    (w : World) (event : DeviceExtensionEvent) (c : Client) {n : ℕ} {s : Session}
    → Changed n s c
    → Handled n s (handle_device_event w event c)
unfolding handle_device_event
handle_device_event-Handled w event c {n} {s} r =
    let refused = xiaozhi_error-Handled w (codes "unsupported_device_event") c r in
    if_holds (Handled n s) (not (kind_allowed w event.kind c)) refused (
      if_holds (Handled n s) (text_eq event.kind (codes "playback"))
        (if_holds (Handled n s) (text_eq event.value (codes "start")) (leaves r) (
          if_holds (Handled n s) (text_eq event.value (codes "stop_done"))
            (leaves (playback_stop_done-Changed w c r)) refused))
        (if_holds (Handled n s) (text_eq event.kind (codes "heartbeat")) (leaves r) (
          if_holds (Handled n s) (text_eq event.kind (codes "touch"))
            (handle_touch-Handled w event.value c r) refused)))

handle_parsed_event-Handled :
    (w : World) (event : Result DeviceExtensionEvent) (c : Client) {n : ℕ} {s : Session}
    → Changed n s c
    → Handled n s (handle_parsed_event w event c)
handle_parsed_event-Handled w (err why) c r = xiaozhi_error-Handled w (xiaozhi_error_code why) c r
handle_parsed_event-Handled w (ok event) c r = handle_device_event-Handled w event c r

handle_device_extension-Handled :
    (w : World) (bytes : List ℕ) (c : Client) {n : ℕ} {s : Session}
    → Changed n s c
    → Handled n s (handle_device_extension w bytes c)
unfolding handle_device_extension
handle_device_extension-Handled w bytes c {n} {s} r =
    if_holds (Handled n s) _ (xiaozhi_error-Handled w (codes "hello_required") c r) (
      if_holds (Handled n s) _ (xiaozhi_error-Handled w (codes "device_events_disabled") c r)
        (handle_parsed_event-Handled w _ c r))

handle_adopted-Handled :
    (w : World) (m : Option ControlMessage) (c : Client) {n : ℕ} {s : Session}
    → Changed n s c
    → Handled (with_one (asks_control m && may_begin w c) n) s (handle_adopted w m c)
handle_adopted-Handled w none c r = xiaozhi_error-Handled w (codes "unsupported_message_type") c r
handle_adopted-Handled w (some m) c r = handle_type-Handled w m.type m c r

handle_text_frame-Handled :
    (w : World) (frame : Result Frame) (c : Client) {n : ℕ} {s : Session}
    → Changed n s c
    → Handled (with_one (asks_frame frame && may_begin w c) n) s (handle_text_frame w frame c)
unfolding adopt_frame
handle_text_frame-Handled w (err why) c r = xiaozhi_error-Handled w (xiaozhi_error_code why) c r
handle_text_frame-Handled w (ok frame) c r =
    handle_adopted-Handled w frame.control (adopt_frame frame c) (adopt_frame-Changed frame c r)

handle_opus-Handled :
    (w : World) (size : ℕ) (c : Client) {n : ℕ} {s : Session}
    → Changed n s c
    → Handled n s (handle_opus w size c)
unfolding buffer_wake_preroll
handle_opus-Handled w size c {n} {s} r =
    if_holds (Handled n s) _ (record { reached = r.reached })
      (if_holds (Handled n s) _ (leaves r) (
        if_holds (Handled n s) _
          (leaves (if_holds (Changed n s) w.decodes (record { reached = r.reached }) r))
          (leaves r)))

handle_binary_frame-Handled :
    (w : World) (frame : Result Frame) (c : Client) {n : ℕ} {s : Session}
    → Changed n s c
    → Handled n s (handle_binary_frame w frame c)
handle_binary_frame-Handled w (err why) c r = xiaozhi_error-Handled w (xiaozhi_error_code why) c r
handle_binary_frame-Handled w (ok frame) c r =
    handle_opus-Handled w _ (adopt_frame frame c) (adopt_frame-Changed frame c r)

handle-Handled :
    (w : World) (message : Message) (c : Client) {n : ℕ} {s : Session}
    → Changed n s c
    → Handled (with_one (asks w message c && may_begin w c) n) s (handle w message c)
unfolding handle handle_text handle_binary
handle-Handled w (text bytes) c {n} {s} r =
    elim (Bool-cases
      (text_eq (trim_space (to_lower (w.wire.type_of_message bytes))) (codes "device"))) [
        | inl e ↦ rw e (handle_device_extension-Handled w bytes c r)
        | inr e ↦ rw e (handle_text_frame-Handled w _ c r)
      ]
handle-Handled w (binary bytes) c {n} {s} r =
    if_holds (Handled n s) _ (xiaozhi_error-Handled w (codes "hello_required") c r)
      (handle_binary_frame-Handled w _ c r)

-- Whatever messages a connection handles, what they do to its session is a sequence of operations of
-- Session.Steps, of which as many begin a turn as there are accepted starts of listening.
pub handle_all-Reaches :
    (messages : List (World × Message)) (c : Client)
    → Reaches (accepted_starts messages c) c.session (handle_all messages c).0.session
unfolding handle_all accepted_starts
handle_all-Reaches [] c = stays c.session
handle_all-Reaches ((w, message) ∷ messages) c =
    joins (handle-Handled w message c {n = 0} (record { reached = stays c.session })).reached
      (handle_all-Reaches messages (handle w message c).0)
