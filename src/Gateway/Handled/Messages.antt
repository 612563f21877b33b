-- ===== src/Gateway/Handled/Messages.antt =====
-- Hello, listen, abort and MCP as sequences of the operations on a session (handleXiaozhiText of
-- internal/gateway/server.go).
use a21_stackchan_workmate.Base.{
  if◌then◌else◌, Bool, suc, ◌&&◌, Bool-cases, ℕ, ◌+◌, refl, inl, inr, true, false, not, Option,
  none, some, List, is_empty, Text, codes, text_eq, trim_space,
}
use a21_stackchan_workmate.Protocol.{Mode, professional}
use a21_stackchan_workmate.Xiaozhi.Frame.{HelloMessage, ListenMessage}
use a21_stackchan_workmate.Session.{Session, input_suppression}
use a21_stackchan_workmate.Session.Steps.{
  set_mode, listen_barge_in, suppress_input, suppress_listen, clear_suppressed, reset_stop, listen,
  hello, apply,
}
use a21_stackchan_workmate.Gateway.{
  Client, World, Output, attach_wake_preroll, end_suppressed_listen, set_professional, handle_given,
  barge_in, handle_hello, ignore_listen_start, begin_turn, handle_listen_start, handle_listen_stop,
  handle_listen, handle_abort, handle_mcp,
}
use a21_stackchan_workmate.Gateway.Asked.{with_one, holds_back, may_begin, is_start}
use a21_stackchan_workmate.Gateway.Steps.{
  then_start, Reaches, Handled, Changed, leaves, then_op, if_holds, xiaozhi_error-Handled,
  write_official_state-Changed, stop_playback-Handled, barge_in-Handled,
}

pub handle_hello-Handled :
    (w : World) (m : HelloMessage) (c : Client) {n : ℕ} {s : Session}
    → Changed n s c
    → Handled n s (handle_hello w m c)
unfolding handle_hello apply
handle_hello-Handled w m c {n} {s} r =
    if_holds (Handled n s) _ (xiaozhi_error-Handled w (codes "unsupported_audio_params") c r)
      (record { reached = then_op hello refl r.reached })

begin_turn-Handled :
    (w : World) (mode : Mode) (c : Client) {n : ℕ} {s : Session}
    → Changed n s c
    → Handled (suc n) s (begin_turn w mode c)
unfolding begin_turn attach_wake_preroll apply
begin_turn-Handled w mode c r = leaves (
    write_official_state-Changed w (codes "listening") (codes "listen_start") true _ (record {
      reached =
          then_op reset_stop refl (then_op (listen true w.now) refl (then_start mode r.reached));
    }))

handle_listen_start-Handled :
    (w : World) (mode : Mode) (c : Client) {n : ℕ} {s : Session}
    → Changed n s c
    → Handled (with_one (not (holds_back w c)) n) s (handle_listen_start w mode c)
unfolding handle_listen_start input_suppression ignore_listen_start apply
handle_listen_start-Handled w mode c {n} {s} r = elim (Bool-cases (holds_back w c)) [
  | inl e ↦
      rw (e, handle_listen_start)
        (record {
          reached = then_op suppress_listen refl (then_op (listen false 0) refl r.reached);
        })
  | inr e ↦
      let interrupted = barge_in-Handled w (codes "barge_in") (codes "barge_in") c r in
      let begun =
        begin_turn-Handled w mode ((barge_in w (codes "barge_in") (codes "barge_in") c).0) {n = n}
          {s = s} (record { reached = interrupted.reached }) in
      rw (e, handle_listen_start) (record { reached = begun.reached })
]

end_suppressed_listen-Reaches :
    (now : ℕ) {n : ℕ} {s : Session} (t : Session)
    → Reaches n s t
    → Reaches n s (end_suppressed_listen now t)
unfolding apply
end_suppressed_listen-Reaches now {n} {s} t r =
    let cleared = then_op clear_suppressed refl r in
    if_holds (Reaches n s) _
      (then_op (suppress_input (now + 1200) (codes "after_suppressed_listen")) refl cleared) cleared

set_professional-Reaches :
    (mode : Mode) {n : ℕ} {s : Session} (t : Session)
    → Reaches n s t
    → Reaches n s (set_professional mode t)
unfolding apply
set_professional-Reaches professional t r = then_op (set_mode professional) refl r
set_professional-Reaches mode t r = r

handle_listen_stop-Handled :
    (w : World) (mode : Mode) (c : Client) {n : ℕ} {s : Session}
    → Changed n s c
    → Handled n s (handle_listen_stop w mode c)
unfolding handle_listen_stop apply
handle_listen_stop-Handled w mode c {n} {s} r =
    if_holds (Handled n s) _
      (record { reached = end_suppressed_listen-Reaches w.now c.session r.reached })
      (record {
        reached = set_professional-Reaches mode _ (then_op (listen false 0) refl r.reached);
      })

requires_hello :
    (given : Bool) (begins : Bool) {n : ℕ} {s : Session} {x y : Client × List Output}
    → Handled n s x
    → Handled (with_one begins n) s y
    → Handled (with_one (given && begins) n) s (if not given then x else y)
requires_hello true begins hx hy = hy
requires_hello false begins hx hy = hx

handle_listen-Handled :
    (w : World) (m : ListenMessage) (c : Client) {n : ℕ} {s : Session}
    → Changed n s c
    → Handled (with_one (is_start (some m) && may_begin w c) n) s (handle_listen w m c)
unfolding handle_listen
handle_listen-Handled w m c {n} {s} r = elim (Bool-cases (text_eq m.state (codes "start"))) [
  | inl first ↦ rw first (
      requires_hello c.session.hello_received (not (holds_back w c))
        (xiaozhi_error-Handled w (codes "hello_required") c r)
        (handle_listen_start-Handled w _ c r))
  | inr other ↦ rw other (
      if_holds (Handled n s) _ (xiaozhi_error-Handled w (codes "hello_required") c r) (
        if_holds (Handled n s) _ (leaves r)
          (if_holds (Handled n s) _ (handle_listen_stop-Handled w _ c r) (leaves r))))
]

pub handle_given_listen-Handled :
    (w : World) (part : Option ListenMessage) (c : Client) {n : ℕ} {s : Session}
    → Changed n s c
    → Handled
        (with_one (is_start part && may_begin w c) n)
        s
        (handle_given (handle_listen w) part c)
handle_given_listen-Handled w none c r = leaves r
handle_given_listen-Handled w (some m) c r = handle_listen-Handled w m c r

pub handle_abort-Handled :
    (w : World) (reason : Text) (c : Client) {n : ℕ} {s : Session}
    → Changed n s c
    → Handled n s (handle_abort w reason c)
unfolding handle_abort apply
handle_abort-Handled w reason c {n} {s} r =
    let cancelled =
      then_op (listen_barge_in reason w.now 3000) refl (then_op (listen false 0) refl r.reached) in
    if_holds (Handled n s) _ (xiaozhi_error-Handled w (codes "hello_required") c r) (
      stop_playback-Handled w _ (codes "abort") _ (record {
        reached =
            if_holds (Reaches n s) (is_empty (trim_space reason))
              (then_op (suppress_input (w.later + 700) (codes "after_barge")) refl cancelled)
              cancelled;
      }))

pub handle_mcp-Handled :
    (w : World) (c : Client) {n : ℕ} {s : Session} → Changed n s c → Handled n s (handle_mcp w c)
unfolding handle_mcp
handle_mcp-Handled w c {n} {s} r =
    if_holds (Handled n s) _ (xiaozhi_error-Handled w (codes "hello_required") c r) (leaves r)
