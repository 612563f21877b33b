-- ===== src/Gateway/Listens.antt =====
-- A start of listening begins a turn.
use a21_stackchan_workmate.Base.{
  ℕ, suc, ◌<◌, ◌≤◌, ◌≡◌, ◌⊎◌, refl, sym, ap, ◌∙◌, arith, inl, inr, true, false, none, some, List,
  ◌++◌, Text, codes, text_eq, numbered,
}
use a21_stackchan_workmate.Protocol.{Mode, professional, workmate}
use a21_stackchan_workmate.Xiaozhi.Frame.{ListenMessage, HelloFeatures}
use a21_stackchan_workmate.Session.{
  Session, turn_id, turn_at, turn_prefix, turn_mode, should_abort_turn, start_turn,
  cancel_current_turn, input_suppression, set_listening,
}
use a21_stackchan_workmate.Gateway.{
  Client, Options, World, Output, listen_mode, on_session, should_send_listen_reply,
  write_listen_reply, ◌then_send◌, reset_opus_ingress, attach_wake_preroll, barge_in, begin_turn,
  handle_listen_start, handle_listen,
}
use mathlib.Core.Path.{subst}
use a21_stackchan_workmate.Gateway.Steps.{if_true, if_false, not_of_true}
use a21_stackchan_workmate.Gateway.Kept.{
  Shows, Interrupts, write_official_state-Shows, barge_in-Interrupts, keeps_barge_in,
}

-- The turn of the next number has begun, as the only one that may write.
pub record Begun (w : World) (mode : Mode) (c d : Client) : Type 0 where
  pub current : d.session.current_turn ≡ some c.session.allocated
  pub id :
      turn_id (turn_at (some c.session.allocated) d.session)
      ≡ numbered turn_prefix (suc c.session.next_turn_id)
  pub of_mode : turn_mode (turn_at (some c.session.allocated) d.session) ≡ mode
  pub may_write : should_abort_turn false (some c.session.allocated) d.session ≡ false
  pub older_abort :
      (p : ℕ) → p < c.session.allocated → should_abort_turn false (some p) d.session ≡ true
  pub listens : d.session.listening ≡ true
  pub since : d.session.listen_started_at ≡ w.now
  pub may_stop : d.session.tts_stop_sent ≡ false

of_shown_Begun :
    (w : World) (mode : Mode) (c d e : Client) → Begun w mode c d → Shows d e → Begun w mode c e
unfolding should_abort_turn
of_shown_Begun w mode c d e b h = record {
  current = rw h.only b.current;
  id = rw h.only b.id;
  of_mode = rw h.only b.of_mode;
  may_write = rw h.only b.may_write;
  older_abort = λ p old. rw h.only (b.older_abort p old);
  listens = rw h.only b.listens;
  since = rw h.only b.since;
  may_stop = rw h.only b.may_stop;
}

unfoldable pub begun_client : World → Mode → Client → Client
begun_client w mode d =
    on_session (λ s. record s { tts_stop_sent = false })
      (attach_wake_preroll
        (reset_opus_ingress (on_session (λ s. set_listening true w.now (start_turn mode s)) d)))

begun_client-Begun :
    (w : World) (mode : Mode) (c d : Client)
    → (mode ≡ professional) ⊎ (mode ≡ workmate)
    → Interrupts c d
    → Begun w mode c (begun_client w mode d)
unfolding begun_client attach_wake_preroll start_turn set_listening cancel_current_turn turn_id
    turn_mode should_abort_turn
begun_client-Begun w mode c d given i = record {
  current = rw i.no_turn (ground (arith, i.allocated));
  id = rw i.no_turn (ground (arith, i.counted));
  of_mode = elim given [
    | inl e ↦ rw (i.no_turn, e) (ground (arith, i.allocated))
    | inr e ↦ rw (i.no_turn, e) (ground (arith, i.allocated))
  ];
  may_write = rw i.no_turn (ground arith);
  older_abort = λ p old. rw i.no_turn (ground (arith, i.allocated, old));
  listens = refl;
  since = refl;
  may_stop = refl;
}

write_listen_reply-same :
    (state status turn : Text) (c d : Client)
    → d.features ≡ c.features
    → d.session.device_id ≡ c.session.device_id
    → write_listen_reply state status turn d ≡ write_listen_reply state status turn c
unfolding write_listen_reply should_send_listen_reply
write_listen_reply-same state status turn c d features device = rw (features, device) refl

listen_mode-cases :
    (o : Options) (f : HelloFeatures) (raw : Text)
    → (listen_mode o f raw ≡ professional) ⊎ (listen_mode o f raw ≡ workmate)
unfolding listen_mode
listen_mode-cases o f raw = ground arith

begin_turn-Begun :
    (w : World) (mode : Mode) (c d : Client)
    → (mode ≡ professional) ⊎ (mode ≡ workmate)
    → Interrupts c d
    → Begun w mode c (begin_turn w mode d).0
unfolding begin_turn begun_client
begin_turn-Begun w mode c d given i =
    of_shown_Begun w mode c (begun_client w mode d) _ (begun_client-Begun w mode c d given i) (
      write_official_state-Shows w (codes "listening") (codes "listen_start") true
        (begun_client w mode d))

begun_client-device :
    (w : World) (mode : Mode) (c d : Client)
    → Interrupts c d
    → (begun_client w mode d).session.device_id ≡ c.session.device_id
unfolding begun_client attach_wake_preroll start_turn set_listening cancel_current_turn
begun_client-device w mode c d i = rw i.no_turn i.device

begun_client-features :
    (w : World) (mode : Mode) (c d : Client)
    → Interrupts c d
    → (begun_client w mode d).features ≡ c.features
unfolding begun_client attach_wake_preroll
begun_client-features w mode c d i = i.features

begin_turn-replies :
    (w : World) (mode : Mode) (c d : Client)
    → (mode ≡ professional) ⊎ (mode ≡ workmate)
    → Interrupts c d
    → (begin_turn w mode d).1
      ≡ write_listen_reply
          (codes "start")
          (codes "accepted")
          (numbered turn_prefix (suc c.session.next_turn_id))
          c
unfolding begin_turn begun_client
begin_turn-replies w mode c d given i =
    let begun = begin_turn-Begun w mode c d given i in
    let h =
      write_official_state-Shows w (codes "listening") (codes "listen_start") true
        (begun_client w mode d) in
    let e : Client = (begin_turn w mode d).0 in
    ap (λ (turn : Text). write_listen_reply (codes "start") (codes "accepted") turn e)
      (ap (λ (p : ℕ). turn_id (turn_at (some p) e.session)) i.allocated ∙ begun.id)
    ∙ write_listen_reply-same (codes "start") (codes "accepted") _ c e
        (rw h.only (begun_client-features w mode c d i))
        (rw h.only (begun_client-device w mode c d i))

not_suppressed :
    (now : ℕ) (s : Session) → s.input_cooldown_until ≤ now → input_suppression now s ≡ none
unfolding input_suppression
not_suppressed now s over = ground (arith, over)

pub handle_listen_start_lem :
    (w : World) (mode : Mode) (c : Client)
    → c.session.input_cooldown_until ≤ w.now
    → handle_listen_start w mode c
      ≡ (barge_in w (codes "barge_in") (codes "barge_in") c then_send begin_turn w mode)
unfolding handle_listen_start
handle_listen_start_lem w mode c over =
    rw (not_suppressed w.now c.session over, handle_listen_start) refl

pub handle_listen_lem :
    (w : World) (m : ListenMessage) (c : Client)
    → c.session.hello_received ≡ true
    → text_eq m.state (codes "start") ≡ true
    → handle_listen w m c ≡ handle_listen_start w (listen_mode w.options c.features m.mode) c
unfolding handle_listen
handle_listen_lem w m c greeted starts =
    if_false _ _ _ (not_of_true _ greeted) ∙ if_true _ _ _ starts

pub handle_listen-Begun :
    (w : World) (m : ListenMessage) (c : Client)
    → c.session.hello_received ≡ true
    → text_eq m.state (codes "start") ≡ true
    → c.session.input_cooldown_until ≤ w.now
    → Begun w (listen_mode w.options c.features m.mode) c (handle_listen w m c).0
      × ((handle_listen w m c).1
          ≡ (barge_in w (codes "barge_in") (codes "barge_in") c).1
            ++ write_listen_reply
                (codes "start")
                (codes "accepted")
                (numbered turn_prefix (suc c.session.next_turn_id))
                c)
handle_listen-Begun w m c greeted starts over =
    let mode = listen_mode w.options c.features m.mode in
    let given = listen_mode-cases w.options c.features m.mode in
    let stop = barge_in w (codes "barge_in") (codes "barge_in") c in
    let i = barge_in-Interrupts w (codes "barge_in") (codes "barge_in") c keeps_barge_in in
    subst
      (λ (r : Client × List Output).
        Begun w mode c r.0
        × (r.1
            ≡ stop.1
              ++ write_listen_reply (codes "start") (codes "accepted")
                  (numbered turn_prefix (suc c.session.next_turn_id)) c))
      (sym (handle_listen_lem w m c greeted starts ∙ handle_listen_start_lem w mode c over))
      (
        begin_turn-Begun w mode c stop.0 given i,
        ap (λ (more : List Output). stop.1 ++ more) (begin_turn-replies w mode c stop.0 given i),
      )
