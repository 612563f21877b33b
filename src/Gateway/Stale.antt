-- ===== src/Gateway/Stale.antt =====
-- The mark of a suppressed start of listening outlives a start that is accepted.
use a21_stackchan_workmate.Base.{
  ℕ, ◌≤◌, ◌≡◌, refl, sym, ap, ◌∙◌, arith, true, false, Option, List, [], ◌∷◌, Text, codes, text_eq,
  text_eq_iff,
}
use a21_stackchan_workmate.Protocol.{Mode}
use a21_stackchan_workmate.Xiaozhi.Frame.{ListenMessage}
use a21_stackchan_workmate.Session.{
  Session, prepare_listen_start_barge_in, set_current_turn_mode, cancel_current_turn, update_turn,
  set_listening, start_turn, complete_turn,
}
use a21_stackchan_workmate.Gateway.{
  Client, World, Output, ignored_suppressed_listen, listen_mode,
  should_suppress_input_after_tts_stop, on_session, attach_wake_preroll, set_professional, barge_in,
  begin_turn, handle_listen_stop, handle_listen, handle_opus,
}
use mathlib.Core.Path.{subst}
use a21_stackchan_workmate.Gateway.Steps.{if_true, if_false, not_of_true}
use a21_stackchan_workmate.Gateway.Kept.{
  Shows, cancelled, stop_playback-Shows, write_official_state-Shows, keeps_barge_in,
}
use a21_stackchan_workmate.Gateway.Listens.{
  begun_client, handle_listen_lem, handle_listen_start_lem, handle_listen-Begun,
}

-- A client that had a suppressed start of listening, after a hello.
record Marked (c : Client) : Type 0 where
  greeted : c.session.hello_received ≡ true
  marked : c.session.suppressed_listen_active ≡ true

of_shown_Marked : (c d : Client) → Marked c → Shows c d → Marked d
of_shown_Marked c d m h = record { greeted = rw h.only m.greeted; marked = rw h.only m.marked }

cancelled-Marked :
    (w : World) (reason : Text) (c : Client) → Marked c → Marked (cancelled w reason c)
unfolding cancelled prepare_listen_start_barge_in cancel_current_turn update_turn
cancelled-Marked w reason c m = record {
  greeted = ground (arith, m.greeted);
  marked = ground (arith, m.marked);
}

begun_client-Marked :
    (w : World) (mode : Mode) (c : Client) → Marked c → Marked (begun_client w mode c)
unfolding begun_client attach_wake_preroll start_turn set_listening cancel_current_turn update_turn
begun_client-Marked w mode c m = record {
  greeted = ground (arith, m.greeted);
  marked = ground (arith, m.marked);
}

barge_in-Marked :
    (w : World) (reason stop_reason : Text) (c : Client)
    → should_suppress_input_after_tts_stop stop_reason ≡ false
    → Marked c
    → Marked (barge_in w reason stop_reason c).0
unfolding barge_in cancelled
barge_in-Marked w reason stop_reason c keeps m =
    of_shown_Marked (cancelled w reason c) _ (cancelled-Marked w reason c m)
      (stop_playback-Shows w _ stop_reason _ keeps)

begin_turn-Marked :
    (w : World) (mode : Mode) (c : Client) → Marked c → Marked (begin_turn w mode c).0
unfolding begin_turn begun_client
begin_turn-Marked w mode c m =
    of_shown_Marked (begun_client w mode c) _ (begun_client-Marked w mode c m) (
      write_official_state-Shows w (codes "listening") (codes "listen_start") true
        (begun_client w mode c))

handle_listen-Marked :
    (w : World) (m : ListenMessage) (c : Client)
    → Marked c
    → text_eq m.state (codes "start") ≡ true
    → c.session.input_cooldown_until ≤ w.now
    → Marked (handle_listen w m c).0
handle_listen-Marked w m c mark starts over =
    let mode = listen_mode w.options c.features m.mode in
    subst (λ (r : Client × List Output). Marked r.0)
      (sym (handle_listen_lem w m c mark.greeted starts ∙ handle_listen_start_lem w mode c over))
      (begin_turn-Marked w mode _
        (barge_in-Marked w (codes "barge_in") (codes "barge_in") c keeps_barge_in mark))

-- A client that is marked and does not listen.
record Deaf (c : Client) : Type 0 where
  marked : c.session.suppressed_listen_active ≡ true
  silent : c.session.listening ≡ false

set_professional-keeps :
    (mode : Mode) (s : Session)
    → ((set_professional mode s).suppressed_listen_active ≡ s.suppressed_listen_active)
      × ((set_professional mode s).listening ≡ s.listening)
unfolding set_current_turn_mode update_turn
set_professional-keeps mode s = ground arith

stop_alone :
    (state : Text)
    → text_eq state (codes "stop") ≡ true
    → (text_eq state (codes "start") ≡ false) × (text_eq state (codes "detect") ≡ false)
unfolding text_eq
stop_alone state stops = rw ((text_eq_iff state (codes "stop")).0 stops) (refl, refl)

handle_listen_stop_lem :
    (w : World) (m : ListenMessage) (c : Client)
    → c.session.hello_received ≡ true
    → text_eq m.state (codes "stop") ≡ true
    → handle_listen w m c ≡ handle_listen_stop w (listen_mode w.options c.features m.mode) c
unfolding handle_listen
handle_listen_stop_lem w m c greeted stops =
    let (other, another) = stop_alone m.state stops in
    if_false _ _ _ (not_of_true _ greeted)
    ∙ if_false _ _ _ other
    ∙ if_false _ _ _ another
    ∙ if_true _ _ _ stops

stopped_lem :
    (w : World) (mode : Mode) (c : Client)
    → c.session.listening ≡ true
    → (handle_listen_stop w mode c).0
      ≡ on_session (λ s. set_professional mode (set_listening false 0 s)) c
unfolding handle_listen_stop
stopped_lem w mode c listens =
    ap (λ (r : Client × List Output). r.0) (if_false _ _ _ (not_of_true _ listens))

handle_listen_stop-Deaf :
    (w : World) (m : ListenMessage) (c : Client)
    → Marked c
    → c.session.listening ≡ true
    → text_eq m.state (codes "stop") ≡ true
    → Deaf (handle_listen w m c).0
unfolding set_listening
handle_listen_stop-Deaf w m c mark listens stops =
    let mode = listen_mode w.options c.features m.mode in
    let (marked, silent) = set_professional-keeps mode (set_listening false 0 c.session) in
    subst Deaf
      (sym (
        ap (λ (r : Client × List Output). r.0) (handle_listen_stop_lem w m c mark.greeted stops)
        ∙ stopped_lem w mode c listens))
      (record { marked = marked ∙ mark.marked; silent = silent })

complete_turn-Deaf :
    (turn : Option ℕ) (c : Client) → Deaf c → Deaf (on_session (complete_turn turn) c)
unfolding complete_turn
complete_turn-Deaf turn c deaf = record {
  marked = ground (arith, deaf.marked);
  silent = ground (arith, deaf.silent);
}

handle_opus_of_Deaf :
    (w : World) (size : ℕ) (c : Client)
    → Deaf c
    → (handle_opus w size c).1 ≡ ignored_suppressed_listen ∷ []
handle_opus_of_Deaf w size c deaf = ground (arith, deaf.marked, deaf.silent)

-- Where a start of listening was suppressed, and the next one is accepted before a stop came, the mark
-- of the first outlives the second: when the second was stopped, and even when its turn has completed,
-- a binary frame is ignored as one of a suppressed start, whatever the time.
pub handle_opus_of_stale_mark :
    (w1 w2 w3 : World) (m1 m2 : ListenMessage) (turn : Option ℕ) (size : ℕ) (c : Client)
    → c.session.hello_received ≡ true
    → c.session.suppressed_listen_active ≡ true
    → text_eq m1.state (codes "start") ≡ true
    → c.session.input_cooldown_until ≤ w1.now
    → text_eq m2.state (codes "stop") ≡ true
    → (handle_opus w3 size
        (on_session (complete_turn turn) (handle_listen w2 m2 (handle_listen w1 m1 c).0).0)).1
      ≡ ignored_suppressed_listen ∷ []
handle_opus_of_stale_mark w1 w2 w3 m1 m2 turn size c greeted marked starts over stops =
    let begun = (handle_listen-Begun w1 m1 c greeted starts over).0 in
    let mark =
      handle_listen-Marked w1 m1 c (record { greeted = greeted; marked = marked }) starts over in
    handle_opus_of_Deaf w3 size _
      (complete_turn-Deaf turn _ (handle_listen_stop-Deaf w2 m2 _ mark begun.listens stops))
