-- ===== src/Session/Tests.antt =====
-- A session with two turns.
use a21_stackchan_workmate.Base.{
  ℕ, ◌≡◌, ◌≢◌, ◌≤◌, refl, arith, true, false, List, [], ◌∷◌, some, none, codes, trim_space, pos,
  ◌+◌, ◌||◌, numbered, padded, zeros, decimal, digits_above, is_space, trim_left, trim_right,
  to_lower, lower_rune, contains, has_prefix,
}
use a21_stackchan_workmate.Protocol.{workmate, professional}
use a21_stackchan_workmate.Audio.Pacer.{new_controller}
use a21_stackchan_workmate.Session.{
  Session, Turn, canceled, should_abort_turn, turn_id, turn_mode, update_turn, start_turn,
  set_current_turn_mode, cancel_current_turn, prepare_listen_start_barge_in, suppress_input_until,
  complete_turn, claim_tts_stop, input_suppression, cancel_turn, cancel_cause, abort_is_barge_in,
  safe_gateway_fallback_token,
}
use a21_stackchan_workmate.Session.Steps.{
  Op, start, set_mode, claim_stop, reset_stop, suppress_input, apply, run, claims, claims_in,
  renewals_in,
}
use a21_stackchan_workmate.Session.Turns.{
  IsSession, run-IsSession, run-should_abort_turn, run-should_abort_turn_newest, run-turn_id_ne,
  run-held, held,
}
use a21_stackchan_workmate.Session.Stop.{claims_in-le, free}
use a21_stackchan_workmate.Session.Input.{run-input_suppression, is_given, one_lasts}

abbrev new_session : Session
new_session = record {
  turns = λ p. none;
  allocated = 0;
  trace_id = codes "t";
  session_id = codes "s";
  device_id = codes "d";
  current_turn = none;
  next_turn_id = 0;
  hello_received = false;
  listening = false;
  listen_started_at = 0;
  suppressed_listen_active = false;
  tts_stop_sent = false;
  last_downlink_at = 0;
  last_downlink_turn_id = [];
  last_playback_stop_done_at = 0;
  input_cooldown_until = 0;
  input_cooldown_reason = [];
  official_state = [];
  state_reaction = [];
}

new_session-IsSession : IsSession new_session
new_session-IsSession = record {
  counted = refl;
  numbers = λ p. refl;
  newest = λ p current. ground (arith, current);
}

abbrev two_turns : List Op
two_turns = start workmate ∷ set_mode professional ∷ start workmate ∷ []

-- The two turns, as one name for the unfolding lines below.
executed : Session → Session
unfolding run apply start_turn set_current_turn_mode cancel_current_turn update_turn cancel_turn
    cancel_cause abort_is_barge_in to_lower lower_rune trim_space trim_left trim_right is_space
    contains has_prefix should_abort_turn claims claims_in claim_tts_stop suppress_input_until
    safe_gateway_fallback_token input_suppression complete_turn prepare_listen_start_barge_in
    turn_id new_controller
executed s = s

abbrev one_turn : Session
one_turn = run (start workmate ∷ []) new_session

-- The first turn was replaced by the second.
run-should_abort_turn_example :
    should_abort_turn false (some 0) (run (set_mode professional ∷ []) (run two_turns new_session))
    ≡ true
unfolding executed
run-should_abort_turn_example =
    run-should_abort_turn (set_mode professional ∷ []) false 0 (run two_turns new_session)
      (ground arith) refl

abbrev turn_of : ℕ → Turn
turn_of id = record {
  id = id;
  cause = none;
  pacer = new_controller (pos 60000000) (pos 1);
  mode = workmate;
  cancel_reason = [];
}

run-should_abort_turn_newest_example : (turn_of 2).id ≡ (run two_turns new_session).next_turn_id
unfolding executed
run-should_abort_turn_newest_example =
    run-should_abort_turn_newest two_turns new_session new_session-IsSession false 1 (turn_of 2)
      refl refl

abbrev first_turn : Turn
first_turn = record (turn_of 1) {
  cause = some canceled;
  mode = professional;
  cancel_reason = codes "new_turn";
}

run-turn_id_ne_example : turn_id (some first_turn) ≢ turn_id (some (turn_of 2))
unfolding executed
run-turn_id_ne_example =
    run-turn_id_ne two_turns new_session new_session-IsSession 0 1 first_turn (turn_of 2) refl refl
      (λ e. ground (arith, e))

one_turn-IsSession : IsSession one_turn
one_turn-IsSession = run-IsSession (start workmate ∷ []) new_session new_session-IsSession

run-held_example : held 0 (run (claim_stop ∷ start workmate ∷ []) one_turn) ≡ true
unfolding executed
run-held_example =
    run-held (claim_stop ∷ start workmate ∷ []) 0 (turn_of 1) one_turn one_turn-IsSession refl refl
      refl

abbrev stops : List Op
stops = claim_stop ∷ claim_stop ∷ reset_stop ∷ claim_stop ∷ []

claims_in-le_example : claims_in stops new_session ≤ renewals_in stops + free new_session
claims_in-le_example = claims_in-le stops new_session

abbrev suppressions : List Op
suppressions = suppress_input 9 [] ∷ suppress_input 5 [] ∷ []

run-input_suppression_example :
    is_given (input_suppression 7 (run suppressions new_session))
    ≡ (is_given (input_suppression 7 new_session) || one_lasts 7 suppressions)
run-input_suppression_example = run-input_suppression 7 suppressions new_session

-- Without a stop that was sent, a barge-in names the current turn.
barge_in_test :
    (prepare_listen_start_barge_in (codes "barge_in") 4 9 one_turn).1
    ≡ some (record {
      turn = some 0;
      turn_id = codes "a21-xiaozhi-turn-000001";
      trace_id = codes "t";
      session_id = codes "s";
      device_id = codes "d";
      mode = workmate;
    })
unfolding executed numbered padded zeros decimal digits_above turn_mode
barge_in_test = refl
