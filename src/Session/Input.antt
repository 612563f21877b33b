-- ===== src/Session/Input.antt =====
-- The input is held back for as long as the longest suppression that was asked for.
use a21_stackchan_workmate.Base.{
  ℕ, ◌≡◌, ◌∙◌, arith, Bool, true, false, ◌||◌, ltb, List, [], ◌∷◌, Option, none, some, Text,
}
use a21_stackchan_workmate.Session.{
  Session, update_turn, start_turn, set_current_turn_mode, cancel_current_turn, input_suppression,
  prepare_listen_start_barge_in, suppress_input_until, clear_suppressed_listen, cancel_turn_context,
  complete_turn, claim_tts_stop, claim_official_state, claim_state_reaction, mark_downlink,
  set_listening, receive_hello,
}
use a21_stackchan_workmate.Session.Steps.{Op, apply, run, suppress_input}

abbrev pub is_given : Option Text → Bool
is_given none = false
is_given (some reason) = true

abbrev pub lasts : ℕ → Op → Bool
lasts now (suppress_input until reason) = ltb now until
lasts now _ = false

-- Whether a suppression among the operations lasts beyond the time.
abbrev pub one_lasts : ℕ → List Op → Bool
one_lasts now [] = false
one_lasts now (op ∷ ops) = lasts now op || one_lasts now ops

apply-input_suppression :
    (now : ℕ) (op : Op) (s : Session)
    → is_given (input_suppression now (apply op s))
      ≡ (is_given (input_suppression now s) || lasts now op)
unfolding apply start_turn set_current_turn_mode cancel_current_turn update_turn input_suppression
    prepare_listen_start_barge_in suppress_input_until clear_suppressed_listen cancel_turn_context
    complete_turn claim_tts_stop claim_official_state claim_state_reaction mark_downlink
    set_listening receive_hello
apply-input_suppression now op s = ground arith

-- The input is suppressed at a time exactly where it was before the operations or one of them asked
-- for a suppression that lasts beyond the time: a shorter one never cuts a longer one short, and
-- nothing lifts a suppression early.
pub run-input_suppression :
    (now : ℕ) (ops : List Op) (s : Session)
    → is_given (input_suppression now (run ops s))
      ≡ (is_given (input_suppression now s) || one_lasts now ops)
unfolding run
run-input_suppression now [] s = ground arith
run-input_suppression now (op ∷ ops) s =
    run-input_suppression now ops (apply op s)
    ∙ rw (apply-input_suppression now op s) (ground arith)
