-- ===== src/Session/Stop.antt =====
-- The stop of the playback is announced once, and again only after it was made possible again.
use a21_stackchan_workmate.Base.{ℕ, ◌≤◌, ◌+◌, arith, true, false, List, [], ◌∷◌}
use a21_stackchan_workmate.Session.{
  Session, update_turn, start_turn, set_current_turn_mode, cancel_current_turn,
  prepare_listen_start_barge_in, suppress_input_until, clear_suppressed_listen, cancel_turn_context,
  complete_turn, claim_tts_stop, claim_official_state, claim_state_reaction, mark_downlink,
  set_listening, receive_hello,
}
use a21_stackchan_workmate.Session.Steps.{Op, apply, claims, claims_in, renewals, renewals_in}

abbrev pub free : Session → ℕ
free s = elim s.tts_stop_sent [ true ↦ 0 | false ↦ 1 ]

-- A claim uses up what one renewal gives.
apply-free : (op : Op) (s : Session) → claims op s + free (apply op s) ≤ renewals op + free s
unfolding apply claims start_turn set_current_turn_mode cancel_current_turn update_turn
    prepare_listen_start_barge_in suppress_input_until clear_suppressed_listen cancel_turn_context
    complete_turn claim_tts_stop claim_official_state claim_state_reaction mark_downlink
    set_listening receive_hello
apply-free op s = ground arith

-- In any sequence of operations the stop of the playback is claimed at most once more than a hello or
-- a reset renews it, and no more often than that where it was already sent.
pub claims_in-le : (ops : List Op) (s : Session) → claims_in ops s ≤ renewals_in ops + free s
unfolding claims_in
claims_in-le [] s = omega arith
claims_in-le (op ∷ ops) s = omega (arith, apply-free op s, claims_in-le ops (apply op s))
