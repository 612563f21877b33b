-- ===== src/Session/Steps.antt =====
-- The operations on a session as one type, and sequences of them: the handlers of
-- internal/gateway/server.go and the goroutines of the turns call them in any order.
use a21_stackchan_workmate.Base.{ℕ, Bool, true, false, List, [], ◌∷◌, ◌+◌, Option, Text}
use a21_stackchan_workmate.Protocol.{Mode}
use a21_stackchan_workmate.Session.{
  Session, start_turn, set_current_turn_mode, cancel_current_turn, prepare_listen_start_barge_in,
  suppress_input_until, clear_suppressed_listen, cancel_turn_context, complete_turn, claim_tts_stop,
  claim_official_state, claim_state_reaction, mark_downlink, set_listening, receive_hello,
}

pub data Op : Type 0 where
  start : Mode → Op
  set_mode : Mode → Op
  cancel_current : Text → Op
  listen_barge_in : Text → ℕ → ℕ → Op
  suppress_input : ℕ → Text → Op
  suppress_listen clear_suppressed : Op
  cancel_context : Option ℕ → Text → Op
  complete : Option ℕ → Op
  reset_stop claim_stop : Op
  claim_official : Text → Bool → Op
  claim_reaction : Text → Bool → Op
  downlink : Option ℕ → ℕ → Op
  listen : Bool → ℕ → Op
  hello : Op
  playback_stopped : ℕ → Op
  adopt : Text → Text → Text → Op

unfoldable pub apply : Op → Session → Session
apply (start mode) s = start_turn mode s
apply (set_mode mode) s = set_current_turn_mode mode s
apply (cancel_current reason) s = cancel_current_turn reason s
apply (listen_barge_in reason now window) s = (prepare_listen_start_barge_in reason now window s).0
apply (suppress_input until reason) s = suppress_input_until until reason s
apply suppress_listen s = record s { suppressed_listen_active = true }
apply clear_suppressed s = (clear_suppressed_listen s).0
apply (cancel_context turn reason) s = cancel_turn_context turn reason s
apply (complete turn) s = complete_turn turn s
apply reset_stop s = record s { tts_stop_sent = false }
apply claim_stop s = (claim_tts_stop s).0
apply (claim_official state force) s = (claim_official_state state force s).0
apply (claim_reaction state force) s = (claim_state_reaction state force s).0
apply (downlink turn at) s = mark_downlink turn at s
apply (listen listening started_at) s = set_listening listening started_at s
apply hello s = receive_hello s
apply (playback_stopped now) s = record s { last_playback_stop_done_at = now }
apply (adopt device_id trace_id session_id) s = record s {
  device_id = device_id;
  trace_id = trace_id;
  session_id = session_id;
}

unfoldable pub run : List Op → Session → Session
run [] s = s
run (op ∷ ops) s = run ops (apply op s)

-- 1 where the operation claims the stop of the playback.
unfoldable pub claims : Op → Session → ℕ
claims claim_stop s = elim (claim_tts_stop s).1 [ true ↦ 1 | false ↦ 0 ]
claims _ s = 0

unfoldable pub claims_in : List Op → Session → ℕ
unfolding claims
claims_in [] s = 0
claims_in (op ∷ ops) s = claims op s + claims_in ops (apply op s)

-- The operations after which the stop may be claimed again.
abbrev pub renewals : Op → ℕ
renewals reset_stop = 1
renewals hello = 1
renewals _ = 0

abbrev pub renewals_in : List Op → ℕ
renewals_in [] = 0
renewals_in (op ∷ ops) = renewals op + renewals_in ops
