-- ===== src/Session.antt =====
-- The turns of a xiaozhi session: the methods of xiaozhiSession in internal/gateway/server.go that
-- start, cancel and complete turns, claim the stop of the playback and hold back the input. Each runs
-- under the session's lock, so that each is one step.
mod Types
pub mod Steps
pub mod Turns
pub mod Stop
pub mod Input
mod Tests
unfoldable pub use Types.*
use a21_stackchan_workmate.Base.{
  ℕ, suc, Bool, true, false, not, ◌&&◌, ◌||◌, Option, none, some, List, [], ◌∷◌, ◌==◌, ltb, leb,
  ◌-◌, if◌then◌else◌, is_empty, Text, codes, trim_space, text_eq, pos,
}
use a21_stackchan_workmate.Protocol.{Mode, workmate, no_mode}
use a21_stackchan_workmate.Audio.Pacer.{Controller, new_controller, reset}

abbrev pub cancel_at : Option ℕ → Text → Session → Session
cancel_at none reason s = s
cancel_at (some p) reason s = record (update_turn p (cancel_turn reason) s) { current_turn = none }

unfoldable pub cancel_current_turn : Text → Session → Session
unfolding update_turn
cancel_current_turn reason s = cancel_at s.current_turn reason s

abbrev or_workmate : Mode → Mode
or_workmate no_mode = workmate
or_workmate mode = mode

abbrev new_turn : ℕ → Mode → Turn
new_turn id mode = record {
  id = id;
  cause = none;
  pacer = new_controller (pos 60000000) (pos 1);
  mode = or_workmate mode;
  cancel_reason = [];
}

-- The new turn at a new address.
abbrev pub enter_turn : Mode → Session → Session
enter_turn mode s = record s {
  turns = λ q. if q == s.allocated then some (new_turn (suc s.next_turn_id) mode) else s.turns q;
  allocated = suc s.allocated;
  next_turn_id = suc s.next_turn_id;
  current_turn = some s.allocated;
}

unfoldable pub start_turn : Mode → Session → Session
unfolding cancel_current_turn
start_turn mode s = enter_turn mode (cancel_current_turn (codes "new_turn") s)

abbrev pub mode_at : Option ℕ → Mode → Session → Session
mode_at none mode s = s
mode_at (some p) mode s = update_turn p (λ t. record t { mode = mode }) s

unfoldable pub set_current_turn_mode : Mode → Session → Session
set_current_turn_mode no_mode s = s
set_current_turn_mode mode s = mode_at s.current_turn mode s

pub record TurnTask : Type 0 where
  pub turn : Option ℕ
  pub turn_id : Text
  pub trace_id : Text
  pub session_id : Text
  pub device_id : Text
  pub mode : Mode

abbrev recent_downlink : ℕ → ℕ → Session → Bool
recent_downlink now window s =
    not (is_empty s.last_downlink_turn_id)
    && leb s.last_downlink_at now
    && leb (now - s.last_downlink_at) window

abbrev playback_done : ℕ → Session → Bool
playback_done now s =
    leb s.last_downlink_at s.last_playback_stop_done_at && leb s.last_playback_stop_done_at now

-- The turn whose playback is to stop, after the current turn `turn` was cancelled.
abbrev pub barge_in_task : Option ℕ → ℕ → ℕ → Session → Option TurnTask
barge_in_task turn now window s =
    let id = turn_id (turn_at turn s) in
    let task : Text → TurnTask = λ name. record {
      turn = turn;
      turn_id = name;
      trace_id = s.trace_id;
      session_id = s.session_id;
      device_id = s.device_id;
      mode = turn_mode (turn_at turn s);
    } in
    if is_empty id && recent_downlink now window s
    then if playback_done now s then none else some (task s.last_downlink_turn_id)
    else if is_empty id
    then none
    else some (task id)

unfoldable pub prepare_listen_start_barge_in : Text → ℕ → ℕ → Session → Session × Option TurnTask
unfolding cancel_current_turn
prepare_listen_start_barge_in reason now window s =
    if s.tts_stop_sent then (record s { current_turn = none }, none) else (
      cancel_current_turn reason s,
      barge_in_task s.current_turn now window (cancel_current_turn reason s),
    )

unfoldable pub suppress_input_until : ℕ → Text → Session → Session
suppress_input_until until reason s =
    if ltb s.input_cooldown_until until
    then record s {
      input_cooldown_until = until;
      input_cooldown_reason = safe_gateway_fallback_token reason (codes "cooldown");
    }
    else s

-- Whether the input is suppressed, and why.
unfoldable pub input_suppression : ℕ → Session → Option Text
input_suppression now s =
    if ltb 0 s.input_cooldown_until && ltb now s.input_cooldown_until
    then some
        (if is_empty s.input_cooldown_reason then codes "cooldown" else s.input_cooldown_reason)
    else none

unfoldable pub clear_suppressed_listen : Session → Session × Bool
clear_suppressed_listen s =
    if s.suppressed_listen_active
    then (record s { suppressed_listen_active = false }, true)
    else (s, false)

abbrev pub cancel_context_at : Option ℕ → Text → Session → Session
cancel_context_at none reason s = s
cancel_context_at (some p) reason s =
    update_turn p (λ t. record (cancel_turn reason t) { pacer = reset t.pacer }) s

unfoldable pub cancel_turn_context : Option ℕ → Text → Session → Session
unfolding update_turn
cancel_turn_context turn reason s = cancel_context_at turn reason s

abbrev pub is_cancelled : Option Turn → Bool
is_cancelled none = false
is_cancelled (some t) = elim t.cause [ none ↦ false | some cause ↦ true ]

-- `parent_done` is whether the context of the connection is done, which ends the turn's too.
unfoldable pub should_abort_turn : Bool → Option ℕ → Session → Bool
should_abort_turn parent_done none s = true
should_abort_turn parent_done (some p) s =
    not (points_to p s.current_turn) || parent_done || is_cancelled (s.turns p)

unfoldable pub complete_turn : Option ℕ → Session → Session
complete_turn none s = s
complete_turn (some p) s =
    if points_to p s.current_turn then record s { current_turn = none } else s

unfoldable pub claim_tts_stop : Session → Session × Bool
claim_tts_stop s = if s.tts_stop_sent then (s, false) else (record s { tts_stop_sent = true }, true)

unfoldable pub claim_official_state : Text → Bool → Session → Session × Bool
claim_official_state state force s =
    let trimmed = trim_space state in
    if is_empty trimmed || (not force && text_eq s.official_state trimmed)
    then (s, false)
    else (record s { official_state = trimmed }, true)

unfoldable pub claim_state_reaction : Text → Bool → Session → Session × Bool
claim_state_reaction state force s =
    let trimmed = trim_space state in
    if is_empty trimmed || (not force && text_eq s.state_reaction trimmed)
    then (s, false)
    else (record s { state_reaction = trimmed }, true)

unfoldable pub mark_downlink : Option ℕ → ℕ → Session → Session
mark_downlink turn at s = record s {
  last_downlink_at = at;
  last_downlink_turn_id = turn_id (turn_at turn s);
}

unfoldable pub set_listening : Bool → ℕ → Session → Session
set_listening listening started_at s = record s {
  listening = listening;
  listen_started_at = if listening then started_at else 0;
}

unfoldable pub receive_hello : Session → Session
receive_hello s = record s {
  hello_received = true;
  listening = false;
  listen_started_at = 0;
  suppressed_listen_active = false;
  tts_stop_sent = false;
}

unfoldable pub should_buffer_wake_preroll : ℕ → Session → Bool
should_buffer_wake_preroll now s = elim s.current_turn [
  | some p ↦ false
  | none ↦ not (ltb 0 s.input_cooldown_until && ltb now s.input_cooldown_until)
]
