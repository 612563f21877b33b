-- ===== src/Session/Types.antt =====
-- The state of a xiaozhi session (xiaozhiSession and xiaozhiTurn of internal/gateway/server.go) as far
-- as its turns, its playback and its input go; the codecs, the audio buffers and the streaming ASR are
-- left out. A pointer to a turn is an address, `none` for nil. Times are numbers of milliseconds.
use a21_stackchan_workmate.Base.{
  ℕ, Bool, false, not, ◌&&◌, ◌||◌, Option, none, some, [], ◌==◌, if◌then◌else◌, is_empty, Text,
  codes, trim_space, to_lower, contains, numbered, ltb, length, all_runes, is_lower, is_upper,
  is_digit,
}
use mathlib.Core.Option
use a21_stackchan_workmate.Protocol.{Mode, workmate, no_mode}
use a21_stackchan_workmate.Audio.Pacer.{Controller}

-- Why a turn's context was cancelled: ErrVoicePipelineBargeIn or context.Canceled.
pub data Cause : Type 0 where
  barge_in_cause canceled : Cause

-- `cause` is that of the turn's own context, none where it was not cancelled.
pub record Turn : Type 0 where
  pub id : ℕ
  pub cause : Option Cause
  pub pacer : Controller
  pub mode : Mode
  pub cancel_reason : Text

pub record Session : Type 0 where
  pub turns : ℕ → Option Turn
  pub allocated : ℕ
  pub trace_id : Text
  pub session_id : Text
  pub device_id : Text
  pub current_turn : Option ℕ
  pub next_turn_id : ℕ
  pub hello_received : Bool
  pub listening : Bool
  pub listen_started_at : ℕ
  pub suppressed_listen_active : Bool
  pub tts_stop_sent : Bool
  pub last_downlink_at : ℕ
  pub last_downlink_turn_id : Text
  pub last_playback_stop_done_at : ℕ
  pub input_cooldown_until : ℕ
  pub input_cooldown_reason : Text
  pub official_state : Text
  pub state_reaction : Text

abbrev pub turn_at : Option ℕ → Session → Option Turn
turn_at none s = none
turn_at (some p) s = s.turns p

-- A change of the turn at an address, seen through every pointer to it.
unfoldable pub update_turn : ℕ → (Turn → Turn) → Session → Session
update_turn p change s = record s {
  turns = λ q. if q == p then Option.map change (s.turns q) else s.turns q;
}

abbrev pub points_to : ℕ → Option ℕ → Bool
points_to p none = false
points_to p (some q) = p == q

abbrev pub turn_prefix : Text
turn_prefix = codes "a21-xiaozhi-turn-"

unfoldable pub turn_id : Option Turn → Text
turn_id none = []
turn_id (some t) = if t.id == 0 then [] else numbered turn_prefix t.id

abbrev given_mode : Mode → Mode
given_mode no_mode = workmate
given_mode mode = mode

unfoldable pub turn_mode : Option Turn → Mode
turn_mode none = workmate
turn_mode (some t) = given_mode t.mode

unfoldable pub abort_is_barge_in : Text → Bool
abort_is_barge_in reason =
    let lowered = to_lower (trim_space reason) in
    is_empty lowered || contains lowered (codes "barge") || contains lowered (codes "wake")

unfoldable pub cancel_cause : Text → Cause
cancel_cause reason = if abort_is_barge_in reason then barge_in_cause else canceled

-- A context keeps the cause of its first cancellation.
abbrev pub first_cause : Option Cause → Cause → Option Cause
first_cause none cause = some cause
first_cause (some first) cause = some first

unfoldable pub cancel_turn : Text → Turn → Turn
cancel_turn reason t = record t {
  cause = first_cause t.cause (cancel_cause reason);
  cancel_reason = trim_space reason;
}

abbrev is_token_rune : ℕ → Bool
is_token_rune r = is_lower r || is_upper r || is_digit r || r == b'_' || r == b'.' || r == b'-'

unfoldable pub safe_gateway_fallback_token : Text → Text → Text
safe_gateway_fallback_token value fallback =
    let trimmed = trim_space value in
    let lowered = to_lower trimmed in
    if is_empty trimmed
    then fallback
    else if contains lowered (codes "http")
        || contains lowered (codes "bearer")
        || contains lowered (codes "sk-")
        || contains lowered (codes "x21")
        || contains lowered (codes "v21")
        || contains trimmed (codes "/")
        || contains trimmed (codes "\\")
        || not (not (ltb 80 (length trimmed)) && all_runes is_token_rune trimmed)
    then fallback
    else trimmed
