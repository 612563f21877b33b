-- ===== src/Audio/Pacer.antt =====
-- The downlink pacer (internal/audio/ratecontroller.go). Durations and times are numbers of
-- nanoseconds; the zero time.Time is `none`. What a call of Send meets (the context, shouldAbort,
-- the clock, sleep and send) is a record of answers. The product of a frame's index and the frame
-- duration stays far below 2 ^ 63, so it is not reduced.
pub mod Rate
use a21_stackchan_workmate.Base.{
  ℕ, zero, suc, ◌+◌, ◌-◌, ◌*◌, ◌/◌, ◌%◌, ◌^◌, ◌≤◌, ◌<◌, ◌≡◌, refl, sym, ap, ◌∙◌, ◌≢◌, ◌↔◌, ◌⊎◌, inl,
  inr, Bool, true, false, not, ◌&&◌, ◌||◌, Option, none, some, List, [], ◌∷◌, ◌++◌, map, arith, ltb,
  leb, ◌==◌, if◌then◌else◌, Bool-cases, Option-cases, length, take, drop, is_empty, length-append,
  length-drop, length-take-le, All, All-append, All-drop, Text, codes, text_eq, text_eq_iff,
  text_eq_refl, one_of, is_space, trim_left, trim_right, trim_space, lower_rune, to_lower,
  has_prefix, contains, byte_len, decimal, all_runes, is_digit, is_lower, is_upper, trim_space_idem,
  trim_space_of_no_space, to_lower_idem, trim_space-to_lower_idem, ℤ, pos, negsuc, is_nat, below,
  above,
}
use a21_stackchan_workmate.Audio.Ingress.{positive_or}

pub record Controller : Type 0 where
  pub frame_duration : ℕ
  pub prebuffer_frames : ℕ
  pub sent_frames : ℕ
  pub started_at : Option ℕ

pub data SendError : Type 0 where
  send_nil context_error sleep_error send_error : SendError

pub data Outcome : Type 0 where
  sent aborted : Outcome
  failed : SendError → Outcome

-- `start` and `now` are the answers of the clock for startedAt and for the delay.
pub record Answers : Type 0 where
  pub has_send : Bool
  pub context_failed : Bool
  pub abort_before : Bool
  pub start : ℕ
  pub now : ℕ
  pub sleep_failed : Bool
  pub abort_after : Bool
  pub send_failed : Bool

abbrev pub not_negative : ℤ → ℕ
not_negative (pos n) = n
not_negative (negsuc n) = 0

unfoldable pub new_controller : ℤ → ℤ → Controller
new_controller frame_duration prebuffer = record {
  frame_duration = positive_or frame_duration 60000000;
  prebuffer_frames = not_negative prebuffer;
  sent_frames = 0;
  started_at = none;
}

unfoldable pub reset : Controller → Controller
reset c = record c { sent_frames = 0; started_at = none }

abbrev pub start_of : Option ℕ → ℕ → ℕ
start_of none start = start
start_of (some t) start = t

-- When the next frame may go.
abbrev pub target_at : Controller → ℕ → ℕ
target_at c started = started + (c.sent_frames - c.prebuffer_frames + 1) * c.frame_duration

-- waitForSlot: the controller with its start set, and the delay that it sleeps for (0 for none).
unfoldable pub wait_for_slot : Controller → Answers → Controller × ℕ
wait_for_slot c a =
    let started = start_of c.started_at a.start in
    (record c { started_at = some started }, target_at c started - a.now)

-- The last step of Send: the frame goes out at the time `at`.
abbrev pub send_now : Controller → Answers → ℕ → Controller × Outcome × ℕ
send_now c a at =
    if a.send_failed
    then (c, failed send_error, at)
    else (record c { sent_frames = c.sent_frames + 1 }, sent, at)

-- Send: the controller, the outcome and the time at which the call ends, where sleeping takes as
-- long as it was asked to.
unfoldable pub send : Controller → Answers → Controller × Outcome × ℕ
send c a =
    if not a.has_send
    then (c, failed send_nil, a.now)
    else if a.context_failed
    then (c, failed context_error, a.now)
    else if a.abort_before
    then (c, aborted, a.now)
    else if leb c.prebuffer_frames c.sent_frames
    then (let (d, delay) = wait_for_slot c a in
        if ltb 0 delay && a.sleep_failed
        then (d, failed sleep_error, a.now)
        else if a.abort_after
        then (d, aborted, a.now + delay)
        else send_now d a (a.now + delay))
    else send_now c a a.now

abbrev pub latest : Outcome → ℕ → ℕ → ℕ
latest sent last at = at
latest _ last at = last

-- A sequence of calls; the last time at which a frame went out is kept.
unfoldable pub send_all : Controller → ℕ → List Answers → Controller × ℕ
send_all c last [] = (c, last)
send_all c last (a ∷ rest) = let r = send c a in send_all r.0 (latest r.1 last r.2) rest
