-- ===== src/Audio/Ingress.antt =====
-- Audio ingress (internal/audio/ingress.go): a bounded buffer and a voice-activity state for each
-- stream. A float64 is of the type `Score`; its comparison, its default and the root mean square
-- of the samples of a frame (pcm16RMS) are parameters. `Detector` is the interface VADDetector.
pub mod Buffer
pub mod Speech
use a21_stackchan_workmate.Base.{
  ℕ, zero, suc, ◌+◌, ◌-◌, ◌*◌, ◌/◌, ◌%◌, ◌^◌, ◌≤◌, ◌<◌, ◌≡◌, refl, sym, ap, ◌∙◌, ◌≢◌, ◌↔◌, ◌⊎◌, inl,
  inr, Bool, true, false, not, ◌&&◌, ◌||◌, Option, none, some, List, [], ◌∷◌, ◌++◌, map, arith, ltb,
  leb, ◌==◌, if◌then◌else◌, Bool-cases, Option-cases, length, take, drop, is_empty, length-append,
  length-drop, length-take-le, All, All-append, All-drop, Text, codes, text_eq, text_eq_iff,
  text_eq_refl, one_of, is_space, trim_left, trim_right, trim_space, lower_rune, to_lower,
  has_prefix, contains, byte_len, decimal, all_runes, is_digit, is_lower, is_upper, trim_space_idem,
  trim_space_of_no_space, to_lower_idem, trim_space-to_lower_idem, ℤ, pos, negsuc, is_nat, below,
  above,
}

pub data Event : Type 0 where
  speech_start speech_end : Event

pub record Frame : Type 0 where
  pub device_id : Text
  pub trace_id : Text
  pub session_id : Text
  pub seq : ℕ
  pub sample_rate_hz : ℤ
  pub channels : ℤ
  pub duration_ms : ℤ
  pub data_base64 : Text

pub record VadDecision (Score : Type 0) : Type 0 where
  pub speech_detected : Bool
  pub score : Score
  pub detector : Text
  pub status : Text
  pub finding : Text

abbrev pub Detector : Type 0 → Type 0
Detector Score = Frame → VadDecision Score

pub record StreamState : Type 0 where
  pub buffer : List Frame
  pub dropped : ℕ
  pub speech_active : Bool
  pub silence_frames : ℕ

pub record IngressResult (Score : Type 0) : Type 0 where
  pub buffered_frames : ℕ
  pub dropped_frames : ℕ
  pub dropped_frame_delta : ℕ
  pub rms : Score
  pub vad_detector : Text
  pub vad_status : Text
  pub vad_finding : Text
  pub speech_detected : Bool
  pub speech_active : Bool
  pub events : List Event

-- The sizes after NewIngress has put the defaults in.
pub record Config : Type 0 where
  pub max_buffered_frames : ℕ
  pub silence_hangover : ℕ

abbrev pub Streams : Type 0
Streams = List (Text × StreamState)

abbrev pub new_stream : StreamState
new_stream = record { buffer = []; dropped = 0; speech_active = false; silence_frames = 0 }

-- `if n <= 0 { n = fallback }`
abbrev pub positive_or : ℤ → ℕ → ℕ
positive_or (pos zero) fallback = fallback
positive_or (pos (suc n)) fallback = suc n
positive_or (negsuc n) fallback = fallback

unfoldable pub new_config : ℤ → ℤ → Config
new_config max_buffered hangover = record {
  max_buffered_frames = positive_or max_buffered 8;
  silence_hangover = positive_or hangover 2;
}

unfoldable pub frame_key : Frame → Text
frame_key f =
    if not (is_empty f.session_id)
    then f.session_id
    else if not (is_empty f.trace_id)
    then f.trace_id
    else if not (is_empty f.device_id)
    then f.device_id
    else codes "a21-audio-ingress-default"

-- `state[key]`, and the new state of a key that is missing.
unfoldable pub stream_at : Text → Streams → StreamState
stream_at key [] = new_stream
stream_at key ((k, s) ∷ m) = if text_eq k key then s else stream_at key m

unfoldable pub set_stream : Text → StreamState → Streams → Streams
set_stream key s [] = (key, s) ∷ []
set_stream key s ((k, t) ∷ m) = if text_eq k key then (k, s) ∷ m else (k, t) ∷ set_stream key s m

-- The buffer, the frames dropped so far, and those dropped now.
unfoldable pub push_buffer : ℕ → StreamState → Frame → StreamState × ℕ
push_buffer most s frame =
    let buffer = s.buffer ++ frame ∷ [] in
    if ltb most (length buffer)
    then (record s { buffer = drop (length buffer - most) buffer; dropped = s.dropped + 1 }, 1)
    else (record s { buffer = buffer }, 0)

unfoldable pub vad_step : ℕ → StreamState → Bool → StreamState × List Event
vad_step hangover s true =
    let quiet = record s { silence_frames = 0 } in
    if s.speech_active
    then (quiet, [])
    else (record quiet { speech_active = true }, speech_start ∷ [])
vad_step hangover s false =
    if s.speech_active
    then if leb hangover (s.silence_frames + 1)
      then (record s { speech_active = false; silence_frames = 0 }, speech_end ∷ [])
      else (record s { silence_frames = s.silence_frames + 1 }, [])
    else (s, [])

module _ {Score : Type 0} (config : Config) (detect : Detector Score) where
  -- PushContext on the state of the frame's stream.
  unfoldable pub push_stream : StreamState → Frame → StreamState × IngressResult Score
  push_stream s frame =
      let (t, delta) = push_buffer config.max_buffered_frames s frame in
      let decision = detect frame in
      let (u, events) = vad_step config.silence_hangover t decision.speech_detected in
      (
        u,
        record {
          buffered_frames = length u.buffer;
          dropped_frames = u.dropped;
          dropped_frame_delta = delta;
          rms = decision.score;
          vad_detector = decision.detector;
          vad_status = decision.status;
          vad_finding = decision.finding;
          speech_detected = decision.speech_detected;
          speech_active = u.speech_active;
          events = events;
        },
      )

  unfoldable pub push : Streams → Frame → Streams × IngressResult Score
  push m frame =
      let key = frame_key frame in
      let (s, result) = push_stream (stream_at key m) frame in (set_stream key s m, result)

  -- The streams after a sequence of calls of Push.
  unfoldable pub push_all : Streams → List Frame → Streams
  push_all m [] = m
  push_all m (frame ∷ frames) = push_all (push m frame).0 frames

-- Detectors. `at_least a b` is `a >= b` of floats.
pub record Floats (Score : Type 0) : Type 0 where
  pub at_least : Score → Score → Bool
  pub positive : Score → Bool
  pub default_threshold : Score
  pub pcm16_rms : Text → Score

pub data RunnerError : Type 0 where
  canceled deadline_exceeded other_error : RunnerError

-- What comes first in the `select`: the runner's answer, or the end of its context.
pub data RunnerOutcome (Score : Type 0) : Type 0 where
  answered : VadDecision Score → RunnerOutcome Score
  answered_error context_done : RunnerError → RunnerOutcome Score

abbrev pub fallback_finding : RunnerError → Text
fallback_finding canceled = codes "silero_runner_canceled_rms_fallback"
fallback_finding deadline_exceeded = codes "silero_runner_timeout_rms_fallback"
fallback_finding other_error = codes "silero_runner_error_rms_fallback"

module _ {Score : Type 0} (floats : Floats Score) where
  unfoldable pub rms_detect : Score → Detector Score
  rms_detect threshold' frame =
      let threshold = if floats.positive threshold' then threshold' else floats.default_threshold in
      let score = floats.pcm16_rms frame.data_base64 in
      record {
        speech_detected = floats.at_least score threshold;
        score = score;
        detector = codes "a21-rms-vad";
        status = codes "rms_baseline";
        finding = codes "rms_baseline_dev_only";
      }

  unfoldable pub fallback_decision : Score → Frame → Text → VadDecision Score
  fallback_decision threshold frame finding = record (rms_detect threshold frame) {
    detector = codes "a21-silero-vad-fallback-rms";
    status = codes "silero_unavailable";
    finding = finding;
  }

  -- The method Detect of SileroVADAdapter; the runner is nil or a function of the frame.
  unfoldable pub silero_detect : Score → Option (Frame → RunnerOutcome Score) → Detector Score
  silero_detect threshold none frame =
      fallback_decision threshold frame (codes "silero_runner_missing_rms_fallback")
  silero_detect threshold (some run) frame = elim (run frame) [
    | answered decision ↦ record decision {
      detector = codes "a21-silero-vad";
      status = codes "silero_available";
      finding = codes "silero_runner_available";
    }
    | answered_error e ↦ fallback_decision threshold frame (fallback_finding e)
    | context_done e ↦ fallback_decision threshold frame (fallback_finding e)
  ]
