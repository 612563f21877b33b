-- ===== src/Audio/Tests.antt =====
-- Runs of the ingress and of the pacer at concrete inputs.
use a21_stackchan_workmate.Base.{
  ℕ, ◌+◌, ◌-◌, ◌*◌, ◌≤◌, ◌<◌, ◌≡◌, refl, true, false, some, List, [], ◌∷◌, arith, ◌==◌, Text, codes,
  text_eq, pos,
}
use a21_stackchan_workmate.Audio.Ingress.{
  speech_end, Frame, Detector, StreamState, Config, frame_key, stream_at, set_stream, push_buffer,
  vad_step, push_stream, push, push_all,
}
use a21_stackchan_workmate.Audio.Ingress.Buffer.{frames_of, Holds, push_all-Holds}
use a21_stackchan_workmate.Audio.Ingress.Speech.{
  Leads, stream_run, stream_run-Leads, Silent, stream_run-Silent,
}
use a21_stackchan_workmate.Audio.Pacer.{Answers, send, send_all, wait_for_slot, new_controller}
use a21_stackchan_workmate.Audio.Pacer.Rate.{run, send_all-paced}

abbrev frame_of : Text → ℕ → Frame
frame_of session n = record {
  device_id = codes "desk";
  trace_id = [];
  session_id = session;
  seq = n;
  sample_rate_hz = pos 16000;
  channels = pos 1;
  duration_ms = pos 20;
  data_base64 = [];
}

-- A detector that hears speech in the frames whose number is 0.
abbrev hears : Detector ℕ
hears frame = record {
  speech_detected = frame.seq == 0;
  score = frame.seq;
  detector = [];
  status = [];
  finding = [];
}

abbrev small : Config
small = record { max_buffered_frames = 2; silence_hangover = 2 }

abbrev mixed : List Frame
mixed =
    frame_of (codes "a") 0
    ∷ frame_of (codes "b") 1
    ∷ frame_of (codes "a") 2
    ∷ frame_of (codes "a") 3
    ∷ []

push_all-Holds_example :
    Holds 2 (frames_of (codes "a") mixed) (stream_at (codes "a") (push_all small hears [] mixed))
push_all-Holds_example = push_all-Holds small hears mixed (codes "a")

kept_test :
    (stream_at (codes "a") (push_all small hears [] mixed)).buffer
    ≡ frame_of (codes "a") 2 ∷ frame_of (codes "a") 3 ∷ []
unfolding push_all push push_stream push_buffer vad_step frame_key stream_at set_stream text_eq
kept_test = refl

abbrev talking : StreamState
talking = record { buffer = []; dropped = 0; speech_active = true; silence_frames = 0 }

abbrev quiet_frames : List Frame
quiet_frames = frame_of [] 1 ∷ frame_of [] 2 ∷ frame_of [] 3 ∷ []

stream_run-Leads_example :
    Leads true
      (stream_run small hears talking mixed).1
      (stream_run small hears talking mixed).0.speech_active
stream_run-Leads_example = stream_run-Leads small hears talking mixed

quiet_frames-Silent : Silent small hears quiet_frames
quiet_frames-Silent = (refl, (refl, (refl, tt)))

stream_run-Silent_example : (stream_run small hears talking quiet_frames).1 ≡ speech_end ∷ []
stream_run-Silent_example =
    stream_run-Silent small hears talking quiet_frames refl (omega arith) quiet_frames-Silent

-- A call at the time it is given, which meets no failure.
abbrev good : ℕ → Answers
good now = record {
  has_send = true;
  context_failed = false;
  abort_before = false;
  start = now;
  now = now;
  sleep_failed = false;
  abort_after = false;
  send_failed = false;
}

abbrev three_calls : List Answers
three_calls = good 100 ∷ good 110 ∷ good 120 ∷ []

sent_beyond :
    (run (pos 60) (pos 1) 0 three_calls).0.prebuffer_frames
    < (run (pos 60) (pos 1) 0 three_calls).0.sent_frames
unfolding send_all send wait_for_slot new_controller
sent_beyond = omega arith

send_all-paced_example :
    (t : ℕ) × ((run (pos 60) (pos 1) 0 three_calls).0.started_at ≡ some t)
    × (t
          + ((run (pos 60) (pos 1) 0 three_calls).0.sent_frames
              - (run (pos 60) (pos 1) 0 three_calls).0.prebuffer_frames)
            * (run (pos 60) (pos 1) 0 three_calls).0.frame_duration
        ≤ (run (pos 60) (pos 1) 0 three_calls).1)
send_all-paced_example = send_all-paced (pos 60) (pos 1) 0 three_calls sent_beyond
