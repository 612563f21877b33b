-- ===== src/Audio/Ingress/Speech.antt =====
-- The voice-activity events of a stream.
use a21_stackchan_workmate.Base.{
  ℕ, ◌+◌, ◌≤◌, ◌<◌, ◌≡◌, refl, ◌∙◌, inl, inr, Bool, true, false, List, [], ◌∷◌, ◌++◌, arith, leb,
  if◌then◌else◌, Bool-cases, length, All,
}
use mathlib.Core.Path.{subst}
use a21_stackchan_workmate.Audio.Ingress.{
  Event, speech_start, speech_end, Frame, StreamState, Config, Detector, push_buffer, vad_step,
  push_stream,
}

-- The events lead from one activity to another, a start only from silence and an end only from
-- speech.
abbrev pub Leads : Bool → List Event → Bool → Type 0
Leads active [] after = active ≡ after
Leads false (speech_start ∷ events) after = Leads true events after
Leads true (speech_end ∷ events) after = Leads false events after
Leads _ (_ ∷ _) _ = ⊥

Leads-append :
    (a : Bool) (es : List Event) (b : Bool) (fs : List Event) (c : Bool)
    → Leads a es b
    → Leads b fs c
    → Leads a (es ++ fs) c
Leads-append a [] b fs c h k = rw h k
Leads-append false (speech_start ∷ es) b fs c h k = Leads-append true es b fs c h k
Leads-append false (speech_end ∷ es) b fs c h k = absurd h
Leads-append true (speech_start ∷ es) b fs c h k = absurd h
Leads-append true (speech_end ∷ es) b fs c h k = Leads-append false es b fs c h k

vad_step-Leads :
    (hangover : ℕ) (s : StreamState) (detected : Bool)
    → Leads s.speech_active
        (vad_step hangover s detected).1
        (vad_step hangover s detected).0.speech_active
unfolding vad_step
vad_step-Leads hangover s true = ground arith
vad_step-Leads hangover s false = ground arith

push_buffer-speech :
    (most : ℕ) (s : StreamState) (f : Frame)
    → ((push_buffer most s f).0.speech_active ≡ s.speech_active)
      × ((push_buffer most s f).0.silence_frames ≡ s.silence_frames)
unfolding push_buffer
push_buffer-speech most s f = ground arith

module _ {Score : Type 0} (config : Config) (detect : Detector Score) where
  -- The stream after a sequence of its frames, and the events that they raised.
  abbrev pub stream_run : StreamState → List Frame → StreamState × List Event
  stream_run s [] = (s, [])
  stream_run s (f ∷ frames) =
      let (t, result) = push_stream config detect s f in
      let (u, events) = stream_run t frames in (u, result.events ++ events)

  push_stream-Leads :
      (s : StreamState) (f : Frame)
      → Leads s.speech_active
          (push_stream config detect s f).1.events
          (push_stream config detect s f).0.speech_active
  unfolding push_stream
  push_stream-Leads s f =
      let t = (push_buffer config.max_buffered_frames s f).0 in
      let r = vad_step config.silence_hangover t (detect f).speech_detected in
      subst (λ active. Leads active r.1 r.0.speech_active)
        (push_buffer-speech config.max_buffered_frames s f).0
        (vad_step-Leads config.silence_hangover t (detect f).speech_detected)

  -- The events of a stream alternate between a start and an end of speech, from the activity
  -- before the frames to the activity after them.
  pub stream_run-Leads :
      (s : StreamState) (frames : List Frame)
      → Leads s.speech_active (stream_run s frames).1 (stream_run s frames).0.speech_active
  stream_run-Leads s [] = refl
  stream_run-Leads s (f ∷ frames) =
      let t = (push_stream config detect s f).0 in
      Leads-append s.speech_active (push_stream config detect s f).1.events t.speech_active
        (stream_run t frames).1 (stream_run t frames).0.speech_active (push_stream-Leads s f)
        (stream_run-Leads t frames)

  abbrev pub Silent : List Frame → Type 0
  Silent = All (λ f. (detect f).speech_detected ≡ false)

  module _ (s : StreamState) (f : Frame) (quiet : (detect f).speech_detected ≡ false) where
    silent_idle :
        s.speech_active ≡ false
        → ((push_stream config detect s f).0.speech_active ≡ false)
          × ((push_stream config detect s f).1.events ≡ [])
    unfolding push_stream vad_step
    silent_idle h = ground (arith, push_buffer-speech config.max_buffered_frames s f)

    silent_last :
        s.speech_active ≡ true
        → config.silence_hangover ≤ s.silence_frames + 1
        → ((push_stream config detect s f).0.speech_active ≡ false)
          × ((push_stream config detect s f).1.events ≡ speech_end ∷ [])
    unfolding push_stream vad_step
    silent_last h le = ground (arith, push_buffer-speech config.max_buffered_frames s f)

    silent_more :
        s.speech_active ≡ true
        → s.silence_frames + 1 < config.silence_hangover
        → ((push_stream config detect s f).0.speech_active ≡ true)
          × ((push_stream config detect s f).0.silence_frames ≡ s.silence_frames + 1)
          × ((push_stream config detect s f).1.events ≡ [])
    unfolding push_stream vad_step
    silent_more h lt = ground (arith, push_buffer-speech config.max_buffered_frames s f)

  idle_run :
      (s : StreamState) (frames : List Frame)
      → s.speech_active ≡ false
      → Silent frames
      → (stream_run s frames).1 ≡ []
  idle_run s [] h q = refl
  idle_run s (f ∷ frames) h (p, q) =
      let (idle, no_events) = silent_idle s f p h in
      rw no_events (idle_run (push_stream config detect s f).0 frames idle q)

  -- Speech that is followed by silent frames only ends exactly once, with the frame that fills the
  -- hangover, and not at all where there are too few of them.
  pub stream_run-Silent :
      (s : StreamState) (frames : List Frame)
      → s.speech_active ≡ true
      → s.silence_frames < config.silence_hangover
      → Silent frames
      → (stream_run s frames).1 ≡ (
          if leb config.silence_hangover (s.silence_frames + length frames)
          then speech_end ∷ []
          else [])
  stream_run-Silent s [] h lt q = ground arith
  stream_run-Silent s (f ∷ frames) h lt (p, q) =
      let t = (push_stream config detect s f).0 in
      elim (Bool-cases (leb config.silence_hangover (s.silence_frames + 1))) [
        | inl e ↦
            let (idle, ended) = silent_last s f p h (ground arith) in
            let over : leb config.silence_hangover (s.silence_frames + length (f ∷ frames)) ≡ true =
              ground arith in
            rw (over, ended, idle_run t frames idle q)
        | inr e ↦
            let (active, silence, no_events) = silent_more s f p h (ground arith) in
            let rest = stream_run-Silent t frames active (ground arith) q in
            rw no_events (rest ∙ ground arith)
      ]
