-- ===== src/Audio/Ingress/Buffer.antt =====
-- The buffer of each stream against the history of its frames.
use a21_stackchan_workmate.Base.{
  ℕ, zero, suc, ◌+◌, ◌-◌, ◌≤◌, ◌<◌, ◌≡◌, refl, sym, ap, ◌∙◌, inl, inr, Bool, true, false, List, [],
  ◌∷◌, ◌++◌, arith, ltb, if◌then◌else◌, Bool-cases, length, drop, length-append, length-drop, Text,
  text_eq, text_eq_iff,
}
use mathlib.Core.Path.{subst}
use mathlib.Core.List.{append-nil, append_assoc}
use a21_stackchan_workmate.Audio.Ingress.{
  Frame, StreamState, Streams, Config, Detector, new_stream, frame_key, stream_at, set_stream,
  push_buffer, vad_step, push_stream, push, push_all,
}

-- The frames of one stream.
abbrev pub frames_of : Text → List Frame → List Frame
frames_of key [] = []
frames_of key (f ∷ frames) =
    if text_eq (frame_key f) key then f ∷ frames_of key frames else frames_of key frames

-- The state holds the last `most` frames of the history, and counts the others as dropped.
pub record Holds (most : ℕ) (history : List Frame) (s : StreamState) : Type 0 where
  pub buffered : s.buffer ≡ drop (length history - most) history
  pub lost : s.dropped ≡ length history - most

drop-append : (n : ℕ) (xs ys : List Frame) → n ≤ length xs → drop n (xs ++ ys) ≡ drop n xs ++ ys
drop-append zero xs ys h = refl
drop-append (suc n) [] ys h = elim h [ ]
drop-append (suc n) (x ∷ xs) ys h = drop-append n xs ys (omega arith)

drop-drop : (n : ℕ) (xs : List Frame) → drop 1 (drop n xs) ≡ drop (suc n) xs
drop-drop zero xs = refl
drop-drop (suc n) [] = refl
drop-drop (suc n) (x ∷ xs) = drop-drop n xs

-- The last frames of the history with one more frame, from those of the history.
window-full :
    (most : ℕ) (h : List Frame) (f : Frame)
    → most ≤ length h
    → drop 1 (drop (length h - most) h ++ f ∷ []) ≡ drop (length (h ++ f ∷ []) - most) (h ++ f ∷ [])
window-full most h f le =
    let count : suc (length h - most) ≡ length (h ++ f ∷ []) - most =
      omega (arith, length-append h (f ∷ [])) in
    ap (drop 1) (sym (drop-append (length h - most) h (f ∷ []) (omega arith)))
    ∙ drop-drop (length h - most) (h ++ f ∷ [])
    ∙ ap (λ n. drop n (h ++ f ∷ [])) count

window-short :
    (most : ℕ) (h : List Frame) (f : Frame)
    → length h < most
    → drop (length h - most) h ++ f ∷ [] ≡ drop (length (h ++ f ∷ []) - most) (h ++ f ∷ [])
window-short most h f lt =
    let before : length h - most ≡ 0 = omega arith in
    let after : length (h ++ f ∷ []) - most ≡ 0 = omega (arith, length-append h (f ∷ [])) in
    rw (before, after)

window_length :
    (most : ℕ) (h b : List Frame) (f : Frame)
    → b ≡ drop (length h - most) h
    → length (b ++ f ∷ []) ≡ length h - (length h - most) + 1
window_length most h b f e =
    length-append b (f ∷ []) ∙ ap (λ n. n + 1) (ap length e ∙ length-drop (length h - most) h)

push_buffer-Holds :
    (most : ℕ) (history : List Frame) (s : StreamState) (f : Frame)
    → Holds most history s
    → Holds most (history ++ f ∷ []) (push_buffer most s f).0
unfolding push_buffer
push_buffer-Holds most history s f h =
    let size = window_length most history s.buffer f h.buffered in
    let longer = length-append history (f ∷ []) in
    elim (Bool-cases (ltb most (length (s.buffer ++ f ∷ [])))) [
      | inl over ↦
          let full : most ≤ length history = ground arith in
          let one : length (s.buffer ++ f ∷ []) - most ≡ 1 = ground arith in
          rw over (record {
            buffered =
                rw one
                  (ap (λ b. drop 1 (b ++ f ∷ [])) h.buffered ∙ window-full most history f full);
            lost = ground arith;
          })
      | inr fits ↦
          let short : length history < most = ground arith in
          rw fits (record {
            buffered = ap (λ b. b ++ f ∷ []) h.buffered ∙ window-short most history f short;
            lost = ground arith;
          })
    ]

stream_at-set_stream :
    (j k : Text) (s : StreamState) (m : Streams)
    → stream_at k (set_stream j s m) ≡ (if text_eq j k then s else stream_at k m)
unfolding stream_at set_stream
stream_at-set_stream j k s [] = refl
stream_at-set_stream j k s ((i, t) ∷ m) =
    ground (arith, text_eq_iff j k, text_eq_iff i j, text_eq_iff i k, stream_at-set_stream j k s m)

new_stream-Holds : (most : ℕ) → Holds most [] new_stream
new_stream-Holds most =
    let none_over : 0 - most ≡ 0 = omega arith in
    record { buffered = rw none_over; lost = sym none_over }

vad_step-buffer :
    (hangover : ℕ) (s : StreamState) (detected : Bool)
    → ((vad_step hangover s detected).0.buffer ≡ s.buffer)
      × ((vad_step hangover s detected).0.dropped ≡ s.dropped)
unfolding vad_step
vad_step-buffer hangover s true = ground arith
vad_step-buffer hangover s false = ground arith

module _ {Score : Type 0} (config : Config) (detect : Detector Score) where
  push_stream-Holds :
      (history : List Frame) (s : StreamState) (f : Frame)
      → Holds config.max_buffered_frames history s
      → Holds config.max_buffered_frames (history ++ f ∷ []) (push_stream config detect s f).0
  unfolding push_stream
  push_stream-Holds history s f h =
      let t = (push_buffer config.max_buffered_frames s f).0 in
      let (b, d) = vad_step-buffer config.silence_hangover t (detect f).speech_detected in
      let k = push_buffer-Holds config.max_buffered_frames history s f h in
      record { buffered = b ∙ k.buffered; lost = d ∙ k.lost }

  abbrev AllHold : List Frame → Streams → Type 0
  AllHold history m =
      (key : Text) → Holds config.max_buffered_frames (frames_of key history) (stream_at key m)

  frames_of-append :
      (key : Text) (history : List Frame) (f : Frame)
      → frames_of key (history ++ f ∷ []) ≡ (
          if text_eq (frame_key f) key
          then frames_of key history ++ f ∷ []
          else frames_of key history)
  frames_of-append key [] f = ground arith
  frames_of-append key (g ∷ history) f = ground (arith, frames_of-append key history f)

  push-AllHold :
      (history : List Frame) (m : Streams) (f : Frame)
      → AllHold history m
      → AllHold (history ++ f ∷ []) (push config detect m f).0
  unfolding push
  push-AllHold history m f h key =
      let s = (push_stream config detect (stream_at (frame_key f) m) f).0 in
      let found = stream_at-set_stream (frame_key f) key s m in
      let grown = frames_of-append key history f in
      elim (Bool-cases (text_eq (frame_key f) key)) [
        | inl same ↦
            let e : frame_key f ≡ key = (text_eq_iff (frame_key f) key).0 same in
            let old : Holds config.max_buffered_frames (frames_of key history)
                (stream_at (frame_key f) m) =
              rw e (h key) in
            rw (found, grown, same)
              (push_stream-Holds (frames_of key history) (stream_at (frame_key f) m) f old)
        | inr other ↦ rw (found, grown, other) (h key)
      ]

  push_all-AllHold :
      (history : List Frame) (m : Streams) (frames : List Frame)
      → AllHold history m
      → AllHold (history ++ frames) (push_all config detect m frames)
  unfolding push_all
  push_all-AllHold history m [] h = rw append-nil h
  push_all-AllHold history m (f ∷ frames) h =
      subst (λ l. AllHold l (push_all config detect (push config detect m f).0 frames))
        (append_assoc history (f ∷ []) frames)
        (push_all-AllHold (history ++ f ∷ []) (push config detect m f).0 frames
          (push-AllHold history m f h))

  -- Whatever frames are pushed, in whatever order the streams interleave, the buffer of each
  -- stream is the last `max_buffered_frames` frames of that stream, in order, and its count of
  -- dropped frames is exactly the number of the stream's other frames.
  pub push_all-Holds :
      (frames : List Frame) (key : Text)
      → Holds config.max_buffered_frames
          (frames_of key frames)
          (stream_at key (push_all config detect [] frames))
  push_all-Holds frames =
      push_all-AllHold [] [] frames
        (λ key. unfold stream_at in new_stream-Holds config.max_buffered_frames)
