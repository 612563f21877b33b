-- ===== src/Protocol/AudioLaws.antt =====
-- Audio chunks that pass, and the names of the display states.
use a21_stackchan_workmate.Base.{
  ℕ, ◌*◌, ◌/◌, ◌≡◌, ◌↔◌, ◌⊎◌, inl, inr, true, false, Option, none, some, List, arith, Bool-cases,
  Option-cases, length, is_empty, Text, ℤ, pos, negsuc, is_nat,
}
use a21_stackchan_workmate.Protocol.{
  pcm_s16le, AudioChunk, AudioPlaybackChunk, to_nat, validate_pcm16_audio,
  validate_audio_playback_chunk,
}

-- A chunk of the one format, whose data decodes to as many 16-bit samples as its rate and duration
-- make.
pub record IsPcmChunk (decode : Text → Option (List ℕ)) (c : AudioChunk) : Type 0 where
  pub codec : c.codec ≡ pcm_s16le
  pub rate :
      (c.sample_rate_hz ≡ pos 16000)
      ⊎ (c.sample_rate_hz ≡ pos 24000)
      ⊎ (c.sample_rate_hz ≡ pos 48000)
  pub channels : c.channels ≡ pos 1
  pub duration : (c.duration_ms ≡ pos 20) ⊎ (c.duration_ms ≡ pos 40)
  pub present : is_empty c.data_base64 ≡ false
  pub bytes : List ℕ
  pub decoded : decode c.data_base64 ≡ some bytes
  pub whole : length bytes * 500 ≡ to_nat c.sample_rate_hz * to_nat c.duration_ms

is_nat-eq : (v : ℤ) (n : ℕ) → is_nat v n ≡ true → v ≡ pos n
is_nat-eq (pos m) n h = ground arith
is_nat-eq (negsuc m) n h = cc

eq-is_nat : (v : ℤ) (n : ℕ) → v ≡ pos n → is_nat v n ≡ true
eq-is_nat v n h = rw h (ground arith)

expected_bytes :
    (r d : ℤ) (n : ℕ)
    → (r ≡ pos 16000) ⊎ (r ≡ pos 24000) ⊎ (r ≡ pos 48000)
    → (d ≡ pos 20) ⊎ (d ≡ pos 40)
    → (n ≡ to_nat r * to_nat d * 1 * 2 / 1000) ↔ (n * 500 ≡ to_nat r * to_nat d)
expected_bytes r d n hr hd = ground arith

module _ (decode : Text → Option (List ℕ)) (c : AudioChunk) where
  validate_sound : validate_pcm16_audio decode c ≡ none → IsPcmChunk decode c
  unfolding validate_pcm16_audio
  validate_sound h = elim (Option-cases (decode c.data_base64)) [
    | inl e ↦ absurd (ground arith)
    | inr (bytes, e) ↦
        let codec : c.codec ≡ pcm_s16le = ground arith in
        let rate : (c.sample_rate_hz ≡ pos 16000)
            ⊎ (c.sample_rate_hz ≡ pos 24000)
            ⊎ (c.sample_rate_hz ≡ pos 48000) =
          ground (
            arith,
            is_nat-eq c.sample_rate_hz 16000,
            is_nat-eq c.sample_rate_hz 24000,
            is_nat-eq c.sample_rate_hz 48000,
          ) in
        let channels : c.channels ≡ pos 1 = ground (arith, is_nat-eq c.channels 1) in
        let duration : (c.duration_ms ≡ pos 20) ⊎ (c.duration_ms ≡ pos 40) =
          ground (arith, is_nat-eq c.duration_ms 20, is_nat-eq c.duration_ms 40) in
        let present : is_empty c.data_base64 ≡ false = ground arith in
        record {
          codec = codec;
          rate = rate;
          channels = channels;
          duration = duration;
          present = present;
          bytes = bytes;
          decoded = e;
          whole =
              ground
                (arith, expected_bytes c.sample_rate_hz c.duration_ms (length bytes) rate duration);
        }
  ]

  validate_complete : IsPcmChunk decode c → validate_pcm16_audio decode c ≡ none
  unfolding validate_pcm16_audio
  validate_complete p =
      ground
        (arith, expected_bytes c.sample_rate_hz c.duration_ms (length p.bytes) p.rate p.duration)

-- A playback chunk is accepted exactly where it has a stream id and is a chunk of PCM at 16, 24 or
-- 48 kHz on one channel, of 20 or 40 ms, whose data decodes to as many 16-bit samples as its rate
-- and duration make.
pub validate_audio_playback_chunk-accepts_iff :
    (decode : Text → Option (List ℕ)) (p : AudioPlaybackChunk)
    → (validate_audio_playback_chunk decode p ≡ none)
      ↔ ((is_empty p.stream_id ≡ false) × IsPcmChunk decode p.chunk)
unfolding validate_audio_playback_chunk
validate_audio_playback_chunk-accepts_iff decode p = elim (Bool-cases (is_empty p.stream_id)) [
  | inl e ↦ (λ h. absurd (ground arith), λ (f, _). absurd (ground arith))
  | inr e ↦ (
    (λ h. (e, validate_sound decode p.chunk (ground arith))),
    (λ (_, k). let v = validate_complete decode p.chunk k in ground arith),
  )
]
