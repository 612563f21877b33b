-- ===== src/Protocol/Tests.antt =====
-- Runs of the device protocol's functions at concrete inputs.
use a21_stackchan_workmate.Base.{
  ℕ, zero, suc, ◌≡◌, ◌↔◌, false, Option, none, some, List, [], ◌∷◌, is_empty, Text, codes, pos,
}
use a21_stackchan_workmate.Protocol.{pcm_s16le, AudioPlaybackChunk, validate_audio_playback_chunk}
use a21_stackchan_workmate.Protocol.AudioLaws.{
  IsPcmChunk, validate_audio_playback_chunk-accepts_iff,
}

-- A decoder that makes 640 bytes of any text.
abbrev zeros : ℕ → List ℕ
zeros zero = []
zeros (suc n) = 0 ∷ zeros n

abbrev decodes : Text → Option (List ℕ)
decodes t = some (zeros 640)

abbrev a_chunk : AudioPlaybackChunk
a_chunk = record {
  stream_id = codes "a21-1";
  chunk = record {
    codec = pcm_s16le;
    sample_rate_hz = pos 16000;
    channels = pos 1;
    duration_ms = pos 20;
    data_base64 = codes "AAAA";
  };
}

validate_audio_playback_chunk-accepts_iff_example :
    (validate_audio_playback_chunk decodes a_chunk ≡ none)
    ↔ ((is_empty a_chunk.stream_id ≡ false) × IsPcmChunk decodes a_chunk.chunk)
validate_audio_playback_chunk-accepts_iff_example =
    validate_audio_playback_chunk-accepts_iff decodes a_chunk
