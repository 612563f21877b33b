-- ===== src/Protocol.antt =====
-- The device protocol (internal/protocol/message.go): modes, display states, and audio chunks. A
-- Go string type has a constructor for each constant, one for "" and one for any other string.
mod Tests
pub mod AudioLaws
use a21_stackchan_workmate.Base.{
  ℕ, zero, suc, ◌+◌, ◌-◌, ◌*◌, ◌/◌, ◌%◌, ◌^◌, ◌≤◌, ◌<◌, ◌≡◌, refl, sym, ap, ◌∙◌, ◌≢◌, ◌↔◌, ◌⊎◌, inl,
  inr, Bool, true, false, not, ◌&&◌, ◌||◌, Option, none, some, List, [], ◌∷◌, ◌++◌, map, arith, ltb,
  leb, ◌==◌, if◌then◌else◌, Bool-cases, Option-cases, length, take, drop, is_empty, length-append,
  length-drop, length-take-le, All, All-append, All-drop, Text, codes, text_eq, text_eq_iff,
  text_eq_refl, one_of, is_space, trim_left, trim_right, trim_space, lower_rune, to_lower,
  has_prefix, contains, byte_len, decimal, all_runes, is_digit, is_lower, is_upper, trim_space_idem,
  trim_space_of_no_space, to_lower_idem, trim_space-to_lower_idem, ℤ, pos, negsuc, is_nat, below,
  above,
}

pub data Mode : Type 0 where
  dialogue workmate companion co_creation roleplay professional focus public private : Mode
  muted local_fallback error_mode no_mode : Mode
  other_mode : Text → Mode

unfoldable pub normalize_product_mode : Mode → Mode
normalize_product_mode professional = professional
normalize_product_mode local_fallback = local_fallback
normalize_product_mode error_mode = error_mode
normalize_product_mode _ = roleplay

pub data ExpressionState : Type 0 where
  idle listening thinking speaking interrupted professional_expression : ExpressionState
  local_fallback_expression error_expression : ExpressionState

pub data DisplayState : Type 0 where
  starting wifi_configuring idle_display connecting listening_display thinking_display :
      DisplayState
  speaking_display upgrading audio_testing error_display fatal_error : DisplayState

abbrev pub canonical_display_states : List DisplayState
canonical_display_states =
    starting ∷ wifi_configuring ∷ idle_display ∷ connecting ∷ listening_display ∷ thinking_display
    ∷ speaking_display ∷ upgrading ∷ audio_testing ∷ error_display ∷ fatal_error ∷ []

-- The string of each constant.
abbrev pub display_name : DisplayState → Text
display_name starting = codes "starting"
display_name wifi_configuring = codes "wifi_configuring"
display_name idle_display = codes "idle"
display_name connecting = codes "connecting"
display_name listening_display = codes "listening"
display_name thinking_display = codes "thinking"
display_name speaking_display = codes "speaking"
display_name upgrading = codes "upgrading"
display_name audio_testing = codes "audio_testing"
display_name error_display = codes "error"
display_name fatal_error = codes "fatal_error"

-- A `switch` on a text: the first case that equals it.
abbrev pub switch {ℓ} : {A : Type ℓ} → Text → List (Text × A) → A → A
switch s [] default = default
switch s ((t, a) ∷ cases) default = if text_eq s t then a else switch s cases default

abbrev pub display_cases : List (Text × DisplayState)
display_cases =
    (codes "starting", starting)
    ∷ (codes "wifi_configuring", wifi_configuring)
    ∷ (codes "idle", idle_display)
    ∷ (codes "standby", idle_display)
    ∷ (codes "connecting", connecting)
    ∷ (codes "activating", connecting)
    ∷ (codes "listening", listening_display)
    ∷ (codes "thinking", thinking_display)
    ∷ (codes "speaking", speaking_display)
    ∷ (codes "upgrading", upgrading)
    ∷ (codes "audio_testing", audio_testing)
    ∷ (codes "fatal_error", fatal_error)
    ∷ (codes "error", error_display)
    ∷ []

unfoldable pub normalize_official_display_state : Text → DisplayState
normalize_official_display_state state =
    switch (to_lower (trim_space state)) display_cases error_display

pub data AudioCodec : Type 0 where
  pcm_s16le opus : AudioCodec
  other_codec : Text → AudioCodec

pub record AudioChunk : Type 0 where
  pub codec : AudioCodec
  pub sample_rate_hz : ℤ
  pub channels : ℤ
  pub duration_ms : ℤ
  pub data_base64 : Text

pub record AudioPlaybackChunk : Type 0 where
  pub stream_id : Text
  pub chunk : AudioChunk

pub data AudioError : Type 0 where
  stream_id_required codec_unsupported sample_rate_unsupported channels_unsupported : AudioError
  duration_unsupported data_required data_invalid length_mismatch : AudioError

abbrev is_pcm : AudioCodec → Bool
is_pcm pcm_s16le = true
is_pcm _ = false

-- A number that has passed the checks is not negative.
abbrev pub to_nat : ℤ → ℕ
to_nat (pos n) = n
to_nat (negsuc n) = 0

-- base64.StdEncoding.DecodeString is the parameter `decode`; `none` means no error.
module _ (decode : Text → Option (List ℕ)) where
  abbrev check_length : Option (List ℕ) → ℕ → Option AudioError
  check_length none expected = some data_invalid
  check_length (some bytes) expected =
      if length bytes == expected then none else some length_mismatch

  unfoldable pub validate_pcm16_audio : AudioChunk → Option AudioError
  validate_pcm16_audio c =
      if not (is_pcm c.codec)
      then some codec_unsupported
      else if not (
          is_nat c.sample_rate_hz 16000
          || is_nat c.sample_rate_hz 24000
          || is_nat c.sample_rate_hz 48000)
      then some sample_rate_unsupported
      else if not (is_nat c.channels 1)
      then some channels_unsupported
      else if not (is_nat c.duration_ms 20 || is_nat c.duration_ms 40)
      then some duration_unsupported
      else if is_empty c.data_base64
      then some data_required
      else check_length (decode c.data_base64)
          (to_nat c.sample_rate_hz * to_nat c.duration_ms * to_nat c.channels * 2 / 1000)

  unfoldable pub validate_audio_chunk : AudioChunk → Option AudioError
  validate_audio_chunk c = validate_pcm16_audio c

  unfoldable pub validate_audio_playback_chunk : AudioPlaybackChunk → Option AudioError
  validate_audio_playback_chunk c =
      if is_empty c.stream_id then some stream_id_required else validate_pcm16_audio c.chunk
