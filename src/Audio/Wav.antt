-- ===== src/Audio/Wav.antt =====
-- WAV files with 16-bit mono samples (internal/audio/wav_pcm.go). A file is its bytes, none where it
-- cannot be opened; base64 encoding and whether a file can be written are parameters. Go's int has 64
-- bits, which a rate of 32 bits and a duration in milliseconds do not fill.
pub mod Rounds
pub mod RoundTrip
pub mod Frames
mod Tests
use a21_stackchan_workmate.Base.{
  ℕ, zero, suc, ◌+◌, ◌-◌, ◌*◌, ◌/◌, ◌%◌, ◌^◌, Bool, true, false, not, ◌&&◌, ◌||◌, ◌==◌, ltb, Option,
  none, some, List, [], ◌∷◌, ◌++◌, map, if◌then◌else◌, length, take, drop, is_empty, Text, codes,
  text_eq, ℤ, pos, negsuc, above, is_nat,
}
use a21_stackchan_workmate.Xiaozhi.Binary.{byte}

pub data Problem : Type 0 where
  not_opened header_unreadable not_riff chunk_unreadable fmt_too_short : Problem
  not_pcm not_mono other_rate other_depth no_samples no_duration : Problem
  no_rate odd_payload not_written : Problem

pub data Reading {ℓ} (A : Type ℓ) : Type ℓ where
  reads : A → Reading A
  fails : Problem → Reading A

infixl 5 ◌>>=◌
abbrev pub ◌>>=◌ {ℓ κ} : {A : Type ℓ} {B : Type κ} → Reading A → (A → Reading B) → Reading B
fails problem >>= next = fails problem
reads value >>= next = next value

infixl 5 ◌>>◌
abbrev pub ◌>>◌ {κ} : {B : Type κ} → Reading (Unit {0}) → Reading B → Reading B
checked >> next = checked >>= λ _. next

-- `if test { return error }`
abbrev pub refuse : Bool → Problem → Reading (Unit {0})
refuse true problem = fails problem
refuse false problem = reads tt

-- binary.LittleEndian.Uint16 and Uint32 at an offset.
abbrev pub le16 : List ℕ → ℕ → ℕ
le16 p i = byte p i + byte p (suc i) * 256

abbrev pub le32 : List ℕ → ℕ → ℕ
le32 p i =
    byte p i
    + byte p (suc i) * 256
    + byte p (suc (suc i)) * 65536
    + byte p (suc (suc (suc i))) * 16777216

-- PutUint16(b, uint16(v)) and PutUint32.
abbrev pub put_le16 : ℕ → List ℕ
put_le16 v = (v % 256) ∷ (v / 256 % 256) ∷ []

abbrev pub put_le32 : ℕ → List ℕ
put_le32 v = (v % 256) ∷ (v / 256 % 256) ∷ (v / 65536 % 256) ∷ (v / 16777216 % 256) ∷ []

-- What the loop over the chunks has found.
pub record Found : Type 0 where
  pub sample_rate : ℕ
  pub channels : ℕ
  pub bits_per_sample : ℕ
  pub audio_format : ℕ
  pub pcm : List ℕ

abbrev pub found_nothing : Found
found_nothing = record {
  sample_rate = 0;
  channels = 0;
  bits_per_sample = 0;
  audio_format = 0;
  pcm = [];
}

-- The `switch` on a chunk's id.
unfoldable pub take_chunk : Text → List ℕ → Found → Reading Found
unfolding text_eq
take_chunk id bytes f =
    if text_eq id (codes "fmt ")
    then (if ltb (length bytes) 16
        then fails fmt_too_short
        else reads (record f {
          audio_format = le16 bytes 0;
          channels = le16 bytes 2;
          sample_rate = le32 bytes 4;
          bits_per_sample = le16 bytes 14;
        }))
    else if text_eq id (codes "data")
    then reads (record f { pcm = bytes })
    else reads f

-- The byte behind a chunk of odd size is dropped, where there is one.
abbrev pub behind_chunk : ℕ → List ℕ → List ℕ
behind_chunk size file = drop (if size % 2 == 1 then suc size else size) file

-- The loop over the chunks, on fuel: none where it runs out. A chunk header that is cut short ends it.
unfoldable pub chunk_loop : ℕ → List ℕ → Found → Option (Reading Found)
unfolding take_chunk
chunk_loop zero file f = none
chunk_loop (suc fuel) file f =
    let size = le32 file 4 in
    let rest = drop 8 file in
    let next : Reading Found → Option (Reading Found) = λ taken. elim taken [
      | fails problem ↦ some (fails problem)
      | reads g ↦ chunk_loop fuel (behind_chunk size rest) g
    ] in
    if ltb (length file) 8
    then some (reads f)
    else if ltb (length rest) size
    then some (fails chunk_unreadable)
    else next (take_chunk (take 4 file) (take size rest) f)

abbrev differs : ℤ → ℕ → Bool
differs expected rate = above expected 0 && not (is_nat expected rate)

-- The checks behind the loop.
unfoldable pub check_found : ℤ → Found → Reading (ℕ × List ℕ)
check_found expected f = do
  refuse (not (f.audio_format == 1)) not_pcm
  refuse (not (f.channels == 1)) not_mono
  refuse (differs expected f.sample_rate) other_rate
  refuse (not (f.bits_per_sample == 16)) other_depth
  refuse (is_empty f.pcm) no_samples
  reads (f.sample_rate, f.pcm)

abbrev pub after_loop : ℤ → Option (Reading Found) → Option (Reading (ℕ × List ℕ))
after_loop expected none = none
after_loop expected (some found) = some (do f ← found; check_found expected f)

abbrev pub is_riff : List ℕ → Bool
is_riff file = text_eq (take 4 file) (codes "RIFF") && text_eq (take 4 (drop 8 file)) (codes "WAVE")

-- readPCM16MonoWAV, on fuel for the chunks.
unfoldable pub read_pcm16_mono_wav : ℕ → Option (List ℕ) → ℤ → Option (Reading (ℕ × List ℕ))
unfolding chunk_loop check_found text_eq
read_pcm16_mono_wav fuel none expected = some (fails not_opened)
read_pcm16_mono_wav fuel (some file) expected =
    if ltb (length file) 12
    then some (fails header_unreadable)
    else if not (is_riff file)
    then some (fails not_riff)
    else after_loop expected (chunk_loop fuel (drop 12 file) found_nothing)

abbrev pub rate_of : ℤ → ℕ
rate_of (pos n) = n
rate_of (negsuc n) = 0

-- The bytes that are written: uint32 is the remainder by 2 ^ 32, which put_le32 takes.
unfoldable pub wav_bytes : ℕ → List ℕ → List ℕ
wav_bytes rate pcm =
    codes "RIFF"
    ++ (put_le32 (36 + length pcm)
        ++ (codes "WAVE"
            ++ (codes "fmt "
                ++ (put_le32 16
                    ++ (put_le16 1
                        ++ (put_le16 1
                            ++ (put_le32 rate
                                ++ (put_le32 (rate * 2)
                                    ++ (put_le16 2
                                        ++ (put_le16 16
                                            ++ (codes "data"
                                                ++ (put_le32 (length pcm) ++ pcm))))))))))))

-- WritePCM16MonoWAV: the file that os.WriteFile is given, where `written` is whether it succeeds.
unfoldable pub write_pcm16_mono_wav : Bool → ℤ → List ℕ → Reading (List ℕ)
unfolding wav_bytes
write_pcm16_mono_wav written rate pcm = do
  refuse (not (above rate 0)) no_rate
  refuse (is_empty pcm) no_samples
  refuse (not (length pcm % 2 == 0)) odd_payload
  refuse (not written) not_written
  reads (wav_bytes (rate_of rate) pcm)

pub record PcmPlaybackChunk : Type 0 where
  pub sample_rate : ℕ
  pub channels : ℕ
  pub duration_ms : ℕ
  pub data_base64 : Text

abbrev zeros : ℕ → List ℕ
zeros zero = []
zeros (suc n) = 0 ∷ zeros n

-- make([]byte, n) with the bytes copied to its front.
abbrev pub filled : ℕ → List ℕ → List ℕ
filled n bytes = bytes ++ zeros (n - length bytes)

-- The loop over the offsets, which end with the samples, on fuel.
unfoldable pub frame_loop : ℕ → ℕ → List ℕ → List (List ℕ)
frame_loop zero n pcm = []
frame_loop (suc fuel) n [] = []
frame_loop (suc fuel) n (b ∷ pcm) =
    filled n (take n (b ∷ pcm)) ∷ frame_loop fuel n (drop n (b ∷ pcm))

abbrev pub given_duration : ℤ → ℕ
given_duration duration = if above duration 0 then rate_of duration else 20

abbrev chunk_of : (List ℕ → Text) → ℕ → ℕ → List ℕ → PcmPlaybackChunk
chunk_of encode rate duration frame = record {
  sample_rate = rate;
  channels = 1;
  duration_ms = duration;
  data_base64 = encode frame;
}

abbrev pub chunks_of : (List ℕ → Text) → ℕ → ℕ × List ℕ → Reading (List PcmPlaybackChunk)
chunks_of encode duration (rate, pcm) =
    let n = rate * duration * 2 / 1000 in
    if n == 0
    then fails no_duration
    else reads (map (chunk_of encode rate duration) (frame_loop (length pcm) n pcm))

abbrev pub after_reading {ℓ κ} :
    {A : Type ℓ} {B : Type κ} → (A → Reading B) → Option (Reading A) → Option (Reading B)
after_reading next none = none
after_reading next (some r) = some (r >>= next)

-- ReadPCM16MonoWAVChunksForSampleRate; the fuel is for the chunks of the file.
unfoldable pub read_pcm16_mono_wav_chunks_for_sample_rate :
    ℕ → (List ℕ → Text) → Option (List ℕ) → ℤ → ℤ → Option (Reading (List PcmPlaybackChunk))
unfolding read_pcm16_mono_wav frame_loop
read_pcm16_mono_wav_chunks_for_sample_rate fuel encode file duration expected =
    after_reading (chunks_of encode (given_duration duration))
      (read_pcm16_mono_wav fuel file expected)

-- ReadPCM16MonoWAVChunks
abbrev read_pcm16_mono_wav_chunks :
    ℕ → (List ℕ → Text) → Option (List ℕ) → ℤ → Option (Reading (List PcmPlaybackChunk))
read_pcm16_mono_wav_chunks fuel encode file duration =
    read_pcm16_mono_wav_chunks_for_sample_rate fuel encode file duration (pos 16000)
