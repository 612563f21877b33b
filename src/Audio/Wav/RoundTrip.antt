-- ===== src/Audio/Wav/RoundTrip.antt =====
-- A WAV file that is written is read back.
use a21_stackchan_workmate.Base.{
  ℕ, suc, ◌+◌, ◌*◌, ◌/◌, ◌%◌, ◌^◌, ◌<◌, ◌≡◌, refl, ap, ◌∙◌, arith, Bool, true, false, ◌==◌, ltb,
  some, List, [], ◌∷◌, ◌++◌, length, take, drop, is_empty, codes, text_eq, ℤ, pos, negsuc, above,
  is_nat,
}
use a21_stackchan_workmate.Audio.Wav.{
  reads, Found, found_nothing, le32, put_le16, put_le32, take_chunk, chunk_loop, check_found,
  after_loop, is_riff, read_pcm16_mono_wav, write_pcm16_mono_wav, wav_bytes, rate_of,
}
use a21_stackchan_workmate.Audio.Wav.Rounds.{chunk_loop_step, chunk_loop_end}

le32-put_le32 :
    (v : ℕ)
    → v < 2 ^ 32
    → v % 256 + v / 256 % 256 * 256 + v / 65536 % 256 * 65536 + v / 16777216 % 256 * 16777216 ≡ v
le32-put_le32 v small = omega (arith, small)

take-all : (xs : List ℕ) → take (length xs) xs ≡ xs
take-all [] = refl
take-all (x ∷ xs) = cc (take-all xs)

drop-all : (xs : List ℕ) → drop (length xs) xs ≡ []
drop-all [] = refl
drop-all (x ∷ xs) = drop-all xs

-- What is found in the written file.
abbrev found_in : ℕ → List ℕ → Found
found_in rate pcm = record {
  sample_rate = rate;
  channels = 1;
  bits_per_sample = 16;
  audio_format = 1;
  pcm = pcm;
}

abbrev data_chunk : List ℕ → List ℕ
data_chunk pcm = codes "data" ++ (put_le32 (length pcm) ++ pcm)

data_chunk_lem :
    (fuel : ℕ) (pcm : List ℕ) (f : Found)
    → length pcm < 2 ^ 32
    → length pcm % 2 ≡ 0
    → chunk_loop (suc (suc fuel)) (data_chunk pcm) f ≡ some (reads (record f { pcm = pcm }))
unfolding take_chunk text_eq
data_chunk_lem fuel pcm f small even =
    let size : le32 (data_chunk pcm) 4 ≡ length pcm = le32-put_le32 (length pcm) small in
    chunk_loop_step (data_chunk pcm) f (suc fuel) (record f { pcm = pcm }) (ground arith)
      (rw size (ground arith)) (rw (size, take-all pcm) refl)
    ∙ ap (λ (rest : List ℕ). chunk_loop (suc fuel) rest (record f { pcm = pcm }))
        (rw (size, even, drop-all pcm) refl)
    ∙ chunk_loop_end [] (record f { pcm = pcm }) fuel (ground arith)

abbrev fmt_chunk : ℕ → List ℕ → List ℕ
fmt_chunk rate rest =
    codes "fmt "
    ++ (put_le32 16
        ++ (put_le16 1
            ++ (put_le16 1
                ++ (put_le32 rate
                    ++ (put_le32 (rate * 2) ++ (put_le16 2 ++ (put_le16 16 ++ rest)))))))

fmt_chunk_lem :
    (fuel rate : ℕ) (rest : List ℕ)
    → rate < 2 ^ 32
    → chunk_loop (suc fuel) (fmt_chunk rate rest) found_nothing
      ≡ chunk_loop fuel rest (found_in rate [])
unfolding take_chunk text_eq
fmt_chunk_lem fuel rate rest small =
    chunk_loop_step (fmt_chunk rate rest) found_nothing fuel (found_in rate []) (ground arith)
      (ground arith) (rw (le32-put_le32 rate small) refl)

-- A file that was written is made of positive many samples of 16 bits at a positive rate.
record Written (rate : ℤ) (pcm file : List ℕ) : Type 0 where
  positive : above rate 0 ≡ true
  some_samples : is_empty pcm ≡ false
  even : (length pcm % 2 == 0) ≡ true
  whole : file ≡ wav_bytes (rate_of rate) pcm

write-Written :
    (written : Bool) (rate : ℤ) (pcm file : List ℕ)
    → write_pcm16_mono_wav written rate pcm ≡ reads file
    → Written rate pcm file
unfolding write_pcm16_mono_wav
write-Written written rate pcm file h = record {
  positive = ground (arith, h);
  some_samples = ground (arith, h);
  even = ground (arith, h);
  whole = ground (arith, h);
}

same_rate : (rate : ℤ) → above rate 0 ≡ true → is_nat rate (rate_of rate) ≡ true
same_rate (pos n) h = ground arith
same_rate (negsuc n) h = cc

check_found_lem :
    (rate : ℤ) (pcm : List ℕ)
    → above rate 0 ≡ true
    → is_empty pcm ≡ false
    → check_found rate (found_in (rate_of rate) pcm) ≡ reads (rate_of rate, pcm)
unfolding check_found
check_found_lem rate pcm positive some_samples =
    rw (same_rate rate positive, positive, some_samples) refl

head_lem :
    (fuel : ℕ) (file : List ℕ) (expected : ℤ)
    → ltb (length file) 12 ≡ false
    → is_riff file ≡ true
    → read_pcm16_mono_wav fuel (some file) expected
      ≡ after_loop expected (chunk_loop fuel (drop 12 file) found_nothing)
unfolding read_pcm16_mono_wav
head_lem fuel file expected long riff = rw (long, riff, read_pcm16_mono_wav) refl

even_lem : (n : ℕ) → (n % 2 == 0) ≡ true → n % 2 ≡ 0
even_lem n h = ground (arith, h)

read-wav_bytes :
    (fuel : ℕ) (rate : ℤ) (pcm file : List ℕ)
    → Written rate pcm file
    → rate_of rate < 2 ^ 32
    → length pcm < 2 ^ 32
    → read_pcm16_mono_wav (suc (suc (suc fuel))) (some (wav_bytes (rate_of rate) pcm)) rate
      ≡ some (reads (rate_of rate, pcm))
unfolding wav_bytes text_eq
read-wav_bytes fuel rate pcm file w small few =
    head_lem (suc (suc (suc fuel))) (wav_bytes (rate_of rate) pcm) rate (ground arith) refl
    ∙ ap (after_loop rate) (
        fmt_chunk_lem (suc (suc fuel)) (rate_of rate) (data_chunk pcm) small
        ∙ data_chunk_lem fuel pcm (found_in (rate_of rate) []) few (even_lem (length pcm) w.even))
    ∙ ap some (check_found_lem rate pcm w.positive w.some_samples)

-- A file that WritePCM16MonoWAV writes, with fewer than 2 ^ 32 bytes of samples at a rate below
-- 2 ^ 32, is read back in three rounds, and with more: the very rate and the very samples, where the
-- rate is the one that is expected.
pub read_pcm16_mono_wav-write :
    (fuel : ℕ) (written : Bool) (rate : ℤ) (pcm file : List ℕ)
    → write_pcm16_mono_wav written rate pcm ≡ reads file
    → rate_of rate < 2 ^ 32
    → length pcm < 2 ^ 32
    → read_pcm16_mono_wav (suc (suc (suc fuel))) (some file) rate ≡ some (reads (rate_of rate, pcm))
read_pcm16_mono_wav-write fuel written rate pcm file h small few =
    let w = write-Written written rate pcm file h in
    ap (λ (bytes : List ℕ). read_pcm16_mono_wav (suc (suc (suc fuel))) (some bytes) rate) w.whole
    ∙ read-wav_bytes fuel rate pcm file w small few
