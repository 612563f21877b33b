-- ===== src/Audio/Wav/Tests.antt =====
-- A small file written, read and cut into frames.
use a21_stackchan_workmate.Base.{
  ℕ, ◌≡◌, refl, arith, true, some, List, [], ◌∷◌, ◌++◌, codes, pos, text_eq,
}
use a21_stackchan_workmate.Audio.Wav.{
  reads, fails, chunk_unreadable, chunk_loop, frame_loop, read_pcm16_mono_wav, write_pcm16_mono_wav,
  wav_bytes,
}
use a21_stackchan_workmate.Audio.Wav.Rounds.{Settles, read_pcm16_mono_wav-Settles}
use a21_stackchan_workmate.Audio.Wav.RoundTrip.{read_pcm16_mono_wav-write}
use a21_stackchan_workmate.Audio.Wav.Frames.{Framed, frame_loop-Framed}

abbrev samples : List ℕ
samples = 1 ∷ 0 ∷ 2 ∷ 0 ∷ 3 ∷ 0 ∷ []

-- A file whose only chunk is cut short.
abbrev cut_file : List ℕ
cut_file =
    codes "RIFF" ++ (0 ∷ 0 ∷ 0 ∷ 0 ∷ []) ++ codes "WAVE" ++ codes "data" ++ (9 ∷ 0 ∷ 0 ∷ 0 ∷ [])

cut_test : read_pcm16_mono_wav 2 (some cut_file) (pos 16000) ≡ some (fails chunk_unreadable)
unfolding read_pcm16_mono_wav chunk_loop text_eq
cut_test = refl

read_pcm16_mono_wav-Settles_example :
    Settles (λ n. read_pcm16_mono_wav n (some cut_file) (pos 16000)) 2
read_pcm16_mono_wav-Settles_example =
    read_pcm16_mono_wav-Settles 2 cut_file (pos 16000) (omega arith)

read_pcm16_mono_wav-write_example :
    read_pcm16_mono_wav 3 (some (wav_bytes 16000 samples)) (pos 16000)
    ≡ some (reads (16000, samples))
unfolding write_pcm16_mono_wav
read_pcm16_mono_wav-write_example =
    read_pcm16_mono_wav-write 0 true (pos 16000) samples (wav_bytes 16000 samples) refl
      (omega arith) (omega arith)

frame_loop-Framed_example : Framed 4 samples ((1 ∷ 0 ∷ 2 ∷ 0 ∷ []) ∷ (3 ∷ 0 ∷ 0 ∷ 0 ∷ []) ∷ [])
unfolding frame_loop
frame_loop-Framed_example = frame_loop-Framed 6 4 samples (omega arith) (omega arith)
