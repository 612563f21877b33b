-- ===== src/Audio/Wav/Rounds.antt =====
-- One round of the loop over the chunks of a WAV file, and how many rounds there are.
use a21_stackchan_workmate.Base.{
  ℕ, zero, suc, ◌+◌, ◌*◌, ◌%◌, ◌<◌, ◌≤◌, ◌≡◌, refl, ap, ◌∙◌, arith, inl, inr, ◌⊎◌, true, false,
  ◌==◌, ltb, Bool-cases, Option, some, List, if◌then◌else◌, length, take, drop, length-drop, ℤ,
}
use a21_stackchan_workmate.Audio.Wav.{
  Problem, chunk_unreadable, header_unreadable, not_riff, Reading, reads, fails, ◌>>=◌, Found,
  found_nothing, le32, take_chunk, behind_chunk, chunk_loop, check_found, after_loop, is_riff,
  read_pcm16_mono_wav,
}

Reading-cases {ℓ} :
    {A : Type ℓ} (r : Reading A) → ((a : A) × (r ≡ reads a)) ⊎ ((p : Problem) × (r ≡ fails p))
Reading-cases (reads a) = inl (a, refl)
Reading-cases (fails p) = inr (p, refl)

module _ (file : List ℕ) (f : Found) where
  -- A header that is cut short ends the loop.
  pub chunk_loop_end :
      (fuel : ℕ) → ltb (length file) 8 ≡ true → chunk_loop (suc fuel) file f ≡ some (reads f)
  unfolding chunk_loop
  chunk_loop_end fuel short = rw (short, chunk_loop) refl

  chunk_loop_cut :
      (fuel : ℕ)
      → ltb (length file) 8 ≡ false
      → ltb (length (drop 8 file)) (le32 file 4) ≡ true
      → chunk_loop (suc fuel) file f ≡ some (fails chunk_unreadable)
  unfolding chunk_loop
  chunk_loop_cut fuel long cut = rw (long, cut, chunk_loop) refl

  chunk_loop_fail :
      (fuel : ℕ) (p : Problem)
      → ltb (length file) 8 ≡ false
      → ltb (length (drop 8 file)) (le32 file 4) ≡ false
      → take_chunk (take 4 file) (take (le32 file 4) (drop 8 file)) f ≡ fails p
      → chunk_loop (suc fuel) file f ≡ some (fails p)
  unfolding chunk_loop
  chunk_loop_fail fuel p long whole failed = rw (long, whole, failed, chunk_loop) refl

  pub chunk_loop_step :
      (fuel : ℕ) (g : Found)
      → ltb (length file) 8 ≡ false
      → ltb (length (drop 8 file)) (le32 file 4) ≡ false
      → take_chunk (take 4 file) (take (le32 file 4) (drop 8 file)) f ≡ reads g
      → chunk_loop (suc fuel) file f ≡ chunk_loop fuel (behind_chunk (le32 file 4) (drop 8 file)) g
  unfolding chunk_loop
  chunk_loop_step fuel g long whole taken = rw (long, whole, taken, chunk_loop) refl

-- The loop is over within the fuel, and more fuel changes nothing.
pub record Settles {ℓ} {A : Type ℓ} (loop : ℕ → Option A) (fuel : ℕ) : Type ℓ where
  pub value : A
  pub settles : (n : ℕ) → fuel ≤ n → loop n ≡ some value

from_suc {ℓ} :
    (P : ℕ → Type ℓ) (fuel : ℕ) → ((n : ℕ) → fuel ≤ n → P (suc n)) → (n : ℕ) → suc fuel ≤ n → P n
from_suc P fuel h zero le = absurd (omega (arith, le))
from_suc P fuel h (suc n) le = h n (omega (arith, le))

-- A result that each round gives, whatever fuel is left behind it.
settled {ℓ} :
    {A : Type ℓ} (loop : ℕ → Option A) (fuel : ℕ) (value : A)
    → ((n : ℕ) → fuel ≤ n → loop (suc n) ≡ some value)
    → Settles loop (suc fuel)
settled loop fuel value each = record {
  value = value;
  settles = from_suc (λ n. loop n ≡ some value) fuel each;
}

not_less : (m n : ℕ) → ltb m n ≡ false → n ≤ m
not_less m n h = ground (arith, h)

behind_chunk-shorter :
    (size : ℕ) (file : List ℕ)
    → ltb (length file) 8 ≡ false
    → length (behind_chunk size (drop 8 file)) + 8 ≤ length file
behind_chunk-shorter size file long = omega (
  arith,
  length-drop 8 file,
  length-drop (if size % 2 == 1 then suc size else size) (drop 8 file),
  not_less (length file) 8 long,
)

-- One round for each eight bytes of a chunk header is enough.
chunk_loop-Settles :
    (fuel : ℕ) (file : List ℕ) (f : Found)
    → length file < 8 * fuel
    → Settles (λ n. chunk_loop n file f) fuel
chunk_loop-Settles zero file f less = absurd (omega (arith, less))
chunk_loop-Settles (suc fuel) file f less = elim (Bool-cases (ltb (length file) 8)) [
  | inl short ↦
      settled (λ n. chunk_loop n file f) fuel (reads f) (λ n le. chunk_loop_end file f n short)
  | inr long ↦ elim (Bool-cases (ltb (length (drop 8 file)) (le32 file 4))) [
    | inl cut ↦
        settled (λ n. chunk_loop n file f) fuel (fails chunk_unreadable)
          (λ n le. chunk_loop_cut file f n long cut)
    | inr whole ↦
        elim (Reading-cases (take_chunk (take 4 file) (take (le32 file 4) (drop 8 file)) f)) [
          | inr (p, failed) ↦
              settled (λ n. chunk_loop n file f) fuel (fails p)
                (λ n le. chunk_loop_fail file f n p long whole failed)
          | inl (g, taken) ↦
              let later =
                chunk_loop-Settles fuel (behind_chunk (le32 file 4) (drop 8 file)) g
                  (omega (arith, less, behind_chunk-shorter (le32 file 4) file long)) in
              settled (λ n. chunk_loop n file f) fuel later.value
                (λ n le. chunk_loop_step file f n g long whole taken ∙ later.settles n le)
        ]
  ]
]

after_loop-Settles :
    (expected : ℤ) (loop : ℕ → Option (Reading Found)) (fuel : ℕ)
    → Settles loop fuel
    → Settles (λ n. after_loop expected (loop n)) fuel
after_loop-Settles expected loop fuel s = record {
  value = s.value >>= check_found expected;
  settles = λ n le. ap (after_loop expected) (s.settles n le);
}

-- Reading a file always ends: after one round for each eight bytes behind its head, and one more,
-- there is a result, samples or an error, and more rounds do not change it.
pub read_pcm16_mono_wav-Settles :
    (fuel : ℕ) (file : List ℕ) (expected : ℤ)
    → length file < 8 * fuel + 12
    → Settles (λ n. read_pcm16_mono_wav n (some file) expected) fuel
unfolding read_pcm16_mono_wav
read_pcm16_mono_wav-Settles fuel file expected less = elim (Bool-cases (ltb (length file) 12)) [
  | inl short ↦ record {
    value = fails header_unreadable;
    settles = λ n le. rw (short, read_pcm16_mono_wav) refl;
  }
  | inr long ↦ elim (Bool-cases (is_riff file)) [
    | inr other ↦ record {
      value = fails not_riff;
      settles = λ n le. rw (long, other, read_pcm16_mono_wav) refl;
    }
    | inl riff ↦
        let loop =
          after_loop-Settles expected (λ n. chunk_loop n (drop 12 file) found_nothing) fuel
            (chunk_loop-Settles fuel (drop 12 file) found_nothing
              (omega (arith, less, length-drop 12 file, not_less (length file) 12 long))) in
        record {
          value = loop.value;
          settles = λ n le. rw (long, riff, read_pcm16_mono_wav) (loop.settles n le);
        }
  ]
]
