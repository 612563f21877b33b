-- ===== src/Audio/Wav/Frames.antt =====
-- The samples of a WAV file in frames of one size.
use a21_stackchan_workmate.Base.{
  ℕ, zero, suc, ◌-◌, ◌<◌, ◌≤◌, ◌≡◌, refl, sym, ap, ◌∙◌, arith, inl, inr, true, false, ltb,
  Bool-cases, List, [], ◌∷◌, ◌++◌, length, take, drop, length-drop, length-append, All,
}
use mathlib.Core.List.{append-nil, append_assoc}
use a21_stackchan_workmate.Audio.Wav.{frame_loop, filled, zeros}

abbrev pub joined : List (List ℕ) → List ℕ
joined [] = []
joined (frame ∷ frames) = frame ++ joined frames

length-zeros : (n : ℕ) → length (zeros n) ≡ n
length-zeros zero = refl
length-zeros (suc n) = cc (length-zeros n)

take-drop : (n : ℕ) (xs : List ℕ) → take n xs ++ drop n xs ≡ xs
take-drop zero xs = refl
take-drop (suc n) [] = refl
take-drop (suc n) (x ∷ xs) = cc (take-drop n xs)

take_short : (n : ℕ) (xs : List ℕ) → length xs ≤ n → take n xs ≡ xs
take_short zero [] le = refl
take_short zero (x ∷ xs) le = absurd (omega (arith, le))
take_short (suc n) [] le = refl
take_short (suc n) (x ∷ xs) le = cc (take_short n xs (omega (arith, le)))

drop_short : (n : ℕ) (xs : List ℕ) → length xs ≤ n → drop n xs ≡ []
drop_short zero [] le = refl
drop_short zero (x ∷ xs) le = absurd (omega (arith, le))
drop_short (suc n) [] le = refl
drop_short (suc n) (x ∷ xs) le = drop_short n xs (omega (arith, le))

length-take : (n : ℕ) (xs : List ℕ) → n ≤ length xs → length (take n xs) ≡ n
length-take zero xs le = refl
length-take (suc n) [] le = absurd (omega (arith, le))
length-take (suc n) (x ∷ xs) le = cc (length-take n xs (omega (arith, le)))

not_less : (m n : ℕ) → ltb m n ≡ false → n ≤ m
not_less m n h = ground (arith, h)

less : (m n : ℕ) → ltb m n ≡ true → m ≤ n
less m n h = ground (arith, h)

-- Every frame has the size, and together they are the samples with fewer than a frame's zeros behind.
pub record Framed (n : ℕ) (pcm : List ℕ) (frames : List (List ℕ)) : Type 0 where
  pub of_size : All (λ frame. length frame ≡ n) frames
  pub padding : ℕ
  pub short : padding < n
  pub whole : joined frames ≡ pcm ++ zeros padding

frame_loop-nil : (fuel n : ℕ) → frame_loop fuel n [] ≡ []
unfolding frame_loop
frame_loop-nil zero n = refl
frame_loop-nil (suc fuel) n = refl

length-filled : (n : ℕ) (xs : List ℕ) → length xs ≤ n → length (filled n xs) ≡ n
length-filled n xs le =
    omega (arith, le, length-append xs (zeros (n - length xs)), length-zeros (n - length xs))

filled_full : (n : ℕ) (xs : List ℕ) → length xs ≡ n → filled n xs ≡ xs
filled_full n xs full =
    let none : n - length xs ≡ 0 = omega (arith, full) in
    ap (λ (k : ℕ). xs ++ zeros k) none ∙ append-nil xs

-- The last frame.
last_frame-Framed :
    (fuel n : ℕ) (xs : List ℕ)
    → 0 < length xs
    → length xs ≤ n
    → Framed n xs (filled n (take n xs) ∷ frame_loop fuel n (drop n xs))
last_frame-Framed fuel n xs some le =
    rw (take_short n xs le, drop_short n xs le, frame_loop-nil fuel n)
      (record {
        of_size = (length-filled n xs le, tt);
        padding = n - length xs;
        short = omega (arith, some, le);
        whole = append-nil (filled n xs);
      })

-- A full frame before others.
full_frame-Framed :
    (n : ℕ) (xs : List ℕ) (frames : List (List ℕ))
    → n ≤ length xs
    → Framed n (drop n xs) frames
    → Framed n xs (filled n (take n xs) ∷ frames)
full_frame-Framed n xs frames le rest =
    let size = length-take n xs le in
    rw (filled_full n (take n xs) size) (record {
      of_size = (size, rest.of_size);
      padding = rest.padding;
      short = rest.short;
      whole =
          ap (λ (ys : List ℕ). take n xs ++ ys) rest.whole
          ∙ sym (append_assoc (take n xs) (drop n xs) (zeros rest.padding))
          ∙ ap (λ (ys : List ℕ). ys ++ zeros rest.padding) (take-drop n xs);
    })

-- The frames of the samples all have the frame's size, and put together they are the samples with
-- zeros behind that fill the last frame only, where the size is not zero; as many rounds as there are
-- bytes are enough.
pub frame_loop-Framed :
    (fuel n : ℕ) (pcm : List ℕ) → 0 < n → length pcm ≤ fuel → Framed n pcm (frame_loop fuel n pcm)
unfolding frame_loop
frame_loop-Framed zero n [] positive le = record {
  of_size = tt;
  padding = 0;
  short = positive;
  whole = refl;
}
frame_loop-Framed zero n (b ∷ pcm) positive le = absurd (omega (arith, le))
frame_loop-Framed (suc fuel) n [] positive le = record {
  of_size = tt;
  padding = 0;
  short = positive;
  whole = refl;
}
frame_loop-Framed (suc fuel) n (b ∷ pcm) positive le =
    elim (Bool-cases (ltb n (length (b ∷ pcm)))) [
      | inr last ↦
          last_frame-Framed fuel n (b ∷ pcm) (omega arith) (not_less n (length (b ∷ pcm)) last)
      | inl more ↦ full_frame-Framed n (b ∷ pcm) _ (less n (length (b ∷ pcm)) more) (
          frame_loop-Framed fuel n (drop n (b ∷ pcm)) positive
            (omega (arith, length-drop n (b ∷ pcm), positive, le)))
    ]
