-- ===== src/Memory/Cut.antt =====
-- A hint that is cut short holds no marker that the hint does not hold
-- (truncateMemoryHintText and unsafeMemoryHintText of internal/personality/memory.go).
use a21_stackchan_workmate.Base.{
  ℕ, zero, suc, ◌≡◌, refl, sym, ◌∙◌, arith, inl, inr, Bool, true, false, ◌&&◌, ◌||◌, ◌==◌,
  Bool-cases, List, [], ◌∷◌, is_empty, leb, length, take, Text, is_space, trim_space, trim_left,
  trim_right, to_lower, has_prefix, contains,
}
use a21_stackchan_workmate.Memory.{
  contains_marker, unsafe_markers, unsafe_memory_hint_text, truncate_memory_hint_text,
  max_item_runes,
}

and_mono : (a b c : Bool) → (b ≡ true → c ≡ true) → (a && b) ≡ true → (a && c) ≡ true
and_mono true b c f e = f e
and_mono false b c f e = e

or_right : (a b : Bool) → b ≡ true → (a || b) ≡ true
or_right true b e = refl
or_right false b e = e

or_mono :
    (a b c d : Bool)
    → (a ≡ true → b ≡ true)
    → (c ≡ true → d ≡ true)
    → (a || c) ≡ true
    → (b || d) ≡ true
or_mono true b c d f g e = rw (f refl) refl
or_mono false true c d f g e = refl
or_mono false false c d f g e = g e

data Begins : Text → Text → Type 0 where
  stop : {t : Text} → Begins [] t
  more : {c : ℕ} {s t : Text} → Begins s t → Begins (c ∷ s) (c ∷ t)

take-Begins : (n : ℕ) (s : Text) → Begins (take n s) s
take-Begins zero s = stop
take-Begins (suc n) [] = stop
take-Begins (suc n) (c ∷ s) = more (take-Begins n s)

trim_right-Begins : (s : Text) → Begins (trim_right s) s
unfolding trim_right
trim_right-Begins [] = stop
trim_right-Begins (c ∷ s) = elim (Bool-cases (is_space c && is_empty (trim_right s))) [
  | inl e ↦ rw e stop
  | inr e ↦ rw e (more (trim_right-Begins s))
]

map-Begins : {s t : Text} → Begins s t → Begins (to_lower s) (to_lower t)
unfolding to_lower
map-Begins stop = stop
map-Begins (more h) = more (map-Begins h)

has_prefix-Begins :
    {s t : Text} (m : Text) → Begins s t → has_prefix s m ≡ true → has_prefix t m ≡ true
unfolding has_prefix
has_prefix-Begins [] h e = refl
has_prefix-Begins (b ∷ m) stop e = ground arith
has_prefix-Begins (b ∷ m) (more {c} h) e = and_mono (c == b) _ _ (has_prefix-Begins m h) e

contains-empty : (t : Text) → contains t [] ≡ true
unfolding contains has_prefix
contains-empty [] = refl
contains-empty (c ∷ t) = refl

contains-Begins : {s t : Text} (m : Text) → Begins s t → contains s m ≡ true → contains t m ≡ true
unfolding contains
contains-Begins [] stop e = contains-empty _
contains-Begins (b ∷ m) stop e = ground arith
contains-Begins m (more {c} {s} {t} h) e =
    or_mono (has_prefix (c ∷ s) m) _ (contains s m) _ (has_prefix-Begins m (more h))
      (contains-Begins m h) e

contains-trim_left :
    (s m : Text) → contains (to_lower (trim_left s)) m ≡ true → contains (to_lower s) m ≡ true
unfolding contains to_lower trim_left
contains-trim_left [] m = λ e. e
contains-trim_left (c ∷ s) m = elim (Bool-cases (is_space c)) [
  | inl p ↦ rw p (λ e. or_right (has_prefix (to_lower (c ∷ s)) m) _ (contains-trim_left s m e))
  | inr p ↦ rw p (λ e. e)
]

-- What a text holds when it is cut after n runes and trimmed.
contains-cut :
    (n : ℕ) (s m : Text)
    → contains (to_lower (trim_space (take n s))) m ≡ true
    → contains (to_lower s) m ≡ true
contains-cut n s m e =
    let left = trim_left (take n s) in
    contains-Begins m (map-Begins (take-Begins n s)) (
      contains-trim_left (take n s) m
        (contains-Begins m (map-Begins (trim_right-Begins left)) (unfold trim_space in e)))

contains_marker-cut :
    (n : ℕ) (s : Text) (markers : List Text)
    → contains_marker (to_lower (trim_space (take n s))) markers ≡ true
    → contains_marker (to_lower s) markers ≡ true
contains_marker-cut n s [] e = e
contains_marker-cut n s (m ∷ markers) e =
    or_mono (contains (to_lower (trim_space (take n s))) m) _
      (contains_marker (to_lower (trim_space (take n s))) markers) _ (contains-cut n s m)
      (contains_marker-cut n s markers) e

not_true : (a b : Bool) → (a ≡ true → b ≡ true) → b ≡ false → a ≡ false
not_true true b f e = sym (f refl) ∙ e
not_true false b f e = refl

-- A text without a marker is still without one when it is cut short.
pub truncate-unsafe :
    (s : Text)
    → unsafe_memory_hint_text s ≡ false
    → unsafe_memory_hint_text ((truncate_memory_hint_text s).0) ≡ false
unfolding truncate_memory_hint_text
truncate-unsafe s fine = elim (Bool-cases (leb (length s) max_item_runes)) [
  | inl e ↦ rw e fine
  | inr e ↦ rw e (
      not_true (unsafe_memory_hint_text (trim_space (take max_item_runes s)))
        (unsafe_memory_hint_text s)
        (unfold unsafe_memory_hint_text in contains_marker-cut max_item_runes s unsafe_markers)
        fine)
]
