-- ===== src/Base/StringsLaws.antt =====
-- Trimming and lower-casing are idempotent.
use Prim.Native.Nat.{ℕ}
use mathlib.Core.Path.{◌≡◌, refl, ap, sym, ◌∙◌}
use mathlib.Core.Bool.{false}
use mathlib.Core.Logic.{inl, inr}
use mathlib.Core.List.{[], ◌∷◌, map}
use native.Mathlib.Omega.{arith}
use a21_stackchan_workmate.Base.Lists.{All}
use a21_stackchan_workmate.Base.Tests.{Bool-cases}
use a21_stackchan_workmate.Base.Strings.{
  Text, is_space, trim_left, trim_right, trim_space, keep, lower_rune, to_lower,
}

trim_right-keep : (c : ℕ) (r : Text) → trim_right r ≡ r → trim_right (keep c r) ≡ keep c r
unfolding trim_right
trim_right-keep c [] h = ground arith
trim_right-keep c (d ∷ r) h = ground arith

trim_right-trim_right : (s : Text) → trim_right (trim_right s) ≡ trim_right s
unfolding trim_right
trim_right-trim_right [] = refl
trim_right-trim_right (c ∷ s) = trim_right-keep c (trim_right s) (trim_right-trim_right s)

-- A text that is empty or begins with a rune that is no space.
data IsTight : Text → Type 0 where
  nothing : IsTight []
  begins : {c : ℕ} {s : Text} → is_space c ≡ false → IsTight (c ∷ s)

trim_left-IsTight : (s : Text) → IsTight (trim_left s)
unfolding trim_left
trim_left-IsTight [] = nothing
trim_left-IsTight (c ∷ s) = elim (Bool-cases (is_space c)) [
  | inl e ↦ rw e (trim_left-IsTight s)
  | inr e ↦ rw e (begins e)
]

trim_left-trim_right : {s : Text} → IsTight s → trim_left (trim_right s) ≡ trim_right s
unfolding trim_left trim_right
trim_left-trim_right nothing = refl
trim_left-trim_right (begins e) = simp e

pub trim_space_idem : (s : Text) → trim_space (trim_space s) ≡ trim_space s
trim_space_idem s =
    unfold trim_space in
    ap trim_right (trim_left-trim_right (trim_left-IsTight s)) ∙ trim_right-trim_right (trim_left s)

lower_rune_idem : (r : ℕ) → lower_rune (lower_rune r) ≡ lower_rune r
unfolding lower_rune
lower_rune_idem r = ground arith

map-lower_rune_idem : (s : Text) → map lower_rune (map lower_rune s) ≡ map lower_rune s
map-lower_rune_idem [] = refl
map-lower_rune_idem (r ∷ s) = cc (lower_rune_idem r, map-lower_rune_idem s)

pub to_lower_idem : (s : Text) → to_lower (to_lower s) ≡ to_lower s
to_lower_idem s = unfold to_lower in map-lower_rune_idem s

trim_right_of_no_space : (s : Text) → All (λ r. is_space r ≡ false) s → trim_right s ≡ s
unfolding trim_right
trim_right_of_no_space [] h = refl
trim_right_of_no_space (c ∷ s) (p, h) = rw (trim_right_of_no_space s h, p)

pub trim_space_of_no_space : (s : Text) → All (λ r. is_space r ≡ false) s → trim_space s ≡ s
trim_space_of_no_space [] h = unfold trim_space in refl
trim_space_of_no_space (c ∷ s) (p, h) =
    unfold trim_space in rw p (trim_right_of_no_space (c ∷ s) (p, h))

is_space-lower_rune : (r : ℕ) → is_space (lower_rune r) ≡ is_space r
unfolding is_space lower_rune
is_space-lower_rune r = ground arith

trim_left-map : (s : Text) → trim_left (map lower_rune s) ≡ map lower_rune (trim_left s)
unfolding trim_left
trim_left-map [] = refl
trim_left-map (c ∷ s) = elim (Bool-cases (is_space c)) [
  | inl e ↦ rw (is_space-lower_rune c, e) (trim_left-map s)
  | inr e ↦ rw (is_space-lower_rune c, e)
]

keep-map : (c : ℕ) (r : Text) → keep (lower_rune c) (map lower_rune r) ≡ map lower_rune (keep c r)
keep-map c [] = elim (Bool-cases (is_space c)) [
  | inl e ↦ rw (is_space-lower_rune c, e)
  | inr e ↦ rw (is_space-lower_rune c, e)
]
keep-map c (d ∷ r) = elim (Bool-cases (is_space c)) [
  | inl e ↦ rw (is_space-lower_rune c, e)
  | inr e ↦ rw (is_space-lower_rune c, e)
]

trim_right-map : (s : Text) → trim_right (map lower_rune s) ≡ map lower_rune (trim_right s)
unfolding trim_right
trim_right-map [] = refl
trim_right-map (c ∷ s) = rw (trim_right-map s) (keep-map c (trim_right s))

pub trim_space-to_lower : (s : Text) → trim_space (to_lower s) ≡ to_lower (trim_space s)
unfolding trim_space to_lower
trim_space-to_lower s = rw (trim_left-map s) (trim_right-map (trim_left s))

-- The form in which the program compares texts is stable.
pub trim_space-to_lower_idem :
    (s : Text) → trim_space (to_lower (trim_space (to_lower s))) ≡ trim_space (to_lower s)
trim_space-to_lower_idem s =
    ap trim_space (sym (trim_space-to_lower (to_lower s)))
    ∙ trim_space_idem (to_lower (to_lower s))
    ∙ ap trim_space (to_lower_idem s)
