-- ===== src/Xiaozhi/Identity/Component.antt =====
-- What safeIDComponent returns.
use a21_stackchan_workmate.Base.{
  ℕ, ◌≡◌, refl, ◌⊎◌, inl, inr, Bool, true, false, [], ◌∷◌, arith, if◌then◌else◌, Bool-cases,
  is_empty, All, All-append, Text, codes, is_space, trim_space, to_lower,
}
use a21_stackchan_workmate.Xiaozhi.Identity.{
  is_component_rune, component_round, component_loop, in_cutset, cut_left, keep_uncut, cut_right,
  safe_id_component,
}

abbrev IsComponent : Text → Type 0
IsComponent = All (λ r. is_component_rune r ≡ true)

component_round-IsComponent :
    (r : ℕ) (st : Text × Bool) → IsComponent st.0 → IsComponent (component_round r st).0
unfolding component_round
component_round-IsComponent r (b, d) h = ground (
  arith,
  All-append (λ r. is_component_rune r ≡ true) b (r ∷ []) h,
  All-append (λ r. is_component_rune r ≡ true) b (b'-' ∷ []) h,
)

component_loop-IsComponent :
    (s : Text) (st : Text × Bool) → IsComponent st.0 → IsComponent (component_loop s st).0
unfolding component_loop
component_loop-IsComponent [] st h = h
component_loop-IsComponent (r ∷ s) st h =
    component_loop-IsComponent s (component_round r st) (component_round-IsComponent r st h)

cut_left-IsComponent : (s : Text) → IsComponent s → IsComponent (cut_left s)
unfolding cut_left
cut_left-IsComponent [] h = h
cut_left-IsComponent (r ∷ s) h = ground (arith, cut_left-IsComponent s)

keep_uncut-IsComponent :
    (r : ℕ) (s : Text) → is_component_rune r ≡ true → IsComponent s → IsComponent (keep_uncut r s)
keep_uncut-IsComponent r [] p h = ground arith
keep_uncut-IsComponent r (c ∷ s) p h = ground arith

cut_right-IsComponent : (s : Text) → IsComponent s → IsComponent (cut_right s)
unfolding cut_right
cut_right-IsComponent [] h = h
cut_right-IsComponent (r ∷ s) (p, h) =
    keep_uncut-IsComponent r (cut_right s) p (cut_right-IsComponent s h)

-- The first rune is there and is not one that strings.Trim would cut.
abbrev pub Starts : Text → Type 0
Starts [] = ⊥
Starts (r ∷ s) = in_cutset r ≡ false

-- So is the last one.
abbrev pub Ends : Text → Type 0
Ends [] = ⊥
Ends (r ∷ []) = in_cutset r ≡ false
Ends (r ∷ c ∷ s) = Ends (c ∷ s)

cut_left-Starts : (s : Text) → (cut_left s ≡ []) ⊎ Starts (cut_left s)
unfolding cut_left
cut_left-Starts [] = inl refl
cut_left-Starts (r ∷ s) = elim (Bool-cases (in_cutset r)) [
  | inl e ↦ rw e (cut_left-Starts s)
  | inr e ↦ rw e (inr e)
]

keep_uncut-Ends :
    (r : ℕ) (s : Text) → (s ≡ []) ⊎ Ends s → (keep_uncut r s ≡ []) ⊎ Ends (keep_uncut r s)
keep_uncut-Ends r [] h = elim (Bool-cases (in_cutset r)) [
  | inl e ↦ inl (rw e)
  | inr e ↦ inr (rw e e)
]
keep_uncut-Ends r (c ∷ s) (inl h) = cc
keep_uncut-Ends r (c ∷ s) (inr h) = elim (Bool-cases (in_cutset r)) [
  | inl e ↦ inr (rw e h)
  | inr e ↦ inr (rw e h)
]

cut_right-Ends : (s : Text) → (cut_right s ≡ []) ⊎ Ends (cut_right s)
unfolding cut_right
cut_right-Ends [] = inl refl
cut_right-Ends (r ∷ s) = keep_uncut-Ends r (cut_right s) (cut_right-Ends s)

cut_right-Starts : (s : Text) → Starts s → Starts (cut_right s)
unfolding cut_right
cut_right-Starts [] h = h
cut_right-Starts (r ∷ s) h = rw h h

-- A component of safe runes that begins and ends with none of '-', '.', '_'.
pub record IsSafeComponent (s : Text) : Type 0 where
  pub runes : IsComponent s
  pub starts : Starts s
  pub ends : Ends s

trimmed-IsSafe :
    (b : Text)
    → IsComponent b
    → (is_empty (cut_right (cut_left b)) ≡ true) ⊎ IsSafeComponent (cut_right (cut_left b))
trimmed-IsSafe b h = elim (cut_right-Ends (cut_left b)) [
  | inl e ↦ inl (rw e refl)
  | inr e ↦ elim (cut_left-Starts b) [
    | inl none_left ↦ inl (rw none_left (unfold cut_right in refl))
    | inr s ↦ inr (record {
      runes = cut_right-IsComponent (cut_left b) (cut_left-IsComponent b h);
      starts = cut_right-Starts (cut_left b) s;
      ends = e;
    })
  ]
]

device-IsSafe : IsSafeComponent (codes "device")
unfolding is_component_rune
device-IsSafe = record { runes = ground arith; starts = refl; ends = refl }

default-IsSafe :
    (t : Text)
    → (is_empty t ≡ true) ⊎ IsSafeComponent t
    → IsSafeComponent (if is_empty t then codes "device" else t)
default-IsSafe [] h = device-IsSafe
default-IsSafe (r ∷ t) (inl h) = cc
default-IsSafe (r ∷ t) (inr h) = h

-- Whatever the text, its component is not empty, consists of a-z, 0-9, '_', '.' and '-', and
-- neither begins nor ends with one of '-', '.', '_'.
pub safe_id_component-IsSafeComponent : (value : Text) → IsSafeComponent (safe_id_component value)
safe_id_component-IsSafeComponent value =
    let st = component_loop (to_lower (trim_space value)) ([], false) in
    unfold safe_id_component in
    default-IsSafe (cut_right (cut_left st.0)) (
      trimmed-IsSafe st.0 (component_loop-IsComponent (to_lower (trim_space value)) ([], false) tt))

component-no_space : (s : Text) → IsComponent s → All (λ r. is_space r ≡ false) s
unfolding is_component_rune is_space
component-no_space [] h = tt
component-no_space (r ∷ s) (p, h) = (ground arith, component-no_space s h)

-- A component holds no white space.
pub safe_id_component-no_space :
    (value : Text) → All (λ r. is_space r ≡ false) (safe_id_component value)
safe_id_component-no_space value =
    component-no_space _ (safe_id_component-IsSafeComponent value).runes
