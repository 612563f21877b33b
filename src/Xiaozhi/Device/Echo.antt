-- ===== src/Xiaozhi/Device/Echo.antt =====
-- The runtime echo of a device event: what normalizing it leaves, and that it is stable.
use a21_stackchan_workmate.Base.{
  ◌≤◌, ◌≡◌, refl, sym, ◌∙◌, ◌⊎◌, inl, inr, true, false, List, [], ◌∷◌, ◌++◌, arith, Bool-cases,
  is_empty, All, Text, text_eq, text_eq_iff, one_of, trim_space, to_lower, byte_len,
  trim_space_idem, trim_space-to_lower_idem,
}
use mathlib.Core.List.{append_assoc, append-nil}
use a21_stackchan_workmate.Xiaozhi.Device.{
  Echo, put_echo, echo_keys, safe_device_runtime_echo_value, echo_round, echo_loop,
  normalize_device_runtime_echo,
}

-- An entry that the loop keeps as it is.
pub record IsEchoEntry (entry : Text × Text) : Type 0 where
  pub key_normal : trim_space (to_lower entry.0) ≡ entry.0
  pub value_normal : trim_space entry.1 ≡ entry.1
  pub value_given : is_empty entry.1 ≡ false
  pub key_given : is_empty entry.0 ≡ false
  pub key_allowed : one_of entry.0 echo_keys ≡ true
  pub value_short : byte_len entry.1 ≤ 96
  pub value_safe : safe_device_runtime_echo_value entry.1 ≡ true

abbrev pub Fresh : Text → Echo → Type 0
Fresh key = All (λ entry. text_eq entry.0 key ≡ false)

abbrev pub Distinct : Echo → Type 0
Distinct [] = Unit
Distinct ((key, value) ∷ m) = Fresh key m × Distinct m

text_eq_sym : (s t : Text) → text_eq s t ≡ false → text_eq t s ≡ false
text_eq_sym s t h = ground (arith, text_eq_iff s t, text_eq_iff t s)

put_echo-entries :
    (k v : Text) (m : Echo)
    → IsEchoEntry (k, v)
    → All IsEchoEntry m
    → All IsEchoEntry (put_echo k v m)
unfolding put_echo
put_echo-entries k v [] e h = (e, tt)
put_echo-entries k v ((j, w) ∷ m) e (p, h) = elim (Bool-cases (text_eq j k)) [
  | inl same ↦ rw (same, (text_eq_iff j k).0 same) (e, h)
  | inr other ↦ rw other (p, put_echo-entries k v m e h)
]

put_echo-Fresh :
    (j k v : Text) (m : Echo) → text_eq k j ≡ false → Fresh j m → Fresh j (put_echo k v m)
unfolding put_echo
put_echo-Fresh j k v [] e h = (e, tt)
put_echo-Fresh j k v ((i, w) ∷ m) e (p, h) = elim (Bool-cases (text_eq i k)) [
  | inl same ↦ rw same (p, h)
  | inr other ↦ rw other (p, put_echo-Fresh j k v m e h)
]

put_echo-Distinct : (k v : Text) (m : Echo) → Distinct m → Distinct (put_echo k v m)
unfolding put_echo
put_echo-Distinct k v [] h = (tt, tt)
put_echo-Distinct k v ((j, w) ∷ m) (f, h) = elim (Bool-cases (text_eq j k)) [
  | inl same ↦ rw same (f, h)
  | inr other ↦
      rw other (put_echo-Fresh j k v m (text_eq_sym j k other) f, put_echo-Distinct k v m h)
]

-- Either the round leaves the map alone, or it puts an entry of the allowed form.
round_cases :
    (k v : Text) (m : Echo)
    → (echo_round (k, v) m ≡ m)
      ⊎ (IsEchoEntry (trim_space (to_lower k), trim_space v)
          × (echo_round (k, v) m ≡ put_echo (trim_space (to_lower k)) (trim_space v) m))
unfolding echo_round
round_cases k v m = ground (arith, trim_space-to_lower_idem k, trim_space_idem v)

abbrev pub IsEcho : Echo → Type 0
IsEcho m = All IsEchoEntry m × Distinct m

echo_round-IsEcho : (entry : Text × Text) (m : Echo) → IsEcho m → IsEcho (echo_round entry m)
echo_round-IsEcho (k, v) m (h, d) = elim (round_cases k v m) [
  | inl e ↦ rw e (h, d)
  | inr (good, e) ↦ rw e (put_echo-entries _ _ m good h, put_echo-Distinct _ _ m d)
]

echo_loop-IsEcho : (input m : Echo) → IsEcho m → IsEcho (echo_loop input m)
unfolding echo_loop
echo_loop-IsEcho [] m h = h
echo_loop-IsEcho (entry ∷ input) m h =
    echo_loop-IsEcho input (echo_round entry m) (echo_round-IsEcho entry m h)

-- Every entry of a normalized echo has an allowed key and a short safe value, and no key stands
-- twice.
pub normalize_device_runtime_echo-IsEcho :
    (input : Echo) → IsEcho (normalize_device_runtime_echo input)
unfolding normalize_device_runtime_echo
normalize_device_runtime_echo-IsEcho input = echo_loop-IsEcho input [] (tt, tt)

echo_round-put : (k v : Text) (m : Echo) → IsEchoEntry (k, v) → echo_round (k, v) m ≡ put_echo k v m
unfolding echo_round
echo_round-put k v m e = rw (e.key_normal, e.value_normal) (ground arith)

put_echo_of_Fresh : (k v : Text) (m : Echo) → Fresh k m → put_echo k v m ≡ m ++ (k, v) ∷ []
unfolding put_echo
put_echo_of_Fresh k v [] h = refl
put_echo_of_Fresh k v ((j, w) ∷ m) (p, h) = rw (p, put_echo_of_Fresh k v m h)

All-append_right {ℓ} : {A : Type 0} (P : A → Type ℓ) (xs ys : List A) → All P (xs ++ ys) → All P ys
All-append_right P [] ys h = h
All-append_right P (x ∷ xs) ys h = All-append_right P xs ys h.1

Distinct-before : (m : Echo) (k v : Text) (rest : Echo) → Distinct (m ++ (k, v) ∷ rest) → Fresh k m
Distinct-before [] k v rest h = tt
Distinct-before ((j, w) ∷ m) k v rest (f, h) = (
  text_eq_sym k j (All-append_right (λ entry. text_eq entry.0 j ≡ false) m ((k, v) ∷ rest) f).0,
  Distinct-before m k v rest h,
)

echo_loop_of_IsEcho :
    (input m : Echo)
    → All IsEchoEntry input
    → Distinct (m ++ input)
    → echo_loop input m ≡ m ++ input
unfolding echo_loop
echo_loop_of_IsEcho [] m h d = sym (append-nil m)
echo_loop_of_IsEcho ((k, v) ∷ input) m (e, h) d =
    let regroup : (m ++ (k, v) ∷ []) ++ input ≡ m ++ (k, v) ∷ input =
      append_assoc m ((k, v) ∷ []) input in
    let step : echo_round (k, v) m ≡ m ++ (k, v) ∷ [] =
      echo_round-put k v m e ∙ put_echo_of_Fresh k v m (Distinct-before m k v input d) in
    rw step (echo_loop_of_IsEcho input (m ++ (k, v) ∷ []) h (rw regroup d) ∙ regroup)

-- Normalizing an echo twice is normalizing it once.
pub normalize_device_runtime_echo_idem :
    (input : Echo)
    → normalize_device_runtime_echo (normalize_device_runtime_echo input)
      ≡ normalize_device_runtime_echo input
normalize_device_runtime_echo_idem input =
    let (h, d) = normalize_device_runtime_echo-IsEcho input in
    let out = normalize_device_runtime_echo input in
    let again : normalize_device_runtime_echo out ≡ echo_loop out [] =
      unfold normalize_device_runtime_echo in refl in
    again ∙ echo_loop_of_IsEcho out [] h d
