-- ===== src/Base/Numbering.antt =====
-- Ids that carry a sequence number, fmt.Sprintf("<prefix>%06d", n). Two numbers never share an id.
use Prim.Native.Nat.{ℕ, zero, suc, ◌+◌, ◌-◌, ◌*◌, ◌/◌, ◌%◌, ◌<◌}
use mathlib.Core.Path.{◌≡◌, refl, ap, sym, ◌∙◌}
use mathlib.Core.List.{[], ◌∷◌, ◌++◌}
use native.Mathlib.Omega.{arith}
use a21_stackchan_workmate.Base.Tests.{◌==◌, Bool-cases}
use mathlib.Core.Logic.{◌≢◌, inl, inr}
use a21_stackchan_workmate.Base.Lists.{length, drop}
use a21_stackchan_workmate.Base.Strings.{Text, digits_above, decimal}

-- n zeros in front of a text
unfoldable pub zeros : ℕ → Text → Text
zeros zero s = s
zeros (suc n) s = b'0' ∷ zeros n s

-- %06d
unfoldable pub padded : ℕ → Text
unfolding zeros
padded n = zeros (6 - length (decimal n)) (decimal n)

unfoldable pub numbered : Text → ℕ → Text
unfolding padded
numbered prefix n = prefix ++ padded n

-- The number that a text of digits stands for, read from the left.
read : ℕ → Text → ℕ
read n [] = n
read n (c ∷ s) = read (n * 10 + (c - b'0')) s

read-digits_above :
    (fuel n : ℕ) (out : Text) → n < fuel → read 0 (digits_above fuel n out) ≡ read n out
unfolding digits_above read
read-digits_above zero n out h = absurd (omega arith)
read-digits_above (suc fuel) n out h = elim (Bool-cases (n == 0)) [
  | inl e ↦ rw e (ap (λ m. read m out) (ground arith))
  | inr e ↦ rw e (
      read-digits_above fuel (n / 10) ((b'0' + n % 10) ∷ out) (ground arith)
      ∙ ap (λ m. read m out) (omega arith))
]

read-zeros : (k : ℕ) (s : Text) → read 0 (zeros k s) ≡ read 0 s
unfolding zeros read
read-zeros zero s = refl
read-zeros (suc k) s = read-zeros k s

read-decimal : (n : ℕ) → read 0 (decimal n) ≡ n
unfolding decimal read
read-decimal n = elim (Bool-cases (n == 0)) [
  | inl e ↦ rw e (ground arith)
  | inr e ↦ rw e (rw e at (read-digits_above (suc n) n [] (omega arith)))
]

read-padded : (n : ℕ) → read 0 (padded n) ≡ n
unfolding padded
read-padded n = read-zeros (6 - length (decimal n)) (decimal n) ∙ read-decimal n

drop-prefix : (prefix s : Text) → drop (length prefix) (prefix ++ s) ≡ s
drop-prefix [] s = refl
drop-prefix (c ∷ prefix) s = drop-prefix prefix s

pub numbered_injective : (prefix : Text) (m n : ℕ) → numbered prefix m ≡ numbered prefix n → m ≡ n
unfolding numbered
numbered_injective prefix m n e =
    let same : padded m ≡ padded n =
      sym (drop-prefix prefix (padded m))
      ∙ ap (drop (length prefix)) e
      ∙ drop-prefix prefix (padded n) in
    sym (read-padded m) ∙ ap (read 0) same ∙ read-padded n

pub numbered_ne : (prefix : Text) (m n : ℕ) → m ≢ n → numbered prefix m ≢ numbered prefix n
numbered_ne prefix m n ne same = ne (numbered_injective prefix m n same)
