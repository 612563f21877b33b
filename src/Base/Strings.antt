-- ===== src/Base/Strings.antt =====
-- Texts as lists of code points, with what Go's package strings does to them.
-- `unicode.IsSpace` is written out in full. Case mapping is exact wherever the lower-case letter
-- is ASCII (A-Z, and the two other code points that Go maps into ASCII); any other letter is left
-- as it is, and the program compares lower-cased text with ASCII literals and classes only.
use Prim.Native.Nat.{ℕ, zero, suc, ◌+◌, ◌/◌, ◌%◌}
use Prim.Native.Char.{code}
use Prim.Native.String.{String}
use mathlib.Core.Path.{◌≡◌, refl}
use mathlib.Core.Logic.{◌↔◌}
use mathlib.Core.Bool.{Bool, true, false, ◌&&◌, ◌||◌}
use mathlib.Core.List.{List, [], ◌∷◌, map}
use native.Mathlib.Omega.{arith}
use a21_stackchan_workmate.Base.Tests.{leb, ltb, ◌==◌, if◌then◌else◌}
use a21_stackchan_workmate.Base.Lists.{is_empty}

abbrev pub Text : Type 0
Text = List ℕ

abbrev pub codes : String → Text
codes String.[] = []
codes (String.◌∷◌ c s) = code c ∷ codes s

unfoldable pub text_eq : Text → Text → Bool
text_eq [] [] = true
text_eq (a ∷ s) (b ∷ t) = a == b && text_eq s t
text_eq _ _ = false

pub text_eq_iff : (s t : Text) → (text_eq s t ≡ true) ↔ (s ≡ t)
unfolding text_eq
text_eq_iff [] [] = ground arith
text_eq_iff [] (b ∷ t) = ground arith
text_eq_iff (a ∷ s) [] = ground arith
text_eq_iff (a ∷ s) (b ∷ t) = ground (arith, text_eq_iff s t)

pub text_eq_refl : (s : Text) → text_eq s s ≡ true
text_eq_refl s = (text_eq_iff s s).1 refl

-- `value == item` for one of the items.
unfoldable pub one_of : Text → List Text → Bool
unfolding text_eq
one_of value [] = false
one_of value (item ∷ items) = text_eq value item || one_of value items

unfoldable pub is_space : ℕ → Bool
is_space r =
    (leb 9 r && leb r 13)
    || r == 32
    || r == 0x85
    || r == 0xa0
    || r == 0x1680
    || (leb 0x2000 r && leb r 0x200a)
    || r == 0x2028
    || r == 0x2029
    || r == 0x202f
    || r == 0x205f
    || r == 0x3000

unfoldable pub trim_left : Text → Text
unfolding is_space
trim_left [] = []
trim_left (c ∷ s) = if is_space c then trim_left s else c ∷ s

abbrev pub keep : ℕ → Text → Text
keep c r = if is_space c && is_empty r then [] else c ∷ r

unfoldable pub trim_right : Text → Text
unfolding is_space
trim_right [] = []
trim_right (c ∷ s) = keep c (trim_right s)

-- strings.TrimSpace
unfoldable pub trim_space : Text → Text
unfolding trim_left trim_right
trim_space s = trim_right (trim_left s)

unfoldable pub lower_rune : ℕ → ℕ
lower_rune r =
    if leb b'A' r && leb r b'Z'
    then r + 32
    else if r == 0x130
    then b'i'
    else if r == 0x212a
    then b'k'
    else r

-- strings.ToLower
unfoldable pub to_lower : Text → Text
unfolding lower_rune
to_lower s = map lower_rune s

unfoldable pub has_prefix : Text → Text → Bool
has_prefix s [] = true
has_prefix [] (b ∷ t) = false
has_prefix (a ∷ s) (b ∷ t) = a == b && has_prefix s t

-- strings.Contains
unfoldable pub contains : Text → Text → Bool
unfolding has_prefix
contains [] t = is_empty t
contains (a ∷ s) t = has_prefix (a ∷ s) t || contains s t

abbrev pub rune_bytes : ℕ → ℕ
rune_bytes r = if ltb r 0x80 then 1 else if ltb r 0x800 then 2 else if ltb r 0x10000 then 3 else 4

-- len(s): the bytes of the UTF-8 encoding.
unfoldable pub byte_len : Text → ℕ
byte_len [] = 0
byte_len (r ∷ s) = rune_bytes r + byte_len s

unfoldable pub all_runes : (ℕ → Bool) → Text → Bool
all_runes p [] = true
all_runes p (r ∷ s) = p r && all_runes p s

unfoldable pub is_digit : ℕ → Bool
is_digit r = leb b'0' r && leb r b'9'

unfoldable pub is_lower : ℕ → Bool
is_lower r = leb b'a' r && leb r b'z'

unfoldable pub is_upper : ℕ → Bool
is_upper r = leb b'A' r && leb r b'Z'

-- The digits of n above `out`, by `value /= 10` until 0; n + 1 rounds are enough.
unfoldable pub digits_above : ℕ → ℕ → Text → Text
digits_above zero n out = out
digits_above (suc fuel) n out =
    let rest = digits_above fuel (n / 10) ((b'0' + n % 10) ∷ out) in if n == 0 then out else rest

-- A number in decimal.
unfoldable pub decimal : ℕ → Text
unfolding digits_above
decimal n = if n == 0 then b'0' ∷ [] else digits_above (suc n) n []
