-- ===== src/Base/Splitting.antt =====
-- Texts cut into parts and put together again, as Go's package strings does it.
use Prim.Native.Nat.{ℕ}
use mathlib.Core.Bool.{Bool, ◌||◌}
use mathlib.Core.List.{List, [], ◌∷◌, ◌++◌}
use a21_stackchan_workmate.Base.Tests.{◌==◌, if◌then◌else◌}
use a21_stackchan_workmate.Base.Lists.{is_empty, length, drop}
use a21_stackchan_workmate.Base.Strings.{Text, text_eq, has_prefix, is_space}

-- The part that was read so far, where it is not empty, before the parts that follow.
abbrev close_field : Text → List Text → List Text
close_field cur rest = if is_empty cur then rest else cur ∷ rest

fields_from : (ℕ → Bool) → Text → Text → List Text
fields_from p cur [] = close_field cur []
fields_from p cur (c ∷ s) =
    let closed = fields_from p [] s in
    let longer = fields_from p (cur ++ c ∷ []) s in if p c then close_field cur closed else longer

-- strings.FieldsFunc
unfoldable pub fields_func : (ℕ → Bool) → Text → List Text
unfolding fields_from
fields_func p s = fields_from p [] s

-- strings.Fields
unfoldable pub fields : Text → List Text
unfolding fields_func is_space
fields s = fields_func is_space s

split_from : ℕ → Text → Text → List Text
split_from sep cur [] = cur ∷ []
split_from sep cur (c ∷ s) =
    let closed = split_from sep [] s in
    let longer = split_from sep (cur ++ c ∷ []) s in if c == sep then cur ∷ closed else longer

-- strings.Split at one rune
unfoldable pub split : ℕ → Text → List Text
unfolding split_from
split sep s = split_from sep [] s

-- strings.Join
unfoldable pub join : Text → List Text → Text
join sep [] = []
join sep (p ∷ []) = p
join sep (p ∷ q ∷ ps) = p ++ (sep ++ join sep (q ∷ ps))

-- strings.TrimPrefix
unfoldable pub trim_prefix : Text → Text → Text
unfolding has_prefix
trim_prefix s prefix = if has_prefix s prefix then drop (length prefix) s else s

-- strings.HasSuffix
unfoldable pub has_suffix : Text → Text → Bool
unfolding text_eq
has_suffix [] t = is_empty t
has_suffix (c ∷ s) t = text_eq (c ∷ s) t || has_suffix s t
