-- ===== src/Guard/Types.antt =====
-- The findings of the runtime guard and what they amount to (internal/runtimeguard/result.go).
use a21_stackchan_workmate.Base.{
  Bool, true, false, not, ◌||◌, List, [], ◌∷◌, ◌++◌, ◌≡◌, refl, arith, Text, if◌then◌else◌,
}

pub data Severity : Type 0 where
  severity_info severity_warn severity_block : Severity

pub record Finding : Type 0 where
  pub code : Text
  pub severity : Severity
  pub message : Text
  pub detail : Text

pub record Result : Type 0 where
  pub ok : Bool
  pub findings : List Finding

abbrev is_block : Severity → Bool
is_block severity_block = true
is_block _ = false

unfoldable pub any_block : List Finding → Bool
any_block [] = false
any_block (f ∷ findings) = is_block f.severity || any_block findings

unfoldable pub new_result : List Finding → Result
new_result findings = record { ok = not (any_block findings); findings = findings }

abbrev pub blocking : Text → Text → Text → Finding
blocking code message detail = record {
  code = code;
  severity = severity_block;
  message = message;
  detail = detail;
}

-- if test { findings = append(findings, finding) }
unfoldable pub when : Bool → Finding → List Finding
when test finding = if test then finding ∷ [] else []

pub any_block-append :
    (fs gs : List Finding) → any_block (fs ++ gs) ≡ (any_block fs || any_block gs)
unfolding any_block
any_block-append [] gs = refl
any_block-append (f ∷ fs) gs = ground (arith, any_block-append fs gs)

pub any_block-when :
    (test : Bool) (code message detail : Text)
    → any_block (when test (blocking code message detail)) ≡ test
unfolding any_block when
any_block-when test code message detail = ground arith
