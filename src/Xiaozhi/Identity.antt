-- ===== src/Xiaozhi/Identity.antt =====
-- Errors and identities of the xiaozhi transport (internal/transport/xiaozhi/frame.go).
-- An error wraps one of the package's sentinel errors with a detail text; the sentinel is kept.
pub mod Component
pub mod Laws
use a21_stackchan_workmate.Base.{
  ℕ, zero, suc, ◌+◌, ◌-◌, ◌*◌, ◌/◌, ◌%◌, ◌^◌, ◌≤◌, ◌<◌, ◌≡◌, refl, sym, ap, ◌∙◌, ◌≢◌, ◌↔◌, ◌⊎◌, inl,
  inr, Bool, true, false, not, ◌&&◌, ◌||◌, Option, none, some, List, [], ◌∷◌, ◌++◌, map, arith, ltb,
  leb, ◌==◌, if◌then◌else◌, Bool-cases, Option-cases, length, take, drop, is_empty, length-append,
  length-drop, length-take-le, All, All-append, All-drop, Text, codes, text_eq, text_eq_iff,
  text_eq_refl, one_of, is_space, trim_left, trim_right, trim_space, lower_rune, to_lower,
  has_prefix, contains, byte_len, all_runes, is_digit, is_lower, is_upper, trim_space_idem,
  to_lower_idem, ℤ, pos, negsuc, is_nat, below, above,
}

pub data Error : Type 0 where
  malformed_json missing_device_identity unsupported_message_type unsupported_listen_state : Error
  unsupported_hello_version unsupported_transport unsupported_audio_params : Error
  unsupported_binary_protocol malformed_binary_frame unsupported_binary_frame_type : Error
  empty_binary_payload unexpected_binary_direction legacy_identity : Error
  device_events_disabled unsupported_device_event_kind unsupported_device_event_value : Error
  invalid_mcp_envelope unsupported_mcp_method invalid_mcp_tool_name : Error
  unsupported_expression_state : Error

pub data Result {ℓ} (A : Type ℓ) : Type ℓ where
  ok : A → Result A
  err : Error → Result A

-- `if err != nil { return err }` after a call.
infixl 5 ◌>>=◌
abbrev pub ◌>>=◌ {ℓ κ} :
    {Value : Type ℓ} {Next : Type κ} → Result Value → (Value → Result Next) → Result Next
err failure >>= next = err failure
ok value >>= next = next value

infixl 5 ◌>>◌
abbrev pub ◌>>◌ {κ} : {Next : Type κ} → Result (Unit {0}) → Result Next → Result Next
checked >> next = checked >>= λ _. next

-- `if test { return err }`
abbrev pub reject : Bool → Error → Result (Unit {0})
reject true e = err e
reject false e = ok tt

pub Result-cases {ℓ} :
    {A : Type ℓ} (r : Result A) → ((a : A) × (r ≡ ok a)) ⊎ ((e : Error) × (r ≡ err e))
Result-cases (ok a) = inl (a, refl)
Result-cases (err e) = inr (e, refl)

pub record Identity : Type 0 where
  pub device_id : Text
  pub trace_id : Text
  pub session_id : Text

abbrev pub no_identity : Identity
no_identity = record { device_id = []; trace_id = []; session_id = [] }

unfoldable pub contains_legacy_identity : Text → Bool
contains_legacy_identity value =
    let lower = to_lower value in contains lower (codes "x21") || contains lower (codes "v21")

unfoldable pub first_non_empty : List Text → Text
first_non_empty [] = []
first_non_empty (value ∷ values) =
    let trimmed = trim_space value in if is_empty trimmed then first_non_empty values else trimmed

unfoldable pub is_component_rune : ℕ → Bool
unfolding is_lower is_digit
is_component_rune r = is_lower r || is_digit r || r == b'_' || r == b'.' || r == b'-'

-- One round of the loop: the builder's text, which grows at its end, and `lastDash`.
unfoldable pub component_round : ℕ → Text × Bool → Text × Bool
unfolding is_component_rune
component_round r (b, last_dash) =
    if is_component_rune r
    then (b ++ r ∷ [], r == b'-')
    else if not (is_empty b) && not last_dash
    then (b ++ b'-' ∷ [], true)
    else (b, last_dash)

unfoldable pub component_loop : Text → Text × Bool → Text × Bool
unfolding component_round
component_loop [] st = st
component_loop (r ∷ rest) st = component_loop rest (component_round r st)

abbrev pub in_cutset : ℕ → Bool
in_cutset r = r == b'-' || r == b'.' || r == b'_'

unfoldable pub cut_left : Text → Text
cut_left [] = []
cut_left (r ∷ s) = if in_cutset r then cut_left s else r ∷ s

abbrev pub keep_uncut : ℕ → Text → Text
keep_uncut r s = if in_cutset r && is_empty s then [] else r ∷ s

unfoldable pub cut_right : Text → Text
cut_right [] = []
cut_right (r ∷ s) = keep_uncut r (cut_right s)

unfoldable pub safe_id_component : Text → Text
unfolding component_loop cut_left cut_right
safe_id_component value =
    let b = (component_loop (to_lower (trim_space value)) ([], false)).0 in
    let component = cut_right (cut_left b) in
    if is_empty component then codes "device" else component

abbrev or_default : Text → Text → Text
or_default value fallback = if is_empty value then fallback else value

unfoldable pub resolve_identity : Identity → Identity → Result Identity
resolve_identity connection message = do
  let device_id = first_non_empty (message.device_id ∷ connection.device_id ∷ [])
  reject (is_empty device_id) missing_device_identity
  reject (contains_legacy_identity device_id) legacy_identity
  let trace_id =
      or_default (first_non_empty (message.trace_id ∷ connection.trace_id ∷ []))
        (codes "a21-trace-" ++ safe_id_component device_id)
  reject (contains_legacy_identity trace_id) legacy_identity
  let session_id =
      or_default (first_non_empty (message.session_id ∷ connection.session_id ∷ []))
        (codes "a21-session-" ++ safe_id_component device_id)
  reject (contains_legacy_identity session_id) legacy_identity
  ok (record { device_id = device_id; trace_id = trace_id; session_id = session_id })
