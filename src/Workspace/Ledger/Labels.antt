-- ===== src/Workspace/Ledger/Labels.antt =====
-- The labels of the ledger: what a caller may name a document, a content type, a scope, a kind or an
-- id (the safe…, default… and normalize… functions of internal/gateway/server.go).
use a21_stackchan_workmate.Base.{
  ℕ, Bool, not, ◌||◌, Option, none, some, List, [], ◌∷◌, ltb, ◌==◌, if◌then◌else◌, length, is_empty,
  Text, codes, one_of, trim_space, to_lower, byte_len, all_runes, is_lower, is_digit,
}
use a21_stackchan_workmate.Adapter.{contains_one_of, valid_professional_label}

unfoldable pub default_workspace_source_scope : Text → Text
default_workspace_source_scope scope =
    let lowered = to_lower (trim_space scope) in
    if is_empty lowered then codes "personal" else lowered

unfoldable pub default_workspace_source_kind : Text → Text
default_workspace_source_kind kind =
    let lowered = to_lower (trim_space kind) in if is_empty lowered then codes "upload" else lowered

unfoldable pub valid_workspace_source_kind : Text → Bool
valid_workspace_source_kind kind =
    one_of (to_lower (trim_space kind)) (codes "upload" ∷ codes "import" ∷ [])

abbrev label_forbidden : List Text
label_forbidden =
    codes "http://"
    ∷ codes "https://"
    ∷ codes "/"
    ∷ codes "\\"
    ∷ codes "api_key"
    ∷ codes "secret"
    ∷ codes "token"
    ∷ codes "bearer "
    ∷ []

unfoldable pub safe_workspace_document_label : Text → Text
safe_workspace_document_label label =
    let trimmed = trim_space label in
    if is_empty trimmed || ltb 96 (length trimmed)
    then []
    else if contains_one_of (to_lower trimmed) label_forbidden
    then []
    else if all_runes (λ r. not (ltb r 32 || r == 127)) trimmed
    then trimmed
    else []

abbrev is_content_type_rune : ℕ → Bool
is_content_type_rune r =
    is_lower r || is_digit r || r == b'/' || r == b'-' || r == b'_' || r == b'+' || r == b'.'

unfoldable pub safe_workspace_content_type : Text → Text
safe_workspace_content_type content_type =
    let lowered = to_lower (trim_space content_type) in
    if is_empty lowered
    then []
    else if ltb 80 (byte_len lowered)
    then []
    else if all_runes is_content_type_rune lowered
    then lowered
    else []

unfoldable pub safe_optional_workspace_label : Text → Text
safe_optional_workspace_label label =
    let trimmed = trim_space label in
    if is_empty trimmed then [] else if valid_professional_label trimmed then trimmed else []

-- `none` for an id that is refused.
unfoldable pub normalize_workspace_ledger_id : Text → Option Text
normalize_workspace_ledger_id value =
    let lowered = to_lower (trim_space value) in
    if is_empty lowered
    then some []
    else if ltb 96 (byte_len lowered)
    then none
    else if all_runes (λ r. is_lower r || is_digit r || r == b'-' || r == b'_') lowered
    then some lowered
    else none
