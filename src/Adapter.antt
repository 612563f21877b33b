-- ===== src/Adapter.antt =====
-- What the adapter of the V21 evidence service asks of a professional query before it is sent
-- (ValidateProfessionalQueryRequest and safeAdapterLabel of internal/v21adapter/client.go). Only the
-- fields that the validation reads stand in the request.
use a21_stackchan_workmate.Base.{
  ℕ, Bool, true, false, not, ◌&&◌, ◌||◌, Option, none, some, List, [], ◌∷◌, ltb, ◌==◌,
  if◌then◌else◌, is_empty, Text, codes, text_eq, trim_space, to_lower, contains, byte_len,
  all_runes, is_lower, is_upper, is_digit,
}
use a21_stackchan_workmate.Workspace.Query.{valid_query_scope}

pub record QueryRequest : Type 0 where
  pub utterance : Text
  pub mode : Text
  pub privacy_scope : Text
  pub query_scope : Text
  pub device_id : Text
  pub user_id : Text
  pub workspace_id : Text

pub data QueryError : Type 0 where
  utterance_required only_professional_mode only_professional_privacy query_scope_unknown :
      QueryError
  device_id_unsafe user_id_unsafe workspace_id_unsafe : QueryError

-- for _, forbidden := range … { if strings.Contains(lower, forbidden) { return … } }
unfoldable pub contains_one_of : Text → List Text → Bool
contains_one_of lower [] = false
contains_one_of lower (forbidden ∷ rest) = contains lower forbidden || contains_one_of lower rest

abbrev pub is_adapter_rune : ℕ → Bool
is_adapter_rune r = is_lower r || is_upper r || is_digit r || r == b'_' || r == b'-' || r == b':'

abbrev adapter_forbidden : List Text
adapter_forbidden =
    codes "http://"
    ∷ codes "https://"
    ∷ codes "/"
    ∷ codes "\\"
    ∷ codes "api_key"
    ∷ codes "secret"
    ∷ codes "token"
    ∷ []

unfoldable pub safe_adapter_label : Text → Bool
unfolding contains_one_of
safe_adapter_label value =
    let trimmed = trim_space value in
    not (is_empty trimmed || ltb 96 (byte_len trimmed))
    && not (contains_one_of (to_lower trimmed) adapter_forbidden)
    && all_runes is_adapter_rune trimmed

-- One round of the loop over the labels, before the rounds that follow.
abbrev check_label : Text → QueryError → Option QueryError → Option QueryError
check_label value error rest =
    if not (is_empty (trim_space value)) && not (safe_adapter_label value) then some error else rest

abbrev given_but : Text → Bool → Bool
given_but value accepted = not (is_empty value) && not accepted

unfoldable pub validate_professional_query_request : QueryRequest → Option QueryError
validate_professional_query_request request =
    let mode = trim_space request.mode in
    let privacy_scope = trim_space request.privacy_scope in
    let query_scope = trim_space request.query_scope in
    if is_empty (trim_space request.utterance)
    then some utterance_required
    else if given_but mode (text_eq mode (codes "professional"))
    then some only_professional_mode
    else if given_but privacy_scope (text_eq privacy_scope (codes "professional_only"))
    then some only_professional_privacy
    else if given_but query_scope (valid_query_scope query_scope)
    then some query_scope_unknown
    else check_label request.device_id device_id_unsafe (
        check_label request.user_id user_id_unsafe
          (check_label request.workspace_id workspace_id_unsafe none))

abbrev accepted : Option QueryError → Bool
accepted none = true
accepted (some error) = false

-- validProfessionalLabel of internal/gateway/server.go
unfoldable pub valid_professional_label : Text → Bool
unfolding validate_professional_query_request
valid_professional_label value =
    not (is_empty (trim_space value))
    && accepted (
        validate_professional_query_request (record {
          utterance = codes "a21 validation";
          mode = codes "professional";
          privacy_scope = codes "professional_only";
          query_scope = [];
          device_id = [];
          user_id = value;
          workspace_id = value;
        }))
