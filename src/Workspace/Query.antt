-- ===== src/Workspace/Query.antt =====
-- The readiness of a query scope (workspaceQueryScopeReadiness and defaultProfessionalQueryScope of
-- internal/gateway/server.go, ValidQueryScope of internal/v21adapter/client.go).
use a21_stackchan_workmate.Base.{
  Bool, ◌&&◌, ◌||◌, [], ◌∷◌, ltb, if◌then◌else◌, Text, codes, text_eq, one_of, trim_space, to_lower,
}
use a21_stackchan_workmate.Workspace.{Summary}

pub data ScopeReadiness : Type 0 where
  no_scope metadata_scope stored_scope indexing_scope searchable_scope : ScopeReadiness
  partial_searchable combined_searchable : ScopeReadiness

unfoldable pub valid_query_scope : Text → Bool
valid_query_scope scope =
    one_of (trim_space scope)
      (codes "public_only" ∷ codes "personal_only" ∷ codes "personal_plus_public" ∷ [])

unfoldable pub default_professional_query_scope : Text → Text
default_professional_query_scope scope =
    let lowered = to_lower (trim_space scope) in
    if valid_query_scope lowered then lowered else codes "public_only"

unfoldable pub workspace_single_scope_readiness : Text → Summary → ScopeReadiness
workspace_single_scope_readiness scope m =
    if ltb 0 (m.searchable_source_scope_counts scope)
    then searchable_scope
    else if ltb 0 (m.indexing_requested_source_scope_counts scope)
    then indexing_scope
    else if ltb 0 (m.stored_local_source_scope_counts scope)
    then stored_scope
    else if ltb 0 (m.source_scope_counts scope)
    then metadata_scope
    else no_scope

-- The branch on the combined scope.
unfoldable pub combined_scope_readiness : Summary → ScopeReadiness
combined_scope_readiness m =
    let public_ready = ltb 0 (m.searchable_source_scope_counts (codes "public")) in
    let personal_ready = ltb 0 (m.searchable_source_scope_counts (codes "personal")) in
    let public_indexing = ltb 0 (m.indexing_requested_source_scope_counts (codes "public")) in
    let personal_indexing = ltb 0 (m.indexing_requested_source_scope_counts (codes "personal")) in
    let public_stored = ltb 0 (m.stored_local_source_scope_counts (codes "public")) in
    let personal_stored = ltb 0 (m.stored_local_source_scope_counts (codes "personal")) in
    if public_ready && personal_ready
    then combined_searchable
    else if public_ready || personal_ready
    then partial_searchable
    else if public_indexing || personal_indexing
    then indexing_scope
    else if public_stored || personal_stored
    then stored_scope
    else if ltb 0 (m.source_scope_counts (codes "public"))
        || ltb 0 (m.source_scope_counts (codes "personal"))
    then metadata_scope
    else no_scope

unfoldable pub workspace_query_scope_readiness : Text → Summary → ScopeReadiness
workspace_query_scope_readiness query_scope m =
    let scope = default_professional_query_scope query_scope in
    if text_eq scope (codes "public_only")
    then workspace_single_scope_readiness (codes "public") m
    else if text_eq scope (codes "personal_only")
    then workspace_single_scope_readiness (codes "personal") m
    else if text_eq scope (codes "personal_plus_public")
    then combined_scope_readiness m
    else no_scope
