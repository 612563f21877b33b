-- ===== src/Workspace.antt =====
-- The workspace sources and what may be queried in them (internal/gateway/server.go). A source
-- shows an upload job; the summary counts the sources; the readiness of a query scope is read off
-- the summary. The counts by scope are functions of the scope's text.
mod Tests
pub mod Query
pub mod Shown
pub mod Counts
pub mod Ready
pub mod Scope
pub mod Ledger
use a21_stackchan_workmate.Base.{
  ℕ, zero, suc, ◌+◌, ◌-◌, ◌*◌, ◌/◌, ◌%◌, ◌^◌, ◌≤◌, ◌<◌, ◌≡◌, refl, sym, ap, ◌∙◌, ◌≢◌, ◌↔◌, ◌⊎◌, inl,
  inr, Bool, true, false, not, ◌&&◌, ◌||◌, Option, none, some, List, [], ◌∷◌, ◌++◌, map, arith, ltb,
  leb, ◌==◌, if◌then◌else◌, Bool-cases, Option-cases, length, take, drop, is_empty, length-append,
  length-drop, length-take-le, All, All-append, All-drop, Text, codes, text_eq, text_eq_iff,
  text_eq_refl, one_of, is_space, trim_left, trim_right, trim_space, lower_rune, to_lower,
  has_prefix, contains, byte_len, decimal, all_runes, is_digit, is_lower, is_upper, trim_space_idem,
  trim_space_of_no_space, to_lower_idem, trim_space-to_lower_idem, ℤ, pos, negsuc, is_nat, below,
  above,
}

-- The statuses that the code gives to a job.
pub data JobStatus : Type 0 where
  job_accepted job_failed job_stored job_indexing job_deleted : JobStatus

pub data IndexStatus : Type 0 where
  index_not_started index_failed index_searchable index_requested index_deleted : IndexStatus

pub data Readiness : Type 0 where
  metadata_ready stored_ready indexing_ready searchable_ready failed_ready deleted_ready : Readiness

pub record JobFinding : Type 0 where
  pub code : Text
  pub message : Text

pub record Redaction : Type 0 where
  pub document_text_stored : Bool
  pub document_bytes_stored : Bool
  pub base64_payload_stored : Bool
  pub import_url_stored : Bool
  pub local_path_stored : Bool
  pub credential_value_stored : Bool
  pub provider_output_stored : Bool

pub record UploadJob : Type 0 where
  pub job_id : Text
  pub source_id : Text
  pub document_id : Text
  pub document_hash : Text
  pub storage_status : Text
  pub user_id : Text
  pub workspace_id : Text
  pub source_scope : Text
  pub source_kind : Text
  pub document_label : Text
  pub content_type : Text
  pub size_bytes : ℕ
  pub status : JobStatus
  pub index_status : IndexStatus
  pub attempt : ℕ
  pub created_at_ms : ℕ
  pub updated_at_ms : ℕ
  pub trace_id : Text
  pub session_id : Text
  pub device_id : Text
  pub upload_api_ready : Bool
  pub import_api_ready : Bool
  pub indexing_api_ready : Bool
  pub execution_started : Bool
  pub retry_allowed : Bool
  pub delete_allowed : Bool
  pub redaction : Redaction
  pub findings : List JobFinding

pub record Source : Type 0 where
  pub source_id : Text
  pub job_id : Text
  pub document_id : Text
  pub document_hash : Text
  pub storage_status : Text
  pub user_id : Text
  pub workspace_id : Text
  pub source_scope : Text
  pub source_kind : Text
  pub document_label : Text
  pub content_type : Text
  pub size_bytes : ℕ
  pub readiness : Readiness
  pub index_status : IndexStatus
  pub created_at_ms : ℕ
  pub updated_at_ms : ℕ
  pub trace_id : Text
  pub session_id : Text
  pub device_id : Text
  pub metadata_only : Bool
  pub stored_local : Bool
  pub indexing_requested : Bool
  pub searchable : Bool
  pub deleted : Bool
  pub redaction : Redaction
  pub findings : List JobFinding

pub data WorkspaceStatus : Type 0 where
  no_sources metadata_status stored_status indexing_status searchable_status deleted_status :
      WorkspaceStatus

abbrev pub Counts : Type 0
Counts = Text → ℕ

pub record Summary : Type 0 where
  pub total_sources : ℕ
  pub metadata_only_sources : ℕ
  pub stored_local_sources : ℕ
  pub indexing_requested_sources : ℕ
  pub searchable_sources : ℕ
  pub deleted_sources : ℕ
  pub source_scope_counts : Counts
  pub stored_local_source_scope_counts : Counts
  pub indexing_requested_source_scope_counts : Counts
  pub searchable_source_scope_counts : Counts
  pub workspace_status : WorkspaceStatus

abbrev pub same_readiness : Readiness → Readiness → Bool
same_readiness metadata_ready metadata_ready = true
same_readiness stored_ready stored_ready = true
same_readiness indexing_ready indexing_ready = true
same_readiness searchable_ready searchable_ready = true
same_readiness failed_ready failed_ready = true
same_readiness deleted_ready deleted_ready = true
same_readiness _ _ = false

unfoldable pub workspace_source_readiness_for_job : JobStatus → IndexStatus → Readiness
workspace_source_readiness_for_job job_deleted _ = deleted_ready
workspace_source_readiness_for_job job_failed _ = failed_ready
workspace_source_readiness_for_job job_indexing _ = indexing_ready
workspace_source_readiness_for_job _ index_requested = indexing_ready
workspace_source_readiness_for_job job_stored _ = stored_ready
workspace_source_readiness_for_job _ index_searchable = searchable_ready
workspace_source_readiness_for_job _ _ = metadata_ready

unfoldable pub workspace_source_from_job : UploadJob → Readiness → Source
workspace_source_from_job job readiness =
    let stored =
      text_eq job.storage_status (codes "stored_local")
      && not (same_readiness readiness deleted_ready) in
    record {
      source_id = job.source_id;
      job_id = job.job_id;
      document_id = job.document_id;
      document_hash = job.document_hash;
      storage_status = job.storage_status;
      user_id = job.user_id;
      workspace_id = job.workspace_id;
      source_scope = job.source_scope;
      source_kind = job.source_kind;
      document_label = job.document_label;
      content_type = job.content_type;
      size_bytes = job.size_bytes;
      readiness = readiness;
      index_status = job.index_status;
      created_at_ms = job.created_at_ms;
      updated_at_ms = job.updated_at_ms;
      trace_id = job.trace_id;
      session_id = job.session_id;
      device_id = job.device_id;
      metadata_only = not stored;
      stored_local = stored;
      indexing_requested = same_readiness readiness indexing_ready;
      searchable = same_readiness readiness searchable_ready;
      deleted = same_readiness readiness deleted_ready;
      redaction = job.redaction;
      findings = job.findings;
    }

unfoldable pub valid_workspace_source_scope : Text → Bool
valid_workspace_source_scope scope =
    one_of (to_lower (trim_space scope)) (codes "personal" ∷ codes "public" ∷ [])

abbrev pub empty_workspace_source_summary : Summary
empty_workspace_source_summary = record {
  total_sources = 0;
  metadata_only_sources = 0;
  stored_local_sources = 0;
  indexing_requested_sources = 0;
  searchable_sources = 0;
  deleted_sources = 0;
  source_scope_counts = λ _. 0;
  stored_local_source_scope_counts = λ _. 0;
  indexing_requested_source_scope_counts = λ _. 0;
  searchable_source_scope_counts = λ _. 0;
  workspace_status = no_sources;
}

-- counts[key]++ under a test.
abbrev pub count_if : Bool → ℕ → ℕ
count_if true n = suc n
count_if false n = n

abbrev pub count_scope : Bool → Text → Counts → Counts
count_scope test key counts = λ k. count_if (test && text_eq k key) (counts k)

-- One round of the loop, the counts by scope only where the source is not deleted.
unfoldable pub summary_step : Source → Summary → Summary
summary_step s m =
    let valid = valid_workspace_source_scope s.source_scope in
    let live = not s.deleted in
    record m {
      total_sources = suc m.total_sources;
      metadata_only_sources = count_if s.metadata_only m.metadata_only_sources;
      stored_local_sources = count_if s.stored_local m.stored_local_sources;
      deleted_sources = count_if s.deleted m.deleted_sources;
      source_scope_counts = count_scope (live && valid) s.source_scope m.source_scope_counts;
      searchable_sources = count_if (live && s.searchable) m.searchable_sources;
      searchable_source_scope_counts =
          count_scope (live && s.searchable && valid) s.source_scope
            m.searchable_source_scope_counts;
      stored_local_source_scope_counts =
          count_scope (live && s.stored_local && valid) s.source_scope
            m.stored_local_source_scope_counts;
      indexing_requested_sources =
          count_if (live && s.indexing_requested) m.indexing_requested_sources;
      indexing_requested_source_scope_counts =
          count_scope (live && s.indexing_requested && valid) s.source_scope
            m.indexing_requested_source_scope_counts;
    }

unfoldable pub summary_loop : List Source → Summary → Summary
summary_loop [] m = m
summary_loop (s ∷ sources) m = summary_loop sources (summary_step s m)

unfoldable pub status_of_summary : Summary → WorkspaceStatus
status_of_summary m =
    if ltb 0 m.searchable_sources
    then searchable_status
    else if ltb 0 m.indexing_requested_sources
    then indexing_status
    else if (m.total_sources == m.deleted_sources) && ltb 0 m.total_sources
    then deleted_status
    else if ltb 0 m.stored_local_sources
    then stored_status
    else if ltb 0 m.total_sources
    then metadata_status
    else no_sources

unfoldable pub workspace_source_summary : List Source → Summary
workspace_source_summary sources =
    let m = summary_loop sources empty_workspace_source_summary in
    record m { workspace_status = status_of_summary m }
