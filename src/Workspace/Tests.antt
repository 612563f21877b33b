-- ===== src/Workspace/Tests.antt =====
-- Summaries of concrete sources.
use a21_stackchan_workmate.Base.{
  ◌≡◌, refl, ◌≢◌, ◌↔◌, true, false, not, List, [], ◌∷◌, codes, text_eq, one_of, is_space, trim_left,
  trim_right, trim_space, lower_rune, to_lower,
}
use a21_stackchan_workmate.Workspace.{
  UploadJob, Source, job_accepted, job_deleted, index_searchable, index_deleted,
  empty_workspace_source_summary, workspace_source_summary, workspace_source_from_job,
  workspace_source_readiness_for_job, summary_loop, summary_step, status_of_summary,
  valid_workspace_source_scope,
}
use a21_stackchan_workmate.Workspace.Query.{
  combined_searchable, default_professional_query_scope, workspace_query_scope_readiness,
  combined_scope_readiness, valid_query_scope,
}
use a21_stackchan_workmate.Workspace.Counts.{Counted, workspace_source_summary-Counted}
use a21_stackchan_workmate.Workspace.Scope.{
  Serves, personal_plus_public, workspace_query_scope_readiness-combined_iff,
}
use a21_stackchan_workmate.Workspace.Shown.{shown, shown-Agrees}

abbrev personal_job : UploadJob
personal_job = record {
  job_id = codes "a21-workspace-job-000001";
  source_id = codes "a21-workspace-source-000001";
  document_id = [];
  document_hash = [];
  storage_status = codes "stored_local";
  user_id = codes "u";
  workspace_id = codes "w";
  source_scope = codes "personal";
  source_kind = codes "upload";
  document_label = codes "notes";
  content_type = [];
  size_bytes = 12;
  status = job_accepted;
  index_status = index_searchable;
  attempt = 1;
  created_at_ms = 5;
  updated_at_ms = 5;
  trace_id = [];
  session_id = [];
  device_id = [];
  upload_api_ready = true;
  import_api_ready = true;
  indexing_api_ready = false;
  execution_started = false;
  retry_allowed = true;
  delete_allowed = true;
  redaction = record {
    document_text_stored = false;
    document_bytes_stored = false;
    base64_payload_stored = false;
    import_url_stored = false;
    local_path_stored = false;
    credential_value_stored = false;
    provider_output_stored = false;
  };
  findings = [];
}

abbrev public_job : UploadJob
public_job = record personal_job { source_scope = codes "public" }

abbrev deleted_job : UploadJob
deleted_job = record public_job { status = job_deleted; index_status = index_deleted }

abbrev some_sources : List Source
some_sources = shown personal_job ∷ shown public_job ∷ shown deleted_job ∷ []

readiness_test :
    workspace_query_scope_readiness
      (codes " Personal_Plus_Public")
      (workspace_source_summary some_sources)
    ≡ combined_searchable
unfolding workspace_query_scope_readiness default_professional_query_scope valid_query_scope
    combined_scope_readiness workspace_source_summary summary_loop summary_step status_of_summary
    workspace_source_from_job workspace_source_readiness_for_job valid_workspace_source_scope one_of
    text_eq to_lower lower_rune trim_space trim_left trim_right is_space
readiness_test = refl

workspace_source_summary-Counted_example :
    Counted empty_workspace_source_summary some_sources (workspace_source_summary some_sources)
workspace_source_summary-Counted_example = workspace_source_summary-Counted some_sources

workspace_query_scope_readiness-combined_iff_example :
    (workspace_query_scope_readiness personal_plus_public (workspace_source_summary some_sources)
      ≡ combined_searchable)
    ↔ ((default_professional_query_scope personal_plus_public ≡ personal_plus_public)
        × Serves (codes "public") some_sources
        × Serves (codes "personal") some_sources)
workspace_query_scope_readiness-combined_iff_example =
    workspace_query_scope_readiness-combined_iff personal_plus_public some_sources

shown-Agrees_example :
    (((shown deleted_job).deleted ≡ true) ↔ (job_deleted ≡ job_deleted))
    × (((shown deleted_job).searchable ≡ true)
        ↔ ((job_deleted ≡ job_accepted) × (index_deleted ≡ index_searchable)))
    × (((shown deleted_job).stored_local ≡ true)
        ↔ ((codes "stored_local" ≡ codes "stored_local") × (job_deleted ≢ job_deleted)))
    × ((shown deleted_job).metadata_only ≡ not (shown deleted_job).stored_local)
shown-Agrees_example = shown-Agrees deleted_job
