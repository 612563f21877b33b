-- ===== src/Workspace/Ledger/Change.antt =====
-- Changing a job: applyWorkspaceUploadJobAction of internal/gateway/server.go.
use a21_stackchan_workmate.Base.{
  ℕ, suc, Bool, true, false, not, ◌&&◌, ◌||◌, [], ◌∷◌, ◌++◌, if◌then◌else◌, is_empty, Text, codes,
  trim_space, to_lower, insert, lookup, text_eq, Option, none, some, one_of,
}
use a21_stackchan_workmate.Workspace.{
  UploadJob, JobStatus, job_accepted, job_failed, job_stored, job_indexing, job_deleted,
  IndexStatus, index_not_started, index_failed, index_searchable, index_deleted,
  workspace_source_from_job, workspace_source_readiness_for_job,
}
use a21_stackchan_workmate.Workspace.Ledger.Types.{
  Ledger, UploadJobRequest, job_id_required, job_not_found, unknown_action, Outcome, done, ◌>>=◌,
  ◌>>◌, demand, demand_some, record_trace,
}
use a21_stackchan_workmate.Workspace.Ledger.Delete.{finding, delete_workspace_document_for_job}

-- A deletion comes with what the disk answers: whether os.Remove removes the file.
pub data Action : Type 0 where
  mark_failed mark_searchable retry : Action
  delete : Bool → Action

unfoldable pub action_of : Bool → Text → Option Action
action_of removed requested =
    let action = to_lower (trim_space requested) in
    if one_of action (codes "mark_failed" ∷ codes "fail" ∷ [])
    then some mark_failed
    else if one_of action (codes "mark_searchable" ∷ codes "mark_indexed_metadata_only" ∷ [])
    then some mark_searchable
    else if is_empty action || text_eq action (codes "retry")
    then some retry
    else if text_eq action (codes "delete")
    then some (delete removed)
    else none

unfoldable pub fail_job : ℕ → UploadJob → UploadJob
fail_job now_ms job = record job {
  status = job_failed;
  index_status = index_failed;
  updated_at_ms = now_ms;
  retry_allowed = true;
  delete_allowed = true;
  findings =
      job.findings
      ++ finding (codes "workspace_job_marked_failed") (
          codes
            "A21 marked the redacted workspace job failed without storing document text or bytes")
        ∷ [];
}

unfoldable pub searchable_job : ℕ → UploadJob → UploadJob
searchable_job now_ms job = record job {
  status = job_accepted;
  index_status = index_searchable;
  updated_at_ms = now_ms;
  retry_allowed = true;
  delete_allowed = true;
  findings =
      job.findings
      ++ finding (codes "workspace_source_searchable_metadata_only") (
          codes
            "A21 marked this redacted source searchable as metadata-only readiness; no indexing execution occurred")
        ∷ [];
}

unfoldable pub retry_job : ℕ → UploadJob → UploadJob
retry_job now_ms job = record job {
  status =
      if not (is_empty job.document_id) && text_eq job.storage_status (codes "stored_local")
      then job_stored
      else job_accepted;
  index_status = index_not_started;
  attempt = suc job.attempt;
  updated_at_ms = now_ms;
  retry_allowed = true;
  delete_allowed = true;
  findings =
      job.findings
      ++ finding (codes "workspace_job_retry_no_execute")
          (codes "A21 accepted a retry request but did not execute upload or indexing")
        ∷ [];
}

unfoldable pub delete_job : ℕ → UploadJob → UploadJob
delete_job now_ms job = record job {
  status = job_deleted;
  index_status = index_deleted;
  document_label = codes "deleted";
  content_type = [];
  size_bytes = 0;
  updated_at_ms = now_ms;
  retry_allowed = false;
  delete_allowed = false;
}

abbrev tombstone_job : UploadJob × Ledger → UploadJob × Ledger
tombstone_job (job, l) = (
  record job {
    findings =
        job.findings
        ++ finding (codes "workspace_job_deleted")
            (codes "A21 retained only a redacted deletion tombstone")
          ∷ [];
  },
  l,
)

unfoldable pub perform : Action → ℕ → UploadJob → Ledger → UploadJob × Ledger
unfolding fail_job searchable_job retry_job delete_job delete_workspace_document_for_job
perform mark_failed now_ms job l = (fail_job now_ms job, l)
perform mark_searchable now_ms job l = (searchable_job now_ms job, l)
perform retry now_ms job l = (retry_job now_ms job, l)
perform (delete removed) now_ms job l =
    let deleted = delete_job now_ms job in
    tombstone_job (
      if is_empty job.document_id
      then (deleted, l)
      else delete_workspace_document_for_job removed deleted now_ms l)

-- The changed job in its table, and the source that shows it.
unfoldable pub save_job : Text → UploadJob → Ledger → Ledger
save_job key job l = record l {
  upload_jobs = insert key job l.upload_jobs;
  sources =
      if is_empty job.source_id
      then l.sources
      else insert job.source_id
          (workspace_source_from_job job
            (workspace_source_readiness_for_job job.status job.index_status))
          l.sources;
}

abbrev status_name : JobStatus → Text
status_name job_accepted = codes "accepted_no_execute"
status_name job_failed = codes "failed"
status_name job_stored = codes "stored_local_pending_index"
status_name job_indexing = codes "indexing_requested_no_execute"
status_name job_deleted = codes "deleted"

abbrev pub trace_searchable : UploadJob → IndexStatus → ℕ → Ledger → Ledger
trace_searchable job index_searchable now_ms l =
    record_trace job.trace_id job.session_id job.device_id
      (codes "workspace.index_job.searchable_metadata_only") now_ms l
trace_searchable job _ now_ms l = l

unfoldable pub trace_change : UploadJob → ℕ → Ledger → Ledger
trace_change job now_ms l = trace_searchable job job.index_status now_ms (
    record_trace job.trace_id job.session_id job.device_id
      (codes "workspace.upload_job." ++ status_name job.status) now_ms l)

unfoldable pub change_job : Text → Action → ℕ → UploadJob → Ledger → Ledger
change_job key action now_ms job l =
    let (changed, after) = perform action now_ms job l in save_job key changed after

unfoldable pub apply_workspace_upload_job_action :
    Bool → UploadJobRequest → ℕ → Ledger → Outcome (Ledger × Text)
apply_workspace_upload_job_action removed req now_ms l = do
  let job_id = trim_space req.job_id
  demand (not (is_empty job_id)) job_id_required
  job ← demand_some (lookup job_id l.upload_jobs) job_not_found
  action ← demand_some (action_of removed req.action) unknown_action
  let changed = (perform action now_ms job l).0
  done (trace_change changed now_ms (change_job job_id action now_ms job l), job_id)
