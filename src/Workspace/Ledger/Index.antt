-- ===== src/Workspace/Ledger/Index.antt =====
-- Asking for a stored document to be indexed: resolveWorkspaceIndexTargetLocked and
-- createWorkspaceIndexJob of internal/gateway/server.go. The contract version of the index job is a
-- constant of the code and is left out.
use a21_stackchan_workmate.Base.{
  ℕ, suc, Bool, true, false, not, ◌&&◌, ◌||◌, List, [], ◌∷◌, ◌++◌, if◌then◌else◌, is_empty, Text,
  codes, trim_space, insert, lookup, text_eq, Option, none, some, numbered,
}
use a21_stackchan_workmate.Workspace.{
  UploadJob, JobFinding, JobStatus, job_indexing, job_deleted, Source, index_requested,
  indexing_ready, workspace_source_from_job,
}
use a21_stackchan_workmate.Workspace.Ledger.Labels.{
  normalize_workspace_ledger_id, safe_optional_workspace_label,
}
use a21_stackchan_workmate.Workspace.Ledger.Types.{
  Document, DocumentStatus, document_indexing, document_deleted, IndexJob, requested_no_execute,
  Ledger, IndexJobRequest, invalid_document_id, invalid_job_id, invalid_source_id, target_required,
  document_not_found, job_not_found, not_stored_local, store_metadata_unavailable,
  store_file_unavailable, Outcome, done, refused, ◌>>=◌, ◌>>◌, demand, demand_some, has_file,
}
use a21_stackchan_workmate.Workspace.Ledger.Create.{
  workspace_upload_job_stored_document_redaction, trace_all,
}
use a21_stackchan_workmate.Workspace.Ledger.Store.{workspace_document_path}

pub record IndexTarget : Type 0 where
  pub document : Document
  pub job : UploadJob

-- The id of a record's document, where the record stands and names one.
abbrev named_document : Option Text → Outcome Text
named_document none = refused document_not_found
named_document (some document_id) =
    if is_empty (trim_space document_id) then refused document_not_found else done document_id

unfoldable pub document_id_of_job : Option UploadJob → Option Text
document_id_of_job none = none
document_id_of_job (some job) = some job.document_id

unfoldable pub document_id_of_source : Option Source → Option Text
document_id_of_source none = none
document_id_of_source (some source) = some source.document_id

-- documentID is filled in from the record with the given key, where it is still empty.
abbrev fill : Text → Text → Option Text → Outcome Text
fill document_id key found =
    if is_empty document_id && not (is_empty key) then named_document found else done document_id

unfoldable pub target_document_id : Text → Text → Text → Ledger → Outcome Text
unfolding document_id_of_job document_id_of_source
target_document_id document_id job_id source_id l = do
  by_job ← fill document_id job_id (document_id_of_job (lookup job_id l.upload_jobs))
  fill by_job source_id (document_id_of_source (lookup source_id l.sources))

abbrev matches : Text → Text → Bool
matches asked actual = is_empty asked || text_eq actual asked

-- The tables are read under the id of the document; the ids that were asked for have to agree.
unfoldable pub find_target : Text → Text → Text → Ledger → Outcome IndexTarget
find_target document_id job_id source_id l = do
  document ← demand_some (lookup document_id l.documents) document_not_found
  demand (matches job_id document.job_id) document_not_found
  demand (matches source_id document.source_id) document_not_found
  job ← demand_some (lookup document.job_id l.upload_jobs) job_not_found
  done (record { document = document; job = job })

unfoldable pub resolve_ids : Text → Text → Text → Ledger → Outcome IndexTarget
resolve_ids asked_document job_id source_id l = do
  document_id ← target_document_id asked_document job_id source_id l
  demand (not (is_empty document_id)) target_required
  find_target document_id job_id source_id l

-- The source that the code returns besides is not used by its only caller.
unfoldable pub resolve_workspace_index_target : IndexJobRequest → Ledger → Outcome IndexTarget
resolve_workspace_index_target req l = do
  asked_document ← demand_some (normalize_workspace_ledger_id req.document_id) invalid_document_id
  job_id ← demand_some (normalize_workspace_ledger_id req.job_id) invalid_job_id
  source_id ← demand_some (normalize_workspace_ledger_id req.source_id) invalid_source_id
  resolve_ids asked_document job_id source_id l

abbrev is_deleted_document : DocumentStatus → Bool
is_deleted_document document_deleted = true
is_deleted_document _ = false

abbrev is_deleted_job : JobStatus → Bool
is_deleted_job job_deleted = true
is_deleted_job _ = false

abbrev pub stored_local : Text
stored_local = codes "stored_local"

unfoldable pub can_index : IndexTarget → Bool
can_index t = not (
    is_deleted_document t.document.status
    || is_deleted_job t.job.status
    || not (text_eq t.document.storage_status stored_local)
    || not (text_eq t.job.storage_status stored_local))

abbrev requested_finding : JobFinding
requested_finding = record {
  code = codes "workspace_index_requested_no_execute";
  message =
      codes
        "A21 recorded an indexing request for a stored-local document; parsing, embedding, upload, and V21 execution remain disabled";
}

-- The trace, session and device of the request, each the document's where it is empty.
pub record Origin : Type 0 where
  pub trace_id : Text
  pub session_id : Text
  pub device_id : Text

abbrev or_else : Text → Text → Text
or_else given fallback = if is_empty given then fallback else given

unfoldable pub origin_of : IndexJobRequest → Document → Origin
origin_of req d = record {
  trace_id = or_else (safe_optional_workspace_label req.trace_id) d.trace_id;
  session_id = or_else (safe_optional_workspace_label req.session_id) d.session_id;
  device_id = or_else (safe_optional_workspace_label req.device_id) d.device_id;
}

unfoldable pub indexing_document : Origin → ℕ → Document → Document
indexing_document o now_ms d = record d {
  status = document_indexing;
  index_status = index_requested;
  readiness = indexing_ready;
  updated_at_ms = now_ms;
  trace_id = o.trace_id;
  session_id = o.session_id;
  device_id = o.device_id;
  findings = d.findings ++ requested_finding ∷ [];
}

unfoldable pub indexing_job : Origin → ℕ → UploadJob → UploadJob
indexing_job o now_ms job = record job {
  status = job_indexing;
  index_status = index_requested;
  indexing_api_ready = true;
  execution_started = false;
  updated_at_ms = now_ms;
  trace_id = o.trace_id;
  session_id = o.session_id;
  device_id = o.device_id;
  findings = job.findings ++ requested_finding ∷ [];
}

abbrev pub index_job_id_of : ℕ → Text
index_job_id_of = numbered (codes "a21-workspace-index-job-")

unfoldable pub new_index_job : Origin → Document → ℕ → ℕ → IndexJob
new_index_job o d index_job_seq now_ms = record {
  index_job_id = index_job_id_of index_job_seq;
  document_id = d.document_id;
  source_id = d.source_id;
  job_id = d.job_id;
  document_hash = d.document_hash;
  storage_status = d.storage_status;
  user_id = d.user_id;
  workspace_id = d.workspace_id;
  source_scope = d.source_scope;
  source_kind = d.source_kind;
  document_label = d.document_label;
  content_type = d.content_type;
  size_bytes = d.size_bytes;
  status = requested_no_execute;
  index_status = index_requested;
  created_at_ms = now_ms;
  updated_at_ms = now_ms;
  trace_id = o.trace_id;
  session_id = o.session_id;
  device_id = o.device_id;
  v21_execution_allowed = false;
  execution_started = false;
  redaction = workspace_upload_job_stored_document_redaction;
  findings = requested_finding ∷ [];
}

unfoldable pub enter_index_job : Origin → IndexTarget → ℕ → Ledger → Ledger
enter_index_job o t now_ms l =
    let document = indexing_document o now_ms t.document in
    let job = indexing_job o now_ms t.job in
    let source = workspace_source_from_job job indexing_ready in
    record l {
      index_job_seq = suc l.index_job_seq;
      documents = insert document.document_id document l.documents;
      upload_jobs = insert job.job_id job l.upload_jobs;
      sources = insert source.source_id source l.sources;
      index_jobs =
          insert (index_job_id_of (suc l.index_job_seq))
            (new_index_job o document (suc l.index_job_seq) now_ms) l.index_jobs;
    }

unfoldable pub check_index_job : IndexJobRequest → Ledger → Outcome IndexTarget
unfolding can_index
check_index_job req l = do
  target ← resolve_workspace_index_target req l
  demand (can_index target) not_stored_local
  path ← demand_some (workspace_document_path target.document) store_metadata_unavailable
  demand (has_file path l.files) store_file_unavailable
  done target

unfoldable pub create_workspace_index_job : IndexJobRequest → ℕ → Ledger → Outcome (Ledger × Text)
create_workspace_index_job req now_ms l = do
  target ← check_index_job req l
  let o = origin_of req target.document
  let names : List Text =
      codes "workspace.index_job.requested_no_execute"
      ∷ codes "workspace.source.indexing_requested_no_execute"
      ∷ []
  done (
    trace_all names o.trace_id o.session_id o.device_id now_ms (enter_index_job o target now_ms l),
    index_job_id_of (suc l.index_job_seq),
  )
