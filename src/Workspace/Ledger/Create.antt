-- ===== src/Workspace/Ledger/Create.antt =====
-- Creating an upload job: resolveProfessionalWorkspaceNoLock and createWorkspaceUploadJob of
-- internal/gateway/server.go.
use a21_stackchan_workmate.Base.{
  ℕ, suc, Bool, true, false, not, ◌||◌, List, [], ◌∷◌, if◌then◌else◌, is_empty, Text, codes,
  trim_space, to_lower, insert, numbered, ℤ, pos, negsuc, below,
}
use a21_stackchan_workmate.Adapter.{valid_professional_label}
use a21_stackchan_workmate.Workspace.{
  UploadJob, Redaction, JobFinding, job_accepted, index_not_started, metadata_ready,
  workspace_source_from_job, valid_workspace_source_scope,
}
use a21_stackchan_workmate.Workspace.Query.{valid_query_scope, default_professional_query_scope}
use a21_stackchan_workmate.Workspace.Ledger.Labels.{
  default_workspace_source_scope, default_workspace_source_kind, valid_workspace_source_kind,
  safe_workspace_document_label, safe_workspace_content_type, safe_optional_workspace_label,
}
use a21_stackchan_workmate.Workspace.Ledger.Types.{
  DocumentRedaction, Ledger, UploadJobRequest, invalid_user_id, invalid_workspace_id,
  invalid_query_scope, invalid_source_scope, invalid_source_kind, invalid_document_label,
  invalid_content_type, negative_size, Outcome, done, ◌>>=◌, ◌>>◌, demand, record_trace,
}

unfoldable pub default_professional_label : Text → Text → Text
default_professional_label value fallback =
    let lowered = to_lower (trim_space value) in
    if valid_professional_label lowered then lowered else fallback

pub record Owner : Type 0 where
  pub user_id : Text
  pub workspace_id : Text
  pub query_scope : Text

unfoldable pub override_label : Text → Text → Bool
override_label override lowered = is_empty (trim_space override) || valid_professional_label lowered

abbrev pub choose : Text → Text → Text → Text
choose override lowered configured = if is_empty (trim_space override) then configured else lowered

unfoldable pub resolve_professional_workspace : Text → Text → Text → Ledger → Outcome Owner
resolve_professional_workspace user workspace scope l = do
  let user_id = to_lower (trim_space user)
  let workspace_id = to_lower (trim_space workspace)
  let query_scope = to_lower (trim_space scope)
  demand (override_label user user_id) invalid_user_id
  demand (override_label workspace workspace_id) invalid_workspace_id
  demand (is_empty (trim_space scope) || valid_query_scope query_scope) invalid_query_scope
  done (record {
    user_id =
        choose user user_id (default_professional_label l.user_id_config (codes "a21_local_user"));
    workspace_id =
        choose workspace workspace_id
          (default_professional_label l.workspace_config (codes "a21_local_workspace"));
    query_scope = choose scope query_scope (default_professional_query_scope l.query_scope_config);
  })

abbrev pub job_id_of : ℕ → Text
job_id_of = numbered (codes "a21-workspace-job-")

abbrev pub source_id_of : ℕ → Text
source_id_of = numbered (codes "a21-workspace-source-")

abbrev pub document_id_of : ℕ → Text
document_id_of = numbered (codes "a21-workspace-document-")

abbrev pub workspace_upload_job_redaction : Redaction
workspace_upload_job_redaction = record {
  document_text_stored = false;
  document_bytes_stored = false;
  base64_payload_stored = false;
  import_url_stored = false;
  local_path_stored = false;
  credential_value_stored = false;
  provider_output_stored = false;
}

abbrev pub workspace_upload_job_stored_document_redaction : Redaction
workspace_upload_job_stored_document_redaction = record workspace_upload_job_redaction {
  document_bytes_stored = true;
}

abbrev pub workspace_document_stored_redaction : DocumentRedaction
workspace_document_stored_redaction = record {
  document_text_stored = false;
  document_bytes_stored = true;
  document_bytes_returned = false;
  original_filename_stored = false;
  base64_payload_stored = false;
  import_url_stored = false;
  local_path_stored = false;
  local_path_returned = false;
  credential_value_stored = false;
  provider_output_stored = false;
}

abbrev no_execute_finding : JobFinding
no_execute_finding = record {
  code = codes "workspace_job_no_execute";
  message =
      codes
        "A21 accepted only redacted workspace job metadata; upload bytes and indexing execution are not implemented in this slice";
}

-- What a checked request says of the job that it makes.
pub record Intake : Type 0 where
  pub owner : Owner
  pub source_scope : Text
  pub source_kind : Text
  pub document_label : Text
  pub content_type : Text
  pub size_bytes : ℕ
  pub trace_id : Text
  pub session_id : Text
  pub device_id : Text

unfoldable pub accepted_job : Intake → ℕ → ℕ → ℕ → UploadJob
accepted_job i job_seq source_seq now_ms = record {
  job_id = job_id_of job_seq;
  source_id = source_id_of source_seq;
  document_id = [];
  document_hash = [];
  storage_status = [];
  user_id = i.owner.user_id;
  workspace_id = i.owner.workspace_id;
  source_scope = i.source_scope;
  source_kind = i.source_kind;
  document_label = i.document_label;
  content_type = i.content_type;
  size_bytes = i.size_bytes;
  status = job_accepted;
  index_status = index_not_started;
  attempt = 1;
  created_at_ms = now_ms;
  updated_at_ms = now_ms;
  trace_id = i.trace_id;
  session_id = i.session_id;
  device_id = i.device_id;
  upload_api_ready = true;
  import_api_ready = true;
  indexing_api_ready = false;
  execution_started = false;
  retry_allowed = true;
  delete_allowed = true;
  redaction = workspace_upload_job_redaction;
  findings = no_execute_finding ∷ [];
}

abbrev size_of : ℤ → ℕ
size_of (pos n) = n
size_of (negsuc n) = 0

unfoldable pub check_upload_job : UploadJobRequest → Ledger → Outcome Intake
check_upload_job req l = do
  owner ← resolve_professional_workspace req.user_id req.workspace_id [] l
  let source_scope = default_workspace_source_scope req.source_scope
  demand (valid_workspace_source_scope source_scope) invalid_source_scope
  let source_kind = default_workspace_source_kind req.source_kind
  demand (valid_workspace_source_kind source_kind) invalid_source_kind
  let document_label = safe_workspace_document_label req.document_label
  demand (not (is_empty document_label)) invalid_document_label
  let content_type = safe_workspace_content_type req.content_type
  demand (is_empty (trim_space req.content_type) || not (is_empty content_type))
      invalid_content_type
  demand (not (below req.size_bytes 0)) negative_size
  done (record {
    owner = owner;
    source_scope = source_scope;
    source_kind = source_kind;
    document_label = document_label;
    content_type = content_type;
    size_bytes = size_of req.size_bytes;
    trace_id = safe_optional_workspace_label req.trace_id;
    session_id = safe_optional_workspace_label req.session_id;
    device_id = safe_optional_workspace_label req.device_id;
  })

-- The job and its source stand in the tables, without the marks of the trace.
unfoldable pub enter_upload_job : Intake → ℕ → Ledger → Ledger
enter_upload_job i now_ms l =
    let job = accepted_job i (suc l.upload_job_seq) (suc l.source_seq) now_ms in
    record l {
      upload_job_seq = suc l.upload_job_seq;
      source_seq = suc l.source_seq;
      upload_jobs = insert job.job_id job l.upload_jobs;
      sources = insert job.source_id (workspace_source_from_job job metadata_ready) l.sources;
    }

unfoldable pub trace_all : List Text → Text → Text → Text → ℕ → Ledger → Ledger
trace_all [] trace_id session_id device_id at_ms l = l
trace_all (name ∷ names) trace_id session_id device_id at_ms l =
    trace_all names trace_id session_id device_id at_ms
      (record_trace trace_id session_id device_id name at_ms l)

unfoldable pub create_workspace_upload_job : UploadJobRequest → ℕ → Ledger → Outcome (Ledger × Text)
create_workspace_upload_job req now_ms l = do
  i ← check_upload_job req l
  let names : List Text =
      codes "workspace.upload_job.accepted_no_execute"
      ∷ codes "workspace.index_job.not_started_no_execute"
      ∷ codes "workspace.source.created_metadata_only"
      ∷ []
  done (
    trace_all names i.trace_id i.session_id i.device_id now_ms (enter_upload_job i now_ms l),
    job_id_of (suc l.upload_job_seq),
  )
