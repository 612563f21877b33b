-- ===== src/Workspace/Ledger/Store.antt =====
-- Storing an uploaded document: storeWorkspaceDocumentUpload, storeWorkspaceDocumentFile and
-- workspaceDocumentPath of internal/gateway/server.go. The path of a stored file is kept by its
-- parts. What the disk answers and the SHA-256 of the bytes are arguments.
use a21_stackchan_workmate.Base.{
  trim_prefix, ℕ, zero, suc, Bool, true, false, not, ◌&&◌, ◌||◌, List, [], ◌∷◌, ◌++◌, if◌then◌else◌,
  length, take, is_empty, ltb, leb, ◌==◌, Text, codes, trim_space, insert, ℤ, pos, negsuc,
  all_runes, is_digit, Option, none, some,
}
use a21_stackchan_workmate.Workspace.{
  UploadJob, JobFinding, job_stored, index_not_started, stored_ready, workspace_source_from_job,
  valid_workspace_source_scope,
}
use a21_stackchan_workmate.Workspace.Ledger.Labels.{
  default_workspace_source_scope, safe_workspace_document_label, safe_workspace_content_type,
  safe_optional_workspace_label,
}
use a21_stackchan_workmate.Workspace.Ledger.Types.{
  Document, document_stored, StorePath, Ledger, DocumentUploadRequest, invalid_source_scope,
  invalid_document_label, storage_unavailable, document_too_large, Outcome, done, ◌>>=◌, ◌>>◌,
  demand, put_file,
}
use a21_stackchan_workmate.Workspace.Ledger.Create.{
  Owner, Intake, resolve_professional_workspace, job_id_of, source_id_of, document_id_of,
  workspace_upload_job_stored_document_redaction, workspace_document_stored_redaction, trace_all,
}

-- What the disk answers while a file is stored.
pub record Disk : Type 0 where
  pub copied : Bool
  pub renamed : Bool

abbrev default_workspace_document_max_bytes : ℕ
default_workspace_document_max_bytes = 16777216

abbrev pub max_bytes_of : ℤ → ℕ
max_bytes_of (pos zero) = default_workspace_document_max_bytes
max_bytes_of (pos (suc n)) = suc n
max_bytes_of (negsuc n) = default_workspace_document_max_bytes

pub record StoredFile : Type 0 where
  pub hash : Text
  pub size_bytes : ℕ
  pub files : List StorePath

abbrev pub path_of : Owner → Text → Text → StorePath
path_of owner source_scope hash = record {
  user_id = owner.user_id;
  workspace_id = owner.workspace_id;
  source_scope = source_scope;
  hash = hash;
}

abbrev hex_rune : ℕ → Bool
hex_rune r = is_digit r || (leb b'a' r && leb r b'f')

unfoldable pub valid_workspace_document_sha256 : Text → Bool
valid_workspace_document_sha256 hash = length hash == 64 && all_runes hex_rune hash

abbrev pub sha256_prefix : Text
sha256_prefix = codes "sha256:"

unfoldable pub workspace_document_path : Document → Option StorePath
unfolding trim_prefix valid_workspace_document_sha256
workspace_document_path d =
    let hash = trim_prefix (trim_space d.document_hash) sha256_prefix in
    let path : StorePath = record {
      user_id = d.user_id;
      workspace_id = d.workspace_id;
      source_scope = d.source_scope;
      hash = hash;
    } in
    if valid_workspace_document_sha256 hash then some path else none

abbrev stored_finding : JobFinding
stored_finding = record {
  code = codes "workspace_document_stored_local_pending_index";
  message =
      codes
        "A21 stored the upload in the local workspace intake store; indexing and V21 execution remain disabled";
}

unfoldable pub stored_job : Intake → Text → ℕ → ℕ → ℕ → ℕ → UploadJob
stored_job i hash document_seq job_seq source_seq now_ms = record {
  job_id = job_id_of job_seq;
  source_id = source_id_of source_seq;
  document_id = document_id_of document_seq;
  document_hash = sha256_prefix ++ hash;
  storage_status = codes "stored_local";
  user_id = i.owner.user_id;
  workspace_id = i.owner.workspace_id;
  source_scope = i.source_scope;
  source_kind = i.source_kind;
  document_label = i.document_label;
  content_type = i.content_type;
  size_bytes = i.size_bytes;
  status = job_stored;
  index_status = index_not_started;
  attempt = 1;
  created_at_ms = now_ms;
  updated_at_ms = now_ms;
  trace_id = i.trace_id;
  session_id = i.session_id;
  device_id = i.device_id;
  upload_api_ready = true;
  import_api_ready = false;
  indexing_api_ready = false;
  execution_started = false;
  retry_allowed = true;
  delete_allowed = true;
  redaction = workspace_upload_job_stored_document_redaction;
  findings = stored_finding ∷ [];
}

unfoldable pub stored_document : Intake → Text → ℕ → ℕ → ℕ → ℕ → Document
stored_document i hash document_seq job_seq source_seq now_ms = record {
  document_id = document_id_of document_seq;
  source_id = source_id_of source_seq;
  job_id = job_id_of job_seq;
  user_id = i.owner.user_id;
  workspace_id = i.owner.workspace_id;
  source_scope = i.source_scope;
  source_kind = i.source_kind;
  document_label = i.document_label;
  content_type = i.content_type;
  size_bytes = i.size_bytes;
  document_hash = sha256_prefix ++ hash;
  status = document_stored;
  storage_status = codes "stored_local";
  index_status = index_not_started;
  readiness = stored_ready;
  created_at_ms = now_ms;
  updated_at_ms = now_ms;
  trace_id = i.trace_id;
  session_id = i.session_id;
  device_id = i.device_id;
  redaction = workspace_document_stored_redaction;
  findings = stored_finding ∷ [];
}

-- The document, its job and its source stand in the tables, and the file is on the disk.
unfoldable pub enter_document : Intake → Text → List StorePath → ℕ → Ledger → Ledger
enter_document i hash files now_ms l =
    let job =
      stored_job i hash (suc l.document_seq) (suc l.upload_job_seq) (suc l.source_seq) now_ms in
    let document =
      stored_document i hash (suc l.document_seq) (suc l.upload_job_seq) (suc l.source_seq)
        now_ms in
    record l {
      document_seq = suc l.document_seq;
      upload_job_seq = suc l.upload_job_seq;
      source_seq = suc l.source_seq;
      documents = insert document.document_id document l.documents;
      upload_jobs = insert job.job_id job l.upload_jobs;
      sources = insert job.source_id (workspace_source_from_job job stored_ready) l.sources;
      files = files;
    }

pub record Upload : Type 0 where
  pub request : DocumentUploadRequest
  pub header_content_type : Text
  pub content : List ℕ
  pub disk : Disk

abbrev content_type_of : Text → Text → Text
content_type_of requested header =
    let given = safe_workspace_content_type requested in
    let carried = safe_workspace_content_type header in
    if is_empty given
    then if is_empty carried then codes "application/octet-stream" else carried
    else given

pub record CheckedUpload : Type 0 where
  pub intake : Intake
  pub file : StoredFile

module _ (sha256 : List ℕ → Text) where
  -- At most max_bytes + 1 bytes are read; an empty file counts as a failure of the store.
  unfoldable pub store_workspace_document_file :
      Owner → Text → Disk → List ℕ → ℕ → List StorePath → Outcome StoredFile
  store_workspace_document_file owner source_scope disk content max_bytes files = do
    let written = take (suc max_bytes) content
    demand disk.copied storage_unavailable
    demand (not (is_empty written)) storage_unavailable
    demand (not (ltb max_bytes (length written))) document_too_large
    demand disk.renamed storage_unavailable
    done (record {
      hash = sha256 written;
      size_bytes = length written;
      files = put_file (path_of owner source_scope (sha256 written)) files;
    })

  unfoldable pub check_document_upload : Upload → Ledger → Outcome CheckedUpload
  unfolding store_workspace_document_file
  check_document_upload u l = do
    let req = u.request
    owner ← resolve_professional_workspace req.user_id req.workspace_id [] l
    let source_scope = default_workspace_source_scope req.source_scope
    demand (valid_workspace_source_scope source_scope) invalid_source_scope
    let document_label = safe_workspace_document_label req.document_label
    demand (not (is_empty document_label)) invalid_document_label
    file ←
        store_workspace_document_file owner source_scope u.disk u.content
          (max_bytes_of l.document_max_bytes) l.files
    done (record {
      intake = record {
        owner = owner;
        source_scope = source_scope;
        source_kind = codes "upload";
        document_label = document_label;
        content_type = content_type_of req.content_type u.header_content_type;
        size_bytes = file.size_bytes;
        trace_id = safe_optional_workspace_label req.trace_id;
        session_id = safe_optional_workspace_label req.session_id;
        device_id = safe_optional_workspace_label req.device_id;
      };
      file = file;
    })

  unfoldable pub store_workspace_document_upload : Upload → ℕ → Ledger → Outcome (Ledger × Text)
  store_workspace_document_upload u now_ms l = do
    c ← check_document_upload u l
    let names : List Text =
        codes "workspace.document.stored_local"
        ∷ codes "workspace.source.stored_local_pending_index"
        ∷ codes "workspace.index_job.not_started_no_execute"
        ∷ []
    let i = c.intake
    done (
      trace_all names i.trace_id i.session_id i.device_id now_ms
          (enter_document i c.file.hash c.file.files now_ms l),
      document_id_of (suc l.document_seq),
    )
