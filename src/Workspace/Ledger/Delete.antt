-- ===== src/Workspace/Ledger/Delete.antt =====
-- Deleting the document of a job: deleteWorkspaceDocumentForJobLocked of internal/gateway/server.go.
use a21_stackchan_workmate.Base.{
  ℕ, Bool, false, List, [], ◌∷◌, ◌++◌, if◌then◌else◌, is_empty, Text, codes, trim_space, insert,
  lookup, update_all, text_eq, Option, none, some,
}
use a21_stackchan_workmate.Workspace.{UploadJob, JobFinding, index_deleted, deleted_ready}
use a21_stackchan_workmate.Workspace.Ledger.Types.{
  Document, document_deleted, IndexJob, deleted_metadata_only, StorePath, Ledger, remove_file,
}
use a21_stackchan_workmate.Workspace.Ledger.Create.{workspace_upload_job_redaction}
use a21_stackchan_workmate.Workspace.Ledger.Store.{workspace_document_path}

abbrev pub finding : Text → Text → JobFinding
finding code message = record { code = code; message = message }

abbrev pub deleted_local : Text
deleted_local = codes "deleted_local"

unfoldable pub tombstone_document : ℕ → Document → Document
tombstone_document now_ms d = record d {
  status = document_deleted;
  storage_status = deleted_local;
  index_status = index_deleted;
  readiness = deleted_ready;
  document_label = codes "deleted";
  content_type = [];
  size_bytes = 0;
  document_hash = [];
  updated_at_ms = now_ms;
  redaction = record {
    document_text_stored = false;
    document_bytes_stored = false;
    document_bytes_returned = false;
    original_filename_stored = false;
    base64_payload_stored = false;
    import_url_stored = false;
    local_path_stored = false;
    local_path_returned = false;
    credential_value_stored = false;
    provider_output_stored = false;
  };
  findings =
      d.findings
      ++ finding (codes "workspace_document_deleted")
          (codes "A21 deleted the local intake file and retained only a redacted tombstone")
        ∷ [];
}

unfoldable pub tombstone_index_job : ℕ → IndexJob → IndexJob
tombstone_index_job now_ms j = record j {
  status = deleted_metadata_only;
  index_status = index_deleted;
  storage_status = deleted_local;
  document_hash = [];
  document_label = codes "deleted";
  content_type = [];
  size_bytes = 0;
  updated_at_ms = now_ms;
  redaction = workspace_upload_job_redaction;
  findings =
      j.findings
      ++ finding (codes "workspace_index_job_deleted") (
          codes
            "A21 retained only a redacted index request tombstone after local document deletion")
        ∷ [];
}

-- The round of the range loop: only the index jobs of the document change.
unfoldable pub tombstone_if : Text → ℕ → IndexJob → IndexJob
tombstone_if document_id now_ms j =
    if text_eq j.document_id document_id then tombstone_index_job now_ms j else j

-- os.Remove, whose error is dropped: the file stays where it is not removed.
abbrev remove_path : Bool → Option StorePath → List StorePath → List StorePath
remove_path removed none files = files
remove_path removed (some path) files = if removed then remove_file path files else files

unfoldable pub tombstone_all : Bool → Document → ℕ → Ledger → Ledger
tombstone_all removed d now_ms l = record l {
  files = remove_path removed (workspace_document_path d) l.files;
  documents = insert d.document_id (tombstone_document now_ms d) l.documents;
  index_jobs = update_all (tombstone_if d.document_id now_ms) l.index_jobs;
}

unfoldable pub delete_document : Bool → Option Document → ℕ → Ledger → Ledger
unfolding tombstone_all
delete_document removed none now_ms l = l
delete_document removed (some d) now_ms l = tombstone_all removed d now_ms l

-- What deleteWorkspaceDocumentForJobLocked does to the tables, the files and the job, where `removed`
-- is whether os.Remove removes the file.
unfoldable pub delete_workspace_document_for_job :
    Bool → UploadJob → ℕ → Ledger → UploadJob × Ledger
unfolding delete_document
delete_workspace_document_for_job removed job now_ms l =
    if is_empty (trim_space job.document_id) then (job, l) else (
      record job {
        document_hash = [];
        storage_status = deleted_local;
        redaction = workspace_upload_job_redaction;
      },
      delete_document removed (lookup job.document_id l.documents) now_ms l,
    )
