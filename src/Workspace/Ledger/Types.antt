-- ===== src/Workspace/Ledger/Types.antt =====
-- The state of the workspace ledger (the workspace… fields of Server in internal/gateway/server.go),
-- the requests and the errors.
use a21_stackchan_workmate.Base.{
  ℕ, Bool, true, false, List, [], ◌∷◌, ◌++◌, ◌-◌, Option, none, some, if◌then◌else◌, ◌||◌, is_empty,
  Text, Table, lookup, insert, ℤ, text_eq, ◌&&◌,
}
use a21_stackchan_workmate.Workspace.{
  UploadJob, Source, IndexStatus, Readiness, Redaction, JobFinding,
}

pub data DocumentStatus : Type 0 where
  document_stored document_indexing document_deleted : DocumentStatus

pub record DocumentRedaction : Type 0 where
  pub document_text_stored : Bool
  pub document_bytes_stored : Bool
  pub document_bytes_returned : Bool
  pub original_filename_stored : Bool
  pub base64_payload_stored : Bool
  pub import_url_stored : Bool
  pub local_path_stored : Bool
  pub local_path_returned : Bool
  pub credential_value_stored : Bool
  pub provider_output_stored : Bool

pub record Document : Type 0 where
  pub document_id : Text
  pub source_id : Text
  pub job_id : Text
  pub user_id : Text
  pub workspace_id : Text
  pub source_scope : Text
  pub source_kind : Text
  pub document_label : Text
  pub content_type : Text
  pub size_bytes : ℕ
  pub document_hash : Text
  pub status : DocumentStatus
  pub storage_status : Text
  pub index_status : IndexStatus
  pub readiness : Readiness
  pub created_at_ms : ℕ
  pub updated_at_ms : ℕ
  pub trace_id : Text
  pub session_id : Text
  pub device_id : Text
  pub redaction : DocumentRedaction
  pub findings : List JobFinding

pub data IndexJobStatus : Type 0 where
  requested_no_execute deleted_metadata_only : IndexJobStatus

pub record IndexJob : Type 0 where
  pub index_job_id : Text
  pub document_id : Text
  pub source_id : Text
  pub job_id : Text
  pub document_hash : Text
  pub storage_status : Text
  pub user_id : Text
  pub workspace_id : Text
  pub source_scope : Text
  pub source_kind : Text
  pub document_label : Text
  pub content_type : Text
  pub size_bytes : ℕ
  pub status : IndexJobStatus
  pub index_status : IndexStatus
  pub created_at_ms : ℕ
  pub updated_at_ms : ℕ
  pub trace_id : Text
  pub session_id : Text
  pub device_id : Text
  pub v21_execution_allowed : Bool
  pub execution_started : Bool
  pub redaction : Redaction
  pub findings : List JobFinding

-- The parts of the path of a stored file below the store's directory; the file is named by its hash.
pub record StorePath : Type 0 where
  pub user_id : Text
  pub workspace_id : Text
  pub source_scope : Text
  pub hash : Text

pub record TraceEvent : Type 0 where
  pub name : Text
  pub session_id : Text
  pub device_id : Text
  pub at_ms : ℕ
  pub offset_ms : ℕ

pub record Ledger : Type 0 where
  pub user_id_config : Text
  pub workspace_config : Text
  pub query_scope_config : Text
  pub document_max_bytes : ℤ
  pub upload_jobs : Table UploadJob
  pub upload_job_seq : ℕ
  pub index_jobs : Table IndexJob
  pub index_job_seq : ℕ
  pub sources : Table Source
  pub source_seq : ℕ
  pub documents : Table Document
  pub document_seq : ℕ
  pub files : List StorePath
  pub traces : Table (List TraceEvent)

pub record UploadJobRequest : Type 0 where
  pub job_id : Text
  pub action : Text
  pub user_id : Text
  pub workspace_id : Text
  pub source_scope : Text
  pub source_kind : Text
  pub document_label : Text
  pub content_type : Text
  pub size_bytes : ℤ
  pub trace_id : Text
  pub session_id : Text
  pub device_id : Text

pub record DocumentUploadRequest : Type 0 where
  pub user_id : Text
  pub workspace_id : Text
  pub source_scope : Text
  pub document_label : Text
  pub content_type : Text
  pub trace_id : Text
  pub session_id : Text
  pub device_id : Text

pub record IndexJobRequest : Type 0 where
  pub document_id : Text
  pub job_id : Text
  pub source_id : Text
  pub trace_id : Text
  pub session_id : Text
  pub device_id : Text

pub data LedgerError : Type 0 where
  invalid_user_id invalid_workspace_id invalid_query_scope : LedgerError
  invalid_source_scope invalid_source_kind invalid_document_label : LedgerError
  invalid_content_type negative_size : LedgerError
  job_id_required job_not_found unknown_action : LedgerError
  storage_unavailable document_too_large : LedgerError
  invalid_document_id invalid_job_id invalid_source_id invalid_index_job_id : LedgerError
  target_required document_not_found not_stored_local : LedgerError
  store_metadata_unavailable store_file_unavailable : LedgerError

pub data Outcome {ℓ} (A : Type ℓ) : Type ℓ where
  done : A → Outcome A
  refused : LedgerError → Outcome A

infixl 5 ◌>>=◌
abbrev pub ◌>>=◌ {ℓ κ} : {A : Type ℓ} {B : Type κ} → Outcome A → (A → Outcome B) → Outcome B
refused why >>= next = refused why
done result >>= next = next result

infixl 5 ◌>>◌
abbrev pub ◌>>◌ {κ} : {B : Type κ} → Outcome (Unit {0}) → Outcome B → Outcome B
tested >> next = tested >>= λ _. next

-- if !test { return …, err }
abbrev pub demand : Bool → LedgerError → Outcome (Unit {0})
demand true why = done tt
demand false why = refused why

-- value, ok := …; if !ok { return …, err }
abbrev pub demand_some {ℓ} : {A : Type ℓ} → Option A → LedgerError → Outcome A
demand_some (some value) why = done value
demand_some none why = refused why

abbrev pub same_path : StorePath → StorePath → Bool
same_path p q =
    text_eq p.user_id q.user_id
    && text_eq p.workspace_id q.workspace_id
    && text_eq p.source_scope q.source_scope
    && text_eq p.hash q.hash

-- os.Stat, os.Remove, and os.Rename onto a path
unfoldable pub has_file : StorePath → List StorePath → Bool
has_file path [] = false
has_file path (p ∷ files) = same_path path p || has_file path files

unfoldable pub remove_file : StorePath → List StorePath → List StorePath
remove_file path [] = []
remove_file path (p ∷ files) =
    if same_path path p then remove_file path files else p ∷ remove_file path files

unfoldable pub put_file : StorePath → List StorePath → List StorePath
unfolding remove_file
put_file path files = path ∷ remove_file path files

abbrev offset_from : List TraceEvent → ℕ → ℕ
offset_from [] at_ms = 0
offset_from (first ∷ events) at_ms = at_ms - first.at_ms

abbrev events_of : Option (List TraceEvent) → List TraceEvent
events_of none = []
events_of (some events) = events

-- recordTrace
unfoldable pub record_trace : Text → Text → Text → Text → ℕ → Ledger → Ledger
record_trace trace_id session_id device_id name at_ms l =
    let events = events_of (lookup trace_id l.traces) in
    let event : TraceEvent = record {
      name = name;
      session_id = session_id;
      device_id = device_id;
      at_ms = at_ms;
      offset_ms = offset_from events at_ms;
    } in
    if is_empty trace_id || is_empty name
    then l
    else record l { traces = insert trace_id (events ++ event ∷ []) l.traces }
