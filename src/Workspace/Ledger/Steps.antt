-- ===== src/Workspace/Ledger/Steps.antt =====
-- The steps of the ledger, by cases: what a property has to survive so that every request keeps it.
use a21_stackchan_workmate.Base.{
  ℕ, ◌≡◌, refl, inl, inr, List, [], ◌∷◌, ◌||◌, is_empty, trim_space, Bool, Bool-cases, Text, Table,
  lookup, some, Option-cases, ◌⊎◌,
}
use a21_stackchan_workmate.Workspace.{UploadJob, index_searchable, IndexStatus}
use a21_stackchan_workmate.Workspace.Ledger.{
  TraceEvent, Ledger, Outcome, done, refused, LedgerError, UploadJobRequest, IndexJobRequest,
  record_trace, trace_all, trace_change, trace_searchable, Intake, check_upload_job,
  enter_upload_job, create_workspace_upload_job, Upload, CheckedUpload, check_document_upload,
  enter_document, store_workspace_document_upload, Action, change_job,
  apply_workspace_upload_job_action, IndexTarget, check_index_job, origin_of, enter_index_job,
  create_workspace_index_job, Request, create_job, change, upload, index, after, handle, run,
  action_of,
}

pub Outcome-cases {ℓ} :
    {A : Type ℓ} (o : Outcome A) → ((a : A) × (o ≡ done a)) ⊎ ((e : LedgerError) × (o ≡ refused e))
Outcome-cases (done a) = inl (a, refl)
Outcome-cases (refused e) = inr (e, refl)

-- A property that the marks of the trace do not touch.
module _ {ℓ} (P : Ledger → Type ℓ)
    (untraced : (l : Ledger) (t : Table (List TraceEvent))
      → P l
      → P (record l { traces = t })) where
  keep-record_trace :
      (trace_id session_id device_id name : Text) (now_ms : ℕ) (l : Ledger)
      → P l
      → P (record_trace trace_id session_id device_id name now_ms l)
  unfolding record_trace
  keep-record_trace trace_id session_id device_id name now_ms l p =
      elim (Bool-cases (is_empty trace_id || is_empty name)) [
        | inl e ↦ rw e p
        | inr e ↦ rw e (untraced l _ p)
      ]

  keep-trace_all :
      (names : List Text) (trace_id session_id device_id : Text) (now_ms : ℕ) (l : Ledger)
      → P l
      → P (trace_all names trace_id session_id device_id now_ms l)
  unfolding trace_all
  keep-trace_all [] trace_id session_id device_id now_ms l p = p
  keep-trace_all (name ∷ names) trace_id session_id device_id now_ms l p =
      keep-trace_all names trace_id session_id device_id now_ms _
        (keep-record_trace trace_id session_id device_id name now_ms l p)

  keep-trace_searchable :
      (job : UploadJob) (i : IndexStatus) (now_ms : ℕ) (l : Ledger)
      → P l
      → P (trace_searchable job i now_ms l)
  keep-trace_searchable job index_searchable now_ms l p =
      keep-record_trace job.trace_id job.session_id job.device_id _ now_ms l p
  keep-trace_searchable job _ now_ms l p = p

  pub keep-trace_change :
      (job : UploadJob) (now_ms : ℕ) (l : Ledger) → P l → P (trace_change job now_ms l)
  unfolding trace_change
  keep-trace_change job now_ms l p =
      keep-trace_searchable job job.index_status now_ms _
        (keep-record_trace job.trace_id job.session_id job.device_id _ now_ms l p)

  keep-create :
      (req : UploadJobRequest) (now_ms : ℕ) (l : Ledger)
      → P l
      → ((i : Intake) → check_upload_job req l ≡ done i → P (enter_upload_job i now_ms l))
      → P (after l (create_workspace_upload_job req now_ms l))
  unfolding create_workspace_upload_job
  keep-create req now_ms l p entered = elim (Outcome-cases (check_upload_job req l)) [
    | inl (i, e) ↦
        rw e (keep-trace_all _ i.trace_id i.session_id i.device_id now_ms _ (entered i e))
    | inr (why, e) ↦ rw e p
  ]

  keep-upload :
      (sha256 : List ℕ → Text) (u : Upload) (now_ms : ℕ) (l : Ledger)
      → P l
      → ((c : CheckedUpload)
          → check_document_upload sha256 u l ≡ done c
          → P (enter_document c.intake c.file.hash c.file.files now_ms l))
      → P (after l (store_workspace_document_upload sha256 u now_ms l))
  unfolding store_workspace_document_upload
  keep-upload sha256 u now_ms l p entered =
      elim (Outcome-cases (check_document_upload sha256 u l)) [
        | inl (c, e) ↦ rw e (
            keep-trace_all _ c.intake.trace_id c.intake.session_id c.intake.device_id now_ms _
              (entered c e))
        | inr (why, e) ↦ rw e p
      ]

  keep-index :
      (req : IndexJobRequest) (now_ms : ℕ) (l : Ledger)
      → P l
      → ((t : IndexTarget)
          → check_index_job req l ≡ done t
          → P (enter_index_job (origin_of req t.document) t now_ms l))
      → P (after l (create_workspace_index_job req now_ms l))
  unfolding create_workspace_index_job
  keep-index req now_ms l p entered = elim (Outcome-cases (check_index_job req l)) [
    | inl (t, e) ↦ rw e (
        keep-trace_all _ (origin_of req t.document).trace_id (origin_of req t.document).session_id
          (origin_of req t.document).device_id now_ms _ (entered t e))
    | inr (why, e) ↦ rw e p
  ]

  keep-change :
      (removed : Bool) (req : UploadJobRequest) (now_ms : ℕ) (l : Ledger)
      → P l
      → ((key : Text) (job : UploadJob) (action : Action)
          → lookup key l.upload_jobs ≡ some job
          → P (change_job key action now_ms job l))
      → P (after l (apply_workspace_upload_job_action removed req now_ms l))
  unfolding apply_workspace_upload_job_action
  keep-change removed req now_ms l p changed =
      elim (Bool-cases (is_empty (trim_space req.job_id))) [
        | inl e ↦ rw e p
        | inr e ↦ rw e (elim (Option-cases (lookup (trim_space req.job_id) l.upload_jobs)) [
          | inl missing ↦ rw missing p
          | inr (job, found) ↦ rw found (elim (Option-cases (action_of removed req.action)) [
            | inl unknown ↦ rw unknown p
            | inr (action, known) ↦
                rw known (keep-trace_change _ now_ms _ (changed _ job action found))
          ])
        ])
      ]

-- What a property has to survive: one field to a request that is not refused, and the trace.
pub record Survives {ℓ} (sha256 : List ℕ → Text) (P : Ledger → Type ℓ) : Type ℓ where
  pub untraced : (l : Ledger) (t : Table (List TraceEvent)) → P l → P (record l { traces = t })
  pub created :
      (req : UploadJobRequest) (now_ms : ℕ) (l : Ledger) (i : Intake)
      → P l
      → check_upload_job req l ≡ done i
      → P (enter_upload_job i now_ms l)
  pub uploaded :
      (u : Upload) (now_ms : ℕ) (l : Ledger) (c : CheckedUpload)
      → P l
      → check_document_upload sha256 u l ≡ done c
      → P (enter_document c.intake c.file.hash c.file.files now_ms l)
  pub changed :
      (key : Text) (action : Action) (now_ms : ℕ) (job : UploadJob) (l : Ledger)
      → P l
      → lookup key l.upload_jobs ≡ some job
      → P (change_job key action now_ms job l)
  pub indexed :
      (req : IndexJobRequest) (now_ms : ℕ) (l : Ledger) (t : IndexTarget)
      → P l
      → check_index_job req l ≡ done t
      → P (enter_index_job (origin_of req t.document) t now_ms l)

module _ {ℓ} (sha256 : List ℕ → Text) (P : Ledger → Type ℓ) (s : Survives sha256 P) where
  pub keep-handle :
      (request : Request) (now_ms : ℕ) (l : Ledger)
      → P l
      → P (after l (handle sha256 request now_ms l))
  unfolding handle
  keep-handle (create_job req) now_ms l p =
      keep-create P s.untraced req now_ms l p (λ i e. s.created req now_ms l i p e)
  keep-handle (change removed req) now_ms l p =
      keep-change P s.untraced removed req now_ms l p
        (λ key job action e. s.changed key action now_ms job l p e)
  keep-handle (upload u) now_ms l p =
      keep-upload P s.untraced sha256 u now_ms l p (λ c e. s.uploaded u now_ms l c p e)
  keep-handle (index req) now_ms l p =
      keep-index P s.untraced req now_ms l p (λ t e. s.indexed req now_ms l t p e)

  pub keep-run : (requests : List (Request × ℕ)) (l : Ledger) → P l → P (run sha256 requests l)
  unfolding run
  keep-run [] l p = p
  keep-run ((request, now_ms) ∷ requests) l p = keep-run requests _ (keep-handle request now_ms l p)
