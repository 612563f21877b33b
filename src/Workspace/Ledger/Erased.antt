-- ===== src/Workspace/Ledger/Erased.antt =====
-- A document that was deleted stays deleted, and nothing in the ledger tells what it held.
use a21_stackchan_workmate.Base.{
  ℕ, ◌≡◌, sym, ap, ◌∙◌, List, [], ◌∷◌, Text, lookup, some, codes, Bool, false, trim_space, text_eq,
}
use a21_stackchan_workmate.Workspace.{Source, UploadJob, workspace_source_from_job}
use a21_stackchan_workmate.Workspace.Ledger.{
  Document, document_deleted, IndexJob, Ledger, UploadJobRequest, delete, action_of, Request,
  change, after, handle, run, apply_workspace_upload_job_action,
}
use a21_stackchan_workmate.Workspace.Shown.{shown}
use a21_stackchan_workmate.Workspace.Ledger.Mirror.{
  Facts, IsLedger, facts_of_job, facts_of_document, facts_of_index_job, erased,
}
use a21_stackchan_workmate.Workspace.Ledger.Steps.{keep-run, keep-handle}
use a21_stackchan_workmate.Workspace.Ledger.Invariant.{IsLedger-Survives, same_value}
use a21_stackchan_workmate.Workspace.Ledger.Deleted.{
  IsDeleted, Erasing, Erasing-Survives, delete_request-IsDeleted,
}

-- The source of a record that says nothing of a document.
abbrev pub IsErasedSource : Source → Type 0
IsErasedSource s =
    (s.document_hash ≡ [])
    × (s.document_label ≡ codes "deleted")
    × (s.content_type ≡ [])
    × (s.size_bytes ≡ 0)
    × (s.stored_local ≡ false)

-- What the ledger has left of a deleted document.
pub record IsErased (k : Text) (l : Ledger) : Type 0 where
  pub document : Document
  pub stands : lookup k l.documents ≡ some document
  pub deleted : document.status ≡ document_deleted
  pub facts : facts_of_document document ≡ erased
  pub job : UploadJob
  pub job_stands : lookup document.job_id l.upload_jobs ≡ some job
  pub job_facts : facts_of_job job ≡ erased
  pub source : Source
  pub source_stands : lookup document.source_id l.sources ≡ some source
  pub source_facts : IsErasedSource source
  pub index_facts :
      (n : Text) (i : IndexJob)
      → lookup n l.index_jobs ≡ some i
      → i.document_id ≡ k
      → facts_of_index_job i ≡ erased

shown-IsErasedSource : (j : UploadJob) → facts_of_job j ≡ erased → IsErasedSource (shown j)
unfolding workspace_source_from_job text_eq
shown-IsErasedSource j gone = (
  ap (λ (f : Facts). f.hash) gone,
  ap (λ (f : Facts). f.label) gone,
  ap (λ (f : Facts). f.content_type) gone,
  ap (λ (f : Facts). f.size_bytes) gone,
  rw (ap (λ (f : Facts). f.storage_status) gone),
)

Erasing-IsErased : (k : Text) (l : Ledger) → IsLedger l → IsDeleted k l → IsErased k l
Erasing-IsErased k l v (d, stands, gone) =
    let e = v.documents k d stands in
    let j = v.jobs d.job_id e.job e.found in
    let facts = e.scrubbed gone in
    let job_facts : facts_of_job e.job ≡ erased = e.linked.2 ∙ facts in
    record {
      document = d;
      stands = stands;
      deleted = gone;
      facts = facts;
      job = e.job;
      job_stands = e.found;
      job_facts = job_facts;
      source = shown e.job;
      source_stands = ap (λ x. lookup x l.sources) (sym e.linked.1 ∙ j.own_source) ∙ j.mirrored;
      source_facts = shown-IsErasedSource e.job job_facts;
      index_facts = λ n i here of_document.
          let x = v.index_jobs n i here in
          x.alike
          ∙ ap facts_of_document (
              same_value (lookup k l.documents)
                (ap (λ y. lookup y l.documents) (sym of_document) ∙ x.found) stands)
          ∙ facts;
    }

-- Where a client deletes the job of a document, the document is deleted, whether or not its file can
-- be removed, and it stays so whatever is asked for afterwards: the document, its job, the source that shows the job and every index job of
-- the document keep neither its hash nor its label, type or size, and none of them counts as stored.
pub run-IsErased :
    (sha256 : List ℕ → Text) (k : Text) (d : Document) (removed : Bool) (req : UploadJobRequest)
    (now_ms : ℕ) (requests : List (Request × ℕ)) (l : Ledger)
    → IsLedger l
    → lookup k l.documents ≡ some d
    → trim_space req.job_id ≡ d.job_id
    → action_of removed req.action ≡ some (delete removed)
    → IsErased k (run sha256 ((change removed req, now_ms) ∷ requests) l)
unfolding run handle
run-IsErased sha256 k d removed req now_ms requests l v stands asked action =
    let first = after l (apply_workspace_upload_job_action removed req now_ms l) in
    let start : Erasing k first = (
      keep-handle sha256 IsLedger (IsLedger-Survives sha256) (change removed req) now_ms l v,
      delete_request-IsDeleted k d removed req now_ms l v stands asked action,
    ) in
    let (kept, gone) =
      keep-run sha256 (Erasing k) (Erasing-Survives sha256 k) requests first start in
    Erasing-IsErased k _ kept gone
