-- ===== src/Workspace/Ledger/Deleted.antt =====
-- A document whose job is deleted is deleted, and no request brings it back.
use a21_stackchan_workmate.Base.{
  ℕ, ◌≡◌, refl, sym, ap, ◌∙◌, List, Text, lookup, insert, Option, some, none, arith, inl, inr, Bool,
  Bool-cases, true, false, is_empty, trim_space, lookup-insert_self,
}
use a21_stackchan_workmate.Workspace.{UploadJob}
use a21_stackchan_workmate.Workspace.Ledger.{
  Document, document_deleted, Ledger, UploadJobRequest, Intake, enter_upload_job, enter_document,
  stored_document, Action, mark_failed, mark_searchable, retry, delete, action_of, perform,
  change_job, save_job, delete_document, tombstone_all, tombstone_document, IndexTarget, can_index,
  indexing_document, enter_index_job, Origin, after, apply_workspace_upload_job_action, StorePath,
}
use a21_stackchan_workmate.Workspace.Ledger.Mirror.{
  IsLedger, is_empty-document_id_of, is_empty-trim_document_id_of, is_empty-job_id_of,
}
use a21_stackchan_workmate.Workspace.Ledger.Writes.{lookup-put}
use a21_stackchan_workmate.Workspace.Ledger.Steps.{Survives, keep-trace_change}
use a21_stackchan_workmate.Workspace.Ledger.Invariant.{
  IsLedger-Survives, same_value, next_document_unnamed, check_index_job-IsChecked, IsChecked,
}

-- The document under a key is deleted.
abbrev pub IsDeleted : Text → Ledger → Type 0
IsDeleted k l = (d : Document) × (lookup k l.documents ≡ some d) × (d.status ≡ document_deleted)

abbrev Deleted : Document → Type 0
Deleted d = d.status ≡ document_deleted

enter_document-IsDeleted :
    (k : Text) (i : Intake) (hash : Text) (files : List StorePath) (now_ms : ℕ) (l : Ledger)
    → IsLedger l
    → IsDeleted k l
    → IsDeleted k (enter_document i hash files now_ms l)
unfolding enter_document stored_document
enter_document-IsDeleted k i hash files now_ms l v (d, stands, gone) =
    lookup-put Deleted k _ _ d l.documents stands
      (λ key.
        absurd (next_document_unnamed l v d (ap (λ x. lookup x l.documents) (sym key) ∙ stands)))
      gone

delete_document-IsDeleted :
    (removed : Bool) (k : Text) (o : Option Document) (now_ms : ℕ) (l : Ledger)
    → IsDeleted k l
    → IsDeleted k (delete_document removed o now_ms l)
unfolding delete_document tombstone_all tombstone_document
delete_document-IsDeleted removed k none now_ms l p = p
delete_document-IsDeleted removed k (some d') now_ms l (d, stands, gone) =
    lookup-put Deleted k d'.document_id _ d l.documents stands (λ _. refl) gone

change_job-IsDeleted :
    (k key : Text) (action : Action) (now_ms : ℕ) (job : UploadJob) (l : Ledger)
    → IsDeleted k l
    → IsDeleted k (change_job key action now_ms job l)
unfolding change_job perform save_job
change_job-IsDeleted k key mark_failed now_ms job l p = p
change_job-IsDeleted k key mark_searchable now_ms job l p = p
change_job-IsDeleted k key retry now_ms job l p = p
change_job-IsDeleted k key (delete removed) now_ms job l p =
    elim (Bool-cases (is_empty job.document_id)) [
      | inl nothing ↦ rw nothing p
      | inr something ↦ rw something (elim (Bool-cases (is_empty (trim_space job.document_id))) [
        | inl blank ↦ rw blank p
        | inr named ↦
            rw named
              (delete_document-IsDeleted removed k (lookup job.document_id l.documents) now_ms l p)
      ])
    ]

-- A deleted document cannot be indexed.
Deleted-not_indexable : (t : IndexTarget) → Deleted t.document → can_index t ≡ true → ⊥
unfolding can_index
Deleted-not_indexable t gone indexable = ground arith

enter_index_job-IsDeleted :
    (k : Text) (o : Origin) (t : IndexTarget) (now_ms : ℕ) (l : Ledger)
    → IsLedger l
    → IsChecked l t
    → IsDeleted k l
    → IsDeleted k (enter_index_job o t now_ms l)
unfolding enter_index_job indexing_document
enter_index_job-IsDeleted k o t now_ms l v c (d, stands, gone) =
    let (at, found, _j) = c.stands in
    let own = (v.documents at t.document found).own_id in
    lookup-put Deleted k t.document.document_id _ d l.documents stands
      (λ key.
        let same : d ≡ t.document =
          same_value (lookup at l.documents)
            (ap (λ x. lookup x l.documents) (sym (key ∙ own)) ∙ stands) found in
        absurd (Deleted-not_indexable t (rw (← same) gone) c.indexable))
      gone

abbrev pub Erasing : Text → Ledger → Type 0
Erasing k l = IsLedger l × IsDeleted k l

pub Erasing-Survives : (sha256 : List ℕ → Text) (k : Text) → Survives sha256 (Erasing k)
unfolding enter_upload_job
Erasing-Survives sha256 k =
    let s = IsLedger-Survives sha256 in
    record {
      untraced = λ l t p. (s.untraced l t p.0, p.1);
      created = λ req now_ms l i p checked. (s.created req now_ms l i p.0 checked, p.1);
      uploaded = λ u now_ms l c p checked. (
        s.uploaded u now_ms l c p.0 checked,
        enter_document-IsDeleted k c.intake c.file.hash c.file.files now_ms l p.0 p.1,
      );
      changed = λ key action now_ms job l p found. (
        s.changed key action now_ms job l p.0 found,
        change_job-IsDeleted k key action now_ms job l p.1,
      );
      indexed = λ req now_ms l t p checked. (
        s.indexed req now_ms l t p.0 checked,
        enter_index_job-IsDeleted k _ t now_ms l p.0 (check_index_job-IsChecked req l t checked)
            p.1,
      );
    }

-- Deleting the job of a document deletes the document.
delete-IsDeleted :
    (removed : Bool) (k : Text) (d : Document) (job : UploadJob) (now_ms : ℕ) (l : Ledger)
    → IsLedger l
    → lookup k l.documents ≡ some d
    → job.document_id ≡ k
    → IsDeleted k (change_job d.job_id (delete removed) now_ms job l)
unfolding change_job perform save_job tombstone_document
delete-IsDeleted removed k d job now_ms l v stands own =
    let e = v.documents k d stands in
    let named : is_empty job.document_id ≡ false =
      ap is_empty (own ∙ e.keyed) ∙ is_empty-document_id_of e.number in
    let trimmed : is_empty (trim_space job.document_id) ≡ false =
      ap (λ x. is_empty (trim_space x)) (own ∙ e.keyed) ∙ is_empty-trim_document_id_of e.number in
    let found : lookup job.document_id l.documents ≡ some d =
      ap (λ x. lookup x l.documents) own ∙ stands in
    rw (named, trimmed, found)
      (
        tombstone_document now_ms d,
        ap (λ x. lookup x (insert d.document_id (tombstone_document now_ms d) l.documents))
              (sym e.own_id)
            ∙ lookup-insert_self d.document_id (tombstone_document now_ms d) l.documents,
        refl,
      )

-- The request that deletes a document's job leaves the document deleted.
pub delete_request-IsDeleted :
    (k : Text) (d : Document) (removed : Bool) (req : UploadJobRequest) (now_ms : ℕ) (l : Ledger)
    → IsLedger l
    → lookup k l.documents ≡ some d
    → trim_space req.job_id ≡ d.job_id
    → action_of removed req.action ≡ some (delete removed)
    → IsDeleted k (after l (apply_workspace_upload_job_action removed req now_ms l))
unfolding apply_workspace_upload_job_action
delete_request-IsDeleted k d removed req now_ms l v stands asked action =
    let e = v.documents k d stands in
    let j = v.jobs d.job_id e.job e.found in
    let given : is_empty d.job_id ≡ false = ap is_empty j.keyed ∙ is_empty-job_id_of j.number in
    rw (asked, given, e.found, action)
      (keep-trace_change (IsDeleted k) (λ l t p. p) (perform (delete removed) now_ms e.job l).0
        now_ms _ (delete-IsDeleted removed k d e.job now_ms l v stands e.linked.0))
