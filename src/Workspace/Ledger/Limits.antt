-- ===== src/Workspace/Ledger/Limits.antt =====
-- Two limits of the ledger: a deleted job can be brought back, and documents of the same content
-- share one file.
use a21_stackchan_workmate.Base.{
  ℕ, ◌≡◌, ◌≢◌, refl, sym, ap, ◌∙◌, List, [], ◌∷◌, Text, Bool, lookup, some, arith, inl, inr,
  Bool-cases, true, false, is_empty, trim_space, text_eq_refl, lookup-insert_self,
  lookup-insert_of_ne,
}
use a21_stackchan_workmate.Workspace.{
  Source, UploadJob, job_deleted, job_accepted, workspace_source_from_job,
  workspace_source_readiness_for_job,
}
use a21_stackchan_workmate.Workspace.Ledger.{
  Document, Ledger, UploadJobRequest, IndexJobRequest, IndexTarget, StorePath, same_path, has_file,
  remove_file, workspace_document_path, mark_searchable, delete, action_of, perform, change_job,
  save_job, searchable_job, tombstone_document, after, apply_workspace_upload_job_action,
  check_index_job, done,
}
use a21_stackchan_workmate.Workspace.Ledger.Mirror.{
  IsLedger, is_empty-document_id_of, is_empty-trim_document_id_of, is_empty-job_id_of,
  is_empty-source_id_of,
}
use a21_stackchan_workmate.Workspace.Ledger.Steps.{keep-trace_change}
use a21_stackchan_workmate.Workspace.Ledger.Invariant.{check_index_job-IsChecked}

-- A job that stands under a key as accepted and searchable, with a source that is searchable.
pub record IsSearchable (key : Text) (l : Ledger) : Type 0 where
  pub job : UploadJob
  pub stands : lookup key l.upload_jobs ≡ some job
  pub accepted : job.status ≡ job_accepted
  pub may_retry : job.retry_allowed ≡ true
  pub source : Source
  pub shown : lookup job.source_id l.sources ≡ some source
  pub searchable : source.searchable ≡ true
  pub live : source.deleted ≡ false

-- Marking a job as searchable is not refused where the job was deleted and neither a retry nor a
-- deletion is allowed: the job is accepted again and its source counts as searchable.
pub apply_workspace_upload_job_action-IsSearchable :
    (key : Text) (job : UploadJob) (removed : Bool) (req : UploadJobRequest) (now_ms : ℕ)
    (l : Ledger)
    → IsLedger l
    → lookup key l.upload_jobs ≡ some job
    → job.status ≡ job_deleted
    → job.retry_allowed ≡ false
    → trim_space req.job_id ≡ key
    → action_of removed req.action ≡ some mark_searchable
    → IsSearchable key (after l (apply_workspace_upload_job_action removed req now_ms l))
unfolding apply_workspace_upload_job_action change_job perform save_job searchable_job
    workspace_source_from_job workspace_source_readiness_for_job
apply_workspace_upload_job_action-IsSearchable key job removed req now_ms l v stands gone locked
      asked action =
    let e = v.jobs key job stands in
    let given : is_empty key ≡ false = ap is_empty e.keyed ∙ is_empty-job_id_of e.number in
    let sourced : is_empty job.source_id ≡ false =
      ap is_empty e.own_source ∙ is_empty-source_id_of e.number in
    rw (asked, given, stands, action)
      (keep-trace_change (IsSearchable key)
        (λ l t p. record {
          job = p.job;
          stands = p.stands;
          accepted = p.accepted;
          may_retry = p.may_retry;
          source = p.source;
          shown = p.shown;
          searchable = p.searchable;
          live = p.live;
        })
        (searchable_job now_ms job) now_ms _
        (rw sourced (record {
          job = searchable_job now_ms job;
          stands = lookup-insert_self key _ l.upload_jobs;
          accepted = refl;
          may_retry = refl;
          source = _;
          shown = lookup-insert_self job.source_id _ l.sources;
          searchable = refl;
          live = refl;
        })))

same_path_refl : (p : StorePath) → same_path p p ≡ true
same_path_refl p = ground (
  arith,
  text_eq_refl p.user_id,
  text_eq_refl p.workspace_id,
  text_eq_refl p.source_scope,
  text_eq_refl p.hash,
)

has_file-remove_file :
    (p : StorePath) (files : List StorePath) → has_file p (remove_file p files) ≡ false
unfolding has_file remove_file
has_file-remove_file p [] = refl
has_file-remove_file p (q ∷ files) = elim (Bool-cases (same_path p q)) [
  | inl e ↦ rw e (has_file-remove_file p files)
  | inr e ↦ rw e (rw (e, has_file-remove_file p files))
]

-- A document stands as it was, and its file is gone.
abbrev Stranded : Text → Document → StorePath → Ledger → Type 0
Stranded k d p l = (lookup k l.documents ≡ some d) × (has_file p l.files ≡ false)

-- What deleting the job of one document does to another one in the same file.
module _ (k k' : Text) (d d' : Document) (p : StorePath) (job : UploadJob) (now_ms : ℕ) (l : Ledger)
    (v : IsLedger l) (stands : lookup k l.documents ≡ some d)
    (stands' : lookup k' l.documents ≡ some d') (other : k' ≢ k)
    (path : workspace_document_path d ≡ some p) (own : job.document_id ≡ k) where
  delete-Stranded : Stranded k' d' p (change_job d.job_id (delete true) now_ms job l)
  unfolding change_job perform save_job
  delete-Stranded =
      let e = v.documents k d stands in
      let named : is_empty job.document_id ≡ false =
        ap is_empty (own ∙ e.keyed) ∙ is_empty-document_id_of e.number in
      let trimmed : is_empty (trim_space job.document_id) ≡ false =
        ap (λ x. is_empty (trim_space x)) (own ∙ e.keyed) ∙ is_empty-trim_document_id_of e.number in
      let found : lookup job.document_id l.documents ≡ some d =
        ap (λ x. lookup x l.documents) own ∙ stands in
      rw (named, trimmed, found)
        (
          lookup-insert_of_ne k' d.document_id (tombstone_document now_ms d) l.documents
                (λ same. other (same ∙ e.own_id))
              ∙ stands',
          rw path (has_file-remove_file p l.files),
        )

delete_request-Stranded :
    (k k' : Text) (d d' : Document) (p : StorePath) (req : UploadJobRequest) (now_ms : ℕ)
    (l : Ledger)
    → IsLedger l
    → lookup k l.documents ≡ some d
    → lookup k' l.documents ≡ some d'
    → k' ≢ k
    → workspace_document_path d ≡ some p
    → trim_space req.job_id ≡ d.job_id
    → action_of true req.action ≡ some (delete true)
    → Stranded k' d' p (after l (apply_workspace_upload_job_action true req now_ms l))
unfolding apply_workspace_upload_job_action
delete_request-Stranded k k' d d' p req now_ms l v stands stands' other path asked action =
    let e = v.documents k d stands in
    let j = v.jobs d.job_id e.job e.found in
    let given : is_empty d.job_id ≡ false = ap is_empty j.keyed ∙ is_empty-job_id_of j.number in
    rw (asked, given, e.found, action)
      (keep-trace_change (Stranded k' d' p) (λ l t s. s) (perform (delete true) now_ms e.job l).0
        now_ms _
        (delete-Stranded k k' d d' p e.job now_ms l v stands stands' other path e.linked.0))

file_is_gone :
    {q p : StorePath} (files : List StorePath)
    → some q ≡ some p
    → has_file q files ≡ true
    → has_file p files ≡ false
    → ⊥
file_is_gone files same here gone = cc

-- Where two documents hold the same content for the same user, workspace and scope, they share a file:
-- deleting the job of one, where os.Remove removes the file, leaves the other in the tables as it was,
-- and no request to index the other is accepted, since its file is gone.
pub apply_workspace_upload_job_action_strands :
    (k k' : Text) (d d' : Document) (p : StorePath) (req : UploadJobRequest) (now_ms : ℕ)
    (l : Ledger)
    → IsLedger l
    → lookup k l.documents ≡ some d
    → lookup k' l.documents ≡ some d'
    → k' ≢ k
    → workspace_document_path d ≡ some p
    → workspace_document_path d' ≡ some p
    → trim_space req.job_id ≡ d.job_id
    → action_of true req.action ≡ some (delete true)
    → (asked : IndexJobRequest) (t : IndexTarget) → t.document ≡ d'
    → (lookup k' (after l (apply_workspace_upload_job_action true req now_ms l)).documents
        ≡ some d')
      × (check_index_job asked (after l (apply_workspace_upload_job_action true req now_ms l))
          ≢ done t)
apply_workspace_upload_job_action_strands k k' d d' p req now_ms l v stands stands' other path path'
      named action asked t same =
    let (still, gone) =
      delete_request-Stranded k k' d d' p req now_ms l v stands stands' other path named action in
    (
      still,
      λ accepted.
          let c =
            check_index_job-IsChecked asked
              (after l (apply_workspace_upload_job_action true req now_ms l)) t accepted in
          let at : some c.path ≡ some p =
            sym c.has_path ∙ ap workspace_document_path same ∙ path' in
          file_is_gone _ at c.on_disk gone,
    )
