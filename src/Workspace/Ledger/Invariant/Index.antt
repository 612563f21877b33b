-- ===== src/Workspace/Ledger/Invariant/Index.antt =====
-- Asking for a document to be indexed keeps the tables mirrored.
use a21_stackchan_workmate.Base.{
  ℕ, ◌≡◌, inl, inr, refl, sym, ap, ◌∙◌, Text, lookup, some, none, Option-cases, true, insert,
  lookup-insert_self, arith,
}
use a21_stackchan_workmate.Workspace.{workspace_source_from_job, workspace_source_readiness_for_job}
use a21_stackchan_workmate.Workspace.Ledger.{
  Document, Ledger, done, StorePath, workspace_document_path, has_file, IndexJobRequest,
  IndexTarget, resolve_workspace_index_target, can_index, find_target, resolve_ids,
  target_document_id, normalize_workspace_ledger_id, check_index_job, Origin, indexing_document,
  indexing_job, new_index_job, enter_index_job,
}
use a21_stackchan_workmate.Workspace.Ledger.Steps.{Outcome-cases}
use a21_stackchan_workmate.Workspace.Ledger.Mirror.{
  IsLedger, Linked, JobEntry, Jobs, AllOwned, DocumentEntry, Documents, IndexJobs, put-Jobs_at,
  facts_of_document,
}
use a21_stackchan_workmate.Workspace.Ledger.Writes.{
  Documents-put_job, Documents-put, IndexJobs-put_document, IndexJobs-put, AllOwned-put_job,
  AllOwned-put_document,
}
use a21_stackchan_workmate.Workspace.Ledger.Invariant.Change.{same_value, job_of_document}

-- The document and the job of a target stand in the tables, the job under the document's name for it.
abbrev pub Stands : Ledger → IndexTarget → Type 0
Stands l t =
    (k : Text) × (lookup k l.documents ≡ some t.document)
    × (lookup t.document.job_id l.upload_jobs ≡ some t.job)

find_target-Stands :
    (k job_id source_id : Text) (l : Ledger) (t : IndexTarget)
    → find_target k job_id source_id l ≡ done t
    → (lookup k l.documents ≡ some t.document)
      × (lookup t.document.job_id l.upload_jobs ≡ some t.job)
unfolding find_target
find_target-Stands k job_id source_id l t h = ground arith

resolve_ids-Stands :
    (a b c : Text) (l : Ledger) (t : IndexTarget) → resolve_ids a b c l ≡ done t → Stands l t
unfolding resolve_ids
resolve_ids-Stands a b c l t h = elim (Outcome-cases (target_document_id a b c l)) [
  | inl (k, e) ↦ (
    k,
    ground (arith, find_target-Stands k b c l t),
    ground (arith, find_target-Stands k b c l t),
  )
  | inr (why, e) ↦ absurd (ground arith)
]

resolve-Stands :
    (req : IndexJobRequest) (l : Ledger) (t : IndexTarget)
    → resolve_workspace_index_target req l ≡ done t
    → Stands l t
unfolding resolve_workspace_index_target
resolve-Stands req l t h = elim (Option-cases (normalize_workspace_ledger_id req.document_id)) [
  | inl e ↦ absurd (ground arith)
  | inr (a, e1) ↦ elim (Option-cases (normalize_workspace_ledger_id req.job_id)) [
    | inl e ↦ absurd (ground arith)
    | inr (b, e2) ↦ elim (Option-cases (normalize_workspace_ledger_id req.source_id)) [
      | inl e ↦ absurd (ground arith)
      | inr (c, e3) ↦ resolve_ids-Stands a b c l t (ground arith)
    ]
  ]
]

-- What is checked of a target besides.
pub record IsChecked (l : Ledger) (t : IndexTarget) : Type 0 where
  pub stands : Stands l t
  pub indexable : can_index t ≡ true
  pub path : StorePath
  pub has_path : workspace_document_path t.document ≡ some path
  pub on_disk : has_file path l.files ≡ true

checked_target :
    (req : IndexJobRequest) (l : Ledger) (t : IndexTarget) (path : StorePath)
    → workspace_document_path t.document ≡ some path
    → check_index_job req l ≡ done t
    → (resolve_workspace_index_target req l ≡ done t)
      × (can_index t ≡ true)
      × (has_file path l.files ≡ true)
unfolding check_index_job
checked_target req l t path e h = ground arith

no_path :
    (req : IndexJobRequest) (l : Ledger) (t : IndexTarget)
    → workspace_document_path t.document ≡ none
    → check_index_job req l ≡ done t
    → ⊥
unfolding check_index_job
no_path req l t e h = ground arith

pub check_index_job-IsChecked :
    (req : IndexJobRequest) (l : Ledger) (t : IndexTarget)
    → check_index_job req l ≡ done t
    → IsChecked l t
check_index_job-IsChecked req l t h = elim (Option-cases (workspace_document_path t.document)) [
  | inl e ↦ absurd (no_path req l t e h)
  | inr (path, e) ↦
      let (resolved, indexable, on_disk) = checked_target req l t path e h in
      record {
        stands = resolve-Stands req l t resolved;
        indexable = indexable;
        path = path;
        has_path = e;
        on_disk = on_disk;
      }
]

module _ (o : Origin) (t : IndexTarget) (now_ms : ℕ) (l : Ledger) (v : IsLedger l)
    (s : Stands l t) where
  doc_entry : DocumentEntry l.document_seq l.upload_jobs s.0 t.document
  doc_entry = v.documents s.0 t.document s.1

  job_entry : JobEntry l.upload_job_seq l.sources t.document.job_id t.job
  job_entry = v.jobs t.document.job_id t.job s.2

  own_job : Linked s.0 t.document t.job
  own_job = job_of_document t.document.job_id t.job l v s.2 s.0 t.document s.1 refl

  indexed-Jobs :
      Jobs
        (enter_index_job o t now_ms l).upload_job_seq
        (enter_index_job o t now_ms l).sources
        (enter_index_job o t now_ms l).upload_jobs
  unfolding enter_index_job indexing_job workspace_source_from_job
      workspace_source_readiness_for_job
  indexed-Jobs =
      put-Jobs_at l.upload_job_seq l.upload_job_seq job_entry.number l.sources l.upload_jobs
        t.job.job_id t.job.source_id (indexing_job o now_ms t.job) (omega arith) job_entry.within
        (job_entry.own_id ∙ job_entry.keyed) job_entry.own_source refl refl v.jobs

  indexed-Documents :
      Documents l.document_seq
        (insert t.job.job_id (indexing_job o now_ms t.job) l.upload_jobs)
        (insert t.document.document_id (indexing_document o now_ms t.document) l.documents)
  unfolding indexing_job indexing_document
  indexed-Documents =
      let told =
        Documents-put_job l.document_seq l.upload_jobs l.documents t.job.job_id
          (indexing_job o now_ms t.job)
          (λ k d here same.
            job_of_document t.document.job_id t.job l v s.2 k d here (same ∙ job_entry.own_id))
          v.documents in
      let e = told s.0 t.document s.1 in
      Documents-put l.document_seq l.document_seq _ l.documents t.document.document_id
        (indexing_document o now_ms t.document) (omega arith)
        (record {
          number = e.number;
          within = e.within;
          keyed = e.own_id ∙ e.keyed;
          own_id = refl;
          job = e.job;
          found = e.found;
          linked = (e.linked.0 ∙ sym e.own_id, e.linked.1, e.linked.2);
          scrubbed = λ no. cc;
        })
        told

  indexed-IndexJobs :
      IndexJobs
        (insert t.document.document_id (indexing_document o now_ms t.document) l.documents)
        (enter_index_job o t now_ms l).index_jobs
  unfolding enter_index_job indexing_document new_index_job
  indexed-IndexJobs =
      let d = indexing_document o now_ms t.document in
      IndexJobs-put (insert t.document.document_id d l.documents) l.index_jobs _ _
        (record {
          document = d;
          found = lookup-insert_self t.document.document_id d l.documents;
          alike = refl;
        })
        (IndexJobs-put_document l.documents l.index_jobs t.document.document_id d
          (λ k i here same.
            let e = v.index_jobs k i here in
            e.alike
            ∙ ap facts_of_document (
                same_value (lookup s.0 l.documents)
                  (ap (λ x. lookup x l.documents) (sym (same ∙ doc_entry.own_id)) ∙ e.found) s.1))
          v.index_jobs)

  indexed-AllOwned :
      AllOwned
        (insert t.job.job_id (indexing_job o now_ms t.job) l.upload_jobs)
        (insert t.document.document_id (indexing_document o now_ms t.document) l.documents)
  unfolding indexing_document indexing_job
  indexed-AllOwned =
      let d = indexing_document o now_ms t.document in
      AllOwned-put_job l.upload_jobs (insert t.document.document_id d l.documents) t.job.job_id
        (indexing_job o now_ms t.job)
        (inr (
          d,
          ap (λ x. lookup x (insert t.document.document_id d l.documents))
                (own_job.0 ∙ sym doc_entry.own_id)
              ∙ lookup-insert_self t.document.document_id d l.documents,
          sym job_entry.own_id,
        ))
        (AllOwned-put_document l.upload_jobs l.documents t.document.document_id d
          (λ d' here.
            ap (λ (x : Document). x.job_id)
              (same_value (lookup s.0 l.documents) s.1
                (ap (λ x. lookup x l.documents) (sym doc_entry.own_id) ∙ here)))
          v.owned)

  pub enter_index_job-IsLedger : IsLedger (enter_index_job o t now_ms l)
  unfolding enter_index_job indexing_document indexing_job
  enter_index_job-IsLedger = record {
    seqs = v.seqs;
    jobs = indexed-Jobs;
    documents = indexed-Documents;
    index_jobs = indexed-IndexJobs;
    owned = indexed-AllOwned;
  }
