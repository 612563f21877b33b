-- ===== src/Workspace/Ledger/Invariant/Enter.antt =====
-- Entering a job, with or without a document, keeps the tables mirrored.
use a21_stackchan_workmate.Base.{
  sym, ℕ, suc, ◌≡◌, ◌∙◌, inl, inr, refl, ap, List, Text, lookup, some, arith, insert,
  lookup-insert_self,
}
use a21_stackchan_workmate.Workspace.{workspace_source_readiness_for_job}
use a21_stackchan_workmate.Workspace.Ledger.{
  Document, IndexJob, Ledger, StorePath, job_id_of, source_id_of, document_id_of, Intake,
  accepted_job, enter_upload_job, stored_job, stored_document, enter_document,
}
use a21_stackchan_workmate.Workspace.Ledger.Mirror.{
  IsLedger, put-Jobs_at, job_id_fresh, document_id_fresh,
}
use a21_stackchan_workmate.Workspace.Ledger.Writes.{
  Documents-put_job, Documents-put, IndexJobs-put_document, AllOwned-put_job, AllOwned-put_document,
}

-- No document names the job that comes next.
module _ (l : Ledger) (v : IsLedger l) where
  next_job_unnamed :
      (k : Text) (d : Document)
      → lookup k l.documents ≡ some d
      → d.job_id ≡ job_id_of (suc l.upload_job_seq)
      → ⊥
  next_job_unnamed k d here =
      let e = v.documents k d here in
      job_id_fresh l.upload_job_seq l.sources l.upload_jobs d.job_id e.job v.jobs e.found

  pub next_document_unnamed :
      (d : Document) → lookup (document_id_of (suc l.document_seq)) l.documents ≡ some d → ⊥
  next_document_unnamed d here =
      document_id_fresh l.document_seq l.upload_jobs l.documents _ d v.documents here refl

  next_document_not_indexed :
      (k : Text) (i : IndexJob)
      → lookup k l.index_jobs ≡ some i
      → i.document_id ≡ document_id_of (suc l.document_seq)
      → ⊥
  next_document_not_indexed k i here same =
      let e = v.index_jobs k i here in
      next_document_unnamed e.document (ap (λ x. lookup x l.documents) (sym same) ∙ e.found)

pub enter_upload_job-IsLedger :
    (i : Intake) (now_ms : ℕ) (l : Ledger) → IsLedger l → IsLedger (enter_upload_job i now_ms l)
unfolding enter_upload_job accepted_job workspace_source_readiness_for_job
enter_upload_job-IsLedger i now_ms l v =
    let job = accepted_job i (suc l.upload_job_seq) (suc l.source_seq) now_ms in
    record {
      seqs = ap suc v.seqs;
      jobs =
          put-Jobs_at l.upload_job_seq (suc l.upload_job_seq) (suc l.upload_job_seq) l.sources
            l.upload_jobs job.job_id job.source_id job (omega arith) (omega arith) refl
            (ap (λ n. source_id_of (suc n)) v.seqs) refl refl v.jobs;
      documents =
          Documents-put_job l.document_seq l.upload_jobs l.documents job.job_id job
            (λ k d here same. absurd (next_job_unnamed l v k d here same)) v.documents;
      index_jobs = v.index_jobs;
      owned = AllOwned-put_job l.upload_jobs l.documents job.job_id job (inl refl) v.owned;
    }

pub enter_document-IsLedger :
    (i : Intake) (hash : Text) (files : List StorePath) (now_ms : ℕ) (l : Ledger)
    → IsLedger l
    → IsLedger (enter_document i hash files now_ms l)
unfolding enter_document stored_job stored_document workspace_source_readiness_for_job
enter_document-IsLedger i hash files now_ms l v =
    let job =
      stored_job i hash (suc l.document_seq) (suc l.upload_job_seq) (suc l.source_seq) now_ms in
    let document =
      stored_document i hash (suc l.document_seq) (suc l.upload_job_seq) (suc l.source_seq)
        now_ms in
    record {
      seqs = ap suc v.seqs;
      jobs =
          put-Jobs_at l.upload_job_seq (suc l.upload_job_seq) (suc l.upload_job_seq) l.sources
            l.upload_jobs job.job_id job.source_id job (omega arith) (omega arith) refl
            (ap (λ n. source_id_of (suc n)) v.seqs) refl refl v.jobs;
      documents =
          Documents-put l.document_seq (suc l.document_seq) (insert job.job_id job l.upload_jobs)
            l.documents document.document_id document (omega arith)
            (record {
              number = suc l.document_seq;
              within = omega arith;
              keyed = refl;
              own_id = refl;
              job = job;
              found = lookup-insert_self job.job_id job l.upload_jobs;
              linked = (refl, refl, refl);
              scrubbed = λ no. cc;
            })
            (Documents-put_job l.document_seq l.upload_jobs l.documents job.job_id job
              (λ k d here same. absurd (next_job_unnamed l v k d here same)) v.documents);
      index_jobs =
          IndexJobs-put_document l.documents l.index_jobs document.document_id document
            (λ k x here same. absurd (next_document_not_indexed l v k x here same)) v.index_jobs;
      owned =
          AllOwned-put_job l.upload_jobs (insert document.document_id document l.documents)
            job.job_id job
            (inr (document, lookup-insert_self document.document_id document l.documents, refl))
            (AllOwned-put_document l.upload_jobs l.documents document.document_id document
              (λ d here. absurd (next_document_unnamed l v d here)) v.owned);
    }
