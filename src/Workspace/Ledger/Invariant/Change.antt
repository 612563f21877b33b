-- ===== src/Workspace/Ledger/Invariant/Change.antt =====
-- Changing a job keeps the tables mirrored; deleting it erases its document everywhere at once.
use a21_stackchan_workmate.Base.{
  ℕ, ◌≡◌, inl, inr, refl, sym, ap, ◌∙◌, Text, lookup, Option, some, arith, insert,
  lookup-insert_self, lookup-insert_of_ne, lookup-insert_cases, lookup-update_all_cases, text_eq,
  text_eq_iff, Bool, Bool-cases, is_empty, true, false,
}
use a21_stackchan_workmate.Workspace.{UploadJob}
use a21_stackchan_workmate.Workspace.Ledger.{
  Document, Ledger, source_id_of, save_job, tombstone_all, tombstone_document, tombstone_if,
  tombstone_index_job,
}
use a21_stackchan_workmate.Workspace.Ledger.Mirror.{
  IsLedger, Jobs, JobEntry, Documents, DocumentEntry, Linked, IndexJobs, AllOwned, put-Jobs_at,
  facts_of_job, erased, is_empty-source_id_of, is_empty-document_id_of,
}
use a21_stackchan_workmate.Workspace.Ledger.Writes.{
  Documents-put_job, AllOwned-put_job, AllOwned-put_document,
}

-- Two answers of one look-up are the same.
pub same_value {ℓ} : {A : Type ℓ} (o : Option A) {a b : A} → o ≡ some a → o ≡ some b → a ≡ b
same_value o p q = cc

module _ (key : Text) (job : UploadJob) (l : Ledger) (v : IsLedger l)
    (found : lookup key l.upload_jobs ≡ some job) where
  entry : JobEntry l.upload_job_seq l.sources key job
  entry = v.jobs key job found

  -- A document that names the job is the job's document.
  pub job_of_document :
      (k : Text) (d : Document) → lookup k l.documents ≡ some d → d.job_id ≡ key → Linked k d job
  job_of_document k d here same =
      let e = v.documents k d here in
      let eq : e.job ≡ job =
        same_value (lookup key l.upload_jobs)
          (ap (λ x. lookup x l.upload_jobs) (sym same) ∙ e.found) found in
      rw (← eq) e.linked

  saved-Jobs :
      (j : UploadJob)
      → j.job_id ≡ job.job_id
      → j.source_id ≡ job.source_id
      → Jobs l.upload_job_seq (save_job key j l).sources (insert key j l.upload_jobs)
  unfolding save_job entry
  saved-Jobs j same_id same_source =
      let at : j.source_id ≡ source_id_of entry.number = same_source ∙ entry.own_source in
      rw (ap is_empty at ∙ is_empty-source_id_of entry.number) (
        put-Jobs_at l.upload_job_seq l.upload_job_seq entry.number l.sources l.upload_jobs key
          j.source_id j (omega arith) entry.within entry.keyed at (same_id ∙ entry.own_id) refl
          v.jobs)

  -- A change that leaves the ids of the job and what it says of its document.
  pub saved-IsLedger :
      (j : UploadJob)
      → j.job_id ≡ job.job_id
      → j.source_id ≡ job.source_id
      → j.document_id ≡ job.document_id
      → ((k : Text) (d : Document) → lookup k l.documents ≡ some d → d.job_id ≡ key → Linked k d j)
      → IsLedger (save_job key j l)
  unfolding save_job
  saved-IsLedger j same_id same_source same_document agrees = record {
    seqs = v.seqs;
    jobs = saved-Jobs j same_id same_source;
    documents = Documents-put_job l.document_seq l.upload_jobs l.documents key j agrees v.documents;
    index_jobs = v.index_jobs;
    owned =
        AllOwned-put_job l.upload_jobs l.documents key j (rw same_document (v.owned key job found))
          v.owned;
  }

  -- A job without a document is named by none.
  pub unowned :
      is_empty job.document_id ≡ true
      → (k : Text) (d : Document) → lookup k l.documents ≡ some d
      → d.job_id ≡ key
      → ⊥
  unowned nothing k d here same =
      let e = v.documents k d here in
      let link = job_of_document k d here same in
      let bad : true ≡ false =
        sym nothing ∙ ap is_empty (link.0 ∙ e.keyed) ∙ is_empty-document_id_of e.number in
      cc

  -- Erasing a document together with the job that names it.
  module _ (removed : Bool) (now_ms : ℕ) (d : Document)
      (stands : lookup job.document_id l.documents ≡ some d) (own : d.job_id ≡ key) where
    doc_entry : DocumentEntry l.document_seq l.upload_jobs job.document_id d
    doc_entry = v.documents job.document_id d stands

    erased-IndexJobs :
        IndexJobs
          (tombstone_all removed d now_ms l).documents
          (tombstone_all removed d now_ms l).index_jobs
    unfolding tombstone_all tombstone_if tombstone_document tombstone_index_job
    erased-IndexJobs k i here =
        let (i', before, eq) =
          lookup-update_all_cases k (tombstone_if d.document_id now_ms) i l.index_jobs here in
        let e = v.index_jobs k i' before in
        elim (Bool-cases (text_eq i'.document_id d.document_id)) [
          | inl same ↦
              rw (eq, tombstone_if, same)
                (record {
                  document = tombstone_document now_ms d;
                  found =
                      ap
                        (λ x.
                          lookup x (insert d.document_id (tombstone_document now_ms d) l.documents))
                        ((text_eq_iff i'.document_id d.document_id).0 same)
                      ∙ lookup-insert_self d.document_id (tombstone_document now_ms d) l.documents;
                  alike = refl;
                })
          | inr other ↦
              rw (eq, tombstone_if, other)
                (record {
                  document = e.document;
                  found =
                      lookup-insert_of_ne i'.document_id d.document_id (tombstone_document now_ms d)
                        l.documents
                        (λ same. cc ((text_eq_iff i'.document_id d.document_id).1 same, other))
                      ∙ e.found;
                  alike = e.alike;
                })
        ]

    erased-Documents :
        (j : UploadJob)
        → j.source_id ≡ job.source_id
        → j.document_id ≡ job.document_id
        → facts_of_job j ≡ erased
        → Documents l.document_seq
            (insert key j l.upload_jobs)
            (tombstone_all removed d now_ms l).documents
    unfolding tombstone_all tombstone_document doc_entry
    erased-Documents j same_source same_document gone k d' here =
        elim (lookup-insert_cases k d.document_id _ d' l.documents here) [
          | inl (key', same) ↦
              let link = job_of_document job.document_id d stands own in
              rw (key', ← same)
                (record {
                  number = doc_entry.number;
                  within = doc_entry.within;
                  keyed = doc_entry.own_id ∙ doc_entry.keyed;
                  own_id = refl;
                  job = j;
                  found = rw own (lookup-insert_self key j l.upload_jobs);
                  linked = (same_document ∙ sym doc_entry.own_id, same_source ∙ link.1, gone);
                  scrubbed = λ _. refl;
                })
          | inr (ne, before) ↦
              let e = v.documents k d' before in
              record {
                number = e.number;
                within = e.within;
                keyed = e.keyed;
                own_id = e.own_id;
                job = e.job;
                found =
                    lookup-insert_of_ne d'.job_id key j l.upload_jobs
                      (λ same. ne (sym (job_of_document k d' before same).0 ∙ sym doc_entry.own_id))
                    ∙ e.found;
                linked = e.linked;
                scrubbed = e.scrubbed;
              }
        ]

    erased-AllOwned :
        (j : UploadJob)
        → j.document_id ≡ job.document_id
        → AllOwned (insert key j l.upload_jobs) (tombstone_all removed d now_ms l).documents
    unfolding tombstone_all tombstone_document doc_entry
    erased-AllOwned j same_document =
        AllOwned-put_job l.upload_jobs
          (insert d.document_id (tombstone_document now_ms d) l.documents) key j
          (inr (
            tombstone_document now_ms d,
            ap (λ x. lookup x (insert d.document_id (tombstone_document now_ms d) l.documents))
                  (same_document ∙ sym doc_entry.own_id)
                ∙ lookup-insert_self d.document_id (tombstone_document now_ms d) l.documents,
            own,
          ))
          (AllOwned-put_document l.upload_jobs l.documents d.document_id
            (tombstone_document now_ms d)
            (λ d' here.
              ap (λ (x : Document). x.job_id)
                (same_value (lookup job.document_id l.documents) stands
                  (ap (λ x. lookup x l.documents) (sym doc_entry.own_id) ∙ here)))
            v.owned)

    pub erased-IsLedger :
        (j : UploadJob)
        → j.job_id ≡ job.job_id
        → j.source_id ≡ job.source_id
        → j.document_id ≡ job.document_id
        → facts_of_job j ≡ erased
        → IsLedger (save_job key j (tombstone_all removed d now_ms l))
    unfolding save_job tombstone_all
    erased-IsLedger j same_id same_source same_document gone = record {
      seqs = v.seqs;
      jobs = saved-Jobs j same_id same_source;
      documents = erased-Documents j same_source same_document gone;
      index_jobs = erased-IndexJobs;
      owned = erased-AllOwned j same_document;
    }
