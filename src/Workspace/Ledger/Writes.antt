-- ===== src/Workspace/Ledger/Writes.antt =====
-- What a write of one table leaves of the mirrors between the tables.
use a21_stackchan_workmate.Base.{
  ℕ, ◌≤◌, ◌≡◌, inl, inr, ◌∙◌, Text, Table, lookup, some, arith, insert, lookup-insert_cases,
  text_eq, text_eq_iff, Bool-cases, lookup-insert,
}
use a21_stackchan_workmate.Workspace.{UploadJob}
use a21_stackchan_workmate.Workspace.Ledger.{Document, IndexJob}
use a21_stackchan_workmate.Workspace.Ledger.Mirror.{
  facts_of_document, facts_of_index_job, DocumentEntry, IndexEntry, Linked, Documents, IndexJobs,
  Owned, AllOwned,
}

-- Whatever is asked of the value under a key that was written, or of the one that stood there.
pub lookup-put {ℓ κ} :
    {V : Type ℓ} (P : V → Type κ) (j k : Text) (v w : V) (table : Table V)
    → lookup j table ≡ some w
    → (j ≡ k → P v)
    → P w
    → (u : V) × (lookup j (insert k v table) ≡ some u) × P u
lookup-put P j k v w table found there here = elim (Bool-cases (text_eq j k)) [
  | inl e ↦ (v, rw (lookup-insert j k v table, e), there ((text_eq_iff j k).0 e))
  | inr e ↦ (w, rw (lookup-insert j k v table, e) found, here)
]

pub Documents-put_job :
    (seq : ℕ) (jobs : Table UploadJob) (documents : Table Document) (c : Text) (j : UploadJob)
    → ((k : Text) (d : Document) → lookup k documents ≡ some d → d.job_id ≡ c → Linked k d j)
    → Documents seq jobs documents
    → Documents seq (insert c j jobs) documents
Documents-put_job seq jobs documents c j agrees v k d here =
    let e = v k d here in
    let (job, found, linked) =
      lookup-put (Linked k d) d.job_id c j e.job jobs e.found (agrees k d here) e.linked in
    record {
      number = e.number;
      within = e.within;
      keyed = e.keyed;
      own_id = e.own_id;
      job = job;
      found = found;
      linked = linked;
      scrubbed = e.scrubbed;
    }

pub Documents-put :
    (seq seq' : ℕ) (jobs : Table UploadJob) (documents : Table Document) (c : Text) (d : Document)
    → seq ≤ seq'
    → DocumentEntry seq' jobs c d
    → Documents seq jobs documents
    → Documents seq' jobs (insert c d documents)
Documents-put seq seq' jobs documents c d grows entry v k d' here =
    elim (lookup-insert_cases k c d d' documents here) [
      | inl (key, same) ↦ rw (key, ← same) entry
      | inr (ne, before) ↦
          let e = v k d' before in
          record {
            number = e.number;
            within = omega (arith, e.within);
            keyed = e.keyed;
            own_id = e.own_id;
            job = e.job;
            found = e.found;
            linked = e.linked;
            scrubbed = e.scrubbed;
          }
    ]

pub IndexJobs-put_document :
    (documents : Table Document) (index_jobs : Table IndexJob) (c : Text) (d : Document)
    → ((k : Text) (i : IndexJob)
        → lookup k index_jobs ≡ some i
        → i.document_id ≡ c
        → facts_of_index_job i ≡ facts_of_document d)
    → IndexJobs documents index_jobs
    → IndexJobs (insert c d documents) index_jobs
IndexJobs-put_document documents index_jobs c d agrees v k i here =
    let e = v k i here in
    let (document, found, alike) =
      lookup-put (λ d'. facts_of_index_job i ≡ facts_of_document d') i.document_id c d e.document
        documents e.found (agrees k i here) e.alike in
    record { document = document; found = found; alike = alike }

pub IndexJobs-put :
    (documents : Table Document) (index_jobs : Table IndexJob) (c : Text) (i : IndexJob)
    → IndexEntry documents i
    → IndexJobs documents index_jobs
    → IndexJobs documents (insert c i index_jobs)
IndexJobs-put documents index_jobs c i entry v k i' here =
    elim (lookup-insert_cases k c i i' index_jobs here) [
      | inl (key, same) ↦ rw (← same) entry
      | inr (ne, before) ↦ v k i' before
    ]

pub AllOwned-put_job :
    (jobs : Table UploadJob) (documents : Table Document) (c : Text) (j : UploadJob)
    → Owned documents c j
    → AllOwned jobs documents
    → AllOwned (insert c j jobs) documents
AllOwned-put_job jobs documents c j entry v k j' here =
    elim (lookup-insert_cases k c j j' jobs here) [
      | inl (key, same) ↦ rw (key, ← same) entry
      | inr (ne, before) ↦ v k j' before
    ]

Owned-put_document :
    (documents : Table Document) (c : Text) (d : Document) (k : Text) (j : UploadJob)
    → ((d' : Document) → lookup c documents ≡ some d' → d.job_id ≡ d'.job_id)
    → Owned documents k j
    → Owned (insert c d documents) k j
Owned-put_document documents c d k j agrees (inl nothing) = inl nothing
Owned-put_document documents c d k j agrees (inr (d', found, own)) = inr (
    lookup-put (λ x. x.job_id ≡ k) j.document_id c d d' documents found
      (λ key. agrees d' (rw key at found) ∙ own) own)

pub AllOwned-put_document :
    (jobs : Table UploadJob) (documents : Table Document) (c : Text) (d : Document)
    → ((d' : Document) → lookup c documents ≡ some d' → d.job_id ≡ d'.job_id)
    → AllOwned jobs documents
    → AllOwned jobs (insert c d documents)
AllOwned-put_document jobs documents c d agrees v k j here =
    Owned-put_document documents c d k j agrees (v k j here)
