-- ===== src/Workspace/Ledger/Mirror.antt =====
-- How the tables of the ledger mirror one another: each job is shown by its source, each document is
-- described alike by its job and its index jobs, and the ids are numbered without a clash.
use a21_stackchan_workmate.Base.{
  is_empty, false, numbered, trim_space, ℕ, suc, ◌≤◌, ◌≡◌, ◌≢◌, ◌⊎◌, refl, inl, inr, sym, ap, ◌∙◌,
  [], Text, Table, lookup, some, arith, codes, insert, lookup-insert_self, lookup-insert_of_ne,
  lookup-insert_cases, numbered_ne, numbered_injective,
}
use a21_stackchan_workmate.Workspace.{UploadJob, Source}
use a21_stackchan_workmate.Workspace.Shown.{shown}
use a21_stackchan_workmate.Workspace.Ledger.{
  Document, document_deleted, IndexJob, Ledger, job_id_of, source_id_of, document_id_of,
  deleted_local,
}

-- What a record says of the document behind it.
pub record Facts : Type 0 where
  pub hash : Text
  pub label : Text
  pub content_type : Text
  pub size_bytes : ℕ
  pub storage_status : Text

abbrev pub facts_of_job : UploadJob → Facts
facts_of_job j = record {
  hash = j.document_hash;
  label = j.document_label;
  content_type = j.content_type;
  size_bytes = j.size_bytes;
  storage_status = j.storage_status;
}

abbrev pub facts_of_document : Document → Facts
facts_of_document d = record {
  hash = d.document_hash;
  label = d.document_label;
  content_type = d.content_type;
  size_bytes = d.size_bytes;
  storage_status = d.storage_status;
}

abbrev pub facts_of_index_job : IndexJob → Facts
facts_of_index_job i = record {
  hash = i.document_hash;
  label = i.document_label;
  content_type = i.content_type;
  size_bytes = i.size_bytes;
  storage_status = i.storage_status;
}

abbrev pub erased : Facts
erased = record {
  hash = [];
  label = codes "deleted";
  content_type = [];
  size_bytes = 0;
  storage_status = deleted_local;
}

pub record JobEntry (seq : ℕ) (sources : Table Source) (k : Text) (j : UploadJob) : Type 0 where
  pub number : ℕ
  pub within : number ≤ seq
  pub keyed : k ≡ job_id_of number
  pub own_id : j.job_id ≡ k
  pub own_source : j.source_id ≡ source_id_of number
  pub mirrored : lookup (source_id_of number) sources ≡ some (shown j)

-- The job that a document names is its own, and says the same of it.
abbrev pub Linked : Text → Document → UploadJob → Type 0
Linked k d j =
    (j.document_id ≡ k) × (j.source_id ≡ d.source_id) × (facts_of_job j ≡ facts_of_document d)

pub record DocumentEntry (seq : ℕ) (jobs : Table UploadJob) (k : Text) (d : Document) : Type 0 where
  pub number : ℕ
  pub within : number ≤ seq
  pub keyed : k ≡ document_id_of number
  pub own_id : d.document_id ≡ k
  pub job : UploadJob
  pub found : lookup d.job_id jobs ≡ some job
  pub linked : Linked k d job
  pub scrubbed : d.status ≡ document_deleted → facts_of_document d ≡ erased

pub record IndexEntry (documents : Table Document) (i : IndexJob) : Type 0 where
  pub document : Document
  pub found : lookup i.document_id documents ≡ some document
  pub alike : facts_of_index_job i ≡ facts_of_document document

abbrev pub Jobs : ℕ → Table Source → Table UploadJob → Type 0
Jobs seq sources jobs =
    (k : Text) (j : UploadJob) → lookup k jobs ≡ some j → JobEntry seq sources k j

abbrev pub Documents : ℕ → Table UploadJob → Table Document → Type 0
Documents seq jobs documents =
    (k : Text) (d : Document) → lookup k documents ≡ some d → DocumentEntry seq jobs k d

abbrev pub IndexJobs : Table Document → Table IndexJob → Type 0
IndexJobs documents index_jobs =
    (k : Text) (i : IndexJob) → lookup k index_jobs ≡ some i → IndexEntry documents i

-- A job either names no document, or one that names the job.
abbrev pub Owned : Table Document → Text → UploadJob → Type 0
Owned documents k j =
    (j.document_id ≡ [])
    ⊎ ((d : Document) × (lookup j.document_id documents ≡ some d) × (d.job_id ≡ k))

abbrev pub AllOwned : Table UploadJob → Table Document → Type 0
AllOwned jobs documents = (k : Text) (j : UploadJob) → lookup k jobs ≡ some j → Owned documents k j

pub record IsLedger (l : Ledger) : Type 0 where
  pub seqs : l.source_seq ≡ l.upload_job_seq
  pub jobs : Jobs l.upload_job_seq l.sources l.upload_jobs
  pub documents : Documents l.document_seq l.upload_jobs l.documents
  pub index_jobs : IndexJobs l.documents l.index_jobs
  pub owned : AllOwned l.upload_jobs l.documents

source_ne : (m n : ℕ) → job_id_of m ≢ job_id_of n → source_id_of m ≢ source_id_of n
source_ne m n ne same =
    ne (ap job_id_of (numbered_injective (codes "a21-workspace-source-") m n same))

-- A number beyond those given names nothing yet.
pub job_id_fresh :
    (seq : ℕ) (sources : Table Source) (jobs : Table UploadJob) (k : Text) (j : UploadJob)
    → Jobs seq sources jobs
    → lookup k jobs ≡ some j
    → k ≢ job_id_of (suc seq)
job_id_fresh seq sources jobs k j v found same =
    let e = v k j found in
    numbered_ne (codes "a21-workspace-job-") e.number (suc seq) (omega (arith, e.within))
      (sym e.keyed ∙ same)

pub document_id_fresh :
    (seq : ℕ) (jobs : Table UploadJob) (documents : Table Document) (k : Text) (d : Document)
    → Documents seq jobs documents
    → lookup k documents ≡ some d
    → k ≢ document_id_of (suc seq)
document_id_fresh seq jobs documents k d v found same =
    let e = v k d found in
    numbered_ne (codes "a21-workspace-document-") e.number (suc seq) (omega (arith, e.within))
      (sym e.keyed ∙ same)

-- A job is written together with the source that shows it.
pub put-Jobs :
    (seq seq' n : ℕ) (sources : Table Source) (jobs : Table UploadJob) (j : UploadJob)
    → seq ≤ seq'
    → n ≤ seq'
    → j.job_id ≡ job_id_of n
    → j.source_id ≡ source_id_of n
    → Jobs seq sources jobs
    → Jobs seq' (insert (source_id_of n) (shown j) sources) (insert (job_id_of n) j jobs)
put-Jobs seq seq' n sources jobs j grows within own_id own_source v k j' found =
    elim (lookup-insert_cases k (job_id_of n) j j' jobs found) [
      | inl (here, same) ↦ record {
        number = n;
        within = within;
        keyed = here;
        own_id = rw (← same) (own_id ∙ sym here);
        own_source = rw (← same) own_source;
        mirrored =
            lookup-insert_self (source_id_of n) (shown j) sources ∙ ap (λ x. some (shown x)) same;
      }
      | inr (ne, before) ↦
          let e = v k j' before in
          record {
            number = e.number;
            within = omega (arith, e.within);
            keyed = e.keyed;
            own_id = e.own_id;
            own_source = e.own_source;
            mirrored =
                lookup-insert_of_ne (source_id_of e.number) (source_id_of n) (shown j) sources
                  (source_ne e.number n (λ same. ne (e.keyed ∙ same)))
                ∙ e.mirrored;
          }
    ]

-- The same at the keys as the code writes them.
pub put-Jobs_at :
    (seq seq' n : ℕ) (sources : Table Source) (jobs : Table UploadJob) (key source : Text)
    (j : UploadJob)
    → seq ≤ seq'
    → n ≤ seq'
    → key ≡ job_id_of n
    → source ≡ source_id_of n
    → j.job_id ≡ key
    → j.source_id ≡ source
    → Jobs seq sources jobs
    → Jobs seq' (insert source (shown j) sources) (insert key j jobs)
put-Jobs_at seq seq' n sources jobs key source j grows within at_key at_source own_id own_source v =
    rw (at_key, at_source)
      (put-Jobs seq seq' n sources jobs j grows within (own_id ∙ at_key) (own_source ∙ at_source) v)

pub is_empty-source_id_of : (n : ℕ) → is_empty (source_id_of n) ≡ false
unfolding numbered
is_empty-source_id_of n = refl

pub is_empty-document_id_of : (n : ℕ) → is_empty (document_id_of n) ≡ false
unfolding numbered
is_empty-document_id_of n = refl

pub is_empty-trim_document_id_of : (n : ℕ) → is_empty (trim_space (document_id_of n)) ≡ false
unfolding numbered trim_space
is_empty-trim_document_id_of n = refl

pub is_empty-job_id_of : (n : ℕ) → is_empty (job_id_of n) ≡ false
unfolding numbered
is_empty-job_id_of n = refl
