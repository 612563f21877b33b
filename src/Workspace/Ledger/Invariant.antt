-- ===== src/Workspace/Ledger/Invariant.antt =====
-- Every request keeps the tables of the ledger mirrored, so they are whatever the clients ask for.
mod Enter
mod Change
mod Perform
mod Index
use a21_stackchan_workmate.Base.{ℕ, List, [], none, lookup, refl, Text}
use a21_stackchan_workmate.Workspace.Ledger.{Ledger, Request, run, enter_upload_job, enter_document}
use a21_stackchan_workmate.Workspace.Ledger.Mirror.{IsLedger}
use a21_stackchan_workmate.Workspace.Ledger.Steps.{Survives, keep-run}
use Enter.{enter_upload_job-IsLedger, enter_document-IsLedger}
use Perform.{change_job-IsLedger}
use Index.{enter_index_job-IsLedger, check_index_job-IsChecked}
pub use Index.{Stands, IsChecked, check_index_job-IsChecked}
pub use Change.{same_value}
pub use Enter.{next_document_unnamed}

pub IsLedger-Survives : (sha256 : List ℕ → Text) → Survives sha256 IsLedger
IsLedger-Survives sha256 = record {
  untraced = λ l t v. record {
    seqs = v.seqs;
    jobs = v.jobs;
    documents = v.documents;
    index_jobs = v.index_jobs;
    owned = v.owned;
  };
  created = λ req now_ms l i v _. enter_upload_job-IsLedger i now_ms l v;
  uploaded =
      λ u now_ms l c v _. enter_document-IsLedger c.intake c.file.hash c.file.files now_ms l v;
  changed = λ key action now_ms job l v found. change_job-IsLedger key job now_ms l v found action;
  indexed = λ req now_ms l t v checked.
      enter_index_job-IsLedger _ t now_ms l v (check_index_job-IsChecked req l t checked).stands;
}

-- Whatever requests a mirrored ledger serves, it stays mirrored: every job stands under its own id,
-- the id with its number, and the source table shows it as it is; every document stands under its own
-- id and names a job that names the document and its source and says the same of the document's hash,
-- label, type, size and storage; every index job says the same of its document; a job's document names
-- the job; and a deleted document says nothing more of what it held.
pub run-IsLedger :
    (sha256 : List ℕ → Text) (requests : List (Request × ℕ)) (l : Ledger)
    → IsLedger l
    → IsLedger (run sha256 requests l)
run-IsLedger sha256 requests l v = keep-run sha256 IsLedger (IsLedger-Survives sha256) requests l v
