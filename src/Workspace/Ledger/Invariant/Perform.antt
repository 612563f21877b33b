-- ===== src/Workspace/Ledger/Invariant/Perform.antt =====
-- Each action on a job keeps the tables mirrored.
use a21_stackchan_workmate.Base.{
  ℕ, ◌≡◌, inl, inr, refl, sym, ap, ◌∙◌, Text, lookup, some, Bool, Bool-cases, is_empty, true, false,
  trim_space,
}
use a21_stackchan_workmate.Workspace.{UploadJob}
use a21_stackchan_workmate.Workspace.Ledger.{
  Ledger, Action, mark_failed, mark_searchable, retry, delete, perform, change_job,
}
use a21_stackchan_workmate.Workspace.Ledger.Mirror.{IsLedger, Owned, is_empty-trim_document_id_of}
use a21_stackchan_workmate.Workspace.Ledger.Invariant.Change.{
  saved-IsLedger, erased-IsLedger, unowned, job_of_document,
}

module _ (key : Text) (job : UploadJob) (now_ms : ℕ) (l : Ledger) (v : IsLedger l)
    (found : lookup key l.upload_jobs ≡ some job) where
  delete_unowned-IsLedger :
      (removed : Bool)
      → is_empty job.document_id ≡ true
      → IsLedger (change_job key (delete removed) now_ms job l)
  unfolding change_job perform
  delete_unowned-IsLedger removed nothing = rw nothing (
      saved-IsLedger key job l v found _ refl refl refl
        (λ k d here own. absurd (unowned key job l v found nothing k d here own)))

  delete-Owned-IsLedger :
      (removed : Bool)
      → is_empty job.document_id ≡ false
      → Owned l.documents key job
      → IsLedger (change_job key (delete removed) now_ms job l)
  unfolding change_job perform
  delete-Owned-IsLedger removed something (inl nothing) =
      absurd (let bad : true ≡ false = sym (ap is_empty nothing) ∙ something in cc)
  delete-Owned-IsLedger removed something (inr (d, stands, own)) =
      let e = v.documents job.document_id d stands in
      let trimmed : is_empty (trim_space job.document_id) ≡ false =
        ap (λ x. is_empty (trim_space x)) e.keyed ∙ is_empty-trim_document_id_of e.number in
      rw (something, trimmed, stands)
        (erased-IsLedger key job l v found removed now_ms d stands own _ refl refl refl refl)

  pub change_job-IsLedger : (action : Action) → IsLedger (change_job key action now_ms job l)
  unfolding change_job perform
  change_job-IsLedger mark_failed =
      saved-IsLedger key job l v found _ refl refl refl (job_of_document key job l v found)
  change_job-IsLedger mark_searchable =
      saved-IsLedger key job l v found _ refl refl refl (job_of_document key job l v found)
  change_job-IsLedger retry =
      saved-IsLedger key job l v found _ refl refl refl (job_of_document key job l v found)
  change_job-IsLedger (delete removed) = elim (Bool-cases (is_empty job.document_id)) [
    | inl nothing ↦ delete_unowned-IsLedger removed nothing
    | inr something ↦ delete-Owned-IsLedger removed something (v.owned key job found)
  ]
