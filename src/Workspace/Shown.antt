-- ===== src/Workspace/Shown.antt =====
-- The source that shows a job.
use a21_stackchan_workmate.Base.{◌≡◌, refl, ◌≢◌, ◌↔◌, true, not, arith, codes, text_eq_iff}
use a21_stackchan_workmate.Workspace.{
  UploadJob, Source, JobStatus, IndexStatus, job_deleted, job_accepted, index_searchable,
  deleted_ready, searchable_ready, workspace_source_readiness_for_job, workspace_source_from_job,
  same_readiness,
}

-- The source as the code shows a job that has changed.
abbrev pub shown : UploadJob → Source
shown job =
    workspace_source_from_job job (workspace_source_readiness_for_job job.status job.index_status)

deleted_iff :
    (s : JobStatus) (i : IndexStatus)
    → (same_readiness (workspace_source_readiness_for_job s i) deleted_ready ≡ true)
      ↔ (s ≡ job_deleted)
unfolding workspace_source_readiness_for_job
deleted_iff s i = ground arith

searchable_iff :
    (s : JobStatus) (i : IndexStatus)
    → (same_readiness (workspace_source_readiness_for_job s i) searchable_ready ≡ true)
      ↔ ((s ≡ job_accepted) × (i ≡ index_searchable))
unfolding workspace_source_readiness_for_job
searchable_iff s i = ground arith

-- The source of a job is deleted exactly where the job is; it is searchable exactly where the job is
-- accepted with its index searchable; it counts as stored exactly where the job's storage status is
-- stored_local and the job is not deleted, and as metadata only exactly where it is not stored.
pub shown-Agrees :
    (job : UploadJob)
    → (((shown job).deleted ≡ true) ↔ (job.status ≡ job_deleted))
      × (((shown job).searchable ≡ true)
          ↔ ((job.status ≡ job_accepted) × (job.index_status ≡ index_searchable)))
      × (((shown job).stored_local ≡ true)
          ↔ ((job.storage_status ≡ codes "stored_local") × (job.status ≢ job_deleted)))
      × ((shown job).metadata_only ≡ not (shown job).stored_local)
unfolding workspace_source_from_job
shown-Agrees job = (
  deleted_iff job.status job.index_status,
  searchable_iff job.status job.index_status,
  ground (
    arith,
    text_eq_iff job.storage_status (codes "stored_local"),
    deleted_iff job.status job.index_status,
  ),
  refl,
)
