-- ===== src/Workspace/Ledger.antt =====
-- The ledger of the workspace (internal/gateway/server.go): the tables of upload jobs, sources,
-- documents and index jobs, and the four operations that change them. A response is the id that the
-- operation reports on; an operation that is refused leaves the ledger alone.
mod Labels
mod Types
mod Create
mod Store
mod Delete
mod Change
mod Index
pub mod Steps
pub mod Mirror
pub mod Writes
pub mod Invariant
pub mod Deleted
pub mod Erased
pub mod Limits
mod Tests
unfoldable pub use Types.*
unfoldable pub use Labels.*
unfoldable pub use Create.*
unfoldable pub use Store.*
unfoldable pub use Delete.*
unfoldable pub use Change.*
unfoldable pub use Index.*
use a21_stackchan_workmate.Base.{ℕ, Bool, List, [], ◌∷◌, Text}

-- One request of a client; a change comes with whether the disk removes a file that it deletes.
pub data Request : Type 0 where
  create_job : UploadJobRequest → Request
  change : Bool → UploadJobRequest → Request
  upload : Upload → Request
  index : IndexJobRequest → Request

abbrev pub after : Ledger → Outcome (Ledger × Text) → Ledger
after l (done (next, id)) = next
after l (refused why) = l

module _ (sha256 : List ℕ → Text) where
  unfoldable pub handle : Request → ℕ → Ledger → Outcome (Ledger × Text)
  handle (create_job req) now_ms l = create_workspace_upload_job req now_ms l
  handle (change removed req) now_ms l = apply_workspace_upload_job_action removed req now_ms l
  handle (upload u) now_ms l = store_workspace_document_upload sha256 u now_ms l
  handle (index req) now_ms l = create_workspace_index_job req now_ms l

  -- Each request is one step, and the clock gives each its time.
  unfoldable pub run : List (Request × ℕ) → Ledger → Ledger
  run [] l = l
  run ((request, now_ms) ∷ requests) l = run requests (after l (handle request now_ms l))
