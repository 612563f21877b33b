-- ===== src/Workspace/Ledger/Tests.antt =====
-- A ledger that stored the same document twice.
use a21_stackchan_workmate.Base.{
  trim_prefix, numbered_ne, arith, ◌≢◌, some, ℕ, zero, suc, ◌≡◌, refl, List, [], ◌∷◌, Text, lookup,
  codes, pos, true, false, text_eq, one_of, is_space, trim_left, trim_right, trim_space, lower_rune,
  to_lower, has_prefix, contains, byte_len, decimal, digits_above, all_runes, is_digit, is_lower,
  is_upper, insert, update_all, numbered, padded, zeros,
}
use a21_stackchan_workmate.Adapter.{
  contains_one_of, safe_adapter_label, validate_professional_query_request,
  valid_professional_label,
}
use a21_stackchan_workmate.Workspace.{
  workspace_source_from_job, workspace_source_readiness_for_job, valid_workspace_source_scope,
}
use a21_stackchan_workmate.Workspace.Query.{default_professional_query_scope, valid_query_scope}
use a21_stackchan_workmate.Workspace.Ledger.{
  done, Document, Intake, IndexTarget, path_of, Ledger, UploadJobRequest, IndexJobRequest, Upload,
  Request, upload, change, index, after, handle, run, record_trace, put_file, remove_file, has_file,
  default_professional_label, override_label, resolve_professional_workspace,
  default_workspace_source_scope, default_workspace_source_kind, valid_workspace_source_kind,
  safe_workspace_document_label, safe_workspace_content_type, safe_optional_workspace_label,
  normalize_workspace_ledger_id, accepted_job, check_upload_job, enter_upload_job, trace_all,
  create_workspace_upload_job, valid_workspace_document_sha256, workspace_document_path, stored_job,
  stored_document, enter_document, store_workspace_document_file, check_document_upload,
  store_workspace_document_upload, tombstone_document, tombstone_index_job, tombstone_if,
  tombstone_all, delete_document, delete_workspace_document_for_job, action_of, fail_job,
  searchable_job, retry_job, delete_job, perform, save_job, trace_change, change_job,
  apply_workspace_upload_job_action, document_id_of_job, document_id_of_source, target_document_id,
  find_target, resolve_ids, resolve_workspace_index_target, can_index, origin_of, indexing_document,
  indexing_job, new_index_job, enter_index_job, check_index_job, create_workspace_index_job,
  job_id_of, document_id_of, refused, store_file_unavailable,
}
use a21_stackchan_workmate.Workspace.Ledger.Mirror.{IsLedger}
use a21_stackchan_workmate.Workspace.Ledger.Invariant.{run-IsLedger}
use a21_stackchan_workmate.Workspace.Ledger.Erased.{IsErased, run-IsErased}
use a21_stackchan_workmate.Workspace.Ledger.Limits.{
  IsSearchable, apply_workspace_upload_job_action-IsSearchable,
  apply_workspace_upload_job_action_strands,
}

abbrev empty_ledger : Ledger
empty_ledger = record {
  user_id_config = [];
  workspace_config = [];
  query_scope_config = [];
  document_max_bytes = pos 8;
  upload_jobs = [];
  upload_job_seq = 0;
  index_jobs = [];
  index_job_seq = 0;
  sources = [];
  source_seq = 0;
  documents = [];
  document_seq = 0;
  files = [];
  traces = [];
}

empty_ledger-IsLedger : IsLedger empty_ledger
unfolding lookup
empty_ledger-IsLedger = record {
  seqs = refl;
  jobs = λ k j here. cc;
  documents = λ k d here. cc;
  index_jobs = λ k i here. cc;
  owned = λ k j here. cc;
}

abbrev same : ℕ → Text → Text
same zero s = s
same (suc n) s = b'a' ∷ same n s

-- Every content has the same digest here.
abbrev digest : List ℕ → Text
digest content = same 64 []

abbrev notes : Upload
notes = record {
  request = record {
    user_id = codes "U1";
    workspace_id = [];
    source_scope = [];
    document_label = codes " notes ";
    content_type = codes "text/plain";
    trace_id = [];
    session_id = [];
    device_id = [];
  };
  header_content_type = [];
  content = 1 ∷ 2 ∷ 3 ∷ [];
  disk = record { copied = true; renamed = true };
}

abbrev about : Text → Text → UploadJobRequest
about job_id action = record {
  job_id = job_id;
  action = action;
  user_id = [];
  workspace_id = [];
  source_scope = [];
  source_kind = [];
  document_label = [];
  content_type = [];
  size_bytes = pos 0;
  trace_id = [];
  session_id = [];
  device_id = [];
}

abbrev index_first : IndexJobRequest
index_first = record {
  document_id = document_id_of 1;
  job_id = [];
  source_id = [];
  trace_id = [];
  session_id = [];
  device_id = [];
}

abbrev history : List (Request × ℕ)
history = (upload notes, 5) ∷ (upload notes, 6) ∷ (index index_first, 7) ∷ []

abbrev delete_first : UploadJobRequest
delete_first = about (job_id_of 1) (codes "Delete")

abbrev stored_twice : Ledger
stored_twice = run digest history empty_ledger

stored_twice-IsLedger : IsLedger stored_twice
stored_twice-IsLedger = run-IsLedger digest history empty_ledger empty_ledger-IsLedger

-- What the code does on this ledger, as one name for the unfolding lines below.
executed : Ledger → Ledger
unfolding text_eq one_of is_space trim_left trim_right trim_space lower_rune to_lower has_prefix
    contains byte_len decimal digits_above all_runes is_digit is_lower is_upper insert lookup
    update_all numbered padded zeros contains_one_of safe_adapter_label
    validate_professional_query_request valid_professional_label workspace_source_from_job
    workspace_source_readiness_for_job valid_workspace_source_scope default_professional_query_scope
    valid_query_scope handle run record_trace put_file remove_file has_file
    default_professional_label override_label resolve_professional_workspace
    default_workspace_source_scope default_workspace_source_kind valid_workspace_source_kind
    safe_workspace_document_label safe_workspace_content_type safe_optional_workspace_label
    normalize_workspace_ledger_id accepted_job check_upload_job enter_upload_job trace_all
    create_workspace_upload_job valid_workspace_document_sha256 trim_prefix workspace_document_path
    stored_job stored_document enter_document store_workspace_document_file check_document_upload
    store_workspace_document_upload tombstone_document tombstone_index_job tombstone_if
    tombstone_all delete_document delete_workspace_document_for_job action_of fail_job
    searchable_job retry_job delete_job perform save_job trace_change change_job
    apply_workspace_upload_job_action document_id_of_job document_id_of_source target_document_id
    find_target resolve_ids resolve_workspace_index_target can_index origin_of indexing_document
    indexing_job new_index_job enter_index_job check_index_job create_workspace_index_job
executed l = l

-- The index job of the first document is entered, and the second document cannot be indexed once the
-- first is deleted.
index_test : (executed stored_twice).index_job_seq ≡ 1
unfolding executed
index_test = refl

shared_file_test :
    handle digest
      (index (record index_first { document_id = document_id_of 2 }))
      9
      (executed (after stored_twice (handle digest (change true delete_first) 8 stored_twice)))
    ≡ refused store_file_unavailable
unfolding executed
shared_file_test = refl

-- Where the file cannot be removed, the index job of the second document is entered.
kept_file_test :
    (executed (
      run digest
        ((change false delete_first, 8)
          ∷ (index (record index_first { document_id = document_id_of 2 }), 9)
          ∷ [])
        stored_twice)).index_job_seq
    ≡ 2
unfolding executed
kept_file_test = refl

run-IsErased_example : IsErased (document_id_of 1) (
    run digest
      ((change true delete_first, 8) ∷ (change true (about (job_id_of 1) (codes "retry")), 9) ∷ [])
      stored_twice)
unfolding executed
run-IsErased_example =
    run-IsErased digest (document_id_of 1) _ true delete_first 8
      ((change true (about (job_id_of 1) (codes "retry")), 9) ∷ []) stored_twice
      stored_twice-IsLedger refl refl refl

run-IsLedger_example : IsLedger (run digest history empty_ledger)
run-IsLedger_example = run-IsLedger digest history empty_ledger empty_ledger-IsLedger

abbrev first_deleted : Ledger
first_deleted = run digest ((change true delete_first, 8) ∷ []) stored_twice

first_deleted-IsLedger : IsLedger first_deleted
first_deleted-IsLedger =
    run-IsLedger digest ((change true delete_first, 8) ∷ []) stored_twice stored_twice-IsLedger

apply_workspace_upload_job_action-IsSearchable_example : IsSearchable (job_id_of 1) (
    after first_deleted (
      apply_workspace_upload_job_action true
        (about (job_id_of 1) (codes "mark_searchable"))
        9
        first_deleted))
unfolding executed
apply_workspace_upload_job_action-IsSearchable_example =
    apply_workspace_upload_job_action-IsSearchable (job_id_of 1) _ true
      (about (job_id_of 1) (codes "mark_searchable")) 9 first_deleted first_deleted-IsLedger refl
      refl refl refl refl

abbrev notes_intake : Intake
notes_intake = record {
  owner = record {
    user_id = codes "u1";
    workspace_id = codes "a21_local_workspace";
    query_scope = codes "public_only";
  };
  source_scope = codes "personal";
  source_kind = codes "upload";
  document_label = codes "notes";
  content_type = codes "text/plain";
  size_bytes = 3;
  trace_id = [];
  session_id = [];
  device_id = [];
}

abbrev second_document : Document
second_document = stored_document notes_intake (digest []) 2 2 2 6

abbrev second_target : IndexTarget
second_target = record {
  document = second_document;
  job = stored_job notes_intake (digest []) 2 2 2 6;
}

apply_workspace_upload_job_action_strands_example :
    (lookup
        (document_id_of 2)
        (after stored_twice
          (apply_workspace_upload_job_action true delete_first 8 stored_twice)).documents
      ≡ some second_document)
    × (check_index_job
          (record index_first { document_id = document_id_of 2 })
          (after stored_twice (apply_workspace_upload_job_action true delete_first 8 stored_twice))
        ≢ done second_target)
unfolding executed
apply_workspace_upload_job_action_strands_example =
    apply_workspace_upload_job_action_strands (document_id_of 1) (document_id_of 2) _
      second_document (path_of notes_intake.owner (codes "personal") (digest [])) delete_first 8
      stored_twice stored_twice-IsLedger refl refl
      (numbered_ne (codes "a21-workspace-document-") 2 1 (omega arith)) refl refl refl refl
      (record index_first { document_id = document_id_of 2 }) second_target refl
