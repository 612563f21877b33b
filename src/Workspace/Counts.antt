-- ===== src/Workspace/Counts.antt =====
-- What the summary of the sources counts.
use a21_stackchan_workmate.Base.{
  ℕ, suc, ◌+◌, ◌≡◌, refl, ap, ◌∙◌, Bool, true, false, not, ◌&&◌, List, [], ◌∷◌, arith, length, Text,
  text_eq,
}
use a21_stackchan_workmate.Workspace.{
  Source, Summary, valid_workspace_source_scope, empty_workspace_source_summary, count_if,
  summary_step, summary_loop, workspace_source_summary,
}

-- How many entries of a list pass a test.
abbrev pub count : (Source → Bool) → List Source → ℕ
count p [] = 0
count p (s ∷ sources) = count_if (p s) (count p sources)

abbrev pub is_live : Source → Bool
is_live s = not s.deleted

-- The sources that a count by scope takes in.
abbrev pub in_scope : Text → Source → Bool
in_scope k s = is_live s && valid_workspace_source_scope s.source_scope && text_eq k s.source_scope

abbrev pub Counted : Summary → List Source → Summary → Type 0
Counted m sources n =
    (n.total_sources ≡ length sources + m.total_sources)
    × (n.metadata_only_sources ≡ count (λ s. s.metadata_only) sources + m.metadata_only_sources)
    × (n.stored_local_sources ≡ count (λ s. s.stored_local) sources + m.stored_local_sources)
    × (n.deleted_sources ≡ count (λ s. s.deleted) sources + m.deleted_sources)
    × (n.searchable_sources ≡ count (λ s. is_live s && s.searchable) sources + m.searchable_sources)
    × (n.indexing_requested_sources
        ≡ count (λ s. is_live s && s.indexing_requested) sources + m.indexing_requested_sources)
    × ((k : Text) → n.source_scope_counts k ≡ count (in_scope k) sources + m.source_scope_counts k)
    × ((k : Text)
        → n.stored_local_source_scope_counts k
          ≡ count (λ s. in_scope k s && s.stored_local) sources
            + m.stored_local_source_scope_counts k)
    × ((k : Text)
        → n.indexing_requested_source_scope_counts k
          ≡ count (λ s. in_scope k s && s.indexing_requested) sources
            + m.indexing_requested_source_scope_counts k)
    × ((k : Text)
        → n.searchable_source_scope_counts k
          ≡ count (λ s. in_scope k s && s.searchable) sources + m.searchable_source_scope_counts k)

count_if-add : (b : Bool) (n m : ℕ) → n + count_if b m ≡ count_if b n + m
count_if-add true n m = omega arith
count_if-add false n m = omega arith

-- A field that each round counts up under a test ends at the number of entries that pass it.
module _ (field : Summary → ℕ) (test : Source → Bool) where
  loop_counts :
      ((s : Source) (m : Summary) → field (summary_step s m) ≡ count_if (test s) (field m))
      → (sources : List Source) (m : Summary)
      → field (summary_loop sources m) ≡ count test sources + field m
  unfolding summary_loop
  loop_counts h [] m = omega arith
  loop_counts h (s ∷ sources) m =
      loop_counts h sources (summary_step s m)
      ∙ ap (λ (n : ℕ). count test sources + n) (h s m)
      ∙ count_if-add (test s) (count test sources) (field m)

count_if-cong : (b c : Bool) (n : ℕ) → b ≡ c → count_if b n ≡ count_if c n
count_if-cong b c n h = ap (λ (x : Bool). count_if x n) h

round-total : (s : Source) (m : Summary) → (summary_step s m).total_sources ≡ suc m.total_sources
unfolding summary_step
round-total s m = refl

total-all : (sources : List Source) → count (λ _. true) sources ≡ length sources
total-all [] = refl
total-all (s ∷ sources) = ap suc (total-all sources)

-- The loop adds to each count the number of sources of its kind: all, those with metadata only,
-- the stored, the deleted, and of the live ones the searchable and those with indexing requested;
-- and for each scope those live sources of a valid scope that have this very scope.
summary_loop-Counted :
    (sources : List Source) (m : Summary) → Counted m sources (summary_loop sources m)
unfolding summary_step
summary_loop-Counted sources m = (
  loop_counts (λ n. n.total_sources) (λ _. true) (λ s n. refl) sources m
      ∙ ap (λ (n : ℕ). n + m.total_sources) (total-all sources),
  loop_counts (λ n. n.metadata_only_sources) (λ s. s.metadata_only) (λ s n. refl) sources m,
  loop_counts (λ n. n.stored_local_sources) (λ s. s.stored_local) (λ s n. refl) sources m,
  loop_counts (λ n. n.deleted_sources) (λ s. s.deleted) (λ s n. refl) sources m,
  loop_counts (λ n. n.searchable_sources) (λ s. is_live s && s.searchable) (λ s n. refl) sources m,
  loop_counts (λ n. n.indexing_requested_sources) (λ s. is_live s && s.indexing_requested)
      (λ s n. refl) sources m,
  (λ k. loop_counts (λ n. n.source_scope_counts k) (in_scope k) (λ s n. ground arith) sources m),
  (λ k.
      loop_counts (λ n. n.stored_local_source_scope_counts k) (λ s. in_scope k s && s.stored_local)
        (λ s n. ground arith) sources m),
  (λ k.
      loop_counts (λ n. n.indexing_requested_source_scope_counts k)
        (λ s. in_scope k s && s.indexing_requested) (λ s n. ground arith) sources m),
  (λ k.
      loop_counts (λ n. n.searchable_source_scope_counts k) (λ s. in_scope k s && s.searchable)
        (λ s n. ground arith) sources m),
)

-- The summary counts all sources, those with metadata only, the stored, the deleted, and of the
-- live ones the searchable and those with indexing requested; and for each scope the live sources,
-- the stored, those with indexing requested and the searchable ones whose scope is valid and is
-- this very text.
pub workspace_source_summary-Counted :
    (sources : List Source)
    → Counted empty_workspace_source_summary sources (workspace_source_summary sources)
unfolding workspace_source_summary
workspace_source_summary-Counted sources =
    summary_loop-Counted sources empty_workspace_source_summary
