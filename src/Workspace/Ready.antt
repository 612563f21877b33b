-- ===== src/Workspace/Ready.antt =====
-- What the status of the summary says of the sources.
use a21_stackchan_workmate.Base.{
  ◌≤◌, ◌<◌, ◌≡◌, refl, ◌↔◌, inl, inr, Bool, true, ◌&&◌, List, [], ◌∷◌, arith, Bool-cases, length,
  All,
}
use mathlib.Core.List.{Memᴰ}
use a21_stackchan_workmate.Workspace.{
  Source, Summary, searchable_status, deleted_status, empty_workspace_source_summary,
  status_of_summary, summary_loop, workspace_source_summary,
}
use a21_stackchan_workmate.Workspace.Counts.{count, is_live, workspace_source_summary-Counted}

-- Some entry of the list passes the test.
pub record Found (test : Source → Bool) (sources : List Source) : Type 0 where
  pub entry : Source
  pub listed : Memᴰ entry sources
  pub passes : test entry ≡ true

module _ (test : Source → Bool) where
  Found-later : (s : Source) (sources : List Source) → Found test sources → Found test (s ∷ sources)
  Found-later s sources f = record {
    entry = f.entry;
    listed = Memᴰ.tail f.listed;
    passes = f.passes;
  }

  Found-count : (sources : List Source) → 0 < count test sources → Found test sources
  Found-count [] h = absurd (omega (arith, h))
  Found-count (s ∷ sources) h = elim (Bool-cases (test s)) [
    | inl e ↦ record { entry = s; listed = Memᴰ.head refl; passes = e }
    | inr e ↦ Found-later s sources (Found-count sources (ground (arith, h)))
  ]

  count-head : (s : Source) (sources : List Source) → test s ≡ true → 0 < count test (s ∷ sources)
  count-head s sources h = ground arith

  count-tail :
      (s : Source) (sources : List Source) → 0 < count test sources → 0 < count test (s ∷ sources)
  count-tail s sources h = ground arith

  count-Mem :
      (s : Source) (sources : List Source) → Memᴰ s sources → test s ≡ true → 0 < count test sources
  count-Mem s [] m h = elim m [ ]
  count-Mem s (s' ∷ sources) (Memᴰ.head e) h = count-head s' sources (rw e at h)
  count-Mem s (s' ∷ sources) (Memᴰ.tail m) h = count-tail s' sources (count-Mem s sources m h)

  pub count_iff : (sources : List Source) → (0 < count test sources) ↔ Found test sources
  count_iff sources = (Found-count sources, (λ f. count-Mem f.entry sources f.listed f.passes))

abbrev pub live_and : (Source → Bool) → Source → Bool
live_and test s = is_live s && test s

status_searchable_iff :
    (m : Summary) → (status_of_summary m ≡ searchable_status) ↔ (0 < m.searchable_sources)
unfolding status_of_summary
status_searchable_iff m = ground arith

-- A workspace is searchable exactly where some source that is not deleted is.
workspace_source_summary-searchable_iff :
    (sources : List Source)
    → ((workspace_source_summary sources).workspace_status ≡ searchable_status)
      ↔ Found (live_and (λ s. s.searchable)) sources
unfolding workspace_source_summary
workspace_source_summary-searchable_iff sources =
    let (_, _, _, _, counted, _, _, _, _, _) = workspace_source_summary-Counted sources in
    let found = count_iff (live_and (λ s. s.searchable)) sources in
    let status = status_searchable_iff (summary_loop sources empty_workspace_source_summary) in
    (
      λ h. found.0 (omega (arith, counted, status.0 h)),
      (λ f. status.1 (omega (arith, counted, found.1 f))),
    )

count-length : (sources : List Source) → count (λ s. s.deleted) sources ≤ length sources
count-length [] = omega arith
count-length (s ∷ sources) = ground (arith, count-length sources)

count-All :
    (sources : List Source)
    → count (λ s. s.deleted) sources ≡ length sources
    → All (λ s. s.deleted ≡ true) sources
count-All [] h = tt
count-All (s ∷ sources) h =
    let le = count-length sources in
    (ground (arith, h, le), count-All sources (ground (arith, h, le)))

All-count :
    (test : Source → Bool) (sources : List Source)
    → All (λ s. s.deleted ≡ true) sources
    → (count (λ s. s.deleted) sources ≡ length sources) × (count (live_and test) sources ≡ 0)
All-count test [] h = (refl, refl)
All-count test (s ∷ sources) (d, h) = let later = All-count test sources h in ground arith

status_deleted_iff :
    (m : Summary)
    → (status_of_summary m ≡ deleted_status) ↔ (
        (m.searchable_sources ≡ 0)
        × (m.indexing_requested_sources ≡ 0)
        × (m.total_sources ≡ m.deleted_sources)
        × (0 < m.total_sources))
unfolding status_of_summary
status_deleted_iff m = ground arith

-- A workspace counts as deleted exactly where it has sources and all of them are deleted.
workspace_source_summary-deleted_iff :
    (sources : List Source)
    → ((workspace_source_summary sources).workspace_status ≡ deleted_status)
      ↔ ((0 < length sources) × All (λ s. s.deleted ≡ true) sources)
unfolding workspace_source_summary
workspace_source_summary-deleted_iff sources =
    let (total, _, _, gone, searching, indexing, _, _, _, _) =
      workspace_source_summary-Counted sources in
    let status = status_deleted_iff (summary_loop sources empty_workspace_source_summary) in
    (
      λ h.
          let (_, _, same, some_left) = status.0 h in
          (omega (arith, total, some_left), count-All sources (omega (arith, total, gone, same))),
      (λ (positive, all).
          let (whole, none_searching) = All-count (λ s. s.searchable) sources all in
          let (_, none_indexing) = All-count (λ s. s.indexing_requested) sources all in
          status.1 (
            omega (arith, searching, none_searching),
            omega (arith, indexing, none_indexing),
            omega (arith, total, gone, whole),
            omega (arith, total, positive),
          )),
    )
