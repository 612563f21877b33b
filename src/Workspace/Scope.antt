-- ===== src/Workspace/Scope.antt =====
-- When a query scope can be searched.
use a21_stackchan_workmate.Base.{
  ◌<◌, ◌≡◌, refl, sym, ap, ◌∙◌, ◌≢◌, ◌↔◌, ◌⊎◌, inl, inr, true, ◌&&◌, List, [], ◌∷◌, arith,
  Bool-cases, Text, codes, text_eq, text_eq_iff, one_of, trim_space, to_lower, trim_space_idem,
  trim_space-to_lower,
}
use mathlib.Core.Path.{subst}
use a21_stackchan_workmate.Workspace.{Source, Summary, workspace_source_summary}
use a21_stackchan_workmate.Workspace.Counts.{in_scope, workspace_source_summary-Counted}
use a21_stackchan_workmate.Workspace.Ready.{Found, count_iff}
use a21_stackchan_workmate.Workspace.Query.{
  searchable_scope, combined_searchable, workspace_single_scope_readiness, combined_scope_readiness,
  valid_query_scope, default_professional_query_scope, workspace_query_scope_readiness,
}

-- The sources that make a scope searchable.
abbrev pub Serves : Text → List Source → Type 0
Serves k sources = Found (λ s. in_scope k s && s.searchable) sources

scope-Serves :
    (k : Text) (sources : List Source)
    → (0 < (workspace_source_summary sources).searchable_source_scope_counts k) ↔ Serves k sources
scope-Serves k sources =
    let (_, _, _, _, _, _, _, _, _, counted) = workspace_source_summary-Counted sources in
    let found = count_iff (λ s. in_scope k s && s.searchable) sources in
    (λ h. found.0 (omega (arith, counted k, h)), (λ f. omega (arith, counted k, found.1 f)))

combined_iff :
    (m : Summary)
    → (combined_scope_readiness m ≡ combined_searchable) ↔ (
        (0 < m.searchable_source_scope_counts (codes "public"))
        × (0 < m.searchable_source_scope_counts (codes "personal")))
unfolding combined_scope_readiness
combined_iff m = ground arith

combined-Serves :
    (sources : List Source)
    → (combined_scope_readiness (workspace_source_summary sources) ≡ combined_searchable)
      ↔ (Serves (codes "public") sources × Serves (codes "personal") sources)
combined-Serves sources =
    let both = combined_iff (workspace_source_summary sources) in
    let public = scope-Serves (codes "public") sources in
    let personal = scope-Serves (codes "personal") sources in
    (
      λ h. (public.0 (both.0 h).0, personal.0 (both.0 h).1),
      (λ (p, q). both.1 (public.1 p, personal.1 q)),
    )

single_iff :
    (k : Text) (m : Summary)
    → (workspace_single_scope_readiness k m ≡ searchable_scope)
      ↔ (0 < m.searchable_source_scope_counts k)
unfolding workspace_single_scope_readiness
single_iff k m = ground arith

single-combined :
    (k : Text) (m : Summary) → workspace_single_scope_readiness k m ≢ combined_searchable
unfolding workspace_single_scope_readiness
single-combined k m = ground arith

combined-single : (m : Summary) → combined_scope_readiness m ≢ searchable_scope
unfolding combined_scope_readiness
combined-single m = ground arith

abbrev pub public_only : Text
public_only = codes "public_only"

abbrev pub personal_only : Text
personal_only = codes "personal_only"

abbrev pub personal_plus_public : Text
personal_plus_public = codes "personal_plus_public"

abbrev IsScope : Text → Type 0
IsScope t = (t ≡ public_only) ⊎ (t ≡ personal_only) ⊎ (t ≡ personal_plus_public)

one_of-IsScope :
    (t : Text)
    → one_of t (public_only ∷ personal_only ∷ personal_plus_public ∷ []) ≡ true
    → IsScope t
unfolding one_of
one_of-IsScope t h = ground (
  arith,
  text_eq_iff t public_only,
  text_eq_iff t personal_only,
  text_eq_iff t personal_plus_public,
)

lowered-IsScope :
    (t : Text)
    → valid_query_scope (to_lower (trim_space t)) ≡ true
    → IsScope (to_lower (trim_space t))
unfolding valid_query_scope
lowered-IsScope t h = one_of-IsScope (to_lower (trim_space t)) (
    subst (λ (x : Text). one_of x (public_only ∷ personal_only ∷ personal_plus_public ∷ []) ≡ true)
      (trim_space-to_lower (trim_space t) ∙ ap to_lower (trim_space_idem t)) h)

default-IsScope : (t : Text) → IsScope (default_professional_query_scope t)
unfolding default_professional_query_scope
default-IsScope t = elim (Bool-cases (valid_query_scope (to_lower (trim_space t)))) [
  | inl e ↦ simp e (lowered-IsScope t e)
  | inr e ↦ simp e (inl refl)
]

scopes-apart : public_only ≢ personal_only
scopes-apart = ground arith

public_only-apart : public_only ≢ personal_plus_public
public_only-apart = ground arith

personal_only-apart : personal_only ≢ personal_plus_public
personal_only-apart = ground arith

-- The readiness of a query, by the scope that it comes to.
query_cases :
    (t : Text) (m : Summary)
    → ((default_professional_query_scope t ≡ public_only)
        × (workspace_query_scope_readiness t m
            ≡ workspace_single_scope_readiness (codes "public") m))
      ⊎ ((default_professional_query_scope t ≡ personal_only)
          × (workspace_query_scope_readiness t m
              ≡ workspace_single_scope_readiness (codes "personal") m))
      ⊎ ((default_professional_query_scope t ≡ personal_plus_public)
          × (workspace_query_scope_readiness t m ≡ combined_scope_readiness m))
unfolding workspace_query_scope_readiness text_eq
query_cases t m = elim (default-IsScope t) [
  | inl e ↦ inl (e, simp e refl)
  | inr (inl e) ↦ inr (inl (e, simp e refl))
  | inr (inr e) ↦ inr (inr (e, simp e refl))
]

-- A query may search both scopes exactly where it asks for the combined scope and the workspace has
-- a searchable source of the public scope and one of the personal scope, neither of them deleted.
pub workspace_query_scope_readiness-combined_iff :
    (t : Text) (sources : List Source)
    → (workspace_query_scope_readiness t (workspace_source_summary sources) ≡ combined_searchable)
      ↔ ((default_professional_query_scope t ≡ personal_plus_public)
          × Serves (codes "public") sources
          × Serves (codes "personal") sources)
workspace_query_scope_readiness-combined_iff t sources =
    let m = workspace_source_summary sources in
    let both = combined-Serves sources in
    elim (query_cases t m) [
      | inl (e, q) ↦ (
        (λ h. absurd (single-combined (codes "public") m (sym q ∙ h))),
        (λ (d, _, _). absurd (public_only-apart (sym e ∙ d))),
      )
      | inr (inl (e, q)) ↦ (
        (λ h. absurd (single-combined (codes "personal") m (sym q ∙ h))),
        (λ (d, _, _). absurd (personal_only-apart (sym e ∙ d))),
      )
      | inr (inr (e, q)) ↦ (
        (λ h. (e, (both.0 (sym q ∙ h)).0, (both.0 (sym q ∙ h)).1)),
        (λ (_, a, b). q ∙ both.1 (a, b)),
      )
    ]

-- A query may search a single scope exactly where it asks for that scope, public or personal, and
-- the workspace has a searchable source of it that is not deleted.
workspace_query_scope_readiness-searchable_iff :
    (t : Text) (sources : List Source)
    → (workspace_query_scope_readiness t (workspace_source_summary sources) ≡ searchable_scope) ↔ (
        ((default_professional_query_scope t ≡ public_only) × Serves (codes "public") sources)
        ⊎ ((default_professional_query_scope t ≡ personal_only)
            × Serves (codes "personal") sources))
workspace_query_scope_readiness-searchable_iff t sources =
    let m = workspace_source_summary sources in
    let public = single_iff (codes "public") m in
    let personal = single_iff (codes "personal") m in
    let served_public = scope-Serves (codes "public") sources in
    let served_personal = scope-Serves (codes "personal") sources in
    elim (query_cases t m) [
      | inl (e, q) ↦ (
        (λ h. inl (e, served_public.0 (public.0 (sym q ∙ h)))),
        (λ u. elim u [
          | inl (_, s) ↦ q ∙ public.1 (served_public.1 s)
          | inr (d, _) ↦ absurd (scopes-apart (sym e ∙ d))
        ]),
      )
      | inr (inl (e, q)) ↦ (
        (λ h. inr (e, served_personal.0 (personal.0 (sym q ∙ h)))),
        (λ u. elim u [
          | inl (d, _) ↦ absurd (scopes-apart (sym d ∙ e))
          | inr (_, s) ↦ q ∙ personal.1 (served_personal.1 s)
        ]),
      )
      | inr (inr (e, q)) ↦ (
        (λ h. absurd (combined-single m (sym q ∙ h))),
        (λ u. elim u [
          | inl (d, _) ↦ absurd (public_only-apart (sym d ∙ e))
          | inr (d, _) ↦ absurd (personal_only-apart (sym d ∙ e))
        ]),
      )
    ]
