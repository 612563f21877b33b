-- ===== src/Base/Tables.antt =====
-- Go's maps with text keys as association lists: one value to a key, and the range loops that
-- change each value.
use mathlib.Core.Path.{◌≡◌, refl}
use mathlib.Core.Logic.{◌≢◌, ◌⊎◌, inl, inr}
use mathlib.Core.Option
use mathlib.Core.Option.{Option, none, some}
use mathlib.Core.List.{List, [], ◌∷◌}
use native.Mathlib.Omega.{arith}
use a21_stackchan_workmate.Base.Tests.{if◌then◌else◌, Bool-cases, Option-cases}
use a21_stackchan_workmate.Base.Strings.{Text, text_eq, text_eq_iff, text_eq_refl}

module _ {ℓ} where
  abbrev pub Table : Type ℓ → Type ℓ
  Table V = List (Text × V)

module _ {ℓ} {V : Type ℓ} where
  -- table[key], with `none` for a key that is missing
  unfoldable pub lookup : Text → Table V → Option V
  lookup key [] = none
  lookup key ((k, v) ∷ table) = if text_eq key k then some v else lookup key table

  -- table[key] = value
  unfoldable pub insert : Text → V → Table V → Table V
  insert key value [] = (key, value) ∷ []
  insert key value ((k, v) ∷ table) =
      if text_eq key k then (key, value) ∷ table else (k, v) ∷ insert key value table

  -- for key, value := range table { table[key] = change(value) }
  unfoldable pub update_all : (V → V) → Table V → Table V
  update_all change [] = []
  update_all change ((k, v) ∷ table) = (k, change v) ∷ update_all change table

  pub lookup-insert :
      (j k : Text) (v : V) (table : Table V)
      → lookup j (insert k v table) ≡ (if text_eq j k then some v else lookup j table)
  unfolding lookup insert
  lookup-insert j k v [] = refl
  lookup-insert j k v ((i, w) ∷ table) =
      ground (arith, text_eq_iff j k, text_eq_iff k i, text_eq_iff j i, lookup-insert j k v table)

  pub lookup-update_all :
      (j : Text) (change : V → V) (table : Table V)
      → lookup j (update_all change table) ≡ Option.map change (lookup j table)
  unfolding lookup update_all
  lookup-update_all j change [] = refl
  lookup-update_all j change ((i, w) ∷ table) = ground (arith, lookup-update_all j change table)

  pub lookup-insert_self :
      (k : Text) (v : V) (table : Table V) → lookup k (insert k v table) ≡ some v
  lookup-insert_self k v table = rw (lookup-insert k k v table, text_eq_refl k)

  pub lookup-insert_of_ne :
      (j k : Text) (v : V) (table : Table V) → j ≢ k → lookup j (insert k v table) ≡ lookup j table
  lookup-insert_of_ne j k v table ne = ground (arith, lookup-insert j k v table, text_eq_iff j k)

  -- What stands in a table after a write: the new value, or what stood there before.
  pub lookup-insert_cases :
      (j k : Text) (v w : V) (table : Table V)
      → lookup j (insert k v table) ≡ some w
      → ((j ≡ k) × (v ≡ w)) ⊎ ((j ≢ k) × (lookup j table ≡ some w))
  lookup-insert_cases j k v w table found = elim (Bool-cases (text_eq j k)) [
    | inl e ↦
        inl ((text_eq_iff j k).0 e, ground (arith, rw (lookup-insert j k v table, e) at found))
    | inr e ↦
        inr (λ same. cc ((text_eq_iff j k).1 same, e), rw (lookup-insert j k v table, e) at found)
  ]

  pub lookup-update_all_cases :
      (j : Text) (change : V → V) (w : V) (table : Table V)
      → lookup j (update_all change table) ≡ some w
      → (v : V) × (lookup j table ≡ some v) × (w ≡ change v)
  lookup-update_all_cases j change w table found = elim (Option-cases (lookup j table)) [
    | inl e ↦ ground (arith, lookup-update_all j change table)
    | inr (v, e) ↦ (v, e, ground (arith, lookup-update_all j change table))
  ]
