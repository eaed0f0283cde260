-- ===== src/Table.antt =====
-- What the repository's SQL statements do to a table, read as the list of its rows in `rowid` order:
-- SELECT, UPDATE and INSERT … ON CONFLICT DO NOTHING of node:sqlite, each with a WHERE test.
pub mod Laws
pub mod Order
pub mod Keys
pub mod Existence
pub mod Pairs
use openmurmur.Prelude.{
  ℕ, suc, Bool, true, false, ◌||◌, Option, none, some, List, [], ◌∷◌, ◌++◌, if◌then◌else◌,
}

module _ {ℓ} {A : Type ℓ} where
  -- `.get()` of a SELECT with no ORDER BY.
  unfoldable pub get : (A → Bool) → List A → Option A
  get test [] = none
  get test (r ∷ rows) = if test r then some r else get test rows

  unfoldable pub exists : (A → Bool) → List A → Bool
  exists test [] = false
  exists test (r ∷ rows) = test r || exists test rows

  -- `changes` of an UPDATE, and `count(*)` of a SELECT.
  unfoldable pub count : (A → Bool) → List A → ℕ
  count test [] = 0
  count test (r ∷ rows) = if test r then suc (count test rows) else count test rows

  unfoldable pub update : (A → Bool) → (A → A) → List A → List A
  update test set [] = []
  update test set (r ∷ rows) = (if test r then set r else r) ∷ update test set rows

  -- INSERT … ON CONFLICT (…) DO NOTHING.
  unfoldable pub insert : (A → Bool) → A → List A → List A
  insert conflicts row rows = if exists conflicts rows then rows else rows ++ row ∷ []

  -- ORDER BY … LIMIT 1 of the selected rows; of rows that no column orders, the first.
  unfoldable pub first_by : (A → A → Bool) → (A → Bool) → List A → Option A
  first_by before test [] = none
  first_by before test (r ∷ rows) =
      let rest = first_by before test rows in
      if test r
      then elim rest [ none ↦ some r | some s ↦ if before s r then some s else some r ]
      else rest
