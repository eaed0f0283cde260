-- ===== src/Table/Pairs.antt =====
-- A table against what became of it, row by row.
use openmurmur.Prelude.{◌≡◌, inl, inr, Bool, true, false, List, [], ◌∷◌, Bool-cases}
use openmurmur.Table.{update}

module _ {ℓ} {A : Type ℓ} where
  -- The rows of two tables are related, each with the one in its place.
  abbrev pub Pairs : (A → A → Type 0) → List A → List A → Type 0
  Pairs R [] [] = Unit {0}
  Pairs R [] (b ∷ bs) = ⊥
  Pairs R (a ∷ rows) [] = ⊥
  Pairs R (a ∷ rows) (b ∷ bs) = R a b × Pairs R rows bs

  pub update-Pairs :
      (R : A → A → Type 0) (test : A → Bool) (set : A → A) (rows : List A)
      → ((a : A) → test a ≡ true → R a (set a))
      → ((a : A) → test a ≡ false → R a a)
      → Pairs R rows (update test set rows)
  unfolding update
  update-Pairs R test set [] hit miss = tt
  update-Pairs R test set (a ∷ rows) hit miss = elim (Bool-cases (test a)) [
    | inl e ↦ rw e (hit a e, update-Pairs R test set rows hit miss)
    | inr e ↦ rw e (miss a e, update-Pairs R test set rows hit miss)
  ]
