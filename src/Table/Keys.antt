-- ===== src/Table/Keys.antt =====
-- Unique columns: PRIMARY KEY and UNIQUE of the schema, as the distinctness of a column's values.
use Prim.Native.String.{String}
use text.Mathlib.Text.{◌==◌ as str_eq}
use text.Mathlib.TextEquality.{eq_iff}
use mathlib.Core.List.{map-append}
use text.Mathlib.TextPositions.{eq_refl}
use openmurmur.Prelude.{
  ◌≡◌, ◌≢◌, refl, sym, ap, subst, ◌∙◌, Bool, true, false, some, List, [], ◌∷◌, ◌++◌, map, ◌≤◌, All,
  arith, inl, inr, Bool-cases,
}
use openmurmur.Table.{update, count, get, exists}
use openmurmur.Table.Laws.{exists_none, append-All, IsIn, map-update}

abbrev pub AreDistinct : List String → Type 0
AreDistinct [] = Unit {0}
AreDistinct (x ∷ xs) = All (λ y. y ≢ x) xs × AreDistinct xs

append-AreDistinct :
    (xs : List String) (y : String)
    → AreDistinct xs
    → All (λ x. x ≢ y) xs
    → AreDistinct (xs ++ y ∷ [])
append-AreDistinct [] y h k = (tt, tt)
append-AreDistinct (x ∷ xs) y (a, h) (n, k) =
    (append-All (λ z. z ≢ x) xs (y ∷ []) a ((λ e. n (sym e)), tt), append-AreDistinct xs y h k)

ne_of_str_eq : (x y : String) → str_eq x y ≡ false → x ≢ y
ne_of_str_eq x y e p = cc ((eq_iff x y).1 p)

module _ {A : Type 0} (key : A → String) where
  ne-All :
      (y : String) (rows : List A)
      → All (λ r. str_eq (key r) y ≡ false) rows
      → All (λ x. x ≢ y) (map key rows)
  ne-All y [] h = tt
  ne-All y (r ∷ rows) (e, h) = (ne_of_str_eq (key r) y e, ne-All y rows h)

  none-All :
      (test : A → Bool) (k : String) (rows : List A)
      → ((r : A) → test r ≡ true → key r ≡ k)
      → All (λ x. x ≢ k) (map key rows)
      → count test rows ≡ 0
  unfolding count
  none-All test k [] imp h = refl
  none-All test k (r ∷ rows) imp (n, h) = elim (Bool-cases (test r)) [
    | inl e ↦ absurd (n (imp r e))
    | inr e ↦ rw e (none-All test k rows imp h)
  ]

  -- A test that fixes the value of a unique column selects one row at most.
  pub count_le_one :
      (test : A → Bool) (k : String) (rows : List A)
      → ((r : A) → test r ≡ true → key r ≡ k)
      → AreDistinct (map key rows)
      → count test rows ≤ 1
  unfolding count
  count_le_one test k [] imp h = omega arith
  count_le_one test k (r ∷ rows) imp (a, h) = elim (Bool-cases (test r)) [
    | inl e ↦
        let others : count test rows ≡ 0 =
          none-All test k rows imp (subst (λ x. All (λ y. y ≢ x) (map key rows)) (imp r e) a) in
        ground (arith, others)
    | inr e ↦ rw e (count_le_one test k rows imp h)
  ]

  all_at :
      (P : String → Type 0) (r : A) (rows : List A) → IsIn r rows → All P (map key rows) → P (key r)
  all_at P r [] i h = elim i [ ]
  all_at P r (s ∷ rows) (inl e) (p, h) = subst (λ x. P (key x)) (sym e) p
  all_at P r (s ∷ rows) (inr i) (p, h) = all_at P r rows i h

  -- A stored row is what a SELECT gets by a test that it satisfies and that fixes its value of a
  -- unique column.
  pub get_stored :
      (test : A → Bool) (r : A) (rows : List A)
      → IsIn r rows
      → test r ≡ true
      → ((s : A) → test s ≡ true → key s ≡ key r)
      → AreDistinct (map key rows)
      → get test rows ≡ some r
  unfolding get
  get_stored test r [] i t imp h = elim i [ ]
  get_stored test r (s ∷ rows) (inl e) t imp (a, h) = rw (ap test (sym e) ∙ t) (ap some (sym e))
  get_stored test r (s ∷ rows) (inr i) t imp (a, h) = elim (Bool-cases (test s)) [
    | inl hit ↦ absurd (all_at (λ x. x ≢ key s) r rows i a (sym (imp s hit)))
    | inr miss ↦ rw miss (get_stored test r rows i t imp h)
  ]

  -- Two stored rows with one value in a unique column are one row.
  pub stored_unique :
      (r s : A) (rows : List A)
      → IsIn r rows
      → IsIn s rows
      → key r ≡ key s
      → AreDistinct (map key rows)
      → r ≡ s
  stored_unique r s rows i j e d =
      let test = λ (x : A). str_eq (key x) (key s) in
      let first =
        get_stored test r rows i ((eq_iff (key r) (key s)).1 e)
          (λ x h. (eq_iff (key x) (key s)).0 h ∙ sym e) d in
      let second =
        get_stored test s rows j (eq_refl (key s)) (λ x h. (eq_iff (key x) (key s)).0 h) d in
      cc

  -- An UPDATE that leaves a column alone keeps it unique.
  pub update-AreDistinct :
      (test : A → Bool) (set : A → A) (rows : List A)
      → ((r : A) → key (set r) ≡ key r)
      → AreDistinct (map key rows)
      → AreDistinct (map key (update test set rows))
  update-AreDistinct test set rows k h = subst AreDistinct (sym (map-update key test set rows k)) h

  -- So does adding a row whose value no row has.
  pub append_row-AreDistinct :
      (row : A) (rows : List A)
      → exists (λ r. str_eq (key r) (key row)) rows ≡ false
      → AreDistinct (map key rows)
      → AreDistinct (map key (rows ++ row ∷ []))
  append_row-AreDistinct row rows e h =
      rw (map-append key rows (row ∷ [])) (
        append-AreDistinct (map key rows) (key row) h
          (ne-All (key row) rows (exists_none _ rows e)))
