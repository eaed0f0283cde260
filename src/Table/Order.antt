-- ===== src/Table/Order.antt =====
-- ORDER BY … LIMIT 1: the row that is returned comes before no other selected row, and none is
-- returned only where none is selected.
use openmurmur.Prelude.{
  ◌≡◌, refl, Bool, true, false, ◌&&◌, none, some, List, [], ◌∷◌, All, arith, inl, inr, Bool-cases,
  Option-cases, subst,
}
use openmurmur.Table.{first_by}
use openmurmur.Table.Laws.{map-All}

-- `before` compares rows by a key with a total order.
pub record IsOrder {ℓ} {A : Type ℓ} (before : A → A → Bool) : Type ℓ where
  pub irreflexive : (a : A) → before a a ≡ false
  pub asymmetric : (a b : A) → before a b ≡ true → before b a ≡ false
  pub through : (a b c : A) → before a b ≡ false → before b c ≡ false → before a c ≡ false

module _ {ℓ} {A : Type ℓ} (before : A → A → Bool) (test : A → Bool) where
  pub first_by-none :
      (rows : List A) → first_by before test rows ≡ none → All (λ r. test r ≡ false) rows
  unfolding first_by
  first_by-none [] e = tt
  first_by-none (r ∷ rows) e = (ground arith, first_by-none rows (ground arith))

  -- The ways in which `first_by` arrives at `r` over a first row `s`: `s` is passed over, `s` is the
  -- only one, `s` loses to a later row, or `s` is kept against the best later row `q`.
  data Arrives (s : A) (rows : List A) (r : A) : Type ℓ where
    skips : test s ≡ false → first_by before test rows ≡ some r → Arrives s rows r
    alone : test s ≡ true → s ≡ r → first_by before test rows ≡ none → Arrives s rows r
    loses :
        test s ≡ true → before r s ≡ true → first_by before test rows ≡ some r → Arrives s rows r
    keeps :
        (q : A)
        → test s ≡ true
        → s ≡ r
        → before q s ≡ false
        → first_by before test rows ≡ some q
        → Arrives s rows r

  arrives :
      (s : A) (rows : List A) (r : A) → first_by before test (s ∷ rows) ≡ some r → Arrives s rows r
  unfolding first_by
  arrives s rows r e = elim (Bool-cases (test s)) [
    | inr f ↦ skips f (ground arith)
    | inl t ↦ elim (Option-cases (first_by before test rows)) [
      | inl n ↦ alone t (ground arith) n
      | inr (q, k) ↦ elim (Bool-cases (before q s)) [
        | inl b ↦
            let same : q ≡ r = ground arith in
            loses t (subst (λ x. before x s ≡ true) same b)
              (subst (λ x. first_by before test rows ≡ some x) same k)
        | inr b ↦ keeps q t (ground arith) b k
      ]
    ]
  ]

  -- The row is selected, and has every property of all rows.
  pub first_by-some {κ} :
      (P : A → Type κ) (rows : List A) (r : A)
      → All P rows
      → first_by before test rows ≡ some r
      → (test r ≡ true) × P r
  first_by-some P [] r h e = absurd (unfold first_by in ground arith)
  first_by-some P (s ∷ rows) r (p, h) e = elim (arrives s rows r e) [
    | skips f k ↦ first_by-some P rows r h k
    | alone t q n ↦ subst (λ x. (test x ≡ true) × P x) q (t, p)
    | loses t b k ↦ first_by-some P rows r h k
    | keeps q t k b n ↦ subst (λ x. (test x ≡ true) × P x) k (t, p)
  ]

module _ {ℓ} {A : Type ℓ} (before : A → A → Bool) (test : A → Bool) (o : IsOrder before) where
  -- A row that does not come before `q` does not come before what `q` does not come before.
  beaten :
      (x q r : A)
      → (test x && before x q) ≡ false
      → before q r ≡ false
      → (test x && before x r) ≡ false
  beaten x q r f l = elim (Bool-cases (test x)) [
    | inl t ↦ rw t (o.through x q r (rw t at f) l)
    | inr t ↦ rw t
  ]

  -- No selected row comes before it.
  pub first_by_least :
      (rows : List A) (r : A)
      → first_by before test rows ≡ some r
      → All (λ s. (test s && before s r) ≡ false) rows
  first_by_least [] r e = tt
  first_by_least (s ∷ rows) r e = elim (arrives before test s rows r e) [
    | skips f k ↦ (rw f refl, first_by_least rows r k)
    | alone t q n ↦ (
      subst (λ x. (test s && before s x) ≡ false) q (rw (t, o.irreflexive s) refl),
      map-All _ _ rows (λ x f. rw f refl) (first_by-none before test rows n),
    )
    | loses t b k ↦ (rw (t, o.asymmetric r s b) refl, first_by_least rows r k)
    | keeps q t k b n ↦
        let later : before q r ≡ false = subst (λ x. before q x ≡ false) k b in
        (
          subst (λ x. (test s && before s x) ≡ false) k (rw (t, o.irreflexive s) refl),
          map-All _ _ rows (λ x f. beaten x q r f later) (first_by_least rows q n),
        )
  ]
