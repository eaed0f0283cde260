-- ===== src/Table/Existence.antt =====
-- EXISTS over the rows that UPDATE and INSERT leave.
use openmurmur.Prelude.{
  ◌≡◌, refl, Bool, true, false, ◌||◌, List, [], ◌∷◌, ◌++◌, inl, inr, Bool-cases, if◌then◌else◌,
}
use openmurmur.Table.{exists, update}

or_true : (b c : Bool) → c ≡ true → (b || c) ≡ true
or_true true c e = refl
or_true false c e = e

module _ {A : Type 0} (test : A → Bool) where
  pub exists-update :
      (sel : A → Bool) (set : A → A) (rows : List A)
      → ((a : A) → test a ≡ true → test (set a) ≡ true)
      → exists test rows ≡ true
      → exists test (update sel set rows) ≡ true
  unfolding exists update
  exists-update sel set [] keep h = h
  exists-update sel set (r ∷ rows) keep h = elim (Bool-cases (test r)) [
    | inl e ↦ rw (choice (sel r) e) refl
    | inr e ↦
        or_true (test (if sel r then set r else r)) _
          (exists-update sel set rows keep (later (test r) e h))
  ]
    where
      choice : (b : Bool) → test r ≡ true → test (if b then set r else r) ≡ true
      choice true e = keep r e
      choice false e = e

      later : (b : Bool) → b ≡ false → (b || exists test rows) ≡ true → exists test rows ≡ true
      later true f h = absurd (cc)
      later false f h = h

  pub exists-left : (a b : List A) → exists test a ≡ true → exists test (a ++ b) ≡ true
  unfolding exists
  exists-left [] b h = absurd (cc)
  exists-left (x ∷ a) b h = elim (Bool-cases (test x)) [
    | inl e ↦ rw e refl
    | inr e ↦ rw e (exists-left a b (rw e at h))
  ]

  pub exists-last : (a : List A) (x : A) → test x ≡ true → exists test (a ++ x ∷ []) ≡ true
  unfolding exists
  exists-last [] x e = rw e refl
  exists-last (y ∷ a) x e = elim (Bool-cases (test y)) [
    | inl t ↦ rw t refl
    | inr f ↦ rw f (exists-last a x e)
  ]

  -- A row of the test that is selected is written.
  pub exists-set :
      (sel goal : A → Bool) (set : A → A) (rows : List A)
      → ((a : A) → test a ≡ true → (sel a ≡ true) × (goal (set a) ≡ true))
      → exists test rows ≡ true
      → exists goal (update sel set rows) ≡ true
  unfolding exists update
  exists-set sel goal set [] f h = absurd (cc)
  exists-set sel goal set (r ∷ rows) f h = elim (Bool-cases (test r)) [
    | inl e ↦ rw ((f r e).0, (f r e).1) refl
    | inr e ↦
        or_true (goal (if sel r then set r else r)) _ (exists-set sel goal set rows f (rw e at h))
  ]
