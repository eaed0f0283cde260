-- ===== src/Table/Laws.antt =====
-- The laws of the statements on rows that the components share.
use openmurmur.Prelude.{
  ◌+◌, ◌≤◌, ◌≡◌, refl, sym, ap, subst, Bool, true, false, ◌||◌, none, List, [], ◌∷◌, ◌++◌, map, All,
  arith, inl, inr, Bool-cases, ◌⊎◌,
}
use openmurmur.Table.{get, exists, count, update}

module _ {ℓ} {A : Type ℓ} where
  -- A property of every row survives an UPDATE whose SET keeps it on the rows that are selected.
  pub update-All {κ} :
      (P : A → Type κ) (test : A → Bool) (set : A → A) (rows : List A)
      → ((r : A) → P r → test r ≡ true → P (set r))
      → All P rows
      → All P (update test set rows)
  unfolding update
  update-All P test set [] keep h = h
  update-All P test set (r ∷ rows) keep (p, h) = elim (Bool-cases (test r)) [
    | inl e ↦ rw e (keep r p e, update-All P test set rows keep h)
    | inr e ↦ rw e (p, update-All P test set rows keep h)
  ]

  -- After an UPDATE each row was written or was not selected.
  pub update_split {κ} :
      (P : A → Type κ) (test : A → Bool) (set : A → A) (rows : List A)
      → ((r : A) → test r ≡ true → P (set r))
      → ((r : A) → test r ≡ false → P r)
      → All P (update test set rows)
  unfolding update
  update_split P test set [] hit miss = tt
  update_split P test set (r ∷ rows) hit miss = elim (Bool-cases (test r)) [
    | inl e ↦ rw e (hit r e, update_split P test set rows hit miss)
    | inr e ↦ rw e (miss r e, update_split P test set rows hit miss)
  ]

  -- An UPDATE that selects no row changes nothing.
  pub update_none :
      (test : A → Bool) (set : A → A) (rows : List A)
      → All (λ r. test r ≡ false) rows
      → update test set rows ≡ rows
  unfolding update
  update_none test set [] h = refl
  update_none test set (r ∷ rows) (e, h) = rw e (ap (◌∷◌ r) (update_none test set rows h))

  pub count_none :
      (test : A → Bool) (rows : List A) → All (λ r. test r ≡ false) rows → count test rows ≡ 0
  unfolding count
  count_none test [] h = refl
  count_none test (r ∷ rows) (e, h) = rw e (count_none test rows h)

  pub get-none :
      (test : A → Bool) (rows : List A) → All (λ r. test r ≡ false) rows → get test rows ≡ none
  unfolding get
  get-none test [] h = refl
  get-none test (r ∷ rows) (e, h) = rw e (get-none test rows h)

  pub exists_none :
      (test : A → Bool) (rows : List A) → exists test rows ≡ false → All (λ r. test r ≡ false) rows
  unfolding exists
  exists_none test [] e = tt
  exists_none test (r ∷ rows) e = (ground arith, exists_none test rows (ground arith))

  pub exists_false :
      (test : A → Bool) (rows : List A) → All (λ r. test r ≡ false) rows → exists test rows ≡ false
  unfolding exists
  exists_false test [] h = refl
  exists_false test (r ∷ rows) (e, h) = rw e (exists_false test rows h)

  pub append-All {κ} : (P : A → Type κ) (xs ys : List A) → All P xs → All P ys → All P (xs ++ ys)
  append-All P [] ys h k = k
  append-All P (x ∷ xs) ys (p, h) k = (p, append-All P xs ys h k)

  pub All-of {κ} : (P : A → Type κ) (xs : List A) → ((x : A) → P x) → All P xs
  All-of P [] f = tt
  All-of P (x ∷ xs) f = (f x, All-of P xs f)

  pub map-All {κ ι} :
      (P : A → Type κ) (Q : A → Type ι) (xs : List A) → ((x : A) → P x → Q x) → All P xs → All Q xs
  map-All P Q [] f h = tt
  map-All P Q (x ∷ xs) f (p, h) = (f x p, map-All P Q xs f h)

  -- An UPDATE raises the count of a test by the rows that it selects at most.
  pub count-update_le :
      (p q : A → Bool) (set : A → A) (rows : List A)
      → count p (update q set rows) ≤ count p rows + count q rows
  unfolding count update
  count-update_le p q set [] = omega arith
  count-update_le p q set (r ∷ rows) = ground (arith, count-update_le p q set rows)

-- The row is one of the table's.
abbrev pub IsIn : {A : Type 0} → A → List A → Type 0
IsIn x [] = ⊥
IsIn x (y ∷ ys) = (x ≡ y) ⊎ IsIn x ys

module _ {A : Type 0} where
  All-IsIn_from : (xs ys : List A) → ((x : A) → IsIn x xs → IsIn x ys) → All (λ x. IsIn x ys) xs
  All-IsIn_from [] ys f = tt
  All-IsIn_from (x ∷ xs) ys f = (f x (inl refl), All-IsIn_from xs ys (λ z h. f z (inr h)))

  pub All-IsIn : (xs : List A) → All (λ x. IsIn x xs) xs
  All-IsIn xs = All-IsIn_from xs xs (λ x h. h)

  pub IsIn-update :
      (test : A → Bool) (set : A → A) (r : A) (rows : List A)
      → IsIn r rows
      → test r ≡ true
      → IsIn (set r) (update test set rows)
  unfolding update
  IsIn-update test set r [] i h = elim i [ ]
  IsIn-update test set r (s ∷ rows) (inl e) h = inl (ground arith)
  IsIn-update test set r (s ∷ rows) (inr i) h = inr (IsIn-update test set r rows i h)

  pub count_pos :
      (test : A → Bool) (r : A) (rows : List A) → IsIn r rows → test r ≡ true → 1 ≤ count test rows
  unfolding count
  count_pos test r [] i h = elim i [ ]
  count_pos test r (s ∷ rows) (inl e) h = ground (arith, ap test e)
  count_pos test r (s ∷ rows) (inr i) h = ground (arith, count_pos test r rows i h)

  pub IsIn-update_miss :
      (test : A → Bool) (set : A → A) (r : A) (rows : List A)
      → IsIn r rows
      → test r ≡ false
      → IsIn r (update test set rows)
  unfolding update
  IsIn-update_miss test set r [] i h = elim i [ ]
  IsIn-update_miss test set r (s ∷ rows) (inl e) h = inl (ground (arith, ap test e))
  IsIn-update_miss test set r (s ∷ rows) (inr i) h = inr (IsIn-update_miss test set r rows i h)

  pub IsIn-append : (r : A) (xs ys : List A) → IsIn r xs → IsIn r (xs ++ ys)
  IsIn-append r [] ys i = elim i [ ]
  IsIn-append r (x ∷ xs) ys (inl e) = inl e
  IsIn-append r (x ∷ xs) ys (inr i) = inr (IsIn-append r xs ys i)

  pub exists_of_IsIn :
      (test : A → Bool) (r : A) (rows : List A)
      → IsIn r rows
      → test r ≡ true
      → exists test rows ≡ true
  unfolding exists
  exists_of_IsIn test r [] i h = elim i [ ]
  exists_of_IsIn test r (s ∷ rows) (inl e) h = ground (arith, ap test e)
  exists_of_IsIn test r (s ∷ rows) (inr i) h = ground (arith, exists_of_IsIn test r rows i h)

module _ {A B : Type 0} (f : A → B) where
  pub map-update :
      (test : A → Bool) (set : A → A) (rows : List A)
      → ((r : A) → f (set r) ≡ f r)
      → map f (update test set rows) ≡ map f rows
  unfolding update
  map-update test set [] k = refl
  map-update test set (r ∷ rows) k = elim (Bool-cases (test r)) [
    | inl e ↦ rw e (rw (k r) (ap (◌∷◌ (f r)) (map-update test set rows k)))
    | inr e ↦ rw e (ap (◌∷◌ (f r)) (map-update test set rows k))
  ]

  pub exists-map :
      (test : B → Bool) (rows : List A) → exists test (map f rows) ≡ exists (λ r. test (f r)) rows
  unfolding exists
  exists-map test [] = refl
  exists-map test (r ∷ rows) = ap (◌||◌ (test (f r))) (exists-map test rows)

pub exists-append_left :
    {A : Type 0} (test : A → Bool) (xs ys : List A)
    → exists test xs ≡ true
    → exists test (xs ++ ys) ≡ true
unfolding exists
exists-append_left test [] ys e = absurd (ground arith)
exists-append_left test (x ∷ xs) ys e = ground (arith, exists-append_left test xs ys)

pub exists-append_last :
    {A : Type 0} (test : A → Bool) (xs : List A) (y : A)
    → test y ≡ true
    → exists test (xs ++ y ∷ []) ≡ true
unfolding exists
exists-append_last test [] y e = ground arith
exists-append_last test (x ∷ xs) y e = ground (arith, exists-append_last test xs y)

-- An UPDATE that makes no row satisfy a test anew does not raise its count.
pub count-update_mono :
    {A : Type 0} (p q : A → Bool) (set : A → A) (rows : List A)
    → ((r : A) → IsIn r rows → q r ≡ true → p (set r) ≡ true → p r ≡ true)
    → count p (update q set rows) ≤ count p rows
unfolding count update
count-update_mono p q set [] h = omega arith
count-update_mono p q set (r ∷ rows) h =
    ground (arith, h r (inl refl), count-update_mono p q set rows (λ s i. h s (inr i)))

-- `update_split` for the rows of the table.
pub update_split_in {κ} :
    {A : Type 0} (P : A → Type κ) (test : A → Bool) (set : A → A) (rows : List A)
    → ((r : A) → IsIn r rows → test r ≡ true → P (set r))
    → ((r : A) → IsIn r rows → test r ≡ false → P r)
    → All P (update test set rows)
unfolding update
update_split_in P test set [] hit miss = tt
update_split_in P test set (r ∷ rows) hit miss =
    let rest = update_split_in P test set rows (λ s i. hit s (inr i)) (λ s i. miss s (inr i)) in
    elim (Bool-cases (test r)) [
      | inl e ↦ rw e (hit r (inl refl) e, rest)
      | inr e ↦ rw e (miss r (inl refl) e, rest)
    ]

pub count-append :
    {A : Type 0} (test : A → Bool) (xs ys : List A)
    → count test (xs ++ ys) ≡ count test xs + count test ys
unfolding count
count-append test [] ys = omega arith
count-append test (x ∷ xs) ys = ground (arith, count-append test xs ys)

pub All-at {κ} :
    {A : Type 0} (P : A → Type κ) (r : A) (rows : List A) → IsIn r rows → All P rows → P r
All-at P r [] i h = elim i [ ]
All-at P r (s ∷ rows) (inl e) (p, h) = subst P (sym e) p
All-at P r (s ∷ rows) (inr i) (p, h) = All-at P r rows i h
