-- ===== src/Prelude/Outcome.antt =====
-- Calls that may throw: `err` carries what was thrown.
use mathlib.Core.Path.{◌≡◌, refl}
use mathlib.Core.Logic.{◌⊎◌, inl, inr}
use mathlib.Core.List.{List, [], ◌∷◌, ◌++◌, append-nil, append_assoc}
use openmurmur.Prelude.Lists.{All}

pub data Result {ℓ κ} (E : Type κ) (A : Type ℓ) : Type (ℓ ⊔ κ) where
  ok : A → Result E A
  err : E → Result E A

infixl 5 ◌>>=◌
abbrev pub ◌>>=◌ {ι ℓ κ} :
    {E : Type ι} {A : Type ℓ} {B : Type κ} → Result E A → (A → Result E B) → Result E B
ok a >>= f = f a
err e >>= f = err e

pub Result-cases {ℓ κ} :
    {E : Type κ} {A : Type ℓ} (r : Result E A) → ((a : A) × (r ≡ ok a)) ⊎ ((e : E) × (r ≡ err e))
Result-cases (ok a) = inl (a, refl)
Result-cases (err e) = inr (e, refl)

-- `P` holds of the state that a call leaves, unless it throws.
abbrev pub Leaves {ℓ ι κ ν} :
    {E : Type ι} {S : Type ℓ} {A : Type κ} → (S → Type ν) → Result E (S × A) → Type ν
Leaves P (ok (s, a)) = P s
Leaves P (err e) = Unit

-- The state after a call that is undone where it throws.
abbrev pub state_after {ℓ ι κ} : {E : Type ι} {S : Type ℓ} {A : Type κ} → S → Result E (S × A) → S
state_after s (ok (s', a)) = s'
state_after s (err e) = s

pub state_after-Leaves {ℓ ι κ ν} :
    {E : Type ι} {S : Type ℓ} {A : Type κ} (P : S → Type ν) (s : S) (r : Result E (S × A))
    → P s
    → Leaves P r
    → P (state_after s r)
state_after-Leaves P s (ok (s', a)) p l = l
state_after-Leaves P s (err e) p l = p

-- The call does not throw, and `P` holds of its value.
abbrev pub Returns {ℓ ι} : {E : Type ι} {A : Type ℓ} → (A → Type 0) → Result E A → Type 0
Returns P (ok a) = P a
Returns P (err e) = ⊥

pub Returns-bind {ι ℓ κ} :
    {E : Type ι} {A : Type ℓ} {B : Type κ} (P : A → Type 0) (R : B → Type 0) (m : Result E A)
    (f : A → Result E B)
    → Returns P m
    → ((a : A) → P a → Returns R (f a))
    → Returns R (m >>= f)
Returns-bind P R (ok a) f p k = k a p
Returns-bind P R (err e) f p k = elim p [ ]

pub Returns-weaken {ι ℓ} :
    {E : Type ι} {A : Type ℓ} (P Q : A → Type 0) (r : Result E A)
    → Returns P r
    → ((a : A) → P a → Q a)
    → Returns Q r
Returns-weaken P Q (ok a) p f = f a p
Returns-weaken P Q (err e) p f = elim p [ ]

pub Returns-ok {ι ℓ} :
    {E : Type ι} {A : Type ℓ} (P : A → Type 0) (r : Result E A)
    → Returns P r
    → (a : A) × (r ≡ ok a) × P a
Returns-ok P (ok a) p = (a, refl, p)
Returns-ok P (err e) p = elim p [ ]

module _ {ι ℓ κ} {E : Type ι} {X : Type ℓ} {S : Type κ} (step : X → S → Result E S) where
  -- `for (const x of xs) step`: the loop ends where a step throws.
  unfoldable pub for_each : List X → S → Result E S
  for_each [] s = ok s
  for_each (x ∷ xs) s = step x s >>= for_each xs

  -- The rule of the loop, for an invariant on what has been read and the state.
  pub for_each-Returns :
      (Q : X → Type 0) (P : List X → S → Type 0)
      → ((done : List X) (x : X) (s : S) → Q x → P done s → Returns (P (done ++ x ∷ [])) (step x s))
      → (done xs : List X) (s : S) → All Q xs
      → P done s
      → Returns (P (done ++ xs)) (for_each xs s)
  unfolding for_each
  for_each-Returns Q P keep done [] s q p = rw (append-nil done) p
  for_each-Returns Q P keep done (x ∷ xs) s (qx, q) p =
      Returns-bind (P (done ++ x ∷ [])) (P (done ++ x ∷ xs)) (step x s) (for_each xs)
        (keep done x s qx p)
        λ s' p'.
          rw (← (append_assoc done (x ∷ []) xs))
            (for_each-Returns Q P keep (done ++ x ∷ []) xs s' q p')
