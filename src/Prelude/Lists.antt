-- ===== src/Prelude/Lists.antt =====
-- Lists measured by native numbers, sums, and predicates by recursion.
use Prim.Native.Nat.{ℕ, zero, suc, ◌+◌}
use Prim.Native.Nat.add
use mathlib.Core.Path.{◌≡◌, refl, ap}
use mathlib.Core.List.{List, [], ◌∷◌, ◌++◌}
use native.Mathlib.Omega.{arith}

module _ {ℓ} {A : Type ℓ} where
  abbrev pub length : List A → ℕ
  length [] = 0
  length (x ∷ xs) = suc (length xs)

  abbrev pub take : ℕ → List A → List A
  take zero xs = []
  take (suc n) [] = []
  take (suc n) (x ∷ xs) = x ∷ take n xs

  abbrev pub drop : ℕ → List A → List A
  drop zero xs = xs
  drop (suc n) [] = []
  drop (suc n) (x ∷ xs) = drop n xs

  pub length-append : (xs ys : List A) → length (xs ++ ys) ≡ length xs + length ys
  length-append [] ys = omega arith
  length-append (x ∷ xs) ys = omega (arith, length-append xs ys)

  pub take-nil : (k : ℕ) → take k [] ≡ []
  take-nil zero = refl
  take-nil (suc k) = refl

  pub drop-nil : (k : ℕ) → drop k [] ≡ []
  drop-nil zero = refl
  drop-nil (suc k) = refl

  pub take-length : (a b : List A) → take (length a) (a ++ b) ≡ a
  take-length [] b = refl
  take-length (x ∷ a) b = ap (λ t. x ∷ t) (take-length a b)

  pub drop-length : (a b : List A) → drop (length a) (a ++ b) ≡ b
  drop-length [] b = refl
  drop-length (x ∷ a) b = drop-length a b

  pub take-append-drop : (k : ℕ) (a : List A) → take k a ++ drop k a ≡ a
  take-append-drop zero a = refl
  take-append-drop (suc k) [] = refl
  take-append-drop (suc k) (x ∷ a) = ap (λ t. x ∷ t) (take-append-drop k a)

  pub take-add : (m n : ℕ) (a : List A) → take (m + n) a ≡ take m a ++ take n (drop m a)
  take-add zero n a = rw (add.zero n) refl
  take-add (suc m) n [] = rw (add.suc m n, take-nil n) refl
  take-add (suc m) n (x ∷ a) = rw (add.suc m n) (ap (λ t. x ∷ t) (take-add m n a))

  pub drop-drop : (m n : ℕ) (a : List A) → drop (m + n) a ≡ drop n (drop m a)
  drop-drop zero n a = rw (add.zero n) refl
  drop-drop (suc m) n [] = rw (add.suc m n, drop-nil n) refl
  drop-drop (suc m) n (x ∷ a) = rw (add.suc m n) (drop-drop m n a)

abbrev pub All {ℓ κ} : {A : Type ℓ} → (A → Type κ) → List A → Type κ
All P [] = Unit
All P (x ∷ xs) = P x × All P xs

abbrev pub sum : List ℕ → ℕ
sum [] = 0
sum (x ∷ xs) = x + sum xs

pub sum-append : (xs ys : List ℕ) → sum (xs ++ ys) ≡ sum xs + sum ys
sum-append [] ys = omega arith
sum-append (x ∷ xs) ys = omega (arith, sum-append xs ys)
