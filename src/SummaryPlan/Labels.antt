-- ===== src/SummaryPlan/Labels.antt =====
-- Labels fit: a number below 2 ^ 32 has ten digits at most, each a byte.
use native.Mathlib.Nat.{pow-suc}
use openmurmur.Prelude.{
  ℕ, zero, suc, ◌+◌, ◌/◌, ◌%◌, ◌^◌, ◌≤◌, ◌<◌, ◌≡◌, [], ◌∷◌, ◌++◌, ltb, length, true, length-append,
  All, Bool-cases, inl, inr, Option, none, some, arith,
}
use openmurmur.Prelude.Text.{units, decimal, decimal_from}
use openmurmur.Table.Laws.{append-All}
use openmurmur.SummaryPlan.Source.{byte_length, annotation}
use openmurmur.SummaryPlan.Points.{byte_length_ascii}
use openmurmur.SummaryPlan.Pieces.{IsNamed}

length-decimal_from :
    (digits fuel n : ℕ) → n < 10 ^ suc digits → length (decimal_from fuel n) ≤ suc digits
length-decimal_from digits zero n h = omega arith
length-decimal_from zero (suc fuel) n h = rw (one_digit n (omega arith)) (omega arith)
  where
    one_digit : (n : ℕ) → n < 10 → ltb n 10 ≡ true
    one_digit n h = ground arith
length-decimal_from (suc digits) (suc fuel) n h = elim (Bool-cases (ltb n 10)) [
  | inl small ↦ rw small (omega arith)
  | inr large ↦ rw large (
      omega (
        arith,
        length-append {0} (decimal_from fuel (n / 10)) ((48 + n % 10) ∷ []),
        length-decimal_from digits fuel (n / 10) (tenth digits h),
      ))
]
  where
    tenth : (d : ℕ) → n < 10 ^ suc (suc d) → n / 10 < 10 ^ suc d
    tenth d h = omega (arith, pow-suc 10 (suc d))

decimal_from-ascii : (fuel n : ℕ) → All (λ u. u < 128) (decimal_from fuel n)
decimal_from-ascii zero n = (omega arith, tt)
decimal_from-ascii (suc fuel) n = elim (Bool-cases (ltb n 10)) [
  | inl small ↦ rw small (ground arith, tt)
  | inr large ↦ rw large (
      append-All (λ u. u < 128) (decimal_from fuel (n / 10)) ((48 + n % 10) ∷ [])
        (decimal_from-ascii fuel (n / 10)) (omega arith, tt))
]

-- A label leaves a budget of 64 bytes room for a character.
pub byte_length-annotation :
    (count : ℕ) (index : Option ℕ)
    → count ≤ 4294967296
    → IsNamed count index
    → byte_length (annotation index) + 4 ≤ 64
unfolding annotation
byte_length-annotation count none h named = omega arith
byte_length-annotation count (some index) h named = omega (
  arith,
  byte_length_ascii (units "[segment " ++ decimal index ++ units "]\n") (
      append-All (λ u. u < 128) (units "[segment " ++ decimal index) (units "]\n")
        (append-All (λ u. u < 128) (units "[segment ") (decimal index) (omega arith)
          (decimal_from-ascii index index))
        (omega arith)),
  length-append {0} (units "[segment " ++ decimal index) (units "]\n"),
  length-append {0} (units "[segment ") (decimal index),
  length-decimal_from 9 index index (omega arith),
)
