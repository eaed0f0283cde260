-- ===== src/SummaryPlan/Bounds.antt =====
-- Where `boundedEnd` of src/llm/summary-plan.ts cuts: after some of the characters of the piece, at
-- least one of them, and within the budget of bytes.
use openmurmur.Prelude.{
  ℕ, suc, ◌+◌, ◌*◌, ◌≤◌, ◌<◌, ◌≡◌, refl, sym, ap, ◌∙◌, true, false, ◌&&◌, Option, none, some, List,
  [], ◌∷◌, ◌++◌, ltb, ltb→lt, leb, ◌==◌, if◌then◌else◌, length, length-append, take, drop, map, sum,
  All, Bool-cases, inl, inr, ◌⊎◌, arith, subst,
}
use openmurmur.Prelude.Text.{
  Text, concat, code_points, concat-code_points, IsCodePoint, code_points-IsCodePoint,
}
use openmurmur.SummaryPlan.Source.{utf8_width, bounded_loop, chosen_end, bounded_end, is_white}
use openmurmur.SummaryPlan.Points.{Seam}

-- `r` lies after some of the characters `xs` from the cursor on, within the budget.
abbrev pub Cut : ℕ → List Text → ℕ → ℕ → ℕ → Type 0
Cut max_bytes xs cursor bytes r =
    (k : ℕ) × (k ≤ length xs)
    × (r ≡ cursor + length (concat (take k xs)))
    × (bytes + sum (map utf8_width (take k xs)) ≤ max_bytes)

here :
    (max_bytes : ℕ) (xs : List Text) (cursor bytes : ℕ)
    → bytes ≤ max_bytes
    → Cut max_bytes xs cursor bytes cursor
here max_bytes xs cursor bytes h = (0, omega arith, omega arith, omega arith)

further :
    (max_bytes : ℕ) (c : Text) (xs : List Text) (cursor bytes r : ℕ)
    → Cut max_bytes xs (cursor + length c) (bytes + utf8_width c) r
    → Cut max_bytes (c ∷ xs) cursor bytes r
further max_bytes c xs cursor bytes r (k, j, e, h) = (
  suc k,
  omega (arith, j),
  omega (arith, e, length-append {0} c (concat (take k xs))),
  omega (arith, h),
)

abbrev Ends : ℕ → List Text → ℕ → ℕ → Option ℕ → ℕ × Option ℕ → Type 0
Ends max_bytes xs cursor bytes boundary r =
    Cut max_bytes xs cursor bytes r.0
    × ((r.1 ≡ boundary) ⊎ ((b : ℕ) × (r.1 ≡ some b) × Cut max_bytes xs cursor bytes b))

code_point_pos : (c : Text) → IsCodePoint c → (0 < length c) × (utf8_width c ≤ 4)
code_point_pos [] h = elim h [ ]
code_point_pos (u ∷ []) h = (omega arith, ground arith)
code_point_pos (u ∷ v ∷ us) h = (omega arith, omega arith)

module _ (end_limit max_bytes : ℕ) where
  stop :
      (ys : List Text) (cursor bytes : ℕ) (boundary : Option ℕ)
      → end_limit ≤ cursor
      → bounded_loop end_limit max_bytes ys cursor bytes boundary ≡ (cursor, boundary)
  unfolding bounded_loop
  stop [] cursor bytes boundary h = refl
  stop (c ∷ ys) cursor bytes boundary h = rw (not_before cursor h) refl
    where
      not_before : (n : ℕ) → end_limit ≤ n → ltb n end_limit ≡ false
      not_before n h = ground arith

  -- The boundary that a character leaves behind.
  abbrev next_boundary : Text → ℕ → ℕ → Option ℕ → Option ℕ
  next_boundary c cursor bytes boundary =
      if is_white c && leb (max_bytes * 6) ((bytes + utf8_width c) * 10)
      then some (cursor + length c)
      else boundary

  round :
      (c : Text) (ys : List Text) (cursor bytes : ℕ) (boundary : Option ℕ)
      → cursor < end_limit
      → bounded_loop end_limit max_bytes (c ∷ ys) cursor bytes boundary ≡ (
          if ltb max_bytes (bytes + utf8_width c)
          then (cursor, boundary)
          else bounded_loop end_limit max_bytes ys
              (cursor + length c)
              (bytes + utf8_width c)
              (next_boundary c cursor bytes boundary))
  unfolding bounded_loop
  round c ys cursor bytes boundary h = rw (before cursor h) refl
    where
      before : (n : ℕ) → n < end_limit → ltb n end_limit ≡ true
      before n h = ground arith

  lift-Ends :
      (c : Text) (xs : List Text) (cursor bytes : ℕ) (boundary : Option ℕ) (r : ℕ × Option ℕ)
      → bytes + utf8_width c ≤ max_bytes
      → Ends max_bytes xs
          (cursor + length c)
          (bytes + utf8_width c)
          (next_boundary c cursor bytes boundary)
          r
      → Ends max_bytes (c ∷ xs) cursor bytes boundary r
  lift-Ends c xs cursor bytes boundary r h (cut, inr (b, e, cut_b)) = (
    further max_bytes c xs cursor bytes r.0 cut,
    inr (b, e, further max_bytes c xs cursor bytes b cut_b),
  )
  lift-Ends c xs cursor bytes boundary r h (cut, inl e) = (
    further max_bytes c xs cursor bytes r.0 cut,
    elim (Bool-cases (is_white c && leb (max_bytes * 6) ((bytes + utf8_width c) * 10))) [
      | inl white ↦ inr (
        cursor + length c,
        rw white at e,
        further max_bytes c xs cursor bytes (cursor + length c)
            (here max_bytes xs (cursor + length c) (bytes + utf8_width c) h),
      )
      | inr other ↦ inl (rw other at e)
    ],
  )

  bounded_loop-Ends :
      (xs ys : List Text) (cursor bytes : ℕ) (boundary : Option ℕ)
      → end_limit ≡ cursor + length (concat xs)
      → All IsCodePoint xs
      → bytes ≤ max_bytes
      → Ends max_bytes xs cursor bytes boundary
          (bounded_loop end_limit max_bytes (xs ++ ys) cursor bytes boundary)
  bounded_loop-Ends [] ys cursor bytes boundary e _ h =
      rw (stop ys cursor bytes boundary (omega arith)) (here max_bytes [] cursor bytes h, inl refl)
  bounded_loop-Ends (c ∷ xs) ys cursor bytes boundary e (p, ps) h =
      rw
        (round c (xs ++ ys) cursor bytes boundary
          (omega (arith, e, length-append {0} c (concat xs), (code_point_pos c p).0)))
        (elim (Bool-cases (ltb max_bytes (bytes + utf8_width c))) [
          | inl over ↦ rw over (here max_bytes (c ∷ xs) cursor bytes h, inl refl)
          | inr room ↦ rw room (
              lift-Ends c xs cursor bytes boundary _ (ground arith) (
                bounded_loop-Ends xs ys (cursor + length c) (bytes + utf8_width c)
                  (next_boundary c cursor bytes boundary)
                  (omega (arith, e, length-append {0} c (concat xs))) ps (ground arith)))
        ])

  -- The first character is taken.
  bounded_loop_first :
      (c : Text) (xs ys : List Text) (cursor : ℕ)
      → end_limit ≡ cursor + length (concat (c ∷ xs))
      → All IsCodePoint (c ∷ xs)
      → 4 ≤ max_bytes
      → cursor < (bounded_loop end_limit max_bytes ((c ∷ xs) ++ ys) cursor 0 none).0
  bounded_loop_first c xs ys cursor e (p, ps) h =
      rw
        (
          round c (xs ++ ys) cursor 0 none
              (omega (arith, e, length-append {0} c (concat xs), (code_point_pos c p).0)),
          not_over (0 + utf8_width c) (omega (arith, (code_point_pos c p).1)),
        )
        (reaches
          (bounded_loop-Ends xs ys (cursor + length c) (0 + utf8_width c)
            (next_boundary c cursor 0 none) (omega (arith, e, length-append {0} c (concat xs))) ps
            (omega (arith, (code_point_pos c p).1))).0)
    where
      not_over : (n : ℕ) → n ≤ max_bytes → ltb max_bytes n ≡ false
      not_over n h = ground arith

      reaches : {r : ℕ} → Cut max_bytes xs (cursor + length c) (0 + utf8_width c) r → cursor < r
      reaches (k, _, e', _) = omega (arith, e', (code_point_pos c p).0)

chosen_end-cases :
    (start end_limit : ℕ) (r : ℕ × Option ℕ)
    → (chosen_end start end_limit r ≡ r.0)
      ⊎ ((b : ℕ) × (r.1 ≡ some b) × (start < b) × (chosen_end start end_limit r ≡ b))
unfolding chosen_end
chosen_end-cases start end_limit (cursor, none) = inl refl
chosen_end-cases start end_limit (cursor, some b) = elim (Bool-cases (cursor == end_limit)) [
  | inl at_end ↦ inl (rw at_end refl)
  | inr before ↦ elim (Bool-cases (ltb start b)) [
    | inl later ↦ inr (b, refl, ltb→lt _ _ later, rw (before, later) refl)
    | inr first ↦ inl (rw (before, first) refl)
  ]
]

-- A piece `x` between `start` and `end_limit`, cut at a seam: the end lies behind its first
-- character, and what is before it fits the budget.
pub bounded_end-Cut :
    (transcript : Text) (start end_limit max_bytes : ℕ) (x y : Text)
    → drop start transcript ≡ x ++ y
    → Seam x y
    → end_limit ≡ start + length x
    → 0 < length x
    → 4 ≤ max_bytes
    → Cut max_bytes (code_points x) start 0 (bounded_end transcript start end_limit max_bytes)
      × (start < bounded_end transcript start end_limit max_bytes)
unfolding bounded_end
bounded_end-Cut transcript start end_limit max_bytes x y d seam e pos h =
    rw (d, seam) (chosen (chosen_end-cases start end_limit r))
  where
    r : ℕ × Option ℕ
    r = bounded_loop end_limit max_bytes (code_points x ++ code_points y) start 0 none

    e' : end_limit ≡ start + length (concat (code_points x))
    e' = e ∙ ap (λ (t : Text). start + length t) (sym (concat-code_points x))

    ends : Ends max_bytes (code_points x) start 0 none r
    ends =
        bounded_loop-Ends end_limit max_bytes (code_points x) (code_points y) start 0 none e'
          (code_points-IsCodePoint x) (omega arith)

    first :
        (xs : List Text)
        → end_limit ≡ start + length (concat xs)
        → All IsCodePoint xs
        → 0 < length (concat xs)
        → start < (bounded_loop end_limit max_bytes (xs ++ code_points y) start 0 none).0
    first [] e'' p pos' = absurd (omega arith)
    first (c ∷ xs) e'' p pos' =
        bounded_loop_first end_limit max_bytes c xs (code_points y) start e'' p h

    progress : start < r.0
    progress =
        first (code_points x) e' (code_points-IsCodePoint x)
          (omega (arith, ap (λ (t : Text). length t) (concat-code_points x)))

    at_boundary :
        (b : ℕ)
        → r.1 ≡ some b
        → (r.1 ≡ none) ⊎ ((b' : ℕ) × (r.1 ≡ some b') × Cut max_bytes (code_points x) start 0 b')
        → Cut max_bytes (code_points x) start 0 b
    at_boundary b s (inl n) = absurd (cc)
    at_boundary b s (inr (b', s', cut)) = subst (Cut max_bytes (code_points x) start 0) (cc) cut

    chosen :
        (chosen_end start end_limit r ≡ r.0)
          ⊎ ((b : ℕ) × (r.1 ≡ some b) × (start < b) × (chosen_end start end_limit r ≡ b))
        → Cut max_bytes (code_points x) start 0 (chosen_end start end_limit r)
          × (start < chosen_end start end_limit r)
    chosen (inl c) = rw c (ends.0, progress)
    chosen (inr (b, s, later, c)) = rw c (at_boundary b s ends.1, later)
