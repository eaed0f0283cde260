-- ===== src/SummaryPlan/Units.antt =====
-- The units of one piece (`promptUnits` of src/llm/summary-plan.ts): they follow one another from the
-- start of the piece to its end, and each fits the budget with its label.
use mathlib.Core.List.{append-nil}
use openmurmur.Prelude.{
  ℕ, zero, suc, ◌+◌, ◌-◌, ◌≤◌, ◌<◌, ◌≡◌, refl, sym, ap, subst, false, Option, none, some, List, [],
  ◌∷◌, ◌++◌, ltb, ltb→lt, leb, ◌==◌, if◌then◌else◌, length, take, drop, map, sum, All, Bool-cases,
  inl, inr, arith, ok, err, Result, ◌>>=◌,
}
use openmurmur.Prelude.Outcome.{Returns, Returns-bind}
use openmurmur.Prelude.Text.{Text, units, decimal, concat, code_points}
use openmurmur.SummaryPlan.Source.{
  Thrown, budget_too_small_for_character, SourcePiece, PromptUnit, utf8_width, byte_length, slice,
  annotation, bounded_end, unit_of, cut_piece, piece_units, units_of_pieces,
}
use openmurmur.SummaryPlan.Points.{Seam, Seam-ends, ends_high, byte_length-Seam}
use openmurmur.SummaryPlan.Halves.{
  length-head-rest, after_head, slice-head, rest-Seam, byte_length-head,
}
use openmurmur.Table.Laws.{append-All}
use openmurmur.SummaryPlan.Pieces.{IsPiece, Pieces}
use openmurmur.SummaryPlan.Labels.{byte_length-annotation}
use openmurmur.SummaryPlan.Bounds.{bounded_end-Cut}

-- A unit with the text of its place in the transcript, labelled and counted.
pub record IsUnit (transcript : Text) (max_bytes : ℕ) (u : PromptUnit) : Type 0 where
  pub spells : u.source_text ≡ slice transcript u.piece.source_start u.piece.source_end
  pub labelled : u.prompt_text ≡ annotation u.piece.segment_index ++ u.source_text
  pub counted : u.prompt_utf8_bytes ≡ byte_length u.prompt_text
  pub within : u.prompt_utf8_bytes ≤ max_bytes

-- The units follow one another from an offset to another.
abbrev pub Chain : ℕ → List PromptUnit → ℕ → Type 0
Chain from [] to = from ≡ to
Chain from (u ∷ us) to =
    (u.piece.source_start ≡ from) × (from ≤ u.piece.source_end) × Chain u.piece.source_end us to

pub Chain-append :
    (from between to : ℕ) (us vs : List PromptUnit)
    → Chain from us between
    → Chain between vs to
    → Chain from (us ++ vs) to
Chain-append from between to [] vs e c = subst (λ n. Chain n vs to) (sym e) c
Chain-append from between to (u ∷ us) vs (e, le, c) d =
    (e, le, Chain-append u.piece.source_end between to us vs c d)

ends_high_newline : (t : Text) → ends_high (t ++ 93 ∷ 10 ∷ []) ≡ false
ends_high_newline [] = refl
ends_high_newline (u ∷ []) = refl
ends_high_newline (u ∷ v ∷ t) = ends_high_newline (v ∷ t)

annotation-Seam : (index : Option ℕ) (source : Text) → Seam (annotation index) source
unfolding annotation
annotation-Seam none source = Seam-ends (units "[unsegmented]\n") source refl
annotation-Seam (some index) source =
    Seam-ends (units "[segment " ++ decimal index ++ units "]\n") source
      (ends_high_newline (units "[segment " ++ decimal index))

-- The loop over a piece returns, and its units lead from where it begins to the end of the piece.
abbrev pub Cuts : Text → ℕ → ℕ → ℕ → List PromptUnit → Type 0
Cuts transcript max_bytes from to us = Chain from us to × All (IsUnit transcript max_bytes) us

module _ (transcript : Text) (budget max_bytes : ℕ) (piece : SourcePiece) (room : 4 ≤ budget)
    (total : byte_length (annotation piece.segment_index) + budget ≤ max_bytes) where
  head-IsUnit :
      (start : ℕ) (x y : Text) (d : drop start transcript ≡ x ++ y) (seam : Seam x y) (k : ℕ)
      (le : k ≤ length (code_points x))
      → sum (map utf8_width (take k (code_points x))) ≤ budget
      → IsUnit transcript max_bytes (
          unit_of transcript piece.segment_index start
            (start + length (concat (take k (code_points x)))))
  head-IsUnit start x y d seam k le fits = record {
    spells = refl;
    labelled = refl;
    counted = refl;
    within = rw (slice-head transcript start x y d seam k le) (
        omega (
          arith,
          total,
          fits,
          byte_length-head transcript start x y d seam k le,
          byte_length-Seam (annotation piece.segment_index) (concat (take k (code_points x)))
              (annotation-Seam piece.segment_index (concat (take k (code_points x)))),
        ));
  }

  -- One round, and what the rounds behind it return.
  round_Cuts :
      (start : ℕ) (x y : Text) (d : drop start transcript ≡ x ++ y) (seam : Seam x y) (r k : ℕ)
      (le : k ≤ length (code_points x))
      → r ≡ start + length (concat (take k (code_points x)))
      → sum (map utf8_width (take k (code_points x))) ≤ budget
      → start < r
      → (others : Result Thrown (List PromptUnit))
      → Returns (Cuts transcript max_bytes r piece.source_end) others
      → Returns (Cuts transcript max_bytes start piece.source_end) (
          if leb r start
          then err budget_too_small_for_character
          else others >>= λ us. ok (unit_of transcript piece.segment_index start r ∷ us))
  round_Cuts start x y d seam r k le e fits later others h = rw (not_le r later) (
      Returns-bind (Cuts transcript max_bytes r piece.source_end)
        (Cuts transcript max_bytes start piece.source_end) others
        (λ us. ok (unit_of transcript piece.segment_index start r ∷ us)) h
        λ us (c, a). (
          (refl, omega (arith, later), c),
          (
            subst
                (λ n. IsUnit transcript max_bytes (unit_of transcript piece.segment_index start n))
                (sym e) (head-IsUnit start x y d seam k le fits),
            a,
          ),
        ))
    where
      not_le : (n : ℕ) → start < n → leb n start ≡ false
      not_le n h = ground arith

  pub cut_piece-Cuts :
      (fuel start : ℕ) (x y : Text)
      → drop start transcript ≡ x ++ y
      → Seam x y
      → piece.source_end ≡ start + length x
      → length x ≤ fuel
      → Returns
          (Cuts transcript max_bytes start piece.source_end)
          (cut_piece transcript budget piece fuel start)
  unfolding cut_piece
  cut_piece-Cuts zero start x y d seam e le =
      rw (not_before start (omega (arith, e))) (omega (arith, e, le), tt)
    where
      not_before : (n : ℕ) → piece.source_end ≤ n → ltb n piece.source_end ≡ false
      not_before n h = ground arith
  cut_piece-Cuts (suc fuel) start x y d seam e le = elim (Bool-cases (ltb start piece.source_end)) [
    | inr done ↦ rw done (ended done, tt)
    | inl more ↦
        let pos : 0 < length x = omega (arith, e, ltb→lt _ _ more) in
        let c = bounded_end-Cut transcript start piece.source_end budget x y d seam e pos room in
        let h = length-head-rest transcript start x y d seam c.0.0 c.0.1 in
        rw more (
          round_Cuts start x y d seam (bounded_end transcript start piece.source_end budget) c.0.0
            c.0.1 c.0.2 (omega (arith, c.0.3)) c.1
            (cut_piece transcript budget piece fuel
              (bounded_end transcript start piece.source_end budget))
            (subst
              (λ n.
                Returns (Cuts transcript max_bytes n piece.source_end)
                  (cut_piece transcript budget piece fuel n))
              (sym c.0.2)
              (cut_piece-Cuts fuel (start + length (concat (take c.0.0 (code_points x))))
                (concat (drop c.0.0 (code_points x))) y
                (after_head transcript start x y d seam c.0.0 c.0.1)
                (rest-Seam transcript start x y d seam c.0.0 c.0.1) (omega (arith, e, h))
                (omega (arith, h, le, c.0.2, c.1)))))
  ]
    where
      ended : ltb start piece.source_end ≡ false → start ≡ piece.source_end
      ended done = ground (arith, e)

-- One piece returns its units.
piece_units-Cuts :
    (transcript : Text) (count max_bytes : ℕ) (piece : SourcePiece)
    → count ≤ 4294967296
    → 64 ≤ max_bytes
    → IsPiece transcript count piece
    → Returns
        (Cuts transcript max_bytes piece.source_start piece.source_end)
        (piece_units transcript max_bytes piece)
unfolding piece_units
piece_units-Cuts transcript count max_bytes piece few budget v =
    rw (roomy (byte_length (annotation piece.segment_index) + 4) (omega (arith, label)))
      (elim (Bool-cases (piece.source_start == piece.source_end)) [
        | inl empty ↦
            rw empty ((refl, omega (arith, v.ends), refl), (empty_unit (ground arith), tt))
        | inr some_units ↦ rw some_units (
            cut_piece-Cuts transcript (max_bytes - byte_length (annotation piece.segment_index))
              max_bytes piece (omega (arith, label)) (omega (arith, label))
              (piece.source_end - piece.source_start) piece.source_start v.piece v.behind v.stands
              v.seam v.ends (omega (arith, v.ends)))
      ])
  where
    label : byte_length (annotation piece.segment_index) + 4 ≤ 64
    label = byte_length-annotation count piece.segment_index few v.named

    roomy : (n : ℕ) → n ≤ max_bytes → ltb max_bytes n ≡ false
    roomy n h = ground arith

    empty_unit :
        piece.source_start ≡ piece.source_end
        → IsUnit transcript max_bytes (record {
          piece = piece;
          source_text = [];
          prompt_text = annotation piece.segment_index;
          prompt_utf8_bytes = byte_length (annotation piece.segment_index);
        })
    empty_unit e = record {
      spells =
          let none_left : 0 ≡ piece.source_end - piece.source_start = omega arith in
          ap (λ n. take n (drop piece.source_start transcript)) none_left;
      labelled = sym (append-nil (annotation piece.segment_index));
      counted = refl;
      within = omega (arith, label);
    }

-- The units of all pieces follow one another as the pieces do.
pub units_of_pieces-Cuts :
    (transcript : Text) (count max_bytes : ℕ)
    → count ≤ 4294967296
    → 64 ≤ max_bytes
    → (from to : ℕ) (pieces : List SourcePiece) → Pieces from pieces to
    → All (IsPiece transcript count) pieces
    → Returns (Cuts transcript max_bytes from to) (units_of_pieces transcript max_bytes pieces)
unfolding units_of_pieces
units_of_pieces-Cuts transcript count max_bytes few budget from to [] e _ = (e, tt)
units_of_pieces-Cuts transcript count max_bytes few budget from to (piece ∷ pieces) (e, c) (v, vs) =
    Returns-bind (Cuts transcript max_bytes piece.source_start piece.source_end) _
      (piece_units transcript max_bytes piece)
      (λ these. units_of_pieces transcript max_bytes pieces >>= λ others. ok (these ++ others))
      (piece_units-Cuts transcript count max_bytes piece few budget v)
      λ these (chain, fit).
        Returns-bind (Cuts transcript max_bytes piece.source_end to) _
          (units_of_pieces transcript max_bytes pieces) (λ others. ok (these ++ others))
          (units_of_pieces-Cuts transcript count max_bytes few budget piece.source_end to pieces c
            vs)
          λ others (chain', fit'). (
            subst (λ n. Chain n (these ++ others) to) e
                (Chain-append piece.source_start piece.source_end to these others chain chain'),
            append-All (IsUnit transcript max_bytes) these others fit fit',
          )
