-- ===== src/SummaryPlan/Pieces.antt =====
-- The pieces of a transcript (`sourcePieces` of src/llm/summary-plan.ts): segments that are found in
-- turn and the gaps between them, from the first unit of the transcript to the last.
use mathlib.Core.Path.{ap₂}
use mathlib.Core.List.{append-nil, append_assoc}
use openmurmur.Prelude.{
  ℕ, suc, ◌+◌, ◌≤◌, ◌<◌, ◌≡◌, refl, sym, ap, ◌∙◌, subst, true, false, Option, none, some, List, [],
  ◌∷◌, ◌++◌, ltb, ◌==◌, length, length-append, drop, All, Bool-cases, Option-cases, inl, inr, arith,
}
use openmurmur.Prelude.Lists.{drop-length, drop-drop}
use openmurmur.Prelude.Text.{Text}
use openmurmur.Table.Laws.{append-All}
use openmurmur.SummaryPlan.Source.{
  SourcePiece, starts_with, find_from, index_of, gap, add_segment, add_segments, source_pieces,
}
use openmurmur.SummaryPlan.Points.{Seam, Seam-ends, Seam-starts, ends_high, starts_low}

-- A segment that does not begin or end inside a surrogate pair.
abbrev pub IsWhole : Text → Type 0
IsWhole segment = (starts_low segment ≡ false) × (ends_high segment ≡ false)

-- The segment that a label names is one of the first `count`.
abbrev pub IsNamed : ℕ → Option ℕ → Type 0
IsNamed count none = Unit
IsNamed count (some index) = index < count

-- A piece that stands in the transcript, and is not cut inside a surrogate pair.
pub record IsPiece (transcript : Text) (count : ℕ) (p : SourcePiece) : Type 0 where
  pub piece : Text
  pub behind : Text
  pub stands : drop p.source_start transcript ≡ piece ++ behind
  pub seam : Seam piece behind
  pub ends : p.source_end ≡ p.source_start + length piece
  pub named : IsNamed count p.segment_index

-- The pieces follow one another from an offset to another.
abbrev pub Pieces : ℕ → List SourcePiece → ℕ → Type 0
Pieces from [] to = from ≡ to
Pieces from (p ∷ ps) to = (p.source_start ≡ from) × Pieces p.source_end ps to

Pieces-append :
    (from between to : ℕ) (ps qs : List SourcePiece)
    → Pieces from ps between
    → Pieces between qs to
    → Pieces from (ps ++ qs) to
Pieces-append from between to [] qs e c = subst (λ n. Pieces n qs to) (sym e) c
Pieces-append from between to (p ∷ ps) qs (e, c) d =
    (e, Pieces-append p.source_end between to ps qs c d)

starts_with_lem :
    (needle text : Text) → starts_with needle text ≡ true → (z : Text) × (text ≡ needle ++ z)
starts_with_lem [] text h = (text, refl)
starts_with_lem (u ∷ us) [] h = absurd (cc)
starts_with_lem (u ∷ us) (v ∷ vs) h =
    let r = starts_with_lem us vs (ground (arith, h)) in
    (r.0, let e : v ≡ u = ground (arith, h) in rw e (ap (λ t. u ∷ t) r.1))

found : (at i : ℕ) → some at ≡ some i → i ≡ at + 0
found at i e = let same : at ≡ i = cc in omega arith

never : (i : ℕ) → none ≡ some i → ⊥
never i e = cc

-- The needle that is found, with what is before and behind it.
find_from-some :
    (needle text : Text) (at i : ℕ)
    → find_from needle text at ≡ some i
    → (w z : Text) × (text ≡ w ++ (needle ++ z)) × (i ≡ at + length w)
unfolding find_from
find_from-some needle [] at i h = elim (Bool-cases (starts_with needle [])) [
  | inl s ↦ let r = starts_with_lem needle [] s in ([], r.0, r.1, found at i (rw s at h))
  | inr n ↦ absurd (never i (rw n at h))
]
find_from-some needle (u ∷ us) at i h = elim (Bool-cases (starts_with needle (u ∷ us))) [
  | inl s ↦ let r = starts_with_lem needle (u ∷ us) s in ([], r.0, r.1, found at i (rw s at h))
  | inr n ↦
      let r = find_from-some needle us (suc at) i (rw n at h) in
      (u ∷ r.0, r.1, ap (λ t. u ∷ t) r.2, omega (arith, r.3))
]

-- The cursor stands between what has been cut into pieces and the rest of the transcript.
record Read (transcript : Text) (count : ℕ) (st : List SourcePiece × ℕ) : Type 0 where
  before : Text
  after : Text
  spelled : transcript ≡ before ++ after
  cursor : st.1 ≡ length before
  chained : Pieces 0 st.0 st.1
  pieces : All (IsPiece transcript count) st.0

module _ (transcript : Text) (count : ℕ) where
  abbrev GapIn : ℕ → ℕ → Type 0
  GapIn from to = Pieces from (gap from to) to × All (IsPiece transcript count) (gap from to)

  -- What lies between two offsets is a gap, if it is not empty.
  gap-Pieces :
      (from : ℕ) (w z : Text)
      → drop from transcript ≡ w ++ z
      → Seam w z
      → GapIn from (from + length w)
  unfolding gap
  gap-Pieces from [] z d seam =
      rw (level from (from + length {A = ℕ} []) (omega arith)) (omega arith, tt)
    where
      level : (m n : ℕ) → n ≤ m → ltb m n ≡ false
      level m n h = ground arith
  gap-Pieces from (u ∷ us) z d seam = rw (before from (from + length (u ∷ us)) (omega arith)) (
    (refl, refl),
    (record { piece = u ∷ us; behind = z; stands = d; seam = seam; ends = refl; named = tt }, tt),
  )
    where
      before : (m n : ℕ) → m < n → ltb m n ≡ true
      before m n h = ground arith

  starts_low-append :
      (a z : Text) → (length a == 0) ≡ false → starts_low a ≡ false → starts_low (a ++ z) ≡ false
  starts_low-append [] z n h = absurd (cc)
  starts_low-append (u ∷ us) z n h = h

  -- A segment that is found behind the cursor, with the gap before it.
  module _ (pieces : List SourcePiece) (cursor : ℕ) (v : Read transcript count (pieces, cursor))
      (index : ℕ) (named : index < count) (segment : Text) (whole : IsWhole segment)
      (some_unit : (length segment == 0) ≡ false) (w z : Text)
      (behind_cursor : drop cursor transcript ≡ w ++ (segment ++ z)) where
    abbrev start : ℕ
    start = cursor + length w

    abbrev segment_piece : SourcePiece
    segment_piece = record {
      source_start = start;
      source_end = start + length segment;
      segment_index = some index;
    }

    segment-IsPiece : IsPiece transcript count segment_piece
    segment-IsPiece = record {
      piece = segment;
      behind = z;
      stands =
          drop-drop cursor (length w) transcript
          ∙ (ap (drop (length w)) behind_cursor ∙ drop-length w (segment ++ z));
      seam = Seam-ends segment z whole.1;
      ends = refl;
      named = named;
    }

    after_is : v.after ≡ w ++ (segment ++ z)
    after_is =
        sym (drop-length v.before v.after)
        ∙ (ap₂ drop (sym v.cursor) (sym v.spelled) ∙ behind_cursor)

    found_segment-Read :
        Read transcript count
          (pieces ++ (gap cursor start ++ segment_piece ∷ []), start + length segment)
    found_segment-Read = record {
      before = (v.before ++ w) ++ segment;
      after = z;
      spelled =
          v.spelled
          ∙ (ap (λ t. v.before ++ t) after_is
              ∙ (sym (append_assoc v.before w (segment ++ z))
                  ∙ sym (append_assoc (v.before ++ w) segment z)));
      cursor = omega (
        arith,
        v.cursor,
        length-append {0} (v.before ++ w) segment,
        length-append {0} v.before w,
      );
      chained =
          Pieces-append 0 cursor (start + length segment) pieces
            (gap cursor start ++ segment_piece ∷ []) v.chained
            (Pieces-append cursor start (start + length segment) (gap cursor start)
              (segment_piece ∷ []) between.0 (refl, refl));
      pieces =
          append-All (IsPiece transcript count) pieces (gap cursor start ++ segment_piece ∷ [])
            v.pieces
            (append-All (IsPiece transcript count) (gap cursor start) (segment_piece ∷ []) between.1
              (segment-IsPiece, tt));
    }
      where
        between : GapIn cursor start
        between =
            gap-Pieces cursor w (segment ++ z) behind_cursor
              (Seam-starts w (segment ++ z) (starts_low-append segment z some_unit whole.0))

  add_segment-Read :
      (index : ℕ) (segment : Text) (st : List SourcePiece × ℕ)
      → index < count
      → IsWhole segment
      → Read transcript count st
      → Read transcript count (add_segment transcript index segment st)
  unfolding add_segment
  add_segment-Read index segment (pieces, cursor) named whole v =
      elim (Bool-cases (length segment == 0)) [
        | inl none_left ↦ rw none_left v
        | inr some_unit ↦ elim (Option-cases (index_of transcript segment cursor)) [
          | inl missing ↦ rw (some_unit, missing) v
          | inr (at, hit) ↦
              let f = find_from-some segment (drop cursor transcript) cursor at hit in
              rw (some_unit, hit, f.3)
                (found_segment-Read pieces cursor v index named segment whole some_unit f.0 f.1 f.2)
        ]
      ]

  add_segments-Read :
      (index : ℕ) (segments : List Text) (st : List SourcePiece × ℕ)
      → index + length segments ≤ count
      → All IsWhole segments
      → Read transcript count st
      → Read transcript count (add_segments transcript index segments st)
  unfolding add_segments
  add_segments-Read index [] st h w v = v
  add_segments-Read index (segment ∷ segments) st h (w, ws) v =
      add_segments-Read (suc index) segments (add_segment transcript index segment st) (omega arith)
        ws (add_segment-Read index segment st (omega arith) w v)

abbrev pub AreIn : Text → ℕ → List SourcePiece → Type 0
AreIn transcript count ps = Pieces 0 ps (length transcript) × All (IsPiece transcript count) ps

-- The pieces lead from the first unit of the transcript to the last.
pub source_pieces-Pieces :
    (transcript : Text) (segments : List Text)
    → All IsWhole segments
    → AreIn transcript (length segments) (source_pieces transcript segments)
unfolding source_pieces
source_pieces-Pieces transcript segments whole = at_least_one pieces all_pieces
  where
    st : List SourcePiece × ℕ
    st = add_segments transcript 0 segments ([], 0)

    v : Read transcript (length segments) st
    v =
        add_segments-Read transcript (length segments) 0 segments ([], 0) (omega arith) whole
          record {
            before = [];
            after = transcript;
            spelled = refl;
            cursor = refl;
            chained = refl;
            pieces = tt;
          }

    pieces : List SourcePiece
    pieces = st.0 ++ gap st.1 (length transcript)

    last : GapIn transcript (length segments) st.1 (length transcript)
    last =
        subst (GapIn transcript (length segments) st.1)
          (omega (
            arith,
            v.cursor,
            ap (λ (t : Text). length t) v.spelled,
            length-append {0} v.before v.after,
          ))
          (gap-Pieces transcript (length segments) st.1 v.after []
            (ap₂ drop v.cursor v.spelled
              ∙ (drop-length v.before v.after ∙ sym (append-nil v.after)))
            (Seam-starts v.after [] refl))

    all_pieces : AreIn transcript (length segments) pieces
    all_pieces = (
      Pieces-append 0 st.1 (length transcript) st.0 (gap st.1 (length transcript)) v.chained last.0,
      append-All (IsPiece transcript (length segments)) st.0 (gap st.1 (length transcript)) v.pieces
          last.1,
    )

    whole_transcript :
        IsPiece transcript
          (length segments)
          (record { source_start = 0; source_end = length transcript; segment_index = none })
    whole_transcript = record {
      piece = transcript;
      behind = [];
      stands = sym (append-nil transcript);
      seam = Seam-starts transcript [] refl;
      ends = omega arith;
      named = tt;
    }

    at_least_one :
        (ps : List SourcePiece)
        → AreIn transcript (length segments) ps
        → AreIn transcript (length segments) (elim ps [
          | [] ↦
              (record { source_start = 0; source_end = length transcript; segment_index = none })
              ∷ []
          | q ∷ qs ↦ q ∷ qs
        ])
    at_least_one [] a = ((refl, refl), (whole_transcript, tt))
    at_least_one (q ∷ qs) a = a
