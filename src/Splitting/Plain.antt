-- ===== src/Splitting/Plain.antt =====
-- What `splitForTelegram` and `splitOnBoundaries` of src/telegram/format.ts promise.
use mathlib.Core.List.{append-nil}
use openmurmur.Prelude.{
  ℕ, ◌+◌, ◌≤◌, ◌≡◌, refl, sym, ap, ◌∙◌, List, [], ◌∷◌, ◌++◌, ltb, leb, leb→le, length,
  length-append, All, Bool-cases, inl, inr, arith, ok, ◌>>=◌, subst,
}
use openmurmur.Prelude.Outcome.{Returns, Returns-bind, for_each, for_each-Returns}
use openmurmur.Prelude.Text.{Text, concat, concat-append, concat-push, IsCodePoint, split_lines}
use openmurmur.Table.Laws.{append-All}
use openmurmur.Splitting.{
  flushed, add_grapheme, split_for_telegram, split_oversized_grapheme, joined, add_line,
  split_on_boundaries,
}
use openmurmur.Splitting.Lines.{
  without_newlines, IsLine, split_lines-AreLines, spells_line, spells_joined,
}
use openmurmur.Splitting.Chunks.{
  Fits, Covers, is_positive, All-Unit, IsMeasure, concat-flushed, flushed-Fits, spells_more,
  split_oversized_grapheme-Covers,
}

pub length-IsMeasure : IsMeasure length
length-IsMeasure = record { empty = refl; adds = λ a b. length-append a b }

length-IsCodePoint : (c : Text) → IsCodePoint c → length c ≤ 2
length-IsCodePoint [] h = elim h [ ]
length-IsCodePoint (u ∷ []) h = omega arith
length-IsCodePoint (u ∷ v ∷ []) h = omega arith
length-IsCodePoint (u ∷ v ∷ w ∷ us) h = elim h [ ]

abbrev IsSplit : ℕ → Text → List Text × Text → Type 0
IsSplit limit done (chunks, current) =
    (concat chunks ++ current ≡ done) × All (Fits length limit) chunks × (length current ≤ limit)

module _ (limit : ℕ) (room : 2 ≤ limit) where
  add_grapheme-Returns :
      (done : List Text) (g : Text) (st : List Text × Text)
      → IsSplit limit (concat done) st
      → Returns (IsSplit limit (concat (done ++ g ∷ []))) (add_grapheme limit g st)
  unfolding add_grapheme
  add_grapheme-Returns done g (chunks, current) (spells, fit, within) =
      elim (Bool-cases (ltb limit (length current + length g))) [
        | inr small ↦ rw small (
          spells_more length-IsMeasure limit done chunks current g spells,
          fit,
          ground (arith, length-append current g),
        )
        | inl full ↦ elim (Bool-cases (ltb limit (length g))) [
          | inr fits ↦
              rw (full, fits)
                (
                  ap (λ t. t ++ g) spells_flushed ∙ sym (concat-push done g),
                  fit_flushed,
                  ground arith,
                )
          | inl large ↦
              rw (full, large)
                (Returns-bind (Covers length limit g) (IsSplit limit (concat (done ++ g ∷ [])))
                  (split_oversized_grapheme length limit g)
                  (λ more. ok (flushed chunks current ++ more, []))
                  (split_oversized_grapheme-Covers length-IsMeasure limit g
                    λ c q. omega (arith, length-IsCodePoint c q))
                  λ more (e, f). (
                    append-nil (concat (flushed chunks current ++ more))
                        ∙ (concat-append (flushed chunks current) more
                            ∙ (ap (λ t. t ++ concat more) spells_flushed
                                ∙ (ap (λ t. concat done ++ t) e ∙ sym (concat-push done g)))),
                    append-All (Fits length limit) (flushed chunks current) more fit_flushed f,
                    omega arith,
                  ))
        ]
      ]
    where
      spells_flushed : concat (flushed chunks current) ≡ concat done
      spells_flushed = concat-flushed chunks current ∙ spells

      fit_flushed : All (Fits length limit) (flushed chunks current)
      fit_flushed = flushed-Fits length-IsMeasure limit chunks current fit within

  graphemes-Returns :
      (graphemes : List Text)
      → Returns
          (Covers length limit (concat graphemes))
          (for_each (add_grapheme limit) graphemes ([], []) >>= λ st. ok (flushed st.0 st.1))
  graphemes-Returns graphemes =
      Returns-bind (IsSplit limit (concat graphemes)) (Covers length limit (concat graphemes))
        (for_each (add_grapheme limit) graphemes ([], [])) (λ st. ok (flushed st.0 st.1))
        (for_each-Returns (add_grapheme limit) (λ g. Unit) (λ done. IsSplit limit (concat done))
          (λ done g st q v. add_grapheme-Returns done g st v) [] graphemes ([], [])
          (All-Unit graphemes) (refl, tt, omega arith))
        λ st (spells, fit, within). (
          concat-flushed st.0 st.1 ∙ spells,
          flushed-Fits length-IsMeasure limit st.0 st.1 fit within,
        )

-- With room for one code point the split never throws. Put one after the other the chunks give the
-- text back, so nothing is lost, repeated or reordered; none is empty, none is over the limit.
pub split_for_telegram-Covers :
    (segment : Text → List Text)
    → ((text : Text) → concat (segment text) ≡ text)
    → (text : Text) (limit : ℕ) → 2 ≤ limit
    → Returns (Covers length limit text) (split_for_telegram segment text limit)
unfolding split_for_telegram
split_for_telegram-Covers segment covers [] limit room =
    rw (is_positive limit (omega arith)) (refl, tt)
split_for_telegram-Covers segment covers (u ∷ us) limit room =
    rw (is_positive limit (omega arith), is_positive (length (u ∷ us)) (omega arith))
      (subst
        (λ t. Returns (Covers length limit t) (
          for_each (add_grapheme limit) (segment (u ∷ us)) ([], []) >>= λ st.
          ok (flushed st.0 st.1)))
        (covers (u ∷ us)) (graphemes-Returns limit room (segment (u ∷ us))))

abbrev IsLined : ℕ → Text → List Text × Text → Type 0
IsLined limit read (chunks, current) =
    (without_newlines (concat chunks ++ current) ≡ read)
    × All (Fits length limit) chunks
    × (length current ≤ limit)

module _ (segment : Text → List Text) (covers : (text : Text) → concat (segment text) ≡ text)
    (limit : ℕ) (room : 2 ≤ limit) where
  add_line-Returns :
      (done : List Text) (line : Text) (st : List Text × Text)
      → IsLine line
      → IsLined limit (concat done) st
      → Returns (IsLined limit (concat (done ++ line ∷ []))) (add_line segment limit line st)
  unfolding add_line
  add_line-Returns done line (chunks, current) h (spells, fit, within) =
      elim (Bool-cases (leb (length (joined current line)) limit)) [
        | inl small ↦ rw small (
          spells_joined (concat done) line h (concat chunks) current spells
              ∙ sym (concat-push done line),
          fit,
          leb→le _ _ small,
        )
        | inr full ↦ elim (Bool-cases (leb (length line) limit)) [
          | inl fits ↦
              rw (full, fits)
                (
                  spells_line (concat done) line h (concat (flushed chunks current)) spells_flushed
                      ∙ sym (concat-push done line),
                  fit_flushed,
                  leb→le _ _ fits,
                )
          | inr long ↦
              rw (full, long)
                (Returns-bind (Covers length limit line)
                  (IsLined limit (concat (done ++ line ∷ [])))
                  (split_for_telegram segment line limit)
                  (λ more. ok (flushed chunks current ++ more, []))
                  (split_for_telegram-Covers segment covers line limit room)
                  λ more (e, f). (
                    ap without_newlines (
                          append-nil (concat (flushed chunks current ++ more))
                          ∙ (concat-append (flushed chunks current) more
                              ∙ ap (λ t. concat (flushed chunks current) ++ t) e))
                        ∙ (spells_line (concat done) line h (concat (flushed chunks current))
                              spells_flushed
                            ∙ sym (concat-push done line)),
                    append-All (Fits length limit) (flushed chunks current) more fit_flushed f,
                    omega arith,
                  ))
        ]
      ]
    where
      spells_flushed : without_newlines (concat (flushed chunks current)) ≡ concat done
      spells_flushed = ap without_newlines (concat-flushed chunks current) ∙ spells

      fit_flushed : All (Fits length limit) (flushed chunks current)
      fit_flushed = flushed-Fits length-IsMeasure limit chunks current fit within

  -- With room for one code point the split at line ends never throws. The chunks, none of them
  -- empty or over the limit, spell the text in its order; all that may be missing is newlines.
  pub split_on_boundaries-Returns :
      (text : Text)
      → Returns
          (λ chunks.
            (without_newlines (concat chunks) ≡ without_newlines text)
            × All (Fits length limit) chunks)
          (split_on_boundaries segment text limit)
  unfolding split_on_boundaries
  split_on_boundaries-Returns text =
      Returns-bind (IsLined limit (concat (split_lines text))) _
        (for_each (add_line segment limit) (split_lines text) ([], []))
        (λ st. ok (flushed st.0 st.1))
        (for_each-Returns (add_line segment limit) IsLine (λ done. IsLined limit (concat done))
          add_line-Returns [] (split_lines text) ([], []) (split_lines-AreLines text).0
          (refl, tt, omega arith))
        λ st (spells, fit, within). (
          ap without_newlines (concat-flushed st.0 st.1) ∙ (spells ∙ (split_lines-AreLines text).1),
          flushed-Fits length-IsMeasure limit st.0 st.1 fit within,
        )
