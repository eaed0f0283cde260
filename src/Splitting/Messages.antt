-- ===== src/Splitting/Messages.antt =====
-- What `splitEscapedHtmlOnBoundaries` of src/telegram/format.ts promises of the bodies it makes.
use mathlib.Core.List.{append-nil}
use openmurmur.Prelude.{
  ℕ, ◌+◌, ◌≤◌, ◌≡◌, refl, sym, ap, ◌∙◌, List, [], ◌∷◌, ◌++◌, leb, leb→le, ◌==◌, if◌then◌else◌,
  length, map, All, Bool-cases, inl, inr, arith, ok,
}
use openmurmur.Prelude.Outcome.{Returns, Returns-bind, for_each, for_each-Returns}
use openmurmur.Prelude.Text.{Text, concat, concat-append, concat-push, split_lines}
use openmurmur.Table.Laws.{append-All}
use openmurmur.Notification.{escape_html, replace_all}
use openmurmur.Notification.Escape.{entity, escape_unit, escape_html-append, length-escape_html_pos}
use openmurmur.Splitting.{
  flushed, Packing, unpacked, split_for_escaped_html, joined, add_escaped_line,
  split_escaped_html_on_boundaries,
}
use openmurmur.Splitting.Lines.{
  without_newlines, without_newlines-append, IsLine, split_lines-AreLines, spells_line,
  spells_joined,
}
use openmurmur.Splitting.Chunks.{Fits, Covers, concat-flushed, flushed-Fits}
use openmurmur.Splitting.Escaped.{
  escaped_length, escaped_length-IsMeasure, size_after_flush, split_for_escaped_html-Covers,
}

-- The lines that have been read, spelled by the chunks but for newlines.
record IsLined (limit : ℕ) (read : Text) (p : Packing) : Type 0 where
  spells : without_newlines (concat p.chunks ++ p.current) ≡ read
  fit : All (Fits escaped_length limit) p.chunks
  counted : p.size ≡ escaped_length p.current
  within : p.size ≤ limit

abbrev separator : Text → ℕ
separator current = if length current == 0 then 0 else 1

escape_unit_newline : (line : Text) → escape_html (10 ∷ line) ≡ 10 ∷ escape_html line
unfolding entity
escape_unit_newline line = escape_unit 10 line

escaped_length-joined :
    (current line : Text)
    → escaped_length (joined current line)
      ≡ escaped_length current + (separator current + escaped_length line)
unfolding joined
escaped_length-joined [] line = omega (arith, escaped_length-IsMeasure.empty)
escaped_length-joined (c ∷ cs) line = ground (
  arith,
  escaped_length-IsMeasure.adds (c ∷ cs) (10 ∷ line),
  ap length (escape_unit_newline line),
)

module _ (segment : Text → List Text) (covers : (text : Text) → concat (segment text) ≡ text)
    (limit : ℕ) (room : 6 ≤ limit) where
  add_escaped_line-Returns :
      (done : List Text) (line : Text) (p : Packing)
      → IsLine line
      → IsLined limit (concat done) p
      → Returns (IsLined limit (concat (done ++ line ∷ []))) (add_escaped_line segment limit line p)
  unfolding add_escaped_line
  add_escaped_line-Returns done line p h v =
      elim (Bool-cases (leb (p.size + separator p.current + escaped_length line) limit)) [
        | inl small ↦ rw small record {
          spells =
              spells_joined (concat done) line h (concat p.chunks) p.current v.spells
              ∙ sym (concat-push done line);
          fit = v.fit;
          counted = omega (arith, v.counted, escaped_length-joined p.current line);
          within = omega (arith, leb→le _ _ small);
        }
        | inr full ↦ elim (Bool-cases (leb (escaped_length line) limit)) [
          | inl fits ↦
              rw (full, fits)
                record {
                  spells =
                      spells_line (concat done) line h (concat (flushed p.chunks p.current))
                        spells_flushed
                      ∙ sym (concat-push done line);
                  fit = fit_flushed;
                  counted = refl;
                  within = leb→le _ _ fits;
                }
          | inr long ↦
              rw (full, long, size_after_flush limit room p.current p.size v.counted)
                (Returns-bind (Covers escaped_length limit line)
                  (IsLined limit (concat (done ++ line ∷ [])))
                  (split_for_escaped_html segment line limit)
                  (λ more. ok (record {
                    chunks = flushed p.chunks p.current ++ more;
                    current = [];
                    size = 0;
                  }))
                  (split_for_escaped_html-Covers limit room segment covers line)
                  λ more (e, f). record {
                    spells =
                        ap without_newlines (
                          append-nil (concat (flushed p.chunks p.current ++ more))
                          ∙ (concat-append (flushed p.chunks p.current) more
                              ∙ ap (λ t. concat (flushed p.chunks p.current) ++ t) e))
                        ∙ (spells_line (concat done) line h (concat (flushed p.chunks p.current))
                              spells_flushed
                            ∙ sym (concat-push done line));
                    fit =
                        append-All (Fits escaped_length limit) (flushed p.chunks p.current) more
                          fit_flushed f;
                    counted = sym escaped_length-IsMeasure.empty;
                    within = omega arith;
                  })
        ]
      ]
    where
      spells_flushed : without_newlines (concat (flushed p.chunks p.current)) ≡ concat done
      spells_flushed = ap without_newlines (concat-flushed p.chunks p.current) ∙ v.spells

      fit_flushed : All (Fits escaped_length limit) (flushed p.chunks p.current)
      fit_flushed =
          flushed-Fits escaped_length-IsMeasure limit p.chunks p.current v.fit
            (omega (arith, v.counted, v.within))

-- The chunks are escaped one by one.
escape_html-concat :
    (chunks : List Text) → concat (map escape_html chunks) ≡ escape_html (concat chunks)
escape_html-concat [] = unfold escape_html replace_all in refl
escape_html-concat (c ∷ cs) =
    ap (λ t. escape_html c ++ t) (escape_html-concat cs) ∙ sym (escape_html-append c (concat cs))

escape_html-Fits :
    (limit : ℕ) (chunks : List Text)
    → All (Fits escaped_length limit) chunks
    → All (Fits length limit) (map escape_html chunks)
escape_html-Fits limit [] f = tt
escape_html-Fits limit (c ∷ cs) ((pos, le), f) =
    ((length-escape_html_pos c pos, le), escape_html-Fits limit cs f)

without_newlines-entity : (u : ℕ) → without_newlines (entity u) ≡ (if u == 10 then [] else entity u)
unfolding entity
without_newlines-entity u = ground arith

without_newlines_unit :
    (u : ℕ) (us : Text)
    → without_newlines (escape_html us) ≡ escape_html (without_newlines us)
    → without_newlines (escape_html (u ∷ us)) ≡ escape_html (without_newlines (u ∷ us))
without_newlines_unit u us ih = elim (Bool-cases (u == 10)) [
  | inl n ↦ rw n (step ∙ ap (λ t. t ++ rest) (rw n at (without_newlines-entity u)))
  | inr n ↦ rw n (
      step
      ∙ (ap (λ t. t ++ rest) (rw n at (without_newlines-entity u))
          ∙ sym (escape_unit u (without_newlines us))))
]
  where
    rest : Text
    rest = escape_html (without_newlines us)

    step : without_newlines (escape_html (u ∷ us)) ≡ without_newlines (entity u) ++ rest
    step =
        ap without_newlines (escape_unit u us)
        ∙ (without_newlines-append (entity u) (escape_html us)
            ∙ ap (λ t. without_newlines (entity u) ++ t) ih)

pub without_newlines-escape_html :
    (text : Text) → without_newlines (escape_html text) ≡ escape_html (without_newlines text)
without_newlines-escape_html [] = unfold escape_html replace_all in refl
without_newlines-escape_html (u ∷ us) = without_newlines_unit u us (without_newlines-escape_html us)

-- With room for one escaped code point the split never throws. The bodies, none of them empty or
-- over the limit, spell the escaped text in its order; all that may be missing is newlines.
pub split_escaped_html-Returns :
    (segment : Text → List Text)
    → ((text : Text) → concat (segment text) ≡ text)
    → (text : Text) (limit : ℕ) → 6 ≤ limit
    → Returns
        (λ bodies.
          (without_newlines (concat bodies) ≡ escape_html (without_newlines text))
          × All (Fits length limit) bodies)
        (split_escaped_html_on_boundaries segment text limit)
unfolding split_escaped_html_on_boundaries
split_escaped_html-Returns segment covers text limit room =
    Returns-bind (IsLined limit (concat (split_lines text))) _
      (for_each (add_escaped_line segment limit) (split_lines text) unpacked)
      (λ p. ok (map escape_html (flushed p.chunks p.current)))
      (for_each-Returns (add_escaped_line segment limit) IsLine
        (λ done. IsLined limit (concat done)) (add_escaped_line-Returns segment covers limit room)
        [] (split_lines text) unpacked (split_lines-AreLines text).0
        record {
          spells = refl;
          fit = tt;
          counted = sym escaped_length-IsMeasure.empty;
          within = omega arith;
        })
      λ p v. (
        ap without_newlines (escape_html-concat (flushed p.chunks p.current))
            ∙ (without_newlines-escape_html (concat (flushed p.chunks p.current))
                ∙ ap escape_html (
                    ap without_newlines (concat-flushed p.chunks p.current)
                    ∙ (v.spells ∙ (split_lines-AreLines text).1))),
        escape_html-Fits limit (flushed p.chunks p.current) (
            flushed-Fits escaped_length-IsMeasure limit p.chunks p.current v.fit
              (omega (arith, v.counted, v.within))),
      )
