-- ===== src/Splitting/Escaped.antt =====
-- What `splitForEscapedHtml` and `splitEscapedHtmlOnBoundaries` of src/telegram/format.ts promise.
use mathlib.Core.List.{append-nil}
use openmurmur.Prelude.{
  ℕ, ◌+◌, ◌≤◌, ◌≡◌, refl, sym, ap, ◌∙◌, List, [], ◌∷◌, ◌++◌, ltb, if◌then◌else◌, length,
  length-append, All, Bool-cases, inl, inr, arith, ok,
}
use openmurmur.Prelude.Outcome.{Returns, Returns-bind, for_each, for_each-Returns}
use openmurmur.Prelude.Text.{Text, concat, concat-append, concat-push, IsCodePoint}
use openmurmur.Table.Laws.{append-All}
use openmurmur.Notification.{escape_html}
use openmurmur.Notification.Escape.{escape_html-append, escape_html_plain, length-escape_html_unit}
use openmurmur.Splitting.{
  flushed, Packing, unpacked, split_oversized_grapheme, add_escaped_grapheme,
  split_for_escaped_html,
}
use openmurmur.Splitting.Chunks.{
  Fits, Covers, IsMeasure, IsPacked, All-Unit, concat-flushed, flushed-Fits, flushed-Covers,
  spells_more, split_oversized_grapheme-Covers,
}

-- The length of a text once it is escaped.
abbrev pub escaped_length : Text → ℕ
escaped_length text = length (escape_html text)

pub escaped_length-IsMeasure : IsMeasure escaped_length
escaped_length-IsMeasure = record {
  empty = unfold escape_html in refl;
  adds = λ a b. ap length (escape_html-append a b) ∙ length-append (escape_html a) (escape_html b);
}

escaped_length-IsCodePoint : (c : Text) → IsCodePoint c → escaped_length c ≤ 6
escaped_length-IsCodePoint [] h = elim h [ ]
escaped_length-IsCodePoint (u ∷ []) h = length-escape_html_unit u
escaped_length-IsCodePoint (u ∷ v ∷ []) (hu, hv) =
    rw (escape_html_plain u (v ∷ []) (omega arith), escape_html_plain v [] (omega arith))
      (omega (arith, escaped_length-IsMeasure.empty))
escaped_length-IsCodePoint (u ∷ v ∷ w ∷ us) h = elim h [ ]

module _ (limit : ℕ) (room : 6 ≤ limit) where
  pub size_after_flush :
      (current : Text) (size : ℕ)
      → size ≡ escaped_length current
      → (if ltb 0 (length current) then 0 else size) ≡ 0
  size_after_flush [] size e = e ∙ escaped_length-IsMeasure.empty
  size_after_flush (u ∷ us) size e = ground arith

  abbrev pub Packed : List Text → Packing → Type 0
  Packed = IsPacked escaped_length limit

  add_escaped_grapheme-Returns :
      (done : List Text) (g : Text) (p : Packing)
      → Packed done p
      → Returns (Packed (done ++ g ∷ [])) (add_escaped_grapheme limit g p)
  unfolding add_escaped_grapheme
  add_escaped_grapheme-Returns done g p v =
      elim (Bool-cases (ltb limit (p.size + escaped_length g))) [
        | inr small ↦ rw small record {
          spells = spells_more escaped_length-IsMeasure limit done p.chunks p.current g v.spells;
          fit = v.fit;
          counted = omega (arith, v.counted, escaped_length-IsMeasure.adds p.current g);
          within = ground arith;
        }
        | inl full ↦ elim (Bool-cases (ltb limit (escaped_length g))) [
          | inr fits ↦
              rw (full, fits, size_after_flush p.current p.size v.counted)
                record {
                  spells = ap (λ t. t ++ g) spells_flushed ∙ sym (concat-push done g);
                  fit = fit_flushed;
                  counted = omega arith;
                  within = ground arith;
                }
          | inl large ↦
              rw (full, large, size_after_flush p.current p.size v.counted)
                (Returns-bind (Covers escaped_length limit g) (Packed (done ++ g ∷ []))
                  (split_oversized_grapheme escaped_length limit g)
                  (λ more. ok (record {
                    chunks = flushed p.chunks p.current ++ more;
                    current = [];
                    size = 0;
                  }))
                  (split_oversized_grapheme-Covers escaped_length-IsMeasure limit g
                    λ c q. omega (arith, escaped_length-IsCodePoint c q))
                  λ more (e, f). record {
                    spells =
                        append-nil (concat (flushed p.chunks p.current ++ more))
                        ∙ (concat-append (flushed p.chunks p.current) more
                            ∙ (ap (λ t. t ++ concat more) spells_flushed
                                ∙ (ap (λ t. concat done ++ t) e ∙ sym (concat-push done g))));
                    fit =
                        append-All (Fits escaped_length limit) (flushed p.chunks p.current) more
                          fit_flushed f;
                    counted = sym escaped_length-IsMeasure.empty;
                    within = omega arith;
                  })
        ]
      ]
    where
      spells_flushed : concat (flushed p.chunks p.current) ≡ concat done
      spells_flushed = concat-flushed p.chunks p.current ∙ v.spells

      fit_flushed : All (Fits escaped_length limit) (flushed p.chunks p.current)
      fit_flushed =
          flushed-Fits escaped_length-IsMeasure limit p.chunks p.current v.fit
            (omega (arith, v.counted, v.within))

  pub unpacked-Packed : Packed [] unpacked
  unpacked-Packed = record {
    spells = refl;
    fit = tt;
    counted = sym escaped_length-IsMeasure.empty;
    within = omega arith;
  }

  pub split_for_escaped_html-Covers :
      (segment : Text → List Text)
      → ((text : Text) → concat (segment text) ≡ text)
      → (text : Text)
      → Returns (Covers escaped_length limit text) (split_for_escaped_html segment text limit)
  unfolding split_for_escaped_html
  split_for_escaped_html-Covers segment covers text =
      Returns-bind (Packed (segment text)) (Covers escaped_length limit text)
        (for_each (add_escaped_grapheme limit) (segment text) unpacked)
        (λ p. ok (flushed p.chunks p.current))
        (for_each-Returns (add_escaped_grapheme limit) (λ g. Unit) Packed
          (λ done g p q v. add_escaped_grapheme-Returns done g p v) [] (segment text) unpacked
          (All-Unit (segment text)) unpacked-Packed)
        λ p v.
          rw (← (covers text)) (flushed-Covers escaped_length-IsMeasure limit (segment text) p v)
