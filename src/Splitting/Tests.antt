-- ===== src/Splitting/Tests.antt =====
-- Runs of the splits of src/telegram/format.ts, with each code point a grapheme.
use openmurmur.Prelude.{◌≡◌, refl, [], ◌∷◌, length, All, arith, ok, err}
use openmurmur.Prelude.Outcome.{Returns, for_each}
use openmurmur.Prelude.Text.{units, concat, code_points, concat-code_points}
use openmurmur.Notification.{escape_html, replace_all}
use openmurmur.Splitting.{
  flushed, joined, place, add_grapheme, add_escaped_grapheme, split_oversized_grapheme,
  split_for_telegram, add_line, split_on_boundaries, split_for_escaped_html, add_escaped_line,
  split_escaped_html_on_boundaries, code_point_over_limit,
}
use openmurmur.Splitting.Lines.{without_newlines}
use openmurmur.Splitting.Chunks.{Fits}
use openmurmur.Splitting.Plain.{split_on_boundaries-Returns}
use openmurmur.Splitting.Messages.{split_escaped_html-Returns}

pair_kept : split_for_telegram code_points (units "ab😀c") 3 ≡ ok (units "ab" ∷ units "😀c" ∷ [])
unfolding split_for_telegram add_grapheme flushed for_each
pair_kept = refl

one_family :
    split_for_telegram (λ t. t ∷ []) (units "👨👩👧") 2 ≡ ok (units "👨" ∷ units "👩" ∷ units "👧" ∷ [])
unfolding split_for_telegram add_grapheme split_oversized_grapheme place flushed for_each
one_family = refl

no_room : split_for_telegram code_points (units "😀") 1 ≡ err code_point_over_limit
unfolding split_for_telegram add_grapheme split_oversized_grapheme place for_each
no_room = refl

lines_kept :
    split_on_boundaries code_points (units "\nab\ncd\nefghijk") 5
    ≡ ok (units "ab\ncd" ∷ units "efghi" ∷ units "jk" ∷ [])
unfolding split_on_boundaries add_line split_for_telegram add_grapheme joined flushed for_each
lines_kept = refl

entities_whole :
    split_escaped_html_on_boundaries code_points (units "a<b\n&&x") 6
    ≡ ok (units "a&lt;b" ∷ units "&amp;" ∷ units "&amp;x" ∷ [])
unfolding split_escaped_html_on_boundaries add_escaped_line split_for_escaped_html
    add_escaped_grapheme joined flushed for_each escape_html replace_all
entities_whole = refl

split_on_boundaries-Returns_example :
    Returns
      (λ chunks.
        (without_newlines (concat chunks) ≡ without_newlines (units "ab\ncd\nefghijk"))
        × All (Fits length 5) chunks)
      (split_on_boundaries code_points (units "ab\ncd\nefghijk") 5)
split_on_boundaries-Returns_example =
    split_on_boundaries-Returns code_points concat-code_points 5 (omega arith)
      (units "ab\ncd\nefghijk")

split_escaped_html-Returns_example :
    Returns
      (λ bodies.
        (without_newlines (concat bodies) ≡ escape_html (without_newlines (units "a<b\n&&x")))
        × All (Fits length 6) bodies)
      (split_escaped_html_on_boundaries code_points (units "a<b\n&&x") 6)
split_escaped_html-Returns_example =
    split_escaped_html-Returns code_points concat-code_points (units "a<b\n&&x") 6 (omega arith)
