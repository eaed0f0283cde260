-- ===== src/Splitting.antt =====
-- How a long text is cut into messages (`splitForTelegram`, `splitOnBoundaries`,
-- `splitEscapedHtmlOnBoundaries` and what they call, of src/telegram/format.ts). A text is the list
-- of its UTF-16 units. `segment` is the grapheme segmenter, `Intl.Segmenter`.
pub mod Chunks
pub mod Lines
pub mod Plain
pub mod Escaped
pub mod Messages
mod Tests
use openmurmur.Prelude.{
  ℕ, ◌+◌, Bool, List, [], ◌∷◌, ◌++◌, ltb, leb, ◌==◌, if◌then◌else◌, length, map, Result, ok, err,
  ◌>>=◌,
}
use openmurmur.Prelude.Outcome.{for_each}
use openmurmur.Prelude.Text.{Text, code_points, split_lines}
use openmurmur.Notification.{escape_html}

pub data Thrown : Type 0 where
  limit_not_positive : Thrown
  code_point_over_limit : Thrown

-- `if (current.length > 0) chunks.push(current)`
unfoldable pub flushed : List Text → Text → List Text
flushed chunks current = if ltb 0 (length current) then chunks ++ current ∷ [] else chunks

-- The variables of a loop: what is cut off, and the chunk being filled with its size.
pub record Packing : Type 0 where
  pub chunks : List Text
  pub current : Text
  pub size : ℕ

abbrev pub unpacked : Packing
unpacked = record { chunks = []; current = []; size = 0 }

-- One code point of an oversized grapheme.
unfoldable pub place : (Text → ℕ) → ℕ → Text → Packing → Result Thrown Packing
place size limit code_point p =
    if ltb limit (size code_point)
    then err code_point_over_limit
    else if ltb limit (p.size + size code_point)
    then ok (record {
      chunks = p.chunks ++ p.current ∷ [];
      current = code_point;
      size = size code_point;
    })
    else ok (record p { current = p.current ++ code_point; size = p.size + size code_point })

unfoldable pub split_oversized_grapheme : (Text → ℕ) → ℕ → Text → Result Thrown (List Text)
split_oversized_grapheme size limit grapheme = do
  p ← for_each (place size limit) (code_points grapheme) unpacked
  ok (flushed p.chunks p.current)

-- One grapheme of `splitForTelegram`, on its chunks and its current chunk.
unfoldable pub add_grapheme : ℕ → Text → List Text × Text → Result Thrown (List Text × Text)
add_grapheme limit grapheme (chunks, current) =
    if ltb limit (length current + length grapheme)
    then if ltb limit (length grapheme)
      then (do
        more ← split_oversized_grapheme length limit grapheme
        ok (flushed chunks current ++ more, []))
      else ok (flushed chunks current, grapheme)
    else ok (chunks, current ++ grapheme)

-- One line of `splitOnBoundaries`.
unfoldable pub joined : Text → Text → Text
joined current line = if length current == 0 then line else current ++ 10 ∷ line

-- One grapheme of `splitForEscapedHtml`.
unfoldable pub add_escaped_grapheme : ℕ → Text → Packing → Result Thrown Packing
add_escaped_grapheme limit grapheme p =
    if ltb limit (p.size + length (escape_html grapheme))
    then if ltb limit (length (escape_html grapheme))
      then (do
        more ← split_oversized_grapheme (λ t. length (escape_html t)) limit grapheme
        ok (record {
          chunks = flushed p.chunks p.current ++ more;
          current = [];
          size = if ltb 0 (length p.current) then 0 else p.size;
        }))
      else ok (record {
        chunks = flushed p.chunks p.current;
        current = grapheme;
        size = (if ltb 0 (length p.current) then 0 else p.size) + length (escape_html grapheme);
      })
    else ok (record p {
      current = p.current ++ grapheme;
      size = p.size + length (escape_html grapheme);
    })

module _ (segment : Text → List Text) where
  unfoldable pub split_for_telegram : Text → ℕ → Result Thrown (List Text)
  split_for_telegram text limit =
      if limit == 0 then err limit_not_positive else if length text == 0 then ok [] else do
        (chunks, current) ← for_each (add_grapheme limit) (segment text) ([], [])
        ok (flushed chunks current)

  unfoldable pub add_line : ℕ → Text → List Text × Text → Result Thrown (List Text × Text)
  add_line limit line (chunks, current) =
      if leb (length (joined current line)) limit
      then ok (chunks, joined current line)
      else if leb (length line) limit
      then ok (flushed chunks current, line)
      else do more ← split_for_telegram line limit; ok (flushed chunks current ++ more, [])

  unfoldable pub split_on_boundaries : Text → ℕ → Result Thrown (List Text)
  split_on_boundaries text limit = do
    (chunks, current) ← for_each (add_line limit) (split_lines text) ([], [])
    ok (flushed chunks current)

  unfoldable pub split_for_escaped_html : Text → ℕ → Result Thrown (List Text)
  split_for_escaped_html text limit = do
    p ← for_each (add_escaped_grapheme limit) (segment text) unpacked
    ok (flushed p.chunks p.current)

  -- One line of `splitEscapedHtmlOnBoundaries`.
  unfoldable pub add_escaped_line : ℕ → Text → Packing → Result Thrown Packing
  add_escaped_line limit line p =
      let separator = if length p.current == 0 then 0 else 1 in
      let line_size = length (escape_html line) in
      if leb (p.size + separator + line_size) limit
      then ok
          (record p { current = joined p.current line; size = p.size + (separator + line_size) })
      else if leb line_size limit
      then ok (record { chunks = flushed p.chunks p.current; current = line; size = line_size })
      else do
        more ← split_for_escaped_html line limit
        ok (record {
          chunks = flushed p.chunks p.current ++ more;
          current = [];
          size = if ltb 0 (length p.current) then 0 else p.size;
        })

  unfoldable pub split_escaped_html_on_boundaries : Text → ℕ → Result Thrown (List Text)
  split_escaped_html_on_boundaries text limit = do
    p ← for_each (add_escaped_line limit) (split_lines text) unpacked
    ok (map escape_html (flushed p.chunks p.current))
