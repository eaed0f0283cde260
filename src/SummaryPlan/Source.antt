-- ===== src/SummaryPlan/Source.antt =====
-- The units of a transcript that go into a prompt (`sourcePieces`, `boundedEnd` and `promptUnits` of
-- src/llm/summary-plan.ts). A text is the list of its UTF-16 units, an offset counts units. The
-- loop over one piece runs on fuel, the length of the piece: each round takes off a character.
use openmurmur.Prelude.{
  ℕ, zero, suc, ◌+◌, ◌-◌, ◌*◌, Bool, true, false, ◌&&◌, Option, none, some, List, [], ◌∷◌, ◌++◌,
  ltb, leb, ◌==◌, if◌then◌else◌, length, take, drop, map, sum, Result, ok, err, ◌>>=◌,
}
use openmurmur.Prelude.Text.{Text, units, decimal, code_points}
use openmurmur.Notification.{is_space}

pub data Thrown : Type 0 where
  budget_invalid : Thrown
  budget_too_small_for_labels : Thrown
  budget_too_small_for_character : Thrown
  out_of_fuel : Thrown

pub record SourcePiece : Type 0 where
  pub source_start : ℕ
  pub source_end : ℕ
  pub segment_index : Option ℕ

pub record PromptUnit : Type 0 where
  pub piece : SourcePiece
  pub source_text : Text
  pub prompt_text : Text
  pub prompt_utf8_bytes : ℕ

-- `Buffer.byteLength` of one code point; a lone surrogate is written as U+FFFD.
abbrev pub utf8_width : Text → ℕ
utf8_width [] = 0
utf8_width (u ∷ []) = if ltb u 128 then 1 else if ltb u 2048 then 2 else 3
utf8_width (u ∷ v ∷ us) = 4

abbrev pub byte_length : Text → ℕ
byte_length text = sum (map utf8_width (code_points text))

abbrev pub slice : Text → ℕ → ℕ → Text
slice text from to = take (to - from) (drop from text)

abbrev pub starts_with : Text → Text → Bool
starts_with [] text = true
starts_with (u ∷ us) [] = false
starts_with (u ∷ us) (v ∷ vs) = u == v && starts_with us vs

unfoldable pub find_from : Text → Text → ℕ → Option ℕ
find_from needle [] at = if starts_with needle [] then some at else none
find_from needle (u ∷ us) at =
    let rest = find_from needle us (suc at) in if starts_with needle (u ∷ us) then some at else rest

-- `text.indexOf(needle, from)`, with `none` for -1.
abbrev pub index_of : Text → Text → ℕ → Option ℕ
index_of text needle from = find_from needle (drop from text) from

unfoldable pub annotation : Option ℕ → Text
annotation none = units "[unsegmented]\n"
annotation (some index) = units "[segment " ++ decimal index ++ units "]\n"

-- The gap before a segment that begins at `start`, if there is one.
unfoldable pub gap : ℕ → ℕ → List SourcePiece
gap cursor start =
    if ltb cursor start
    then (record { source_start = cursor; source_end = start; segment_index = none }) ∷ []
    else []

-- One segment, on the pieces and the cursor.
unfoldable pub add_segment : Text → ℕ → Text → List SourcePiece × ℕ → List SourcePiece × ℕ
add_segment transcript index segment (pieces, cursor) =
    if length segment == 0 then (pieces, cursor) else elim (index_of transcript segment cursor) [
      | none ↦ (pieces, cursor)
      | some start ↦ (
        pieces
            ++ (gap cursor start
                ++ (record {
                  source_start = start;
                  source_end = start + length segment;
                  segment_index = some index;
                })
                  ∷ []),
        start + length segment,
      )
    ]

unfoldable pub add_segments : Text → ℕ → List Text → List SourcePiece × ℕ → List SourcePiece × ℕ
add_segments transcript index [] st = st
add_segments transcript index (segment ∷ segments) st =
    add_segments transcript (suc index) segments (add_segment transcript index segment st)

unfoldable pub source_pieces : Text → List Text → List SourcePiece
source_pieces transcript segments =
    let st = add_segments transcript 0 segments ([], 0) in
    let pieces = st.0 ++ gap st.1 (length transcript) in
    elim pieces [
      | [] ↦
          (record { source_start = 0; source_end = length transcript; segment_index = none }) ∷ []
      | p ∷ ps ↦ p ∷ ps
    ]

abbrev pub is_white : Text → Bool
is_white [] = false
is_white (u ∷ []) = is_space u
is_white (u ∷ v ∷ us) = false

-- The loop of `boundedEnd` over the characters from the cursor on: the cursor and the last
-- boundary. `bytes >= maxBytes * 0.6` is exact in doubles, and is written over whole numbers.
unfoldable pub bounded_loop : ℕ → ℕ → List Text → ℕ → ℕ → Option ℕ → ℕ × Option ℕ
bounded_loop end_limit max_bytes [] cursor bytes boundary = (cursor, boundary)
bounded_loop end_limit max_bytes (c ∷ cs) cursor bytes boundary =
    let next = cursor + length c in
    let rest = bounded_loop end_limit max_bytes cs next (bytes + utf8_width c) (
      if is_white c && leb (max_bytes * 6) ((bytes + utf8_width c) * 10)
      then some next
      else boundary) in
    if ltb cursor end_limit
    then if ltb max_bytes (bytes + utf8_width c) then (cursor, boundary) else rest
    else (cursor, boundary)

unfoldable pub chosen_end : ℕ → ℕ → ℕ × Option ℕ → ℕ
chosen_end start end_limit (cursor, none) = cursor
chosen_end start end_limit (cursor, some boundary) =
    if cursor == end_limit then cursor else if ltb start boundary then boundary else cursor

unfoldable pub bounded_end : Text → ℕ → ℕ → ℕ → ℕ
bounded_end text start end_limit max_bytes =
    chosen_end start end_limit
      (bounded_loop end_limit max_bytes (code_points (drop start text)) start 0 none)

abbrev pub unit_of : Text → Option ℕ → ℕ → ℕ → PromptUnit
unit_of transcript segment_index start end_ =
    let source_text = slice transcript start end_ in
    let prompt_text = annotation segment_index ++ source_text in
    record {
      piece = record { source_start = start; source_end = end_; segment_index = segment_index };
      source_text = source_text;
      prompt_text = prompt_text;
      prompt_utf8_bytes = byte_length prompt_text;
    }

-- The loop over a piece, from `start` on.
unfoldable pub cut_piece : Text → ℕ → SourcePiece → ℕ → ℕ → Result Thrown (List PromptUnit)
cut_piece transcript budget piece zero start =
    if ltb start piece.source_end then err out_of_fuel else ok []
cut_piece transcript budget piece (suc fuel) start =
    let relative_end = bounded_end transcript start piece.source_end budget in
    let rest = cut_piece transcript budget piece fuel relative_end in
    if ltb start piece.source_end
    then if leb relative_end start
      then err budget_too_small_for_character
      else (do units ← rest; ok (unit_of transcript piece.segment_index start relative_end ∷ units))
    else ok []

unfoldable pub piece_units : Text → ℕ → SourcePiece → Result Thrown (List PromptUnit)
piece_units transcript max_prompt_bytes piece =
    let label = annotation piece.segment_index in
    if ltb max_prompt_bytes (byte_length label + 4)
    then err budget_too_small_for_labels
    else if piece.source_start == piece.source_end
    then ok (
        (record {
          piece = piece;
          source_text = [];
          prompt_text = label;
          prompt_utf8_bytes = byte_length label;
        })
        ∷ [])
    else cut_piece transcript (max_prompt_bytes - byte_length label) piece
        (piece.source_end - piece.source_start) piece.source_start

unfoldable pub units_of_pieces : Text → ℕ → List SourcePiece → Result Thrown (List PromptUnit)
units_of_pieces transcript max_prompt_bytes [] = ok []
units_of_pieces transcript max_prompt_bytes (piece ∷ pieces) = do
  these ← piece_units transcript max_prompt_bytes piece
  others ← units_of_pieces transcript max_prompt_bytes pieces
  ok (these ++ others)

abbrev pub prompt_units : Text → List Text → ℕ → Result Thrown (List PromptUnit)
prompt_units transcript segments max_prompt_bytes =
    units_of_pieces transcript max_prompt_bytes (source_pieces transcript segments)
