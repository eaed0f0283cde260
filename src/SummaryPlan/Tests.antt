-- ===== src/SummaryPlan/Tests.antt =====
-- Runs of `planSummaryChunks` (src/llm/summary-plan.ts).
use openmurmur.Prelude.{◌≡◌, ◌≤◌, refl, List, [], ◌∷◌, length, map, All, arith, ok, err}
use openmurmur.Prelude.Outcome.{Returns}
use openmurmur.Prelude.Text.{Text, units, concat}
use openmurmur.SummaryPlan.{
  SummaryChunk, chunk_of, flush_units, add_unit, add_units, unique, with_numbers,
  plan_summary_chunks,
}
use openmurmur.SummaryPlan.Source.{
  budget_invalid, byte_length, slice, find_from, annotation, gap, add_segment, add_segments,
  source_pieces, bounded_loop, chosen_end, bounded_end, cut_piece, piece_units, units_of_pieces,
}
use openmurmur.SummaryPlan.Chunks.{Spans}
use openmurmur.SummaryPlan.Coverage.{AreNumbered, chunks_cover, chunks_fit}

abbrev transcript : Text
transcript = units "one two three four five six seven eight nine ten, and so on 😀"

abbrev segments : List Text
segments = units "one two three" ∷ units "missing" ∷ units "four five six seven eight nine ten" ∷ []

abbrev as_planned : List SummaryChunk
as_planned =
    (record {
      id = units "chunk-1-of-3";
      index = 0;
      count = 3;
      source_start = 0;
      source_end = 14;
      source_text = units "one two three ";
      prompt_text = units "[segment 0]\none two three\n[unsegmented]\n ";
      prompt_utf8_bytes = 41;
      segment_indexes = 0 ∷ [];
    })
    ∷ (record {
      id = units "chunk-2-of-3";
      index = 1;
      count = 3;
      source_start = 14;
      source_end = 48;
      source_text = units "four five six seven eight nine ten";
      prompt_text = units "[segment 2]\nfour five six seven eight nine ten";
      prompt_utf8_bytes = 46;
      segment_indexes = 2 ∷ [];
    })
    ∷ (record {
      id = units "chunk-3-of-3";
      index = 2;
      count = 3;
      source_start = 48;
      source_end = 62;
      source_text = units ", and so on 😀";
      prompt_text = units "[unsegmented]\n, and so on 😀";
      prompt_utf8_bytes = 30;
      segment_indexes = [];
    })
    ∷ []

in_three : plan_summary_chunks transcript segments 64 ≡ ok as_planned
unfolding plan_summary_chunks source_pieces add_segments add_segment gap find_from units_of_pieces
    piece_units cut_piece bounded_end bounded_loop chosen_end annotation add_units add_unit
    flush_units chunk_of unique with_numbers
in_three = refl

too_small : plan_summary_chunks transcript segments 63 ≡ err budget_invalid
unfolding plan_summary_chunks
too_small = refl

chunks_cover_example :
    Returns
      (λ chunks.
        Spans 0 chunks (length transcript)
        × All (λ c. c.source_text ≡ slice transcript c.source_start c.source_end) chunks
        × (concat (map (λ c. c.source_text) chunks) ≡ transcript))
      (plan_summary_chunks transcript segments 64)
chunks_cover_example =
    chunks_cover transcript segments 64 ((refl, refl), ((refl, refl), ((refl, refl), tt)))
      (omega arith) (omega arith) (omega arith)

chunks_fit_example :
    Returns
      (λ chunks.
        All
          (λ c. (c.prompt_utf8_bytes ≡ byte_length c.prompt_text) × (c.prompt_utf8_bytes ≤ 64))
          chunks
        × AreNumbered 0 (length chunks) chunks)
      (plan_summary_chunks transcript segments 64)
chunks_fit_example =
    chunks_fit transcript segments 64 ((refl, refl), ((refl, refl), ((refl, refl), tt)))
      (omega arith) (omega arith) (omega arith)
