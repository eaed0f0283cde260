-- ===== src/SummaryPlan.antt =====
-- How a transcript is cut into the prompts of a long summary (`planSummaryChunks` of
-- src/llm/summary-plan.ts, with the units of SummaryPlan/Source).
pub mod Source
mod Points
mod Halves
mod Bounds
mod Pieces
mod Labels
mod Units
mod Joining
mod Chunks
pub mod Coverage
mod Tests
use openmurmur.Prelude.{
  ℕ, zero, suc, ◌+◌, ◌-◌, Bool, true, false, ◌&&◌, ◌||◌, Option, none, some, List, [], ◌∷◌, ◌++◌,
  ltb, leb, ◌==◌, if◌then◌else◌, length, map, max, Result, ok, err, ◌>>=◌,
}
use openmurmur.Prelude.Text.{Text, units, concat, decimal}
use openmurmur.SummaryPlan.Source.{Thrown, budget_invalid, PromptUnit, prompt_units}

pub record SummaryChunk : Type 0 where
  pub id : Text
  pub index : ℕ
  pub count : ℕ
  pub source_start : ℕ
  pub source_end : ℕ
  pub source_text : Text
  pub prompt_text : Text
  pub prompt_utf8_bytes : ℕ
  pub segment_indexes : List ℕ

-- `Number.MAX_SAFE_INTEGER`
abbrev pub max_safe_integer : ℕ
max_safe_integer = 9007199254740991

-- `[...new Set(values)]`
abbrev pub is_in : ℕ → List ℕ → Bool
is_in n [] = false
is_in n (m ∷ ms) = n == m || is_in n ms

unfoldable pub unique : List ℕ → List ℕ → List ℕ
unique seen [] = []
unique seen (n ∷ ns) =
    let again = unique seen ns in
    let first = n ∷ unique (n ∷ seen) ns in if is_in n seen then again else first

abbrev pub present : List (Option ℕ) → List ℕ
present [] = []
present (none ∷ os) = present os
present (some n ∷ os) = n ∷ present os

abbrev pub joined_prompts : List PromptUnit → Text
joined_prompts [] = []
joined_prompts (u ∷ []) = u.prompt_text
joined_prompts (u ∷ v ∷ us) = u.prompt_text ++ 10 ∷ joined_prompts (v ∷ us)

abbrev pub last_end : ℕ → List PromptUnit → ℕ
last_end otherwise [] = otherwise
last_end otherwise (u ∷ us) = last_end u.piece.source_end us

-- The variables of the assembly: the chunks that are full, and the units of the next with its size.
pub record Assembly : Type 0 where
  pub provisional : List SummaryChunk
  pub current : List PromptUnit
  pub current_bytes : ℕ

-- A chunk before its number is known.
unfoldable pub chunk_of : PromptUnit → List PromptUnit → ℕ → SummaryChunk
chunk_of u us bytes = record {
  id = [];
  index = 0;
  count = 0;
  source_start = u.piece.source_start;
  source_end = last_end 0 (u ∷ us);
  source_text = concat (map (λ v. v.source_text) (u ∷ us));
  prompt_text = joined_prompts (u ∷ us);
  prompt_utf8_bytes = bytes;
  segment_indexes = unique [] (present (map (λ v. v.piece.segment_index) (u ∷ us)));
}

unfoldable pub flush_units : List SummaryChunk → List PromptUnit → ℕ → List SummaryChunk
flush_units provisional [] bytes = provisional
flush_units provisional (u ∷ us) bytes = provisional ++ chunk_of u us bytes ∷ []

abbrev pub flush : Assembly → Assembly
flush a = record {
  provisional = flush_units a.provisional a.current a.current_bytes;
  current = [];
  current_bytes = if length a.current == 0 then a.current_bytes else 0;
}

abbrev pub push_unit : PromptUnit → Assembly → Assembly
push_unit unit a = record a {
  current = a.current ++ unit ∷ [];
  current_bytes =
      a.current_bytes
      + ((if length (a.current ++ unit ∷ []) == 1 then 0 else 1) + unit.prompt_utf8_bytes);
}

unfoldable pub add_unit : ℕ → PromptUnit → Assembly → Assembly
add_unit max_prompt_bytes unit a =
    let separator_bytes = if length a.current == 0 then 0 else 1 in
    if ltb 0 (length a.current)
      && ltb max_prompt_bytes (a.current_bytes + separator_bytes + unit.prompt_utf8_bytes)
    then push_unit unit (flush a)
    else push_unit unit a

unfoldable pub add_units : ℕ → List PromptUnit → Assembly → Assembly
add_units max_prompt_bytes [] a = a
add_units max_prompt_bytes (unit ∷ units) a =
    add_units max_prompt_bytes units (add_unit max_prompt_bytes unit a)

-- `padStart(width, '0')`
abbrev pub zeros : ℕ → Text
zeros zero = []
zeros (suc n) = 48 ∷ zeros n

abbrev pub pad_start : ℕ → Text → Text
pad_start width text = zeros (width - length text) ++ text

unfoldable pub with_numbers : ℕ → ℕ → List SummaryChunk → List SummaryChunk
with_numbers index count [] = []
with_numbers index count (chunk ∷ chunks) =
    (record chunk {
      id =
          units "chunk-"
          ++ pad_start (length (decimal (max count 1))) (decimal (index + 1))
          ++ units "-of-"
          ++ decimal count;
      index = index;
      count = count;
    })
    ∷ with_numbers (suc index) count chunks

unfoldable pub plan_summary_chunks : Text → List Text → ℕ → Result Thrown (List SummaryChunk)
plan_summary_chunks transcript segments max_prompt_bytes =
    if ltb max_safe_integer max_prompt_bytes || ltb max_prompt_bytes 64
    then err budget_invalid
    else do
      units ← prompt_units transcript segments max_prompt_bytes
      let a =
          add_units max_prompt_bytes units
            (record { provisional = []; current = []; current_bytes = 0 })
      let chunks = (flush a).provisional
      ok (with_numbers 0 (length chunks) chunks)
