-- ===== src/SummaryPlan/Coverage.antt =====
-- What `planSummaryChunks` of src/llm/summary-plan.ts promises.
use mathlib.Core.List.{append-nil}
use openmurmur.Prelude.{
  ℕ, suc, ◌+◌, ◌-◌, ◌≤◌, ◌≡◌, refl, sym, ap, ◌∙◌, subst, false, ◌||◌, List, [], ◌∷◌, ◌++◌, ltb,
  length, take, drop, map, All, arith, ok,
}
use openmurmur.Prelude.Lists.{take-length}
use openmurmur.Prelude.Outcome.{Returns, Returns-bind, Returns-weaken}
use openmurmur.Prelude.Text.{Text, concat}
use openmurmur.SummaryPlan.{
  SummaryChunk, max_safe_integer, Assembly, flush, add_units, with_numbers, plan_summary_chunks,
}
use openmurmur.SummaryPlan.Source.{PromptUnit, byte_length, slice, prompt_units, source_pieces}
use openmurmur.SummaryPlan.Pieces.{IsWhole, AreIn, source_pieces-Pieces}
use openmurmur.SummaryPlan.Units.{Cuts, units_of_pieces-Cuts}
use openmurmur.SummaryPlan.Joining.{slice_split}
use openmurmur.SummaryPlan.Chunks.{IsChunk, Spans, flushed-Assembled, add_units-Assembled}

-- Numbered from 0 on, each with the number of all.
abbrev pub AreNumbered : ℕ → ℕ → List SummaryChunk → Type 0
AreNumbered index count [] = index ≡ count
AreNumbered index count (c ∷ cs) =
    (c.index ≡ index) × (c.count ≡ count) × AreNumbered (suc index) count cs

module _ (transcript : Text) (max_bytes : ℕ) where
  abbrev pub Covers : ℕ → ℕ → List SummaryChunk → Type 0
  Covers from to chunks = Spans from chunks to × All (IsChunk transcript max_bytes) chunks

  with_numbers-Covers :
      (index count from to : ℕ) (cs : List SummaryChunk)
      → index + length cs ≡ count
      → Covers from to cs
      → Covers from to (with_numbers index count cs)
        × AreNumbered index count (with_numbers index count cs)
  unfolding with_numbers
  with_numbers-Covers index count from to [] n v = (v, omega (arith, n))
  with_numbers-Covers index count from to (c ∷ cs) n ((e, le, s), (w, ws)) =
      let r = with_numbers-Covers (suc index) count c.source_end to cs (omega (arith, n)) (s, ws) in
      (
        (
          (e, le, r.0.0),
          (record { spells = w.spells; counted = w.counted; within = w.within }, r.0.1),
        ),
        (refl, refl, r.1),
      )

  Spans-le : (from to : ℕ) (cs : List SummaryChunk) → Spans from cs to → from ≤ to
  Spans-le from to [] e = omega (arith, e)
  Spans-le from to (c ∷ cs) (e, le, s) = omega (arith, le, Spans-le c.source_end to cs s)

  Covers-text :
      (from to : ℕ) (cs : List SummaryChunk)
      → Covers from to cs
      → concat (map (λ c. c.source_text) cs) ≡ slice transcript from to
  Covers-text from to [] (e, _) =
      let none_left : 0 ≡ to - from = omega (arith, e) in
      ap (λ n. take n (drop from transcript)) none_left
  Covers-text from to (c ∷ cs) ((e, le, s), (w, ws)) =
      ap (λ r. r ++ concat (map (λ d. d.source_text) cs))
        (w.spells ∙ ap (λ n. slice transcript n c.source_end) e)
      ∙ (ap (λ r. slice transcript from c.source_end ++ r) (Covers-text c.source_end to cs (s, ws))
          ∙ slice_split transcript from c.source_end to le (Spans-le c.source_end to cs s))

module _ (transcript : Text) (segments : List Text) (max_bytes : ℕ) (whole : All IsWhole segments)
    (few : length segments ≤ 4294967296) (budget : 64 ≤ max_bytes)
    (safe : max_bytes ≤ max_safe_integer) where
  abbrev Planned : List SummaryChunk → Type 0
  Planned chunks =
      Covers transcript max_bytes 0 (length transcript) chunks
      × AreNumbered 0 (length chunks) chunks

  length-with_numbers :
      (index count : ℕ) (cs : List SummaryChunk) → length (with_numbers index count cs) ≡ length cs
  unfolding with_numbers
  length-with_numbers index count [] = refl
  length-with_numbers index count (c ∷ cs) = ap suc (length-with_numbers (suc index) count cs)

  plan-Planned : Returns Planned (plan_summary_chunks transcript segments max_bytes)
  unfolding plan_summary_chunks
  plan-Planned = rw (valid max_bytes budget safe) (
      Returns-bind (Cuts transcript max_bytes 0 (length transcript)) Planned
        (prompt_units transcript segments max_bytes) (λ us. ok (numbered (chunks_of us)))
        (units_of_pieces-Cuts transcript (length segments) max_bytes few budget 0
          (length transcript) (source_pieces transcript segments) pieces.0 pieces.1)
        λ us cuts. planned (chunks_of us) (covered us cuts))
    where
      valid : (n : ℕ) → 64 ≤ n → n ≤ max_safe_integer → (ltb max_safe_integer n || ltb n 64) ≡ false
      valid n h k = ground arith

      pieces : AreIn transcript (length segments) (source_pieces transcript segments)
      pieces = source_pieces-Pieces transcript segments whole

      start : Assembly
      start = record { provisional = []; current = []; current_bytes = 0 }

      chunks_of : List PromptUnit → List SummaryChunk
      chunks_of us = (flush (add_units max_bytes us start)).provisional

      numbered : List SummaryChunk → List SummaryChunk
      numbered cs = with_numbers 0 (length cs) cs

      covered :
          (us : List PromptUnit)
          → Cuts transcript max_bytes 0 (length transcript) us
          → Covers transcript max_bytes 0 (length transcript) (chunks_of us)
      covered us (chain, fit) =
          let a = add_units max_bytes us start in
          let v =
            flushed-Assembled transcript max_bytes (length transcript) a.provisional a.current
              a.current_bytes
              (add_units-Assembled transcript max_bytes 0 (length transcript) us start chain fit
                (record {
                  between = 0;
                  spans = refl;
                  chunks = tt;
                  chain = refl;
                  fit = tt;
                  counted = refl;
                  within = omega arith;
                })) in
          (subst (Spans 0 (chunks_of us)) v.chain v.spans, v.chunks)

      planned :
          (cs : List SummaryChunk)
          → Covers transcript max_bytes 0 (length transcript) cs
          → Planned (numbered cs)
      planned cs v =
          let r =
            with_numbers-Covers transcript max_bytes 0 (length cs) 0 (length transcript) cs
              (omega arith) v in
          (
            r.0,
            subst (λ n. AreNumbered 0 n (numbered cs)) (sym (length-with_numbers 0 (length cs) cs))
                r.1,
          )

  -- With a valid budget, segments that are not cut inside a surrogate pair and no more of them than
  -- an array can hold, planning never throws, and the chunks cover every unit of the transcript
  -- exactly once: each holds the text between its offsets, the first begins at 0, each begins where
  -- the one before ends, the last ends with the transcript, and together they spell it.
  pub chunks_cover :
      Returns
        (λ chunks.
          Spans 0 chunks (length transcript)
          × All (λ c. c.source_text ≡ slice transcript c.source_start c.source_end) chunks
          × (concat (map (λ c. c.source_text) chunks) ≡ transcript))
        (plan_summary_chunks transcript segments max_bytes)
  chunks_cover =
      Returns-weaken Planned _ (plan_summary_chunks transcript segments max_bytes) plan-Planned
        λ chunks p. (
          p.0.0,
          all_spell chunks p.0.1,
          Covers-text transcript max_bytes 0 (length transcript) chunks p.0 ∙ whole_slice,
        )
    where
      whole_slice : slice transcript 0 (length transcript) ≡ transcript
      whole_slice =
          let all_units : length transcript - 0 ≡ length transcript = omega arith in
          ap (λ n. take n transcript) all_units
          ∙ (ap (take (length transcript)) (sym (append-nil transcript))
              ∙ take-length transcript [])

      all_spell :
          (cs : List SummaryChunk)
          → All (IsChunk transcript max_bytes) cs
          → All (λ c. c.source_text ≡ slice transcript c.source_start c.source_end) cs
      all_spell [] _ = tt
      all_spell (c ∷ cs) (w, ws) = (w.spells, all_spell cs ws)

  -- Under the same conditions the size that each chunk states is the length of its prompt in UTF-8,
  -- labels and newlines included, it is within the budget, and the chunks are numbered from 0 on,
  -- each with the number of all.
  pub chunks_fit :
      Returns
        (λ chunks.
          All
            (λ c.
              (c.prompt_utf8_bytes ≡ byte_length c.prompt_text) × (c.prompt_utf8_bytes ≤ max_bytes))
            chunks
          × AreNumbered 0 (length chunks) chunks)
        (plan_summary_chunks transcript segments max_bytes)
  chunks_fit =
      Returns-weaken Planned _ (plan_summary_chunks transcript segments max_bytes) plan-Planned
        λ chunks p. (all_fit chunks p.0.1, p.1)
    where
      all_fit :
          (cs : List SummaryChunk)
          → All (IsChunk transcript max_bytes) cs
          → All
              (λ c.
                (c.prompt_utf8_bytes ≡ byte_length c.prompt_text)
                × (c.prompt_utf8_bytes ≤ max_bytes))
              cs
      all_fit [] _ = tt
      all_fit (c ∷ cs) (w, ws) = ((w.counted, w.within), all_fit cs ws)
