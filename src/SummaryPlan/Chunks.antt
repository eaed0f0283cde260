-- ===== src/SummaryPlan/Chunks.antt =====
-- The chunks that units are put into (the assembly of `planSummaryChunks`, src/llm/summary-plan.ts).
use openmurmur.Prelude.{
  ℕ, suc, ◌+◌, ◌≤◌, ◌≡◌, refl, sym, ap, ◌∙◌, subst, true, false, ◌&&◌, List, [], ◌∷◌, ◌++◌, ltb,
  ◌==◌, if◌then◌else◌, length, length-append, All, Bool-cases, inl, inr, arith,
}
use openmurmur.Prelude.Text.{Text}
use openmurmur.Table.Laws.{append-All}
use openmurmur.SummaryPlan.{
  SummaryChunk, joined_prompts, last_end, Assembly, chunk_of, flush_units, add_unit, add_units,
}
use openmurmur.SummaryPlan.Source.{PromptUnit, byte_length, slice}
use openmurmur.SummaryPlan.Units.{IsUnit, Chain, Chain-append}
use openmurmur.SummaryPlan.Joining.{Chain-last, Chain-text, Chain-le, byte_length-joined}

-- A chunk with the text of its place in the transcript, counted and within the budget.
pub record IsChunk (transcript : Text) (max_bytes : ℕ) (c : SummaryChunk) : Type 0 where
  pub spells : c.source_text ≡ slice transcript c.source_start c.source_end
  pub counted : c.prompt_utf8_bytes ≡ byte_length c.prompt_text
  pub within : c.prompt_utf8_bytes ≤ max_bytes

-- The chunks follow one another from an offset to another.
abbrev pub Spans : ℕ → List SummaryChunk → ℕ → Type 0
Spans from [] to = from ≡ to
Spans from (c ∷ cs) to = (c.source_start ≡ from) × (from ≤ c.source_end) × Spans c.source_end cs to

Spans-append :
    (from between to : ℕ) (cs ds : List SummaryChunk)
    → Spans from cs between
    → Spans between ds to
    → Spans from (cs ++ ds) to
Spans-append from between to [] ds e c = subst (λ n. Spans n ds to) (sym e) c
Spans-append from between to (x ∷ cs) ds (e, le, c) d =
    (e, le, Spans-append x.source_end between to cs ds c d)

-- Chunks up to an offset, and units from there on that are counted.
pub record IsAssembled (transcript : Text) (max_bytes to : ℕ) (cs : List SummaryChunk)
    (us : List PromptUnit) (bytes : ℕ) : Type 0 where
  pub between : ℕ
  pub spans : Spans 0 cs between
  pub chunks : All (IsChunk transcript max_bytes) cs
  pub chain : Chain between us to
  pub fit : All (IsUnit transcript max_bytes) us
  pub counted : bytes ≡ byte_length (joined_prompts us)
  pub within : bytes ≤ max_bytes

not_one : (us : List PromptUnit) (unit : PromptUnit) → (suc (length (us ++ unit ∷ [])) == 1) ≡ false
not_one us unit = ground (arith, length-append {0} us (unit ∷ []))

module _ (transcript : Text) (max_bytes : ℕ) where
  abbrev pub Assembled : ℕ → List SummaryChunk → List PromptUnit → ℕ → Type 0
  Assembled = IsAssembled transcript max_bytes

  pub flushed-Assembled :
      (to : ℕ) (cs : List SummaryChunk) (us : List PromptUnit) (bytes : ℕ)
      → Assembled to cs us bytes
      → Assembled to (flush_units cs us bytes) [] 0
  unfolding flush_units chunk_of
  flushed-Assembled to cs [] bytes v = record {
    between = v.between;
    spans = v.spans;
    chunks = v.chunks;
    chain = v.chain;
    fit = tt;
    counted = refl;
    within = omega arith;
  }
  flushed-Assembled to cs (u ∷ us) bytes v = record {
    between = to;
    spans =
        Spans-append 0 v.between to cs (chunk_of u us bytes ∷ []) v.spans
          (v.chain.0, omega (arith, last, Chain-le v.between to (u ∷ us) v.chain), last);
    chunks = append-All (IsChunk transcript max_bytes) cs (chunk_of u us bytes ∷ []) v.chunks (
      record {
        spells =
            Chain-text transcript max_bytes v.between to (u ∷ us) v.chain v.fit
            ∙ (ap (λ n. slice transcript n to) (sym v.chain.0)
                ∙ ap (λ n. slice transcript u.piece.source_start n) (sym last));
        counted = v.counted;
        within = v.within;
      },
      tt,
    );
    chain = refl;
    fit = tt;
    counted = refl;
    within = omega arith;
  }
    where
      last : last_end 0 (u ∷ us) ≡ to
      last = Chain-last v.between to 0 u us v.chain

  -- A unit that still fits is added to the chunk being filled.
  pushed-Assembled :
      (from : ℕ) (unit : PromptUnit) (cs : List SummaryChunk) (us : List PromptUnit) (bytes : ℕ)
      → unit.piece.source_start ≡ from
      → from ≤ unit.piece.source_end
      → IsUnit transcript max_bytes unit
      → Assembled from cs us bytes
      → bytes + ((if length (us ++ unit ∷ []) == 1 then 0 else 1) + unit.prompt_utf8_bytes)
        ≤ max_bytes
      → Assembled unit.piece.source_end cs
          (us ++ unit ∷ [])
          (bytes + ((if length (us ++ unit ∷ []) == 1 then 0 else 1) + unit.prompt_utf8_bytes))
  pushed-Assembled from unit cs us bytes e le w v h = record {
    between = v.between;
    spans = v.spans;
    chunks = v.chunks;
    chain = Chain-append v.between from unit.piece.source_end us (unit ∷ []) v.chain (e, le, refl);
    fit = append-All (IsUnit transcript max_bytes) us (unit ∷ []) v.fit (w, tt);
    counted = counts us v.counted;
    within = h;
  }
    where
      counts :
          (us : List PromptUnit)
          → bytes ≡ byte_length (joined_prompts us)
          → bytes + ((if length (us ++ unit ∷ []) == 1 then 0 else 1) + unit.prompt_utf8_bytes)
            ≡ byte_length (joined_prompts (us ++ unit ∷ []))
      counts [] b = omega (arith, b, w.counted)
      counts (u ∷ us) b =
          rw (not_one us unit) (omega (arith, b, w.counted, byte_length-joined u unit us))

  add_unit-Assembled :
      (from : ℕ) (unit : PromptUnit) (a : Assembly)
      → unit.piece.source_start ≡ from
      → from ≤ unit.piece.source_end
      → IsUnit transcript max_bytes unit
      → Assembled from a.provisional a.current a.current_bytes
      → let b = add_unit max_bytes unit a in
        Assembled unit.piece.source_end b.provisional b.current b.current_bytes
  unfolding add_unit
  add_unit-Assembled from unit a e le w v =
      elim (Bool-cases (
        ltb 0 (length a.current)
        && ltb max_bytes (
            a.current_bytes + (if length a.current == 0 then 0 else 1) + unit.prompt_utf8_bytes))) [
              | inl full ↦
                  rw (full, reset (length a.current) a.current_bytes (ground (arith, full)))
                    (pushed-Assembled from unit
                      (flush_units a.provisional a.current a.current_bytes) [] 0 e le w
                      (flushed-Assembled from a.provisional a.current a.current_bytes v)
                      (omega (arith, w.within)))
              | inr room ↦ rw room (
                  pushed-Assembled from unit a.provisional a.current a.current_bytes e le w v
                    (room_for a.current a.current_bytes v.counted room))
            ]
    where
      reset : (n bytes : ℕ) → ltb 0 n ≡ true → (if n == 0 then bytes else 0) ≡ 0
      reset n bytes h = ground arith

      room_for :
          (us : List PromptUnit) (bytes : ℕ)
          → bytes ≡ byte_length (joined_prompts us)
          → (ltb 0 (length us)
              && ltb max_bytes (bytes + (if length us == 0 then 0 else 1) + unit.prompt_utf8_bytes))
            ≡ false
          → bytes + ((if length (us ++ unit ∷ []) == 1 then 0 else 1) + unit.prompt_utf8_bytes)
            ≤ max_bytes
      room_for [] bytes b h = omega (arith, b, w.within)
      room_for (u ∷ us) bytes b h = rw (not_one us unit) (ground (arith, h))

  pub add_units-Assembled :
      (from to : ℕ) (us : List PromptUnit) (a : Assembly)
      → Chain from us to
      → All (IsUnit transcript max_bytes) us
      → Assembled from a.provisional a.current a.current_bytes
      → let b = add_units max_bytes us a in Assembled to b.provisional b.current b.current_bytes
  unfolding add_units
  add_units-Assembled from to [] a e _ v =
      subst (λ n. Assembled n a.provisional a.current a.current_bytes) e v
  add_units-Assembled from to (u ∷ us) a (e, le, c) (w, ws) v =
      add_units-Assembled u.piece.source_end to us (add_unit max_bytes u a) c ws
        (add_unit-Assembled from u a e le w v)
