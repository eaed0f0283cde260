-- ===== src/SummaryPlan/Joining.antt =====
-- Units that follow one another, put together (src/llm/summary-plan.ts).
use openmurmur.Prelude.{
  ℕ, ◌+◌, ◌-◌, ◌≤◌, ◌≡◌, refl, sym, ap, ◌∙◌, List, [], ◌∷◌, ◌++◌, take, drop, map, All, arith,
}
use openmurmur.Prelude.Lists.{take-add, drop-drop}
use openmurmur.Prelude.Text.{Text, concat}
use openmurmur.SummaryPlan.{joined_prompts, last_end}
use openmurmur.SummaryPlan.Source.{PromptUnit, byte_length, slice}
use openmurmur.SummaryPlan.Points.{Seam-starts, byte_length-Seam}
use openmurmur.SummaryPlan.Units.{IsUnit, Chain}

pub slice_split : (t : Text) (a m b : ℕ) → a ≤ m → m ≤ b → slice t a m ++ slice t m b ≡ slice t a b
slice_split t a m b h k =
    ap (λ (r : Text). slice t a m ++ take (b - m) r) later
    ∙ (sym (take-add (m - a) (b - m) (drop a t)) ∙ ap (λ n. take n (drop a t)) lengths)
  where
    lengths : m - a + (b - m) ≡ b - a
    lengths = omega arith

    later : drop m t ≡ drop (m - a) (drop a t)
    later = let e : m ≡ a + (m - a) = omega arith in ap (λ n. drop n t) e ∙ drop-drop a (m - a) t

pub Chain-le : (from to : ℕ) (us : List PromptUnit) → Chain from us to → from ≤ to
Chain-le from to [] e = omega (arith, e)
Chain-le from to (u ∷ us) (e, le, c) = omega (arith, le, Chain-le u.piece.source_end to us c)

pub Chain-last :
    (from to otherwise : ℕ) (u : PromptUnit) (us : List PromptUnit)
    → Chain from (u ∷ us) to
    → last_end otherwise (u ∷ us) ≡ to
Chain-last from to otherwise u [] (e, le, c) = c
Chain-last from to otherwise u (v ∷ us) (e, le, c) =
    Chain-last u.piece.source_end to u.piece.source_end v us c

-- The texts of units that follow one another are the transcript between their ends.
pub Chain-text :
    (t : Text) (max_bytes from to : ℕ) (us : List PromptUnit)
    → Chain from us to
    → All (IsUnit t max_bytes) us
    → concat (map (λ u. u.source_text) us) ≡ slice t from to
Chain-text t max_bytes from to [] e _ =
    let none_left : 0 ≡ to - from = omega (arith, e) in ap (λ n. take n (drop from t)) none_left
Chain-text t max_bytes from to (u ∷ us) (e, le, c) (v, vs) =
    ap (λ r. r ++ concat (map (λ w. w.source_text) us))
      (v.spells ∙ ap (λ n. slice t n u.piece.source_end) e)
    ∙ (ap (λ r. slice t from u.piece.source_end ++ r)
          (Chain-text t max_bytes u.piece.source_end to us c vs)
        ∙ slice_split t from u.piece.source_end to le (Chain-le u.piece.source_end to us c))

byte_length_newline : (t : Text) → byte_length (10 ∷ t) ≡ 1 + byte_length t
byte_length_newline [] = refl
byte_length_newline (u ∷ us) = refl

byte_length_line : (a b : Text) → byte_length (a ++ 10 ∷ b) ≡ byte_length a + (1 + byte_length b)
byte_length_line a b =
    byte_length-Seam a (10 ∷ b) (Seam-starts a (10 ∷ b) refl)
    ∙ ap (λ n. byte_length a + n) (byte_length_newline b)

-- One unit more costs its bytes and a newline.
pub byte_length-joined :
    (u w : PromptUnit) (us : List PromptUnit)
    → byte_length (joined_prompts (u ∷ us ++ w ∷ []))
      ≡ byte_length (joined_prompts (u ∷ us)) + (1 + byte_length w.prompt_text)
byte_length-joined u w [] = byte_length_line u.prompt_text w.prompt_text
byte_length-joined u w (v ∷ us) = omega (
  arith,
  byte_length_line u.prompt_text (joined_prompts (v ∷ us ++ w ∷ [])),
  byte_length_line u.prompt_text (joined_prompts (v ∷ us)),
  byte_length-joined v w us,
)
