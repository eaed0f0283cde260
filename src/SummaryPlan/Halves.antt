-- ===== src/SummaryPlan/Halves.antt =====
-- A piece of a transcript that is cut behind some of its characters.
use mathlib.Core.List.{append_assoc}
use openmurmur.Prelude.{
  ℕ, zero, suc, ◌+◌, ◌≤◌, ◌≡◌, refl, sym, ap, ◌∙◌, List, [], ◌∷◌, ◌++◌, length, length-append, take,
  drop, map, sum, arith,
}
use openmurmur.Prelude.Lists.{take-length, drop-length, take-append-drop, drop-drop}
use openmurmur.Prelude.Text.{Text, concat, concat-append, code_points, concat-code_points}
use openmurmur.SummaryPlan.Source.{utf8_width, byte_length, slice}
use openmurmur.SummaryPlan.Points.{Seam, code_points-take, code_points-drop}

-- What stands before and behind the cut of a piece.
module _ (transcript : Text) (start : ℕ) (x y : Text) (d : drop start transcript ≡ x ++ y)
    (seam : Seam x y) (k : ℕ) (le : k ≤ length (code_points x)) where
  abbrev pub head : Text
  head = concat (take k (code_points x))

  abbrev pub rest : Text
  rest = concat (drop k (code_points x))

  head-rest : head ++ rest ≡ x
  head-rest =
      sym (concat-append (take k (code_points x)) (drop k (code_points x)))
      ∙ (ap concat (take-append-drop k (code_points x)) ∙ concat-code_points x)

  pub length-head-rest : length head + length rest ≡ length x
  length-head-rest = sym (length-append {0} head rest) ∙ ap (λ (t : Text). length t) head-rest

  after_start : drop start transcript ≡ head ++ (rest ++ y)
  after_start = d ∙ (ap (λ t. t ++ y) (sym head-rest) ∙ append_assoc head rest y)

  pub after_head : drop (start + length head) transcript ≡ rest ++ y
  after_head =
      drop-drop start (length head) transcript
      ∙ (ap (drop (length head)) after_start ∙ drop-length head (rest ++ y))

  pub slice-head : slice transcript start (start + length head) ≡ head
  slice-head =
      ap (λ n. take n (drop start transcript)) (omega arith)
      ∙ (ap (take (length head)) after_start ∙ take-length head (rest ++ y))

  drop_within : (j : ℕ) (a b : List Text) → j ≤ length a → drop j (a ++ b) ≡ drop j a ++ b
  drop_within zero a b h = refl
  drop_within (suc j) [] b h = absurd (omega arith)
  drop_within (suc j) (c ∷ a) b h = drop_within j a b (omega arith)

  pub rest-Seam : Seam rest y
  rest-Seam =
      ap code_points (
        ap (λ t. rest ++ t) (sym (concat-code_points y))
        ∙ (sym (concat-append (drop k (code_points x)) (code_points y)) ∙ ap concat dropped))
      ∙ (code_points-drop k (x ++ y)
          ∙ (sym dropped ∙ ap (λ t. t ++ code_points y) (sym (code_points-drop k x))))
    where
      dropped : drop k (code_points x) ++ code_points y ≡ drop k (code_points (x ++ y))
      dropped = sym (drop_within k (code_points x) (code_points y) le) ∙ ap (drop k) (sym seam)

  pub byte_length-head : byte_length head ≡ sum (map utf8_width (take k (code_points x)))
  byte_length-head = ap (λ (t : List Text). sum (map utf8_width t)) (code_points-take k x)
