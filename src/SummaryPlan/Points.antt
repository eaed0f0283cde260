-- ===== src/SummaryPlan/Points.antt =====
-- Texts cut between code points, and their length in UTF-8.
use mathlib.Core.List.{map-append}
use openmurmur.Prelude.{
  ℕ, zero, suc, ◌+◌, ◌<◌, ◌≡◌, refl, ap, ◌∙◌, Bool, false, ◌&&◌, List, [], ◌∷◌, ◌++◌, length, take,
  drop, map, sum, sum-append, All, Bool-cases, inl, inr, arith,
}
use openmurmur.Prelude.Lists.{take-nil, drop-nil}
use openmurmur.Prelude.Text.{Text, concat, code_points, concat-code_points, is_high, is_low}
use openmurmur.SummaryPlan.Source.{utf8_width, byte_length}

abbrev pub ends_high : Text → Bool
ends_high [] = false
ends_high (u ∷ []) = is_high u
ends_high (u ∷ v ∷ us) = ends_high (v ∷ us)

abbrev pub starts_low : Text → Bool
starts_low [] = false
starts_low (u ∷ us) = is_low u

not_high : (u : ℕ) → u < 128 → is_high u ≡ false
not_high u h = ground arith

-- A cut that does not go through a surrogate pair.
abbrev pub Seam : Text → Text → Type 0
Seam a b = code_points (a ++ b) ≡ code_points a ++ code_points b

pub Seam-ends : (a b : Text) → ends_high a ≡ false → Seam a b
Seam-ends [] b h = refl
Seam-ends (u ∷ []) [] h = refl
Seam-ends (u ∷ []) (v ∷ vs) h = rw h refl
Seam-ends (u ∷ v ∷ us) b h = elim (Bool-cases (is_high u && is_low v)) [
  | inl p ↦ rw p (ap (λ t. (u ∷ v ∷ []) ∷ t) (Seam-ends us b (ends_tail us h)))
  | inr s ↦ rw s (ap (λ t. (u ∷ []) ∷ t) (Seam-ends (v ∷ us) b h))
]
  where
    ends_tail : (us : Text) → ends_high (v ∷ us) ≡ false → ends_high us ≡ false
    ends_tail [] h = refl
    ends_tail (w ∷ ws) h = h

pub Seam-starts : (a b : Text) → starts_low b ≡ false → Seam a b
Seam-starts [] b h = refl
Seam-starts (u ∷ []) [] h = refl
Seam-starts (u ∷ []) (v ∷ vs) h = elim (Bool-cases (is_high u)) [
  | inl p ↦ rw (p, h) refl
  | inr s ↦ rw s refl
]
Seam-starts (u ∷ v ∷ us) b h = elim (Bool-cases (is_high u && is_low v)) [
  | inl p ↦ rw p (ap (λ t. (u ∷ v ∷ []) ∷ t) (Seam-starts us b h))
  | inr s ↦ rw s (ap (λ t. (u ∷ []) ∷ t) (Seam-starts (v ∷ us) b h))
]

-- What is cut off at a code point begins as the text does.
first_unit_of :
    (k v : ℕ) (us : Text) → (w : Text) × (concat (take (suc k) (code_points (v ∷ us))) ≡ v ∷ w)
first_unit_of k v [] = ([] ++ concat (take k []), refl)
first_unit_of k v (u ∷ us) = elim (Bool-cases (is_high v && is_low u)) [
  | inl p ↦ rw p (u ∷ concat (take k (code_points us)), refl)
  | inr s ↦ rw s (concat (take k (code_points (u ∷ us))), refl)
]

-- The code points of what is cut off are those before the cut.
pub code_points-take :
    (k : ℕ) (t : Text) → code_points (concat (take k (code_points t))) ≡ take k (code_points t)
code_points-take zero t = refl
code_points-take (suc k) [] = refl
code_points-take (suc k) (u ∷ []) = rw (take-nil k) refl
code_points-take (suc zero) (u ∷ v ∷ us) = elim (Bool-cases (is_high u && is_low v)) [
  | inl p ↦ rw (p, p) refl
  | inr s ↦ rw s refl
]
code_points-take (suc (suc k)) (u ∷ v ∷ us) = elim (Bool-cases (is_high u && is_low v)) [
  | inl p ↦ rw (p, p) (ap (λ t. (u ∷ v ∷ []) ∷ t) (code_points-take (suc k) us))
  | inr s ↦
      rw (s, (first_unit_of k v us).1, s)
        (ap (λ t. (u ∷ []) ∷ t)
          (rw ((first_unit_of k v us).1) at (code_points-take (suc k) (v ∷ us))))
]

pub code_points-drop :
    (k : ℕ) (t : Text) → code_points (concat (drop k (code_points t))) ≡ drop k (code_points t)
code_points-drop zero t = ap code_points (concat-code_points t)
code_points-drop (suc k) [] = refl
code_points-drop (suc k) (u ∷ []) = rw (drop-nil k) refl
code_points-drop (suc k) (u ∷ v ∷ us) = elim (Bool-cases (is_high u && is_low v)) [
  | inl p ↦ rw p (code_points-drop k us)
  | inr s ↦ rw s (code_points-drop k (v ∷ us))
]

pub byte_length-Seam :
    (a b : Text) → Seam a b → byte_length (a ++ b) ≡ byte_length a + byte_length b
byte_length-Seam a b e =
    ap (λ (t : List Text). sum (map utf8_width t)) e
    ∙ (ap sum (map-append utf8_width (code_points a) (code_points b))
        ∙ sum-append (map utf8_width (code_points a)) (map utf8_width (code_points b)))

-- Text without surrogates and beyond ASCII: a byte for each unit.
pub byte_length_ascii : (t : Text) → All (λ u. u < 128) t → byte_length t ≡ length t
byte_length_ascii [] h = refl
byte_length_ascii (u ∷ []) (h, _) = ground arith
byte_length_ascii (u ∷ v ∷ us) (h, hs) =
    rw (not_high u h) (ground (arith, byte_length_ascii (v ∷ us) hs))
