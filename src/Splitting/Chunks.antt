-- ===== src/Splitting/Chunks.antt =====
-- The chunks that `splitOversizedGrapheme` of src/telegram/format.ts fills, whatever measures them.
use mathlib.Core.List.{append-nil, append_assoc}
use openmurmur.Prelude.{
  ℕ, ◌+◌, ◌≤◌, ◌<◌, ◌≡◌, refl, sym, ap, ◌∙◌, List, [], ◌∷◌, ◌++◌, false, ◌==◌, ltb, ltb→lt, length,
  All, Bool-cases, inl, inr, arith, ok,
}
use openmurmur.Prelude.Outcome.{Returns, Returns-bind, for_each, for_each-Returns}
use openmurmur.Prelude.Text.{
  Text, concat, concat-push, code_points, concat-code_points, IsCodePoint, code_points-IsCodePoint,
}
use openmurmur.Table.Laws.{append-All}
use openmurmur.Splitting.{flushed, Packing, place, split_oversized_grapheme, unpacked}

flushed_some :
    (chunks : List Text) (u : ℕ) (us : Text) → flushed chunks (u ∷ us) ≡ chunks ++ (u ∷ us) ∷ []
unfolding flushed
flushed_some chunks u us = ground arith

pub concat-flushed :
    (chunks : List Text) (current : Text)
    → concat (flushed chunks current) ≡ concat chunks ++ current
concat-flushed chunks [] = unfold flushed in sym (append-nil (concat chunks))
concat-flushed chunks (u ∷ us) = ap concat (flushed_some chunks u us) ∙ concat-push chunks (u ∷ us)

-- A chunk that can be sent: it is not empty, and it is within the limit.
abbrev pub Fits : (Text → ℕ) → ℕ → Text → Type 0
Fits size limit chunk = (0 < length chunk) × (size chunk ≤ limit)

-- The chunks spell what has been read, and the one being filled is counted.
pub record IsPacked (size : Text → ℕ) (limit : ℕ) (done : List Text) (p : Packing) : Type 0 where
  pub spells : concat p.chunks ++ p.current ≡ concat done
  pub fit : All (Fits size limit) p.chunks
  pub counted : p.size ≡ size p.current
  pub within : p.size ≤ limit

-- The whole of a text in chunks that can be sent.
abbrev pub Covers : (Text → ℕ) → ℕ → Text → List Text → Type 0
Covers size limit text chunks = (concat chunks ≡ text) × All (Fits size limit) chunks

pub is_positive : (n : ℕ) → 0 < n → (n == 0) ≡ false
is_positive n h = ground arith

pub All-Unit : (xs : List Text) → All (λ x. Unit {0}) xs
All-Unit [] = tt
All-Unit (x ∷ xs) = (tt, All-Unit xs)

-- A measure that adds up along a text.
pub record IsMeasure (size : Text → ℕ) : Type 0 where
  pub empty : size [] ≡ 0
  pub adds : (a b : Text) → size (a ++ b) ≡ size a + size b

pub length-pos : (size : Text → ℕ) → IsMeasure size → (c : Text) → 0 < size c → 0 < length c
length-pos size m [] h = absurd (omega (arith, m.empty))
length-pos size m (u ∷ us) h = omega arith

module _ {size : Text → ℕ} (m : IsMeasure size) (limit : ℕ) where
  pub flushed-Fits :
      (chunks : List Text) (current : Text)
      → All (Fits size limit) chunks
      → size current ≤ limit
      → All (Fits size limit) (flushed chunks current)
  flushed-Fits chunks [] fit h = unfold flushed in fit
  flushed-Fits chunks (u ∷ us) fit h =
      rw (flushed_some chunks u us)
        (append-All (Fits size limit) chunks ((u ∷ us) ∷ []) fit ((omega arith, h), tt))

  -- What is left at the end of a loop covers what was read.
  pub flushed-Covers :
      (done : List Text) (p : Packing)
      → IsPacked size limit done p
      → Covers size limit (concat done) (flushed p.chunks p.current)
  flushed-Covers done p v = (
    concat-flushed p.chunks p.current ∙ v.spells,
    flushed-Fits p.chunks p.current v.fit (omega (arith, v.counted)),
  )

  pub spells_more :
      (done : List Text) (chunks : List Text) (current piece : Text)
      → concat chunks ++ current ≡ concat done
      → concat chunks ++ (current ++ piece) ≡ concat (done ++ piece ∷ [])
  spells_more done chunks current piece e =
      sym (append_assoc (concat chunks) current piece)
      ∙ (ap (λ t. t ++ piece) e ∙ sym (concat-push done piece))

  place-Returns :
      (done : List Text) (c : Text) (p : Packing)
      → size c ≤ limit
      → IsPacked size limit done p
      → Returns (IsPacked size limit (done ++ c ∷ [])) (place size limit c p)
  unfolding place
  place-Returns done c p h v = elim (Bool-cases (ltb limit (size c))) [
    | inl over ↦ absurd (omega (arith, ltb→lt _ _ over))
    | inr under ↦ elim (Bool-cases (ltb limit (p.size + size c))) [
      | inl full ↦
          rw (under, full)
            record {
              spells = spells_pushed;
              fit = pushed_fit (omega (arith, ltb→lt _ _ full, v.counted));
              counted = refl;
              within = h;
            }
      | inr room ↦
          rw (under, room)
            record {
              spells = spells_more done p.chunks p.current c v.spells;
              fit = v.fit;
              counted = omega (arith, v.counted, m.adds p.current c);
              within = ground arith;
            }
    ]
  ]
    where
      spells_pushed : concat (p.chunks ++ p.current ∷ []) ++ c ≡ concat (done ++ c ∷ [])
      spells_pushed =
          ap (λ t. t ++ c) (concat-push p.chunks p.current ∙ v.spells) ∙ sym (concat-push done c)

      pushed_fit : 0 < size p.current → All (Fits size limit) (p.chunks ++ p.current ∷ [])
      pushed_fit pos =
          append-All (Fits size limit) p.chunks (p.current ∷ []) v.fit
            ((length-pos size m p.current pos, omega (arith, v.counted, v.within)), tt)

  -- A grapheme is cut between code points, if each of these fits.
  pub split_oversized_grapheme-Covers :
      (grapheme : Text)
      → ((c : Text) → IsCodePoint c → size c ≤ limit)
      → Returns (Covers size limit grapheme) (split_oversized_grapheme size limit grapheme)
  unfolding split_oversized_grapheme
  split_oversized_grapheme-Covers grapheme h =
      Returns-bind (IsPacked size limit (code_points grapheme)) (Covers size limit grapheme)
        (for_each (place size limit) (code_points grapheme) unpacked)
        (λ p. ok (flushed p.chunks p.current))
        (for_each-Returns (place size limit) IsCodePoint (IsPacked size limit)
          (λ done c p q v. place-Returns done c p (h c q) v) [] (code_points grapheme) unpacked
          (code_points-IsCodePoint grapheme)
          record { spells = refl; fit = tt; counted = sym m.empty; within = omega arith })
        λ p v. rw (← (concat-code_points grapheme)) (flushed-Covers (code_points grapheme) p v)
