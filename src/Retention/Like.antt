-- ===== src/Retention/Like.antt =====
-- LIKE of SQLite, on code points: `%` stands for any text, `_` for one character, and the letters of
-- ASCII match in both cases.
use openmurmur.Prelude.{
  ℕ, ◌+◌, Bool, true, false, ◌&&◌, ◌||◌, List, [], ◌∷◌, ◌++◌, ◌==◌, leb, if◌then◌else◌, ◌≡◌, refl,
  arith, Bool-cases, inl, inr, ◌∙◌,
}

abbrev pub lower : ℕ → ℕ
lower u = if leb 65 u && leb u 90 then u + 32 else u

unfoldable pub like : List ℕ → List ℕ → Bool
like [] [] = true
like [] (v ∷ t) = false
like (u ∷ p) [] = u == 37 && like p []
like (u ∷ p) (v ∷ t) =
    let skip = like p (v ∷ t) in
    let take_one = like (u ∷ p) t in
    let step = like p t in
    if u == 37 then skip || take_one else (u == 95 || lower u == lower v) && step

-- `%` may stand for nothing, and for one character more.
like_nothing : (p t : List ℕ) → like p t ≡ true → like (37 ∷ p) t ≡ true
unfolding like
like_nothing p [] h = h
like_nothing p (v ∷ t) h = rw h refl

like_percent : (p t : List ℕ) (v : ℕ) → like (37 ∷ p) (v ∷ t) ≡ (like p (v ∷ t) || like (37 ∷ p) t)
unfolding like
like_percent p t v = refl

like_more : (p t : List ℕ) (v : ℕ) → like (37 ∷ p) t ≡ true → like (37 ∷ p) (v ∷ t) ≡ true
like_more p t v h = like_percent p t v ∙ rw h (or_true (like p (v ∷ t)))
  where
    or_true : (b : Bool) → (b || true) ≡ true
    or_true true = refl
    or_true false = refl

like_letter :
    (u : ℕ) (p t : List ℕ) → (u == 37) ≡ false → like p t ≡ true → like (u ∷ p) (u ∷ t) ≡ true
unfolding like
like_letter u p t other h = rw (other, h, same (lower u)) (both (u == 95))
  where
    same : (n : ℕ) → (n == n) ≡ true
    same n = ground arith

    both : (b : Bool) → ((b || true) && true) ≡ true
    both true = refl
    both false = refl

like_self : (p : List ℕ) → like p p ≡ true
like_self [] = unfold like in refl
like_self (u ∷ p) = elim (Bool-cases (u == 37)) [
  | inl percent ↦
      let e : u ≡ 37 = ground (arith, percent) in
      rw e (like_more p p 37 (like_nothing p p (like_self p)))
  | inr other ↦ like_letter u p p other (like_self p)
]

-- `'%' || text` matches whatever ends in the text.
pub like_end : (pre text : List ℕ) → like (37 ∷ text) (pre ++ text) ≡ true
like_end [] text = like_nothing text text (like_self text)
like_end (v ∷ pre) text = like_more text (pre ++ text) v (like_end pre text)
