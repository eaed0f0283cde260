-- ===== src/Splitting/Lines.antt =====
-- The lines of a text, and what is left of it without its newlines.
use mathlib.Core.List.{append_assoc}
use openmurmur.Prelude.{
  ℕ, ◌≡◌, refl, sym, ap, ◌∙◌, false, List, [], ◌∷◌, ◌++◌, ◌==◌, if◌then◌else◌, All, Bool-cases, inl,
  inr, arith,
}
use openmurmur.Prelude.Text.{Text, concat, before_lines, split_lines}
use openmurmur.Splitting.{joined}

abbrev pub without_newlines : Text → Text
without_newlines [] = []
without_newlines (u ∷ us) = (if u == 10 then [] else u ∷ []) ++ without_newlines us

pub without_newlines-append :
    (a b : Text) → without_newlines (a ++ b) ≡ without_newlines a ++ without_newlines b
without_newlines-append [] b = refl
without_newlines-append (u ∷ us) b =
    ap (λ t. (if u == 10 then [] else u ∷ []) ++ t) (without_newlines-append us b)
    ∙ sym (append_assoc (if u == 10 then [] else u ∷ []) (without_newlines us) (without_newlines b))

abbrev pub IsLine : Text → Type 0
IsLine = All (λ u. (u == 10) ≡ false)

pub without_newlines_line : (line : Text) → IsLine line → without_newlines line ≡ line
without_newlines_line [] h = refl
without_newlines_line (u ∷ us) (n, h) = rw n (ap (λ t. u ∷ t) (without_newlines_line us h))

-- Lines that spell a text but for its newlines.
abbrev pub AreLines : Text → List Text → Type 0
AreLines text lines = All IsLine lines × (concat lines ≡ without_newlines text)

before_lines-AreLines :
    (u : ℕ) (us : Text) (lines : List Text)
    → AreLines us lines
    → AreLines (u ∷ us) (before_lines u lines)
before_lines-AreLines u us [] (l, s) = elim (Bool-cases (u == 10)) [
  | inl n ↦ rw n ((tt, (tt, tt)), s)
  | inr n ↦ rw n (((n, tt), tt), ap (λ t. u ∷ t) s)
]
before_lines-AreLines u us (line ∷ lines) (l, s) = elim (Bool-cases (u == 10)) [
  | inl n ↦ rw n ((tt, l), s)
  | inr n ↦ rw n (((n, l.0), l.1), ap (λ t. u ∷ t) s)
]

pub split_lines-AreLines : (text : Text) → AreLines text (split_lines text)
split_lines-AreLines [] = ((tt, tt), refl)
split_lines-AreLines (u ∷ us) =
    before_lines-AreLines u us (split_lines us) (split_lines-AreLines us)

pub joined_some : (c : ℕ) (cs line : Text) → joined (c ∷ cs) line ≡ c ∷ cs ++ 10 ∷ line
unfolding joined
joined_some c cs line = ground arith

pub without_newlines-joined :
    (current line : Text)
    → IsLine line
    → without_newlines (joined current line) ≡ without_newlines current ++ line
without_newlines-joined [] line h = unfold joined in without_newlines_line line h
without_newlines-joined (c ∷ cs) line h =
    ap without_newlines (joined_some c cs line)
    ∙ (without_newlines-append (c ∷ cs) (10 ∷ line)
        ∙ ap (λ t. without_newlines (c ∷ cs) ++ t) (without_newlines_line line h))

-- One line more, in each of the ways in which it is added.
module _ (read line : Text) (h : IsLine line) where
  pub spells_line :
      (cut : Text) → without_newlines cut ≡ read → without_newlines (cut ++ line) ≡ read ++ line
  spells_line cut e =
      without_newlines-append cut line
      ∙ (ap (λ t. t ++ without_newlines line) e
          ∙ ap (λ t. read ++ t) (without_newlines_line line h))

  pub spells_joined :
      (cut current : Text)
      → without_newlines (cut ++ current) ≡ read
      → without_newlines (cut ++ joined current line) ≡ read ++ line
  spells_joined cut current e =
      without_newlines-append cut (joined current line)
      ∙ (ap (λ t. without_newlines cut ++ t) (without_newlines-joined current line h)
          ∙ (sym (append_assoc (without_newlines cut) (without_newlines current) line)
              ∙ ap (λ t. t ++ line) (sym (without_newlines-append cut current) ∙ e)))
