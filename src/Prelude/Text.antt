-- ===== src/Prelude/Text.antt =====
-- Texts as JavaScript sees them: lists of UTF-16 units.
use Prim.Native.Char.{code}
use Prim.Native.Nat.{ℕ, zero, suc, ◌+◌, ◌-◌, ◌/◌, ◌%◌, ◌≤◌}
use Prim.Native.String.{String}
use mathlib.Core.Bool.{Bool, true, false, ◌&&◌}
use mathlib.Core.Path.{◌≡◌, refl, ap, sym, ◌∙◌}
use mathlib.Core.Logic.{inl, inr}
use mathlib.Core.List.{List, [], ◌∷◌, ◌++◌, map, append_assoc}
use native.Mathlib.Omega.{arith}
use openmurmur.Prelude.Tests.{ltb, leb, ◌==◌, if◌then◌else◌, Bool-cases}
use openmurmur.Prelude.Lists.{All}

abbrev pub Text : Type 0
Text = List ℕ

-- The code points of a text.
abbrev pub codes : String → List ℕ
codes String.[] = []
codes (String.◌∷◌ c s) = code c ∷ codes s

-- The units of the character with a code: itself, or a surrogate pair.
abbrev pub units_of : ℕ → List ℕ
units_of c =
    if ltb c 65536 then c ∷ [] else (55296 + (c - 65536) / 1024) ∷ (56320 + (c - 65536) % 1024) ∷ []

abbrev pub concat : List (List ℕ) → List ℕ
concat [] = []
concat (us ∷ uss) = us ++ concat uss

abbrev pub units : String → List ℕ
units s = concat (map units_of (codes s))

-- `character.charCodeAt(0)` of each character.
abbrev pub first_unit : ℕ → ℕ
first_unit c = if ltb c 65536 then c else 55296 + (c - 65536) / 1024

abbrev pub first_units : String → List ℕ
first_units s = map first_unit (codes s)

-- The decimal digits of a number below 10 ^ (fuel + 1).
abbrev pub decimal_from : ℕ → ℕ → List ℕ
decimal_from zero n = (48 + n % 10) ∷ []
decimal_from (suc fuel) n =
    let rest = decimal_from fuel (n / 10) in
    if ltb n 10 then (48 + n) ∷ [] else rest ++ (48 + n % 10) ∷ []

abbrev pub decimal : ℕ → List ℕ
decimal n = decimal_from n n

pub concat-append : (xss yss : List Text) → concat (xss ++ yss) ≡ concat xss ++ concat yss
concat-append [] yss = refl
concat-append (xs ∷ xss) yss =
    ap (λ t. xs ++ t) (concat-append xss yss) ∙ sym (append_assoc xs (concat xss) (concat yss))

pub concat-push : (xss : List Text) (ys : Text) → concat (xss ++ ys ∷ []) ≡ concat xss ++ ys
concat-push [] [] = refl
concat-push [] (y ∷ ys) = ap (λ t. y ∷ t) (concat-push [] ys)
concat-push (xs ∷ xss) ys =
    ap (λ t. xs ++ t) (concat-push xss ys) ∙ sym (append_assoc xs (concat xss) ys)

abbrev pub is_high : ℕ → Bool
is_high u = leb 55296 u && leb u 56319

abbrev pub is_low : ℕ → Bool
is_low u = leb 56320 u && leb u 57343

-- What iterating over a text yields: surrogate pairs, and the other units one by one.
abbrev pub code_points : Text → List Text
code_points [] = []
code_points (u ∷ []) = (u ∷ []) ∷ []
code_points (u ∷ v ∷ us) =
    let pair = (u ∷ v ∷ []) ∷ code_points us in
    let single = (u ∷ []) ∷ code_points (v ∷ us) in if is_high u && is_low v then pair else single

pub concat-code_points : (text : Text) → concat (code_points text) ≡ text
concat-code_points [] = refl
concat-code_points (u ∷ []) = refl
concat-code_points (u ∷ v ∷ us) = elim (Bool-cases (is_high u && is_low v)) [
  | inl p ↦ rw p (ap (λ t. u ∷ v ∷ t) (concat-code_points us))
  | inr s ↦ rw s (ap (λ t. u ∷ t) (concat-code_points (v ∷ us)))
]

-- A code point is one unit, or a surrogate pair.
abbrev pub IsCodePoint : Text → Type 0
IsCodePoint [] = ⊥
IsCodePoint (u ∷ []) = Unit
IsCodePoint (u ∷ v ∷ []) = (55296 ≤ u) × (55296 ≤ v)
IsCodePoint (u ∷ v ∷ w ∷ us) = ⊥

pub code_points-IsCodePoint : (text : Text) → All IsCodePoint (code_points text)
code_points-IsCodePoint [] = tt
code_points-IsCodePoint (u ∷ []) = (tt, tt)
code_points-IsCodePoint (u ∷ v ∷ us) = elim (Bool-cases (is_high u && is_low v)) [
  | inl p ↦ rw p ((ground arith, ground arith), code_points-IsCodePoint us)
  | inr s ↦ rw s (tt, code_points-IsCodePoint (v ∷ us))
]

abbrev pub before_lines : ℕ → List Text → List Text
before_lines u [] = if u == 10 then [] ∷ [] ∷ [] else (u ∷ []) ∷ []
before_lines u (line ∷ lines) = if u == 10 then [] ∷ line ∷ lines else (u ∷ line) ∷ lines

-- `text.split('\n')`
abbrev pub split_lines : Text → List Text
split_lines [] = [] ∷ []
split_lines (u ∷ us) = before_lines u (split_lines us)

abbrev pub same_units : Text → Text → Bool
same_units [] [] = true
same_units [] (b ∷ bs) = false
same_units (a ∷ rest) [] = false
same_units (a ∷ rest) (b ∷ bs) = a == b && same_units rest bs
