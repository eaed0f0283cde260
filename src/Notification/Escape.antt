-- ===== src/Notification/Escape.antt =====
-- What `escapeHtml` of src/telegram/format.ts makes of a text.
use mathlib.Core.List.{append_assoc}
use openmurmur.Prelude.{
  ℕ, ◌≡◌, refl, ap, false, List, [], ◌∷◌, ◌++◌, ◌==◌, if◌then◌else◌, All, arith, inl, inr,
  Bool-cases, ◌∙◌, sym, ◌≤◌, ◌<◌, length, length-append,
}
use openmurmur.Table.Laws.{append-All}
use openmurmur.Notification.{replace_all, escape_html, amp, lt, gt, quot}

-- What one unit becomes.
unfoldable pub entity : ℕ → List ℕ
entity u =
    if u == 38
    then amp
    else if u == 60
    then lt
    else if u == 62
    then gt
    else if u == 34
    then quot
    else u ∷ []

unfoldable pub escape_each : List ℕ → List ℕ
escape_each [] = []
escape_each (u ∷ us) = entity u ++ escape_each us

pub escape_unit : (u : ℕ) (us : List ℕ) → escape_html (u ∷ us) ≡ entity u ++ escape_html us
unfolding escape_html replace_all entity
escape_unit u us = elim (Bool-cases (u == 38)) [
  | inl a ↦ rw a refl
  | inr a ↦ elim (Bool-cases (u == 60)) [
    | inl b ↦ rw (a, b) refl
    | inr b ↦ elim (Bool-cases (u == 62)) [ inl c ↦ rw (a, b, c) refl | inr c ↦ rw (a, b, c) refl ]
  ]
]

-- The four replacements, one after the other, escape each unit once: no entity is escaped again.
escape_html_each : (text : List ℕ) → escape_html text ≡ escape_each text
unfolding escape_each
escape_html_each [] = unfold escape_html replace_all in refl
escape_html_each (u ∷ us) = escape_unit u us ∙ ap (λ v. entity u ++ v) (escape_html_each us)

-- A unit that HTML gives no meaning to where text is expected.
abbrev pub IsInert : ℕ → Type 0
IsInert u = ((u == 60) ≡ false) × ((u == 62) ≡ false) × ((u == 34) ≡ false)

entity-IsInert : (u : ℕ) → All IsInert (entity u)
unfolding entity
entity-IsInert u = ground arith

escape_each-IsInert : (text : List ℕ) → All IsInert (escape_each text)
unfolding escape_each
escape_each-IsInert [] = tt
escape_each-IsInert (u ∷ us) =
    append-All IsInert (entity u) (escape_each us) (entity-IsInert u) (escape_each-IsInert us)

-- Escaped text has no `<`, `>` or `"` left, whatever was said, and it is what escaping each unit by
-- itself gives: no entity is escaped twice.
pub escape_html-IsInert :
    (text : List ℕ) → All IsInert (escape_html text) × (escape_html text ≡ escape_each text)
escape_html-IsInert text =
    (rw (escape_html_each text) (escape_each-IsInert text), escape_html_each text)

pub escape_html-append : (a b : List ℕ) → escape_html (a ++ b) ≡ escape_html a ++ escape_html b
escape_html-append [] b = unfold escape_html replace_all in refl
escape_html-append (u ∷ us) b =
    escape_unit u (us ++ b)
    ∙ (ap (λ t. entity u ++ t) (escape_html-append us b)
        ∙ (sym (append_assoc (entity u) (escape_html us) (escape_html b))
            ∙ ap (λ t. t ++ escape_html b) (sym (escape_unit u us))))

pub escape_html_plain : (u : ℕ) (us : List ℕ) → 63 ≤ u → escape_html (u ∷ us) ≡ u ∷ escape_html us
escape_html_plain u us h = escape_unit u us ∙ (unfold entity in ground arith)

pub length-escape_html_unit : (u : ℕ) → length (escape_html (u ∷ [])) ≤ 6
length-escape_html_unit u =
    rw (escape_html_each (u ∷ [])) (unfold escape_each entity in ground arith)

pub length-escape_html_pos : (text : List ℕ) → 0 < length text → 0 < length (escape_html text)
length-escape_html_pos [] h = elim h [ ]
length-escape_html_pos (u ∷ us) h =
    rw (escape_unit u us)
      (unfold entity in ground (arith, length-append (entity u) (escape_html us)))
