-- ===== src/Transcript/Layout.antt =====
-- The size of the messages of `renderTranscriptMessages` of src/telegram/format.ts.
use mathlib.Core.List.{append-nil}
use openmurmur.Prelude.{
  ℕ, zero, suc, ◌+◌, ◌/◌, ◌%◌, ◌≤◌, ◌<◌, ◌≡◌, refl, ap, ◌∙◌, List, [], ◌∷◌, ◌++◌, leb, leb→le, ltb,
  ◌==◌, length, length-append, All, Bool-cases, inl, inr, arith, ok, Option, subst,
}
use openmurmur.Prelude.Outcome.{Returns, Returns-bind, Returns-weaken}
use openmurmur.Prelude.Text.{Text, concat, units, decimal, decimal_from}
use openmurmur.Notification.{escape_html, quote_open, quote_close}
use openmurmur.Splitting.{split_escaped_html_on_boundaries}
use openmurmur.Splitting.Lines.{without_newlines}
use openmurmur.Splitting.Chunks.{Fits}
use openmurmur.Splitting.Messages.{split_escaped_html-Returns, without_newlines-escape_html}
use openmurmur.Transcript.{
  title, header, quote, TranscriptMessage, numbered, body_limit, render, provenance, language_lines,
  LanguageInfo, render_transcript_messages,
}

one_digit : (fuel n : ℕ) → n < 10 → length (decimal_from fuel n) ≡ 1
one_digit zero n h = omega arith
one_digit (suc fuel) n h = ground arith

two_digits : (fuel n : ℕ) → n < 100 → length (decimal_from fuel n) ≤ 2
two_digits zero n h = omega arith
two_digits (suc fuel) n h = elim (Bool-cases (ltb n 10)) [
  | inl small ↦ rw small (omega arith)
  | inr large ↦ rw large (
      omega (
        arith,
        length-append {0} (decimal_from fuel (n / 10)) ((48 + n % 10) ∷ []),
        one_digit fuel (n / 10) (omega arith),
      ))
]

-- The length of a header that numbers its part: the numbers, and 24 units besides.
length-title_numbered :
    (a b : Text)
    → length (units "📝 <b>Расшифровка " ++ a ++ units "/" ++ b ++ units "</b>\n")
      ≡ length a + length b + 24
length-title_numbered a b = omega (
  arith,
  length-append {0} (a ++ units "/" ++ b) (units "</b>\n"),
  length-append {0} (a ++ units "/") b,
  length-append {0} a (units "/"),
)

longest_title : length (title 99 99) ≡ 28
unfolding title
longest_title = refl

-- A header that numbers up to 99 parts is no longer than the one that the room is reserved for.
length-title : (n total : ℕ) → n ≤ 99 → total ≤ 99 → length (title n total) ≤ length (title 99 99)
unfolding title
length-title n total hn ht = rw longest_title (elim (Bool-cases (total == 1)) [
  | inl one ↦ rw one (omega arith)
  | inr more ↦
      rw (more, length-title_numbered (decimal n) (decimal total))
        (omega (arith, two_digits n n (omega arith), two_digits total total (omega arith)))
])

-- The messages of `renderTranscriptMessages` for a header of this length.
module _ (about : Text) (fits : length (header about 99 99) + length (quote []) + 6 ≤ 4096) where
  length-quote : (body : Text) → length (quote body) ≡ length (quote []) + length body
  length-quote body = omega (
    arith,
    length-append {0} (quote_open ++ body) quote_close,
    length-append {0} quote_open body,
    length-append {0} (quote_open ++ []) quote_close,
  )

  body_limit_is : length (header about 99 99) + length (quote []) + body_limit about ≡ 4096
  unfolding body_limit
  body_limit_is = grind arith

  length-message :
      (n total : ℕ) (body : Text)
      → n ≤ 99
      → total ≤ 99
      → length body ≤ body_limit about
      → length (header about n total ++ quote body) ≤ 4096
  length-message n total body hn ht h = omega (
    arith,
    length-append {0} (header about n total) (quote body),
    length-append {0} (title n total) about,
    length-append {0} (title 99 99) about,
    length-quote body,
    length-title n total hn ht,
    body_limit_is,
  )

  numbered_fit :
      (n total : ℕ) (bodies : List Text)
      → n + length bodies ≤ 100
      → total ≤ 99
      → All (Fits length (body_limit about)) bodies
      → All (λ m. length m.text ≤ 4096) (numbered about n total bodies)
  unfolding numbered
  numbered_fit n total [] hn ht f = tt
  numbered_fit n total (body ∷ bodies) hn ht ((pos, le), f) = (
    length-message n total body (omega arith) ht le,
    numbered_fit (n + 1) total bodies (omega arith) ht f,
  )

length-numbered :
    (about : Text) (n total : ℕ) (bodies : List Text)
    → length (numbered about n total bodies) ≡ length bodies
unfolding numbered
length-numbered about n total [] = refl
length-numbered about n total (body ∷ bodies) = ap suc (length-numbered about (n + 1) total bodies)

-- The messages number the bodies from 1 on, and these spell the escaped transcript.
abbrev pub Tells : Text → Text → List TranscriptMessage → Type 0
Tells about transcript messages =
    (bodies : List Text) × (messages ≡ numbered about 1 (length bodies) bodies)
    × (without_newlines (concat bodies) ≡ escape_html (without_newlines transcript))

-- So long as the parts are few enough for the reserved room, each is within Telegram's limit.
abbrev FitsIn : List TranscriptMessage → Type 0
FitsIn messages = length messages ≤ 99 → All (λ m. length m.text ≤ 4096) messages

abbrev Told : Text → Text → List TranscriptMessage → Type 0
Told about transcript messages = Tells about transcript messages × FitsIn messages

module _ (segment : Text → List Text) (covers : (text : Text) → concat (segment text) ≡ text)
    (about : Text) (fits : length (header about 99 99) + length (quote []) + 6 ≤ 4096) where
  render-Returns :
      (transcript : Text) (inline_limit : ℕ)
      → inline_limit ≤ 4096
      → Returns (Told about transcript) (render segment about transcript inline_limit)
  unfolding render
  render-Returns transcript inline_limit small =
      elim (Bool-cases
        (leb (length (quote (escape_html transcript)) + length (header about 1 1)) inline_limit)) [
          | inl inline ↦ rw inline (
            (
              escape_html transcript ∷ [],
              unfold numbered in refl,
              ap without_newlines (append-nil (escape_html transcript))
                  ∙ without_newlines-escape_html transcript,
            ),
            λ few. (
              omega (
                arith,
                leb→le _ _ inline,
                length-append {0} (header about 1 1) (quote (escape_html transcript)),
              ),
              tt,
            ),
          )
          | inr long ↦ rw long (
              Returns-bind _ _
                (split_escaped_html_on_boundaries segment transcript (body_limit about))
                (λ bodies. ok (numbered about 1 (length bodies) bodies))
                (split_escaped_html-Returns segment covers transcript (body_limit about)
                  (omega (arith, body_limit_is about fits)))
                λ bodies (spells, f). (
                  (bodies, refl, spells),
                  λ few.
                      numbered_fit about fits 1 (length bodies) bodies
                        (omega (arith, few, length-numbered about 1 (length bodies) bodies))
                        (omega (arith, few, length-numbered about 1 (length bodies) bodies)) f,
                ))
        ]

module _ (segment : Text → List Text) (covers : (text : Text) → concat (segment text) ≡ text)
    (to_lower_case : Text → Text) (session_id : Text) (html : Option Text)
    (info : Option LanguageInfo)
    (fits : length (header (provenance session_id html ++ language_lines to_lower_case info) 99 99)
        + length (quote [])
        + 6
      ≤ 4096)
    (transcript : Text) (inline_limit : ℕ) (small : inline_limit ≤ 4096) where
  -- With a header that, numbered 99/99 and with an empty quote, leaves room for six units of 4096, and
  -- an inline limit of 4096 at most: where there are 99 messages at most, each is within Telegram's
  -- limit of 4096 units.
  pub transcript_messages_fit :
      (messages : List TranscriptMessage)
      → render_transcript_messages segment to_lower_case session_id transcript inline_limit html
          info
        ≡ ok messages
      → length messages ≤ 99
      → All (λ m. length m.text ≤ 4096) messages
  unfolding render_transcript_messages
  transcript_messages_fit messages e few =
      subst (Returns FitsIn) e
        (Returns-weaken (Told about transcript) FitsIn _
          (render-Returns segment covers about fits transcript inline_limit small) λ ms r. r.1)
        few
    where
      about : Text
      about = provenance session_id html ++ language_lines to_lower_case info
