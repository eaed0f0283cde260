-- ===== src/Transcript/Tests.antt =====
-- Runs of `renderTranscriptMessages` (src/telegram/format.ts), with each code point a grapheme.
use openmurmur.Prelude.{
  ℕ, zero, suc, ◌+◌, ◌≤◌, ◌≡◌, refl, true, none, some, [], ◌∷◌, ◌++◌, length, All, arith, ok,
}
use openmurmur.Prelude.Outcome.{for_each}
use openmurmur.Prelude.Text.{Text, units, code_points, concat-code_points}
use openmurmur.Notification.{escape_html, replace_all}
use openmurmur.Splitting.{flushed, joined, add_escaped_line, split_escaped_html_on_boundaries}
use openmurmur.Transcript.{
  TranscriptMessage, header, quote, title, numbered, body_limit, provenance, language_lines,
  language_list_label, recognition_mode_label, render, render_transcript_messages,
}
use openmurmur.Transcript.Layout.{transcript_messages_fit}

abbrev replicate : ℕ → ℕ → Text
replicate zero u = []
replicate (suc n) u = u ∷ replicate n u

-- A provenance that leaves a body 8 units.
abbrev long_provenance : Text
long_provenance = replicate 4021 97

abbrev about : Text
about = long_provenance ++ 10 ∷ 10 ∷ []

abbrev transcript : Text
transcript = units "ab<c\ndef"

abbrev first_message : TranscriptMessage
first_message = record {
  text = units "📝 <b>Расшифровка 1/2</b>\n" ++ about ++ quote (units "ab&lt;c");
  part_number = 1;
  part_count = 2;
}

abbrev second_message : TranscriptMessage
second_message = record {
  text = units "📝 <b>Расшифровка 2/2</b>\n" ++ about ++ quote (units "def");
  part_number = 2;
  part_count = 2;
}

two_parts :
    render_transcript_messages code_points
      (λ t. t)
      (units "s")
      transcript
      3500
      (some long_provenance)
      none
    ≡ ok (first_message ∷ second_message ∷ [])
unfolding render_transcript_messages render provenance language_lines title numbered body_limit
    split_escaped_html_on_boundaries add_escaped_line joined flushed for_each escape_html
    replace_all
two_parts = refl

inline :
    render_transcript_messages code_points
      (λ t. t)
      (units "s1")
      (units "a&b")
      3500
      none
      (some record {
        languages = units "th" ∷ units "xx" ∷ [];
        forced_language = none;
        show_settings_hint = true;
      })
    ≡ ok (
        record {
          text =
              units
                "📝 <b>Расшифровка</b>\n<code>s1</code>\n\n🌐 Языки: тайский, xx\n🎯 Режим: автоматически\n⚙"
              ++ 65039
                ∷ units
                    " Кнопки ниже меняют режим следующих расшифровок.\n\n<blockquote expandable>a&amp;b</blockquote>";
          part_number = 1;
          part_count = 1;
        }
        ∷ [])
unfolding render_transcript_messages render provenance language_lines language_list_label
    recognition_mode_label title escape_html replace_all
inline = refl

room :
    length (
        header
          (provenance (units "s") (some long_provenance) ++ language_lines (λ t. t) none)
          99
          99)
      + length (quote [])
      + 6
    ≤ 4096
unfolding title provenance language_lines
room = omega arith

transcript_messages_fit_example :
    All (λ m. length m.text ≤ 4096) (first_message ∷ second_message ∷ [])
transcript_messages_fit_example =
    transcript_messages_fit code_points concat-code_points (λ t. t) (units "s")
      (some long_provenance) none room transcript 3500 (omega arith)
      (first_message ∷ second_message ∷ []) two_parts (omega arith)
