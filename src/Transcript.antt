-- ===== src/Transcript.antt =====
-- How a transcript is laid out as messages (`renderTranscriptMessages` of src/telegram/format.ts,
-- with the labels of src/asr/preferences.ts). A text is the list of its UTF-16 units. `segment` is
-- the grapheme segmenter, `Intl.Segmenter`, and `to_lower_case` is `toLowerCase`.
pub mod Layout
mod Tests
use openmurmur.Prelude.{
  ℕ, suc, ◌+◌, ◌-◌, Bool, true, false, ◌&&◌, Option, none, some, List, [], ◌∷◌, ◌++◌, leb, ◌==◌,
  if◌then◌else◌, length, map, max, Result, ok, ◌>>=◌,
}
use openmurmur.Prelude.Text.{Text, units, decimal, same_units}
use openmurmur.Notification.{escape_html, telegram_message_limit, quote_open, quote_close}
use openmurmur.Splitting.{Thrown, split_escaped_html_on_boundaries}

-- The rows of `LANGUAGE_LABELS`.
abbrev pub language_labels : List (Text × Text)
language_labels =
    (units "th", units "тайский")
    ∷ (units "thai", units "тайский")
    ∷ (units "ru", units "русский")
    ∷ (units "russian", units "русский")
    ∷ (units "en", units "английский")
    ∷ (units "english", units "английский")
    ∷ (units "zh", units "китайский")
    ∷ (units "chinese", units "китайский")
    ∷ (units "mandarin", units "китайский")
    ∷ (units "de", units "немецкий")
    ∷ (units "german", units "немецкий")
    ∷ (units "fr", units "французский")
    ∷ (units "french", units "французский")
    ∷ (units "es", units "испанский")
    ∷ (units "spanish", units "испанский")
    ∷ []

unfoldable pub label_in : List (Text × Text) → Text → Text → Text
label_in [] key otherwise = otherwise
label_in ((k, label) ∷ rows) key otherwise =
    if same_units k key then label else label_in rows key otherwise

unfoldable pub join_comma : List Text → Text
join_comma [] = []
join_comma (t ∷ []) = t
join_comma (t ∷ u ∷ ts) = t ++ units ", " ++ join_comma (u ∷ ts)

pub record LanguageInfo : Type 0 where
  pub languages : List Text
  pub forced_language : Option Text
  pub show_settings_hint : Bool

pub record TranscriptMessage : Type 0 where
  pub text : Text
  pub part_number : ℕ
  pub part_count : ℕ

module _ (to_lower_case : Text → Text) where
  unfoldable pub language_label : Text → Text
  unfolding label_in
  language_label value = label_in language_labels (to_lower_case value) value

  unfoldable pub language_list_label : List Text → Text
  unfolding join_comma language_label
  language_list_label [] = units "не определены"
  language_list_label (v ∷ vs) = join_comma (map language_label (v ∷ vs))

  unfoldable pub recognition_mode_label : Option Text → Text
  recognition_mode_label none = units "автоматически"
  recognition_mode_label (some language) = units "только " ++ language_label language

  unfoldable pub language_lines : Option LanguageInfo → Text
  language_lines none = []
  language_lines (some info) =
      units "🌐 Языки: "
      ++ escape_html (language_list_label info.languages)
      ++ units "\n🎯 Режим: "
      ++ escape_html (recognition_mode_label info.forced_language)
      ++ 10
        ∷ (if info.show_settings_hint
            then units "⚙" ++ 65039 ∷ units " Кнопки ниже меняют режим следующих расшифровок.\n"
            else [])
      ++ 10 ∷ []

unfoldable pub provenance : Text → Option Text → Text
provenance session_id none = units "<code>" ++ escape_html session_id ++ units "</code>\n\n"
provenance session_id (some html) = html ++ 10 ∷ 10 ∷ []

-- The header of a message, before what it says of the recording.
unfoldable pub title : ℕ → ℕ → Text
title n total =
    if total == 1
    then units "📝 <b>Расшифровка</b>\n"
    else units "📝 <b>Расшифровка " ++ decimal n ++ units "/" ++ decimal total ++ units "</b>\n"

abbrev pub header : Text → ℕ → ℕ → Text
header about n total = title n total ++ about

abbrev pub quote : Text → Text
quote body = quote_open ++ body ++ quote_close

-- The bodies as messages, from a number on.
unfoldable pub numbered : Text → ℕ → ℕ → List Text → List TranscriptMessage
numbered about n total [] = []
numbered about n total (body ∷ bodies) =
    (record { text = header about n total ++ quote body; part_number = n; part_count = total })
    ∷ numbered about (n + 1) total bodies

-- The room for a body: Telegram's limit less a header that numbers the parts by two digits.
unfoldable pub body_limit : Text → ℕ
body_limit about =
    max 1 (telegram_message_limit - (length (header about 99 99) + length (quote [])))

unfoldable pub render :
    (Text → List Text) → Text → Text → ℕ → Result Thrown (List TranscriptMessage)
render segment about transcript inline_limit =
    if leb (length (quote (escape_html transcript)) + length (header about 1 1)) inline_limit
    then ok (
        (record {
          text = header about 1 1 ++ quote (escape_html transcript);
          part_number = 1;
          part_count = 1;
        })
        ∷ [])
    else do
      bodies ← split_escaped_html_on_boundaries segment transcript (body_limit about)
      ok (numbered about 1 (length bodies) bodies)

unfoldable pub render_transcript_messages :
    (Text → List Text)
    → (Text → Text)
    → Text
    → Text
    → ℕ
    → Option Text
    → Option LanguageInfo
    → Result Thrown (List TranscriptMessage)
render_transcript_messages segment to_lower_case session_id transcript inline_limit html info =
    render segment (provenance session_id html ++ language_lines to_lower_case info) transcript
      inline_limit
