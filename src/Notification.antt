-- ===== src/Notification.antt =====
-- How a notification is laid out for Telegram (`escapeHtml` and `formatNotification` of
-- src/telegram/format.ts). A text is the list of its UTF-16 units.
pub mod Escape
use openmurmur.Prelude.{
  ℕ, ◌+◌, suc, Bool, true, false, ◌&&◌, ◌||◌, Option, none, some, List, [], ◌∷◌, ◌++◌, ltb, leb,
  ◌==◌, negate, if◌then◌else◌, length, take, drop,
}

abbrev pub telegram_message_limit : ℕ
telegram_message_limit = 4096

-- `replaceAll` of a text of one unit.
unfoldable pub replace_all : ℕ → List ℕ → List ℕ → List ℕ
replace_all unit by [] = []
replace_all unit by (u ∷ us) = (if u == unit then by else u ∷ []) ++ replace_all unit by us

-- `&amp;`, `&lt;`, `&gt;` and `&quot;`
abbrev pub amp : List ℕ
amp = 38 ∷ 97 ∷ 109 ∷ 112 ∷ 59 ∷ []

abbrev pub lt : List ℕ
lt = 38 ∷ 108 ∷ 116 ∷ 59 ∷ []

abbrev pub gt : List ℕ
gt = 38 ∷ 103 ∷ 116 ∷ 59 ∷ []

abbrev pub quot : List ℕ
quot = 38 ∷ 113 ∷ 117 ∷ 111 ∷ 116 ∷ 59 ∷ []

unfoldable pub escape_html : List ℕ → List ℕ
unfolding replace_all
escape_html text =
    replace_all 34 quot (replace_all 62 gt (replace_all 60 lt (replace_all 38 amp text)))

-- `text.split('\n').length`
unfoldable pub line_count : List ℕ → ℕ
line_count [] = 1
line_count (u ∷ us) = (if u == 10 then 1 else 0) + line_count us

-- `text.indexOf('\n')`, with `none` for -1.
unfoldable pub index_of_newline : List ℕ → Option ℕ
index_of_newline [] = none
index_of_newline (u ∷ us) =
    let rest = index_of_newline us in
    if u == 10 then some 0 else elim rest [ none ↦ none | some i ↦ some (suc i) ]

-- White space and line terminators of ECMAScript.
abbrev pub is_space : ℕ → Bool
is_space u =
    leb 9 u && leb u 13
    || u == 32
    || u == 160
    || u == 5760
    || leb 8192 u && leb u 8202
    || u == 8232
    || u == 8233
    || u == 8239
    || u == 8287
    || u == 12288
    || u == 65279

unfoldable pub trim_start : List ℕ → List ℕ
trim_start [] = []
trim_start (u ∷ us) = let rest = trim_start us in if is_space u then rest else u ∷ us

unfoldable pub trim_end : List ℕ → List ℕ
trim_end [] = []
trim_end (u ∷ us) = elim (trim_end us) [
  | [] ↦ if is_space u then [] else u ∷ []
  | v ∷ vs ↦ u ∷ v ∷ vs
]

abbrev pub trim : List ℕ → List ℕ
trim text = trim_end (trim_start text)

-- The text that is sent, and whether its `parseMode` is HTML.
pub record Formatted : Type 0 where
  pub text : List ℕ
  pub html : Bool

-- `<blockquote expandable>` and `</blockquote>`
abbrev pub quote_open : List ℕ
quote_open =
    60 ∷ 98 ∷ 108 ∷ 111 ∷ 99 ∷ 107 ∷ 113 ∷ 117 ∷ 111 ∷ 116 ∷ 101 ∷ 32 ∷ 101 ∷ 120 ∷ 112 ∷ 97 ∷ 110
    ∷ 100 ∷ 97 ∷ 98 ∷ 108 ∷ 101 ∷ 62 ∷ []

abbrev pub quote_close : List ℕ
quote_close = 60 ∷ 47 ∷ 98 ∷ 108 ∷ 111 ∷ 99 ∷ 107 ∷ 113 ∷ 117 ∷ 111 ∷ 116 ∷ 101 ∷ 62 ∷ []

abbrev pub collapsed : List ℕ → List ℕ → Formatted
collapsed headline detail = record {
  text = headline ++ quote_open ++ escape_html detail ++ quote_close;
  html = true;
}

-- The layout of a text that is long but not over the limit, by the place of its first newline.
unfoldable pub collapse : Option ℕ → List ℕ → Formatted
collapse none text = collapsed [] text
collapse (some newline) text =
    if leb newline 200
    then collapsed (escape_html (take newline text) ++ 10 ∷ 10 ∷ [])
        (trim (drop (suc newline) text))
    else collapsed [] text

unfoldable pub format_notification : List ℕ → Formatted
unfolding collapse
format_notification text =
    if ltb telegram_message_limit (length text)
    then record { text = text; html = false }
    else if leb (length text) 350 && leb (line_count text) 5
    then record { text = text; html = false }
    else collapse (index_of_newline text) text
