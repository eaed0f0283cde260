-- ===== src/Worker/Lines.antt =====
-- class LineSplitter and encodeRequest of src/asr/protocol.ts. `stringify` is JSON.stringify of a
-- request.
use openmurmur.Prelude.{Bool, true, ◌&&◌, List, [], ◌∷◌, ◌++◌, if◌then◌else◌}
use openmurmur.Prelude.Text.{Text, split_lines}
use openmurmur.Notification.{is_space}

-- Whether `line.trim()` is empty.
abbrev pub is_blank_line : Text → Bool
is_blank_line [] = true
is_blank_line (u ∷ us) = is_space u && is_blank_line us

-- The lines before the last, and the last, which `pop` takes off.
abbrev pub popped : List Text → List Text × Text
popped [] = ([], [])
popped (line ∷ []) = ([], line)
popped (line ∷ next ∷ lines) = let rest = popped (next ∷ lines) in (line ∷ rest.0, rest.1)

unfoldable pub without_blank : List Text → List Text
without_blank [] = []
without_blank (line ∷ lines) =
    let rest = without_blank lines in if is_blank_line line then rest else line ∷ rest

pub record LineSplitter : Type 0 where
  pub buffer : Text

abbrev pub new_splitter : LineSplitter
new_splitter = record { buffer = [] }

unfoldable pub push : LineSplitter → Text → LineSplitter × List Text
push s chunk =
    let cut = popped (split_lines (s.buffer ++ chunk)) in
    (record { buffer = cut.1 }, without_blank cut.0)

-- The chunks of a stream in turn, and all the lines.
unfoldable pub push_all : LineSplitter → List Text → LineSplitter × List Text
push_all s [] = (s, [])
push_all s (chunk ∷ chunks) =
    let now = push s chunk in let later = push_all now.0 chunks in (later.0, now.1 ++ later.1)

abbrev pub encode_request {ℓ} : {A : Type ℓ} → (A → Text) → A → Text
encode_request stringify request = stringify request ++ 10 ∷ []
