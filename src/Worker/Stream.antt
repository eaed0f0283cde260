-- ===== src/Worker/Stream.antt =====
-- The lines of a stream do not depend on how it is cut into chunks (class LineSplitter of
-- src/asr/protocol.ts).
use openmurmur.Prelude.{
  ℕ, ◌≡◌, refl, sym, ap, ◌∙◌, true, false, ◌==◌, List, [], ◌∷◌, ◌++◌, Bool-cases, inl, inr, All,
  map,
}
use mathlib.Core.List.{append_assoc, append-nil}
use openmurmur.Prelude.Text.{Text, concat, split_lines, before_lines}
use openmurmur.Worker.Lines.{
  is_blank_line, popped, without_blank, LineSplitter, new_splitter, push, push_all, encode_request,
}

lines_of : (b : Text) → (line : Text) × (lines : List Text) × (split_lines b ≡ line ∷ lines)
lines_of [] = ([], [], refl)
lines_of (u ∷ b) =
    let (line, lines, e) = lines_of b in
    elim (Bool-cases (u == 10)) [
      | inl t ↦ ([], line ∷ lines, rw (e, t) refl)
      | inr f ↦ (u ∷ line, lines, rw (e, f) refl)
    ]

after_newline :
    (u : ℕ) (b : Text) → (u == 10) ≡ true → before_lines u (split_lines b) ≡ [] ∷ split_lines b
after_newline u b t = let (line, lines, e) = lines_of b in rw (e, t) refl

-- The rest of a text is split where its last line begins.
split_later :
    (a b : Text)
    → split_lines (a ++ b)
      ≡ (popped (split_lines a)).0 ++ split_lines ((popped (split_lines a)).1 ++ b)
split_later [] b = refl
split_later (u ∷ a) b = ap (before_lines u) (split_later a b) ∙ over (split_lines a)
  where
    over :
        (lines : List Text)
        → before_lines u ((popped lines).0 ++ split_lines ((popped lines).1 ++ b))
          ≡ (popped (before_lines u lines)).0
            ++ split_lines ((popped (before_lines u lines)).1 ++ b)
    over [] = elim (Bool-cases (u == 10)) [ inl t ↦ rw t (after_newline u b t) | inr f ↦ rw f refl ]
    over (line ∷ []) = elim (Bool-cases (u == 10)) [
      | inl t ↦ rw t (after_newline u (line ++ b) t)
      | inr f ↦ rw f refl
    ]
    over (line ∷ next ∷ lines) = elim (Bool-cases (u == 10)) [
      | inl t ↦ rw t refl
      | inr f ↦ rw f refl
    ]

-- What `pop` leaves in the buffer is one line.
IsTail : Text → Type 0
IsTail t = split_lines t ≡ t ∷ []

last-IsTail : (a : Text) → IsTail (popped (split_lines a)).1
unfolding IsTail
last-IsTail [] = refl
last-IsTail (u ∷ a) = over (split_lines a) (last-IsTail a)
  where
    over : (lines : List Text) → IsTail (popped lines).1 → IsTail (popped (before_lines u lines)).1
    over [] h = elim (Bool-cases (u == 10)) [ inl t ↦ rw t refl | inr f ↦ rw (f, f) refl ]
    over (line ∷ []) h = elim (Bool-cases (u == 10)) [ inl t ↦ rw t h | inr f ↦ rw (f, h, f) refl ]
    over (line ∷ next ∷ lines) h = elim (Bool-cases (u == 10)) [ inl t ↦ rw t h | inr f ↦ rw f h ]

popped-append :
    (xs : List Text) (b : Text)
    → popped (xs ++ split_lines b) ≡ (xs ++ (popped (split_lines b)).0, (popped (split_lines b)).1)
popped-append [] b = refl
popped-append (x ∷ []) b = let (line, lines, e) = lines_of b in rw e refl
popped-append (x ∷ y ∷ xs) b = ap (λ r. (x ∷ r.0, r.1)) (popped-append (y ∷ xs) b)

without_blank-append :
    (a b : List Text) → without_blank (a ++ b) ≡ without_blank a ++ without_blank b
unfolding without_blank
without_blank-append [] b = refl
without_blank-append (line ∷ a) b = elim (Bool-cases (is_blank_line line)) [
  | inl t ↦ rw t (without_blank-append a b)
  | inr f ↦ rw f (ap (◌∷◌ line) (without_blank-append a b))
]

-- One more chunk: the same as both at once.
push_later :
    (s : LineSplitter) (chunk rest : Text)
    → push s (chunk ++ rest)
      ≡ ((push (push s chunk).0 rest).0, (push s chunk).1 ++ (push (push s chunk).0 rest).1)
unfolding push
push_later s chunk rest =
    ap result (
      ap (λ t. popped (split_lines t)) (sym (append_assoc s.buffer chunk rest))
      ∙ ap popped (split_later (s.buffer ++ chunk) rest)
      ∙ popped-append before (last ++ rest))
    ∙ ap (λ lines. (record { buffer = (popped (split_lines (last ++ rest))).1 }, lines))
        (without_blank-append before (popped (split_lines (last ++ rest))).0)
  where
    before : List Text
    before = (popped (split_lines (s.buffer ++ chunk))).0

    last : Text
    last = (popped (split_lines (s.buffer ++ chunk))).1

    result : List Text × Text → LineSplitter × List Text
    result cut = (record { buffer = cut.1 }, without_blank cut.0)

push_nothing : (s : LineSplitter) → IsTail s.buffer → push s [] ≡ (s, [])
unfolding push IsTail without_blank
push_nothing s tail =
    ap (λ t. (record { buffer = (popped t).1 }, without_blank (popped t).0))
      (ap split_lines (append-nil s.buffer) ∙ tail)

push-IsTail : (s : LineSplitter) (chunk : Text) → IsTail (push s chunk).0.buffer
unfolding push
push-IsTail s chunk = last-IsTail (s.buffer ++ chunk)

push_all-push :
    (s : LineSplitter) (chunks : List Text)
    → IsTail s.buffer
    → push_all s chunks ≡ push s (concat chunks)
unfolding push_all
push_all-push s [] tail = sym (push_nothing s tail)
push_all-push s (chunk ∷ chunks) tail =
    ap (λ r. (r.0, (push s chunk).1 ++ r.1))
      (push_all-push (push s chunk).0 chunks (push-IsTail s chunk))
    ∙ sym (push_later s chunk (concat chunks))

-- The lines that a splitter gives and what it keeps back are those of the stream, however the stream
-- is cut into chunks: in the middle of a line, at a line end, or with empty chunks.
pub push_all-concat :
    (chunks : List Text) → push_all new_splitter chunks ≡ push new_splitter (concat chunks)
unfolding IsTail
push_all-concat chunks = push_all-push new_splitter chunks refl

-- A text that is one line of the protocol.
abbrev pub IsMessage : Text → Type 0
IsMessage line = All (λ u. (u == 10) ≡ false) line × (is_blank_line line ≡ false)

split_message :
    (line rest : Text)
    → All (λ u. (u == 10) ≡ false) line
    → split_lines (line ++ 10 ∷ rest) ≡ line ∷ split_lines rest
split_message [] rest h = after_newline 10 rest refl
split_message (u ∷ line) rest (f, h) = ap (before_lines u) (split_message line rest h) ∙ rw f refl

module _ {A : Type 0} (stringify : A → Text) where
  split_requests :
      (requests : List A)
      → All (λ r. IsMessage (stringify r)) requests
      → split_lines (concat (map (encode_request stringify) requests))
        ≡ map stringify requests ++ [] ∷ []
  split_requests [] h = refl
  split_requests (r ∷ requests) (m, h) =
      ap split_lines
        (append_assoc (stringify r) (10 ∷ []) (concat (map (encode_request stringify) requests)))
      ∙ split_message (stringify r) (concat (map (encode_request stringify) requests)) m.0
      ∙ ap (◌∷◌ (stringify r)) (split_requests requests h)

  none_blank :
      (requests : List A)
      → All (λ r. IsMessage (stringify r)) requests
      → without_blank (map stringify requests) ≡ map stringify requests
  unfolding without_blank
  none_blank [] h = refl
  none_blank (r ∷ requests) (m, h) = rw m.1 (ap (◌∷◌ (stringify r)) (none_blank requests h))

  -- Where JSON.stringify writes each request on one line that is not blank, requests that are encoded
  -- one after the other come out of a splitter as they were written, in order, with nothing kept
  -- back, however the stream is cut into chunks.
  pub encode_request-push_all :
      (requests : List A) (chunks : List Text)
      → All (λ r. IsMessage (stringify r)) requests
      → concat chunks ≡ concat (map (encode_request stringify) requests)
      → push_all new_splitter chunks ≡ (new_splitter, map stringify requests)
  unfolding push
  encode_request-push_all requests chunks h same =
      push_all-concat chunks
      ∙ ap (λ t. result (popped t)) (ap split_lines same ∙ split_requests requests h)
      ∙ ap result (popped-append (map stringify requests) [])
      ∙ ap (λ lines. (new_splitter, lines))
          (ap without_blank (append-nil (map stringify requests)) ∙ none_blank requests h)
    where
      result : List Text × Text → LineSplitter × List Text
      result cut = (record { buffer = cut.1 }, without_blank cut.0)
