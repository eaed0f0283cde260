-- ===== src/Outbox/Send.antt =====
-- How one message is sent (`sendPayload` of src/telegram/outbox.ts and what it calls). The Telegram
-- client, the file system and the host's `prepareDigestDocument` answer by a `Turn`.
use Prim.Native.String.{String}
use package.text.Mathlib.Text.{◌==◌ as str_eq}
use openmurmur.Prelude.{
  ℕ, ◌-◌, ◌^◌, ◌++◌, Bool, true, false, ◌&&◌, ◌||◌, Option, none, some, List, [], ◌∷◌, length,
  Result, ok, err, ◌>>=◌, ltb, leb, ◌==◌, negate, if◌then◌else◌,
}
use openmurmur.Outbox.Types.{
  OutboxKind, digest, DocumentPayload, OutboxPayload, text, document, Outbox, ClaimedOutboxRow,
  SendError,
}
use openmurmur.Prelude.Text.{decimal, units}
use openmurmur.Outbox.{event_message_id}

-- The text of `failure.message?.includes(…)`.
abbrev pub begins_with : List ℕ → List ℕ → Bool
begins_with us [] = true
begins_with [] (v ∷ vs) = false
begins_with (u ∷ us) (v ∷ vs) = u == v && begins_with us vs

abbrev pub includes : List ℕ → List ℕ → Bool
includes [] vs = begins_with [] vs
includes (u ∷ us) vs = begins_with (u ∷ us) vs || includes us vs

abbrev pub is_code : ℕ → Option ℕ → Bool
is_code code none = false
is_code code (some c) = c == code

-- A code that the network or Telegram's servers are to blame for, or no code.
abbrev pub is_transient : Option ℕ → Bool
is_transient none = true
is_transient (some c) = c == 429 || leb 500 c

-- `isRetryable` of src/telegram/client.ts
unfoldable pub is_retryable : SendError → Bool
is_retryable e = is_transient e.error_code

unfoldable pub is_telegram_channel_failure : SendError → Bool
is_telegram_channel_failure e = e.has_method && is_transient e.error_code

-- An error that the outbox makes up, with its code.
abbrev pub failure : Option ℕ → List ℕ → SendError
failure error_code message = record {
  message = message;
  has_method = false;
  error_code = error_code;
  retry_after_seconds = none;
  retry_without_attempt = false;
  client_shutdown = false;
}

-- One pass of the loop: the readings of the clock, and the answers of the client and of the files.
-- `prepared` is none without a verifier. `contents` are the length and the SHA-256 of what is read.
pub record Turn : Type 0 where
  pub checked : ℕ
  pub now : ℕ
  pub stamp : ℕ
  pub from : ℕ
  pub at : ℕ
  pub paused_at : ℕ
  pub scope : String
  pub edited : Result SendError (Unit {0})
  pub sent : Result SendError ℕ
  pub prepared : Option (Result SendError (Unit {0}))
  pub size : Result SendError ℕ
  pub contents : Result SendError (ℕ × String)
  pub uploaded : Result SendError ℕ

-- The edit's outcome: the message stays, is gone, or the error is passed on.
abbrev pub after_edit : Turn → ℕ → Result SendError (Unit {0}) → Result SendError ℕ
after_edit t previous (ok u) = ok previous
after_edit t previous (err e) =
    if is_code 400 e.error_code && includes e.message (units "message is not modified")
    then ok previous
    else if negate (is_code 400 e.error_code)
        || negate (includes e.message (units "message to edit not found"))
    then err e
    else t.sent

abbrev pub edit_or_send : Turn → Option ℕ → Result SendError ℕ
edit_or_send t none = t.sent
edit_or_send t (some previous) = after_edit t previous t.edited

abbrev pub previous_message : Outbox → Option String → String → Option ℕ
previous_message box none scope = none
previous_message box (some key) scope = event_message_id box key scope

unfoldable pub send_event_text : Turn → Outbox → ClaimedOutboxRow → Result SendError ℕ
send_event_text t box row = edit_or_send t (previous_message box row.event_key t.scope)

abbrev pub is_digest : OutboxKind → Bool
is_digest digest = true
is_digest _ = false

-- The verifier of a digest's document.
abbrev pub verified : Option (Result SendError (Unit {0})) → Result SendError (Unit {0})
verified none = err (failure (some 409) (units "digest artifact has no durable snapshot verifier"))
verified (some (ok u)) = ok tt
verified (some (err e)) =
    if is_code 409 e.error_code
    then err (failure (some 409) (units "digest artifact failed its durable snapshot proof"))
    else err
        (failure none (units "digest artifact could not be materialized from its durable snapshot"))

abbrev pub is_hex : ℕ → Bool
is_hex c = leb 48 c && leb c 57 || leb 97 c && leb c 102

abbrev pub all_hex : List ℕ → Bool
all_hex [] = true
all_hex (c ∷ cs) = is_hex c && all_hex cs

-- /^[0-9a-f]{64}$/
abbrev pub is_sha256 : String → Bool
is_sha256 s = length (units s) == 64 && all_hex (units s)

-- A file whose length and digest are known in advance.
abbrev pub unchanged : Turn → DocumentPayload → String → ℕ → ℕ × String → Result SendError ℕ
unchanged t d sha256 bytes (read_bytes, read_sha256) =
    if read_bytes == bytes && str_eq read_sha256 sha256
    then t.uploaded
    else err (
        failure (some 409)
          (units d.filename ++ units " no longer matches its durable content digest"))

abbrev pub invalid_metadata : DocumentPayload → SendError
invalid_metadata d =
    failure (some 400) (units d.filename ++ units " has invalid immutable-byte metadata")

abbrev pub fenced : Turn → DocumentPayload → ℕ → Option String → Option ℕ → Result SendError ℕ
fenced t d size none none = t.uploaded
fenced t d size none (some bytes) = err (invalid_metadata d)
fenced t d size (some sha256) none = err (invalid_metadata d)
fenced t d size (some sha256) (some bytes) =
    if negate (is_sha256 sha256) || ltb (2 ^ 53 - 1) bytes
    then err (invalid_metadata d)
    else if size == bytes
    then t.contents >>= unchanged t d sha256 bytes
    else err
        (failure (some 409) (units d.filename ++ units " no longer matches its durable byte count"))

abbrev pub within_limit : Turn → ℕ → DocumentPayload → ℕ → Result SendError ℕ
within_limit t max_outgoing_bytes d size =
    if ltb max_outgoing_bytes size
    then err (
        failure (some 413) (
          units d.filename
          ++ units " is "
          ++ decimal size
          ++ units " bytes, over the "
          ++ decimal max_outgoing_bytes
          ++ units " byte Telegram limit"))
    else fenced t d size d.content_sha256 d.content_bytes

abbrev pub send_document : Turn → ℕ → Bool → DocumentPayload → Result SendError ℕ
send_document t max_outgoing_bytes is_digest_document d = do
  u ← (if is_digest_document then verified t.prepared else ok tt)
  size ← t.size
  within_limit t max_outgoing_bytes d size

abbrev pub send_content : Turn → ℕ → Outbox → ClaimedOutboxRow → OutboxPayload → Result SendError ℕ
send_content t max_outgoing_bytes box row (text p) = send_event_text t box row
send_content t max_outgoing_bytes box row (document d) =
    send_document t max_outgoing_bytes (is_digest row.kind) d

-- `sendPayload`, whose result is never null.
unfoldable pub send_payload : Turn → ℕ → Outbox → ClaimedOutboxRow → Result SendError ℕ
unfolding send_event_text
send_payload t max_outgoing_bytes box row = send_content t max_outgoing_bytes box row row.payload
