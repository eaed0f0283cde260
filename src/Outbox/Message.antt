-- ===== src/Outbox/Message.antt =====
-- What `enqueue` of src/telegram/outbox.ts derives from a message: the key of its event
-- (`notificationEventKey`) and the payload as it is stored.
use Prim.Native.String.{String, len, slice, find, ◌++◌ as str_append}
use package.text.Mathlib.Text.{◌==◌ as str_eq, starts_with}
use openmurmur.Prelude.{
  Bool, true, false, ◌&&◌, ◌||◌, Option, none, some, ltb, negate, if◌then◌else◌,
}
use openmurmur.Notification.{Formatted, format_notification}
use openmurmur.Outbox.Types.{
  OutboxKind, alert, status, TextPayload, OutboxPayload, text, document, EnqueueMessage,
}

abbrev pub is_alert : OutboxKind → Bool
is_alert alert = true
is_alert _ = false

abbrev pub is_status : OutboxKind → Bool
is_status status = true
is_status _ = false

-- The match of /^alert:([^:]+):/ in a text.
unfoldable pub alert_id : String → Option String
alert_id part_id =
    let rest = slice part_id 6 (len part_id) in
    let colon = find rest ":" in
    if starts_with part_id "alert:" && ltb 0 colon && ltb colon (len rest)
    then some (slice rest 0 colon)
    else none

abbrev pub alert_key : String → String
alert_key id =
    if str_eq id "capture_failed" || str_eq id "recorder_stale"
    then "recording"
    else str_append "health:" id

abbrev pub session_key : Bool → Option String → Option String
session_key is_session_status none = none
session_key is_session_status (some id) =
    if is_session_status then some (str_append "session:" id) else none

-- What `notificationEventKey` does once the text is found not to be an alert's.
abbrev pub status_key : EnqueueMessage → Option String
status_key m =
    session_key (is_status m.kind && starts_with m.delivery_part_id "session-status:") m.session_id

abbrev pub text_key : EnqueueMessage → Option String → Option String
text_key m none = status_key m
text_key m (some id) = if is_alert m.kind then some (alert_key id) else status_key m

abbrev pub key_of : OutboxPayload → EnqueueMessage → Option String
key_of (document d) m = none
key_of (text t) m = text_key m (alert_id m.delivery_part_id)

unfoldable pub notification_event_key : EnqueueMessage → Option String
unfolding alert_id
notification_event_key m = key_of m.payload m

abbrev pub with_format : TextPayload → Formatted → TextPayload
with_format t f = record t { text = f.text; html = f.html }

-- The payload that `enqueue` stores.
abbrev pub laid_out : Bool → OutboxPayload → OutboxPayload
laid_out is_notification (document d) = document d
laid_out is_notification (text t) =
    if is_notification && negate t.html
    then text (with_format t (format_notification t.text))
    else text t
