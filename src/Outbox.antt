-- ===== src/Outbox.antt =====
-- The transactional outbox of every Telegram message (class Outbox of src/telegram/outbox.ts) over
-- its tables, with the trigger of src/database/migrations/018_telegram_maintenance_outbox_guard.sql.
-- An error carries no table: what a thrown operation wrote is undone.
pub mod Types
pub mod Message
pub mod Delay
pub mod Update
pub mod History
pub mod Invariant
pub mod Fencing
pub mod Choice
pub mod Sending
pub mod Lifetime
pub mod Send
pub mod Drain
pub mod Progress
mod Tests
use Prim.Native.Char.{code}
use Prim.Native.String.{String, len, slice, find, ◌++◌ as str_append}
use package.text.Mathlib.Text.{◌==◌ as str_eq, starts_with}
use package.text.Mathlib.TextBridge.{to_list}
use openmurmur.Prelude.{
  ℕ, zero, suc, ◌+◌, ◌-◌, ◌*◌, ◌/◌, ◌%◌, ◌^◌, min, max, Bool, true, false, ◌&&◌, ◌||◌, Option, none,
  some, List, [], ◌∷◌, ◌++◌, map, Result, ok, err, ◌>>=◌, ltb, leb, ◌==◌, negate, if◌then◌else◌,
  take,
}
use Prim.Native.Nat.{bit_xor}
use openmurmur.Table
use openmurmur.Notification.{Formatted, format_notification}
use Message.{is_alert, is_status, notification_event_key, laid_out}
use Delay.{retry_delay_ms}
use Types.{
  OutboxKind, alert, status, OutboxState, TextPayload, OutboxPayload, text, document,
  EnqueueMessage, OutboxRow, EventMessage, Outbox, ClaimedOutboxRow, Claim, OutboxFailureOutcome,
  OutboxSentOutcome, OutboxDeferOutcome, deferred, Thrown, paused, duplicate_outbox_id,
  unknown_session, changed_while_claimed,
}

abbrev pub is_pending : OutboxState → Bool
is_pending OutboxState.pending = true
is_pending _ = false

abbrev pub is_sending : OutboxState → Bool
is_sending OutboxState.sending = true
is_sending _ = false

abbrev pub is_sent : OutboxState → Bool
is_sent OutboxState.sent = true
is_sent _ = false

abbrev pub is_dead : OutboxState → Bool
is_dead OutboxState.dead = true
is_dead _ = false

abbrev pub same_text : Option String → String → Bool
same_text none s = false
same_text (some t) s = str_eq t s

abbrev pub or_else {ℓ} : {A : Type ℓ} → Option A → Option A → Option A
or_else none b = b
or_else (some a) b = some a

abbrev pub last_rowid : List OutboxRow → ℕ
last_rowid [] = 0
last_rowid (r ∷ rows) = max r.rowid (last_rowid rows)

abbrev pub new_row : Outbox → EnqueueMessage → String → ℕ → OutboxRow
new_row box m id now = record {
  rowid = last_rowid box.rows + 1;
  outbox_id = id;
  delivery_part_id = m.delivery_part_id;
  session_id = m.session_id;
  kind = m.kind;
  ordinal = m.ordinal;
  payload = laid_out (is_alert m.kind || is_status m.kind) m.payload;
  state = OutboxState.pending;
  attempts = 0;
  max_attempts = 8;
  run_after = now;
  telegram_message_id = none;
  last_error = none;
  created_at = now;
  updated_at = now;
  event_key = or_else m.event_key (notification_event_key m);
  claim_generation = 0;
}

abbrev pub has_part : String → OutboxRow → Bool
has_part id r = str_eq r.delivery_part_id id

abbrev pub has_id : String → OutboxRow → Bool
has_id id r = str_eq r.outbox_id id

-- The foreign key of session_id.
abbrev pub is_known : List String → Option String → Bool
is_known sessions none = true
is_known sessions (some id) = Table.exists (λ s. str_eq s id) sessions

unfoldable pub enqueue : Outbox → EnqueueMessage → String → ℕ → Result Thrown (Outbox × Bool)
enqueue box m id now =
    if box.maintenance
    then err paused
    else if Table.exists (has_part m.delivery_part_id) box.rows
    then ok (box, false)
    else if Table.exists (has_id id) box.rows
    then err duplicate_outbox_id
    else if is_known box.sessions m.session_id
    then ok (record box { rows = box.rows ++ new_row box m id now ∷ [] }, true)
    else err unknown_session

-- The trigger on an UPDATE of the state.
abbrev pub blocks : OutboxRow → OutboxRow → Bool
blocks old new =
    (is_pending new.state || is_sending new.state)
    && negate (is_pending old.state || is_sending old.state)

-- An UPDATE of the table, with the number of its changes.
unfoldable pub update_outbox :
    Outbox → (OutboxRow → Bool) → (OutboxRow → OutboxRow) → Result Thrown (Outbox × ℕ)
update_outbox box test set =
    if box.maintenance && Table.exists (λ r. test r && blocks r (set r)) box.rows
    then err paused
    else ok (record box { rows = Table.update test set box.rows }, Table.count test box.rows)

-- The row `s` holds up the row `r` of the event `key`.
abbrev pub is_ahead : String → OutboxRow → OutboxRow → Bool
is_ahead key r s =
    same_text s.event_key key && (is_sending s.state || is_pending s.state && ltb s.rowid r.rowid)

abbrev pub is_held_up : List OutboxRow → OutboxRow → Option String → Bool
is_held_up rows r none = false
is_held_up rows r (some key) = Table.exists (is_ahead key r) rows

-- The WHERE of the SELECT in `claimNext`.
abbrev pub is_claimable : List OutboxRow → ℕ → OutboxRow → Bool
is_claimable rows now r =
    is_pending r.state && leb r.run_after now && negate (is_held_up rows r r.event_key)

-- ORDER BY created_at, rowid, ordinal: no two rows have one rowid.
unfoldable pub before : OutboxRow → OutboxRow → Bool
before a b = ltb a.created_at b.created_at || a.created_at == b.created_at && ltb a.rowid b.rowid

abbrev pub sending_row : ℕ → OutboxRow → OutboxRow
sending_row stamp r = record r {
  state = OutboxState.sending;
  attempts = r.attempts + 1;
  claim_generation = r.claim_generation + 1;
  updated_at = stamp;
}

abbrev pub claimed : OutboxRow → ClaimedOutboxRow
claimed r = record {
  outbox_id = r.outbox_id;
  delivery_part_id = r.delivery_part_id;
  session_id = r.session_id;
  kind = r.kind;
  payload = r.payload;
  attempts = r.attempts + 1;
  max_attempts = r.max_attempts;
  event_key = r.event_key;
  claim_generation = r.claim_generation + 1;
}

abbrev pub is_as_read : OutboxRow → OutboxRow → Bool
is_as_read row r =
    has_id row.outbox_id r && is_pending r.state && r.claim_generation == row.claim_generation

-- `claimNext`, from the row that the SELECT found.
unfoldable pub claim_row :
    Outbox → Option OutboxRow → ℕ → Result Thrown (Outbox × Option ClaimedOutboxRow)
claim_row box none stamp = ok (box, none)
claim_row box (some row) stamp = do
  (box', changes) ← update_outbox box (is_as_read row) (sending_row stamp)
  if changes == 1 then ok (box', some (claimed row)) else err (changed_while_claimed row.outbox_id)

-- `claimNext`: the clock is read at `checked` for the channel, at `now` for the SELECT and at `stamp`.
unfoldable pub claim_next : Outbox → ℕ → ℕ → ℕ → Result Thrown (Outbox × Option ClaimedOutboxRow)
claim_next box checked now stamp =
    if ltb checked box.channel_blocked_until
    then ok (box, none)
    else claim_row box (Table.first_by before (is_claimable box.rows now) box.rows) stamp

abbrev pub is_message : String → String → EventMessage → Bool
is_message event_key chat_scope m = str_eq m.event_key event_key && str_eq m.chat_scope chat_scope

abbrev pub message_of : Option EventMessage → Option ℕ
message_of none = none
message_of (some m) = some m.telegram_message_id

unfoldable pub event_message_id : Outbox → String → String → Option ℕ
event_message_id box event_key chat_scope =
    message_of (Table.get (is_message event_key chat_scope) box.event_messages)

unfoldable pub record_event_message : String → String → ℕ → Outbox → Outbox
record_event_message event_key chat_scope message_id box =
    let test = is_message event_key chat_scope in
    record box {
      event_messages =
          if Table.exists test box.event_messages
          then Table.update test (λ m. record m { telegram_message_id = message_id })
              box.event_messages
          else box.event_messages
            ++ record {
              event_key = event_key;
              chat_scope = chat_scope;
              telegram_message_id = message_id;
            }
              ∷ [];
    }

-- `outbox_id = ? AND state = 'sending' AND claim_generation = ?`
abbrev pub holds : Claim → OutboxRow → Bool
holds claim r =
    has_id claim.outbox_id r && is_sending r.state && r.claim_generation == claim.claim_generation

abbrev pub sent_row : Option ℕ → ℕ → OutboxRow → OutboxRow
sent_row message_id now r = record r {
  state = OutboxState.sent;
  telegram_message_id = message_id;
  updated_at = now;
}

abbrev pub acknowledged : (Outbox → Outbox) → Outbox × ℕ → Outbox × OutboxSentOutcome
acknowledged after_mark (box, changes) =
    if changes == 1 then (after_mark box, OutboxSentOutcome.sent) else (box, OutboxSentOutcome.lost)

-- `markSent`, with the effect of `afterMark` on the outbox.
unfoldable pub mark_sent :
    Outbox → Claim → Option ℕ → ℕ → (Outbox → Outbox) → Result Thrown (Outbox × OutboxSentOutcome)
mark_sent box claim message_id now after_mark = do
  r ← update_outbox box (holds claim) (sent_row message_id now)
  ok (acknowledged after_mark r)

abbrev pub failed_row : Bool → List ℕ → ℕ → ℕ → OutboxRow → OutboxRow
failed_row exhausted error run_after stamp r = record r {
  state = if exhausted then OutboxState.dead else OutboxState.pending;
  last_error = some (take 2000 error);
  run_after = run_after;
  updated_at = stamp;
}

-- `markFailed`: the clock is read at `from` and then at `stamp`.
unfoldable pub mark_failed :
    Outbox → Claim → List ℕ → ℕ → ℕ → ℕ → ℕ → Result Thrown (Outbox × OutboxFailureOutcome)
mark_failed box claim error attempts max_attempts from stamp = do
  let exhausted = leb max_attempts attempts
  let delay : ℕ =
      if exhausted then 0 else retry_delay_ms attempts claim.outbox_id claim.claim_generation
  (box', changes) ←
      update_outbox box (holds claim) (failed_row exhausted error (from + delay) stamp)
  ok (
    box',
    if changes == 1
        then if exhausted then OutboxFailureOutcome.dead else OutboxFailureOutcome.retry
        else OutboxFailureOutcome.lost,
  )

unfoldable pub pause_channel_for : Outbox → ℕ → ℕ → Outbox
pause_channel_for box delay_ms now = record box {
  channel_blocked_until = max box.channel_blocked_until (now + delay_ms);
}

abbrev pub deferred_row : List ℕ → ℕ → ℕ → OutboxRow → OutboxRow
deferred_row reason run_after stamp r = record r {
  state = OutboxState.pending;
  attempts = r.attempts - 1;
  run_after = run_after;
  last_error = some (take 2000 reason);
  updated_at = stamp;
}

-- `defer`: the clock is read at `from` and then at `stamp`. MAX(0, attempts - 1) is `-` on ℕ.
unfoldable pub defer :
    Outbox → Claim → ℕ → List ℕ → ℕ → ℕ → Result Thrown (Outbox × OutboxDeferOutcome)
defer box claim delay_ms reason from stamp = do
  (box', changes) ← update_outbox box (holds claim) (deferred_row reason (from + delay_ms) stamp)
  ok (box', if changes == 1 then deferred else OutboxDeferOutcome.lost)

abbrev pub recovered_row : ℕ → OutboxRow → OutboxRow
recovered_row now r = record r { state = OutboxState.pending; updated_at = now }

-- `recoverSending`
unfoldable pub recover_sending : Outbox → ℕ → Result Thrown (Outbox × ℕ)
recover_sending box now = update_outbox box (λ r. is_sending r.state) (recovered_row now)

unfoldable pub pending_count : Outbox → ℕ
pending_count box = Table.count (λ r. is_pending r.state || is_sending r.state) box.rows

unfoldable pub dead_count : Outbox → ℕ
dead_count box = Table.count (λ r. is_dead r.state) box.rows

abbrev pub state_in : Option OutboxRow → Option OutboxState
state_in none = none
state_in (some r) = some r.state

unfoldable pub state_of : Outbox → String → Option OutboxState
state_of box part_id = state_in (Table.get (has_part part_id) box.rows)

abbrev pub kind_number : OutboxKind → ℕ
kind_number OutboxKind.audio = 0
kind_number OutboxKind.transcript = 1
kind_number OutboxKind.report = 2
kind_number OutboxKind.digest = 3
kind_number status = 4
kind_number alert = 5
kind_number OutboxKind.incoming_transcript = 6

unfoldable pub all_delivered : Outbox → String → OutboxKind → Bool
all_delivered box session_id kind =
    let test = λ (r : OutboxRow).
      same_text r.session_id session_id && kind_number r.kind == kind_number kind in
    let total = Table.count test box.rows in
    ltb 0 total && Table.count (λ r. test r && is_sent r.state) box.rows == total
