-- ===== src/Outbox/Drain.antt =====
-- The sender's loop (`drainOutbox` of src/telegram/outbox.ts). The logger is left out, and so is the
-- removal of an ephemeral file after its delivery; `onDelivered` is a callback of the host that
-- returns and leaves the outbox alone.
use Prim.Native.String.{String}
use openmurmur.Prelude.{
  ℕ, ◌+◌, ◌*◌, Bool, true, false, ◌||◌, Option, none, some, List, [], ◌∷◌, Result, ok, err, ◌>>=◌,
  negate, if◌then◌else◌,
}
use openmurmur.Outbox.Types.{
  Outbox, ClaimedOutboxRow, claim_of, OutboxFailureOutcome, OutboxSentOutcome, OutboxDeferOutcome,
  SendError, Thrown,
}
use openmurmur.Outbox.Delay.{retry_delay_ms}
use openmurmur.Outbox.Send.{Turn, is_retryable, is_telegram_channel_failure, send_payload}
use openmurmur.Outbox.{
  claim_next, mark_sent, mark_failed, defer, pause_channel_for, record_event_message,
}

-- What the loop does after a message: it breaks, or it goes on with so many sent more.
pub data Next : Type 0 where
  breaks : Next
  goes_on : ℕ → Next

abbrev pub is_lost : OutboxDeferOutcome → Bool
is_lost OutboxDeferOutcome.lost = true
is_lost OutboxDeferOutcome.deferred = false

abbrev pub has_lost : OutboxFailureOutcome → Bool
has_lost OutboxFailureOutcome.lost = true
has_lost _ = false

-- `afterMark`: the event's message is recorded.
abbrev pub record_note : Option String → String → ℕ → Outbox → Outbox
record_note none scope message_id box = box
record_note (some key) scope message_id box = record_event_message key scope message_id box

abbrev pub count_sent : OutboxSentOutcome → Next
count_sent OutboxSentOutcome.sent = goes_on 1
count_sent OutboxSentOutcome.lost = goes_on 0

abbrev pub delivered : Turn → Outbox → ClaimedOutboxRow → ℕ → Result Thrown (Outbox × Next)
delivered t box row message_id = do
  (box', outcome) ←
      mark_sent box (claim_of row) (some message_id) t.at
        (record_note row.event_key t.scope message_id)
  ok (box', count_sent outcome)

-- A deferral that breaks the loop; the channel pauses unless the claim is lost or `quiet`.
abbrev pub deferred_for :
    Turn → Outbox → ClaimedOutboxRow → ℕ → List ℕ → Bool → Result Thrown (Outbox × Next)
deferred_for t box row delay message quiet = do
  (box', outcome) ← defer box (claim_of row) delay message t.from t.at
  ok (if is_lost outcome || quiet then box' else pause_channel_for box' delay t.paused_at, breaks)

-- `stopAfterChannelFailure`
abbrev pub stop_after_channel_failure :
    Turn → Outbox → ClaimedOutboxRow → SendError → OutboxFailureOutcome → Outbox × Next
stop_after_channel_failure t box row e outcome =
    if negate (is_telegram_channel_failure e)
    then (box, goes_on 0)
    else if has_lost outcome
    then (box, breaks)
    else (
      pause_channel_for box (retry_delay_ms row.attempts row.outbox_id row.claim_generation)
          t.paused_at,
      breaks,
    )

abbrev pub failed :
    Turn → Outbox → ClaimedOutboxRow → SendError → Option ℕ → Result Thrown (Outbox × Next)
failed t box row e (some seconds) = deferred_for t box row (seconds * 1000) e.message false
failed t box row e none = do
  (box', outcome) ←
      mark_failed box (claim_of row) e.message row.attempts row.max_attempts t.from t.at
  ok (stop_after_channel_failure t box' row e outcome)

-- `markPermanentFailure`
abbrev pub failed_for_good :
    Turn → Outbox → ClaimedOutboxRow → SendError → Result Thrown (Outbox × Next)
failed_for_good t box row e = do
  (box', outcome) ←
      mark_failed box (claim_of row) e.message row.max_attempts row.max_attempts t.from t.at
  ok (box', goes_on 0)

-- The `try` of the loop, from what the send gave.
unfoldable pub settle :
    Turn → Outbox → ClaimedOutboxRow → Result SendError ℕ → Result Thrown (Outbox × Next)
settle t box row (ok message_id) = delivered t box row message_id
settle t box row (err e) =
    if e.retry_without_attempt
    then deferred_for t box row 1000 e.message e.client_shutdown
    else if negate (is_retryable e)
    then failed_for_good t box row e
    else failed t box row e e.retry_after_seconds

abbrev pub attend : Turn → ℕ → Outbox → Option ClaimedOutboxRow → Result Thrown (Outbox × Next)
attend t max_outgoing_bytes box none = ok (box, breaks)
attend t max_outgoing_bytes box (some row) =
    settle t box row (send_payload t max_outgoing_bytes box row)

-- One pass of the loop.
unfoldable pub pass : Turn → ℕ → Outbox → Result Thrown (Outbox × Next)
unfolding settle send_payload
pass t max_outgoing_bytes box = do
  (box', found) ← claim_next box t.checked t.now t.stamp
  attend t max_outgoing_bytes box' found

-- `drainOutbox`, with as many turns as its budget.
unfoldable pub drain : List Turn → ℕ → Outbox → Result Thrown (Outbox × ℕ)
unfolding pass
drain [] max_outgoing_bytes box = ok (box, 0)
drain (t ∷ ts) max_outgoing_bytes box = do
  (box', next) ← pass t max_outgoing_bytes box
  elim next [
    | breaks ↦ ok (box', 0)
    | goes_on n ↦ drain ts max_outgoing_bytes box' >>= λ r. ok (r.0, n + r.1)
  ]
