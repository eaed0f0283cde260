-- ===== src/Outbox/Tests.antt =====
-- Runs of the outbox (src/telegram/outbox.ts) with two messages of one alert and a document.
use Prim.Native.String.{String}
use openmurmur.Prelude.{
  ◌⊎◌, ℕ, ◌≤◌, ◌≡◌, refl, true, false, none, some, List, [], ◌∷◌, All, Result, ok, err, state_after,
  inl, arith,
}
use openmurmur.Table
use openmurmur.Table.Laws.{IsIn}
use openmurmur.Notification.{escape_html}
use openmurmur.Notification.Escape.{IsInert, escape_each, escape_html-IsInert}
use openmurmur.Outbox.Types.{
  OutboxKind, OutboxState, text, EnqueueMessage, OutboxRow, Outbox, ClaimedOutboxRow, claim_of,
  OutboxSentOutcome, OutboxFailureOutcome, OutboxDeferOutcome, SendError,
}
use openmurmur.Outbox.History.{Operation, enqueues, recovers, perform, perform_all}
use openmurmur.Outbox.Invariant.{IsValid, in_flight, perform_all-IsValid, one_in_flight_per_event}
use openmurmur.Outbox.Fencing.{claim_next-IsValid, superseded_sender_is_inert}
use openmurmur.Outbox.Choice.{IsDue, IsNoLater, IsHandedOut, IsTaken, claim_keeps_order}
use openmurmur.Outbox.Sending.{held_then_sent}
use openmurmur.Table.Pairs.{Pairs}
use openmurmur.Outbox.Lifetime.{delivery_unit_once}
use openmurmur.Outbox.Send.{Turn}
use openmurmur.Outbox.Drain.{drain}
use openmurmur.Outbox.Progress.{IsQuiet, drain-IsQuiet}
use openmurmur.Outbox.{
  enqueue, update_outbox, claim_next, claim_row, before, is_sending, has_id, mark_sent, mark_failed,
  defer, recover_sending,
}

abbrev no_messages : Outbox
no_messages = record {
  rows = [];
  event_messages = [];
  sessions = [];
  maintenance = false;
  channel_blocked_until = 0;
}

abbrev message : String → EnqueueMessage
message part_id = record {
  delivery_part_id = part_id;
  kind = OutboxKind.report;
  session_id = none;
  ordinal = 0;
  payload = text (record { text = 104 ∷ 105 ∷ []; html = true; reply_markup = none });
  event_key = some "recording";
}

abbrev filling : List Operation
filling = enqueues (message "p1") "o1" 10 ∷ enqueues (message "p2") "o2" 20 ∷ []

abbrev box : Outbox
box = perform_all no_messages filling

no_messages-IsValid : IsValid no_messages.rows
unfolding Table.count
no_messages-IsValid = record {
  ids_distinct = tt;
  parts_distinct = tt;
  one_in_flight = λ key. omega arith;
}

box-IsValid : IsValid box.rows
box-IsValid = perform_all-IsValid no_messages filling no_messages-IsValid

one_in_flight_per_event_example :
    Table.count (in_flight "recording") (perform_all no_messages filling).rows ≤ 1
one_in_flight_per_event_example =
    one_in_flight_per_event no_messages filling "recording" no_messages-IsValid

abbrev first_claim : ClaimedOutboxRow
first_claim = record {
  outbox_id = "o1";
  delivery_part_id = "p1";
  session_id = none;
  kind = OutboxKind.report;
  payload = text (record { text = 104 ∷ 105 ∷ []; html = true; reply_markup = none });
  attempts = 1;
  max_attempts = 8;
  event_key = some "recording";
  claim_generation = 1;
}

abbrev claimed_box : Outbox
claimed_box = state_after box (claim_next box 100 100 100)

claimed_first : claim_next box 100 100 100 ≡ ok (claimed_box, some first_claim)
unfolding perform_all perform enqueue claim_next claim_row update_outbox before Table.exists
    Table.first_by Table.update Table.count
claimed_first = refl

claim_keeps_order_example :
    (r : OutboxRow) × IsIn r box.rows
    × IsDue box.rows 100 r
    × All (λ s. IsDue box.rows 100 s → IsNoLater r s) box.rows
    × IsHandedOut r first_claim
    × Pairs (IsTaken r 100) box.rows claimed_box.rows
claim_keeps_order_example = claim_keeps_order box claimed_box 100 100 100 first_claim claimed_first

-- After a crash the message is claimed a second time.
abbrev reclaimed_box : Outbox
reclaimed_box =
    state_after (perform_all claimed_box (recovers 200 ∷ []))
      (claim_next (perform_all claimed_box (recovers 200 ∷ [])) 300 300 300)

abbrev second_claim : ClaimedOutboxRow
second_claim = record first_claim { attempts = 2; claim_generation = 2 }

claimed_again :
    claim_next (perform_all claimed_box (recovers 200 ∷ [])) 300 300 300
    ≡ ok (reclaimed_box, some second_claim)
unfolding perform_all perform enqueue claim_next claim_row recover_sending update_outbox before
    Table.exists Table.first_by Table.update Table.count
claimed_again = refl

superseded_sender_is_inert_example :
    (mark_sent reclaimed_box (claim_of first_claim) (some 7) 400 (λ b. b)
      ≡ ok (reclaimed_box, OutboxSentOutcome.lost))
    × (mark_failed reclaimed_box (claim_of first_claim) [] 1 8 400 400
        ≡ ok (reclaimed_box, OutboxFailureOutcome.lost))
    × (defer reclaimed_box (claim_of first_claim) 5 [] 400 400
        ≡ ok (reclaimed_box, OutboxDeferOutcome.lost))
unfolding perform_all
superseded_sender_is_inert_example =
    superseded_sender_is_inert box claimed_box reclaimed_box 100 100 100 300 300 300 first_claim
      second_claim (recovers 200 ∷ []) [] (some 7) [] 400 1 8 5 (λ b. b) box-IsValid claimed_first
      claimed_again refl

abbrev sending_message : OutboxRow
sending_message = record {
  rowid = 1;
  outbox_id = "o1";
  delivery_part_id = "p1";
  session_id = none;
  kind = OutboxKind.report;
  ordinal = 0;
  payload = text (record { text = 104 ∷ 105 ∷ []; html = true; reply_markup = none });
  state = OutboxState.sending;
  attempts = 1;
  max_attempts = 8;
  run_after = 10;
  telegram_message_id = none;
  last_error = none;
  created_at = 10;
  updated_at = 100;
  event_key = some "recording";
  claim_generation = 1;
}

-- While the first message is being sent, a third one is stored.
abbrev later_box : Outbox
later_box = perform_all claimed_box (enqueues (message "p3") "o3" 120 ∷ [])

sending_stored : IsIn sending_message later_box.rows
unfolding perform_all perform enqueue claim_next claim_row mark_sent update_outbox before
    Table.exists Table.first_by Table.update Table.count
sending_stored = inl refl

later_box-IsValid : IsValid later_box.rows
later_box-IsValid =
    perform_all-IsValid claimed_box (enqueues (message "p3") "o3" 120 ∷ [])
      (claim_next-IsValid box claimed_box 100 100 100 (some first_claim) claimed_first box-IsValid)

held_then_sent_example :
    (marked : Outbox) × (mark_sent later_box (claim_of first_claim) (some 7) 150 (λ b. b)
      ≡ ok (marked, OutboxSentOutcome.sent))
    × (s : OutboxRow) × (Table.get (has_id "o1") marked.rows ≡ some s)
    × (s.state ≡ OutboxState.sent)
    × (s.telegram_message_id ≡ some 7)
    × (s.payload ≡ sending_message.payload)
    × (s.attempts ≡ 1)
    × Pairs (λ a b. (a.outbox_id ≡ "o1") ⊎ (b ≡ a)) later_box.rows marked.rows
held_then_sent_example =
    held_then_sent later_box (claim_of first_claim) sending_message later_box-IsValid sending_stored
      refl refl refl (some 7) 150 (λ b. b)

abbrev one_message : Outbox
one_message = state_after no_messages (enqueue no_messages (message "p1") "o1" 10)

enqueued : enqueue no_messages (message "p1") "o1" 10 ≡ ok (one_message, true)
unfolding enqueue Table.exists
enqueued = refl

delivery_unit_once_example :
    enqueue (perform_all one_message (recovers 50 ∷ [])) (message "p1") "o9" 60
    ≡ ok (perform_all one_message (recovers 50 ∷ []), false)
unfolding perform_all perform enqueue recover_sending update_outbox Table.exists Table.update
    Table.count
delivery_unit_once_example =
    delivery_unit_once no_messages one_message (message "p1") (message "p1") "o1" "o9" 10 60 true
      (recovers 50 ∷ []) enqueued refl refl

-- Telegram answers the first send and limits the rate at the second.
abbrev rate_limited : SendError
rate_limited = record {
  message = 52 ∷ 50 ∷ 57 ∷ [];
  has_method = true;
  error_code = some 429;
  retry_after_seconds = some 30;
  retry_without_attempt = false;
  client_shutdown = false;
}

abbrev turn : Result SendError ℕ → Turn
turn answer = record {
  checked = 100;
  now = 100;
  stamp = 100;
  from = 110;
  at = 110;
  paused_at = 110;
  scope = "chat";
  edited = ok tt;
  sent = answer;
  prepared = none;
  size = ok 0;
  contents = ok (0, "");
  uploaded = ok 9;
}

nothing_sending : All (λ r. is_sending r.state ≡ false) box.rows
unfolding perform_all perform enqueue Table.exists
nothing_sending = (refl, (refl, tt))

drain-IsQuiet_example :
    (box' : Outbox) × (sent : ℕ) × (drain (turn (ok 7) ∷ turn (err rate_limited) ∷ []) 50000000 box
      ≡ ok (box', sent))
    × IsQuiet box'.rows
    × (sent ≤ 2)
drain-IsQuiet_example =
    drain-IsQuiet (turn (ok 7) ∷ turn (err rate_limited) ∷ []) 50000000 box box-IsValid
      nothing_sending

-- `<&`
escape_html-IsInert_example :
    All IsInert (escape_html (60 ∷ 38 ∷ []))
    × (escape_html (60 ∷ 38 ∷ []) ≡ escape_each (60 ∷ 38 ∷ []))
escape_html-IsInert_example = escape_html-IsInert (60 ∷ 38 ∷ [])
