-- ===== src/Outbox/Types.antt =====
-- The rows of the Telegram outbox and what its methods take and return (src/telegram/outbox.ts, with
-- the columns of src/database/migrations). A timestamp is its number of milliseconds since 1970. A
-- text that is sent or thrown is the list of its UTF-16 units.
use Prim.Native.String.{String}
use openmurmur.Prelude.{ℕ, Bool, Option, List}

pub data OutboxKind : Type 0 where
  audio transcript report digest status alert incoming_transcript : OutboxKind

pub data OutboxState : Type 0 where
  pending sending sent failed dead : OutboxState

-- `html`: parseMode is 'HTML'. A keyboard is its JSON.
pub record TextPayload : Type 0 where
  pub text : List ℕ
  pub html : Bool
  pub reply_markup : Option String

pub record DocumentPayload : Type 0 where
  pub path : String
  pub filename : String
  pub caption : Option (List ℕ)
  pub part_id : Option String
  pub reply_markup : Option String
  pub delete_after_send : Bool
  pub content_sha256 : Option String
  pub content_bytes : Option ℕ
  pub digest_timezone : Option String

pub data OutboxPayload : Type 0 where
  text : TextPayload → OutboxPayload
  document : DocumentPayload → OutboxPayload

pub record EnqueueMessage : Type 0 where
  pub delivery_part_id : String
  pub kind : OutboxKind
  pub session_id : Option String
  pub ordinal : ℕ
  pub payload : OutboxPayload
  pub event_key : Option String

pub record OutboxRow : Type 0 where
  pub rowid : ℕ
  pub outbox_id : String
  pub delivery_part_id : String
  pub session_id : Option String
  pub kind : OutboxKind
  pub ordinal : ℕ
  pub payload : OutboxPayload
  pub state : OutboxState
  pub attempts : ℕ
  pub max_attempts : ℕ
  pub run_after : ℕ
  pub telegram_message_id : Option ℕ
  pub last_error : Option (List ℕ)
  pub created_at : ℕ
  pub updated_at : ℕ
  pub event_key : Option String
  pub claim_generation : ℕ

-- A row of telegram_event_messages.
pub record EventMessage : Type 0 where
  pub event_key : String
  pub chat_scope : String
  pub telegram_message_id : ℕ

-- `maintenance` as for the jobs; `sessions` are the identifiers of audio_sessions, which a row may
-- refer to.
pub record Outbox : Type 0 where
  pub rows : List OutboxRow
  pub event_messages : List EventMessage
  pub sessions : List String
  pub maintenance : Bool
  pub channel_blocked_until : ℕ

pub record ClaimedOutboxRow : Type 0 where
  pub outbox_id : String
  pub delivery_part_id : String
  pub session_id : Option String
  pub kind : OutboxKind
  pub payload : OutboxPayload
  pub attempts : ℕ
  pub max_attempts : ℕ
  pub event_key : Option String
  pub claim_generation : ℕ

-- `Pick<ClaimedOutboxRow, 'outbox_id' | 'claim_generation'>`
pub record Claim : Type 0 where
  pub outbox_id : String
  pub claim_generation : ℕ

abbrev pub claim_of : ClaimedOutboxRow → Claim
claim_of c = record { outbox_id = c.outbox_id; claim_generation = c.claim_generation }

pub data OutboxFailureOutcome : Type 0 where
  retry dead lost : OutboxFailureOutcome

pub data OutboxSentOutcome : Type 0 where
  sent lost : OutboxSentOutcome

pub data OutboxDeferOutcome : Type 0 where
  deferred lost : OutboxDeferOutcome

-- An error of the Telegram client or of a send: its fields that src/telegram/client.ts and the
-- outbox read.
pub record SendError : Type 0 where
  pub message : List ℕ
  pub has_method : Bool
  pub error_code : Option ℕ
  pub retry_after_seconds : Option ℕ
  pub retry_without_attempt : Bool
  pub client_shutdown : Bool

-- What the outbox itself throws.
pub data Thrown : Type 0 where
  paused duplicate_outbox_id unknown_session : Thrown
  changed_while_claimed : String → Thrown
