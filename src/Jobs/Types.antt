-- ===== src/Jobs/Types.antt =====
-- The rows of the job table and what the queue hands out (src/jobs/queue.ts, with the columns of
-- src/database/migrations). A timestamp, an ISO text of 24 characters that SQL compares as text, is
-- its number of milliseconds since 1970, which orders the years 0 to 9999 alike. An error message
-- is the list of its UTF-16 units. A payload is what JSON.parse makes of its text.
use Prim.Native.String.{String}
use openmurmur.Prelude.{ℕ, Bool, Option, List}

pub data JobKind : Type 0 where
  deliver_audio asr deliver_transcript summarize deliver_report deliver incoming_audio digest
        retention :
      JobKind

pub data JobState : Type 0 where
  pending leased done failed dead : JobState

pub data Field : Type 0 where
  text : String → Field
  non_text : Field

-- `invalid`: JSON.parse throws. `scalar`: null, an array, a number, a text or a Boolean.
pub data Payload : Type 0 where
  invalid scalar : Payload
  object : List (String × Field) → Payload

pub record JobRow : Type 0 where
  pub job_id : String
  pub kind : JobKind
  pub idempotency_key : String
  pub payload : Payload
  pub state : JobState
  pub attempts : ℕ
  pub max_attempts : ℕ
  pub lease_owner : Option String
  pub lease_expires_at : Option ℕ
  pub run_after : ℕ
  pub last_error : Option (List ℕ)
  pub created_at : ℕ
  pub updated_at : ℕ

-- `maintenance`: daemon_ownership shows an exclusive Telegram maintenance, in which the triggers of
-- 019_telegram_maintenance_job_guard.sql pause the jobs that produce messages.
pub record Jobs : Type 0 where
  pub rows : List JobRow
  pub maintenance : Bool

-- What an operation throws.
pub data Thrown : Type 0 where
  paused duplicate_job_id invalid_json : Thrown
  invalid_payload lease_lost : String → Thrown

pub record EnqueueOptions : Type 0 where
  pub kind : JobKind
  pub idempotency_key : String
  pub payload : Payload
  pub max_attempts : Option ℕ
  pub run_after_ms : Option ℕ

-- A call of `claim`: its arguments, the queue's owner, the UUID drawn, and the clock as the SELECT,
-- the lease and the UPDATE's time stamp read it.
pub record ClaimCall : Type 0 where
  pub kinds : List JobKind
  pub lease_ms : ℕ
  pub owner : String
  pub uuid : String
  pub now : ℕ
  pub from : ℕ
  pub stamp : ℕ

-- `Pick<ClaimedJob, 'jobId' | 'leaseToken'>`
pub record Lease : Type 0 where
  pub job_id : String
  pub lease_token : String

pub record ClaimedJob : Type 0 where
  pub job_id : String
  pub lease_token : String
  pub kind : JobKind
  pub payload : Payload
  pub attempts : ℕ
  pub max_attempts : ℕ

abbrev pub lease_of : ClaimedJob → Lease
lease_of j = record { job_id = j.job_id; lease_token = j.lease_token }

pub data JobFailureOutcome : Type 0 where
  retry dead lost : JobFailureOutcome
