-- ===== src/Retention/Types.antt =====
-- The rows that retention reads and the plans it makes (src/retention/policy.ts, with the columns of
-- src/database/migrations). A timestamp is its number of milliseconds since 1970, a reason is the
-- list of its UTF-16 units, a limit of the configuration is a whole number of hours.
use Prim.Native.String.{String}
use openmurmur.Prelude.{ℕ, Bool, Option, List}
use openmurmur.Prelude.Text.{Text}
use openmurmur.Jobs.Types.{JobRow}
use openmurmur.Outbox.Types.{OutboxRow}

pub data SessionState : Type 0 where
  active finalizing processing delivering done rejected failed : SessionState

pub record AudioSession : Type 0 where
  pub session_id : String
  pub state : SessionState
  pub ended_at : Option ℕ
  pub rejection_reason : Option String

pub record AudioPart : Type 0 where
  pub part_id : String
  pub session_id : String
  pub path : String
  pub bytes : Option ℕ
  pub sha256 : Option String
  pub finalized : Bool
  pub delivered : Bool
  pub delivered_at : Option ℕ
  pub deleted_at : Option ℕ

pub record TranscriptRevision : Type 0 where
  pub session_id : Option String
  pub incoming_file_id : Option String
  pub is_current : Bool

pub data IncomingState : Type 0 where
  received downloaded validated transcribed delivered rejected failed : IncomingState

pub record IncomingFile : Type 0 where
  pub file_uid : String
  pub state : IncomingState
  pub actual_bytes : Option ℕ
  pub quarantine_path : Option String
  pub normalized_path : Option String
  pub delivered_at : Option ℕ
  pub updated_at : ℕ
  pub deleted_at : Option ℕ

-- The tables that the queries read.
pub record Facts : Type 0 where
  pub sessions : List AudioSession
  pub parts : List AudioPart
  pub revisions : List TranscriptRevision
  pub files : List IncomingFile
  pub outbox : List OutboxRow
  pub jobs : List JobRow

pub record RetentionConfig : Type 0 where
  pub session_audio_hours : ℕ
  pub rejected_session_hours : ℕ
  pub incoming_audio_hours : ℕ
  pub quarantine_hours : ℕ

pub data DeletionKind : Type 0 where
  session_audio rejected_session_audio incoming_audio quarantine : DeletionKind

pub record DeletionCandidate : Type 0 where
  pub kind : DeletionKind
  pub id : String
  pub path : String
  pub reason : Text
  pub bytes : ℕ

pub record Blocked : Type 0 where
  pub id : String
  pub path : String
  pub reason : Text

pub record RetentionPlan : Type 0 where
  pub candidates : List DeletionCandidate
  pub blocked : List Blocked
  pub total_bytes : ℕ

-- What a plan was made with: `retentionPlanProofs`.
pub record RetentionPlanProof : Type 0 where
  pub config : RetentionConfig
  pub now : ℕ
