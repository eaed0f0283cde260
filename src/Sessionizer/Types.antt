-- ===== src/Sessionizer/Types.antt =====
-- The sessionizer's vocabulary (src/sessionizer/types.ts) and its settings
-- (SessionizerConfig of src/config/schema.ts). Instants are integers of milliseconds, durations
-- numbers of milliseconds; a speech probability and its threshold are counted on one fixed grid.
use Prim.Native.String.{String}
use openmurmur.Prelude.{ℕ, Option}
use openmurmur.Prelude.Int.{ℤ}

pub data SessionState : Type 0 where
  idle speech_candidate active silence_grace finalizing processing delivering done : SessionState

pub record VadFrame : Type 0 where
  pub monotonic_ms : ℤ
  pub wall_ms : ℤ
  pub duration_ms : ℕ
  pub speech_probability : ℕ

pub data RejectionReason : Type 0 where
  insufficient_speech insufficient_words asr_empty asr_failed : RejectionReason

pub data CloseReason : Type 0 where
  rotation session_end : CloseReason

pub record OpenPart : Type 0 where
  pub session_id : String
  pub part_index : ℕ
  pub pre_roll_frames : ℕ
  pub pre_roll_ms : ℕ
  pub started_wall_ms : ℤ
  pub started_monotonic_ms : ℤ

pub record FinalSession : Type 0 where
  pub ended_wall_ms : ℤ
  pub duration_ms : ℤ
  pub speech_ms : ℕ

pub record ClosePart : Type 0 where
  pub session_id : String
  pub part_index : ℕ
  pub ended_wall_ms : ℤ
  pub ended_monotonic_ms : ℤ
  pub reason : CloseReason
  pub final_session : Option FinalSession

pub record SessionStarted : Type 0 where
  pub session_id : String
  pub started_wall_ms : ℤ

pub record SessionFinalized : Type 0 where
  pub session_id : String
  pub started_wall_ms : ℤ
  pub ended_wall_ms : ℤ
  pub part_count : ℕ
  pub speech_ms : ℕ
  pub duration_ms : ℤ

pub record SessionRejected : Type 0 where
  pub session_id : String
  pub reason : RejectionReason
  pub speech_ms : ℕ
  pub part_count : ℕ
  pub ended_wall_ms : Option ℤ
  pub duration_ms : Option ℤ

pub data SessionIntent : Type 0 where
  open_part : OpenPart → SessionIntent
  close_part : ClosePart → SessionIntent
  session_started : SessionStarted → SessionIntent
  session_finalized : SessionFinalized → SessionIntent
  session_rejected : SessionRejected → SessionIntent

pub record SessionizerSnapshot : Type 0 where
  pub state : SessionState
  pub session_id : Option String
  pub part_index : ℕ
  pub speech_ms : ℕ
  pub session_started_monotonic_ms : Option ℤ
  pub session_started_wall_ms : Option ℤ
  pub silence_ms : Option ℤ

pub record SessionizerConfig : Type 0 where
  pub pre_roll_seconds : ℕ
  pub speech_candidate_ms : ℕ
  pub silence_timeout_seconds : ℕ
  pub max_part_seconds : ℕ
  pub min_speech_seconds : ℕ
  pub min_transcript_words : ℕ
  pub vad_threshold : ℕ
