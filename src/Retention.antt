-- ===== src/Retention.antt =====
-- The plan of what is deleted (`planRetention` of src/retention/policy.ts, with the WHERE clauses of
-- Retention/Eligible). Each query is a filter of the rows of its table.
pub mod Types
pub mod Like
pub mod Columns
pub mod Eligible
pub mod Group
pub mod Apply
pub mod Proof
mod Rows
mod Reading
mod Proven
mod Lanes
pub mod Safety
pub mod Once
pub mod Deleted
mod Tests
use Prim.Native.String.{String}
use text.Mathlib.Text.{◌==◌ as str_eq}
use openmurmur.Prelude.{
  ℕ, ◌+◌, Bool, true, false, ◌&&◌, ◌||◌, Option, none, some, List, [], ◌∷◌, ◌++◌, negate,
  if◌then◌else◌, is_some, map, sum,
}
use openmurmur.Prelude.Int.{ℤ}
use openmurmur.Prelude.Text.{Text, units, decimal}
use openmurmur.Table
use openmurmur.Retention.Types.{
  SessionState, AudioSession, AudioPart, IncomingFile, Facts, RetentionConfig, DeletionKind,
  session_audio, rejected_session_audio, incoming_audio, quarantine, DeletionCandidate, Blocked,
  RetentionPlan,
}
use openmurmur.Retention.Eligible.{
  is_eligible, is_eligible_rejected, is_eligible_incoming, is_eligible_quarantine, session_of,
  joins,
}
use openmurmur.Retention.Columns.{hours_ago_iso, not_later, is_text, is_null, or_zero, is_rejected}

unfoldable pub session_audio_reason : RetentionConfig → Text
session_audio_reason config =
    units "delivery confirmed more than " ++ decimal config.session_audio_hours ++ units "h ago"

-- `scope` is the row asked for, `none` for all.
abbrev pub in_scope : Option String → String → Bool
in_scope none id = true
in_scope (some wanted) id = str_eq id wanted

unfoldable pub session_candidates :
    Facts → RetentionConfig → ℤ → Option String → List AudioPart → List DeletionCandidate
session_candidates d config cutoff scope [] = []
session_candidates d config cutoff scope (p ∷ ps) =
    let rest = session_candidates d config cutoff scope ps in
    if joins d.sessions (λ q s. is_eligible d q cutoff s) p && in_scope scope p.part_id
    then (record {
      kind = session_audio;
      id = p.part_id;
      path = p.path;
      reason = session_audio_reason config;
      bytes = or_zero p.bytes;
    })
      ∷ rest
    else rest

unfoldable pub rejected_reason : RetentionConfig → Option AudioSession → Text
rejected_reason config none = []
rejected_reason config (some s) =
    if is_text s.rejection_reason "insufficient_speech"
    then units "rejected before delivery and older than "
      ++ decimal config.rejected_session_hours
      ++ units "h"
    else units "delivered rejected audio and older than "
      ++ decimal config.session_audio_hours
      ++ units "h after delivery"

unfoldable pub rejected_candidates :
    Facts → RetentionConfig → ℤ → ℤ → Option String → List AudioPart → List DeletionCandidate
rejected_candidates d config rejected_cutoff session_cutoff scope [] = []
rejected_candidates d config rejected_cutoff session_cutoff scope (p ∷ ps) =
    let rest = rejected_candidates d config rejected_cutoff session_cutoff scope ps in
    if joins d.sessions (is_eligible_rejected d rejected_cutoff session_cutoff) p
      && in_scope scope p.part_id
    then (record {
      kind = rejected_session_audio;
      id = p.part_id;
      path = p.path;
      reason = rejected_reason config (session_of d.sessions p.session_id);
      bytes = or_zero p.bytes;
    })
      ∷ rest
    else rest

abbrev pub at_path : DeletionKind → Text → IncomingFile → Option String → List DeletionCandidate
at_path kind reason f none = []
at_path kind reason f (some path) =
    (record {
      kind = kind;
      id = f.file_uid;
      path = path;
      reason = reason;
      bytes = or_zero f.actual_bytes;
    })
    ∷ []

-- The one or two paths of each file that the query selects.
unfoldable pub file_candidates :
    DeletionKind
    → Text
    → (IncomingFile → Bool)
    → Option String
    → List IncomingFile
    → List DeletionCandidate
file_candidates kind reason test scope [] = []
file_candidates kind reason test scope (f ∷ fs) =
    (if test f && in_scope scope f.file_uid
      then at_path kind reason f f.quarantine_path ++ at_path kind reason f f.normalized_path
      else [])
    ++ file_candidates kind reason test scope fs

abbrev pub state_name : SessionState → Text
state_name SessionState.active = units "ACTIVE"
state_name SessionState.finalizing = units "FINALIZING"
state_name SessionState.processing = units "PROCESSING"
state_name SessionState.delivering = units "DELIVERING"
state_name SessionState.done = units "DONE"
state_name SessionState.rejected = units "REJECTED"
state_name SessionState.failed = units "FAILED"

-- What `describeBlock` says once the part itself was delivered in time.
abbrev pub describe_state : SessionState → Bool → Text
describe_state SessionState.done elapsed =
    if negate elapsed
    then units "retention window after confirmed audio delivery has not elapsed"
    else units "transcript delivery not confirmed"
describe_state state elapsed = units "session is in state " ++ state_name state

abbrev pub is_processing : SessionState → Bool
is_processing SessionState.processing = true
is_processing _ = false

abbrev pub is_delivering : SessionState → Bool
is_delivering SessionState.delivering = true
is_delivering _ = false

unfoldable pub describe_block : AudioPart → SessionState → ℤ → Text
describe_block p state cutoff =
    if negate p.finalized
    then units "audio part was never finalized"
    else if is_null p.sha256
    then units "checksum not computed"
    else if is_processing state
    then units "ASR has not finished"
    else if is_delivering state
    then units "Telegram delivery not confirmed"
    else if negate p.delivered
    then units "this audio part was not confirmed delivered"
    else if is_null p.delivered_at
    then units "exact audio delivery time is not proven"
    else describe_state state (not_later p.delivered_at cutoff)

-- The parts of sessions that ended long ago and are kept, with the reason.
unfoldable pub is_held : ℤ → AudioPart → AudioSession → Bool
is_held cutoff p s =
    is_null p.deleted_at && not_later s.ended_at cutoff && negate (is_rejected s.state)

unfoldable pub blocked_at : ℤ → AudioPart → Option AudioSession → List Blocked
blocked_at cutoff p none = []
blocked_at cutoff p (some s) =
    (record { id = p.part_id; path = p.path; reason = describe_block p s.state cutoff }) ∷ []

unfoldable pub blocked_parts : Facts → ℤ → Option String → List AudioPart → List Blocked
blocked_parts d cutoff scope [] = []
blocked_parts d cutoff scope (p ∷ ps) =
    (if joins d.sessions (is_held cutoff) p
        && in_scope scope p.part_id
        && negate (joins d.sessions (λ q s. is_eligible d q cutoff s) p)
      then blocked_at cutoff p (session_of d.sessions p.session_id)
      else [])
    ++ blocked_parts d cutoff scope ps

-- The lanes, of one row or of all.
module _ (d : Facts) (config : RetentionConfig) (now : ℕ) (scope : Option String) where
  abbrev pub plan_session_audio : List DeletionCandidate
  plan_session_audio =
      session_candidates d config (hours_ago_iso config.session_audio_hours now) scope d.parts

  abbrev pub plan_rejected_session_audio : List DeletionCandidate
  plan_rejected_session_audio =
      rejected_candidates d config (hours_ago_iso config.rejected_session_hours now)
        (hours_ago_iso config.session_audio_hours now) scope d.parts

  abbrev pub plan_incoming_audio : List DeletionCandidate
  plan_incoming_audio =
      file_candidates incoming_audio
        (units "transcript delivered, older than "
          ++ decimal config.incoming_audio_hours
          ++ units "h after delivery")
        (is_eligible_incoming d (hours_ago_iso config.incoming_audio_hours now)) scope d.files

  abbrev pub plan_quarantine : List DeletionCandidate
  plan_quarantine =
      file_candidates quarantine
        (units "rejected, older than " ++ decimal config.quarantine_hours ++ units "h")
        (is_eligible_quarantine d (hours_ago_iso config.quarantine_hours now)) scope d.files

-- `planRetentionScoped` for one row, without what is blocked.
unfoldable pub plan_scoped_lane :
    Facts → RetentionConfig → ℕ → DeletionKind → String → List DeletionCandidate
plan_scoped_lane d config now session_audio id = plan_session_audio d config now (some id)
plan_scoped_lane d config now rejected_session_audio id =
    plan_rejected_session_audio d config now (some id)
plan_scoped_lane d config now incoming_audio id = plan_incoming_audio d config now (some id)
plan_scoped_lane d config now quarantine id = plan_quarantine d config now (some id)

unfoldable pub plan_retention : Facts → RetentionConfig → ℕ → RetentionPlan
plan_retention d config now =
    let candidates =
      plan_session_audio d config now none
      ++ (plan_rejected_session_audio d config now none
          ++ (plan_incoming_audio d config now none ++ plan_quarantine d config now none)) in
    record {
      candidates = candidates;
      blocked = blocked_parts d (hours_ago_iso config.session_audio_hours now) none d.parts;
      total_bytes = sum (map (λ c. c.bytes) candidates);
    }
