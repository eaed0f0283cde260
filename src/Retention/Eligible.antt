-- ===== src/Retention/Eligible.antt =====
-- The WHERE clauses of the queries of src/retention/policy.ts: which rows may be deleted. A session is
-- looked up by its primary key.
use Prim.Native.String.{String}
use text.Mathlib.Text.{◌==◌ as str_eq}
use openmurmur.Prelude.{
  ℕ, Bool, true, false, ◌&&◌, ◌||◌, Option, none, some, List, [], ◌∷◌, ◌++◌, negate, ◌==◌,
  if◌then◌else◌, is_some,
}
use openmurmur.Prelude.Int.{ℤ}
use openmurmur.Prelude.Text.{codes, same_units}
use openmurmur.Table
use openmurmur.Jobs.Types.{JobRow, Payload, Field}
use openmurmur.Outbox.Types.{OutboxRow}
use openmurmur.Retention.Types.{
  AudioSession, AudioPart, TranscriptRevision, IncomingState, IncomingFile, Facts,
}
use openmurmur.Retention.Like.{like}
use openmurmur.Retention.Columns.{
  not_later, is_text, is_null, is_done, is_rejected, is_transcript, is_audio, is_sent,
  is_undelivered, is_live, is_dead, is_job_done, is_deliver_audio, is_incoming,
}

-- `j.idempotency_key LIKE '%' || s.session_id`
unfoldable pub has_live_job : List JobRow → String → Bool
has_live_job jobs session_id =
    Table.exists (λ j. is_live j.state && like (37 ∷ codes session_id) (codes j.idempotency_key))
      jobs

-- The session of a part, by the primary key.
unfoldable pub session_of : List AudioSession → String → Option AudioSession
session_of sessions id = Table.get (λ s. str_eq s.session_id id) sessions

unfoldable pub has_current_transcript : List TranscriptRevision → String → Bool
has_current_transcript revisions session_id =
    Table.exists (λ r. is_text r.session_id session_id && r.is_current) revisions

unfoldable pub has_sent_transcript : List OutboxRow → String → Bool
has_sent_transcript outbox session_id =
    Table.exists (λ o. is_text o.session_id session_id && is_transcript o.kind && is_sent o.state)
      outbox

unfoldable pub has_undelivered : List OutboxRow → String → Bool
has_undelivered outbox session_id =
    Table.exists (λ o. is_text o.session_id session_id && is_undelivered o.state) outbox

-- The columns of the part itself in the query of `planSessionAudio`.
unfoldable pub is_delivered_part : AudioPart → ℤ → Bool
is_delivered_part p cutoff =
    is_null p.deleted_at
    && p.finalized
    && is_some p.sha256
    && p.delivered
    && not_later p.delivered_at cutoff

unfoldable pub is_eligible : Facts → AudioPart → ℤ → AudioSession → Bool
is_eligible d p cutoff s =
    is_delivered_part p cutoff
    && is_done s.state
    && is_some s.ended_at
    && has_current_transcript d.revisions s.session_id
    && has_sent_transcript d.outbox s.session_id
    && negate (has_undelivered d.outbox s.session_id)
    && negate (has_live_job d.jobs s.session_id)

abbrev pub on_row : (AudioSession → Bool) → Option AudioSession → Bool
on_row test none = false
on_row test (some s) = test s

-- The part joined with its session, and the test of the WHERE clause.
unfoldable pub joins : List AudioSession → (AudioPart → AudioSession → Bool) → AudioPart → Bool
joins sessions test p = on_row (test p) (session_of sessions p.session_id)

-- `sent_audio.delivery_part_id = 'audio:' || part_id OR … LIKE 'audio:' || part_id || ':split%'`
unfoldable pub is_audio_of : OutboxRow → String → Bool
is_audio_of o part_id =
    like (codes "audio:" ++ codes part_id ++ codes ":split%") (codes o.delivery_part_id)
    || same_units (codes o.delivery_part_id) (codes "audio:" ++ codes part_id)

unfoldable pub has_sent_audio : List OutboxRow → String → String → Bool
has_sent_audio outbox session_id part_id =
    Table.exists
      (λ o.
        is_text o.session_id session_id
        && is_audio o.kind
        && is_sent o.state
        && is_audio_of o part_id)
      outbox

unfoldable pub has_unsent_audio : List OutboxRow → String → Bool
has_unsent_audio outbox session_id =
    Table.exists
      (λ o. is_text o.session_id session_id && is_audio o.kind && negate (is_sent o.state)) outbox

unfoldable pub has_done_delivery : List JobRow → String → Bool
has_done_delivery jobs session_id =
    Table.exists
      (λ j.
        is_deliver_audio j.kind
        && same_units (codes j.idempotency_key) (codes "deliver-audio:" ++ codes session_id)
        && is_job_done j.state)
      jobs

-- Nothing was worth sending, and the session ended long ago.
unfoldable pub is_silent_rejection : AudioSession → ℤ → Bool
is_silent_rejection s cutoff =
    is_text s.rejection_reason "insufficient_speech" && not_later s.ended_at cutoff

-- The audio was sent before the transcript was found to be empty.
unfoldable pub is_sent_rejection : Facts → AudioPart → ℤ → AudioSession → Bool
is_sent_rejection d p cutoff s =
    (is_text s.rejection_reason "asr_empty" || is_text s.rejection_reason "insufficient_words")
    && p.delivered
    && not_later p.delivered_at cutoff
    && has_sent_audio d.outbox s.session_id p.part_id
    && has_done_delivery d.jobs s.session_id

unfoldable pub is_eligible_rejected : Facts → ℤ → ℤ → AudioPart → AudioSession → Bool
is_eligible_rejected d rejected_cutoff session_cutoff p s =
    is_null p.deleted_at
    && is_rejected s.state
    && p.finalized
    && is_some p.sha256
    && (is_silent_rejection s rejected_cutoff || is_sent_rejection d p session_cutoff s)
    && negate (has_unsent_audio d.outbox s.session_id)
    && negate (has_live_job d.jobs s.session_id)

abbrev pub is_delivered_state : IncomingState → Bool
is_delivered_state IncomingState.delivered = true
is_delivered_state _ = false

-- `state IN ('rejected','failed')`
abbrev pub is_refused : IncomingState → Bool
is_refused IncomingState.rejected = true
is_refused IncomingState.failed = true
is_refused _ = false

-- `length(trim(…)) = 0`: TRIM of SQLite takes spaces off.
abbrev pub is_blank : List ℕ → Bool
is_blank [] = true
is_blank (u ∷ us) = u == 32 && is_blank us

abbrev pub names_file : String → List (String × Field) → Bool
names_file file_uid [] = true
names_file file_uid ((name, Field.non_text) ∷ fields) =
    if str_eq name "fileUid" then true else names_file file_uid fields
names_file file_uid ((name, Field.text t) ∷ fields) =
    if str_eq name "fileUid"
    then is_blank (codes t) || str_eq t file_uid
    else names_file file_uid fields

-- Whether the payload may be about the file: one that cannot be read may be about any.
unfoldable pub may_name : String → Payload → Bool
may_name file_uid (Payload.object fields) = names_file file_uid fields
may_name file_uid _ = true

-- A job that still needs the file, or may: the negation of `NO_RECOVERABLE_INCOMING_JOB`.
unfoldable pub has_recoverable_job : List JobRow → String → Bool
has_recoverable_job jobs file_uid =
    Table.exists
      (λ j.
        (is_live j.state || is_dead j.state) && is_incoming j.kind && may_name file_uid j.payload)
      jobs

unfoldable pub has_transcript_of : List TranscriptRevision → String → Bool
has_transcript_of revisions file_uid =
    Table.exists (λ r. is_text r.incoming_file_id file_uid) revisions

-- `o.delivery_part_id LIKE 'incoming:' || file_uid || ':%'`
unfoldable pub has_undelivered_incoming : List OutboxRow → String → Bool
has_undelivered_incoming outbox file_uid =
    Table.exists
      (λ o.
        is_undelivered o.state
        && like (codes "incoming:" ++ codes file_uid ++ codes ":%") (codes o.delivery_part_id))
      outbox

unfoldable pub is_eligible_incoming : Facts → ℤ → IncomingFile → Bool
is_eligible_incoming d cutoff f =
    is_null f.deleted_at
    && is_delivered_state f.state
    && not_later f.delivered_at cutoff
    && has_transcript_of d.revisions f.file_uid
    && negate (has_recoverable_job d.jobs f.file_uid)
    && negate (has_undelivered_incoming d.outbox f.file_uid)

unfoldable pub is_eligible_quarantine : Facts → ℤ → IncomingFile → Bool
is_eligible_quarantine d cutoff f =
    is_null f.deleted_at
    && is_refused f.state
    && is_some f.quarantine_path
    && not_later (some f.updated_at) cutoff
    && negate (has_recoverable_job d.jobs f.file_uid)
