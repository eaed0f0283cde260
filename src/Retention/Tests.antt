-- ===== src/Retention/Tests.antt =====
-- Runs of the retention policy, and the theorems at concrete inputs.
use Prim.Native.String.{String}
use openmurmur.Prelude.{ℕ, ◌≡◌, refl, Bool, true, none, some, [], ◌∷◌, All, length}
use openmurmur.Jobs.Types.{JobKind, JobState, JobRow, Payload}
use openmurmur.Outbox.Types.{OutboxKind, OutboxState, OutboxRow, text}
use openmurmur.Retention.Types.{
  SessionState, AudioSession, AudioPart, Facts, RetentionConfig, session_audio, DeletionCandidate,
  RetentionPlanProof,
}
use openmurmur.Prelude.Int.{◌-ℤ◌}
use openmurmur.Table.{get, exists, update}
use openmurmur.Retention.Like.{like}
use openmurmur.Retention.Eligible.{
  joins, session_of, is_eligible, is_delivered_part, has_current_transcript, has_sent_transcript,
  has_undelivered, has_live_job, is_eligible_rejected,
}
use openmurmur.Retention.Columns.{not_later, hours_ago_iso}
use openmurmur.Retention.{
  plan_retention, plan_scoped_lane, session_candidates, rejected_candidates, file_candidates,
  session_audio_reason,
}
use openmurmur.Retention.Apply.{
  apply_retention, apply_groups, apply_candidate_group, locked_group, group_still_eligible,
  same_candidate_group, sorted_by_path, insert_by_path, add_result,
}
use openmurmur.Retention.Group.{
  Turn, deleted, mark_deleted, all_same, finish_group, commit_group, unlink_all, mark_part,
  group_with, group_from,
}
use openmurmur.Retention.Safety.{WasProven, apply_retention-WasProven}
use openmurmur.Retention.Deleted.{is_part, IsGone, deleted_is_never_planned}
use openmurmur.Retention.Once.{IsAllOrNothing, apply_candidate_group-IsAllOrNothing}

-- Session 1 is done, its part was delivered at 1 s and its transcript was sent.
abbrev done_session : AudioSession
done_session = record {
  session_id = "s1";
  state = SessionState.done;
  ended_at = some 500;
  rejection_reason = none;
}

abbrev delivered_part : AudioPart
delivered_part = record {
  part_id = "p1";
  session_id = "s1";
  path = "/audio/p1.wav";
  bytes = some 700;
  sha256 = some "ab";
  finalized = true;
  delivered = true;
  delivered_at = some 1000;
  deleted_at = none;
}

abbrev transcript_row : OutboxRow
transcript_row = record {
  rowid = 1;
  outbox_id = "o1";
  delivery_part_id = "transcript:s1";
  session_id = some "s1";
  kind = OutboxKind.transcript;
  ordinal = 0;
  payload = text (record { text = 104 ∷ []; html = true; reply_markup = none });
  state = OutboxState.sent;
  attempts = 1;
  max_attempts = 5;
  run_after = 0;
  telegram_message_id = some 9;
  last_error = none;
  created_at = 600;
  updated_at = 700;
  event_key = none;
  claim_generation = 1;
}

abbrev summary_job : JobRow
summary_job = record {
  job_id = "j1";
  kind = JobKind.summarize;
  idempotency_key = "summarize:s1";
  payload = Payload.object [];
  state = JobState.pending;
  attempts = 0;
  max_attempts = 5;
  lease_owner = none;
  lease_expires_at = none;
  run_after = 0;
  last_error = none;
  created_at = 600;
  updated_at = 600;
}

abbrev settled_facts : Facts
settled_facts = record {
  sessions = done_session ∷ [];
  parts = delivered_part ∷ [];
  revisions = record { session_id = some "s1"; incoming_file_id = none; is_current = true } ∷ [];
  files = [];
  outbox = transcript_row ∷ [];
  jobs = [];
}

abbrev busy_facts : Facts
busy_facts = record settled_facts { jobs = summary_job ∷ [] }

abbrev hourly : RetentionConfig
hourly = record {
  session_audio_hours = 1;
  rejected_session_hours = 1;
  incoming_audio_hours = 1;
  quarantine_hours = 1;
}

abbrev two_hours : ℕ
two_hours = 7200000

abbrev calm_turn : Turn
calm_turn = record {
  others = λ d. d;
  begins = none;
  unlink = λ path. none;
  commits = none;
  clock = 7200001;
}

-- A job that is queued after the plan was made.
abbrev busy_turn : Turn
busy_turn = record calm_turn { others = λ d. record d { jobs = summary_job ∷ d.jobs } }

abbrev two_hour_proof : RetentionPlanProof
two_hour_proof = record { config = hourly; now = two_hours }

abbrev first_candidate : DeletionCandidate
first_candidate = record {
  kind = session_audio;
  id = "p1";
  path = "/audio/p1.wav";
  reason = session_audio_reason hourly;
  bytes = 700;
}

one_candidate : (plan_retention settled_facts hourly two_hours).total_bytes ≡ 700
unfolding plan_retention plan_scoped_lane session_candidates rejected_candidates file_candidates
    joins session_of is_eligible is_delivered_part not_later hours_ago_iso has_current_transcript
    has_sent_transcript has_undelivered has_live_job is_eligible_rejected like get exists ◌-ℤ◌
one_candidate = refl

too_early : (plan_retention settled_facts hourly 3600999).total_bytes ≡ 0
unfolding plan_retention plan_scoped_lane session_candidates rejected_candidates file_candidates
    joins session_of is_eligible is_delivered_part not_later hours_ago_iso has_current_transcript
    has_sent_transcript has_undelivered has_live_job is_eligible_rejected like get exists ◌-ℤ◌
too_early = refl

busy_is_blocked : length (plan_retention busy_facts hourly two_hours).candidates ≡ 0
unfolding plan_retention plan_scoped_lane session_candidates rejected_candidates file_candidates
    joins session_of is_eligible is_delivered_part not_later hours_ago_iso has_current_transcript
    has_sent_transcript has_undelivered has_live_job is_eligible_rejected like get exists ◌-ℤ◌
busy_is_blocked = refl

abbrev in_order : String → String → Bool
in_order a b = true

all_deleted :
    (apply_retention in_order
      (some two_hour_proof)
      (λ index. calm_turn)
      (plan_retention settled_facts hourly two_hours)
      settled_facts).freed_bytes
    ≡ 700
unfolding plan_retention plan_scoped_lane session_candidates rejected_candidates file_candidates
    joins session_of is_eligible is_delivered_part not_later hours_ago_iso has_current_transcript
    has_sent_transcript has_undelivered has_live_job is_eligible_rejected like get exists ◌-ℤ◌
    session_audio_reason apply_retention apply_groups apply_candidate_group locked_group
    group_still_eligible same_candidate_group all_same sorted_by_path insert_by_path finish_group
    commit_group unlink_all mark_part add_result group_with group_from update
all_deleted = refl

late_job_stops :
    (apply_retention in_order
      (some two_hour_proof)
      (λ index. busy_turn)
      (plan_retention settled_facts hourly two_hours)
      settled_facts).freed_bytes
    ≡ 0
unfolding plan_retention plan_scoped_lane session_candidates rejected_candidates file_candidates
    joins session_of is_eligible is_delivered_part not_later hours_ago_iso has_current_transcript
    has_sent_transcript has_undelivered has_live_job is_eligible_rejected like get exists ◌-ℤ◌
    session_audio_reason apply_retention apply_groups apply_candidate_group locked_group
    group_still_eligible same_candidate_group all_same sorted_by_path insert_by_path finish_group
    commit_group unlink_all mark_part add_result group_with group_from update
late_job_stops = refl

one-IsGone : IsGone true "p1" (mark_deleted session_audio settled_facts "p1" 7200001)
unfolding mark_part update
one-IsGone = ((λ i n. cc), tt)

apply_retention-WasProven_example :
    All
      (WasProven two_hour_proof)
      (apply_retention in_order
        (some two_hour_proof)
        (λ index. calm_turn)
        (plan_retention settled_facts hourly two_hours)
        settled_facts).unlinked
apply_retention-WasProven_example =
    apply_retention-WasProven in_order two_hour_proof (λ index. calm_turn)
      (plan_retention settled_facts hourly two_hours) settled_facts

the_group_goes :
    (apply_candidate_group in_order settled_facts first_candidate [] two_hour_proof
      calm_turn).outcome
    ≡ deleted 700
unfolding plan_retention plan_scoped_lane session_candidates rejected_candidates file_candidates
    joins session_of is_eligible is_delivered_part not_later hours_ago_iso has_current_transcript
    has_sent_transcript has_undelivered has_live_job is_eligible_rejected like get exists ◌-ℤ◌
    session_audio_reason apply_retention apply_groups apply_candidate_group locked_group
    group_still_eligible same_candidate_group all_same sorted_by_path insert_by_path finish_group
    commit_group unlink_all mark_part add_result group_with group_from update
the_group_goes = refl

apply_candidate_group-IsAllOrNothing_example :
    IsAllOrNothing settled_facts first_candidate [] 7200001
      (apply_candidate_group in_order settled_facts first_candidate [] two_hour_proof calm_turn)
      (apply_candidate_group in_order settled_facts first_candidate [] two_hour_proof
        calm_turn).outcome
apply_candidate_group-IsAllOrNothing_example =
    apply_candidate_group-IsAllOrNothing in_order settled_facts first_candidate [] two_hour_proof
      calm_turn

deleted_is_never_planned_example :
    IsGone true "p1" (mark_deleted session_audio settled_facts "p1" 7200001)
    × All
        (λ c. ¬ ((is_part c.kind ≡ true) × (c.id ≡ "p1")))
        (plan_retention
          (mark_deleted session_audio settled_facts "p1" 7200001)
          hourly
          9000000).candidates
deleted_is_never_planned_example =
    deleted_is_never_planned settled_facts (mark_deleted session_audio settled_facts "p1" 7200001)
      session_audio "p1" 7200001 9000000 hourly one-IsGone
