-- ===== src/Jobs/Tests.antt =====
-- Runs of the job queue (src/jobs/queue.ts) on a table of three jobs.
use Prim.Native.String.{String}
use package.text.Mathlib.TextEquality.{eq_iff}
use openmurmur.Prelude.{
  state_after, ℕ, inl, inr, ◌+◌, ◌≡◌, ◌≢◌, ◌⊎◌, refl, false, none, some, List, [], ◌∷◌, arith, All,
  Result, ok, err, take,
}
use openmurmur.Table
use openmurmur.Table.{insert}
use openmurmur.Table.Laws.{IsIn}
use openmurmur.Jobs.Types.{
  JobKind, asr, deliver_audio, retention, digest, text, JobState, Payload, JobRow, Jobs, Thrown,
  EnqueueOptions, Lease, ClaimCall, ClaimedJob, lease_of, retry, lost, lease_lost,
}
use openmurmur.Jobs.Invariant.{IsValid}
use openmurmur.Jobs.History.{
  Operation, enqueues, claims, renews, completes, fails, perform, perform_all, perform_all-IsValid,
  no_jobs,
}
use openmurmur.Jobs.Claiming.{token_of, claims_are_exclusive}
use openmurmur.Jobs.Choice.{IsRunnable, GoesFirst, IsHandedOut, IsTaken, claim_takes-IsNext}
use openmurmur.Table.Pairs.{Pairs}
use openmurmur.Jobs.Inert.{reclaimed_worker_is_inert}
use openmurmur.Jobs.Holding.{fail_under_lease}
use openmurmur.Jobs.Refinement.{LivesOn, perform_all-LivesOn}
use openmurmur.Jobs.Lifecycle.{done_is_final, enqueue_once}
use openmurmur.Jobs.Recovery.{is_expired, IsBack, IsExpired, recovery_returns-IsExpired}
use openmurmur.Jobs.{
  backoff_ms, has_kind, update_jobs, enqueue, rank, before, claim, claim_row, renew, assert_lease,
  complete, fail, recover_stale_leases, has_id,
}

abbrev job : JobKind → String → String → EnqueueOptions
job kind key session_id = record {
  kind = kind;
  idempotency_key = key;
  payload = Payload.object (("sessionId", text session_id) ∷ []);
  max_attempts = none;
  run_after_ms = none;
}

abbrev filling : List Operation
filling =
    enqueues (job retention "retention" "") "j1" 0 0
    ∷ enqueues (job asr "asr:s1" "s1") "j2" 10 10
    ∷ enqueues (job asr "asr:s1" "s1") "j3" 20 20
    ∷ enqueues (job deliver_audio "audio:s1" "s1") "j4" 30 30
    ∷ []

abbrev table : Jobs
table = perform_all (no_jobs false) filling

abbrev call : String → ℕ → ClaimCall
call uuid now = record {
  kinds = asr ∷ deliver_audio ∷ [];
  lease_ms = 1000;
  owner = "d1";
  uuid = uuid;
  now = now;
  from = now;
  stamp = now;
}

no_jobs-IsValid : IsValid (no_jobs false)
no_jobs-IsValid = record { rows_valid = tt; ids_distinct = tt; keys_distinct = tt }

table-IsValid : IsValid table
table-IsValid = perform_all-IsValid (no_jobs false) filling no_jobs-IsValid

perform_all-IsValid_example : IsValid (perform_all (no_jobs false) filling)
perform_all-IsValid_example = perform_all-IsValid (no_jobs false) filling no_jobs-IsValid

-- The table after a call that returns.
abbrev left {ℓ} : {A : Type ℓ} → Result Thrown (Jobs × A) → Jobs
left r = state_after table r

abbrev claimed_table : Jobs
claimed_table = left (claim table (call "u1" 100))

abbrev audio_job : ClaimedJob
audio_job = record {
  job_id = "j4";
  lease_token = "d1:u1";
  kind = deliver_audio;
  payload = Payload.object (("sessionId", text "s1") ∷ []);
  attempts = 1;
  max_attempts = 5;
}

claimed_first : claim table (call "u1" 100) ≡ ok (claimed_table, some audio_job)
unfolding perform_all perform enqueue insert claim claim_row update_jobs before rank has_kind
    Table.exists Table.first_by Table.update Table.count
claimed_first = refl

claim_takes-IsNext_example :
    (r : JobRow) × IsIn r table.rows
    × IsRunnable (call "u1" 100) r
    × All (λ s. IsRunnable (call "u1" 100) s → GoesFirst r s) table.rows
    × IsHandedOut (call "u1" 100) r audio_job
    × Pairs (IsTaken (call "u1" 100) r.job_id) table.rows claimed_table.rows
claim_takes-IsNext_example =
    claim_takes-IsNext table claimed_table (call "u1" 100) audio_job claimed_first

abbrev digest_call : ClaimCall
digest_call = record (call "u1" 100) { kinds = digest ∷ [] }

nothing_due : claim table digest_call ≡ ok (table, none)
unfolding perform_all perform enqueue insert claim claim_row has_kind Table.exists Table.first_by
nothing_due = refl

abbrev claimed_twice : Jobs
claimed_twice = state_after claimed_table (claim claimed_table (call "u2" 200))

abbrev asr_job : ClaimedJob
asr_job = record {
  job_id = "j2";
  lease_token = "d1:u2";
  kind = asr;
  payload = Payload.object (("sessionId", text "s1") ∷ []);
  attempts = 1;
  max_attempts = 5;
}

claimed_second : claim claimed_table (call "u2" 200) ≡ ok (claimed_twice, some asr_job)
unfolding perform_all perform enqueue insert claim claim_row update_jobs before rank has_kind
    Table.exists Table.first_by Table.update Table.count
claimed_second = refl

claims_are_exclusive_example : audio_job.job_id ≢ asr_job.job_id
claims_are_exclusive_example =
    claims_are_exclusive table claimed_table claimed_twice (call "u1" 100) (call "u2" 200) audio_job
      asr_job claimed_first claimed_second

not_the_token : audio_job.lease_token ≢ "d0:u0"
not_the_token e = absurd (ground (arith, (eq_iff "d1:u1" "d0:u0").1 e))

-- The second worker renews and fails the job, and a third one claims it.
abbrev afterwards : List Operation
afterwards =
    renews (lease_of audio_job) 1000 200 200
    ∷ fails (lease_of audio_job) [] 300 300
    ∷ claims (call "u3" 90000)
    ∷ []

not_the_next_token : token_of (call "u3" 90000) ≢ "d0:u0"
not_the_next_token e = absurd (ground (arith, (eq_iff "d1:u3" "d0:u0").1 e))

reclaimed_worker_is_inert_example :
    let old : Lease = record { job_id = "j4"; lease_token = "d0:u0" } in
    let later = perform_all claimed_table afterwards in
    (renew later old 1000 150 150 ≡ ok (later, false))
    × (complete later old 150 ≡ ok (later, false))
    × (fail later old [] 150 150 ≡ ok (later, lost))
    × (assert_lease later old 150 ≡ err (lease_lost "j4"))
reclaimed_worker_is_inert_example =
    reclaimed_worker_is_inert table claimed_table (call "u1" 100) audio_job
      (record { job_id = "j4"; lease_token = "d0:u0" }) afterwards 1000 150 150 [] claimed_first
      refl not_the_token (tt, (tt, (not_the_next_token, tt)))

no_maintenance : claimed_table.maintenance ≡ false
unfolding perform_all perform enqueue insert claim claim_row update_jobs before rank has_kind
    Table.exists Table.first_by Table.update Table.count
no_maintenance = refl

abbrev done_table : Jobs
done_table = perform claimed_table (completes (lease_of audio_job) 500)

done_table-IsValid : IsValid done_table
unfolding perform perform_all
done_table-IsValid =
    perform_all-IsValid table (claims (call "u1" 100) ∷ completes (lease_of audio_job) 500 ∷ [])
      table-IsValid

abbrev done_audio : JobRow
done_audio = record {
  job_id = "j4";
  kind = deliver_audio;
  idempotency_key = "audio:s1";
  payload = Payload.object (("sessionId", text "s1") ∷ []);
  state = JobState.done;
  attempts = 1;
  max_attempts = 5;
  lease_owner = none;
  lease_expires_at = none;
  run_after = 30;
  last_error = none;
  created_at = 30;
  updated_at = 500;
}

done_audio_stored : IsIn done_audio done_table.rows
unfolding perform_all perform enqueue insert claim claim_row complete update_jobs before rank
    has_kind Table.exists Table.first_by Table.update Table.count
done_audio_stored = inr (inr (inl refl))

done_is_final_example : IsIn done_audio (perform_all done_table (claims (call "u3" 900) ∷ [])).rows
done_is_final_example =
    done_is_final done_table (claims (call "u3" 900) ∷ []) done_audio done_table-IsValid refl
      done_audio_stored

perform_all-LivesOn_example :
    LivesOn done_table.rows (perform_all done_table (claims (call "u3" 900) ∷ [])).rows
perform_all-LivesOn_example =
    perform_all-LivesOn done_table (claims (call "u3" 900) ∷ []) done_table-IsValid

abbrev again : EnqueueOptions
again = job asr "asr:s1" "other"

abbrev first_table : Jobs
first_table = state_after (no_jobs false) (enqueue (no_jobs false) (job asr "asr:s1" "s1") "j1" 0 0)

enqueued : enqueue (no_jobs false) (job asr "asr:s1" "s1") "j1" 0 0 ≡ ok (first_table, some "j1")
unfolding enqueue insert Table.exists
enqueued = refl

enqueue_once_example :
    enqueue (perform_all first_table (claims (call "u1" 100) ∷ [])) again "j9" 300 300
    ≡ ok (perform_all first_table (claims (call "u1" 100) ∷ []), none)
unfolding perform_all perform enqueue insert claim claim_row update_jobs before rank has_kind
    Table.exists Table.first_by Table.update Table.count
enqueue_once_example =
    enqueue_once (no_jobs false) first_table (job asr "asr:s1" "s1") again "j1" "j9" (some "j1") 0 0
      300 300 (claims (call "u1" 100) ∷ []) no_jobs-IsValid enqueued refl refl

abbrev leased_audio : JobRow
leased_audio = record done_audio {
  state = JobState.leased;
  lease_owner = some "d1:u1";
  lease_expires_at = some 1100;
  updated_at = 100;
}

leased_audio_stored : IsIn leased_audio claimed_table.rows
unfolding perform_all perform enqueue insert claim claim_row complete update_jobs before rank
    has_kind Table.exists Table.first_by Table.update Table.count
leased_audio_stored = inr (inr (inl refl))

claimed_table-IsValid : IsValid claimed_table
unfolding perform perform_all
claimed_table-IsValid = perform_all-IsValid table (claims (call "u1" 100) ∷ []) table-IsValid

fail_under_lease_example :
    (jobs : Jobs) × (fail claimed_table (lease_of audio_job) (65 ∷ []) 500 500 ≡ ok (jobs, retry))
    × (r : JobRow) × (Table.get (has_id "j4") jobs.rows ≡ some r)
    × (r.state ≡ JobState.pending)
    × (r.run_after ≡ 500 + backoff_ms 1)
    × (r.attempts ≡ 1)
    × (r.lease_owner ≡ none)
    × (r.lease_expires_at ≡ none)
    × (r.last_error ≡ some (take 2000 (65 ∷ [])))
    × Pairs (λ a b. (a.job_id ≡ "j4") ⊎ (b ≡ a)) claimed_table.rows jobs.rows
fail_under_lease_example =
    fail_under_lease claimed_table (lease_of audio_job) leased_audio 500 1100 claimed_table-IsValid
      leased_audio_stored refl refl refl refl (omega arith) (65 ∷ []) 500 no_maintenance

recovery_returns-IsExpired_example :
    (jobs : Jobs) × (recover_stale_leases claimed_table 1200 1200
      ≡ ok (jobs, Table.count (is_expired 1200) claimed_table.rows))
    × ((IsExpired 1200 leased_audio
          × ((s : JobRow) × IsIn s jobs.rows × IsBack 1200 leased_audio s))
        ⊎ ((¬ (IsExpired 1200 leased_audio)) × IsIn leased_audio jobs.rows))
    × All (λ s. ¬ (IsExpired 1200 s)) jobs.rows
recovery_returns-IsExpired_example =
    recovery_returns-IsExpired claimed_table 1200 1200 leased_audio no_maintenance
      leased_audio_stored
