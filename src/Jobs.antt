-- ===== src/Jobs.antt =====
-- The durable job queue (src/jobs/queue.ts) over its table. An operation that may throw returns a
-- result; `transaction` of src/database/db.ts undoes what a thrown operation wrote, so an error
-- carries no table. Each reading of the clock and each UUID is an argument.
pub mod Types
pub mod Lives
pub mod Update
pub mod Invariant
pub mod History
pub mod Claiming
pub mod Choice
pub mod Fencing
pub mod Holding
pub mod Writes
pub mod Inert
pub mod Refinement
pub mod Lifecycle
pub mod Backoff
pub mod Recovery
mod Tests
use Prim.Native.String.{String, ◌++◌ as str_append}
use text.Mathlib.Text.{◌==◌ as str_eq, starts_with}
use openmurmur.Prelude.{
  ℕ, suc, ◌+◌, ◌-◌, ◌*◌, ◌^◌, min, Bool, true, false, ◌&&◌, ◌||◌, Option, none, some, List, [], ◌∷◌,
  Result, ok, err, ◌>>=◌, ltb, leb, ◌==◌, negate, if◌then◌else◌, take,
}
use openmurmur.Table
use Types.{
  JobKind, deliver_audio, asr, deliver_transcript, summarize, deliver_report, incoming_audio,
  digest, retention, JobState, Payload, JobRow, Jobs, Thrown, paused, duplicate_job_id,
  invalid_json, lease_lost, EnqueueOptions, Lease, ClaimCall, ClaimedJob, JobFailureOutcome, retry,
  lost,
}

abbrev pub default_job_lease_ms : ℕ
default_job_lease_ms = 600000

-- Exponential backoff with a ceiling.
unfoldable pub backoff_ms : ℕ → ℕ
backoff_ms attempts = min (2 ^ attempts * 1000) 900000

abbrev pub or_default {ℓ} : {A : Type ℓ} → Option A → A → A
or_default none d = d
or_default (some a) d = a

abbrev pub same_text : Option String → String → Bool
same_text none s = false
same_text (some t) s = str_eq t s

-- A comparison with a NULL column is not true.
abbrev pub after : Option ℕ → ℕ → Bool
after none now = false
after (some at) now = ltb now at

abbrev pub not_after : Option ℕ → ℕ → Bool
not_after none now = false
not_after (some at) now = leb at now

abbrev pub is_pending : JobState → Bool
is_pending JobState.pending = true
is_pending _ = false

abbrev pub is_leased : JobState → Bool
is_leased JobState.leased = true
is_leased _ = false

abbrev pub is_dead : JobState → Bool
is_dead JobState.dead = true
is_dead _ = false

abbrev pub is_done : JobState → Bool
is_done JobState.done = true
is_done _ = false

abbrev pub kind_number : JobKind → ℕ
kind_number deliver_audio = 0
kind_number asr = 1
kind_number deliver_transcript = 2
kind_number summarize = 3
kind_number deliver_report = 4
kind_number JobKind.deliver = 5
kind_number incoming_audio = 6
kind_number digest = 7
kind_number retention = 8

abbrev pub same_kind : JobKind → JobKind → Bool
same_kind a b = kind_number a == kind_number b

unfoldable pub has_kind : List JobKind → JobKind → Bool
has_kind [] k = false
has_kind (j ∷ js) k = same_kind j k || has_kind js k

-- The triggers of 019_telegram_maintenance_job_guard.sql: kinds and states that they guard.
abbrev pub is_guarded_kind : JobKind → Bool
is_guarded_kind digest = false
is_guarded_kind retention = false
is_guarded_kind _ = true

abbrev pub is_guarded_state : JobState → Bool
is_guarded_state s = is_pending s || is_leased s || is_dead s

abbrev pub state_number : JobState → ℕ
state_number JobState.pending = 0
state_number JobState.leased = 1
state_number JobState.done = 2
state_number JobState.failed = 3
state_number JobState.dead = 4

abbrev pub blocks : JobRow → JobRow → Bool
blocks old new =
    is_guarded_state new.state
    && is_guarded_kind new.kind
    && negate (state_number new.state == state_number old.state && same_kind new.kind old.kind)

-- An UPDATE of the table, with the number of its changes.
unfoldable pub update_jobs : Jobs → (JobRow → Bool) → (JobRow → JobRow) → Result Thrown (Jobs × ℕ)
update_jobs jobs test set =
    if jobs.maintenance && Table.exists (λ r. test r && blocks r (set r)) jobs.rows
    then err paused
    else ok (record jobs { rows = Table.update test set jobs.rows }, Table.count test jobs.rows)

abbrev pub has_key : String → JobRow → Bool
has_key key r = str_eq r.idempotency_key key

abbrev pub has_id : String → JobRow → Bool
has_id id r = str_eq r.job_id id

-- `job_id = ? AND state = 'leased' AND lease_owner = ?`
abbrev pub holds : Lease → JobRow → Bool
holds job r = has_id job.job_id r && is_leased r.state && same_text r.lease_owner job.lease_token

-- The same with `AND lease_expires_at > ?`.
abbrev pub holds_at : Lease → ℕ → JobRow → Bool
holds_at job now r = holds job r && after r.lease_expires_at now

abbrev pub new_row : EnqueueOptions → String → ℕ → ℕ → JobRow
new_row o id now run_from = record {
  job_id = id;
  kind = o.kind;
  idempotency_key = o.idempotency_key;
  payload = o.payload;
  state = JobState.pending;
  attempts = 0;
  max_attempts = or_default o.max_attempts 5;
  lease_owner = none;
  lease_expires_at = none;
  run_after = run_from + or_default o.run_after_ms 0;
  last_error = none;
  created_at = now;
  updated_at = now;
}

-- `enqueue`: the clock is read at `now` and, for `run_after`, at `run_from`.
unfoldable pub enqueue :
    Jobs → EnqueueOptions → String → ℕ → ℕ → Result Thrown (Jobs × Option String)
enqueue jobs o id now run_from =
    if jobs.maintenance && is_guarded_kind o.kind
    then err paused
    else if Table.exists (has_key o.idempotency_key) jobs.rows
    then ok (jobs, none)
    else if Table.exists (has_id id) jobs.rows
    then err duplicate_job_id
    else ok (
      record jobs {
        rows = Table.insert (has_key o.idempotency_key) (new_row o id now run_from) jobs.rows;
      },
      some id,
    )

-- The CASE of the ORDER BY in `claim`.
unfoldable pub rank : JobKind → ℕ
rank deliver_audio = 0
rank deliver_transcript = 1
rank asr = 2
rank incoming_audio = 2
rank summarize = 3
rank deliver_report = 4
rank _ = 5

-- ORDER BY rank, run_after, created_at.
unfoldable pub before : JobRow → JobRow → Bool
before a b =
    ltb (rank a.kind) (rank b.kind)
    || rank a.kind == rank b.kind
      && (ltb a.run_after b.run_after
          || a.run_after == b.run_after && ltb a.created_at b.created_at)

abbrev pub is_runnable : List JobKind → ℕ → JobRow → Bool
is_runnable kinds now r = is_pending r.state && leb r.run_after now && has_kind kinds r.kind

abbrev pub parse_json : Payload → Result Thrown Payload
parse_json Payload.invalid = err invalid_json
parse_json p = ok p

abbrev pub token : String → String → String
token owner uuid = str_append owner (str_append ":" uuid)

abbrev pub leased_to : String → ℕ → ℕ → JobRow → JobRow
leased_to lease_token expires stamp r = record r {
  state = JobState.leased;
  lease_owner = some lease_token;
  lease_expires_at = some expires;
  attempts = r.attempts + 1;
  updated_at = stamp;
}

abbrev pub claimed : JobRow → String → Payload → ClaimedJob
claimed row lease_token payload = record {
  job_id = row.job_id;
  lease_token = lease_token;
  kind = row.kind;
  payload = payload;
  attempts = row.attempts + 1;
  max_attempts = row.max_attempts;
}

-- The value that `claim` returns; its JSON.parse may throw, and the transaction is then undone.
abbrev pub hand_out : Jobs → JobRow → String → Result Thrown (Jobs × Option ClaimedJob)
hand_out jobs row lease_token = do
  payload ← parse_json row.payload
  ok (jobs, some (claimed row lease_token payload))

-- `claim`, from the row that the SELECT found.
unfoldable pub claim_row :
    Jobs → Option JobRow → String → ℕ → ℕ → Result Thrown (Jobs × Option ClaimedJob)
claim_row jobs none lease_token expires stamp = ok (jobs, none)
claim_row jobs (some row) lease_token expires stamp = do
  (jobs', changes) ← update_jobs jobs (has_id row.job_id) (leased_to lease_token expires stamp)
  hand_out jobs' row lease_token

abbrev pub is_empty {ℓ} : {A : Type ℓ} → List A → Bool
is_empty [] = true
is_empty (x ∷ xs) = false

unfoldable pub claim : Jobs → ClaimCall → Result Thrown (Jobs × Option ClaimedJob)
claim jobs call =
    if is_empty call.kinds
    then ok (jobs, none)
    else claim_row jobs (Table.first_by before (is_runnable call.kinds call.now) jobs.rows)
        (token call.owner call.uuid) (call.from + call.lease_ms) call.stamp

abbrev pub changed_one : Jobs × ℕ → Jobs × Bool
changed_one (jobs, changes) = (jobs, changes == 1)

-- `renew`: the clock is read at `now` and, for the lease, at `from`.
unfoldable pub renew : Jobs → Lease → ℕ → ℕ → ℕ → Result Thrown (Jobs × Bool)
renew jobs job lease_ms now from = do
  r ←
      update_jobs jobs (holds job)
        (λ r. record r { lease_expires_at = some (from + lease_ms); updated_at = now })
  ok (changed_one r)

unfoldable pub assert_lease : Jobs → Lease → ℕ → Result Thrown (Unit {0})
assert_lease jobs job now = elim (Table.get (holds_at job now) jobs.rows) [
  | none ↦ err (lease_lost job.job_id)
  | some r ↦ ok tt
]

abbrev pub done_row : ℕ → JobRow → JobRow
done_row now r = record r {
  state = JobState.done;
  lease_owner = none;
  lease_expires_at = none;
  updated_at = now;
}

unfoldable pub complete : Jobs → Lease → ℕ → Result Thrown (Jobs × Bool)
complete jobs job now = do
  r ← update_jobs jobs (holds_at job now) (done_row now)
  ok (changed_one r)

abbrev pub failed_row : Bool → List ℕ → ℕ → ℕ → JobRow → JobRow
failed_row exhausted error run_after now r = record r {
  state = if exhausted then JobState.dead else JobState.pending;
  last_error = some (take 2000 error);
  run_after = run_after;
  lease_owner = none;
  lease_expires_at = none;
  updated_at = now;
}

-- `fail`, from the row that the SELECT found.
unfoldable pub fail_row :
    Jobs → Option JobRow → Lease → List ℕ → ℕ → ℕ → Result Thrown (Jobs × JobFailureOutcome)
fail_row jobs none job error now from = ok (jobs, lost)
fail_row jobs (some row) job error now from = do
  let exhausted = leb row.max_attempts row.attempts
  let delay : ℕ = if exhausted then 0 else backoff_ms row.attempts
  (jobs', changes) ← update_jobs jobs (holds job) (failed_row exhausted error (from + delay) now)
  ok (jobs', if exhausted then JobFailureOutcome.dead else retry)

-- `fail`: the clock is read at `now` and, for `run_after`, at `from`.
unfoldable pub fail : Jobs → Lease → List ℕ → ℕ → ℕ → Result Thrown (Jobs × JobFailureOutcome)
fail jobs job error now from =
    fail_row jobs (Table.get (holds_at job now) jobs.rows) job error now from

abbrev pub returned_row : ℕ → JobRow → JobRow
returned_row stamp r = record r {
  state = JobState.pending;
  lease_owner = none;
  lease_expires_at = none;
  updated_at = stamp;
}

-- `recoverStaleLeases`: the clock is read at `stamp` and then at `now`.
unfoldable pub recover_stale_leases : Jobs → ℕ → ℕ → Result Thrown (Jobs × ℕ)
recover_stale_leases jobs stamp now =
    update_jobs jobs (λ r. is_leased r.state && not_after r.lease_expires_at now)
      (returned_row stamp)

abbrev pub owned_by : String → Option String → Bool
owned_by owner none = false
owned_by owner (some lease_token) = starts_with lease_token (str_append owner ":")

-- `recoverLeasesAfterProvenDaemonDeath`. MAX(0, attempts - 1) is `-` on ℕ.
unfoldable pub recover_leases_after_proven_daemon_death :
    Jobs → String → ℕ → Result Thrown (Jobs × ℕ)
recover_leases_after_proven_daemon_death jobs dead_owner now =
    update_jobs jobs (λ r. is_leased r.state && owned_by dead_owner r.lease_owner)
      (λ r. record (returned_row now r) { attempts = r.attempts - 1; run_after = now })

abbrev pub of_kind : Option JobKind → JobKind → Bool
of_kind none k = true
of_kind (some j) k = same_kind k j

abbrev pub is_unfinished : Option JobKind → JobRow → Bool
is_unfinished kind r = (is_pending r.state || is_leased r.state) && of_kind kind r.kind

unfoldable pub pending_count : Jobs → Option JobKind → ℕ
pending_count jobs kind = Table.count (is_unfinished kind) jobs.rows

unfoldable pub dead_count : Jobs → ℕ
dead_count jobs = Table.count (λ r. is_dead r.state) jobs.rows
