-- ===== src/Jobs/Fencing.antt =====
-- Lease fencing of src/jobs/queue.ts: a worker acts on a job only while the row carries the very
-- token of its claim.
use text.Mathlib.TextEquality.{eq_iff}
use openmurmur.Prelude.{
  ℕ, ◌≡◌, ◌≢◌, refl, Bool, false, ◌&&◌, some, List, All, arith, ok, err, inl, inr, Bool-cases,
}
use openmurmur.Table.Laws.{update_none, count_none, get-none, exists_false, map-All}
use openmurmur.Jobs.Claiming.{IsHeldBy, claim-IsHeldBy}
use openmurmur.Jobs.Types.{JobRow, Jobs, lease_lost, Lease, ClaimCall, ClaimedJob, lost}
use openmurmur.Jobs.{
  update_jobs, renew, assert_lease, complete, fail, fail_row, holds, holds_at, blocks, claim,
  has_id,
}

-- No row carries the lease.
abbrev pub IsFenced : Jobs → Lease → Type 0
IsFenced jobs job = All (λ r. holds job r ≡ false) jobs.rows

update_jobs_none :
    (jobs : Jobs) (test : JobRow → Bool) (set : JobRow → JobRow)
    → All (λ r. test r ≡ false) jobs.rows
    → update_jobs jobs test set ≡ ok (jobs, 0)
unfolding update_jobs
update_jobs_none jobs test set h = ground (
  arith,
  exists_false (λ r. test r && blocks r (set r)) jobs.rows
      (map-All _ _ jobs.rows (λ r e. rw e refl) h),
  update_none test set jobs.rows h,
  count_none test jobs.rows h,
)

fenced_at :
    (jobs : Jobs) (job : Lease) (now : ℕ)
    → IsFenced jobs job
    → All (λ r. holds_at job now r ≡ false) jobs.rows
fenced_at jobs job now h = map-All _ _ jobs.rows (λ r e. rw e) h

-- A worker whose token no row carries can do nothing.
pub fenced_worker_is_inert :
    (jobs : Jobs) (job : Lease) (lease_ms now from : ℕ) (error : List ℕ)
    → IsFenced jobs job
    → (renew jobs job lease_ms now from ≡ ok (jobs, false))
      × (complete jobs job now ≡ ok (jobs, false))
      × (fail jobs job error now from ≡ ok (jobs, lost))
      × (assert_lease jobs job now ≡ err (lease_lost job.job_id))
unfolding renew complete fail fail_row assert_lease
fenced_worker_is_inert jobs job lease_ms now from error h =
    let h' = fenced_at jobs job now h in
    (
      rw (update_jobs_none jobs (holds job) _ h),
      rw (update_jobs_none jobs (holds_at job now) _ h'),
      rw (get-none (holds_at job now) jobs.rows h'),
      rw (get-none (holds_at job now) jobs.rows h', assert_lease),
    )

-- Another claim of the same job, under another token, takes the job from the worker that held it.
pub claim-IsFenced :
    (jobs jobs' : Jobs) (call : ClaimCall) (c : ClaimedJob) (job : Lease)
    → claim jobs call ≡ ok (jobs', some c)
    → c.job_id ≡ job.job_id
    → c.lease_token ≢ job.lease_token
    → IsFenced jobs' job
claim-IsFenced jobs jobs' call c job e i t =
    map-All (IsHeldBy c) (λ r. holds job r ≡ false) jobs'.rows (λ r h. not_held r h)
      (claim-IsHeldBy jobs jobs' call c e)
  where
    not_held : (r : JobRow) → IsHeldBy c r → holds job r ≡ false
    not_held r h = elim (Bool-cases (has_id job.job_id r)) [
      | inr n ↦ rw n
      | inl y ↦
          let (leased, owned) = h (rw i y) in ground (arith, eq_iff c.lease_token job.lease_token)
    ]
