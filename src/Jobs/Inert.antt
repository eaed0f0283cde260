-- ===== src/Jobs/Inert.antt =====
-- A worker of src/jobs/queue.ts whose job was claimed by another one, whatever happens afterwards.
use Prim.Native.String.{String}
use text.Mathlib.TextEquality.{eq_iff}
use openmurmur.Prelude.{
  state_after-Leaves, Leaves, ℕ, ◌+◌, ◌≡◌, ◌≢◌, refl, Bool, false, ◌&&◌, Option, none, some, List,
  [], ◌∷◌, All, arith, ok, err, inl, inr, Bool-cases,
}
use openmurmur.Table
use openmurmur.Table.{insert}
use openmurmur.Table.Laws.{update-All, append-All}
use openmurmur.Jobs.Types.{
  JobRow, Jobs, EnqueueOptions, lease_lost, Lease, ClaimCall, ClaimedJob, lost,
}
use openmurmur.Jobs.Claiming.{token_of}
use openmurmur.Jobs.Update.{updated, update_jobs_elim}
use openmurmur.Jobs.Writes.{update-Leaves, hand_out-Leaves}
use openmurmur.Jobs.Fencing.{IsFenced, claim-IsFenced, fenced_worker_is_inert}
use openmurmur.Jobs.History.{
  Operation, enqueues, claims, renews, completes, fails, recovers_stale, recovers_dead_owner,
  perform, perform_all,
}
use openmurmur.Jobs.{
  enqueue, claim, claim_row, leased_to, renew, complete, fail, fail_row, recover_stale_leases,
  recover_leases_after_proven_daemon_death, assert_lease, has_key, has_id, is_empty, holds,
  holds_at, is_guarded_kind, new_row,
}

-- A claim that the operation makes is under another token than the lease.
abbrev pub IsOther : Lease → Operation → Type 0
IsOther job (claims call) = token_of call ≢ job.lease_token
IsOther job _ = Unit {0}

module _ (job : Lease) (jobs : Jobs) (h : IsFenced jobs job) where
  write-IsFenced :
      (test : JobRow → Bool) (set : JobRow → JobRow)
      → ((r : JobRow) → holds job r ≡ false → holds job (set r) ≡ false)
      → IsFenced (updated jobs test set) job
  write-IsFenced test set off = update-All _ test set jobs.rows (λ r n e. off r n) h

  enqueue-IsFenced :
      (o : EnqueueOptions) (id : String) (now run_from : ℕ)
      → Leaves (λ j. IsFenced j job) (enqueue jobs o id now run_from)
  unfolding enqueue insert
  enqueue-IsFenced o id now run_from =
      elim (Bool-cases (jobs.maintenance && is_guarded_kind o.kind)) [
        | inl g ↦ rw g tt
        | inr g ↦ elim (Bool-cases (Table.exists (has_key o.idempotency_key) jobs.rows)) [
          | inl k ↦ rw (g, k) h
          | inr k ↦ elim (Bool-cases (Table.exists (has_id id) jobs.rows)) [
            | inl i ↦ rw (g, k, i) tt
            | inr i ↦
                rw (g, k, i)
                  (append-All _ jobs.rows (new_row o id now run_from ∷ []) h (ground arith, tt))
          ]
        ]
      ]

  claim_row-IsFenced :
      (found : Option JobRow) (lease_token : String) (expires stamp : ℕ)
      → lease_token ≢ job.lease_token
      → Leaves (λ j. IsFenced j job) (claim_row jobs found lease_token expires stamp)
  unfolding claim_row
  claim_row-IsFenced none lease_token expires stamp t = h
  claim_row-IsFenced (some row) lease_token expires stamp t =
      update-Leaves (λ j. IsFenced j job) jobs (has_id row.job_id)
        (leased_to lease_token expires stamp) _
        (λ j n k. hand_out-Leaves (λ j. IsFenced j job) row.payload j row lease_token refl k)
        (write-IsFenced (has_id row.job_id) (leased_to lease_token expires stamp)
          (λ r n. ground (arith, eq_iff lease_token job.lease_token)))

  later_claim-IsFenced :
      (call : ClaimCall)
      → token_of call ≢ job.lease_token
      → Leaves (λ j. IsFenced j job) (claim jobs call)
  unfolding claim
  later_claim-IsFenced call t = elim (Bool-cases (is_empty call.kinds)) [
    | inl e ↦ rw e h
    | inr e ↦ rw e (claim_row-IsFenced _ (token_of call) (call.from + call.lease_ms) call.stamp t)
  ]

  fail_row-IsFenced :
      (found : Option JobRow) (other : Lease) (error : List ℕ) (now from : ℕ)
      → Leaves (λ j. IsFenced j job) (fail_row jobs found other error now from)
  unfolding fail_row
  fail_row-IsFenced none other error now from = h
  fail_row-IsFenced (some row) other error now from =
      update-Leaves (λ j. IsFenced j job) jobs (holds other) _ _ (λ j n k. k)
        (write-IsFenced (holds other) _ (λ r n. ground arith))

  perform-IsFenced : (o : Operation) → IsOther job o → IsFenced (perform jobs o) job
  unfolding perform renew complete fail recover_stale_leases
      recover_leases_after_proven_daemon_death
  perform-IsFenced (enqueues o id now run_from) t =
      state_after-Leaves (λ j. IsFenced j job) jobs _ h (enqueue-IsFenced o id now run_from)
  perform-IsFenced (claims call) t =
      state_after-Leaves (λ j. IsFenced j job) jobs _ h (later_claim-IsFenced call t)
  perform-IsFenced (renews other lease_ms now from) t =
      state_after-Leaves (λ j. IsFenced j job) jobs _ h
        (update-Leaves (λ j. IsFenced j job) jobs (holds other) _ _ (λ j n k. k)
          (write-IsFenced (holds other) _ (λ r n. n)))
  perform-IsFenced (completes other now) t =
      state_after-Leaves (λ j. IsFenced j job) jobs _ h
        (update-Leaves (λ j. IsFenced j job) jobs (holds_at other now) _ _ (λ j n k. k)
          (write-IsFenced (holds_at other now) _ (λ r n. ground arith)))
  perform-IsFenced (fails other error now from) t =
      state_after-Leaves (λ j. IsFenced j job) jobs _ h
        (fail_row-IsFenced (Table.get (holds_at other now) jobs.rows) other error now from)
  perform-IsFenced (recovers_stale stamp now) t =
      state_after-Leaves (λ j. IsFenced j job) jobs _ h
        (update_jobs_elim (Leaves (λ j. IsFenced j job)) jobs _ _
          (write-IsFenced _ _ (λ r n. ground arith)) tt)
  perform-IsFenced (recovers_dead_owner owner now) t =
      state_after-Leaves (λ j. IsFenced j job) jobs _ h
        (update_jobs_elim (Leaves (λ j. IsFenced j job)) jobs _ _
          (write-IsFenced _ _ (λ r n. ground arith)) tt)

perform_all-IsFenced :
    (jobs : Jobs) (job : Lease) (os : List Operation)
    → All (IsOther job) os
    → IsFenced jobs job
    → IsFenced (perform_all jobs os) job
unfolding perform_all
perform_all-IsFenced jobs job [] t h = h
perform_all-IsFenced jobs job (o ∷ os) (t, ts) h =
    perform_all-IsFenced (perform jobs o) job os ts (perform-IsFenced job jobs h o t)

-- Once a job has been claimed again under another token, the worker that held it before can do
-- nothing to it, whatever enqueues, claims, renewals, completions, failures and recoveries follow,
-- provided that no later claim is given the token of the worker's lease: renewing, completing and failing leave the table as it is and say that the
-- lease is lost, and the assertion of the lease throws. This holds at every time, also before the
-- old lease would have expired.
pub reclaimed_worker_is_inert :
    (jobs jobs' : Jobs) (call : ClaimCall) (c : ClaimedJob) (job : Lease) (os : List Operation)
    (lease_ms now from : ℕ) (error : List ℕ)
    → claim jobs call ≡ ok (jobs', some c)
    → c.job_id ≡ job.job_id
    → c.lease_token ≢ job.lease_token
    → All (IsOther job) os
    → let later = perform_all jobs' os in
      (renew later job lease_ms now from ≡ ok (later, false))
      × (complete later job now ≡ ok (later, false))
      × (fail later job error now from ≡ ok (later, lost))
      × (assert_lease later job now ≡ err (lease_lost job.job_id))
reclaimed_worker_is_inert jobs jobs' call c job os lease_ms now from error e i t others =
    fenced_worker_is_inert (perform_all jobs' os) job lease_ms now from error
      (perform_all-IsFenced jobs' job os others (claim-IsFenced jobs jobs' call c job e i t))
