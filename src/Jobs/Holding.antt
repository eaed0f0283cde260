-- ===== src/Jobs/Holding.antt =====
-- The worker that holds a lease of src/jobs/queue.ts: what completing and failing a job do in time.
use text.Mathlib.TextEquality.{eq_iff}
use text.Mathlib.TextPositions.{eq_refl}
use openmurmur.Prelude.{
  ◌⊎◌, inl, inr, Leaves, ℕ, ◌+◌, ◌<◌, ◌≡◌, refl, sym, ap, subst, ◌∙◌, Bool, true, false, none, some,
  List, map, arith, ok, if◌then◌else◌, leb, take,
}
use openmurmur.Table
use openmurmur.Table.Laws.{IsIn, IsIn-update, count_pos}
use openmurmur.Table.Pairs.{Pairs, update-Pairs}
use openmurmur.Table.Keys.{AreDistinct, count_le_one, get_stored, update-AreDistinct}
use openmurmur.Jobs.Types.{
  JobRow, JobState, Jobs, Lease, ClaimCall, ClaimedJob, lease_of, JobFailureOutcome, retry,
}
use openmurmur.Jobs.Update.{updated, update_jobs_free, update_jobs_open}
use openmurmur.Jobs.Invariant.{IsValid, claim-IsValid}
use openmurmur.Jobs.Claiming.{claim_takes, token_of}
use openmurmur.Jobs.{
  complete, fail, fail_row, holds, holds_at, done_row, claim, has_id, leased_to, claimed,
  failed_row, backoff_ms, same_text, after,
}

-- A row of the table under its lease, seen from the worker that holds it.
pub record IsHolder (jobs : Jobs) (job : Lease) (r : JobRow) : Type 0 where
  stored : IsIn r jobs.rows
  own : r.job_id ≡ job.job_id
  held : holds job r ≡ true
  distinct : AreDistinct (map (λ s. s.job_id) jobs.rows)

module _ (jobs : Jobs) (job : Lease) (r : JobRow) (h : IsHolder jobs job r) where
  -- The row after an UPDATE that selects it and keeps identifiers.
  pub row_after :
      (test : JobRow → Bool) (set : JobRow → JobRow)
      → test r ≡ true
      → ((s : JobRow) → (set s).job_id ≡ s.job_id)
      → Table.get (has_id job.job_id) (updated jobs test set).rows ≡ some (set r)
  row_after test set hit same =
      let own : (set r).job_id ≡ job.job_id = same r ∙ h.own in
      get_stored (λ s. s.job_id) (has_id job.job_id) (set r) (updated jobs test set).rows
        (IsIn-update test set r jobs.rows h.stored hit) ((eq_iff (set r).job_id job.job_id).1 own)
        (λ s e. (eq_iff s.job_id job.job_id).0 e ∙ sym own)
        (update-AreDistinct (λ s. s.job_id) test set jobs.rows same h.distinct)

  -- It is what a SELECT by a test on the identifier gets.
  row_now :
      (test : JobRow → Bool)
      → test r ≡ true
      → ((s : JobRow) → test s ≡ true → has_id job.job_id s ≡ true)
      → Table.get test jobs.rows ≡ some r
  row_now test hit imp =
      get_stored (λ s. s.job_id) test r jobs.rows h.stored hit
        (λ s e. (eq_iff s.job_id job.job_id).0 (imp s e) ∙ sym h.own) h.distinct

  -- It is the only row that such an UPDATE changes.
  one_change :
      (test : JobRow → Bool)
      → test r ≡ true
      → ((s : JobRow) → test s ≡ true → has_id job.job_id s ≡ true)
      → Table.count test jobs.rows ≡ 1
  one_change test hit imp = omega (
    arith,
    count_pos test r jobs.rows h.stored hit,
    count_le_one (λ s. s.job_id) test job.job_id jobs.rows
        (λ s e. (eq_iff s.job_id job.job_id).0 (imp s e)) h.distinct,
  )

abbrev pub row_of : ClaimCall → JobRow → JobRow
row_of call row = leased_to (token_of call) (call.from + call.lease_ms) call.stamp row

-- After a claim the returned job is held.
pub claim-IsHolder :
    (jobs jobs' : Jobs) (call : ClaimCall) (c : ClaimedJob)
    → IsValid jobs
    → claim jobs call ≡ ok (jobs', some c)
    → (row : JobRow) × IsHolder jobs' (lease_of c) (row_of call row)
      × (c ≡ claimed row (token_of call) row.payload)
claim-IsHolder jobs jobs' call c v e =
    let (row, next, gave, wrote) = claim_takes jobs jobs' call c e in
    let valid : IsValid jobs' = subst (Leaves IsValid) e (claim-IsValid jobs call v) in
    let own : row.job_id ≡ c.job_id = sym (ap (λ d. d.job_id) gave) in
    let mine : token_of call ≡ c.lease_token = sym (ap (λ d. d.lease_token) gave) in
    let kept =
      IsIn-update (has_id row.job_id) (row_of call) row jobs.rows next.stored
        (eq_refl row.job_id) in
    (
      row,
      record {
        stored = subst (λ j. IsIn (row_of call row) j.rows) (sym wrote) kept;
        own = own;
        held = rw (own, eq_refl c.job_id) (rw (mine, eq_refl c.lease_token) refl);
        distinct = valid.ids_distinct;
      },
      gave,
    )

module _ (jobs jobs' : Jobs) (call : ClaimCall) (c : ClaimedJob) (now : ℕ) (v : IsValid jobs)
    (e : claim jobs call ≡ ok (jobs', some c)) (early : now < call.from + call.lease_ms) where
  -- A worker that completes its job before the lease expires succeeds, and the row of the job is
  -- then done, with no lease.
  pub claim_then_complete :
      (jobs'' : Jobs) × (complete jobs' (lease_of c) now ≡ ok (jobs'', true))
      × (r : JobRow) × (Table.get (has_id c.job_id) jobs''.rows ≡ some r)
      × (r.state ≡ JobState.done)
      × (r.lease_owner ≡ none)
      × (r.attempts ≡ c.attempts)
  unfolding complete
  claim_then_complete =
      let (row, h, gave) = claim-IsHolder jobs jobs' call c v e in
      let job = lease_of c in
      let set = done_row now in
      let hit : holds_at job now (row_of call row) ≡ true = ground (arith, h.held) in
      let one =
        one_change jobs' job (row_of call row) h (holds_at job now) hit (λ s k. ground arith) in
      (
        updated jobs' (holds_at job now) set,
        rw (update_jobs_free jobs' (holds_at job now) set (λ r. refl)) (rw one refl),
        set (row_of call row),
        row_after jobs' job (row_of call row) h (holds_at job now) set hit (λ s. refl),
        refl,
        refl,
        ap (λ d. d.attempts) (sym gave),
      )

-- A stored row that is leased under a lease which has not expired, whenever the lease was given and
-- however often it was renewed.
module _ (jobs : Jobs) (job : Lease) (r : JobRow) (now expires : ℕ) (v : IsValid jobs)
    (stored : IsIn r jobs.rows) (own : r.job_id ≡ job.job_id) (leased : r.state ≡ JobState.leased)
    (owner : r.lease_owner ≡ some job.lease_token) (until : r.lease_expires_at ≡ some expires)
    (early : now < expires) where
  lease-IsHolder : IsHolder jobs job r
  lease-IsHolder = record {
    stored = stored;
    own = own;
    held = ground (
      arith,
      (eq_iff r.job_id job.job_id).1 own,
      leased,
      ap (λ o. same_text o job.lease_token) owner,
      eq_refl job.lease_token,
    );
    distinct = v.ids_distinct;
  }

  lease-holds_at : holds_at job now r ≡ true
  lease-holds_at =
      let held = lease-IsHolder.held in ground (arith, held, ap (λ t. after t now) until, early)

  -- As long as a stored job is leased to a worker and the lease has not expired, whatever has
  -- happened since the claim, a failure that the worker reports outside maintenance has the job
  -- dead if its attempts have reached their maximum, due at once, and pending otherwise, due after
  -- the backoff of its attempts. The row keeps its attempts and the error, cut to 2000 units, and
  -- has no lease; no other job changes.
  pub fail_under_lease :
      (error : List ℕ) (from : ℕ)
      → jobs.maintenance ≡ false
      → let exhausted = leb r.max_attempts r.attempts in
        (jobs' : Jobs) × (fail jobs job error now from
          ≡ ok (jobs', if exhausted then JobFailureOutcome.dead else retry))
        × (s : JobRow) × (Table.get (has_id job.job_id) jobs'.rows ≡ some s)
        × (s.state ≡ (if exhausted then JobState.dead else JobState.pending))
        × (s.run_after ≡ from + (if exhausted then 0 else backoff_ms r.attempts))
        × (s.attempts ≡ r.attempts)
        × (s.lease_owner ≡ none)
        × (s.lease_expires_at ≡ none)
        × (s.last_error ≡ some (take 2000 error))
        × Pairs (λ a b. (a.job_id ≡ job.job_id) ⊎ (b ≡ a)) jobs.rows jobs'.rows
  unfolding fail fail_row
  fail_under_lease error from m =
      let h = lease-IsHolder in
      let exhausted = leb r.max_attempts r.attempts in
      let delay : ℕ = if exhausted then 0 else backoff_ms r.attempts in
      let set = failed_row exhausted error (from + delay) now in
      let found = row_now jobs job r h (holds_at job now) lease-holds_at (λ s k. ground arith) in
      (
        updated jobs (holds job) set,
        rw (found, fail_row) (rw (update_jobs_open jobs (holds job) set m) refl),
        set r,
        row_after jobs job r h (holds job) set h.held (λ s. refl),
        refl,
        refl,
        refl,
        refl,
        refl,
        refl,
        update-Pairs (λ a b. (a.job_id ≡ job.job_id) ⊎ (b ≡ a)) (holds job) set jobs.rows
            (λ a k. inl ((eq_iff a.job_id job.job_id).0 (ground (arith, k)))) (λ a k. inr refl),
      )
