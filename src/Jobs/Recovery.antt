-- ===== src/Jobs/Recovery.antt =====
-- How jobs come back to the pool in src/jobs/queue.ts: when their leases expire, and when their
-- daemon is proven dead.
use Prim.Native.String.{String, ◌++◌ as str_append}
use text.Mathlib.TextPositions.{starts_with-append}
use text.Mathlib.TextLemmas.{append_assoc}
use openmurmur.Prelude.{
  ℕ, ◌+◌, ◌-◌, ◌≡◌, refl, sym, ap, Bool, true, false, ◌&&◌, none, some, arith, All, ok, inl, inr,
  Bool-cases, Option-cases, ◌≤◌, ◌⊎◌, leb→le,
}
use openmurmur.Table
use openmurmur.Table.Laws.{IsIn, IsIn-update, IsIn-update_miss, update_split}
use openmurmur.Jobs.Types.{JobRow, JobState, Jobs, ClaimCall, ClaimedJob, lease_of}
use openmurmur.Jobs.Update.{updated, update_jobs_open}
use openmurmur.Jobs.Invariant.{IsValid}
use openmurmur.Jobs.Holding.{claim-IsHolder, row_after, row_of}
use openmurmur.Jobs.{
  claim, recover_stale_leases, recover_leases_after_proven_daemon_death, is_leased, not_after,
  returned_row, has_id, owned_by, token,
}

abbrev pub is_expired : ℕ → JobRow → Bool
is_expired now r = is_leased r.state && not_after r.lease_expires_at now

-- The row `s` is the row `r` back in the pool: pending and without a lease, written at `stamp`, and
-- otherwise as it was.
abbrev pub IsBack : ℕ → JobRow → JobRow → Type 0
IsBack stamp r s =
    (s.state ≡ JobState.pending)
    × (s.lease_owner ≡ none)
    × (s.lease_expires_at ≡ none)
    × (s.updated_at ≡ stamp)
    × (s.job_id ≡ r.job_id)
    × (s.kind ≡ r.kind)
    × (s.idempotency_key ≡ r.idempotency_key)
    × (s.payload ≡ r.payload)
    × (s.attempts ≡ r.attempts)
    × (s.max_attempts ≡ r.max_attempts)
    × (s.run_after ≡ r.run_after)
    × (s.last_error ≡ r.last_error)
    × (s.created_at ≡ r.created_at)

-- A lease that is over.
abbrev pub IsExpired : ℕ → JobRow → Type 0
IsExpired now r =
    (r.state ≡ JobState.leased) × ((t : ℕ) × (r.lease_expires_at ≡ some t) × (t ≤ now))

IsExpired-tested : (now : ℕ) (r : JobRow) → is_expired now r ≡ true → IsExpired now r
IsExpired-tested now r e = elim (Option-cases r.lease_expires_at) [
  | inl n ↦ absurd (ground (arith, n))
  | inr (t, k) ↦ (ground (arith, e), (t, k, leb→le t now (ground (arith, k))))
]

-- Outside maintenance, recovery puts a row whose lease has expired back to pending, with its attempts,
-- its due time and everything but lease and time stamp as they were, and keeps a row that is not
-- leased or not expired as it is. It leaves no expired lease behind, and returns the number of rows
-- that it changed.
pub recovery_returns-IsExpired :
    (jobs : Jobs) (stamp now : ℕ) (r : JobRow)
    → jobs.maintenance ≡ false
    → IsIn r jobs.rows
    → (jobs' : Jobs) × (recover_stale_leases jobs stamp now
        ≡ ok (jobs', Table.count (is_expired now) jobs.rows))
      × ((IsExpired now r × ((s : JobRow) × IsIn s jobs'.rows × IsBack stamp r s))
          ⊎ ((¬ (IsExpired now r)) × IsIn r jobs'.rows))
      × All (λ s. ¬ (IsExpired now s)) jobs'.rows
unfolding recover_stale_leases
recovery_returns-IsExpired jobs stamp now r m i = (
  updated jobs (is_expired now) (returned_row stamp),
  update_jobs_open jobs (is_expired now) (returned_row stamp) m,
  kept,
  update_split (λ s. ¬ (IsExpired now s)) (is_expired now) (returned_row stamp) jobs.rows
      (λ s e h. cc (h.0)) (λ s e. not_expired s e),
)
  where
    not_expired : (s : JobRow) → is_expired now s ≡ false → ¬ (IsExpired now s)
    not_expired s e (leased, (t, k, le)) = ground (arith, e, leased, k, le)

    kept :
        (IsExpired now r
          × ((s : JobRow) × IsIn s (updated jobs (is_expired now) (returned_row stamp)).rows
              × IsBack stamp r s))
        ⊎ ((¬ (IsExpired now r)) × IsIn r (updated jobs (is_expired now) (returned_row stamp)).rows)
    kept = elim (Bool-cases (is_expired now r)) [
      | inl e ↦ inl (
        IsExpired-tested now r e,
        (
          returned_row stamp r,
          IsIn-update (is_expired now) (returned_row stamp) r jobs.rows i e,
          (refl, refl, refl, refl, refl, refl, refl, refl, refl, refl, refl, refl, refl),
        ),
      )
      | inr e ↦
          inr (
            not_expired r e,
            IsIn-update_miss (is_expired now) (returned_row stamp) r jobs.rows i e,
          )
    ]

owned_by-token : (owner uuid : String) → owned_by owner (some (token owner uuid)) ≡ true
owned_by-token owner uuid =
    rw (sym (append_assoc owner ":" uuid)) (starts_with-append (str_append owner ":") uuid)

-- A claim whose daemon is then proven dead costs the job no attempt: outside maintenance the job is
-- pending again, due at once, with no lease and with the attempts that it had before the claim.
pub death_costs_no_attempt :
    (jobs jobs' : Jobs) (call : ClaimCall) (c : ClaimedJob) (now : ℕ)
    → IsValid jobs
    → claim jobs call ≡ ok (jobs', some c)
    → jobs'.maintenance ≡ false
    → (jobs'' : Jobs) × (n : ℕ) × (recover_leases_after_proven_daemon_death jobs' call.owner now
        ≡ ok (jobs'', n))
      × (r : JobRow) × (Table.get (has_id c.job_id) jobs''.rows ≡ some r)
      × (r.state ≡ JobState.pending)
      × (r.attempts + 1 ≡ c.attempts)
      × (r.run_after ≡ now)
      × (r.lease_owner ≡ none)
unfolding recover_leases_after_proven_daemon_death
death_costs_no_attempt jobs jobs' call c now v e m =
    let (row, h, gave) = claim-IsHolder jobs jobs' call c v e in
    let test = λ (r : JobRow). is_leased r.state && owned_by call.owner r.lease_owner in
    let set =
      λ (r : JobRow). record (returned_row now r) { attempts = r.attempts - 1; run_after = now } in
    (
      updated jobs' test set,
      Table.count test jobs'.rows,
      update_jobs_open jobs' test set m,
      set (row_of call row),
      row_after jobs' (lease_of c) (row_of call row) h test set
          (owned_by-token call.owner call.uuid) (λ s. refl),
      refl,
      omega (arith, ap (λ d. d.attempts) gave),
      refl,
      refl,
    )
