-- ===== src/Jobs/History.antt =====
-- Any sequence of operations of src/jobs/queue.ts, by any number of workers: each runs on the table
-- that the one before it left, and one that throws leaves the table as it was.
use Prim.Native.String.{String}
use openmurmur.Prelude.{state_after, state_after-Leaves, ℕ, Bool, List, [], ◌∷◌}
use openmurmur.Jobs.Types.{Jobs, EnqueueOptions, Lease, ClaimCall}
use openmurmur.Jobs.Invariant.{
  IsValid, enqueue-IsValid, claim-IsValid, renew-IsValid, complete-IsValid, fail-IsValid,
  recover_stale_leases-IsValid, recover_leases_after_proven_daemon_death-IsValid,
}
use openmurmur.Jobs.{
  enqueue, claim, renew, complete, fail, recover_stale_leases,
  recover_leases_after_proven_daemon_death,
}

pub data Operation : Type 0 where
  enqueues : EnqueueOptions → String → ℕ → ℕ → Operation
  claims : ClaimCall → Operation
  renews : Lease → ℕ → ℕ → ℕ → Operation
  completes : Lease → ℕ → Operation
  fails : Lease → List ℕ → ℕ → ℕ → Operation
  recovers_stale : ℕ → ℕ → Operation
  recovers_dead_owner : String → ℕ → Operation

unfoldable pub perform : Jobs → Operation → Jobs
perform jobs (enqueues o id now run_from) = state_after jobs (enqueue jobs o id now run_from)
perform jobs (claims call) = state_after jobs (claim jobs call)
perform jobs (renews job lease_ms now from) = state_after jobs (renew jobs job lease_ms now from)
perform jobs (completes job now) = state_after jobs (complete jobs job now)
perform jobs (fails job error now from) = state_after jobs (fail jobs job error now from)
perform jobs (recovers_stale stamp now) = state_after jobs (recover_stale_leases jobs stamp now)
perform jobs (recovers_dead_owner owner now) =
    state_after jobs (recover_leases_after_proven_daemon_death jobs owner now)

unfoldable pub perform_all : Jobs → List Operation → Jobs
perform_all jobs [] = jobs
perform_all jobs (o ∷ os) = perform_all (perform jobs o) os

pub perform-IsValid : (jobs : Jobs) (o : Operation) → IsValid jobs → IsValid (perform jobs o)
unfolding perform
perform-IsValid jobs (enqueues o id now run_from) v =
    state_after-Leaves IsValid jobs _ v (enqueue-IsValid jobs o id now run_from v)
perform-IsValid jobs (claims call) v =
    state_after-Leaves IsValid jobs _ v (claim-IsValid jobs call v)
perform-IsValid jobs (renews job lease_ms now from) v =
    state_after-Leaves IsValid jobs _ v (renew-IsValid jobs job lease_ms now from v)
perform-IsValid jobs (completes job now) v =
    state_after-Leaves IsValid jobs _ v (complete-IsValid jobs job now v)
perform-IsValid jobs (fails job error now from) v =
    state_after-Leaves IsValid jobs _ v (fail-IsValid jobs job error now from v)
perform-IsValid jobs (recovers_stale stamp now) v =
    state_after-Leaves IsValid jobs _ v (recover_stale_leases-IsValid jobs stamp now v)
perform-IsValid jobs (recovers_dead_owner owner now) v =
    state_after-Leaves IsValid jobs _ v
      (recover_leases_after_proven_daemon_death-IsValid jobs owner now v)

abbrev pub no_jobs : Bool → Jobs
no_jobs maintenance = record { rows = []; maintenance = maintenance }

-- From a valid table every sequence of operations leads to a valid one: identifiers and idempotency
-- keys stay unique, and a row is leased exactly when it has an owner and an expiry.
pub perform_all-IsValid :
    (jobs : Jobs) (os : List Operation) → IsValid jobs → IsValid (perform_all jobs os)
unfolding perform_all
perform_all-IsValid jobs [] v = v
perform_all-IsValid jobs (o ∷ os) v =
    perform_all-IsValid (perform jobs o) os (perform-IsValid jobs o v)
