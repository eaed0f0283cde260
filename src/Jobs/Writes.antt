-- ===== src/Jobs/Writes.antt =====
-- The writes that the operations of src/jobs/queue.ts make, in one form: a proof about every
-- operation goes through `perform_elim`.
use Prim.Native.String.{String}
use text.Mathlib.TextEquality.{eq_iff}
use openmurmur.Prelude.{
  state_after-Leaves, Leaves, ℕ, ◌+◌, ◌≡◌, refl, ap, Bool, true, false, ◌&&◌, ◌||◌, Option, none,
  leb, some, List, [], ◌∷◌, ◌++◌, arith, Result, ◌>>=◌, inl, inr, Bool-cases,
}
use openmurmur.Table
use openmurmur.Table.{insert}
use openmurmur.Table.Laws.{IsIn, All-IsIn}
use openmurmur.Table.Order.{first_by-some}
use openmurmur.Table.Keys.{stored_unique}
use openmurmur.Jobs.Lives.{
  Moves, stays, finished, returned, from_leased, from_pending, after_failure,
}
use openmurmur.Jobs.Types.{
  JobState, Payload, JobRow, Jobs, Thrown, EnqueueOptions, Lease, ClaimCall,
}
use openmurmur.Jobs.Claiming.{token_of}
use openmurmur.Jobs.Update.{updated, update_jobs_elim}
use openmurmur.Jobs.Invariant.{IsValid}
use openmurmur.Jobs.History.{
  Operation, enqueues, claims, renews, completes, fails, recovers_stale, recovers_dead_owner,
  perform,
}
use openmurmur.Jobs.{
  update_jobs, enqueue, claim, claim_row, leased_to, renew, complete, fail, fail_row,
  recover_stale_leases, recover_leases_after_proven_daemon_death, has_key, has_id, hand_out,
  is_runnable, before, is_leased, is_pending, is_empty, holds, holds_at, is_guarded_kind, new_row,
}

-- `P` of the table survives an UPDATE if it holds of the table as written.
pub update-Leaves {ℓ} :
    {A : Type ℓ} (P : Jobs → Type 0) (jobs : Jobs) (test : JobRow → Bool) (set : JobRow → JobRow)
    (next : Jobs × ℕ → Result Thrown (Jobs × A))
    → ((j : Jobs) (n : ℕ) → P j → Leaves P (next (j, n)))
    → P (updated jobs test set)
    → Leaves P (update_jobs jobs test set >>= next)
update-Leaves P jobs test set next then_ w =
    update_jobs_elim (λ r. Leaves P (r >>= next)) jobs test set
      (then_ (updated jobs test set) (Table.count test jobs.rows) w) tt

pub hand_out-Leaves :
    (P : Jobs → Type 0) (p : Payload) (j : Jobs) (row : JobRow) (lease_token : String)
    → row.payload ≡ p
    → P j
    → Leaves P (hand_out j row lease_token)
hand_out-Leaves P Payload.invalid j row lease_token e h = rw e tt
hand_out-Leaves P _ j row lease_token e h = rw e h

-- An UPDATE that some operation makes: it leaves a row's identity alone and selects rows that are
-- pending or leased.
pub record IsWrite (jobs : Jobs) (test : JobRow → Bool) (set : JobRow → JobRow) : Type 0 where
  pub same_id : (r : JobRow) → (set r).job_id ≡ r.job_id
  pub same_key : (r : JobRow) → (set r).idempotency_key ≡ r.idempotency_key
  pub same_kind : (r : JobRow) → (set r).kind ≡ r.kind
  pub selects :
      (r : JobRow)
      → IsIn r jobs.rows
      → test r ≡ true
      → is_pending r.state || is_leased r.state ≡ true
  pub moves : (r : JobRow) → IsIn r jobs.rows → test r ≡ true → Moves r.state (set r).state

-- The row that an `enqueue` adds has an identifier and a key of its own.
pub record IsNew (jobs : Jobs) (row : JobRow) : Type 0 where
  pub new_id : Table.exists (has_id row.job_id) jobs.rows ≡ false
  pub new_key : Table.exists (has_key row.idempotency_key) jobs.rows ≡ false
  pub new_state : row.state ≡ JobState.pending

abbrev pub with_row : Jobs → JobRow → Jobs
with_row jobs row = record jobs { rows = jobs.rows ++ row ∷ [] }

module _ (P : Jobs → Type 0) (jobs : Jobs) (v : IsValid jobs) (before_ : P jobs)
    (written : (test : JobRow → Bool) (set : JobRow → JobRow)
      → IsWrite jobs test set
      → P (updated jobs test set))
    (added : (row : JobRow) → IsNew jobs row → P (with_row jobs row)) where
  enqueue-Leaves :
      (o : EnqueueOptions) (id : String) (now run_from : ℕ)
      → Leaves P (enqueue jobs o id now run_from)
  unfolding enqueue insert
  enqueue-Leaves o id now run_from =
      elim (Bool-cases (jobs.maintenance && is_guarded_kind o.kind)) [
        | inl g ↦ rw g tt
        | inr g ↦ elim (Bool-cases (Table.exists (has_key o.idempotency_key) jobs.rows)) [
          | inl k ↦ rw (g, k) before_
          | inr k ↦ elim (Bool-cases (Table.exists (has_id id) jobs.rows)) [
            | inl i ↦ rw (g, k, i) tt
            | inr i ↦
                rw (g, k, i)
                  (added (new_row o id now run_from)
                    (record { new_id = i; new_key = k; new_state = refl }))
          ]
        ]
      ]

  held_write :
      (test : JobRow → Bool) (set : JobRow → JobRow)
      → ((r : JobRow) → test r ≡ true → is_leased r.state ≡ true)
      → ((r : JobRow) → (set r).job_id ≡ r.job_id)
      → ((r : JobRow) → (set r).idempotency_key ≡ r.idempotency_key)
      → ((r : JobRow) → (set r).kind ≡ r.kind)
      → ((r : JobRow) → is_leased r.state ≡ true → Moves r.state (set r).state)
      → P (updated jobs test set)
  held_write test set leased i k n m = written test set (record {
    same_id = i;
    same_key = k;
    same_kind = n;
    selects = λ r stored h. ground (arith, leased r h);
    moves = λ r stored h. m r (leased r h);
  })

  claim_row-Leaves :
      (call : ClaimCall) (found : Option JobRow) (lease_token : String) (expires : ℕ)
      → Table.first_by before (is_runnable call.kinds call.now) jobs.rows ≡ found
      → Leaves P (claim_row jobs found lease_token expires call.stamp)
  unfolding claim_row
  claim_row-Leaves call none lease_token expires f = before_
  claim_row-Leaves call (some row) lease_token expires f =
      let (runnable, stored) =
        first_by-some before (is_runnable call.kinds call.now) (λ r. IsIn r jobs.rows) jobs.rows row
          (All-IsIn jobs.rows) f in
      update-Leaves P jobs (has_id row.job_id) (leased_to lease_token expires call.stamp) _
        (λ j n h. hand_out-Leaves P row.payload j row lease_token refl h)
        (written (has_id row.job_id) (leased_to lease_token expires call.stamp) (record {
          same_id = λ r. refl;
          same_key = λ r. refl;
          same_kind = λ r. refl;
          selects = λ r i h.
              let same : r ≡ row =
                stored_unique (λ s. s.job_id) r row jobs.rows i stored
                  ((eq_iff r.job_id row.job_id).0 h) v.ids_distinct in
              ground (arith, ap (λ s. s.state) same);
          moves = λ r i h.
              let same : r ≡ row =
                stored_unique (λ s. s.job_id) r row jobs.rows i stored
                  ((eq_iff r.job_id row.job_id).0 h) v.ids_distinct in
              from_pending r.state (ground (arith, ap (λ s. s.state) same));
        }))

  fail_row-Leaves :
      (found : Option JobRow) (job : Lease) (error : List ℕ) (now from : ℕ)
      → Leaves P (fail_row jobs found job error now from)
  unfolding fail_row
  fail_row-Leaves none job error now from = before_
  fail_row-Leaves (some row) job error now from =
      update-Leaves P jobs (holds job) _ _ (λ j n h. h)
        (held_write (holds job) _ (λ r h. ground arith) (λ r. refl) (λ r. refl) (λ r. refl)
          (λ r h. from_leased r.state _ h (after_failure (leb row.max_attempts row.attempts))))

  claim-Leaves : (call : ClaimCall) → Leaves P (claim jobs call)
  unfolding claim
  claim-Leaves call = elim (Bool-cases (is_empty call.kinds)) [
    | inl e ↦ rw e before_
    | inr e ↦ rw e (claim_row-Leaves call _ (token_of call) (call.from + call.lease_ms) refl)
  ]

  -- What holds of the table holds after an operation, if it holds after every write and every
  -- insertion that an operation makes.
  pub perform_elim : (o : Operation) → P (perform jobs o)
  unfolding perform renew complete fail recover_stale_leases
      recover_leases_after_proven_daemon_death
  perform_elim (enqueues o id now run_from) =
      state_after-Leaves P jobs _ before_ (enqueue-Leaves o id now run_from)
  perform_elim (claims call) = state_after-Leaves P jobs _ before_ (claim-Leaves call)
  perform_elim (renews job lease_ms now from) = state_after-Leaves P jobs _ before_ (
      update-Leaves P jobs (holds job) _ _ (λ j n h. h)
        (held_write (holds job) _ (λ r h. ground arith) (λ r. refl) (λ r. refl) (λ r. refl)
          (λ r h. stays r.state)))
  perform_elim (completes job now) = state_after-Leaves P jobs _ before_ (
      update-Leaves P jobs (holds_at job now) _ _ (λ j n h. h)
        (held_write (holds_at job now) _ (λ r h. ground arith) (λ r. refl) (λ r. refl) (λ r. refl)
          (λ r h. from_leased r.state _ h finished)))
  perform_elim (fails job error now from) =
      state_after-Leaves P jobs _ before_
        (fail_row-Leaves (Table.get (holds_at job now) jobs.rows) job error now from)
  perform_elim (recovers_stale stamp now) = state_after-Leaves P jobs _ before_ (
      update_jobs_elim (Leaves P) jobs _ _
        (held_write _ _ (λ r h. ground arith) (λ r. refl) (λ r. refl) (λ r. refl)
          (λ r h. from_leased r.state _ h returned))
        tt)
  perform_elim (recovers_dead_owner owner now) = state_after-Leaves P jobs _ before_ (
      update_jobs_elim (Leaves P) jobs _ _
        (held_write _ _ (λ r h. ground arith) (λ r. refl) (λ r. refl) (λ r. refl)
          (λ r h. from_leased r.state _ h returned))
        tt)
