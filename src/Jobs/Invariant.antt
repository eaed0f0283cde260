-- ===== src/Jobs/Invariant.antt =====
-- What holds of the job table between two operations of src/jobs/queue.ts.
use Prim.Native.String.{String}
use openmurmur.Prelude.{
  Leaves, ℕ, ◌≡◌, refl, Bool, true, ◌&&◌, Option, none, some, List, [], ◌∷◌, map, All, arith,
  Result, ok, ◌>>=◌, is_some, inl, inr, Bool-cases, Option-cases,
}
use openmurmur.Table
use openmurmur.Table.{insert}
use openmurmur.Table.Laws.{update-All, append-All}
use openmurmur.Table.Keys.{AreDistinct, update-AreDistinct, append_row-AreDistinct}
use openmurmur.Jobs.Types.{Payload, JobRow, Jobs, Thrown, EnqueueOptions, Lease, ClaimCall}
use openmurmur.Jobs.Update.{updated, update_jobs_elim}
use openmurmur.Jobs.{
  update_jobs, enqueue, claim, claim_row, renew, complete, fail, fail_row, recover_stale_leases,
  recover_leases_after_proven_daemon_death, is_leased, new_row, parse_json, holds_at, has_id,
  has_key, is_empty, is_guarded_kind,
}

-- A row is leased exactly when it names an owner, and exactly when it has an expiry.
abbrev pub RowIsValid : JobRow → Type 0
RowIsValid r =
    (is_some r.lease_owner ≡ is_leased r.state) × (is_some r.lease_expires_at ≡ is_leased r.state)

pub record IsValid (jobs : Jobs) : Type 0 where
  pub rows_valid : All RowIsValid jobs.rows
  pub ids_distinct : AreDistinct (map (λ r. r.job_id) jobs.rows)
  pub keys_distinct : AreDistinct (map (λ r. r.idempotency_key) jobs.rows)

updated-IsValid :
    (jobs : Jobs) (test : JobRow → Bool) (set : JobRow → JobRow)
    → ((r : JobRow) → RowIsValid r → test r ≡ true → RowIsValid (set r))
    → ((r : JobRow) → (set r).job_id ≡ r.job_id)
    → ((r : JobRow) → (set r).idempotency_key ≡ r.idempotency_key)
    → IsValid jobs
    → IsValid (updated jobs test set)
updated-IsValid jobs test set keep ids keys v = record {
  rows_valid = update-All RowIsValid test set jobs.rows keep v.rows_valid;
  ids_distinct = update-AreDistinct (λ r. r.job_id) test set jobs.rows ids v.ids_distinct;
  keys_distinct =
      update-AreDistinct (λ r. r.idempotency_key) test set jobs.rows keys v.keys_distinct;
}

-- What follows an UPDATE leaves its table as it is.
update-IsValid {ℓ} :
    {A : Type ℓ} (jobs : Jobs) (test : JobRow → Bool) (set : JobRow → JobRow)
    (next : Jobs × ℕ → Result Thrown (Jobs × A))
    → ((r : JobRow) → RowIsValid r → test r ≡ true → RowIsValid (set r))
    → ((r : JobRow) → (set r).job_id ≡ r.job_id)
    → ((r : JobRow) → (set r).idempotency_key ≡ r.idempotency_key)
    → ((j : Jobs) (n : ℕ) → IsValid j → Leaves IsValid (next (j, n)))
    → IsValid jobs
    → Leaves IsValid (update_jobs jobs test set >>= next)
update-IsValid jobs test set next keep ids keys then_ v =
    update_jobs_elim (λ r. Leaves IsValid (r >>= next)) jobs test set
      (then_ (updated jobs test set) (Table.count test jobs.rows)
        (updated-IsValid jobs test set keep ids keys v))
      tt

pub renew-IsValid :
    (jobs : Jobs) (job : Lease) (lease_ms now from : ℕ)
    → IsValid jobs
    → Leaves IsValid (renew jobs job lease_ms now from)
unfolding renew
renew-IsValid jobs job lease_ms now from v =
    update-IsValid jobs _ _ _ (λ r p e. ground arith) (λ r. refl) (λ r. refl) (λ j n h. h) v

pub complete-IsValid :
    (jobs : Jobs) (job : Lease) (now : ℕ) → IsValid jobs → Leaves IsValid (complete jobs job now)
unfolding complete
complete-IsValid jobs job now v =
    update-IsValid jobs _ _ _ (λ r p e. (refl, refl)) (λ r. refl) (λ r. refl) (λ j n h. h) v

pub fail-IsValid :
    (jobs : Jobs) (job : Lease) (error : List ℕ) (now from : ℕ)
    → IsValid jobs
    → Leaves IsValid (fail jobs job error now from)
unfolding fail fail_row
fail-IsValid jobs job error now from v =
    elim (Option-cases (Table.get (holds_at job now) jobs.rows)) [
      | inl e ↦ rw e v
      | inr (row, e) ↦
          rw e (
            update-IsValid jobs _ _ _ (λ r p h. ground arith) (λ r. refl) (λ r. refl) (λ j n h. h)
              v)
    ]

pub recover_stale_leases-IsValid :
    (jobs : Jobs) (stamp now : ℕ)
    → IsValid jobs
    → Leaves IsValid (recover_stale_leases jobs stamp now)
unfolding recover_stale_leases
recover_stale_leases-IsValid jobs stamp now v =
    update_jobs_elim (Leaves IsValid) jobs _ _
      (updated-IsValid jobs _ _ (λ r p h. (refl, refl)) (λ r. refl) (λ r. refl) v) tt

pub recover_leases_after_proven_daemon_death-IsValid :
    (jobs : Jobs) (dead_owner : String) (now : ℕ)
    → IsValid jobs
    → Leaves IsValid (recover_leases_after_proven_daemon_death jobs dead_owner now)
unfolding recover_leases_after_proven_daemon_death
recover_leases_after_proven_daemon_death-IsValid jobs dead_owner now v =
    update_jobs_elim (Leaves IsValid) jobs _ _
      (updated-IsValid jobs _ _ (λ r p h. (refl, refl)) (λ r. refl) (λ r. refl) v) tt

parsed-IsValid {ℓ} :
    {A : Type ℓ} (p : Payload) (j : Jobs) (f : Payload → A)
    → IsValid j
    → Leaves IsValid (parse_json p >>= λ q. ok (j, f q))
parsed-IsValid Payload.invalid j f h = tt
parsed-IsValid _ j f h = h

claim_row-IsValid :
    (jobs : Jobs) (found : Option JobRow) (lease_token : String) (expires stamp : ℕ)
    → IsValid jobs
    → Leaves IsValid (claim_row jobs found lease_token expires stamp)
unfolding claim_row
claim_row-IsValid jobs none lease_token expires stamp v = v
claim_row-IsValid jobs (some row) lease_token expires stamp v =
    update-IsValid jobs _ _ _ (λ r p e. (refl, refl)) (λ r. refl) (λ r. refl)
      (λ j n h. parsed-IsValid row.payload j _ h) v

pub claim-IsValid :
    (jobs : Jobs) (call : ClaimCall) → IsValid jobs → Leaves IsValid (claim jobs call)
unfolding claim
claim-IsValid jobs call v = elim (Bool-cases (is_empty call.kinds)) [
  | inl e ↦ rw e v
  | inr e ↦ rw e (claim_row-IsValid jobs _ _ _ call.stamp v)
]

pub enqueue-IsValid :
    (jobs : Jobs) (o : EnqueueOptions) (id : String) (now run_from : ℕ)
    → IsValid jobs
    → Leaves IsValid (enqueue jobs o id now run_from)
unfolding enqueue insert
enqueue-IsValid jobs o id now run_from v =
    elim (Bool-cases (jobs.maintenance && is_guarded_kind o.kind)) [
      | inl g ↦ rw g tt
      | inr g ↦ elim (Bool-cases (Table.exists (has_key o.idempotency_key) jobs.rows)) [
        | inl k ↦ rw (g, k) v
        | inr k ↦ elim (Bool-cases (Table.exists (has_id id) jobs.rows)) [
          | inl i ↦ rw (g, k, i) tt
          | inr i ↦
              rw (g, k, i)
                (record {
                  rows_valid =
                      append-All RowIsValid jobs.rows (new_row o id now run_from ∷ []) v.rows_valid
                        ((refl, refl), tt);
                  ids_distinct =
                      append_row-AreDistinct (λ r. r.job_id) (new_row o id now run_from) jobs.rows i
                        v.ids_distinct;
                  keys_distinct =
                      append_row-AreDistinct (λ r. r.idempotency_key) (new_row o id now run_from)
                        jobs.rows k v.keys_distinct;
                })
        ]
      ]
    ]
