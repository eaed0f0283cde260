-- ===== src/Jobs/Update.antt =====
-- The two outcomes of an UPDATE of the job table: the trigger of
-- 019_telegram_maintenance_job_guard.sql aborts it, or it writes the rows that it selects.
use openmurmur.Prelude.{◌&&◌, ℕ, ◌≡◌, Bool, false, Result, ok, err, inl, inr, Bool-cases, arith}
use openmurmur.Table
use openmurmur.Table.Laws.{exists_false, All-of}
use openmurmur.Jobs.Types.{JobRow, Jobs, Thrown, paused}
use openmurmur.Jobs.{update_jobs, blocks}

abbrev pub updated : Jobs → (JobRow → Bool) → (JobRow → JobRow) → Jobs
updated jobs test set = record jobs { rows = Table.update test set jobs.rows }

abbrev pub aborts : Jobs → (JobRow → Bool) → (JobRow → JobRow) → Bool
aborts jobs test set = jobs.maintenance && Table.exists (λ r. test r && blocks r (set r)) jobs.rows

pub update_jobs_elim {ℓ} :
    (P : Result Thrown (Jobs × ℕ) → Type ℓ) (jobs : Jobs) (test : JobRow → Bool)
    (set : JobRow → JobRow)
    → P (ok (updated jobs test set, Table.count test jobs.rows))
    → P (err paused)
    → P (update_jobs jobs test set)
unfolding update_jobs
update_jobs_elim P jobs test set written stopped = elim (Bool-cases (aborts jobs test set)) [
  | inl e ↦ rw e stopped
  | inr e ↦ rw e written
]

module _ (jobs : Jobs) (test : JobRow → Bool) (set : JobRow → JobRow) where
  -- Outside maintenance, and where the trigger guards no row as it is written, the UPDATE writes.
  pub update_jobs_open :
      jobs.maintenance ≡ false
      → update_jobs jobs test set ≡ ok (updated jobs test set, Table.count test jobs.rows)
  unfolding update_jobs
  update_jobs_open m = rw m

  pub update_jobs_free :
      ((r : JobRow) → blocks r (set r) ≡ false)
      → update_jobs jobs test set ≡ ok (updated jobs test set, Table.count test jobs.rows)
  unfolding update_jobs
  update_jobs_free free = ground (
    arith,
    exists_false (λ r. test r && blocks r (set r)) jobs.rows
        (All-of _ jobs.rows (λ r. ground (arith, free r))),
  )
