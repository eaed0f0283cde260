-- ===== src/Jobs/Refinement.antt =====
-- The table of src/jobs/queue.ts as a list of lives.
use openmurmur.Prelude.{
  ◌≡◌, refl, sym, ◌∙◌, subst, Bool, List, [], ◌∷◌, ◌++◌, All, inl, inr, Bool-cases, if◌then◌else◌,
}
use openmurmur.Table.{update}
use openmurmur.Table.Laws.{IsIn, All-IsIn, append-All}
use openmurmur.Jobs.Types.{JobState, JobRow, Jobs}
use openmurmur.Jobs.Lives.{Reaches, at_once, after}
use openmurmur.Jobs.Invariant.{IsValid}
use openmurmur.Jobs.Writes.{IsWrite, perform_elim}
use openmurmur.Jobs.History.{Operation, perform, perform_all, perform-IsValid}

-- Each row of a table has its job in the other, in the same place and at a state it can reach; the
-- jobs behind them began as pending.
abbrev pub LivesOn : List JobRow → List JobRow → Type 0
LivesOn [] now = All (λ r. Reaches JobState.pending r.state) now
LivesOn (r ∷ was) [] = ⊥
LivesOn (r ∷ was) (s ∷ now) = (s.job_id ≡ r.job_id) × Reaches r.state s.state × LivesOn was now

LivesOn-self : (rows : List JobRow) → LivesOn rows rows
LivesOn-self [] = tt
LivesOn-self (r ∷ rows) = (refl, at_once r.state, LivesOn-self rows)

module _ (jobs : Jobs) (test : JobRow → Bool) (set : JobRow → JobRow)
    (w : IsWrite jobs test set) where
  write_moves :
      (from : JobState) (r : JobRow)
      → IsIn r jobs.rows
      → Reaches from r.state
      → Reaches from (if test r then set r else r).state
  write_moves from r stored h = elim (Bool-cases (test r)) [
    | inl e ↦ rw e (after from r.state (set r).state h (w.moves r stored e))
    | inr e ↦ rw e h
  ]

  write_names : (r : JobRow) → (if test r then set r else r).job_id ≡ r.job_id
  write_names r = elim (Bool-cases (test r)) [ inl e ↦ rw e (w.same_id r) | inr e ↦ rw e refl ]

  update-LivesOn :
      (was now : List JobRow)
      → All (λ r. IsIn r jobs.rows) now
      → LivesOn was now
      → LivesOn was (update test set now)
  unfolding update
  update-LivesOn [] [] i h = tt
  update-LivesOn [] (s ∷ now) (i, is) (h, hs) =
      (write_moves JobState.pending s i h, update-LivesOn [] now is hs)
  update-LivesOn (r ∷ was) [] i h = h
  update-LivesOn (r ∷ was) (s ∷ now) (i, is) (same, h, hs) =
      (write_names s ∙ same, write_moves r.state s i h, update-LivesOn was now is hs)

add-LivesOn :
    (row : JobRow)
    → row.state ≡ JobState.pending
    → (was now : List JobRow) → LivesOn was now
    → LivesOn was (now ++ row ∷ [])
add-LivesOn row new [] now h =
    append-All (λ r. Reaches JobState.pending r.state) now (row ∷ []) h
      (subst (λ s. Reaches JobState.pending s) (sym new) (at_once JobState.pending), tt)
add-LivesOn row new (r ∷ was) [] h = elim h [ ]
add-LivesOn row new (r ∷ was) (s ∷ now) (same, h, hs) = (same, h, add-LivesOn row new was now hs)

perform-LivesOn :
    (was : List JobRow) (jobs : Jobs) (o : Operation)
    → IsValid jobs
    → LivesOn was jobs.rows
    → LivesOn was (perform jobs o).rows
perform-LivesOn was jobs o v h =
    perform_elim (λ j. LivesOn was j.rows) jobs v h
      (λ test set w. update-LivesOn jobs test set w was jobs.rows (All-IsIn jobs.rows) h)
      (λ row w. add-LivesOn row w.new_state was jobs.rows h) o

all-LivesOn :
    (was : List JobRow) (jobs : Jobs) (os : List Operation)
    → IsValid jobs
    → LivesOn was jobs.rows
    → LivesOn was (perform_all jobs os).rows
unfolding perform_all
all-LivesOn was jobs [] v h = h
all-LivesOn was jobs (o ∷ os) v h =
    all-LivesOn was (perform jobs o) os (perform-IsValid jobs o v) (perform-LivesOn was jobs o v h)

-- The queue implements the life of a job, whatever operations but `retryDead` come in whatever order.
-- Every job of the table is still there, in its place, and its state changed only from pending to
-- leased and from leased to done, pending or dead; every further job began as pending and moved in
-- the same way.
pub perform_all-LivesOn :
    (jobs : Jobs) (os : List Operation)
    → IsValid jobs
    → LivesOn jobs.rows (perform_all jobs os).rows
perform_all-LivesOn jobs os v = all-LivesOn jobs.rows jobs os v (LivesOn-self jobs.rows)
