-- ===== src/Jobs/Lifecycle.antt =====
-- What no operation of src/jobs/queue.ts ever does to a job: drop it, rename it, run it again once
-- it is done, or store a second one under its idempotency key.
use Prim.Native.String.{String}
use text.Mathlib.Text.{◌==◌ as str_eq}
use text.Mathlib.TextPositions.{eq_refl}
use mathlib.Core.List.{map-append, append_assoc, append-nil}
use openmurmur.Prelude.{
  Leaves, ℕ, ◌≡◌, sym, ap, subst, ◌∙◌, Bool, true, false, Option, none, List, [], ◌∷◌, ◌++◌, map,
  arith, ok, inl, inr, Bool-cases,
}
use openmurmur.Table
use openmurmur.Table.{insert}
use openmurmur.Table.Laws.{
  exists-map, exists-append_left, exists-append_last, map-update, IsIn, IsIn-update_miss,
  IsIn-append,
}
use openmurmur.Jobs.Types.{JobKind, JobRow, Jobs, EnqueueOptions}
use openmurmur.Jobs.Invariant.{IsValid, enqueue-IsValid}
use openmurmur.Jobs.Writes.{IsWrite, perform_elim}
use openmurmur.Jobs.History.{Operation, perform, perform_all, perform-IsValid}
use openmurmur.Jobs.{enqueue, has_key, is_done, new_row}

perform_keeps_done :
    (jobs : Jobs) (o : Operation) (r : JobRow)
    → IsValid jobs
    → is_done r.state ≡ true
    → IsIn r jobs.rows
    → IsIn r (perform jobs o).rows
perform_keeps_done jobs o r v d i =
    perform_elim (λ j. IsIn r j.rows) jobs v i
      (λ test set w. IsIn-update_miss test set r jobs.rows i (missed test set w))
      (λ row w. IsIn-append r jobs.rows (row ∷ []) i) o
  where
    missed : (test : JobRow → Bool) (set : JobRow → JobRow) → IsWrite jobs test set → test r ≡ false
    missed test set w = elim (Bool-cases (test r)) [
      | inr e ↦ e
      | inl e ↦ let busy = w.selects r i e in ground arith
    ]

-- A job that is done stays stored exactly as it is, whatever operations follow: no late worker, no
-- recovery and no claim ever runs it again.
pub done_is_final :
    (jobs : Jobs) (os : List Operation) (r : JobRow)
    → IsValid jobs
    → is_done r.state ≡ true
    → IsIn r jobs.rows
    → IsIn r (perform_all jobs os).rows
unfolding perform_all
done_is_final jobs [] r v d i = i
done_is_final jobs (o ∷ os) r v d i =
    done_is_final (perform jobs o) os r (perform-IsValid jobs o v) d
      (perform_keeps_done jobs o r v d i)

-- What identifies a job to those who made it.
pub record Identity : Type 0 where
  pub job_id : String
  pub idempotency_key : String
  pub kind : JobKind

abbrev pub identity : JobRow → Identity
identity r = record { job_id = r.job_id; idempotency_key = r.idempotency_key; kind = r.kind }

abbrev pub identities : Jobs → List Identity
identities jobs = map identity jobs.rows

-- The identities of `jobs` and then some.
abbrev pub Extends : List Identity → Jobs → Type 0
Extends ids jobs = (more : List Identity) × (identities jobs ≡ ids ++ more)

perform-Extends :
    (ids : List Identity) (jobs : Jobs) (o : Operation)
    → IsValid jobs
    → Extends ids jobs
    → Extends ids (perform jobs o)
perform-Extends ids jobs o v (more, e) =
    perform_elim (Extends ids) jobs v (more, e)
      (λ test set w. (more, map-update identity test set jobs.rows (same test set w) ∙ e))
      (λ row w. (
        more ++ identity row ∷ [],
        map-append identity jobs.rows (row ∷ [])
            ∙ ap (λ is. is ++ identity row ∷ []) e
            ∙ append_assoc ids more (identity row ∷ []),
      ))
      o
  where
    same :
        (test : JobRow → Bool) (set : JobRow → JobRow)
        → IsWrite jobs test set
        → (r : JobRow) → identity (set r) ≡ identity r
    same test set w r = cc (w.same_id r, w.same_key r, w.same_kind r)

perform_all-Extends :
    (ids : List Identity) (jobs : Jobs) (os : List Operation)
    → IsValid jobs
    → Extends ids jobs
    → Extends ids (perform_all jobs os)
unfolding perform_all
perform_all-Extends ids jobs [] v e = e
perform_all-Extends ids jobs (o ∷ os) v e =
    perform_all-Extends ids (perform jobs o) os (perform-IsValid jobs o v)
      (perform-Extends ids jobs o v e)

-- No operation drops a job or changes its identifier, its idempotency key or its kind: the jobs of
-- the table are there after any sequence of operations, in their order, with new ones behind them.
pub jobs_never_vanish :
    (jobs : Jobs) (os : List Operation)
    → IsValid jobs
    → (more : List Identity) × (identities (perform_all jobs os) ≡ identities jobs ++ more)
jobs_never_vanish jobs os v =
    perform_all-Extends (identities jobs) jobs os v ([], sym (append-nil (identities jobs)))

-- A key that the table has is still there after any operations.
key_stays :
    (jobs : Jobs) (os : List Operation) (key : String)
    → IsValid jobs
    → Table.exists (has_key key) jobs.rows ≡ true
    → Table.exists (has_key key) (perform_all jobs os).rows ≡ true
key_stays jobs os key v e =
    let test = λ (i : Identity). str_eq i.idempotency_key key in
    let (more, same) = jobs_never_vanish jobs os v in
    sym (exists-map identity test (perform_all jobs os).rows)
    ∙ ap (Table.exists test) same
    ∙ exists-append_left test (identities jobs) more (exists-map identity test jobs.rows ∙ e)

enqueue_stores :
    (jobs jobs' : Jobs) (o : EnqueueOptions) (id : String) (got : Option String) (now run_from : ℕ)
    → enqueue jobs o id now run_from ≡ ok (jobs', got)
    → Table.exists (has_key o.idempotency_key) jobs'.rows ≡ true
unfolding enqueue insert
enqueue_stores jobs jobs' o id got now run_from e =
    let row = new_row o id now run_from in
    let last =
      exists-append_last (has_key o.idempotency_key) jobs.rows row (eq_refl o.idempotency_key) in
    ground (arith, last)

-- Once an enqueue has returned, another with the same idempotency key is a no-op, whatever happened
-- in between: outside maintenance it returns null and leaves the table as it is.
pub enqueue_once :
    (jobs jobs' : Jobs) (o o' : EnqueueOptions) (id id' : String) (got : Option String)
    (now run_from now' run_from' : ℕ) (os : List Operation)
    → IsValid jobs
    → enqueue jobs o id now run_from ≡ ok (jobs', got)
    → o'.idempotency_key ≡ o.idempotency_key
    → (perform_all jobs' os).maintenance ≡ false
    → enqueue (perform_all jobs' os) o' id' now' run_from' ≡ ok (perform_all jobs' os, none)
unfolding enqueue
enqueue_once jobs jobs' o o' id id' got now run_from now' run_from' os v e k m =
    let valid : IsValid jobs' =
      subst (Leaves IsValid) e (enqueue-IsValid jobs o id now run_from v) in
    let there =
      key_stays jobs' os o.idempotency_key valid
        (enqueue_stores jobs jobs' o id got now run_from e) in
    rw (m, k, there)
