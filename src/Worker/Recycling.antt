-- ===== src/Worker/Recycling.antt =====
-- The accounts of the requests when a generation of class WorkerProcess (src/asr/worker-process.ts) ends.
use openmurmur.Prelude.{
  ℕ, inl, inr, Bool, true, false, ◌==◌, Option, none, some, Bool-cases, if◌then◌else◌,
}
use openmurmur.Table.{get, exists}
use openmurmur.Worker.Types.{WorkerExitReason, Failure, WorkerGeneration, Worker, exited}
use openmurmur.Worker.{on_close}
use openmurmur.Worker.Generation.{fail_generation, notify, notify_exit, recycle}
use openmurmur.Worker.Counts.{IsAccounted, fail-Accounts, still_child}

pub branch :
    (b : Bool) (x y : Worker) → IsAccounted x → IsAccounted y → IsAccounted (if b then x else y)
branch true x y p q = p
branch false x y p q = q

notify-IsAccounted :
    (w : Worker) (g : ℕ) (o : Option WorkerGeneration) → IsAccounted w → IsAccounted (notify w g o)
notify-IsAccounted w g none a = a
notify-IsAccounted w g (some r) a = elim (Bool-cases r.exit_notified) [
  | inl e ↦ rw e a
  | inr e ↦ rw e a
]

notify_exit-IsAccounted : (w : Worker) (g : ℕ) → IsAccounted w → IsAccounted (notify_exit g w)
unfolding notify_exit
notify_exit-IsAccounted w g a = notify-IsAccounted w g (get (λ r. r.number == g) w.generations) a

pub recycle-IsAccounted :
    (g : ℕ) (why : Failure) (reason : WorkerExitReason) (w : Worker)
    → IsAccounted w
    → IsAccounted (recycle g why reason w)
unfolding recycle fail_generation
recycle-IsAccounted g why reason w a = elim (Bool-cases (exists (λ h. h == g) w.stopping)) [
  | inl e ↦ rw e a
  | inr e ↦ rw e (
      notify_exit-IsAccounted _ g (
        fail-Accounts w.child _ w.pending w.tickets w.settled g why
          (λ p off e. still_child w.child g p.generation off e) a))
]

pub on_close-IsAccounted : (g : ℕ) (w : Worker) → IsAccounted w → IsAccounted (on_close g w)
unfolding on_close fail_generation
on_close-IsAccounted g w a = notify_exit-IsAccounted _ g (
    fail-Accounts w.child _ w.pending w.tickets w.settled g exited
      (λ p off e. still_child w.child g p.generation off e) a)
