-- ===== src/Worker/Accounting.antt =====
-- What becomes of the requests of class WorkerProcess (src/asr/worker-process.ts), whatever happens.
use openmurmur.Prelude.{
  ℕ, ◌≡◌, inl, inr, false, Bool-cases, Option, some, List, [], ◌∷◌, All, arith,
}
use openmurmur.Table.{exists}
use openmurmur.Table.Laws.{map-All}
use openmurmur.Worker.Endings.{AllApart, has_ended, has_ended-IsOff}
use openmurmur.Worker.Types.{
  WorkerExitReason, Pending, Worker, Event, ensure, start_settled, fails, exits, idle_fires, joined,
  closing_stop, sends, line, times_out, write_fails, close_begins, close_ends, closing_shutdown,
  worker_closed, timed_out, write_failed, start_error,
}
use openmurmur.Worker.{forget_start, on_error, on_joined, step, run, new_worker}
use openmurmur.Worker.Counts.{IsAccounted}
use openmurmur.Worker.Steps.{
  send-IsAccounted, request_fails-IsAccounted, idle_timer_fires-IsAccounted, dispatch-IsAccounted,
  ensure-IsAccounted, shut_down-IsAccounted, fail_all-IsAccounted,
}
use openmurmur.Worker.Recycling.{recycle-IsAccounted, on_close-IsAccounted}

step-IsAccounted : (w : Worker) (e : Event) → IsAccounted w → IsAccounted (step w e)
unfolding step on_error on_joined
step-IsAccounted w (ensure spawns) a = ensure-IsAccounted spawns w a
step-IsAccounted w (start_settled g) a = a
step-IsAccounted w (fails g) a =
    recycle-IsAccounted g start_error WorkerExitReason.unexpected (forget_start g w) a
step-IsAccounted w (exits g) a = on_close-IsAccounted g w a
step-IsAccounted w (idle_fires g) a = idle_timer_fires-IsAccounted g w a
step-IsAccounted w (joined g) a = a
step-IsAccounted w (closing_stop g) a =
    recycle-IsAccounted g worker_closed WorkerExitReason.unexpected w a
step-IsAccounted w (sends id) a = send-IsAccounted id w a
step-IsAccounted w (line g parsed) a = dispatch-IsAccounted g parsed w a
step-IsAccounted w (times_out id g) a = request_fails-IsAccounted timed_out id g w a
step-IsAccounted w (write_fails id g) a = request_fails-IsAccounted write_failed id g w a
step-IsAccounted w close_begins a = a
step-IsAccounted w close_ends a = fail_all-IsAccounted worker_closed w a
step-IsAccounted w (closing_shutdown id) a = shut_down-IsAccounted id w w.child a

run-Keeps : (w : Worker) (es : List Event) → IsAccounted w → IsAccounted (run w es)
unfolding run
run-Keeps w [] a = a
run-Keeps w (e ∷ es) a = run-Keeps (step w e) es (step-IsAccounted w e a)

new-AllApart : (idle_timeout_ms : Option ℕ) → AllApart (new_worker idle_timeout_ms)
unfolding exists
new-AllApart idle_timeout_ms = record { off = λ g e. elim e [ ]; apart = λ g e. absurd (cc) }

waits_on_child :
    (w : Worker) (es : List Event) (p : Pending)
    → AllApart w
    → (run w es).child ≡ some p.generation
    → has_ended w es p.generation ≡ false
waits_on_child w es p a c = elim (Bool-cases (has_ended w es p.generation)) [
  | inr e ↦ e
  | inl e ↦ let off = has_ended-IsOff w es p.generation a e in absurd (ground (arith, rw c at off))
]

-- Whatever happens in whatever order, each request that was accepted has been resolved or rejected
-- exactly once, or waits exactly once, and then on the process that runs now. None waits on a
-- process that an event has ended after it was started: by its error, its exit, its retirement or a
-- stop in `close`, or because a request that waited on it timed out or could not be written. An
-- answer has the identifier of its request and was read from the process that the request was sent
-- to, never from another.
pub run-IsAccounted :
    (idle_timeout_ms : Option ℕ) (es : List Event)
    → let worker = new_worker idle_timeout_ms in
      IsAccounted (run worker es)
      × All (λ p. has_ended worker es p.generation ≡ false) (run worker es).pending
run-IsAccounted idle_timeout_ms es =
    let worker = new_worker idle_timeout_ms in
    let accounts =
      run-Keeps worker es (record { waits = tt; once = λ t. ground arith; answers = tt }) in
    (
      accounts,
      map-All _ _ (run worker es).pending
          (λ p c. waits_on_child worker es p (new-AllApart idle_timeout_ms) c) accounts.waits,
    )
