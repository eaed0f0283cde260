-- ===== src/Worker.antt =====
-- class WorkerProcess of src/asr/worker-process.ts. Each callback of a promise, a timer or a child
-- process is an operation of its own.
pub mod Types
pub mod Generation
pub mod Lines
pub mod Stream
pub mod Counts
mod Recycling
mod Steps
pub mod Parted
pub mod Endings
pub mod Accounting
pub mod Places
mod Joins
pub mod Exclusive
mod Tests
use Prim.Native.String.{String}
use text.Mathlib.Text.{◌==◌ as str_eq}
use openmurmur.Prelude.{
  ℕ, suc, ◌+◌, Bool, true, false, ◌&&◌, ◌||◌, Option, none, some, List, [], ◌∷◌, ◌++◌, negate, ◌==◌,
  ltb, ◌⊎◌, inl, inr, if◌then◌else◌,
}
use openmurmur.Table
use openmurmur.Worker.Types.{
  WorkerExitReason, WorkerResponse, Parsed, ProtocolError, Failure, Pending, Outcome, Settled,
  WorkerGeneration, Worker, StartResult, Event, not_json, not_object, object, non_json, no_object,
  no_id_or_ok, worker_closed, not_running, timed_out, write_failed, exited, start_error, retired,
  already_pending, answered, failed, refused, running, is_starting, waits, started, ensure,
  start_settled, fails, exits, idle_fires, joined, closing_stop, sends, line, times_out,
  write_fails, close_begins, close_ends, closing_shutdown,
}
use openmurmur.Worker.Generation.{
  decode_response, is_at, update_generation, cancel_idle_retirement, fail_generation, rejected,
  fail_all, notify_exit, without_child, recycle,
}

-- `ensureStarted`; `spawns`: whether spawn throws.
abbrev pub spawned : Worker → Worker
spawned w =
    let g = suc w.next_generation in
    record w {
      generations =
          w.generations
          ++ record {
            number = g;
            did_exit = false;
            exit_notified = false;
            exit_reason = none;
            idle_timer = false;
          }
            ∷ [];
      child = some g;
      starting = some g;
      next_generation = g;
    }

abbrev pub spawn : Bool → Worker → List ℕ → Worker × StartResult
spawn spawns w (h ∷ stopping) = (w, waits)
spawn false w [] = (w, refused start_error)
spawn true w [] = (spawned w, started)

abbrev pub start_anew : Bool → Worker → Option ℕ → Worker × StartResult
start_anew spawns w (some h) = (w, is_starting)
start_anew spawns w none = spawn spawns w w.stopping

abbrev pub start_child : Bool → Worker → Option ℕ → Worker × StartResult
start_child spawns w (some g) = (cancel_idle_retirement g w, running)
start_child spawns w none = start_anew spawns w w.starting

unfoldable pub ensure_started : Bool → Worker → Worker × StartResult
ensure_started spawns w =
    if w.is_closed then (w, refused worker_closed) else start_child spawns w w.child

-- `#startPromise` is settled: the tracked promise forgets itself.
abbrev pub forget_start : ℕ → Worker → Worker
forget_start g w = record w { starting = if is_at g w.starting then none else w.starting }

-- The events `error` and `close` of a child process.
unfoldable pub on_error : ℕ → Worker → Worker
on_error g w = recycle g start_error WorkerExitReason.unexpected (forget_start g w)

unfoldable pub on_close : ℕ → Worker → Worker
on_close g w =
    let gone = forget_start g (
      without_child g
        (update_generation g (λ r. record r { did_exit = true; idle_timer = false }) w)) in
    notify_exit g (fail_generation g exited gone)

-- `#send`: a promise that is pending, or rejected at once.
abbrev pub accepted : ℕ → String → Worker → Worker
accepted g id w = record w {
  pending = w.pending ++ record { id = id; generation = g; ticket = w.tickets } ∷ [];
  tickets = suc w.tickets;
}

abbrev pub exited_in : ℕ → Worker → Bool
exited_in g w = Table.exists (λ r. r.number == g && r.did_exit) w.generations

unfoldable pub send_to : ℕ → String → Bool → Worker → Worker × Option Failure
send_to g id allow_closed w =
    if negate allow_closed && w.is_closed
    then (w, some worker_closed)
    else if exited_in g w || negate (is_at g w.child)
    then (w, some not_running)
    else if Table.exists (λ p. str_eq p.id id) w.pending
    then (cancel_idle_retirement g w, some (already_pending id))
    else (accepted g id (cancel_idle_retirement g w), none)

abbrev pub send_child : String → Worker → Option ℕ → Worker × Option Failure
send_child id w none = (w, some not_running)
send_child id w (some g) = send_to g id false w

unfoldable pub send : String → Worker → Worker × Option Failure
send id w = if w.is_closed then (w, some worker_closed) else send_child id w w.child

-- A timer or the callback of a write, for the request of an identifier in a generation.
abbrev pub is_of : ℕ → Option Pending → Bool
is_of g none = false
is_of g (some p) = p.generation == g

unfoldable pub request_fails : Failure → String → ℕ → Worker → Worker
request_fails why id g w =
    if is_of g (Table.get (λ p. str_eq p.id id) w.pending)
    then recycle g why WorkerExitReason.unexpected w
    else w

-- The removal of the entry of an identifier.
unfoldable pub without : String → List Pending → List Pending
without id [] = []
without id (p ∷ ps) = let rest = without id ps in if str_eq p.id id then ps else p ∷ rest

-- `#scheduleIdleRetirement`
abbrev pub is_positive : Option ℕ → Bool
is_positive none = false
is_positive (some ms) = ltb 0 ms

abbrev pub schedule_idle_retirement : ℕ → Worker → Worker
schedule_idle_retirement g w =
    if is_at g w.child && is_positive w.idle_timeout_ms
    then update_generation g (λ r. record r { idle_timer = true }) w
    else w

unfoldable pub idle_timer_fires : ℕ → Worker → Worker
idle_timer_fires g w =
    let quiet = cancel_idle_retirement g w in
    if w.is_closed || negate (is_at g w.child)
    then quiet
    else if Table.exists (λ p. p.generation == g) w.pending
    then quiet
    else recycle g retired WorkerExitReason.idle quiet

-- `#dispatch`
abbrev pub answer : ℕ → WorkerResponse → Worker → Pending → Worker
answer g r w p = record w {
  pending = without r.id w.pending;
  settled = w.settled ++ record { request = p; outcome = answered g r } ∷ [];
}

abbrev pub respond : ℕ → WorkerResponse → Worker → Option Pending → Worker
respond g r w none = w
respond g r w (some p) =
    if p.generation == g
    then (if negate w.is_closed && negate r.shutdown
        then schedule_idle_retirement g (answer g r w p)
        else answer g r w p)
    else w

abbrev pub dispatch_decoded : ℕ → Worker → ProtocolError ⊎ WorkerResponse → Worker
dispatch_decoded g w (inl e) = w
dispatch_decoded g w (inr r) = respond g r w (Table.get (λ p. str_eq p.id r.id) w.pending)

unfoldable pub dispatch : ℕ → Parsed → Worker → Worker
dispatch g parsed w = dispatch_decoded g w (decode_response parsed)

-- `close`, between its awaits.
abbrev pub begin_close : Worker → Worker
begin_close w = record w { is_closed = true }

abbrev pub shut_down : String → Worker → Option ℕ → Worker
shut_down shutdown_id w none = w
shut_down shutdown_id w (some g) =
    (send_to g shutdown_id true (
      fail_generation g worker_closed (
        cancel_idle_retirement g (
          update_generation g (λ r. record r { exit_reason = some WorkerExitReason.closed }) w)))).0

unfoldable pub without_number : ℕ → List ℕ → List ℕ
without_number g [] = []
without_number g (h ∷ hs) = let rest = without_number g hs in if h == g then rest else h ∷ rest

-- The end of `#terminateAndJoin`.
unfoldable pub on_joined : ℕ → Worker → Worker
on_joined g w = record w {
  stopping = without_number g w.stopping;
  abandoned = if exited_in g w then w.abandoned else w.abandoned ++ g ∷ [];
}

unfoldable pub step : Worker → Event → Worker
step w (ensure spawns) = (ensure_started spawns w).0
step w (start_settled g) = forget_start g w
step w (fails g) = on_error g w
step w (exits g) = on_close g w
step w (idle_fires g) = idle_timer_fires g w
step w (joined g) = on_joined g w
step w (closing_stop g) = recycle g worker_closed WorkerExitReason.unexpected w
step w (sends id) = (send id w).0
step w (line g parsed) = dispatch g parsed w
step w (times_out id g) = request_fails timed_out id g w
step w (write_fails id g) = request_fails write_failed id g w
step w close_begins = begin_close w
step w close_ends = fail_all worker_closed w
step w (closing_shutdown id) = shut_down id w w.child

unfoldable pub run : Worker → List Event → Worker
run w [] = w
run w (e ∷ es) = run (step w e) es

-- A worker as the constructor makes it.
abbrev pub new_worker : Option ℕ → Worker
new_worker idle_timeout_ms = record {
  idle_timeout_ms = idle_timeout_ms;
  generations = [];
  child = none;
  starting = none;
  pending = [];
  stopping = [];
  next_generation = 0;
  is_closed = false;
  tickets = 0;
  settled = [];
  notified = [];
  abandoned = [];
}
