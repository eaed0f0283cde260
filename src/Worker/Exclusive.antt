-- ===== src/Worker/Exclusive.antt =====
-- One worker process at a time (class WorkerProcess of src/asr/worker-process.ts).
use Prim.Native.String.{String}
use text.Mathlib.Text.{◌==◌ as str_eq}
use openmurmur.Prelude.{
  ℕ, zero, suc, ◌≡◌, ◌⊎◌, inl, inr, refl, ap, subst, Bool, true, false, ◌&&◌, ◌||◌, negate, ◌==◌,
  Option, none, some, List, [], ◌∷◌, Bool-cases, arith, if◌then◌else◌,
}
use openmurmur.Table.{get, exists}
use openmurmur.Table.Existence.{exists-left, exists-last}
use openmurmur.Worker.Types.{
  WorkerExitReason, WorkerResponse, Parsed, ProtocolError, Failure, Pending, Worker, Event,
  StartResult, started, ensure, start_settled, fails, exits, idle_fires, joined, closing_stop,
  sends, line, times_out, write_fails, close_begins, close_ends, closing_shutdown, worker_closed,
  timed_out, write_failed, retired, refused,
}
use openmurmur.Worker.{
  spawned, spawn, start_anew, start_child, ensure_started, exited_in, send_to, send_child, send,
  is_of, request_fails, schedule_idle_retirement, idle_timer_fires, is_positive, answer, respond,
  dispatch_decoded, dispatch, shut_down, step, run, new_worker,
}
use openmurmur.Worker.Generation.{
  decode_response, is_at, fail_generation, fail_all, cancel_idle_retirement,
}
use openmurmur.Worker.Places.{
  Holds, HasExited, IsNumber, IsPlaced, Placed-still, cancel-IsPlaced, recycle-IsPlaced,
  on_error-IsPlaced, on_close-IsPlaced,
}
use openmurmur.Worker.Joins.{on_joined-IsPlaced}

branch : (b : Bool) (x y : Worker) → IsPlaced x → IsPlaced y → IsPlaced (if b then x else y)
branch true x y p q = p
branch false x y p q = q

module _ {B : Type 0} where
  branch_pair :
      (b : Bool) (x y : Worker × B) → IsPlaced x.0 → IsPlaced y.0 → IsPlaced (if b then x else y).0
  branch_pair true x y p q = p
  branch_pair false x y p q = q

send_to-IsPlaced :
    (g : ℕ) (id : String) (allow_closed : Bool) (w : Worker)
    → IsPlaced w
    → IsPlaced (send_to g id allow_closed w).0
unfolding send_to
send_to-IsPlaced g id allow_closed w a = branch_pair (negate allow_closed && w.is_closed) _ _ a (
    branch_pair (exited_in g w || negate (is_at g w.child)) _ _ a (
      branch_pair (exists (λ p. str_eq p.id id) w.pending) _ _ (cancel-IsPlaced w g a)
        (cancel-IsPlaced w g a)))

send_child-IsPlaced :
    (id : String) (w : Worker) (o : Option ℕ) → IsPlaced w → IsPlaced (send_child id w o).0
send_child-IsPlaced id w none a = a
send_child-IsPlaced id w (some g) a = send_to-IsPlaced g id false w a

send-IsPlaced : (id : String) (w : Worker) → IsPlaced w → IsPlaced (send id w).0
unfolding send
send-IsPlaced id w a = branch_pair w.is_closed _ _ a (send_child-IsPlaced id w w.child a)

request_fails-IsPlaced :
    (why : Failure) (id : String) (g : ℕ) (w : Worker)
    → IsPlaced w
    → IsPlaced (request_fails why id g w)
unfolding request_fails
request_fails-IsPlaced why id g w a =
    branch (is_of g (get (λ p. str_eq p.id id) w.pending)) _ _
      (recycle-IsPlaced g why WorkerExitReason.unexpected w a) a

idle_timer_fires-IsPlaced : (g : ℕ) (w : Worker) → IsPlaced w → IsPlaced (idle_timer_fires g w)
unfolding idle_timer_fires
idle_timer_fires-IsPlaced g w a =
    let quiet = cancel-IsPlaced w g a in
    branch (w.is_closed || negate (is_at g w.child)) _ _ quiet (
      branch (exists (λ p. p.generation == g) w.pending) _ _ quiet
        (recycle-IsPlaced g retired WorkerExitReason.idle (cancel_idle_retirement g w) quiet))

dispatch-IsPlaced :
    (g : ℕ) (parsed : Parsed) (w : Worker) → IsPlaced w → IsPlaced (dispatch g parsed w)
unfolding dispatch
dispatch-IsPlaced g parsed w a = decoded (decode_response parsed)
  where
    scheduled :
        (r : WorkerResponse) (p : Pending) → IsPlaced (schedule_idle_retirement g (answer g r w p))
    scheduled r p =
        branch (is_at g w.child && is_positive w.idle_timeout_ms) _ _
          (λ n h.
            Placed-still (λ r. record r { idle_timer = true }) (λ r. refl) (λ r e. e)
              (λ r. r.number == g) w.child w.generations w.stopping w.abandoned n (a n h))
          a

    responded : (r : WorkerResponse) (o : Option Pending) → IsPlaced (respond g r w o)
    responded r none = a
    responded r (some p) =
        branch (p.generation == g) _ _
          (branch (negate w.is_closed && negate r.shutdown) _ _ (scheduled r p) a) a

    decoded : (d : ProtocolError ⊎ WorkerResponse) → IsPlaced (dispatch_decoded g w d)
    decoded (inl e) = a
    decoded (inr r) = responded r (get (λ q. str_eq q.id r.id) w.pending)

shut_down-IsPlaced :
    (id : String) (w : Worker) (o : Option ℕ) → IsPlaced w → IsPlaced (shut_down id w o)
unfolding fail_generation
shut_down-IsPlaced id w none a = a
shut_down-IsPlaced id w (some g) a = send_to-IsPlaced g id true _ (λ n h.
    Placed-still (λ r. record r { idle_timer = false }) (λ r. refl) (λ r e. e) (λ r. r.number == g)
      w.child _ w.stopping w.abandoned n
      (Placed-still _ (λ r. refl) (λ r e. e) (λ r. r.number == g) w.child w.generations w.stopping
        w.abandoned n (a n h)))

-- Where every process is when none runs and none is being stopped.
abbrev pub IsOver : Worker → ℕ → Type 0
IsOver w n = HasExited w.generations n ⊎ Holds w.abandoned n

over :
    (w : Worker)
    → w.child ≡ none
    → w.stopping ≡ []
    → IsPlaced w
    → (n : ℕ) → IsNumber w.next_generation n
    → IsOver w n
unfolding exists
over w no_child no_stop a n h = elim ((a n h).1) [
  | inl e ↦ inl e
  | inr (inl e) ↦ absurd (cc)
  | inr (inr (inl e)) ↦
      absurd (let f : exists (λ m. m == n) [] ≡ true = subst (λ hs. Holds hs n) no_stop e in cc)
  | inr (inr (inr e)) ↦ inr e
]

spawned-IsPlaced :
    (w : Worker) → w.child ≡ none → w.stopping ≡ [] → IsPlaced w → IsPlaced (spawned w)
unfolding exists
spawned-IsPlaced w no_child no_stop a n h = elim (Bool-cases (n == suc w.next_generation)) [
  | inl new ↦
      let here : suc w.next_generation ≡ n = ground (arith, new) in
      (
        exists-last (λ r. r.number == n) w.generations _ (ground (arith, here)),
        inr (inl (ap some here)),
      )
  | inr old ↦
      let earlier : IsNumber w.next_generation n = ground (arith, old, h) in
      (
        exists-left (λ r. r.number == n) w.generations _ (a n earlier).0,
        still (over w no_child no_stop a n earlier),
      )
]
  where
    still :
        IsOver w n
        → HasExited (spawned w).generations n
          ⊎ ((some (suc w.next_generation) ≡ some n) ⊎ (Holds w.stopping n ⊎ Holds w.abandoned n))
    still (inl e) = inl (exists-left (λ r. r.number == n && r.did_exit) w.generations _ e)
    still (inr e) = inr (inr (inr e))

-- What a start does to the places, and that nothing else runs.
abbrev StartsAlone : Worker → Worker × StartResult → Type 0
StartsAlone w r =
    IsPlaced r.0 × (r.1 ≡ started → (n : ℕ) → IsNumber w.next_generation n → IsOver w n)

ensure-StartsAlone :
    (spawns : Bool) (w : Worker) → IsPlaced w → StartsAlone w (ensure_started spawns w)
unfolding ensure_started
ensure-StartsAlone spawns w a = both_ways w.is_closed
  where
    in_queue :
        (b : Bool) (hs : List ℕ) → w.child ≡ none → w.stopping ≡ hs → StartsAlone w (spawn b w hs)
    in_queue b (h ∷ hs) e s = (a, λ f. absurd (cc))
    in_queue false [] e s = (a, λ f. absurd (cc))
    in_queue true [] e s = (spawned-IsPlaced w e s a, λ f. over w e s a)

    anew : (o : Option ℕ) → w.child ≡ none → StartsAlone w (start_anew spawns w o)
    anew (some h) e = (a, λ f. absurd (cc))
    anew none e = in_queue spawns w.stopping e refl

    started_as : (o : Option ℕ) → w.child ≡ o → StartsAlone w (start_child spawns w o)
    started_as (some g) e = (cancel-IsPlaced w g a, λ f. absurd (cc))
    started_as none e = anew w.starting e

    both_ways :
        (b : Bool)
        → StartsAlone w (if b then (w, refused worker_closed) else start_child spawns w w.child)
    both_ways true = (a, λ f. absurd (cc))
    both_ways false = started_as w.child refl

step-IsPlaced : (w : Worker) (e : Event) → IsPlaced w → IsPlaced (step w e)
unfolding step fail_all
step-IsPlaced w (ensure spawns) a = (ensure-StartsAlone spawns w a).0
step-IsPlaced w (start_settled g) a = a
step-IsPlaced w (fails g) a = on_error-IsPlaced g w a
step-IsPlaced w (exits g) a = on_close-IsPlaced g w a
step-IsPlaced w (idle_fires g) a = idle_timer_fires-IsPlaced g w a
step-IsPlaced w (joined g) a = on_joined-IsPlaced g w a
step-IsPlaced w (closing_stop g) a =
    recycle-IsPlaced g worker_closed WorkerExitReason.unexpected w a
step-IsPlaced w (sends id) a = send-IsPlaced id w a
step-IsPlaced w (line g parsed) a = dispatch-IsPlaced g parsed w a
step-IsPlaced w (times_out id g) a = request_fails-IsPlaced timed_out id g w a
step-IsPlaced w (write_fails id g) a = request_fails-IsPlaced write_failed id g w a
step-IsPlaced w close_begins a = a
step-IsPlaced w close_ends a = a
step-IsPlaced w (closing_shutdown id) a = shut_down-IsPlaced id w w.child a

run-Placed : (w : Worker) (es : List Event) → IsPlaced w → IsPlaced (run w es)
unfolding run
run-Placed w [] a = a
run-Placed w (e ∷ es) a = run-Placed (step w e) es (step-IsPlaced w e a)

new-IsPlaced : (idle_timeout_ms : Option ℕ) → IsPlaced (new_worker idle_timeout_ms)
new-IsPlaced idle_timeout_ms zero h = absurd (cc)
new-IsPlaced idle_timeout_ms (suc n) h = absurd (ground (arith, h))

-- Whatever happened before, a process is started only when each process that was started earlier has
-- exited, or was still alive after the last wait of its termination.
pub starts_alone :
    (idle_timeout_ms : Option ℕ) (es : List Event) (n : ℕ)
    → (ensure_started true (run (new_worker idle_timeout_ms) es)).1 ≡ started
    → IsNumber (run (new_worker idle_timeout_ms) es).next_generation n
    → IsOver (run (new_worker idle_timeout_ms) es) n
starts_alone idle_timeout_ms es n at h =
    (ensure-StartsAlone true (run (new_worker idle_timeout_ms) es)
        (run-Placed (new_worker idle_timeout_ms) es (new-IsPlaced idle_timeout_ms))).1
      at n h
