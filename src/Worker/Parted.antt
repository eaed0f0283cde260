-- ===== src/Worker/Parted.antt =====
-- The processes of class WorkerProcess (src/asr/worker-process.ts) that have been ended never run again.
use Prim.Native.String.{String}
use text.Mathlib.Text.{◌==◌ as str_eq}
use openmurmur.Prelude.{
  ℕ, suc, ◌≡◌, ◌⊎◌, inl, inr, refl, sym, subst, Bool, true, false, ◌&&◌, ◌||◌, negate, ◌==◌, leb,
  Option, none, some, List, [], ◌∷◌, ◌++◌, Bool-cases, arith, if◌then◌else◌,
}
use openmurmur.Table.{get, exists}
use openmurmur.Worker.Types.{
  WorkerExitReason, WorkerResponse, ProtocolError, Failure, Pending, Worker, Event,
  WorkerGeneration, ensure, start_settled, fails, exits, idle_fires, joined, closing_stop, sends,
  line, times_out, write_fails, close_begins, close_ends, closing_shutdown, worker_closed,
  timed_out, write_failed, retired, start_error,
}
use openmurmur.Worker.{
  spawn, start_anew, start_child, ensure_started, exited_in, send_to, send_child, send, is_of,
  request_fails, idle_timer_fires, is_positive, respond, dispatch_decoded, dispatch, shut_down,
  step, run, without_number, forget_start, on_error, on_close, on_joined,
}
use openmurmur.Worker.Generation.{
  decode_response, is_at, fail_generation, fail_all, cancel_idle_retirement, notify, notify_exit,
  recycle,
}
use openmurmur.Worker.Places.{Holds}

-- The processes of `E` were started and do not run, and none that is being stopped runs.
pub record Parted (E : ℕ → Type 0) (child : Option ℕ) (last : ℕ) (stopping : List ℕ) : Type 0 where
  pub off : (g : ℕ) → E g → (leb g last ≡ true) × (is_at g child ≡ false)
  pub apart : (g : ℕ) → Holds stopping g → is_at g child ≡ false

dropped :
    (child : Option ℕ) (g h : ℕ)
    → is_at g child ≡ false
    → is_at g (if is_at h child then none else child) ≡ false
dropped none g h e = refl
dropped (some c) g h e = elim (Bool-cases (h == c)) [ inl k ↦ rw k refl | inr k ↦ rw k e ]

pub dropped_self :
    (child : Option ℕ) (g : ℕ) → is_at g (if is_at g child then none else child) ≡ false
dropped_self none g = refl
dropped_self (some c) g = elim (Bool-cases (g == c)) [ inl k ↦ rw k refl | inr k ↦ rw k k ]

last_or_earlier : (hs : List ℕ) (h g : ℕ) → Holds (hs ++ h ∷ []) g → Holds hs g ⊎ (h ≡ g)
unfolding exists
last_or_earlier [] h g e = inr (ground (arith, e))
last_or_earlier (k ∷ hs) h g e = elim (Bool-cases (k == g)) [
  | inl s ↦ inl (rw s refl)
  | inr s ↦ elim (last_or_earlier hs h g (ground (arith, e, s))) [
    | inl there ↦ inl (rw (s, there) refl)
    | inr same ↦ inr same
  ]
]

without_number-Holds : (h : ℕ) (hs : List ℕ) (g : ℕ) → Holds (without_number h hs) g → Holds hs g
unfolding exists without_number
without_number-Holds h [] g e = e
without_number-Holds h (k ∷ hs) g e = elim (Bool-cases (k == h)) [
  | inl s ↦ let later = without_number-Holds h hs g (rw s at e) in ground (arith, later)
  | inr s ↦ elim (Bool-cases (k == g)) [
    | inl t ↦ rw t refl
    | inr t ↦
        let later = without_number-Holds h hs g (ground (arith, t, rw s at e)) in rw (t, later) refl
  ]
]

module _ (E : ℕ → Type 0) where
  abbrev pub IsParted : Worker → Type 0
  IsParted w = Parted E w.child w.next_generation w.stopping

  drop-Parted :
      (child : Option ℕ) (last : ℕ) (stopping : List ℕ) (h : ℕ)
      → Parted E child last stopping
      → Parted E (if is_at h child then none else child) last stopping
  drop-Parted child last stopping h a = record {
    off = λ g e. ((a.off g e).0, dropped child g h (a.off g e).1);
    apart = λ g e. dropped child g h (a.apart g e);
  }

  stop-Parted :
      (child : Option ℕ) (last : ℕ) (stopping : List ℕ) (h : ℕ)
      → Parted E child last stopping
      → Parted E (if is_at h child then none else child) last (stopping ++ h ∷ [])
  stop-Parted child last stopping h a = record {
    off = λ g e. ((a.off g e).0, dropped child g h (a.off g e).1);
    apart = λ g e. elim (last_or_earlier stopping h g e) [
      | inl there ↦ dropped child g h (a.apart g there)
      | inr same ↦
          subst (λ k. is_at k (if is_at h child then none else child) ≡ false) same
            (dropped_self child h)
    ];
  }

  notify-IsParted :
      (w : Worker) (g : ℕ) (o : Option WorkerGeneration) → IsParted w → IsParted (notify w g o)
  notify-IsParted w g none a = a
  notify-IsParted w g (some r) a = elim (Bool-cases r.exit_notified) [
    | inl e ↦ rw e a
    | inr e ↦ rw e a
  ]

  recycle-IsParted :
      (g : ℕ) (why : Failure) (reason : WorkerExitReason) (w : Worker)
      → IsParted w
      → IsParted (recycle g why reason w)
  unfolding recycle fail_generation notify_exit
  recycle-IsParted g why reason w a = elim (Bool-cases (exists (λ h. h == g) w.stopping)) [
    | inl e ↦ rw e a
    | inr e ↦ rw e (notify-IsParted _ g _ (stop-Parted w.child w.next_generation w.stopping g a))
  ]

  on_close-IsParted : (g : ℕ) (w : Worker) → IsParted w → IsParted (on_close g w)
  unfolding on_close fail_generation notify_exit
  on_close-IsParted g w a =
      notify-IsParted _ g _ (drop-Parted w.child w.next_generation w.stopping g a)

  branch : (b : Bool) (x y : Worker) → IsParted x → IsParted y → IsParted (if b then x else y)
  branch true x y p q = p
  branch false x y p q = q

  module _ {B : Type 0} where
    branch_pair :
        (b : Bool) (x y : Worker × B)
        → IsParted x.0
        → IsParted y.0
        → IsParted (if b then x else y).0
    branch_pair true x y p q = p
    branch_pair false x y p q = q

  send_to-IsParted :
      (g : ℕ) (id : String) (allow_closed : Bool) (w : Worker)
      → IsParted w
      → IsParted (send_to g id allow_closed w).0
  unfolding send_to
  send_to-IsParted g id allow_closed w a = branch_pair (negate allow_closed && w.is_closed) _ _ a (
      branch_pair (exited_in g w || negate (is_at g w.child)) _ _ a
        (branch_pair (exists (λ p. str_eq p.id id) w.pending) _ _ a a))

  send_child-IsParted :
      (id : String) (w : Worker) (o : Option ℕ) → IsParted w → IsParted (send_child id w o).0
  send_child-IsParted id w none a = a
  send_child-IsParted id w (some g) a = send_to-IsParted g id false w a

  send-IsParted : (id : String) (w : Worker) → IsParted w → IsParted (send id w).0
  unfolding send
  send-IsParted id w a = branch_pair w.is_closed _ _ a (send_child-IsParted id w w.child a)

  request_fails-IsParted :
      (why : Failure) (id : String) (g : ℕ) (w : Worker)
      → IsParted w
      → IsParted (request_fails why id g w)
  unfolding request_fails
  request_fails-IsParted why id g w a =
      branch (is_of g (get (λ p. str_eq p.id id) w.pending)) _ _
        (recycle-IsParted g why WorkerExitReason.unexpected w a) a

  idle_timer_fires-IsParted : (g : ℕ) (w : Worker) → IsParted w → IsParted (idle_timer_fires g w)
  unfolding idle_timer_fires
  idle_timer_fires-IsParted g w a = branch (w.is_closed || negate (is_at g w.child)) _ _ a (
      branch (exists (λ p. p.generation == g) w.pending) _ _ a
        (recycle-IsParted g retired WorkerExitReason.idle (cancel_idle_retirement g w) a))

  respond-IsParted :
      (g : ℕ) (r : WorkerResponse) (w : Worker) (o : Option Pending)
      → IsParted w
      → IsParted (respond g r w o)
  respond-IsParted g r w none a = a
  respond-IsParted g r w (some p) a =
      branch (p.generation == g) _ _
        (branch (negate w.is_closed && negate r.shutdown) _ _
          (branch (is_at g w.child && is_positive w.idle_timeout_ms) _ _ a a) a)
        a

  decoded-IsParted :
      (g : ℕ) (w : Worker) (d : ProtocolError ⊎ WorkerResponse)
      → IsParted w
      → IsParted (dispatch_decoded g w d)
  decoded-IsParted g w (inl e) a = a
  decoded-IsParted g w (inr r) a = respond-IsParted g r w (get (λ q. str_eq q.id r.id) w.pending) a

  shut_down-IsParted :
      (id : String) (w : Worker) (o : Option ℕ) → IsParted w → IsParted (shut_down id w o)
  unfolding fail_generation
  shut_down-IsParted id w none a = a
  shut_down-IsParted id w (some g) a = send_to-IsParted g id true _ a

  -- A new process has a number of its own, and starts when none is being stopped.
  start-Parted : (last : ℕ) → Parted E none last [] → Parted E (some (suc last)) (suc last) []
  unfolding exists
  start-Parted last a = record {
    off = λ g e. let early = (a.off g e).0 in (ground (arith, early), ground (arith, early));
    apart = λ g e. absurd (cc);
  }

  ensure-IsParted : (spawns : Bool) (w : Worker) → IsParted w → IsParted (ensure_started spawns w).0
  unfolding ensure_started
  ensure-IsParted spawns w a = branch_pair w.is_closed _ _ a (started_as w.child refl)
    where
      in_queue :
          (b : Bool) (hs : List ℕ) → w.child ≡ none → w.stopping ≡ hs → IsParted (spawn b w hs).0
      in_queue b (h ∷ hs) e s = a
      in_queue false [] e s = a
      in_queue true [] e s =
          let quiet = subst (λ c. Parted E c w.next_generation w.stopping) e a in
          subst (λ hs. Parted E (some (suc w.next_generation)) (suc w.next_generation) hs) (sym s)
            (start-Parted w.next_generation
              (subst (λ hs. Parted E none w.next_generation hs) s quiet))

      anew : (o : Option ℕ) → w.child ≡ none → IsParted (start_anew spawns w o).0
      anew (some h) e = a
      anew none e = in_queue spawns w.stopping e refl

      started_as : (o : Option ℕ) → w.child ≡ o → IsParted (start_child spawns w o).0
      started_as (some g) e = a
      started_as none e = anew w.starting e

  join-Parted : (w : Worker) (g : ℕ) → IsParted w → IsParted (on_joined g w)
  unfolding on_joined
  join-Parted w g a = record {
    off = a.off;
    apart = λ h e. a.apart h (without_number-Holds g w.stopping h e);
  }

  pub step-IsParted : (w : Worker) (e : Event) → IsParted w → IsParted (step w e)
  unfolding step fail_all on_error dispatch
  step-IsParted w (ensure spawns) a = ensure-IsParted spawns w a
  step-IsParted w (start_settled g) a = a
  step-IsParted w (fails g) a =
      recycle-IsParted g start_error WorkerExitReason.unexpected (forget_start g w) a
  step-IsParted w (exits g) a = on_close-IsParted g w a
  step-IsParted w (idle_fires g) a = idle_timer_fires-IsParted g w a
  step-IsParted w (joined g) a = join-Parted w g a
  step-IsParted w (closing_stop g) a =
      recycle-IsParted g worker_closed WorkerExitReason.unexpected w a
  step-IsParted w (sends id) a = send-IsParted id w a
  step-IsParted w (line g parsed) a = decoded-IsParted g w (decode_response parsed) a
  step-IsParted w (times_out id g) a = request_fails-IsParted timed_out id g w a
  step-IsParted w (write_fails id g) a = request_fails-IsParted write_failed id g w a
  step-IsParted w close_begins a = a
  step-IsParted w close_ends a = a
  step-IsParted w (closing_shutdown id) a = shut_down-IsParted id w w.child a

  pub run-IsParted : (w : Worker) (es : List Event) → IsParted w → IsParted (run w es)
  unfolding run
  run-IsParted w [] a = a
  run-IsParted w (e ∷ es) a = run-IsParted (step w e) es (step-IsParted w e a)
