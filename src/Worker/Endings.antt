-- ===== src/Worker/Endings.antt =====
-- The end of a process of class WorkerProcess (src/asr/worker-process.ts), and that it does not run
-- afterwards.
use Prim.Native.String.{String}
use text.Mathlib.Text.{◌==◌ as str_eq}
use openmurmur.Prelude.{
  ℕ, ◌≡◌, inl, inr, refl, sym, subst, Bool, true, false, ◌&&◌, ◌||◌, negate, ◌==◌, leb, Option,
  none, some, List, [], ◌∷◌, Bool-cases, arith,
}
use openmurmur.Table.{get, exists}
use openmurmur.Worker.Types.{
  WorkerExitReason, WorkerGeneration, Failure, Worker, Event, ensure, start_settled, fails, exits,
  idle_fires, joined, closing_stop, sends, line, times_out, write_fails, close_begins, close_ends,
  closing_shutdown, worker_closed, timed_out, write_failed, retired, start_error,
}
use openmurmur.Worker.{
  is_of, request_fails, idle_timer_fires, step, run, forget_start, on_error, on_close,
}
use openmurmur.Worker.Generation.{
  is_at, fail_generation, cancel_idle_retirement, notify, notify_exit, recycle,
}
use openmurmur.Worker.Parted.{IsParted, dropped_self, step-IsParted, run-IsParted}

-- Whether the event ends process `g`, once that was started: it fails, exits, is stopped by `close`
-- or is retired, or a request that waits on it times out or cannot be written.
abbrev pub ends : Worker → Event → ℕ → Bool
ends w (fails h) g = h == g && leb g w.next_generation
ends w (exits h) g = h == g && leb g w.next_generation
ends w (closing_stop h) g = h == g && leb g w.next_generation
ends w (idle_fires h) g =
    h == g
    && leb g w.next_generation
    && (negate w.is_closed
        && (is_at h w.child && negate (exists (λ p. p.generation == h) w.pending)))
ends w (times_out id h) g =
    h == g && leb g w.next_generation && is_of h (get (λ p. str_eq p.id id) w.pending)
ends w (write_fails id h) g =
    h == g && leb g w.next_generation && is_of h (get (λ p. str_eq p.id id) w.pending)
ends w _ g = false

-- Whether one of the events ends process `g`.
unfoldable pub has_ended : Worker → List Event → ℕ → Bool
has_ended w [] g = false
has_ended w (e ∷ es) g = let rest = has_ended (step w e) es g in ends w e g || rest

-- Process `g` was started and does not run.
abbrev IsOff : ℕ → Worker → Type 0
IsOff g w = (leb g w.next_generation ≡ true) × (is_at g w.child ≡ false)

-- None of the processes that are being stopped runs.
abbrev pub AllApart : Worker → Type 0
AllApart w = IsParted (λ g. ⊥) w

notify_same :
    (w : Worker) (g h : ℕ) (o : Option WorkerGeneration) → IsOff g w → IsOff g (notify w h o)
notify_same w g h none k = k
notify_same w g h (some r) k = elim (Bool-cases r.exit_notified) [ inl e ↦ rw e k | inr e ↦ rw e k ]

recycle-IsOff :
    (g : ℕ) (why : Failure) (reason : WorkerExitReason) (w : Worker)
    → AllApart w
    → leb g w.next_generation ≡ true
    → IsOff g (recycle g why reason w)
unfolding recycle fail_generation notify_exit
recycle-IsOff g why reason w a l = elim (Bool-cases (exists (λ h. h == g) w.stopping)) [
  | inl e ↦ rw e (l, a.apart g e)
  | inr e ↦ rw e (notify_same _ g g _ (l, dropped_self w.child g))
]

on_close-IsOff : (g : ℕ) (w : Worker) → leb g w.next_generation ≡ true → IsOff g (on_close g w)
unfolding on_close fail_generation notify_exit
on_close-IsOff g w l = notify_same _ g g _ (l, dropped_self w.child g)

request_fails-IsOff :
    (why : Failure) (id : String) (h g : ℕ) (w : Worker)
    → AllApart w
    → (h == g && leb g w.next_generation && is_of h (get (λ p. str_eq p.id id) w.pending)) ≡ true
    → IsOff g (request_fails why id h w)
unfolding request_fails
request_fails-IsOff why id h g w a e =
    let same : h ≡ g = ground (arith, e) in
    let waits : is_of h (get (λ p. str_eq p.id id) w.pending) ≡ true = ground (arith, e) in
    rw (waits, same) (recycle-IsOff g why WorkerExitReason.unexpected w a (ground (arith, e)))

-- An event that ends a process leaves it not running.
ends-IsOff : (w : Worker) (e : Event) (g : ℕ) → AllApart w → ends w e g ≡ true → IsOff g (step w e)
unfolding step on_error idle_timer_fires
ends-IsOff w (fails h) g a e =
    let same : h ≡ g = ground (arith, e) in
    rw same (
      recycle-IsOff g start_error WorkerExitReason.unexpected (forget_start g w) a
        (ground (arith, e)))
ends-IsOff w (exits h) g a e =
    let same : h ≡ g = ground (arith, e) in rw same (on_close-IsOff g w (ground (arith, e)))
ends-IsOff w (closing_stop h) g a e =
    let same : h ≡ g = ground (arith, e) in
    rw same (recycle-IsOff g worker_closed WorkerExitReason.unexpected w a (ground (arith, e)))
ends-IsOff w (idle_fires h) g a e =
    let same : h ≡ g = ground (arith, e) in
    let quiet : (w.is_closed || negate (is_at h w.child)) ≡ false = ground (arith, e) in
    let free : exists (λ p. p.generation == h) w.pending ≡ false = ground (arith, e) in
    rw (quiet, free, same)
      (recycle-IsOff g retired WorkerExitReason.idle (cancel_idle_retirement g w) a
        (ground (arith, e)))
ends-IsOff w (times_out id h) g a e = request_fails-IsOff timed_out id h g w a e
ends-IsOff w (write_fails id h) g a e = request_fails-IsOff write_failed id h g w a e
ends-IsOff w (ensure spawns) g a e = absurd (cc)
ends-IsOff w (start_settled h) g a e = absurd (cc)
ends-IsOff w (joined h) g a e = absurd (cc)
ends-IsOff w (sends id) g a e = absurd (cc)
ends-IsOff w (line h parsed) g a e = absurd (cc)
ends-IsOff w close_begins g a e = absurd (cc)
ends-IsOff w close_ends g a e = absurd (cc)
ends-IsOff w (closing_shutdown id) g a e = absurd (cc)

-- From the end on it stays so.
stays-IsOff : (w : Worker) (es : List Event) (g : ℕ) → AllApart w → IsOff g w → IsOff g (run w es)
stays-IsOff w es g a k =
    (run-IsParted (λ h. h ≡ g) w es
        (record { off = λ h e. subst (λ m. IsOff m w) (sym e) k; apart = a.apart })).off
      g refl

pub has_ended-IsOff :
    (w : Worker) (es : List Event) (g : ℕ)
    → AllApart w
    → has_ended w es g ≡ true
    → is_at g (run w es).child ≡ false
unfolding run has_ended
has_ended-IsOff w [] g a e = absurd (cc)
has_ended-IsOff w (e ∷ es) g a h =
    let apart = step-IsParted (λ g. ⊥) w e a in
    elim (Bool-cases (ends w e g)) [
      | inl k ↦ (stays-IsOff (step w e) es g apart (ends-IsOff w e g a k)).1
      | inr k ↦ has_ended-IsOff (step w e) es g apart (ground (arith, h, k))
    ]
