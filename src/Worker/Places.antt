-- ===== src/Worker/Places.antt =====
-- Where the processes are that class WorkerProcess (src/asr/worker-process.ts) started: running, being
-- stopped, exited or given up.
use openmurmur.Prelude.{
  ℕ, ◌≡◌, ◌⊎◌, inl, inr, refl, ap, ◌∙◌, Bool, true, false, ◌&&◌, ◌==◌, ltb, leb, Option, none, some,
  List, [], ◌∷◌, ◌++◌, Bool-cases, arith, if◌then◌else◌,
}
use openmurmur.Table.{get, exists, update}
use openmurmur.Table.Existence.{exists-update, exists-left, exists-last, exists-set}
use openmurmur.Worker.Types.{WorkerExitReason, Failure, WorkerGeneration, Worker, start_error}
use openmurmur.Worker.{forget_start, on_error, on_close}
use openmurmur.Worker.Generation.{
  is_at, fail_generation, notify, notify_exit, recycle, cancel_idle_retirement,
}
use openmurmur.Worker.Counts.{still_child}

abbrev pub Holds : List ℕ → ℕ → Type 0
Holds hs n = exists (λ h. h == n) hs ≡ true

abbrev pub IsKnown : List WorkerGeneration → ℕ → Type 0
IsKnown rows n = exists (λ r. r.number == n) rows ≡ true

abbrev pub HasExited : List WorkerGeneration → ℕ → Type 0
HasExited rows n = exists (λ r. r.number == n && r.did_exit) rows ≡ true

abbrev pub Placed : Option ℕ → List WorkerGeneration → List ℕ → List ℕ → ℕ → Type 0
Placed child rows stopping abandoned n =
    IsKnown rows n
    × (HasExited rows n ⊎ ((child ≡ some n) ⊎ (Holds stopping n ⊎ Holds abandoned n)))

abbrev pub IsNumber : ℕ → ℕ → Type 0
IsNumber last n = (ltb 0 n && leb n last) ≡ true

-- Each process that was started has exited, is the one that runs, is being stopped, or outlived
-- SIGKILL.
abbrev pub IsPlaced : Worker → Type 0
IsPlaced w =
    (n : ℕ) → IsNumber w.next_generation n → Placed w.child w.generations w.stopping w.abandoned n

-- The number and the exit of a generation survive a change of its other fields.
module _ (set : WorkerGeneration → WorkerGeneration)
    (same : (r : WorkerGeneration) → (set r).number ≡ r.number)
    (stays : (r : WorkerGeneration) → r.did_exit ≡ true → (set r).did_exit ≡ true) where
  IsKnown-still :
      (sel : WorkerGeneration → Bool) (rows : List WorkerGeneration) (n : ℕ)
      → IsKnown rows n
      → IsKnown (update sel set rows) n
  IsKnown-still sel rows n h =
      exists-update (λ r. r.number == n) sel set rows (λ r e. ap (λ m. m == n) (same r) ∙ e) h

  HasExited-still :
      (sel : WorkerGeneration → Bool) (rows : List WorkerGeneration) (n : ℕ)
      → HasExited rows n
      → HasExited (update sel set rows) n
  HasExited-still sel rows n h =
      exists-update (λ r. r.number == n && r.did_exit) sel set rows
        (λ r e.
          rw
            (
              same r,
              both_left (r.number == n) r.did_exit e,
              stays r (both_right (r.number == n) r.did_exit e),
            )
            refl)
        h
    where
      both_left : (a b : Bool) → (a && b) ≡ true → a ≡ true
      both_left true b h = refl
      both_left false b h = h

      both_right : (a b : Bool) → (a && b) ≡ true → b ≡ true
      both_right true b h = h
      both_right false b h = absurd (cc)

  pub Placed-still :
      (sel : WorkerGeneration → Bool) (child : Option ℕ) (rows : List WorkerGeneration)
      (stopping abandoned : List ℕ) (n : ℕ)
      → Placed child rows stopping abandoned n
      → Placed child (update sel set rows) stopping abandoned n
  Placed-still sel child rows stopping abandoned n (known, inl e) =
      (IsKnown-still sel rows n known, inl (HasExited-still sel rows n e))
  Placed-still sel child rows stopping abandoned n (known, inr h) =
      (IsKnown-still sel rows n known, inr h)

notify-IsPlaced :
    (w : Worker) (g : ℕ) (o : Option WorkerGeneration) → IsPlaced w → IsPlaced (notify w g o)
notify-IsPlaced w g none a = a
notify-IsPlaced w g (some r) a = elim (Bool-cases r.exit_notified) [
  | inl e ↦ rw e a
  | inr e ↦ rw e (λ n h.
      Placed-still (λ r. record r { exit_notified = true }) (λ r. refl) (λ r e. e)
        (λ r. r.number == g) w.child w.generations w.stopping w.abandoned n (a n h))
]

notify_exit-IsPlaced : (w : Worker) (g : ℕ) → IsPlaced w → IsPlaced (notify_exit g w)
unfolding notify_exit
notify_exit-IsPlaced w g a = notify-IsPlaced w g (get (λ r. r.number == g) w.generations) a

pub cancel-IsPlaced : (w : Worker) (g : ℕ) → IsPlaced w → IsPlaced (cancel_idle_retirement g w)
cancel-IsPlaced w g a n h =
    Placed-still (λ r. record r { idle_timer = false }) (λ r. refl) (λ r e. e) (λ r. r.number == g)
      w.child w.generations w.stopping w.abandoned n (a n h)

-- What a child loses when its generation is stopped is where the generation goes.
leaves :
    (child : Option ℕ) (rows : List WorkerGeneration) (stopping abandoned : List ℕ) (g n : ℕ)
    → Placed child rows stopping abandoned n
    → Placed (if is_at g child then none else child) rows (stopping ++ g ∷ []) abandoned n
leaves child rows stopping abandoned g n (known, inl e) = (known, inl e)
leaves child rows stopping abandoned g n (known, inr (inl e)) = elim (Bool-cases (n == g)) [
  | inl same ↦
      let here : g ≡ n = ground (arith, same) in
      (known, inr (inr (inl (exists-last (λ h. h == n) stopping g (ground (arith, here))))))
  | inr other ↦ (known, inr (inl (still_child child g n other e)))
]
leaves child rows stopping abandoned g n (known, inr (inr (inl e))) =
    (known, inr (inr (inl (exists-left (λ h. h == n) stopping (g ∷ []) e))))
leaves child rows stopping abandoned g n (known, inr (inr (inr e))) = (known, inr (inr (inr e)))

pub recycle-IsPlaced :
    (g : ℕ) (why : Failure) (reason : WorkerExitReason) (w : Worker)
    → IsPlaced w
    → IsPlaced (recycle g why reason w)
unfolding recycle fail_generation
recycle-IsPlaced g why reason w a = elim (Bool-cases (exists (λ h. h == g) w.stopping)) [
  | inl e ↦ rw e a
  | inr e ↦ rw e (
      notify_exit-IsPlaced _ g (λ n h. leaves w.child _ w.stopping w.abandoned g n (
        Placed-still (λ r. record r { idle_timer = false }) (λ r. refl) (λ r e. e)
          (λ r. r.number == g) w.child _ w.stopping w.abandoned n
          (Placed-still _ (λ r. refl) (λ r e. e) (λ r. r.number == g) w.child w.generations
            w.stopping w.abandoned n (a n h)))))
]

pub on_error-IsPlaced : (g : ℕ) (w : Worker) → IsPlaced w → IsPlaced (on_error g w)
unfolding on_error
on_error-IsPlaced g w a =
    recycle-IsPlaced g start_error WorkerExitReason.unexpected (forget_start g w) a

-- The generation whose child closes has exited.
closes :
    (w : Worker) (g n : ℕ)
    → Placed w.child w.generations w.stopping w.abandoned n
    → Placed
        (if is_at g w.child then none else w.child)
        (update
          (λ r. r.number == g)
          (λ r. record r { did_exit = true; idle_timer = false })
          w.generations)
        w.stopping
        w.abandoned
        n
closes w g n (known, placed) = elim (Bool-cases (n == g)) [
  | inl same ↦ (
    IsKnown-still (λ r. record r { did_exit = true; idle_timer = false }) (λ r. refl) (λ r e. refl)
        (λ r. r.number == g) w.generations n known,
    inl (
        exists-set (λ r. r.number == n) (λ r. r.number == g) (λ r. r.number == n && r.did_exit)
          (λ r. record r { did_exit = true; idle_timer = false }) w.generations
          (λ r e. (ground (arith, same, e), rw e refl)) known),
  )
  | inr other ↦
      Placed-still (λ r. record r { did_exit = true; idle_timer = false }) (λ r. refl) (λ r e. refl)
        (λ r. r.number == g) _ w.generations w.stopping w.abandoned n
        (known, elsewhere other placed)
]
  where
    elsewhere :
        (n == g) ≡ false
        → HasExited w.generations n
          ⊎ ((w.child ≡ some n) ⊎ (Holds w.stopping n ⊎ Holds w.abandoned n))
        → HasExited w.generations n
          ⊎ (((if is_at g w.child then none else w.child) ≡ some n)
              ⊎ (Holds w.stopping n ⊎ Holds w.abandoned n))
    elsewhere other (inl e) = inl e
    elsewhere other (inr (inl e)) = inr (inl (still_child w.child g n other e))
    elsewhere other (inr (inr e)) = inr (inr e)

pub on_close-IsPlaced : (g : ℕ) (w : Worker) → IsPlaced w → IsPlaced (on_close g w)
unfolding on_close fail_generation
on_close-IsPlaced g w a = notify_exit-IsPlaced _ g (λ n h. closes w g n (a n h))
