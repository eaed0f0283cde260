-- ===== src/Worker/Counts.antt =====
-- How often the requests of class WorkerProcess (src/asr/worker-process.ts) wait and are settled.
use openmurmur.Prelude.{
  ℕ, ◌+◌, ◌≡◌, inl, inr, refl, ap, Bool, true, false, ◌==◌, ltb, Option, none, some, List, [], ◌∷◌,
  ◌++◌, All, Bool-cases, arith, if◌then◌else◌,
}
use openmurmur.Table.Laws.{append-All}
use openmurmur.Worker.Types.{Failure, Pending, Outcome, Settled, Worker, answered, failed}
use openmurmur.Worker.Generation.{is_at, failing, staying, rejected}

abbrev pub one : Bool → ℕ
one true = 1
one false = 0

-- How often a ticket was settled, and how often it waits.
abbrev pub settled_times : ℕ → List Settled → ℕ
settled_times t [] = 0
settled_times t (s ∷ ss) = one (s.request.ticket == t) + settled_times t ss

abbrev pub waiting_times : ℕ → List Pending → ℕ
waiting_times t [] = 0
waiting_times t (p ∷ ps) = one (p.ticket == t) + waiting_times t ps

-- An answer has the identifier of its request and came from the process the request was sent to.
abbrev pub IsOwnAnswer : Settled → Type 0
IsOwnAnswer s = Own s.request s.outcome
  where
    Own : Pending → Outcome → Type 0
    Own p (answered g r) = (g ≡ p.generation) × (r.id ≡ p.id)
    Own p (failed why) = Unit

pub record Accounts (child : Option ℕ) (ps : List Pending) (n : ℕ) (ss : List Settled)
    : Type 0 where
  pub waits : All (λ p. child ≡ some p.generation) ps
  pub once : (t : ℕ) → settled_times t ss + waiting_times t ps ≡ one (ltb t n)
  pub answers : All IsOwnAnswer ss

-- Each request that was accepted was settled once or waits once, and it waits on the running process.
abbrev pub IsAccounted : Worker → Type 0
IsAccounted w = Accounts w.child w.pending w.tickets w.settled

pub settled_times-append :
    (t : ℕ) (a b : List Settled) → settled_times t (a ++ b) ≡ settled_times t a + settled_times t b
settled_times-append t [] b = omega arith
settled_times-append t (s ∷ a) b = omega (arith, settled_times-append t a b)

pub waiting_times-append :
    (t : ℕ) (a b : List Pending) → waiting_times t (a ++ b) ≡ waiting_times t a + waiting_times t b
waiting_times-append t [] b = omega arith
waiting_times-append t (p ∷ a) b = omega (arith, waiting_times-append t a b)

failing_times :
    (t : ℕ) (why : Failure) (g : ℕ) (ps : List Pending)
    → settled_times t (failing why g ps) + waiting_times t (staying g ps) ≡ waiting_times t ps
unfolding failing staying
failing_times t why g [] = refl
failing_times t why g (p ∷ ps) = elim (Bool-cases (p.generation == g)) [
  | inl e ↦ rw e (omega (arith, failing_times t why g ps))
  | inr e ↦ rw e (omega (arith, failing_times t why g ps))
]

pub rejected_times :
    (t : ℕ) (why : Failure) (ps : List Pending)
    → settled_times t (rejected why ps) ≡ waiting_times t ps
rejected_times t why [] = refl
rejected_times t why (p ∷ ps) = ap (λ n. one (p.ticket == t) + n) (rejected_times t why ps)

failing-All : (why : Failure) (g : ℕ) (ps : List Pending) → All IsOwnAnswer (failing why g ps)
unfolding failing
failing-All why g [] = tt
failing-All why g (p ∷ ps) = elim (Bool-cases (p.generation == g)) [
  | inl e ↦ rw e (tt, failing-All why g ps)
  | inr e ↦ rw e (failing-All why g ps)
]

pub rejected-All : (why : Failure) (ps : List Pending) → All IsOwnAnswer (rejected why ps)
rejected-All why [] = tt
rejected-All why (p ∷ ps) = (tt, rejected-All why ps)

staying-All :
    (P Q : Pending → Type 0) (g : ℕ) (ps : List Pending)
    → ((p : Pending) → (p.generation == g) ≡ false → P p → Q p)
    → All P ps
    → All Q (staying g ps)
unfolding staying
staying-All P Q g [] f h = tt
staying-All P Q g (p ∷ ps) f (q, h) = elim (Bool-cases (p.generation == g)) [
  | inl e ↦ rw e (staying-All P Q g ps f h)
  | inr e ↦ rw e (f p e q, staying-All P Q g ps f h)
]

-- The requests of a generation fail, with a child that the others still wait on.
pub fail-Accounts :
    (child left : Option ℕ) (ps : List Pending) (n : ℕ) (ss : List Settled) (g : ℕ) (why : Failure)
    → ((p : Pending)
        → (p.generation == g) ≡ false
        → child ≡ some p.generation
        → left ≡ some p.generation)
    → Accounts child ps n ss
    → Accounts left (staying g ps) n (ss ++ failing why g ps)
fail-Accounts child left ps n ss g why keep a = record {
  waits = staying-All _ (λ p. left ≡ some p.generation) g ps keep a.waits;
  once = λ t.
      omega
        (arith, settled_times-append t ss (failing why g ps), failing_times t why g ps, a.once t);
  answers = append-All IsOwnAnswer ss (failing why g ps) a.answers (failing-All why g ps);
}

-- Another generation's child stays.
pub still_child :
    (child : Option ℕ) (g h : ℕ)
    → (h == g) ≡ false
    → child ≡ some h
    → (if is_at g child then none else child) ≡ some h
still_child none g h off e = e
still_child (some c) g h off e =
    let same : c ≡ h = ap (λ o. number o) e in
    let other : (g == c) ≡ false = ground (arith, same, off) in rw other e
  where
    number : Option ℕ → ℕ
    number none = 0
    number (some n) = n
