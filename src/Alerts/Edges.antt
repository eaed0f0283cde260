-- ===== src/Alerts/Edges.antt =====
-- When src/health/alerts.ts sends: each edge of a condition once, after it has been stable, and never
-- lost to a failed enqueue.
use Prim.Native.String.{String}
use openmurmur.Prelude.{
  ℕ, ◌+◌, ◌≤◌, ◌<◌, ◌≡◌, refl, ap, ◌∙◌, Bool, true, false, Option, none, some, List, [], ◌∷◌, All,
  arith, inl, inr, Option-cases, if◌then◌else◌,
}
use openmurmur.Alerts.{
  AlertId, capture_failed, Transition, raised, cleared, changed, repeated, absent, AlertDecision,
  silent, sends, AlertStateRow, Settings, Alert, Outcome, decided, enqueue_failed, same, is_active,
  evaluate, evaluate_row, evaluate_still_active, decide, is_debounced, debounce_ms,
}

-- What one call of `evaluate` is told.
pub record Reading : Type 0 where
  pub active : Bool
  pub fingerprint : Option String
  pub now : ℕ
  pub monotonic_now : ℕ
  pub enqueued : Bool

abbrev pub read : Settings → AlertId → Alert → Reading → Alert × Outcome
read s id a r = evaluate s id a r.active r.fingerprint r.now r.monotonic_now r.enqueued

unfoldable pub run : Settings → AlertId → Alert → List Reading → Alert × List Outcome
run s id a [] = (a, [])
run s id a (r ∷ rs) = let (a', o) = read s id a r in let (a'', os) = run s id a' rs in (a'', o ∷ os)

-- Whether the reader of the messages takes the condition to hold after one more decision, or `none`
-- where that decision makes no sense to him.
abbrev pub follow_decision : Bool → Bool → Transition → Option Bool
follow_decision up true raised = if up then none else some true
follow_decision up true cleared = if up then some false else none
follow_decision up true changed = if up then some true else none
follow_decision up true repeated = if up then some true else none
follow_decision up true absent = none
follow_decision up false absent = some up
follow_decision up false _ = none

abbrev pub follow : Bool → Outcome → Option Bool
follow up (decided d) = follow_decision up d.send d.transition
follow up enqueue_failed = some up

abbrev pub and_then : Option Bool → (Bool → Option Bool) → Option Bool
and_then none f = none
and_then (some b) f = f b

unfoldable pub follow_all : Bool → List Outcome → Option Bool
follow_all up [] = some up
follow_all up (o ∷ os) = and_then (follow up o) (λ b. follow_all b os)

read_followed :
    (s : Settings) (id : AlertId) (a : Alert) (r : Reading)
    → let (a', o) = read s id a r in follow (is_active a) o ≡ some (is_active a')
unfolding evaluate decide evaluate_row evaluate_still_active is_active
read_followed s id a r = elim (Option-cases a.row) [
  | inl n ↦ ground arith
  | inr (row, e) ↦ ground arith
]

run_followed :
    (s : Settings) (id : AlertId) (a : Alert) (rs : List Reading)
    → let (a', os) = run s id a rs in follow_all (is_active a) os ≡ some (is_active a')
unfolding run follow_all
run_followed s id a [] = refl
run_followed s id a (r ∷ rs) =
    ap (λ x. and_then x (λ b. follow_all b (run s id (read s id a r).0 rs).1))
      (read_followed s id a r)
    ∙ run_followed s id (read s id a r).0 rs

-- Through any history, failed enqueues included, the messages of an alert make sense one after the
-- other to a reader who starts with the recorded condition: raised comes only while it is down,
-- cleared, changed and repeated only while it is up, and what he then believes is what is recorded.
pub edges_alternate :
    (s : Settings) (id : AlertId) (a : Alert) (rs : List Reading)
    → let (a', os) = run s id a rs in follow_all (is_active a) os ≡ some (is_active a')
edges_alternate s id a rs = run_followed s id a rs

row_sends_later :
    (s : Settings) (row : Option AlertStateRow) (active : Bool) (fingerprint : Option String)
    (now now' : ℕ)
    → now ≤ now'
    → (evaluate_row s row active fingerprint now).1.send ≡ true
    → (evaluate_row s row active fingerprint now').1.send ≡ true
unfolding evaluate_row evaluate_still_active
row_sends_later s none active fingerprint now now' h e = ground arith
row_sends_later s (some row) active none now now' h e = ground arith
row_sends_later s (some row) active (some f) now now' h e = ground arith

module _ (s : Settings) (id : AlertId) (a a' : Alert) (active : Bool) (fingerprint : Option String)
    (now monotonic_now : ℕ)
    (e : evaluate s id a active fingerprint now monotonic_now false ≡ (a', enqueue_failed)) where
  wanted_to_send : (a'.row ≡ a.row) × ((evaluate_row s a.row active fingerprint now).1.send ≡ true)
  unfolding evaluate decide
  wanted_to_send = ground arith

  decides_later :
      (now' monotonic_now' : ℕ)
      → monotonic_now ≤ monotonic_now'
      → (evaluate s id a' active fingerprint now' monotonic_now' true).1
        ≡ decided (evaluate_row s a'.row active fingerprint now').1
  unfolding evaluate decide is_active
  decides_later now' monotonic_now' k = ground (arith, wanted_to_send)

-- An edge whose message could not be enqueued is not lost: the record is as before, and the next call
-- with the same condition, at that time or later on both clocks, sends if its enqueue succeeds.
pub failed_enqueue_is_retried :
    (s : Settings) (id : AlertId) (a a' : Alert) (active : Bool) (fingerprint : Option String)
    (now monotonic_now now' monotonic_now' : ℕ)
    → evaluate s id a active fingerprint now monotonic_now false ≡ (a', enqueue_failed)
    → now ≤ now'
    → monotonic_now ≤ monotonic_now'
    → (a'.row ≡ a.row)
      × (d : AlertDecision) × ((evaluate s id a' active fingerprint now' monotonic_now' true).1
          ≡ decided d)
      × (d.send ≡ true)
failed_enqueue_is_retried s id a a' active fingerprint now monotonic_now now' monotonic_now' e h k =
    let (same_row, wanted) = wanted_to_send s id a a' active fingerprint now monotonic_now e in
    (
      same_row,
      _,
      decides_later s id a a' active fingerprint now monotonic_now e now' monotonic_now' k,
      row_sends_later s a'.row active fingerprint now now' h
          (ap (λ r. (evaluate_row s r active fingerprint now).1.send) same_row ∙ wanted),
    )

-- The alert waits since `since` for the condition to stay as it is.
abbrev pub IsPending : Alert → Alert → Bool → ℕ → Type 0
IsPending a a' active since =
    (a'.row ≡ a.row) × (a'.pending ≡ some (record { active = active; since = since }))

abbrev pub IsEarly : Settings → Bool → ℕ → Reading → Type 0
IsEarly s active since r = (r.active ≡ active) × (r.monotonic_now < since + debounce_ms s)

read-IsPending :
    (s : Settings) (id : AlertId) (a a' : Alert) (active : Bool) (since : ℕ) (r : Reading)
    → is_debounced s id ≡ true
    → same (is_active a) active ≡ false
    → IsPending a a' active since
    → IsEarly s active since r
    → ((read s id a' r).1 ≡ decided silent) × IsPending a (read s id a' r).0 active since
unfolding evaluate is_active
read-IsPending s id a a' active since r d n p e = ground arith

run-IsPending :
    (s : Settings) (id : AlertId) (a a' : Alert) (active : Bool) (since : ℕ) (rs : List Reading)
    → is_debounced s id ≡ true
    → same (is_active a) active ≡ false
    → IsPending a a' active since
    → All (IsEarly s active since) rs
    → let (a'', os) = run s id a' rs in
      All (λ o. o ≡ decided silent) os × IsPending a a'' active since
unfolding run
run-IsPending s id a a' active since [] d n p h = (tt, p)
run-IsPending s id a a' active since (r ∷ rs) d n p (e, h) =
    let (quiet, p') = read-IsPending s id a a' active since r d n p e in
    let (rest, p'') = run-IsPending s id a (read s id a' r).0 active since rs d n p' h in
    ((quiet, rest), p'')

debounce_positive :
    (s : Settings) (id : AlertId) → is_debounced s id ≡ true → 0 < s.debounce_seconds
debounce_positive s capture_failed d = absurd (ground arith)
debounce_positive s _ d = ground arith

first_read :
    (s : Settings) (id : AlertId) (a : Alert) (r : Reading)
    → is_debounced s id ≡ true
    → a.pending ≡ none
    → same (is_active a) r.active ≡ false
    → ((read s id a r).1 ≡ decided silent) × IsPending a (read s id a r).0 r.active r.monotonic_now
unfolding evaluate is_active
first_read s id a r d n e = ground (arith, debounce_positive s id d)

last_read :
    (s : Settings) (id : AlertId) (a a' : Alert) (active : Bool) (since : ℕ) (r : Reading)
    → is_debounced s id ≡ true
    → same (is_active a) active ≡ false
    → IsPending a a' active since
    → r.active ≡ active
    → since + debounce_ms s ≤ r.monotonic_now
    → r.enqueued ≡ true
    → (read s id a' r).1 ≡ decided (sends (if active then raised else cleared))
unfolding evaluate decide evaluate_row is_active
last_read s id a a' active since r d n p e h q = elim (Option-cases a.row) [
  | inl z ↦ ground arith
  | inr (row, z) ↦ ground arith
]

-- A debounced alert whose condition changes says nothing and records nothing while the change is
-- younger than the debounce time by the monotonic clock. If the condition is still changed then, the
-- next call sends the edge: raised or cleared.
pub edge_is_debounced :
    (s : Settings) (id : AlertId) (a : Alert) (first last : Reading) (rs : List Reading)
    → is_debounced s id ≡ true
    → a.pending ≡ none
    → same (is_active a) first.active ≡ false
    → All (IsEarly s first.active first.monotonic_now) rs
    → last.active ≡ first.active
    → first.monotonic_now + debounce_ms s ≤ last.monotonic_now
    → last.enqueued ≡ true
    → let (a', os) = run s id a (first ∷ rs) in
      All (λ o. o ≡ decided silent) os
      × (a'.row ≡ a.row)
      × ((read s id a' last).1 ≡ decided (sends (if first.active then raised else cleared)))
unfolding run
edge_is_debounced s id a first last rs d n e h l t q =
    let (quiet, p) = first_read s id a first d n e in
    let (rest, p') =
      run-IsPending s id a (read s id a first).0 first.active first.monotonic_now rs d e p h in
    (
      (quiet, rest),
      p'.0,
      last_read s id a (run s id (read s id a first).0 rs).0 first.active first.monotonic_now last d
          e p' l t q,
    )
