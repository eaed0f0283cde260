-- ===== src/Alerts.antt =====
-- Edge-triggered alerts (class AlertEvaluator and `renderAlert` of src/health/alerts.ts) over the
-- table alert_state. The debounce map and the table are functions of the alert, since each call
-- reads and writes the entry of its own alert only. A wall-clock time is its number of milliseconds;
-- the monotonic clock counts whole milliseconds.
pub mod Edges
pub mod Message
mod Tests
use Prim.Native.String.{String}
use text.Mathlib.Text.{◌==◌ as str_eq}
use openmurmur.Prelude.{
  ℕ, suc, ◌+◌, ◌-◌, ◌*◌, Bool, true, false, ◌&&◌, ◌||◌, Option, none, some, ltb, leb, ◌==◌, negate,
  if◌then◌else◌,
}

pub data AlertId : Type 0 where
  recorder_stale capture_failed worker_crashed llm_unavailable disk_low asr_backlog dead_jobs
        telegram_delivery keychain_unavailable digest_missing :
      AlertId

-- `absent`: the transition 'none'.
pub data Transition : Type 0 where
  raised cleared changed repeated absent : Transition

pub record AlertDecision : Type 0 where
  pub send : Bool
  pub transition : Transition

abbrev pub sends : Transition → AlertDecision
sends t = record { send = true; transition = t }

abbrev pub silent : AlertDecision
silent = record { send = false; transition = absent }

-- A row of alert_state.
pub record AlertStateRow : Type 0 where
  pub active : Bool
  pub last_sent_at : Option ℕ
  pub last_changed_at : ℕ
  pub occurrences : ℕ
  pub fingerprint : Option String

pub record Pending : Type 0 where
  pub active : Bool
  pub since : ℕ

pub record Settings : Type 0 where
  pub cooldown_minutes : ℕ
  pub debounce_seconds : ℕ

-- What the evaluator keeps of one alert.
pub record Alert : Type 0 where
  pub row : Option AlertStateRow
  pub pending : Option Pending

-- What `evaluate` returns, or the exception of `onSend`.
pub data Outcome : Type 0 where
  decided : AlertDecision → Outcome
  enqueue_failed : Outcome

abbrev pub same : Bool → Bool → Bool
same true b = b
same false b = negate b

abbrev pub only_if : Bool → Option String → Option String
only_if true f = f
only_if false f = none

abbrev pub only_at : Bool → ℕ → Option ℕ
only_at true now = some now
only_at false now = none

-- The row that `#evaluate` inserts.
abbrev pub first_row : Bool → Option String → ℕ → AlertStateRow
first_row active fingerprint now = record {
  active = active;
  last_sent_at = only_at active now;
  last_changed_at = now;
  occurrences = if active then 1 else 0;
  fingerprint = only_if active fingerprint;
}

-- The row that a change of the condition leaves.
abbrev pub turned : AlertStateRow → Bool → Option String → ℕ → AlertStateRow
turned row active fingerprint now = record {
  active = active;
  last_sent_at = some now;
  last_changed_at = now;
  occurrences = row.occurrences + 1;
  fingerprint = only_if active fingerprint;
}

abbrev pub same_fingerprint : Option String → String → Bool
same_fingerprint none f = false
same_fingerprint (some g) f = str_eq g f

abbrev pub or_zero : Option ℕ → ℕ
or_zero none = 0
or_zero (some n) = n

-- `now - lastSent < cooldown`, also where the clock was set back.
abbrev pub is_cooling : Settings → AlertStateRow → ℕ → Bool
is_cooling s row now = ltb now (or_zero row.last_sent_at + s.cooldown_minutes * 60000)

-- `#evaluateStillActive`
unfoldable pub evaluate_still_active :
    Settings → AlertStateRow → ℕ → Option String → AlertStateRow × AlertDecision
evaluate_still_active s row now (some f) =
    if same_fingerprint row.fingerprint f then (row, silent) else (
      record row {
        last_sent_at = some now;
        last_changed_at = now;
        occurrences = row.occurrences + 1;
        fingerprint = some f;
      },
      sends changed,
    )
evaluate_still_active s row now none =
    if is_cooling s row now
    then (row, silent)
    else (record row { last_sent_at = some now; occurrences = row.occurrences + 1 }, sends repeated)

-- `#evaluate`, on the row of the alert.
unfoldable pub evaluate_row :
    Settings → Option AlertStateRow → Bool → Option String → ℕ → AlertStateRow × AlertDecision
unfolding evaluate_still_active
evaluate_row s none active fingerprint now =
    (first_row active fingerprint now, if active then sends raised else silent)
evaluate_row s (some row) active fingerprint now =
    if same row.active active
    then if active then evaluate_still_active s row now fingerprint else (row, silent)
    else (turned row active fingerprint now, sends (if active then raised else cleared))

abbrev pub active_in : Option AlertStateRow → Bool
active_in none = false
active_in (some row) = row.active

-- `isActive`
unfoldable pub is_active : Alert → Bool
is_active a = active_in a.row

-- The transaction of `evaluate`: `enqueued` tells whether `onSend` returns.
abbrev pub committed : Alert → AlertStateRow × AlertDecision → Bool → Alert × Outcome
committed a (row, decision) enqueued =
    if decision.send && negate enqueued
    then (a, enqueue_failed)
    else (record { row = some row; pending = none }, decided decision)

unfoldable pub decide : Settings → Alert → Bool → Option String → ℕ → Bool → Alert × Outcome
unfolding evaluate_row
decide s a active fingerprint now enqueued =
    committed a (evaluate_row s a.row active fingerprint now) enqueued

-- The entry of the debounce map for a condition that is not the recorded one.
abbrev pub waiting : Option Pending → Bool → ℕ → Pending
waiting none active now = record { active = active; since = now }
waiting (some p) active now =
    if same p.active active then p else record { active = active; since = now }

abbrev pub is_debounced : Settings → AlertId → Bool
is_debounced s capture_failed = false
is_debounced s id = ltb 0 s.debounce_seconds

abbrev pub debounce_ms : Settings → ℕ
debounce_ms s = s.debounce_seconds * 1000

-- `evaluate`: the wall clock reads `now` and the monotonic clock `monotonic_now`.
unfoldable pub evaluate :
    Settings → AlertId → Alert → Bool → Option String → ℕ → ℕ → Bool → Alert × Outcome
unfolding decide is_active
evaluate s id a active fingerprint now monotonic_now enqueued =
    let p = waiting a.pending active monotonic_now in
    if is_debounced s id
    then if same (is_active a) active
      then decide s (record a { pending = none }) active fingerprint now enqueued
      else if ltb monotonic_now (p.since + debounce_ms s)
      then (record a { pending = some p }, decided silent)
      else decide s (record a { pending = some p }) active fingerprint now enqueued
    else decide s a active fingerprint now enqueued
