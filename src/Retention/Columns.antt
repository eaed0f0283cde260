-- ===== src/Retention/Columns.antt =====
-- The tests of single columns in the queries of src/retention/policy.ts.
use Prim.Native.String.{String}
use text.Mathlib.Text.{◌==◌ as str_eq}
use openmurmur.Prelude.{ℕ, ◌*◌, Bool, true, false, Option, none, some}
use openmurmur.Prelude.Int.{ℤ, pos, ◌-ℤ◌, leb_ℤ}
use openmurmur.Jobs.Types.{JobKind, JobState}
use openmurmur.Outbox.Types.{OutboxKind, OutboxState}
use openmurmur.Retention.Types.{SessionState}

-- `hoursAgoIso`
unfoldable pub hours_ago_iso : ℕ → ℕ → ℤ
hours_ago_iso hours now = pos now -ℤ pos (hours * 3600000)

-- `column <= cutoff`, which is not true of NULL.
unfoldable pub not_later : Option ℕ → ℤ → Bool
not_later none cutoff = false
not_later (some at) cutoff = leb_ℤ (pos at) cutoff

abbrev pub is_text : Option String → String → Bool
is_text none s = false
is_text (some t) s = str_eq t s

abbrev pub is_null {ℓ} : {A : Type ℓ} → Option A → Bool
is_null none = true
is_null (some a) = false

abbrev pub or_zero : Option ℕ → ℕ
or_zero none = 0
or_zero (some n) = n

abbrev pub is_done : SessionState → Bool
is_done SessionState.done = true
is_done _ = false

abbrev pub is_rejected : SessionState → Bool
is_rejected SessionState.rejected = true
is_rejected _ = false

abbrev pub is_transcript : OutboxKind → Bool
is_transcript OutboxKind.transcript = true
is_transcript _ = false

abbrev pub is_audio : OutboxKind → Bool
is_audio OutboxKind.audio = true
is_audio _ = false

abbrev pub is_sent : OutboxState → Bool
is_sent OutboxState.sent = true
is_sent _ = false

-- `o.state IN ('pending','sending')`
abbrev pub is_undelivered : OutboxState → Bool
is_undelivered OutboxState.pending = true
is_undelivered OutboxState.sending = true
is_undelivered _ = false

-- `j.state IN ('pending','leased')`
abbrev pub is_live : JobState → Bool
is_live JobState.pending = true
is_live JobState.leased = true
is_live _ = false

abbrev pub is_dead : JobState → Bool
is_dead JobState.dead = true
is_dead _ = false

abbrev pub is_job_done : JobState → Bool
is_job_done JobState.done = true
is_job_done _ = false

abbrev pub is_deliver_audio : JobKind → Bool
is_deliver_audio JobKind.deliver_audio = true
is_deliver_audio _ = false

abbrev pub is_incoming : JobKind → Bool
is_incoming JobKind.incoming_audio = true
is_incoming _ = false
