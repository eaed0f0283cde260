-- ===== src/Outbox/Progress.antt =====
-- What one call of `drainOutbox` of src/telegram/outbox.ts leaves behind.
use Prim.Native.String.{String}
use openmurmur.Prelude.{
  ℕ, ◌+◌, ◌*◌, ◌≤◌, ◌≡◌, refl, sym, subst, Bool, true, false, Option, none, some, List, [], ◌∷◌,
  All, inl, inr, Bool-cases, Result, Result-cases, suc, ok, err, ◌>>=◌, arith, length, negate,
  if◌then◌else◌, ltb, ◌==◌, leb,
}
use openmurmur.Table
use openmurmur.Table.Laws.{All-at, update_split_in}
use openmurmur.Outbox.Types.{
  OutboxRow, Outbox, ClaimedOutboxRow, Claim, claim_of, SendError, Thrown, OutboxFailureOutcome,
}
use openmurmur.Outbox.Update.{updated, update_outbox_free}
use openmurmur.Outbox.History.{held}
use openmurmur.Outbox.Invariant.{IsValid, release-IsValid}
use openmurmur.Outbox.Fencing.{claim_next-Claims, claim_next-IsValid}
use openmurmur.Outbox.Sending.{claim_next_returns}
use openmurmur.Outbox.Send.{Turn, send_payload, is_telegram_channel_failure, is_retryable}
use openmurmur.Outbox.Delay.{retry_delay_ms}
use openmurmur.Outbox.Drain.{
  Next, breaks, goes_on, pass, drain, settle, attend, delivered, deferred_for, failed,
  failed_for_good, record_note, stop_after_channel_failure, has_lost,
}
use openmurmur.Outbox.{
  claim_next, claim_row, holds, is_sending, is_as_read, sending_row, mark_sent, mark_failed, defer,
  record_event_message, sent_row, failed_row, deferred_row, pause_channel_for, claimed,
}

-- The rows are valid and none is being sent.
abbrev pub IsQuiet : List OutboxRow → Type 0
IsQuiet rows = IsValid rows × All (λ r. is_sending r.state ≡ false) rows

-- Every row that is being sent is under the claim.
abbrev pub IsOnly : Claim → List OutboxRow → Type 0
IsOnly claim rows = All (λ r. is_sending r.state ≡ true → holds claim r ≡ true) rows

release-IsQuiet :
    (claim : Claim) (set : OutboxRow → OutboxRow) (rows : List OutboxRow)
    → ((r : OutboxRow) → (set r).outbox_id ≡ r.outbox_id)
    → ((r : OutboxRow) → (set r).delivery_part_id ≡ r.delivery_part_id)
    → ((r : OutboxRow) → (set r).event_key ≡ r.event_key)
    → ((r : OutboxRow) → (set r).claim_generation ≡ r.claim_generation)
    → ((r : OutboxRow) → is_sending (set r).state ≡ false)
    → IsValid rows
    → IsOnly claim rows
    → IsQuiet (Table.update (holds claim) set rows)
release-IsQuiet claim set rows i p k g l v only = (
  release-IsValid rows (holds claim) set (held claim set i p k g l) v,
  update_split_in (λ r. is_sending r.state ≡ false) (holds claim) set rows (λ r s e. l r)
      (λ r s e. elim (Bool-cases (is_sending r.state)) [
        | inr q ↦ q
        | inl q ↦ absurd (ground (arith, All-at _ r rows s only q))
      ]),
)

-- How many messages a pass adds to the count.
abbrev pub gain : Next → ℕ
gain breaks = 0
gain (goes_on n) = n

-- The call returns, with quiet rows, and adds one at most.
abbrev pub Settles : Result Thrown (Outbox × Next) → Type 0
Settles (ok (box, next)) = IsQuiet box.rows × (gain next ≤ 1)
Settles (err e) = ⊥

record_note_rows :
    (key : Option String) (scope : String) (message_id : ℕ) (box : Outbox)
    → (record_note key scope message_id box).rows ≡ box.rows
unfolding record_event_message
record_note_rows none scope message_id box = refl
record_note_rows (some k) scope message_id box = refl

either-IsQuiet :
    (b : Bool) (x y : Outbox) → IsQuiet x.rows → IsQuiet y.rows → IsQuiet (if b then x else y).rows
either-IsQuiet true x y p q = p
either-IsQuiet false x y p q = q

stop-Settles :
    (t : Turn) (box : Outbox) (row : ClaimedOutboxRow) (e : SendError)
    (outcome : OutboxFailureOutcome)
    → IsQuiet box.rows
    → Settles (ok (stop_after_channel_failure t box row e outcome))
unfolding pause_channel_for
stop-Settles t box row e outcome q = elim (Bool-cases (negate (is_telegram_channel_failure e))) [
  | inl c ↦ rw c (q, omega arith)
  | inr c ↦ elim (Bool-cases (has_lost outcome)) [
    | inl l ↦ rw (c, l) (q, omega arith)
    | inr l ↦ rw (c, l) (q, omega arith)
  ]
]

module _ (t : Turn) (box : Outbox) (row : ClaimedOutboxRow) (v : IsValid box.rows)
    (only : IsOnly (claim_of row) box.rows) where
  delivered-Settles : (message_id : ℕ) → Settles (delivered t box row message_id)
  unfolding mark_sent
  delivered-Settles message_id =
      let set = sent_row (some message_id) t.at in
      let q =
        release-IsQuiet (claim_of row) set box.rows (λ r. refl) (λ r. refl) (λ r. refl) (λ r. refl)
          (λ r. refl) v only in
      let after = updated box (holds (claim_of row)) set in
      rw (update_outbox_free box (holds (claim_of row)) set (λ r e. ground arith))
        (elim (Bool-cases (Table.count (holds (claim_of row)) box.rows == 1)) [
          | inl e ↦ rw e (
            subst IsQuiet (sym (record_note_rows row.event_key t.scope message_id after)) q,
            omega arith,
          )
          | inr e ↦ rw e (q, omega arith)
        ])

  deferred_for-Settles :
      (delay : ℕ) (message : List ℕ) (quiet : Bool)
      → Settles (deferred_for t box row delay message quiet)
  unfolding defer pause_channel_for
  deferred_for-Settles delay message quiet =
      let set = deferred_row message (t.from + delay) t.at in
      let q =
        release-IsQuiet (claim_of row) set box.rows (λ r. refl) (λ r. refl) (λ r. refl) (λ r. refl)
          (λ r. refl) v only in
      rw (update_outbox_free box (holds (claim_of row)) set (λ r e. ground arith))
        (either-IsQuiet _ _ _ q q, omega arith)

  failed-Settles : (e : SendError) (after : Option ℕ) → Settles (failed t box row e after)
  unfolding mark_failed pause_channel_for
  failed-Settles e (some seconds) = deferred_for-Settles (seconds * 1000) e.message false
  failed-Settles e none =
      let exhausted = leb row.max_attempts row.attempts in
      let delay : ℕ =
        if exhausted then 0 else retry_delay_ms row.attempts row.outbox_id row.claim_generation in
      let set = failed_row exhausted e.message (t.from + delay) t.at in
      let q =
        release-IsQuiet (claim_of row) set box.rows (λ r. refl) (λ r. refl) (λ r. refl) (λ r. refl)
          (λ r. ground arith) v only in
      rw (update_outbox_free box (holds (claim_of row)) set (λ r e. ground arith))
        (stop-Settles t (updated box (holds (claim_of row)) set) row e _ q)

  failed_for_good-Settles : (e : SendError) → Settles (failed_for_good t box row e)
  unfolding mark_failed
  failed_for_good-Settles e =
      let exhausted = leb row.max_attempts row.max_attempts in
      let delay : ℕ =
        if exhausted
        then 0
        else retry_delay_ms row.max_attempts row.outbox_id row.claim_generation in
      let set = failed_row exhausted e.message (t.from + delay) t.at in
      let q =
        release-IsQuiet (claim_of row) set box.rows (λ r. refl) (λ r. refl) (λ r. refl) (λ r. refl)
          (λ r. ground arith) v only in
      rw (update_outbox_free box (holds (claim_of row)) set (λ r e. ground arith)) (q, omega arith)

  settle-Settles : (answer : Result SendError ℕ) → Settles (settle t box row answer)
  unfolding settle is_retryable is_telegram_channel_failure
  settle-Settles (ok message_id) = delivered-Settles message_id
  settle-Settles (err e) = elim (Bool-cases e.retry_without_attempt) [
    | inl a ↦ rw a (deferred_for-Settles 1000 e.message e.client_shutdown)
    | inr a ↦ elim (Bool-cases (negate (is_retryable e))) [
      | inl b ↦ rw (a, b) (failed_for_good-Settles e)
      | inr b ↦ rw (a, b) (failed-Settles e e.retry_after_seconds)
    ]
  ]

claim_row_nothing :
    (box box' : Outbox) (found : Option OutboxRow) (stamp : ℕ)
    → claim_row box found stamp ≡ ok (box', none)
    → box' ≡ box
unfolding claim_row
claim_row_nothing box box' none stamp e = ground arith
claim_row_nothing box box' (some row) stamp e =
    let free = update_outbox_free box (is_as_read row) (sending_row stamp) (λ r h. ground arith) in
    elim (Bool-cases (Table.count (is_as_read row) box.rows == 1)) [
      | inl k ↦ let e' = rw (free, k) at e in absurd (ground arith)
      | inr k ↦ let e' = rw (free, k) at e in absurd (ground arith)
    ]

claim_next_nothing :
    (box box' : Outbox) (checked now stamp : ℕ)
    → claim_next box checked now stamp ≡ ok (box', none)
    → box' ≡ box
unfolding claim_next
claim_next_nothing box box' checked now stamp e =
    elim (Bool-cases (ltb checked box.channel_blocked_until)) [
      | inl b ↦ ground arith
      | inr b ↦ claim_row_nothing box box' _ stamp (rw b at e)
    ]

taken_is_held :
    (c : ClaimedOutboxRow) (row r : OutboxRow) (stamp : ℕ)
    → c ≡ claimed row
    → is_as_read row r ≡ true
    → holds (claim_of c) (sending_row stamp r) ≡ true
taken_is_held c row r stamp gave h =
    subst (λ d. holds (claim_of d) (sending_row stamp r) ≡ true) (sym gave) (ground arith)

claim_next-IsOnly :
    (box box' : Outbox) (checked now stamp : ℕ) (c : ClaimedOutboxRow)
    → IsQuiet box.rows
    → claim_next box checked now stamp ≡ ok (box', some c)
    → IsOnly (claim_of c) box'.rows
claim_next-IsOnly box box' checked now stamp c (v, quiet) e =
    let w = claim_next-Claims box box' checked now stamp c e in
    subst (λ b. IsOnly (claim_of c) b.rows) (sym w.wrote)
      (update_split_in (λ r. is_sending r.state ≡ true → holds (claim_of c) r ≡ true)
        (is_as_read w.row) (sending_row stamp) box.rows
        (λ r i h s. taken_is_held c w.row r stamp w.gave h)
        (λ r i h s. absurd (cc (All-at _ r box.rows i quiet, s))))

attend-Settles :
    (t : Turn) (max_outgoing_bytes : ℕ) (box box' : Outbox) (found : Option ClaimedOutboxRow)
    → IsQuiet box.rows
    → claim_next box t.checked t.now t.stamp ≡ ok (box', found)
    → Settles (attend t max_outgoing_bytes box' found)
attend-Settles t max_outgoing_bytes box box' none q e = (
  subst (λ b. IsQuiet b.rows) (sym (claim_next_nothing box box' t.checked t.now t.stamp e)) q,
  omega arith,
)
attend-Settles t max_outgoing_bytes box box' (some c) q e =
    settle-Settles t box' c (claim_next-IsValid box box' t.checked t.now t.stamp (some c) e q.0)
      (claim_next-IsOnly box box' t.checked t.now t.stamp c q e)
      (send_payload t max_outgoing_bytes box' c)

pass-Settles :
    (t : Turn) (max_outgoing_bytes : ℕ) (box : Outbox)
    → IsQuiet box.rows
    → Settles (pass t max_outgoing_bytes box)
unfolding pass
pass-Settles t max_outgoing_bytes box q =
    let (box', found, e) = claim_next_returns box t.checked t.now t.stamp q.0 in
    rw e (attend-Settles t max_outgoing_bytes box box' found q e)

-- The call returns, with quiet rows, and reports at most `n` messages.
abbrev pub Drains : ℕ → Result Thrown (Outbox × ℕ) → Type 0
Drains n (ok (box, sent)) = IsQuiet box.rows × (sent ≤ n)
Drains n (err e) = ⊥

add_sent :
    (n m : ℕ) (r : Result Thrown (Outbox × ℕ))
    → n ≤ 1
    → Drains m r
    → Drains (suc m) (r >>= λ x. ok (x.0, n + x.1))
add_sent n m (ok (b, k)) h (p, l) = (p, omega (arith, h, l))
add_sent n m (err e) h d = elim d [ ]

go_on :
    (rest : Outbox → Result Thrown (Outbox × ℕ)) (m : ℕ) (next : Next) (box : Outbox)
    → Settles (ok (box, next))
    → (IsQuiet box.rows → Drains m (rest box))
    → Drains
        (suc m)
        (elim next [ breaks ↦ ok (box, 0) | goes_on n ↦ rest box >>= λ x. ok (x.0, n + x.1) ])
go_on rest m breaks box (q, h) then_ = (q, omega arith)
go_on rest m (goes_on n) box (q, h) then_ = add_sent n m (rest box) h (then_ q)

drain-Drains :
    (ts : List Turn) (max_outgoing_bytes : ℕ) (box : Outbox)
    → IsQuiet box.rows
    → Drains (length ts) (drain ts max_outgoing_bytes box)
unfolding drain
drain-Drains [] max_outgoing_bytes box q = (q, omega arith)
drain-Drains (t ∷ ts) max_outgoing_bytes box q =
    elim (Result-cases (pass t max_outgoing_bytes box)) [
      | inr (e, k) ↦ absurd (subst Settles k (pass-Settles t max_outgoing_bytes box q))
      | inl ((box', next), k) ↦ rw k (
          go_on (drain ts max_outgoing_bytes) (length ts) next box'
            (subst Settles k (pass-Settles t max_outgoing_bytes box q))
            (λ p. drain-Drains ts max_outgoing_bytes box' p))
    ]

-- Where no message is being sent when it starts, a drain returns whatever the client, the files and
-- the clock answer, and none is being sent when it is done: each message that it claimed was marked
-- as sent, given back or made dead. It reports at most as many messages as it has turns.
pub drain-IsQuiet :
    (ts : List Turn) (max_outgoing_bytes : ℕ) (box : Outbox)
    → IsValid box.rows
    → All (λ r. is_sending r.state ≡ false) box.rows
    → (box' : Outbox) × (sent : ℕ) × (drain ts max_outgoing_bytes box ≡ ok (box', sent))
      × IsQuiet box'.rows
      × (sent ≤ length ts)
drain-IsQuiet ts max_outgoing_bytes box v quiet =
    elim (Result-cases (drain ts max_outgoing_bytes box)) [
      | inr (e, k) ↦
          absurd (subst (Drains (length ts)) k (drain-Drains ts max_outgoing_bytes box (v, quiet)))
      | inl ((box', sent), k) ↦
          let (q, h) =
            subst (Drains (length ts)) k (drain-Drains ts max_outgoing_bytes box (v, quiet)) in
          (box', sent, k, q, h)
    ]
