-- ===== src/Outbox/Sending.antt =====
-- The sender that holds a claim of src/telegram/outbox.ts: which message it gets, and what marking
-- it as sent or failed and deferring it do in time.
use text.Mathlib.TextEquality.{eq_iff}
use text.Mathlib.TextPositions.{eq_refl}
use openmurmur.Prelude.{
  ◌⊎◌, ℕ, ◌+◌, ◌-◌, ◌≡◌, refl, sym, ◌∙◌, true, Option, none, some, List, inl, inr, Bool-cases,
  Option-cases, ok, arith, ltb, leb, if◌then◌else◌, take,
}
use openmurmur.Table
use openmurmur.Table.Laws.{IsIn, IsIn-update, count_pos, All-IsIn}
use openmurmur.Table.Pairs.{Pairs, update-Pairs}
use openmurmur.Table.Keys.{count_le_one, get_stored, update-AreDistinct}
use openmurmur.Table.Order.{first_by-some}
use openmurmur.Outbox.Types.{
  OutboxRow, Outbox, OutboxState, ClaimedOutboxRow, Claim, OutboxSentOutcome, OutboxFailureOutcome,
  retry, deferred,
}
use openmurmur.Outbox.Update.{updated, update_outbox_free}
use openmurmur.Outbox.Invariant.{IsValid}
use openmurmur.Outbox.Delay.{retry_delay_ms}
use openmurmur.Outbox.{
  claim_next, claim_row, is_claimable, is_as_read, sending_row, before, claimed, has_id, holds,
  mark_sent, mark_failed, defer, sent_row, failed_row, deferred_row, update_outbox,
}

as_read_once :
    (rows : List OutboxRow) (row : OutboxRow) (now : ℕ)
    → IsValid rows
    → IsIn row rows
    → is_claimable rows now row ≡ true
    → Table.count (is_as_read row) rows ≡ 1
as_read_once rows row now v stored runs = omega (
  arith,
  count_pos (is_as_read row) row rows stored (ground (arith, eq_refl row.outbox_id)),
  count_le_one (λ r. r.outbox_id) (is_as_read row) row.outbox_id rows
      (λ r h. (eq_iff r.outbox_id row.outbox_id).0 (ground arith)) v.ids_distinct,
)

-- A claim never throws: no message changes while it is being claimed.
pub claim_next_returns :
    (box : Outbox) (checked now stamp : ℕ)
    → IsValid box.rows
    → (box' : Outbox) × (found : Option ClaimedOutboxRow) × (claim_next box checked now stamp
        ≡ ok (box', found))
unfolding claim_next claim_row
claim_next_returns box checked now stamp v =
    elim (Bool-cases (ltb checked box.channel_blocked_until)) [
      | inl b ↦ (box, none, rw b refl)
      | inr b ↦ elim (Option-cases (Table.first_by before (is_claimable box.rows now) box.rows)) [
        | inl n ↦ (box, none, rw (b, n) refl)
        | inr (row, f) ↦
            let (runs, stored) =
              first_by-some before (is_claimable box.rows now) (λ r. IsIn r box.rows) box.rows row
                (All-IsIn box.rows) f in
            (
              updated box (is_as_read row) (sending_row stamp),
              some (claimed row),
              rw (b, f)
                  (rw
                    (update_outbox_free box (is_as_read row) (sending_row stamp)
                      (λ r h. ground arith))
                    (rw (as_read_once box.rows row now v stored runs) refl)),
            )
      ]
    ]

-- A message under the claim of a sender, which may have been made long ago.
module _ (box : Outbox) (claim : Claim) (r : OutboxRow) (v : IsValid box.rows)
    (stored : IsIn r box.rows) (own : r.outbox_id ≡ claim.outbox_id)
    (runs : r.state ≡ OutboxState.sending)
    (generation : r.claim_generation ≡ claim.claim_generation) where
  -- An UPDATE under the claim changes this message and no other.
  held_update :
      (set : OutboxRow → OutboxRow)
      → ((s : OutboxRow) → (set s).outbox_id ≡ s.outbox_id)
      → (update_outbox box (holds claim) set ≡ ok (updated box (holds claim) set, 1))
        × (Table.get (has_id claim.outbox_id) (updated box (holds claim) set).rows ≡ some (set r))
  held_update set same =
      let held : holds claim r ≡ true =
        ground (arith, (eq_iff r.outbox_id claim.outbox_id).1 own, runs, generation) in
      let one : Table.count (holds claim) box.rows ≡ 1 = omega (
        arith,
        count_pos (holds claim) r box.rows stored held,
        count_le_one (λ s. s.outbox_id) (holds claim) claim.outbox_id box.rows
            (λ s h. (eq_iff s.outbox_id claim.outbox_id).0 (ground arith)) v.ids_distinct,
      ) in
      let set_id : (set r).outbox_id ≡ claim.outbox_id = same r ∙ own in
      (
        rw (update_outbox_free box (holds claim) set (λ s h. ground arith)) (rw one refl),
        get_stored (λ s. s.outbox_id) (has_id claim.outbox_id) (set r)
            (updated box (holds claim) set).rows
            (IsIn-update (holds claim) set r box.rows stored held)
            ((eq_iff (set r).outbox_id claim.outbox_id).1 set_id)
            (λ s h. (eq_iff s.outbox_id claim.outbox_id).0 h ∙ sym set_id)
            (update-AreDistinct (λ s. s.outbox_id) (holds claim) set box.rows same v.ids_distinct),
      )

  -- As long as a stored message is being sent under the identifier and the generation of a claim,
  -- whatever has happened since the claim was made, the sender that holds the claim marks it as sent
  -- with success: the message is sent, with the identifier that Telegram gave and with its payload
  -- and attempts as they were, no other message changes, and what `afterMark` does is done in the
  -- same transaction.
  pub held_then_sent :
      (message_id : Option ℕ) (at : ℕ) (after_mark : Outbox → Outbox)
      → (marked : Outbox) × (mark_sent box claim message_id at after_mark
          ≡ ok (after_mark marked, OutboxSentOutcome.sent))
        × (s : OutboxRow) × (Table.get (has_id claim.outbox_id) marked.rows ≡ some s)
        × (s.state ≡ OutboxState.sent)
        × (s.telegram_message_id ≡ message_id)
        × (s.payload ≡ r.payload)
        × (s.attempts ≡ r.attempts)
        × Pairs (λ a b. (a.outbox_id ≡ claim.outbox_id) ⊎ (b ≡ a)) box.rows marked.rows
  unfolding mark_sent
  held_then_sent message_id at after_mark =
      let (wrote, got) = held_update (sent_row message_id at) (λ s. refl) in
      (
        updated box (holds claim) _,
        rw wrote refl,
        _,
        got,
        refl,
        refl,
        refl,
        refl,
        update-Pairs (λ a b. (a.outbox_id ≡ claim.outbox_id) ⊎ (b ≡ a)) (holds claim) _ box.rows
            (λ a h. inl ((eq_iff a.outbox_id claim.outbox_id).0 (ground (arith, h))))
            (λ a h. inr refl),
      )

  -- A deferral under the claim costs the message no attempt: it is pending again, due after the
  -- delay, with the attempts that it had before the claim; its generation stays spent.
  pub held_then_defer :
      (delay : ℕ) (reason : List ℕ) (from at : ℕ)
      → (box' : Outbox) × (defer box claim delay reason from at ≡ ok (box', deferred))
        × (s : OutboxRow) × (Table.get (has_id claim.outbox_id) box'.rows ≡ some s)
        × (s.state ≡ OutboxState.pending)
        × (s.attempts ≡ r.attempts - 1)
        × (s.run_after ≡ from + delay)
        × (s.claim_generation ≡ claim.claim_generation)
  unfolding defer
  held_then_defer delay reason from at =
      let (wrote, got) = held_update (deferred_row reason (from + delay) at) (λ s. refl) in
      (updated box (holds claim) _, rw wrote refl, _, got, refl, ground arith, refl, generation)

  -- A failure under the claim makes the message dead when the attempts that the sender reports have
  -- reached the maximum, and pending otherwise, due after the retry delay. The message keeps the
  -- error, cut to 2000 units.
  pub held_then_failed :
      (error : List ℕ) (attempts most from at : ℕ)
      → let exhausted = leb most attempts in
        let delay : ℕ =
          if exhausted then 0 else retry_delay_ms attempts claim.outbox_id claim.claim_generation in
        (box' : Outbox) × (mark_failed box claim error attempts most from at
          ≡ ok (box', if exhausted then OutboxFailureOutcome.dead else retry))
        × (s : OutboxRow) × (Table.get (has_id claim.outbox_id) box'.rows ≡ some s)
        × (s.state ≡ (if exhausted then OutboxState.dead else OutboxState.pending))
        × (s.run_after ≡ from + delay)
        × (s.last_error ≡ some (take 2000 error))
  unfolding mark_failed
  held_then_failed error attempts most from at =
      let exhausted = leb most attempts in
      let delay : ℕ =
        if exhausted then 0 else retry_delay_ms attempts claim.outbox_id claim.claim_generation in
      let (wrote, got) = held_update (failed_row exhausted error (from + delay) at) (λ s. refl) in
      (updated box (holds claim) _, rw wrote refl, _, got, refl, refl, refl)
