-- ===== src/Outbox/History.antt =====
-- Any sequence of operations on the outbox of src/telegram/outbox.ts, by any number of senders, and
-- the writes that they make to its rows, in one form: a proof about every operation goes through
-- `perform_elim`.
use Prim.Native.String.{String}
use openmurmur.Prelude.{
  ℕ, ◌≡◌, refl, Bool, true, false, Option, none, some, List, [], ◌∷◌, ◌++◌, Result, ◌>>=◌, Leaves,
  state_after, state_after-Leaves, inl, inr, Bool-cases, arith, ◌==◌, ltb,
}
use openmurmur.Table
use openmurmur.Table.Laws.{IsIn, All-IsIn}
use openmurmur.Table.Order.{first_by-some}
use openmurmur.Outbox.Types.{EnqueueMessage, OutboxRow, EventMessage, Outbox, Claim, Thrown}
use openmurmur.Outbox.Update.{updated, update_outbox_free}
use openmurmur.Outbox.{
  enqueue, new_row, claim_next, claim_row, sending_row, is_as_read, is_claimable, before, mark_sent,
  sent_row, mark_failed, pause_channel_for, defer, recover_sending, record_event_message, holds,
  has_id, has_part, is_sending, is_known, update_outbox, acknowledged, recovered_row,
}

-- What `afterMark` of `drainOutbox` writes.
abbrev pub noted : Option EventMessage → Outbox → Outbox
noted none box = box
noted (some m) box = record_event_message m.event_key m.chat_scope m.telegram_message_id box

pub data Operation : Type 0 where
  enqueues : EnqueueMessage → String → ℕ → Operation
  claims : ℕ → ℕ → ℕ → Operation
  marks_sent : Claim → Option ℕ → ℕ → Option EventMessage → Operation
  marks_failed : Claim → List ℕ → ℕ → ℕ → ℕ → ℕ → Operation
  defers : Claim → ℕ → List ℕ → ℕ → ℕ → Operation
  pauses : ℕ → ℕ → Operation
  recovers : ℕ → Operation

unfoldable pub perform : Outbox → Operation → Outbox
perform box (enqueues m id now) = state_after box (enqueue box m id now)
perform box (claims checked now stamp) = state_after box (claim_next box checked now stamp)
perform box (marks_sent claim id now note) =
    state_after box (mark_sent box claim id now (noted note))
perform box (marks_failed claim error attempts most from stamp) =
    state_after box (mark_failed box claim error attempts most from stamp)
perform box (defers claim delay reason from stamp) =
    state_after box (defer box claim delay reason from stamp)
perform box (pauses delay now) = pause_channel_for box delay now
perform box (recovers now) = state_after box (recover_sending box now)

unfoldable pub perform_all : Outbox → List Operation → Outbox
perform_all box [] = box
perform_all box (o ∷ os) = perform_all (perform box o) os

-- A write that lets rows go that are being sent.
pub record IsRelease (test : OutboxRow → Bool) (set : OutboxRow → OutboxRow) : Type 0 where
  pub same_id : (r : OutboxRow) → (set r).outbox_id ≡ r.outbox_id
  pub same_part : (r : OutboxRow) → (set r).delivery_part_id ≡ r.delivery_part_id
  pub same_key : (r : OutboxRow) → (set r).event_key ≡ r.event_key
  pub same_generation : (r : OutboxRow) → (set r).claim_generation ≡ r.claim_generation
  pub selects : (r : OutboxRow) → test r ≡ true → is_sending r.state ≡ true
  pub lets_go : (r : OutboxRow) → is_sending (set r).state ≡ false

-- A write under a claim.
pub held :
    (claim : Claim) (set : OutboxRow → OutboxRow)
    → ((r : OutboxRow) → (set r).outbox_id ≡ r.outbox_id)
    → ((r : OutboxRow) → (set r).delivery_part_id ≡ r.delivery_part_id)
    → ((r : OutboxRow) → (set r).event_key ≡ r.event_key)
    → ((r : OutboxRow) → (set r).claim_generation ≡ r.claim_generation)
    → ((r : OutboxRow) → is_sending (set r).state ≡ false)
    → IsRelease (holds claim) set
held claim set i p k g l = record {
  same_id = i;
  same_part = p;
  same_key = k;
  same_generation = g;
  selects = λ r e. ground arith;
  lets_go = l;
}

-- The row that a claim takes.
pub record IsTaken (rows : List OutboxRow) (row : OutboxRow) : Type 0 where
  pub now : ℕ
  pub stored : IsIn row rows
  pub claimable : is_claimable rows now row ≡ true

-- The row that `enqueue` adds.
pub record IsNew (rows : List OutboxRow) (row : OutboxRow) : Type 0 where
  pub new_id : Table.exists (has_id row.outbox_id) rows ≡ false
  pub new_part : Table.exists (has_part row.delivery_part_id) rows ≡ false
  pub waits : is_sending row.state ≡ false

module _ (P : List OutboxRow → Type 0) (box : Outbox) (before_ : P box.rows)
    (released : (test : OutboxRow → Bool) (set : OutboxRow → OutboxRow)
      → IsRelease test set
      → P (Table.update test set box.rows))
    (taken : (row : OutboxRow) (stamp : ℕ)
      → IsTaken box.rows row
      → P (Table.update (is_as_read row) (sending_row stamp) box.rows))
    (added : (row : OutboxRow) → IsNew box.rows row → P (box.rows ++ row ∷ [])) where
  enqueue-Leaves :
      (m : EnqueueMessage) (id : String) (now : ℕ) → Leaves (λ b. P b.rows) (enqueue box m id now)
  unfolding enqueue
  enqueue-Leaves m id now = elim (Bool-cases box.maintenance) [
    | inl g ↦ rw g tt
    | inr g ↦ elim (Bool-cases (Table.exists (has_part m.delivery_part_id) box.rows)) [
      | inl k ↦ rw (g, k) before_
      | inr k ↦ elim (Bool-cases (Table.exists (has_id id) box.rows)) [
        | inl i ↦ rw (g, k, i) tt
        | inr i ↦ elim (Bool-cases (is_known box.sessions m.session_id)) [
          | inl s ↦
              rw (g, k, i, s)
                (added (new_row box m id now) (record { new_id = i; new_part = k; waits = refl }))
          | inr s ↦ rw (g, k, i, s) tt
        ]
      ]
    ]
  ]

  -- `box'` has the rows of the table as an UPDATE left it.
  release-Leaves {ℓ} :
      {A : Type ℓ} (test : OutboxRow → Bool) (set : OutboxRow → OutboxRow)
      (next : Outbox × ℕ → Result Thrown (Outbox × A))
      → IsRelease test set
      → ((b : Outbox) (n : ℕ) → P b.rows → Leaves (λ b. P b.rows) (next (b, n)))
      → Leaves (λ b. P b.rows) (update_outbox box test set >>= next)
  release-Leaves test set next w then_ =
      rw (update_outbox_free box test set (λ r e. ground (arith, w.selects r e)))
        (then_ (updated box test set) _ (released test set w))

  claim_row-Leaves :
      (found : Option OutboxRow) (now stamp : ℕ)
      → Table.first_by before (is_claimable box.rows now) box.rows ≡ found
      → Leaves (λ b. P b.rows) (claim_row box found stamp)
  unfolding claim_row
  claim_row-Leaves none now stamp f = before_
  claim_row-Leaves (some row) now stamp f =
      let (runs, stored) =
        first_by-some before (is_claimable box.rows now) (λ r. IsIn r box.rows) box.rows row
          (All-IsIn box.rows) f in
      let w = taken row stamp (record { now = now; stored = stored; claimable = runs }) in
      rw (update_outbox_free box (is_as_read row) (sending_row stamp) (λ r e. ground arith))
        (elim (Bool-cases (Table.count (is_as_read row) box.rows == 1)) [
          | inl e ↦ rw e w
          | inr e ↦ rw e tt
        ])

  claim_next-Leaves :
      (checked now stamp : ℕ) → Leaves (λ b. P b.rows) (claim_next box checked now stamp)
  unfolding claim_next
  claim_next-Leaves checked now stamp = elim (Bool-cases (ltb checked box.channel_blocked_until)) [
    | inl e ↦ rw e before_
    | inr e ↦ rw e (claim_row-Leaves _ now stamp refl)
  ]

  noted-keeps : (note : Option EventMessage) (b : Outbox) → P b.rows → P (noted note b).rows
  unfolding record_event_message
  noted-keeps none b h = h
  noted-keeps (some m) b h = h

  marked-Leaves :
      (note : Option EventMessage) (b : Outbox) (n : ℕ)
      → P b.rows
      → P (acknowledged (noted note) (b, n)).0.rows
  marked-Leaves note b n h = elim (Bool-cases (n == 1)) [
    | inl e ↦ rw e (noted-keeps note b h)
    | inr e ↦ rw e h
  ]

  -- What holds of the rows holds after an operation, if it holds after every write and every
  -- insertion that an operation makes.
  pub perform_elim : (o : Operation) → P (perform box o).rows
  unfolding perform mark_sent mark_failed defer recover_sending pause_channel_for
  perform_elim (enqueues m id now) =
      state_after-Leaves (λ b. P b.rows) box _ before_ (enqueue-Leaves m id now)
  perform_elim (claims checked now stamp) =
      state_after-Leaves (λ b. P b.rows) box _ before_ (claim_next-Leaves checked now stamp)
  perform_elim (marks_sent claim id now note) =
      state_after-Leaves (λ b. P b.rows) box _ before_
        (release-Leaves (holds claim) (sent_row id now) _
          (held claim _ (λ r. refl) (λ r. refl) (λ r. refl) (λ r. refl) (λ r. refl))
          (λ b n h. marked-Leaves note b n h))
  perform_elim (marks_failed claim error attempts most from stamp) =
      state_after-Leaves (λ b. P b.rows) box _ before_
        (release-Leaves (holds claim) _ _
          (held claim _ (λ r. refl) (λ r. refl) (λ r. refl) (λ r. refl) (λ r. ground arith))
          (λ b n h. h))
  perform_elim (defers claim delay reason from stamp) =
      state_after-Leaves (λ b. P b.rows) box _ before_
        (release-Leaves (holds claim) _ _
          (held claim _ (λ r. refl) (λ r. refl) (λ r. refl) (λ r. refl) (λ r. refl)) (λ b n h. h))
  perform_elim (pauses delay now) = before_
  perform_elim (recovers now) =
      state_after-Leaves (λ b. P b.rows) box (recover_sending box now) before_
        (rw
          (update_outbox_free box (λ r. is_sending r.state) (recovered_row now)
            (λ r e. ground arith))
          (released (λ r. is_sending r.state) (recovered_row now)
            (record {
              same_id = λ r. refl;
              same_part = λ r. refl;
              same_key = λ r. refl;
              same_generation = λ r. refl;
              selects = λ r e. e;
              lets_go = λ r. refl;
            })))
