-- ===== src/Outbox/Choice.antt =====
-- Which message `claimNext` of src/telegram/outbox.ts hands out, said of the rows themselves.
use Prim.Native.String.{String}
use text.Mathlib.TextEquality.{eq_iff}
use text.Mathlib.TextPositions.{eq_refl}
use openmurmur.Prelude.{
  ℕ, ◌+◌, ◌≤◌, ◌<◌, ◌≡◌, ◌≢◌, ◌⊎◌, refl, sym, ap, subst, true, false, Option, none, some, List, All,
  inl, inr, Bool-cases, ok, arith, ltb, leb→le,
}
use openmurmur.Table.Laws.{IsIn, exists_none, exists_false, All-of, map-All}
use openmurmur.Table.Order.{IsOrder, first_by_least}
use openmurmur.Table.Pairs.{Pairs, update-Pairs}
use openmurmur.Outbox.Types.{OutboxRow, Outbox, OutboxState, ClaimedOutboxRow}
use openmurmur.Outbox.Fencing.{claim_next-Claims}
use openmurmur.Outbox.{
  claim_next, is_claimable, is_held_up, is_ahead, is_as_read, before, same_text,
}

before-IsOrder : IsOrder before
unfolding before
before-IsOrder = record {
  irreflexive = λ a. ground arith;
  asymmetric = λ a b h. ground arith;
  through = λ a b c h k. ground arith;
}

-- If `s` is a message of the event, it is not being sent, and if it waits, it was not stored before
-- `r`.
abbrev pub IsFirst : Option String → OutboxRow → OutboxRow → Type 0
IsFirst none r s = Unit {0}
IsFirst (some key) r s =
    s.event_key ≡ some key
    → (s.state ≢ OutboxState.sending) × (s.state ≡ OutboxState.pending → r.rowid ≤ s.rowid)

-- Pending, due and the first of its event.
abbrev pub IsDue : List OutboxRow → ℕ → OutboxRow → Type 0
IsDue rows now r =
    (r.state ≡ OutboxState.pending) × (r.run_after ≤ now) × All (IsFirst r.event_key r) rows

-- Stored at an earlier time, or at the same time and with no larger row number.
abbrev pub IsNoLater : OutboxRow → OutboxRow → Type 0
IsNoLater r s =
    (r.created_at < s.created_at) ⊎ ((r.created_at ≡ s.created_at) × (r.rowid ≤ s.rowid))

-- What the claim gives the sender of the message.
abbrev pub IsHandedOut : OutboxRow → ClaimedOutboxRow → Type 0
IsHandedOut r c =
    (c.outbox_id ≡ r.outbox_id)
    × (c.kind ≡ r.kind)
    × (c.payload ≡ r.payload)
    × (c.event_key ≡ r.event_key)
    × (c.attempts ≡ r.attempts + 1)
    × (c.max_attempts ≡ r.max_attempts)
    × (c.claim_generation ≡ r.claim_generation + 1)

-- The row `s` still is the message `r` as the claim read it.
abbrev pub IsAsRead : OutboxRow → OutboxRow → Type 0
IsAsRead r s =
    (s.outbox_id ≡ r.outbox_id)
    × (s.state ≡ OutboxState.pending)
    × (s.claim_generation ≡ r.claim_generation)

-- The row `t` is the row `s` after the claim of `r`: taken, if it is that message, and as it was
-- otherwise.
abbrev pub IsTaken : OutboxRow → ℕ → OutboxRow → OutboxRow → Type 0
IsTaken r stamp s t =
    (IsAsRead r s
      × (t ≡ record s {
        state = OutboxState.sending;
        attempts = s.attempts + 1;
        claim_generation = s.claim_generation + 1;
        updated_at = stamp;
      }))
    ⊎ ((¬ (IsAsRead r s)) × (t ≡ s))

same_text-some : (t : Option String) (key : String) → same_text t key ≡ true → t ≡ some key
same_text-some none key h = absurd (cc)
same_text-some (some k) key h = ap (λ x. some x) ((eq_iff k key).0 h)

IsFirst-of : (key : String) (r s : OutboxRow) → is_ahead key r s ≡ false → IsFirst (some key) r s
IsFirst-of key r s h e =
    let own = rw e at h in
    (ground (arith, own, eq_refl key), λ p. ground (arith, own, p, eq_refl key))

not_ahead : (key : String) (r s : OutboxRow) → IsFirst (some key) r s → is_ahead key r s ≡ false
not_ahead key r s f = elim (Bool-cases (same_text s.event_key key)) [
  | inr n ↦ rw n refl
  | inl y ↦
      let (sending, waits) = f (same_text-some s.event_key key y) in ground (arith, sending, waits)
]

held_up-IsFirst :
    (rows : List OutboxRow) (r : OutboxRow) (key : Option String)
    → is_held_up rows r key ≡ false
    → All (IsFirst key r) rows
held_up-IsFirst rows r none h = All-of (IsFirst none r) rows (λ s. tt)
held_up-IsFirst rows r (some key) h =
    map-All _ _ rows (λ s n. IsFirst-of key r s n) (exists_none (is_ahead key r) rows h)

first_held_up :
    (rows : List OutboxRow) (r : OutboxRow) (key : Option String)
    → All (IsFirst key r) rows
    → is_held_up rows r key ≡ false
first_held_up rows r none h = refl
first_held_up rows r (some key) h =
    exists_false (is_ahead key r) rows (map-All _ _ rows (λ s n. not_ahead key r s n) h)

as_read : (r s : OutboxRow) → is_as_read r s ≡ true → IsAsRead r s
as_read r s h =
    ((eq_iff s.outbox_id r.outbox_id).0 (ground (arith, h)), ground (arith, h), ground (arith, h))

not_read : (r s : OutboxRow) → is_as_read r s ≡ false → ¬ (IsAsRead r s)
not_read r s h (id, p, g) =
    let own = (eq_iff s.outbox_id r.outbox_id).1 id in absurd (ground (arith, h, own, p, g))

IsDue-row :
    (rows : List OutboxRow) (now : ℕ) (r : OutboxRow)
    → is_claimable rows now r ≡ true
    → IsDue rows now r
IsDue-row rows now r h = (
  ground (arith, h),
  leb→le r.run_after now (ground (arith, h)),
  held_up-IsFirst rows r r.event_key (ground (arith, h)),
)

row_due :
    (rows : List OutboxRow) (now : ℕ) (r : OutboxRow)
    → IsDue rows now r
    → is_claimable rows now r ≡ true
row_due rows now r (p, d, f) =
    let free = first_held_up rows r r.event_key f in ground (arith, p, d, free)

not_before : (r s : OutboxRow) → before s r ≡ false → IsNoLater r s
unfolding before
not_before r s h = elim (Bool-cases (ltb r.created_at s.created_at)) [
  | inl l ↦ inl (ground (arith, l))
  | inr l ↦ inr (ground (arith, h, l), ground (arith, h, l))
]

-- What a claim hands out is a stored message that is pending and due, while of its event no message
-- is being sent and none that waits was stored earlier; so the messages of an event are sent in the
-- order in which they were stored. No other message that could be claimed was stored earlier. The
-- sender gets the message's identifier, kind, payload, event key and maximum of attempts, with one
-- attempt and one generation more than were stored. In the table the message's row is being sent,
-- with the same attempts and generation as the sender got, and is otherwise, its time stamp aside,
-- as it was; every other row is as it was.
pub claim_keeps_order :
    (box box' : Outbox) (checked now stamp : ℕ) (c : ClaimedOutboxRow)
    → claim_next box checked now stamp ≡ ok (box', some c)
    → (r : OutboxRow) × IsIn r box.rows
      × IsDue box.rows now r
      × All (λ s. IsDue box.rows now s → IsNoLater r s) box.rows
      × IsHandedOut r c
      × Pairs (IsTaken r stamp) box.rows box'.rows
claim_keeps_order box box' checked now stamp c e =
    let w = claim_next-Claims box box' checked now stamp c e in
    let r = w.row in
    (
      r,
      w.stored,
      IsDue-row box.rows now r w.runs,
      map-All _ _ box.rows (λ s n d. not_before r s (ground (arith, n, row_due box.rows now s d)))
          (first_by_least before (is_claimable box.rows now) before-IsOrder box.rows r w.found),
      subst (IsHandedOut r) (sym w.gave) (refl, refl, refl, refl, refl, refl, refl),
      subst (λ b. Pairs (IsTaken r stamp) box.rows b.rows) (sym w.wrote)
          (update-Pairs (IsTaken r stamp) (is_as_read r) _ box.rows
            (λ s h. inl (as_read r s h, refl)) (λ s h. inr (not_read r s h, refl))),
    )
