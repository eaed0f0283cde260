-- ===== src/Outbox/Update.antt =====
-- An UPDATE of the outbox that selects pending and sending rows only is never aborted by the trigger
-- of 018_telegram_maintenance_outbox_guard.sql.
use openmurmur.Prelude.{◌≡◌, Bool, true, false, ◌&&◌, ◌||◌, ok, inl, inr, Bool-cases, arith}
use openmurmur.Table
use openmurmur.Table.Laws.{exists_false, All-of}
use openmurmur.Outbox.Types.{OutboxRow, Outbox}
use openmurmur.Outbox.{update_outbox, blocks, is_pending, is_sending}

abbrev pub updated : Outbox → (OutboxRow → Bool) → (OutboxRow → OutboxRow) → Outbox
updated box test set = record box { rows = Table.update test set box.rows }

abbrev pub is_live : OutboxRow → Bool
is_live r = is_pending r.state || is_sending r.state

pub update_outbox_free :
    (box : Outbox) (test : OutboxRow → Bool) (set : OutboxRow → OutboxRow)
    → ((r : OutboxRow) → test r ≡ true → is_live r ≡ true)
    → update_outbox box test set ≡ ok (updated box test set, Table.count test box.rows)
unfolding update_outbox
update_outbox_free box test set live = ground (
  arith,
  exists_false (λ r. test r && blocks r (set r)) box.rows (All-of _ box.rows (λ r. none_blocked r)),
)
  where
    none_blocked : (r : OutboxRow) → (test r && blocks r (set r)) ≡ false
    none_blocked r = elim (Bool-cases (test r)) [ inl e ↦ ground (arith, live r e) | inr e ↦ rw e ]
