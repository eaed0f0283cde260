-- ===== src/Outbox/Invariant.antt =====
-- What holds of the outbox between two operations of src/telegram/outbox.ts.
use Prim.Native.String.{String}
use text.Mathlib.TextEquality.{eq_iff}
use openmurmur.Prelude.{
  ℕ, ◌≤◌, ◌≡◌, refl, ap, subst, Bool, true, false, ◌&&◌, List, [], ◌∷◌, ◌++◌, map, inl, inr,
  Bool-cases, Option-cases, arith,
}
use openmurmur.Table
use openmurmur.Table.Laws.{
  IsIn, count-update_mono, count-update_le, count-append, count_none, exists_none, map-All,
}
use openmurmur.Table.Keys.{
  AreDistinct, update-AreDistinct, append_row-AreDistinct, stored_unique, count_le_one,
}
use openmurmur.Outbox.Types.{OutboxRow, Outbox}
use openmurmur.Outbox.History.{
  Operation, perform, perform_all, IsRelease, IsTaken, IsNew, perform_elim,
}
use openmurmur.Outbox.{same_text, is_sending, is_as_read, sending_row, is_ahead, has_id}

-- A message of the event that is being sent.
abbrev pub in_flight : String → OutboxRow → Bool
in_flight key r = same_text r.event_key key && is_sending r.state

pub record IsValid (rows : List OutboxRow) : Type 0 where
  pub ids_distinct : AreDistinct (map (λ r. r.outbox_id) rows)
  pub parts_distinct : AreDistinct (map (λ r. r.delivery_part_id) rows)
  pub one_in_flight : (key : String) → Table.count (in_flight key) rows ≤ 1

pub release-IsValid :
    (rows : List OutboxRow) (test : OutboxRow → Bool) (set : OutboxRow → OutboxRow)
    → IsRelease test set
    → IsValid rows
    → IsValid (Table.update test set rows)
release-IsValid rows test set w v = record {
  ids_distinct = update-AreDistinct (λ r. r.outbox_id) test set rows w.same_id v.ids_distinct;
  parts_distinct =
      update-AreDistinct (λ r. r.delivery_part_id) test set rows w.same_part v.parts_distinct;
  one_in_flight = λ key. omega (
    arith,
    v.one_in_flight key,
    count-update_mono (in_flight key) test set rows
        (λ r i e h. absurd (ground (arith, w.lets_go r))),
  );
}

-- The rows that a claim writes are the row that it takes.
pub is_as_read_same :
    (rows : List OutboxRow) (row r : OutboxRow)
    → IsValid rows
    → IsIn row rows
    → IsIn r rows
    → has_id row.outbox_id r ≡ true
    → r ≡ row
is_as_read_same rows row r v stored i h =
    stored_unique (λ s. s.outbox_id) r row rows i stored ((eq_iff r.outbox_id row.outbox_id).0 h)
      v.ids_distinct

none_in_flight :
    (rows : List OutboxRow) (row : OutboxRow) (key : String)
    → IsTaken rows row
    → same_text row.event_key key ≡ true
    → Table.count (in_flight key) rows ≡ 0
none_in_flight rows row key t h = elim (Option-cases row.event_key) [
  | inl n ↦ absurd (ground arith)
  | inr (k, e) ↦
      let same : k ≡ key = (eq_iff k key).0 (rw e at h) in
      let free : Table.exists (is_ahead k row) rows ≡ false = ground (arith, rw e at t.claimable) in
      subst (λ x. Table.count (in_flight x) rows ≡ 0) same
        (count_none (in_flight k) rows
          (map-All _ _ rows (λ r n. ground arith) (exists_none (is_ahead k row) rows free)))
]

take-IsValid :
    (rows : List OutboxRow) (row : OutboxRow) (stamp : ℕ)
    → IsTaken rows row
    → IsValid rows
    → IsValid (Table.update (is_as_read row) (sending_row stamp) rows)
take-IsValid rows row stamp t v = record {
  ids_distinct =
      update-AreDistinct (λ r. r.outbox_id) (is_as_read row) (sending_row stamp) rows (λ r. refl)
        v.ids_distinct;
  parts_distinct =
      update-AreDistinct (λ r. r.delivery_part_id) (is_as_read row) (sending_row stamp) rows
        (λ r. refl) v.parts_distinct;
  one_in_flight = λ key. elim (Bool-cases (same_text row.event_key key)) [
    | inl e ↦ omega (
      arith,
      count-update_le (in_flight key) (is_as_read row) (sending_row stamp) rows,
      none_in_flight rows row key t e,
      count_le_one (λ r. r.outbox_id) (is_as_read row) row.outbox_id rows
          (λ r h. (eq_iff r.outbox_id row.outbox_id).0 (ground arith)) v.ids_distinct,
    )
    | inr e ↦ omega (
      arith,
      v.one_in_flight key,
      count-update_mono (in_flight key) (is_as_read row) (sending_row stamp) rows (λ r i h k.
          let same : r ≡ row = is_as_read_same rows row r v t.stored i (ground arith) in
          absurd (ground (arith, ap (λ s. s.event_key) same))),
    )
  ];
}

add-IsValid :
    (rows : List OutboxRow) (row : OutboxRow)
    → IsNew rows row
    → IsValid rows
    → IsValid (rows ++ row ∷ [])
unfolding Table.count
add-IsValid rows row w v = record {
  ids_distinct = append_row-AreDistinct (λ r. r.outbox_id) row rows w.new_id v.ids_distinct;
  parts_distinct =
      append_row-AreDistinct (λ r. r.delivery_part_id) row rows w.new_part v.parts_distinct;
  one_in_flight = λ key.
      ground (arith, v.one_in_flight key, count-append (in_flight key) rows (row ∷ []), w.waits);
}

pub perform-IsValid :
    (box : Outbox) (o : Operation) → IsValid box.rows → IsValid (perform box o).rows
perform-IsValid box o v =
    perform_elim IsValid box v (λ test set w. release-IsValid box.rows test set w v)
      (λ row stamp t. take-IsValid box.rows row stamp t v) (λ row w. add-IsValid box.rows row w v) o

pub perform_all-IsValid :
    (box : Outbox) (os : List Operation) → IsValid box.rows → IsValid (perform_all box os).rows
unfolding perform_all
perform_all-IsValid box [] v = v
perform_all-IsValid box (o ∷ os) v =
    perform_all-IsValid (perform box o) os (perform-IsValid box o v)

-- Whatever producers and senders do, from a valid outbox on, at most one of the messages of an event
-- is being sent at any time.
pub one_in_flight_per_event :
    (box : Outbox) (os : List Operation) (key : String)
    → IsValid box.rows
    → Table.count (in_flight key) (perform_all box os).rows ≤ 1
one_in_flight_per_event box os key v = (perform_all-IsValid box os v).one_in_flight key
