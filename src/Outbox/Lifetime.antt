-- ===== src/Outbox/Lifetime.antt =====
-- What no operation of src/telegram/outbox.ts ever does: send a message again that has been sent, or
-- store a second one for the same delivery unit.
use Prim.Native.String.{String}
use text.Mathlib.Text.{◌==◌ as str_eq}
use text.Mathlib.TextPositions.{eq_refl}
use openmurmur.Prelude.{
  ℕ, ◌≡◌, refl, ap, Bool, true, false, List, [], ◌∷◌, inl, inr, Bool-cases, ok, arith,
}
use openmurmur.Table
use openmurmur.Table.Laws.{
  IsIn, IsIn-update_miss, IsIn-append, exists-append_left, exists-append_last,
}
use openmurmur.Outbox.Types.{EnqueueMessage, OutboxRow, Outbox}
use openmurmur.Outbox.History.{Operation, perform, perform_all, perform_elim}
use openmurmur.Outbox.{enqueue, new_row, has_part, is_sent, is_as_read, sending_row}

perform_keeps_sent :
    (box : Outbox) (o : Operation) (r : OutboxRow)
    → is_sent r.state ≡ true
    → IsIn r box.rows
    → IsIn r (perform box o).rows
perform_keeps_sent box o r d i =
    perform_elim (IsIn r) box i
      (λ test set w.
        IsIn-update_miss test set r box.rows i (elim (Bool-cases (test r)) [
          | inr e ↦ e
          | inl e ↦ absurd (ground (arith, w.selects r e))
        ]))
      (λ row stamp t.
        IsIn-update_miss (is_as_read row) (sending_row stamp) r box.rows i (ground arith))
      (λ row w. IsIn-append r box.rows (row ∷ []) i) o

-- A message that has been sent stays stored exactly as it is, whatever operations follow: no
-- recovery, no late sender and no claim makes it be sent again.
pub sent_is_final :
    (box : Outbox) (os : List Operation) (r : OutboxRow)
    → is_sent r.state ≡ true
    → IsIn r box.rows
    → IsIn r (perform_all box os).rows
unfolding perform_all
sent_is_final box [] r d i = i
sent_is_final box (o ∷ os) r d i =
    sent_is_final (perform box o) os r d (perform_keeps_sent box o r d i)

part-update :
    (id : String) (test : OutboxRow → Bool) (set : OutboxRow → OutboxRow) (rows : List OutboxRow)
    → ((r : OutboxRow) → (set r).delivery_part_id ≡ r.delivery_part_id)
    → Table.exists (has_part id) rows ≡ true
    → Table.exists (has_part id) (Table.update test set rows) ≡ true
unfolding Table.exists Table.update
part-update id test set [] same e = e
part-update id test set (r ∷ rows) same e =
    ground (arith, part-update id test set rows same, ap (λ i. str_eq i id) (same r))

part_stays :
    (box : Outbox) (os : List Operation) (id : String)
    → Table.exists (has_part id) box.rows ≡ true
    → Table.exists (has_part id) (perform_all box os).rows ≡ true
unfolding perform_all
part_stays box [] id e = e
part_stays box (o ∷ os) id e = part_stays (perform box o) os id (
    perform_elim (λ rows. Table.exists (has_part id) rows ≡ true) box e
      (λ test set w. part-update id test set box.rows w.same_part e)
      (λ row stamp t. part-update id (is_as_read row) (sending_row stamp) box.rows (λ r. refl) e)
      (λ row w. exists-append_left (has_part id) box.rows (row ∷ []) e) o)

enqueue_stores :
    (box box' : Outbox) (m : EnqueueMessage) (id : String) (now : ℕ) (fresh : Bool)
    → enqueue box m id now ≡ ok (box', fresh)
    → Table.exists (has_part m.delivery_part_id) box'.rows ≡ true
unfolding enqueue
enqueue_stores box box' m id now fresh e =
    let row = new_row box m id now in
    let last =
      exists-append_last (has_part m.delivery_part_id) box.rows row (eq_refl m.delivery_part_id) in
    ground (arith, last)

-- Once an enqueue has returned, another for the same delivery unit is a no-op, whatever enqueues,
-- claims, marks, failures, deferrals, pauses and recoveries of class Outbox came in between: outside
-- maintenance it returns false and leaves the outbox as it is.
pub delivery_unit_once :
    (box box' : Outbox) (m m' : EnqueueMessage) (id id' : String) (now now' : ℕ) (fresh : Bool)
    (os : List Operation)
    → enqueue box m id now ≡ ok (box', fresh)
    → m'.delivery_part_id ≡ m.delivery_part_id
    → (perform_all box' os).maintenance ≡ false
    → enqueue (perform_all box' os) m' id' now' ≡ ok (perform_all box' os, false)
unfolding enqueue
delivery_unit_once box box' m m' id id' now now' fresh os e k g =
    let there = part_stays box' os m.delivery_part_id (enqueue_stores box box' m id now fresh e) in
    rw (g, k, there)
