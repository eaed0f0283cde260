-- ===== src/Outbox/Fencing.antt =====
-- How src/telegram/outbox.ts fences a sender whose message has been claimed again: the generation
-- of a claim is used once.
use Prim.Native.String.{String}
use text.Mathlib.Text.{◌==◌ as str_eq}
use text.Mathlib.TextEquality.{eq_iff}
use text.Mathlib.TextPositions.{eq_refl}
use openmurmur.Prelude.{
  ℕ, ◌+◌, ◌≤◌, ◌≡◌, refl, sym, ap, subst, ◌∙◌, Bool, true, false, Option, none, some, List, [], ◌∷◌,
  All, inl, inr, Bool-cases, ok, state_after, arith, ltb, ◌==◌,
}
use openmurmur.Table
use openmurmur.Table.Laws.{
  IsIn, All-IsIn, All-at, update-All, update_split_in, append-All, exists-append_left,
  exists_of_IsIn, update_none, count_none, map-All, All-of,
}
use openmurmur.Table.Order.{first_by-some}
use openmurmur.Outbox.Types.{
  OutboxRow, Outbox, ClaimedOutboxRow, Claim, claim_of, OutboxSentOutcome, OutboxFailureOutcome,
  OutboxDeferOutcome,
}
use openmurmur.Outbox.Update.{updated, update_outbox_free}
use openmurmur.Outbox.History.{Operation, claims, perform, perform_all, IsNew, perform_elim}
use openmurmur.Outbox.Invariant.{IsValid, is_as_read_same, perform-IsValid, perform_all-IsValid}
use openmurmur.Outbox.{
  claim_next, claim_row, is_claimable, is_as_read, sending_row, before, claimed, has_id, holds,
  mark_sent, mark_failed, defer, sent_row, deferred_row, update_outbox,
}

-- What a claim that hands out a message did.
pub record Claims (box box' : Outbox) (c : ClaimedOutboxRow) (now stamp : ℕ) : Type 0 where
  pub row : OutboxRow
  pub found : Table.first_by before (is_claimable box.rows now) box.rows ≡ some row
  pub stored : IsIn row box.rows
  pub runs : is_claimable box.rows now row ≡ true
  pub gave : c ≡ claimed row
  pub wrote : box' ≡ updated box (is_as_read row) (sending_row stamp)

claim_row-Claims :
    (box box' : Outbox) (c : ClaimedOutboxRow) (now stamp : ℕ) (found : Option OutboxRow)
    → Table.first_by before (is_claimable box.rows now) box.rows ≡ found
    → claim_row box found stamp ≡ ok (box', some c)
    → Claims box box' c now stamp
unfolding claim_row
claim_row-Claims box box' c now stamp none f e = absurd (ground arith)
claim_row-Claims box box' c now stamp (some row) f e =
    let (runs, stored) =
      first_by-some before (is_claimable box.rows now) (λ r. IsIn r box.rows) box.rows row
        (All-IsIn box.rows) f in
    let free = update_outbox_free box (is_as_read row) (sending_row stamp) (λ r h. ground arith) in
    elim (Bool-cases (Table.count (is_as_read row) box.rows == 1)) [
      | inl k ↦
          let e' = rw (free, k) at e in
          record {
            row = row;
            found = f;
            stored = stored;
            runs = runs;
            gave = ground arith;
            wrote = ground arith;
          }
      | inr k ↦ let e' = rw (free, k) at e in absurd (ground arith)
    ]

pub claim_next-Claims :
    (box box' : Outbox) (checked now stamp : ℕ) (c : ClaimedOutboxRow)
    → claim_next box checked now stamp ≡ ok (box', some c)
    → Claims box box' c now stamp
unfolding claim_next
claim_next-Claims box box' checked now stamp c e =
    elim (Bool-cases (ltb checked box.channel_blocked_until)) [
      | inl b ↦ absurd (ground arith)
      | inr b ↦ claim_row-Claims box box' c now stamp _ refl (rw b at e)
    ]

-- The message is stored and its generation has come to `g`.
abbrev pub Reached : String → ℕ → List OutboxRow → Type 0
Reached id g rows =
    (Table.exists (has_id id) rows ≡ true)
    × All (λ r. has_id id r ≡ true → g ≤ r.claim_generation) rows

exists-update :
    (id : String) (test : OutboxRow → Bool) (set : OutboxRow → OutboxRow) (rows : List OutboxRow)
    → ((r : OutboxRow) → (set r).outbox_id ≡ r.outbox_id)
    → Table.exists (has_id id) rows ≡ true
    → Table.exists (has_id id) (Table.update test set rows) ≡ true
unfolding Table.exists Table.update
exists-update id test set [] same e = e
exists-update id test set (r ∷ rows) same e =
    ground (arith, exists-update id test set rows same, ap (λ i. str_eq i id) (same r))

perform-Reached :
    (id : String) (g : ℕ) (box : Outbox) (o : Operation)
    → Reached id g box.rows
    → Reached id g (perform box o).rows
perform-Reached id g box o (there, reached) =
    perform_elim (Reached id g) box (there, reached)
      (λ test set w. (
        exists-update id test set box.rows w.same_id there,
        update-All (λ r. has_id id r ≡ true → g ≤ r.claim_generation) test set box.rows
            (λ r p e h.
              subst (λ n. g ≤ n) (sym (w.same_generation r))
                (p (ap (λ i. str_eq i id) (sym (w.same_id r)) ∙ h)))
            reached,
      ))
      (λ row stamp t. (
        exists-update id (is_as_read row) (sending_row stamp) box.rows (λ r. refl) there,
        update-All (λ r. has_id id r ≡ true → g ≤ r.claim_generation) (is_as_read row)
            (sending_row stamp) box.rows (λ r p e h. omega (arith, p h)) reached,
      ))
      (λ row w. (
        exists-append_left (has_id id) box.rows (row ∷ []) there,
        append-All (λ r. has_id id r ≡ true → g ≤ r.claim_generation) box.rows (row ∷ []) reached
            ((λ h. absurd (not_new row w h)), tt),
      ))
      o
  where
    not_new : (row : OutboxRow) → IsNew box.rows row → has_id id row ≡ true → ⊥
    not_new row w h =
        let same : row.outbox_id ≡ id = (eq_iff row.outbox_id id).0 h in
        cc (ap (λ i. Table.exists (has_id i) box.rows) same, w.new_id, there)

perform_all-Reached :
    (id : String) (g : ℕ) (box : Outbox) (os : List Operation)
    → Reached id g box.rows
    → Reached id g (perform_all box os).rows
unfolding perform_all
perform_all-Reached id g box [] h = h
perform_all-Reached id g box (o ∷ os) h =
    perform_all-Reached id g (perform box o) os (perform-Reached id g box o h)

-- A claim brings the generation of its message past every one that it has reached.
claim-Reached :
    (box box' : Outbox) (now stamp : ℕ) (c : ClaimedOutboxRow) (g : ℕ)
    → IsValid box.rows
    → Claims box box' c now stamp
    → All (λ r. has_id c.outbox_id r ≡ true → g ≤ r.claim_generation) box.rows
    → Reached c.outbox_id (g + 1) box'.rows × Reached c.outbox_id c.claim_generation box'.rows
claim-Reached box box' now stamp c g v w reached = (
  subst (λ b. Reached c.outbox_id (g + 1) b.rows) (sym w.wrote)
      (
        there,
        update_split_in _ (is_as_read w.row) (sending_row stamp) box.rows hit_g (miss (g + 1)),
      ),
  subst (λ b. Reached c.outbox_id c.claim_generation b.rows) (sym w.wrote)
      (
        there,
        update_split_in _ (is_as_read w.row) (sending_row stamp) box.rows hit
            (miss c.claim_generation),
      ),
)
  where
    id_of : c.outbox_id ≡ w.row.outbox_id
    id_of = ap (λ d. d.outbox_id) w.gave

    there :
        Table.exists
          (has_id c.outbox_id)
          (Table.update (is_as_read w.row) (sending_row stamp) box.rows)
        ≡ true
    there =
        exists-update c.outbox_id (is_as_read w.row) (sending_row stamp) box.rows (λ r. refl)
          (exists_of_IsIn (has_id c.outbox_id) w.row box.rows w.stored
            (rw (← id_of) (eq_refl c.outbox_id)))

    hit_g :
        (r : OutboxRow)
        → IsIn r box.rows
        → is_as_read w.row r ≡ true
        → has_id c.outbox_id (sending_row stamp r) ≡ true
        → g + 1 ≤ (sending_row stamp r).claim_generation
    hit_g r i e h = omega (arith, All-at _ r box.rows i reached h)

    hit :
        (r : OutboxRow)
        → IsIn r box.rows
        → is_as_read w.row r ≡ true
        → has_id c.outbox_id (sending_row stamp r) ≡ true
        → c.claim_generation ≤ (sending_row stamp r).claim_generation
    hit r i e h = ground (arith, ap (λ d. d.claim_generation) w.gave)

    miss :
        (n : ℕ) (r : OutboxRow)
        → IsIn r box.rows
        → is_as_read w.row r ≡ false
        → has_id c.outbox_id r ≡ true
        → n ≤ r.claim_generation
    miss n r i e h =
        let mine : has_id w.row.outbox_id r ≡ true = rw (← id_of) h in
        let same : r ≡ w.row = is_as_read_same box.rows w.row r v w.stored i mine in
        let other = ap (is_as_read w.row) same in
        absurd (ground (arith, w.runs, eq_refl w.row.outbox_id))

-- No row carries the claim, so the sender that made it can do nothing.
module _ (box : Outbox) (claim : Claim) where
  holds-Reached :
      Reached claim.outbox_id (claim.claim_generation + 1) box.rows
      → All (λ r. holds claim r ≡ false) box.rows
  holds-Reached (there, h) =
      map-All _ _ box.rows
        (λ r p. elim (Bool-cases (holds claim r)) [
          | inr e ↦ e
          | inl e ↦ absurd (ground (arith, p))
        ])
        h

  fenced_update :
      (set : OutboxRow → OutboxRow)
      → All (λ r. holds claim r ≡ false) box.rows
      → update_outbox box (holds claim) set ≡ ok (box, 0)
  fenced_update set h =
      rw (update_outbox_free box (holds claim) set (λ r e. ground arith))
        (rw (update_none (holds claim) set box.rows h, count_none (holds claim) box.rows h) refl)

  fenced_sender_is_inert :
      (message_id : Option ℕ) (error : List ℕ) (now attempts most delay : ℕ)
      (after_mark : Outbox → Outbox)
      → All (λ r. holds claim r ≡ false) box.rows
      → (mark_sent box claim message_id now after_mark ≡ ok (box, OutboxSentOutcome.lost))
        × (mark_failed box claim error attempts most now now ≡ ok (box, OutboxFailureOutcome.lost))
        × (defer box claim delay error now now ≡ ok (box, OutboxDeferOutcome.lost))
  unfolding mark_sent mark_failed defer
  fenced_sender_is_inert message_id error now attempts most delay after_mark h = (
    rw (fenced_update (sent_row message_id now) h) refl,
    rw (fenced_update _ h) refl,
    rw (fenced_update (deferred_row error (now + delay) now) h) refl,
  )

pub claim_next-IsValid :
    (box box' : Outbox) (checked now stamp : ℕ) (found : Option ClaimedOutboxRow)
    → claim_next box checked now stamp ≡ ok (box', found)
    → IsValid box.rows
    → IsValid box'.rows
unfolding perform
claim_next-IsValid box box' checked now stamp found e v =
    subst (λ b. IsValid b.rows) (ap (state_after box) e)
      (perform-IsValid box (claims checked now stamp) v)

-- A message is claimed, whatever happens then, and the message is claimed again, for instance since
-- the first sender was taken for dead. Whatever happens after that, the first sender can do nothing
-- any more: marking the message as sent or failed and deferring it report a lost claim and leave the
-- outbox as it is, also after deferrals that gave attempts back.
pub superseded_sender_is_inert :
    (box box₁ box₂ : Outbox) (checked₁ now₁ stamp₁ checked₂ now₂ stamp₂ : ℕ)
    (c₁ c₂ : ClaimedOutboxRow) (os₁ os₂ : List Operation) (message_id : Option ℕ) (error : List ℕ)
    (now attempts most delay : ℕ) (after_mark : Outbox → Outbox)
    → IsValid box.rows
    → claim_next box checked₁ now₁ stamp₁ ≡ ok (box₁, some c₁)
    → claim_next (perform_all box₁ os₁) checked₂ now₂ stamp₂ ≡ ok (box₂, some c₂)
    → c₂.outbox_id ≡ c₁.outbox_id
    → let later = perform_all box₂ os₂ in
      let claim = claim_of c₁ in
      (mark_sent later claim message_id now after_mark ≡ ok (later, OutboxSentOutcome.lost))
      × (mark_failed later claim error attempts most now now
          ≡ ok (later, OutboxFailureOutcome.lost))
      × (defer later claim delay error now now ≡ ok (later, OutboxDeferOutcome.lost))
superseded_sender_is_inert box box₁ box₂ checked₁ now₁ stamp₁ checked₂ now₂ stamp₂ c₁ c₂ os₁ os₂
      message_id error now attempts most delay after_mark v e₁ e₂ same =
    let v₁ = claim_next-IsValid box box₁ checked₁ now₁ stamp₁ (some c₁) e₁ v in
    let (first, reached) =
      claim-Reached box box₁ now₁ stamp₁ c₁ 0 v
        (claim_next-Claims box box₁ checked₁ now₁ stamp₁ c₁ e₁)
        (All-of _ box.rows (λ r h. omega arith)) in
    let (still, high) = perform_all-Reached c₁.outbox_id c₁.claim_generation box₁ os₁ reached in
    let (past, own) =
      claim-Reached (perform_all box₁ os₁) box₂ now₂ stamp₂ c₂ c₁.claim_generation
        (perform_all-IsValid box₁ os₁ v₁)
        (claim_next-Claims (perform_all box₁ os₁) box₂ checked₂ now₂ stamp₂ c₂ e₂) (rw same high) in
    fenced_sender_is_inert (perform_all box₂ os₂) (claim_of c₁) message_id error now attempts most
      delay after_mark
      (holds-Reached (perform_all box₂ os₂) (claim_of c₁)
        (perform_all-Reached c₁.outbox_id (c₁.claim_generation + 1) box₂ os₂ (rw (sym same) past)))
