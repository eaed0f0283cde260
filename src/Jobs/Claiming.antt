-- ===== src/Jobs/Claiming.antt =====
-- What `claim` of src/jobs/queue.ts hands out.
use Prim.Native.String.{String}
use text.Mathlib.TextPositions.{eq_refl}
use openmurmur.Prelude.{
  ℕ, ◌+◌, ◌≡◌, ◌≢◌, refl, sym, ap, subst, ◌∙◌, true, false, ◌&&◌, Option, none, some, List, [], ◌∷◌,
  All, arith, ok, ◌>>=◌, inl, inr, Bool-cases,
}
use openmurmur.Table
use openmurmur.Table.Order.{IsOrder, first_by-none, first_by-some, first_by_least}
use openmurmur.Table.Laws.{IsIn, All-IsIn, All-of, update_split}
use openmurmur.Jobs.Types.{JobKind, JobState, Payload, JobRow, Jobs, ClaimCall, ClaimedJob}
use openmurmur.Jobs.Update.{updated, update_jobs_elim}
use openmurmur.Jobs.{
  claim, claim_row, hand_out, has_id, before, is_runnable, leased_to, token, claimed, has_kind,
  is_empty,
}

abbrev pub token_of : ClaimCall → String
token_of call = token call.owner call.uuid

-- The row that a successful claim found, what it wrote, and what it returned.
pub record Claims (jobs jobs' : Jobs) (call : ClaimCall) (c : ClaimedJob) : Type 0 where
  pub row : JobRow
  pub found : Table.first_by before (is_runnable call.kinds call.now) jobs.rows ≡ some row
  pub wrote :
      jobs'
      ≡ updated jobs
          (has_id row.job_id)
          (leased_to (token_of call) (call.from + call.lease_ms) call.stamp)
  pub gave : c ≡ claimed row (token_of call) row.payload

hand_out_same :
    (p : Payload) (jobs jobs' : Jobs) (row : JobRow) (lease_token : String) (c : ClaimedJob)
    → row.payload ≡ p
    → hand_out jobs row lease_token ≡ ok (jobs', some c)
    → (jobs' ≡ jobs) × (c ≡ claimed row lease_token row.payload)
hand_out_same Payload.invalid jobs jobs' row lease_token c q e = absurd (ground arith)
hand_out_same _ jobs jobs' row lease_token c q e = ground arith

claim_row-Claims :
    (jobs jobs' : Jobs) (call : ClaimCall) (c : ClaimedJob) (found : Option JobRow)
    → Table.first_by before (is_runnable call.kinds call.now) jobs.rows ≡ found
    → claim_row jobs found (token_of call) (call.from + call.lease_ms) call.stamp
      ≡ ok (jobs', some c)
    → Claims jobs jobs' call c
unfolding claim_row
claim_row-Claims jobs jobs' call c none f e = absurd (ground arith)
claim_row-Claims jobs jobs' call c (some row) f e =
    update_jobs_elim
      (λ r.
        (r >>= λ u. hand_out u.0 row (token_of call)) ≡ ok (jobs', some c)
        → Claims jobs jobs' call c)
      jobs (has_id row.job_id) (leased_to (token_of call) (call.from + call.lease_ms) call.stamp)
      (λ w.
        let (same, gave) = hand_out_same row.payload _ jobs' row (token_of call) c refl w in
        record { row = row; found = f; wrote = same; gave = gave })
      (λ w. absurd (ground arith)) e

claim-Claims :
    (jobs jobs' : Jobs) (call : ClaimCall) (c : ClaimedJob)
    → claim jobs call ≡ ok (jobs', some c)
    → Claims jobs jobs' call c
unfolding claim
claim-Claims jobs jobs' call c e = elim (Bool-cases (is_empty call.kinds)) [
  | inl n ↦ absurd (ground arith)
  | inr n ↦ claim_row-Claims jobs jobs' call c _ refl (rw (n, claim) at e)
]

pub before-IsOrder : IsOrder before
unfolding before
before-IsOrder = record {
  irreflexive = λ a. ground arith;
  asymmetric = λ a b h. ground arith;
  through = λ a b c h k. ground arith;
}

-- The row is stored and comes first among the runnable ones.
pub record IsNext (jobs : Jobs) (call : ClaimCall) (r : JobRow) : Type 0 where
  pub stored : IsIn r jobs.rows
  pub runnable : is_runnable call.kinds call.now r ≡ true
  pub least : All (λ s. (is_runnable call.kinds call.now s && before s r) ≡ false) jobs.rows

-- The row that a claim takes, and what it writes.
pub claim_takes :
    (jobs jobs' : Jobs) (call : ClaimCall) (c : ClaimedJob)
    → claim jobs call ≡ ok (jobs', some c)
    → (r : JobRow) × IsNext jobs call r
      × (c ≡ claimed r (token_of call) r.payload)
      × (jobs'
          ≡ updated jobs
              (has_id r.job_id)
              (leased_to (token_of call) (call.from + call.lease_ms) call.stamp))
claim_takes jobs jobs' call c e =
    let w = claim-Claims jobs jobs' call c e in
    let runs = is_runnable call.kinds call.now in
    let (runnable, stored) =
      first_by-some before runs (λ r. IsIn r jobs.rows) jobs.rows w.row (All-IsIn jobs.rows)
        w.found in
    (
      w.row,
      record {
        stored = stored;
        runnable = runnable;
        least = first_by_least before runs before-IsOrder jobs.rows w.row w.found;
      },
      w.gave,
      w.wrote,
    )

hand_out_gives :
    (p : Payload) (jobs jobs' : Jobs) (row : JobRow) (lease_token : String)
    → row.payload ≡ p
    → hand_out jobs row lease_token ≢ ok (jobs', none)
hand_out_gives Payload.invalid jobs jobs' row lease_token q e = ground arith
hand_out_gives _ jobs jobs' row lease_token q e = ground arith

claim_row-none :
    (jobs jobs' : Jobs) (found : Option JobRow) (lease_token : String) (expires stamp : ℕ)
    → claim_row jobs found lease_token expires stamp ≡ ok (jobs', none)
    → (found ≡ none) × (jobs' ≡ jobs)
unfolding claim_row
claim_row-none jobs jobs' none lease_token expires stamp e = (refl, ground arith)
claim_row-none jobs jobs' (some row) lease_token expires stamp e = absurd (
    update_jobs_elim (λ r. (r >>= λ u. hand_out u.0 row lease_token) ≢ ok (jobs', none)) jobs
      (has_id row.job_id) (leased_to lease_token expires stamp)
      (hand_out_gives row.payload _ jobs' row lease_token refl) (λ w. ground arith) e)

no_kinds :
    (kinds : List JobKind) (now : ℕ) (r : JobRow)
    → is_empty kinds ≡ true
    → is_runnable kinds now r ≡ false
unfolding has_kind
no_kinds [] now r e = ground arith
no_kinds (k ∷ kinds) now r e = cc

-- A claim that hands out nothing leaves the table as it is, and no row is pending, due and of a
-- requested kind.
pub claim_finds_none :
    (jobs jobs' : Jobs) (call : ClaimCall)
    → claim jobs call ≡ ok (jobs', none)
    → All (λ r. is_runnable call.kinds call.now r ≡ false) jobs.rows × (jobs' ≡ jobs)
unfolding claim
claim_finds_none jobs jobs' call e = elim (Bool-cases (is_empty call.kinds)) [
  | inl n ↦ (All-of _ jobs.rows (λ r. no_kinds call.kinds call.now r n), ground arith)
  | inr n ↦
      let (nothing, same) =
        claim_row-none jobs jobs' _ (token_of call) (call.from + call.lease_ms) call.stamp
          (rw (n, claim) at e) in
      (first_by-none before (is_runnable call.kinds call.now) jobs.rows nothing, same)
]

-- The claim's job is leased, under the claim's token, in every row of its identifier.
abbrev pub IsHeldBy : ClaimedJob → JobRow → Type 0
IsHeldBy c r =
    has_id c.job_id r ≡ true → (r.state ≡ JobState.leased) × (r.lease_owner ≡ some c.lease_token)

pub claim-IsHeldBy :
    (jobs jobs' : Jobs) (call : ClaimCall) (c : ClaimedJob)
    → claim jobs call ≡ ok (jobs', some c)
    → All (IsHeldBy c) jobs'.rows
claim-IsHeldBy jobs jobs' call c e =
    let w = claim-Claims jobs jobs' call c e in
    let gave = w.gave in
    subst (λ j. All (IsHeldBy c) j.rows) (sym w.wrote)
      (update_split (IsHeldBy c) (has_id w.row.job_id) _ jobs.rows
        (λ r hit h. (refl, ap (λ d. some d.lease_token) (sym gave)))
        (λ r miss h. absurd (ground (arith, ap (λ d. has_id d.job_id r) gave))))

-- Of two claims with nothing else in between, the second never hands out the job of the first,
-- whoever makes it and whatever kinds and times it has.
pub claims_are_exclusive :
    (jobs jobs₁ jobs₂ : Jobs) (call₁ call₂ : ClaimCall) (c₁ c₂ : ClaimedJob)
    → claim jobs call₁ ≡ ok (jobs₁, some c₁)
    → claim jobs₁ call₂ ≡ ok (jobs₂, some c₂)
    → c₁.job_id ≢ c₂.job_id
claims_are_exclusive jobs jobs₁ jobs₂ call₁ call₂ c₁ c₂ e₁ e₂ same =
    let w = claim-Claims jobs₁ jobs₂ call₂ c₂ e₂ in
    let (runnable, held) =
      first_by-some before (is_runnable call₂.kinds call₂.now) (IsHeldBy c₁) jobs₁.rows w.row
        (claim-IsHeldBy jobs jobs₁ call₁ c₁ e₁) w.found in
    let own : w.row.job_id ≡ c₁.job_id = ap (λ d. d.job_id) (sym w.gave) ∙ sym same in
    let leased = held (rw own (eq_refl c₁.job_id)) in ground arith
