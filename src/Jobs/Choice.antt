-- ===== src/Jobs/Choice.antt =====
-- Which job `claim` of src/jobs/queue.ts hands out, said of the rows themselves.
use Prim.Native.String.{String}
use text.Mathlib.TextEquality.{eq_iff}
use openmurmur.Prelude.{
  ℕ, ◌+◌, ◌≤◌, ◌<◌, ◌≡◌, ◌≢◌, ◌⊎◌, inl, inr, refl, sym, subst, true, false, some, List, [], ◌∷◌,
  All, arith, ok, leb→le, Bool-cases, ltb,
}
use openmurmur.Table.Laws.{IsIn, map-All}
use openmurmur.Table.Pairs.{Pairs, update-Pairs}
use openmurmur.Jobs.Types.{
  JobKind, JobState, JobRow, Jobs, ClaimCall, ClaimedJob, deliver_audio, deliver_transcript, asr,
  incoming_audio, summarize, deliver_report,
}
use openmurmur.Jobs.Claiming.{claim_takes, token_of}
use openmurmur.Jobs.{claim, is_runnable, before, rank, same_kind, has_kind, has_id}

-- Audio is delivered first, then transcripts; then speech is recognised, then summarised, then reports
-- are delivered, and the rest comes last.
abbrev pub place : JobKind → ℕ
place deliver_audio = 1
place deliver_transcript = 2
place asr = 3
place incoming_audio = 3
place summarize = 4
place deliver_report = 5
place JobKind.deliver = 6
place JobKind.digest = 6
place JobKind.retention = 6

abbrev pub IsOneOf : List JobKind → JobKind → Type 0
IsOneOf [] k = ⊥
IsOneOf (j ∷ js) k = (j ≡ k) ⊎ IsOneOf js k

-- Pending, due and of a requested kind.
abbrev pub IsRunnable : ClaimCall → JobRow → Type 0
IsRunnable call r =
    (r.state ≡ JobState.pending) × (r.run_after ≤ call.now) × IsOneOf call.kinds r.kind

-- `r` is not to wait for `s`: by kind, then by the due time, then by age.
abbrev pub GoesFirst : JobRow → JobRow → Type 0
GoesFirst r s =
    (place r.kind < place s.kind)
    ⊎ ((place r.kind ≡ place s.kind)
        × ((r.run_after < s.run_after)
            ⊎ ((r.run_after ≡ s.run_after) × (r.created_at ≤ s.created_at))))

-- The row `s` is the row `r` leased by the claim, with one attempt more, and otherwise as it was.
abbrev pub IsLeasedTo : ClaimCall → JobRow → JobRow → Type 0
IsLeasedTo call r s = s ≡ record r {
  state = JobState.leased;
  lease_owner = some (token_of call);
  lease_expires_at = some (call.from + call.lease_ms);
  attempts = r.attempts + 1;
  updated_at = call.stamp;
}

abbrev pub IsTaken : ClaimCall → String → JobRow → JobRow → Type 0
IsTaken call id r s = ((r.job_id ≡ id) × IsLeasedTo call r s) ⊎ ((r.job_id ≢ id) × (s ≡ r))

-- What the claim gives the worker of the row.
abbrev pub IsHandedOut : ClaimCall → JobRow → ClaimedJob → Type 0
IsHandedOut call r c =
    (c.job_id ≡ r.job_id)
    × (c.kind ≡ r.kind)
    × (c.payload ≡ r.payload)
    × (c.lease_token ≡ token_of call)
    × (c.attempts ≡ r.attempts + 1)
    × (c.max_attempts ≡ r.max_attempts)

place_is : (k : JobKind) → place k ≡ rank k + 1
unfolding rank
place_is k = ground arith

same_kind_eq : (j k : JobKind) → same_kind j k ≡ true → j ≡ k
same_kind_eq j k h = ground (arith, h)

same_kind_refl : (k : JobKind) → same_kind k k ≡ true
same_kind_refl k = ground arith

has_kind-IsOneOf : (kinds : List JobKind) (k : JobKind) → has_kind kinds k ≡ true → IsOneOf kinds k
unfolding has_kind
has_kind-IsOneOf [] k h = absurd (cc)
has_kind-IsOneOf (j ∷ js) k h = elim (Bool-cases (same_kind j k)) [
  | inl e ↦ inl (same_kind_eq j k e)
  | inr e ↦ inr (has_kind-IsOneOf js k (ground (arith, e, h)))
]

IsOneOf-found : (kinds : List JobKind) (k : JobKind) → IsOneOf kinds k → has_kind kinds k ≡ true
unfolding has_kind
IsOneOf-found [] k h = elim h [ ]
IsOneOf-found (j ∷ js) k (inl e) =
    let same = subst (λ i. same_kind i k ≡ true) (sym e) (same_kind_refl k) in rw same refl
IsOneOf-found (j ∷ js) k (inr h) =
    let later = IsOneOf-found js k h in
    elim (Bool-cases (same_kind j k)) [ inl e ↦ rw e refl | inr e ↦ rw (e, later) refl ]

not_before : (r s : JobRow) → before s r ≡ false → GoesFirst r s
unfolding before
not_before r s h = elim (Bool-cases (ltb (rank r.kind) (rank s.kind))) [
  | inl l ↦ inl (rw (place_is r.kind, place_is s.kind) (ground (arith, l)))
  | inr l ↦
      let q : rank r.kind ≡ rank s.kind = ground (arith, h, l) in
      inr (
        rw (place_is r.kind, place_is s.kind, q) refl,
        elim (Bool-cases (ltb r.run_after s.run_after)) [
          | inl d ↦ inl (ground (arith, d))
          | inr d ↦ inr (ground (arith, h, l, d), ground (arith, h, l, d))
        ],
      )
]

IsRunnable-row :
    (call : ClaimCall) (r : JobRow) → is_runnable call.kinds call.now r ≡ true → IsRunnable call r
IsRunnable-row call r h = (
  ground (arith, h),
  leb→le r.run_after call.now (ground (arith, h)),
  has_kind-IsOneOf call.kinds r.kind (ground (arith, h)),
)

row_runnable :
    (call : ClaimCall) (r : JobRow) → IsRunnable call r → is_runnable call.kinds call.now r ≡ true
row_runnable call r (p, d, k) =
    let found = IsOneOf-found call.kinds r.kind k in ground (arith, p, d, found)

-- What a claim hands out is a stored job that is pending, due and of a requested kind, and no other
-- such job was to go first: by kind (audio deliveries, then transcripts, recognition, summaries,
-- reports, the rest), then by the due time, then by age. The worker gets the job's identifier, kind,
-- payload and attempts, one more than stored, under the claim's token. In the table the job's row is
-- leased to that token until the lease expires, with one attempt more, and is otherwise as it was;
-- every other row is as it was.
pub claim_takes-IsNext :
    (jobs jobs' : Jobs) (call : ClaimCall) (c : ClaimedJob)
    → claim jobs call ≡ ok (jobs', some c)
    → (r : JobRow) × IsIn r jobs.rows
      × IsRunnable call r
      × All (λ s. IsRunnable call s → GoesFirst r s) jobs.rows
      × IsHandedOut call r c
      × Pairs (IsTaken call r.job_id) jobs.rows jobs'.rows
claim_takes-IsNext jobs jobs' call c e =
    let (r, next, gave, wrote) = claim_takes jobs jobs' call c e in
    (
      r,
      next.stored,
      IsRunnable-row call r next.runnable,
      map-All _ _ jobs.rows (λ s n w. not_before r s (ground (arith, n, row_runnable call s w)))
          next.least,
      subst (IsHandedOut call r) (sym gave) (refl, refl, refl, refl, refl, refl),
      subst (λ j. Pairs (IsTaken call r.job_id) jobs.rows j.rows) (sym wrote)
          (update-Pairs (IsTaken call r.job_id) (has_id r.job_id) _ jobs.rows
            (λ s h. inl ((eq_iff s.job_id r.job_id).0 h, refl))
            (λ s h. inr (ground (arith, h, (eq_iff s.job_id r.job_id).1), refl))),
    )
