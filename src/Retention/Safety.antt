-- ===== src/Retention/Safety.antt =====
-- What is unlinked has been proven to be deletable just before (`applyRetention` of
-- src/retention/policy.ts).
use Prim.Native.String.{String}
use text.Mathlib.TextEquality.{eq_iff}
use openmurmur.Prelude.{
  ℕ, suc, ◌≡◌, inl, inr, refl, sym, subst, Bool, true, false, ◌==◌, Option, none, some, List, [],
  ◌∷◌, All, Bool-cases, arith,
}
use openmurmur.Prelude.Text.{Text}
use openmurmur.Table.Laws.{append-All}
use openmurmur.Retention.Types.{
  Facts, DeletionKind, DeletionCandidate, RetentionPlan, RetentionPlanProof,
}
use openmurmur.Retention.{plan_scoped_lane}
use openmurmur.Retention.Apply.{
  locked_group, Unlinked, seen_with, Applied, add_result, insert_by_path, sorted_by_path,
  same_candidate_group, group_still_eligible, apply_candidate_group, apply_groups, apply_retention,
}
use openmurmur.Retention.Group.{
  Turn, GroupApplyOutcome, deleted, group_stale, error, kind_number, same_candidate, all_same,
  unlink_step, unlink_all, commit_group, finish_group, group_candidates,
}
use openmurmur.Retention.Proof.{MayGo}
use openmurmur.Retention.Rows.{and_left, and_right}
use openmurmur.Retention.Lanes.{plan_scoped_lane-MayGo}

-- The same three facts about a candidate: its kind, its row and its path.
abbrev Fits : (DeletionKind → String → String → Type 0) → DeletionCandidate → Type 0
Fits P c = P c.kind c.id c.path

kind_number_inj : (a b : DeletionKind) → (kind_number a == kind_number b) ≡ true → a ≡ b
kind_number_inj a b h = ground (arith, h)

same_candidate-Fits :
    (P : DeletionKind → String → String → Type 0) (a b : DeletionCandidate)
    → same_candidate a b ≡ true
    → Fits P b
    → Fits P a
same_candidate-Fits P a b h fits =
    let e2 = and_left _ _ (and_left _ _ h) in
    let row = and_left _ _ e2 in
    let kind = kind_number_inj a.kind b.kind (and_left _ _ row) in
    let id = (eq_iff a.id b.id).0 (and_right _ _ row) in
    let path = (eq_iff a.path b.path).0 (and_right _ _ e2) in
    subst (λ k. P k a.id a.path) (sym kind)
      (subst (λ i. P b.kind i a.path) (sym id) (subst (λ t. P b.kind b.id t) (sym path) fits))

all_same-Fits :
    (P : DeletionKind → String → String → Type 0) (planned current : List DeletionCandidate)
    → all_same planned current ≡ true
    → All (Fits P) current
    → All (Fits P) planned
unfolding all_same
all_same-Fits P [] current h fits = tt
all_same-Fits P (a ∷ planned) [] h fits = absurd (cc)
all_same-Fits P (a ∷ planned) (b ∷ current) h (fit, fits) = (
  same_candidate-Fits P a b (and_left _ _ h) fit,
  all_same-Fits P planned current (and_right _ _ h) fits,
)

unlink_step-All :
    (Q : DeletionCandidate → Type 0) (c : DeletionCandidate) (thrown : Option Text)
    (rest : List DeletionCandidate × Option (String × Text))
    → Q c
    → All Q rest.0
    → All Q (unlink_step c thrown rest).0
unlink_step-All Q c none rest q h = (q, h)
unlink_step-All Q c (some e) rest q h = tt

unlink_all-All :
    (Q : DeletionCandidate → Type 0) (unlink : String → Option Text) (cs : List DeletionCandidate)
    → All Q cs
    → All Q (unlink_all unlink cs).0
unfolding unlink_all
unlink_all-All Q unlink [] h = tt
unlink_all-All Q unlink (c ∷ cs) (q, h) =
    unlink_step-All Q c (unlink c.path) (unlink_all unlink cs) q (unlink_all-All Q unlink cs h)

commit_group-All :
    (Q : DeletionCandidate → Type 0) (d : Facts) (first : DeletionCandidate)
    (members gone : List DeletionCandidate) (now : ℕ) (thrown : Option Text)
    → All Q gone
    → All Q (commit_group d first members gone now thrown).gone
unfolding commit_group
commit_group-All Q d first members gone now none h = h
commit_group-All Q d first members gone now (some e) h = h

finish_group-All :
    (Q : DeletionCandidate → Type 0) (d : Facts) (first : DeletionCandidate)
    (members : List DeletionCandidate) (turn : Turn)
    (tried : List DeletionCandidate × Option (String × Text))
    → All Q tried.0
    → All Q (finish_group d first members turn tried).gone
unfolding finish_group
finish_group-All Q d first members turn (gone, none) h =
    commit_group-All Q d first members gone turn.clock turn.commits h
finish_group-All Q d first members turn (gone, some e) h = h

locked_group-All :
    (Q : DeletionCandidate → Type 0) (d : Facts) (first : DeletionCandidate)
    (members : List DeletionCandidate) (turn : Turn) (eligible : Bool) (thrown : Option Text)
    → (eligible ≡ true → All Q (first ∷ members))
    → All Q (locked_group d first members turn eligible thrown).gone
unfolding locked_group
locked_group-All Q d first members turn eligible (some e) h = tt
locked_group-All Q d first members turn false none h = tt
locked_group-All Q d first members turn true none h =
    finish_group-All Q d first members turn (unlink_all turn.unlink (first ∷ members))
      (unlink_all-All Q turn.unlink (first ∷ members) (h refl))

-- An unlinked candidate that the tables of the moment prove.
abbrev pub WasProven : RetentionPlanProof → Unlinked → Type 0
WasProven proof u =
    MayGo u.seen proof.config proof.now u.candidate.kind u.candidate.id u.candidate.path

seen_with-WasProven :
    (proof : RetentionPlanProof) (d : Facts) (cs : List DeletionCandidate)
    → All (Fits (MayGo d proof.config proof.now)) cs
    → All (WasProven proof) (seen_with d cs)
seen_with-WasProven proof d [] h = tt
seen_with-WasProven proof d (c ∷ cs) (p, h) = (p, seen_with-WasProven proof d cs h)

add_outcome-WasProven :
    (proof : RetentionPlanProof) (seen d : Facts) (first : DeletionCandidate)
    (members gone : List DeletionCandidate) (a : Applied) (outcome : GroupApplyOutcome)
    → All (WasProven proof) a.unlinked
    → All (WasProven proof) (seen_with seen gone)
    → All
        (WasProven proof)
        (add_result seen first members a
          (record { facts = d; gone = gone; outcome = outcome })).unlinked
unfolding add_result
add_outcome-WasProven proof seen d first members gone a (deleted bytes) p q =
    append-All (WasProven proof) a.unlinked (seen_with seen gone) p q
add_outcome-WasProven proof seen d first members gone a group_stale p q =
    append-All (WasProven proof) a.unlinked (seen_with seen gone) p q
add_outcome-WasProven proof seen d first members gone a (error path e) p q =
    append-All (WasProven proof) a.unlinked (seen_with seen gone) p q

module _ (not_after : String → String → Bool) where
  insert_by_path-All :
      (Q : DeletionCandidate → Type 0) (c : DeletionCandidate) (cs : List DeletionCandidate)
      → Q c
      → All Q cs
      → All Q (insert_by_path not_after c cs)
  unfolding insert_by_path
  insert_by_path-All Q c [] q h = (q, tt)
  insert_by_path-All Q c (x ∷ xs) q (p, h) = elim (Bool-cases (not_after c.path x.path)) [
    | inl e ↦ rw e (q, (p, h))
    | inr e ↦ rw e (p, insert_by_path-All Q c xs q h)
  ]

  sorted_by_path-All :
      (Q : DeletionCandidate → Type 0) (cs : List DeletionCandidate)
      → All Q cs
      → All Q (sorted_by_path not_after cs)
  unfolding sorted_by_path
  sorted_by_path-All Q [] h = tt
  sorted_by_path-All Q (c ∷ cs) (q, h) =
      insert_by_path-All Q c (sorted_by_path not_after cs) q (sorted_by_path-All Q cs h)

  insert_by_path-was :
      (Q : DeletionCandidate → Type 0) (c : DeletionCandidate) (cs : List DeletionCandidate)
      → All Q (insert_by_path not_after c cs)
      → Q c × All Q cs
  unfolding insert_by_path
  insert_by_path-was Q c [] (q, h) = (q, tt)
  insert_by_path-was Q c (x ∷ xs) h = elim (Bool-cases (not_after c.path x.path)) [
    | inl e ↦ rw e at h
    | inr e ↦
        let (p, later) : Q x × All Q (insert_by_path not_after c xs) = rw e at h in
        let (q, rest) = insert_by_path-was Q c xs later in (q, (p, rest))
  ]

  sorted_by_path-was :
      (Q : DeletionCandidate → Type 0) (cs : List DeletionCandidate)
      → All Q (sorted_by_path not_after cs)
      → All Q cs
  unfolding sorted_by_path
  sorted_by_path-was Q [] h = tt
  sorted_by_path-was Q (c ∷ cs) h =
      let (q, rest) = insert_by_path-was Q c (sorted_by_path not_after cs) h in
      (q, sorted_by_path-was Q cs rest)

  group_still_eligible-MayGo :
      (d : Facts) (first : DeletionCandidate) (members : List DeletionCandidate)
      (proof : RetentionPlanProof)
      → group_still_eligible not_after d first members proof ≡ true
      → All (Fits (MayGo d proof.config proof.now)) (first ∷ members)
  unfolding group_still_eligible same_candidate_group
  group_still_eligible-MayGo d first members proof h =
      sorted_by_path-was (Fits (MayGo d proof.config proof.now)) (first ∷ members) (
        all_same-Fits (MayGo d proof.config proof.now) (sorted_by_path not_after (first ∷ members))
          (sorted_by_path not_after (plan_scoped_lane d proof.config proof.now first.kind first.id))
          (and_right _ _ (and_right _ _ h))
          (sorted_by_path-All (Fits (MayGo d proof.config proof.now)) _
            (plan_scoped_lane-MayGo d proof.config proof.now first.kind first.id)))

  apply_groups-WasProven :
      (proof : RetentionPlanProof) (turns : ℕ → Turn) (index : ℕ)
      (groups : List (DeletionCandidate × List DeletionCandidate)) (a : Applied)
      → All (WasProven proof) a.unlinked
      → All (WasProven proof) (apply_groups not_after proof turns index groups a).unlinked
  unfolding apply_groups apply_candidate_group
  apply_groups-WasProven proof turns index [] a h = h
  apply_groups-WasProven proof turns index ((first, members) ∷ groups) a h =
      let turn = turns index in
      let seen = turn.others a.facts in
      let r = apply_candidate_group not_after seen first members proof turn in
      apply_groups-WasProven proof turns (suc index) groups (add_result seen first members a r) (
        add_outcome-WasProven proof seen r.facts first members r.gone a r.outcome h (
          seen_with-WasProven proof seen r.gone (
            locked_group-All (Fits (MayGo seen proof.config proof.now)) seen first members turn
              (group_still_eligible not_after seen first members proof) turn.begins
              (group_still_eligible-MayGo seen first members proof))))

  -- Whatever plan is applied and whatever other code does to the tables between the groups, for each
  -- file that is unlinked the tables of its transaction prove that it may go. A part of a session was
  -- delivered, with its transcript written and sent and no message waiting, or its session was
  -- rejected, with no audio unsent; no live job ends its key with the session. An incoming file was
  -- delivered with a transcript, or was refused, and no job that may still read it is live or dead.
  -- All of them so many hours before the time the plan was made.
  pub apply_retention-WasProven :
      (proof : RetentionPlanProof) (turns : ℕ → Turn) (plan : RetentionPlan) (d : Facts)
      → All (WasProven proof) (apply_retention not_after (some proof) turns plan d).unlinked
  unfolding apply_retention
  apply_retention-WasProven proof turns plan d =
      apply_groups-WasProven proof turns 0 (group_candidates plan.candidates) _ tt
