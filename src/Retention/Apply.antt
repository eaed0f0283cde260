-- ===== src/Retention/Apply.antt =====
-- Carrying a plan out (`applyRetention` of src/retention/policy.ts). `not_after` is the order of
-- `localeCompare`.
use Prim.Native.String.{String}
use openmurmur.Prelude.{
  ℕ, suc, ◌+◌, Bool, true, false, ◌&&◌, Option, none, some, List, [], ◌∷◌, ◌++◌, negate, ◌==◌,
  if◌then◌else◌, length,
}
use openmurmur.Prelude.Text.{Text}
use openmurmur.Retention.Types.{Facts, DeletionCandidate, RetentionPlan, RetentionPlanProof}
use openmurmur.Retention.{plan_scoped_lane}
use openmurmur.Retention.Group.{
  Turn, deleted, group_stale, error, group_candidates, all_same, some_differs, unlink_all,
  GroupResult, finish_group, stale_errors,
}

-- A candidate that was unlinked, and the tables as they were then.
pub record Unlinked : Type 0 where
  pub seen : Facts
  pub candidate : DeletionCandidate

abbrev pub seen_with : Facts → List DeletionCandidate → List Unlinked
seen_with d [] = []
seen_with d (c ∷ cs) = record { seen = d; candidate = c } ∷ seen_with d cs

-- The tables, what was unlinked so far, and the counts of the result.
pub record Applied : Type 0 where
  pub facts : Facts
  pub unlinked : List Unlinked
  pub deleted : ℕ
  pub freed_bytes : ℕ
  pub errors : List (String × Text)

-- What a group adds to the result.
unfoldable pub add_result :
    Facts → DeletionCandidate → List DeletionCandidate → Applied → GroupResult → Applied
add_result seen first members a r = elim r.outcome [
  | deleted bytes ↦ record a {
    facts = r.facts;
    unlinked = a.unlinked ++ seen_with seen r.gone;
    deleted = a.deleted + length (first ∷ members);
    freed_bytes = a.freed_bytes + bytes;
  }
  | group_stale ↦ record a {
    facts = r.facts;
    unlinked = a.unlinked ++ seen_with seen r.gone;
    errors = a.errors ++ stale_errors (first ∷ members);
  }
  | error path e ↦ record a {
    facts = r.facts;
    unlinked = a.unlinked ++ seen_with seen r.gone;
    errors = a.errors ++ (path, e) ∷ [];
  }
]

-- BEGIN IMMEDIATE throws or not, and the plan still holds or not.
unfoldable pub locked_group :
    Facts → DeletionCandidate → List DeletionCandidate → Turn → Bool → Option Text → GroupResult
locked_group d first members turn eligible (some e) = record {
  facts = d;
  gone = [];
  outcome = error first.path e;
}
locked_group d first members turn false none = record {
  facts = d;
  gone = [];
  outcome = group_stale;
}
locked_group d first members turn true none =
    finish_group d first members turn (unlink_all turn.unlink (first ∷ members))

module _ (not_after : String → String → Bool) where
  unfoldable pub insert_by_path :
      DeletionCandidate → List DeletionCandidate → List DeletionCandidate
  insert_by_path c [] = c ∷ []
  insert_by_path c (x ∷ xs) =
      let later = x ∷ insert_by_path c xs in if not_after c.path x.path then c ∷ x ∷ xs else later

  unfoldable pub sorted_by_path : List DeletionCandidate → List DeletionCandidate
  sorted_by_path [] = []
  sorted_by_path (c ∷ cs) = insert_by_path c (sorted_by_path cs)

  unfoldable pub same_candidate_group : List DeletionCandidate → List DeletionCandidate → Bool
  same_candidate_group planned current =
      length planned == length current && all_same (sorted_by_path planned) (sorted_by_path current)

  unfoldable pub group_still_eligible :
      Facts → DeletionCandidate → List DeletionCandidate → RetentionPlanProof → Bool
  group_still_eligible d first members proof =
      negate (some_differs first members)
      && same_candidate_group (first ∷ members)
          (plan_scoped_lane d proof.config proof.now first.kind first.id)

  unfoldable pub apply_candidate_group :
      Facts → DeletionCandidate → List DeletionCandidate → RetentionPlanProof → Turn → GroupResult
  apply_candidate_group d first members proof turn =
      locked_group d first members turn (group_still_eligible d first members proof) turn.begins

  -- The loop over the groups: other code may run before each.
  unfoldable pub apply_groups :
      RetentionPlanProof
      → (ℕ → Turn)
      → ℕ
      → List (DeletionCandidate × List DeletionCandidate)
      → Applied
      → Applied
  apply_groups proof turns index [] a = a
  apply_groups proof turns index ((first, members) ∷ groups) a =
      let turn = turns index in
      let seen = turn.others a.facts in
      apply_groups proof turns (suc index) groups
        (add_result seen first members a (apply_candidate_group seen first members proof turn))

  -- `known`: what the plan was made with, if it was made by `planRetention` on this connection.
  unfoldable pub apply_retention :
      Option RetentionPlanProof → (ℕ → Turn) → RetentionPlan → Facts → Applied
  apply_retention none turns plan d = record {
    facts = d;
    unlinked = [];
    deleted = 0;
    freed_bytes = 0;
    errors = stale_errors plan.candidates;
  }
  apply_retention (some proof) turns plan d =
      apply_groups proof turns 0 (group_candidates plan.candidates)
        (record { facts = d; unlinked = []; deleted = 0; freed_bytes = 0; errors = [] })
