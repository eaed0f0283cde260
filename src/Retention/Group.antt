-- ===== src/Retention/Group.antt =====
-- One group of a plan (`groupCandidates`, `applyCandidateGroup` of src/retention/policy.ts) and its
-- transaction. What the surroundings do around it is a `Turn`.
use Prim.Native.String.{String}
use text.Mathlib.Text.{◌==◌ as str_eq}
use openmurmur.Prelude.{
  ℕ, Bool, true, false, ◌&&◌, ◌||◌, Option, none, some, List, [], ◌∷◌, ◌++◌, negate, ◌==◌,
  if◌then◌else◌, map, sum,
}
use openmurmur.Prelude.Text.{Text, units, same_units}
use openmurmur.Table
use openmurmur.Retention.Types.{
  Facts, DeletionKind, session_audio, rejected_session_audio, incoming_audio, quarantine,
  DeletionCandidate,
}

-- `others`: what other code does to the tables before the group's turn. `begins` and `commits`: what
-- BEGIN, and the UPDATE or COMMIT, throw. `unlink`: what `rmSync` throws for a path. `clock`: the time it is marked.
pub record Turn : Type 0 where
  pub others : Facts → Facts
  pub begins : Option Text
  pub unlink : String → Option Text
  pub commits : Option Text
  pub clock : ℕ

pub data GroupApplyOutcome : Type 0 where
  deleted : ℕ → GroupApplyOutcome
  group_stale : GroupApplyOutcome
  error : String → Text → GroupApplyOutcome

abbrev pub kind_number : DeletionKind → ℕ
kind_number session_audio = 0
kind_number rejected_session_audio = 1
kind_number incoming_audio = 2
kind_number quarantine = 3

abbrev pub same_row : DeletionCandidate → DeletionCandidate → Bool
same_row a b = kind_number a.kind == kind_number b.kind && str_eq a.id b.id

-- The groups of a Map in the order of their first candidate, each with what is behind the first.
unfoldable pub group_with :
    DeletionCandidate
    → List (DeletionCandidate × List DeletionCandidate)
    → List (DeletionCandidate × List DeletionCandidate)
group_with c [] = (c, []) ∷ []
group_with c ((first, members) ∷ groups) =
    let others = (first, members) ∷ group_with c groups in
    if same_row c first then (first, members ++ c ∷ []) ∷ groups else others

unfoldable pub group_from :
    List (DeletionCandidate × List DeletionCandidate)
    → List DeletionCandidate
    → List (DeletionCandidate × List DeletionCandidate)
group_from groups [] = groups
group_from groups (c ∷ cs) = group_from (group_with c groups) cs

abbrev pub group_candidates :
    List DeletionCandidate → List (DeletionCandidate × List DeletionCandidate)
group_candidates cs = group_from [] cs

abbrev pub same_candidate : DeletionCandidate → DeletionCandidate → Bool
same_candidate a b =
    same_row a b && str_eq a.path b.path && a.bytes == b.bytes && same_units a.reason b.reason

unfoldable pub all_same : List DeletionCandidate → List DeletionCandidate → Bool
all_same [] cs = true
all_same (a ∷ planned) [] = false
all_same (a ∷ planned) (b ∷ current) = same_candidate a b && all_same planned current

abbrev pub some_differs : DeletionCandidate → List DeletionCandidate → Bool
some_differs first [] = false
some_differs first (c ∷ cs) = negate (same_row c first) || some_differs first cs

abbrev pub unlink_step :
    DeletionCandidate
    → Option Text
    → List DeletionCandidate × Option (String × Text)
    → List DeletionCandidate × Option (String × Text)
unlink_step c none (gone, thrown) = (c ∷ gone, thrown)
unlink_step c (some e) rest = ([], some (c.path, e))

-- The removal of the paths of a group in turn: the candidates whose path is gone, and what was
-- thrown at which path.
unfoldable pub unlink_all :
    (String → Option Text)
    → List DeletionCandidate
    → List DeletionCandidate × Option (String × Text)
unlink_all unlink [] = ([], none)
unlink_all unlink (c ∷ cs) = let rest = unlink_all unlink cs in unlink_step c (unlink c.path) rest

unfoldable pub mark_part : Facts → String → ℕ → Facts
mark_part d id now = record d {
  parts = Table.update (λ p. str_eq p.part_id id) (λ p. record p { deleted_at = some now }) d.parts;
}

unfoldable pub mark_file : Facts → String → ℕ → Facts
mark_file d id now = record d {
  files =
      Table.update (λ f. str_eq f.file_uid id)
        (λ f. record f { deleted_at = some now; updated_at = now }) d.files;
}

abbrev pub mark_deleted : DeletionKind → Facts → String → ℕ → Facts
mark_deleted session_audio d id now = mark_part d id now
mark_deleted rejected_session_audio d id now = mark_part d id now
mark_deleted incoming_audio d id now = mark_file d id now
mark_deleted quarantine d id now = mark_file d id now

abbrev pub last_path : String → List DeletionCandidate → String
last_path path [] = path
last_path path (c ∷ cs) = last_path c.path cs

-- What one group leaves: the tables, the candidates that were unlinked, and the outcome.
pub record GroupResult : Type 0 where
  pub facts : Facts
  pub gone : List DeletionCandidate
  pub outcome : GroupApplyOutcome

-- The row is marked, and COMMIT throws or not.
unfoldable pub commit_group :
    Facts
    → DeletionCandidate
    → List DeletionCandidate
    → List DeletionCandidate
    → ℕ
    → Option Text
    → GroupResult
commit_group d first members gone now (some e) = record {
  facts = d;
  gone = gone;
  outcome = error (last_path first.path members) e;
}
commit_group d first members gone now none = record {
  facts = mark_deleted first.kind d first.id now;
  gone = gone;
  outcome = deleted (sum (map (λ c. c.bytes) (first ∷ members)));
}

-- The rest of the transaction once the paths have been tried.
unfoldable pub finish_group :
    Facts
    → DeletionCandidate
    → List DeletionCandidate
    → Turn
    → List DeletionCandidate × Option (String × Text)
    → GroupResult
finish_group d first members turn (gone, some (path, e)) = record {
  facts = d;
  gone = gone;
  outcome = error path e;
}
finish_group d first members turn (gone, none) =
    commit_group d first members gone turn.clock turn.commits

abbrev pub stale_plan_error : Text
stale_plan_error =
    units "retention plan became stale after database facts changed; rerun retention dry-run"

abbrev pub stale_errors : List DeletionCandidate → List (String × Text)
stale_errors [] = []
stale_errors (c ∷ cs) = (c.path, stale_plan_error) ∷ stale_errors cs
