-- ===== src/Retention/Once.antt =====
-- What a group leaves in the tables, and that a row is deleted once (`applyCandidateGroup` and the
-- queries of src/retention/policy.ts).
use Prim.Native.String.{String}
use text.Mathlib.Text.{◌==◌ as str_eq}
use text.Mathlib.TextEquality.{eq_iff}
use openmurmur.Prelude.{
  ℕ, ◌≡◌, ◌≢◌, ◌⊎◌, inl, inr, refl, ap, Bool, true, false, Option, none, some, List, [], ◌∷◌, map,
  sum,
}
use openmurmur.Prelude.Text.{Text}
use openmurmur.Table.Pairs.{Pairs, update-Pairs}
use openmurmur.Retention.Types.{
  AudioPart, IncomingFile, Facts, DeletionKind, session_audio, rejected_session_audio,
  incoming_audio, quarantine, DeletionCandidate, RetentionPlanProof,
}
use openmurmur.Retention.Apply.{locked_group, group_still_eligible, apply_candidate_group}
use openmurmur.Retention.Group.{
  Turn, GroupApplyOutcome, deleted, group_stale, error, unlink_step, unlink_all, mark_part,
  mark_file, mark_deleted, commit_group, finish_group, GroupResult,
}

not_equal : (a b : String) → str_eq a b ≡ false → a ≢ b
not_equal a b e same = let f = (eq_iff a b).1 same in cc

-- The row has the identifier and was given a deletion time, or it has another and is as it was.
abbrev pub PartIsMarked : String → ℕ → AudioPart → AudioPart → Type 0
PartIsMarked id now p q =
    ((p.part_id ≡ id) × (q ≡ record p { deleted_at = some now })) ⊎ ((p.part_id ≢ id) × (q ≡ p))

-- A file likewise, with the time of the change.
abbrev pub FileIsMarked : String → ℕ → IncomingFile → IncomingFile → Type 0
FileIsMarked id now f g =
    ((f.file_uid ≡ id) × (g ≡ record f { deleted_at = some now; updated_at = now }))
    ⊎ ((f.file_uid ≢ id) × (g ≡ f))

abbrev pub OnlyPartsMarked : String → ℕ → Facts → Facts → Type 0
OnlyPartsMarked id now d e =
    Pairs (PartIsMarked id now) d.parts e.parts × (e ≡ record d { parts = e.parts })

abbrev pub OnlyFilesMarked : String → ℕ → Facts → Facts → Type 0
OnlyFilesMarked id now d e =
    Pairs (FileIsMarked id now) d.files e.files × (e ≡ record d { files = e.files })

-- The row of a candidate is marked, and nothing else in the tables differs.
abbrev pub IsMarked : DeletionKind → String → ℕ → Facts → Facts → Type 0
IsMarked session_audio id now d e = OnlyPartsMarked id now d e
IsMarked rejected_session_audio id now d e = OnlyPartsMarked id now d e
IsMarked incoming_audio id now d e = OnlyFilesMarked id now d e
IsMarked quarantine id now d e = OnlyFilesMarked id now d e

mark_part-Pairs :
    (d : Facts) (id : String) (now : ℕ)
    → Pairs (PartIsMarked id now) d.parts (mark_part d id now).parts
unfolding mark_part
mark_part-Pairs d id now =
    update-Pairs (PartIsMarked id now) (λ p. str_eq p.part_id id) _ d.parts
      (λ p e. inl ((eq_iff p.part_id id).0 e, refl)) (λ p e. inr (not_equal p.part_id id e, refl))

mark_file-Pairs :
    (d : Facts) (id : String) (now : ℕ)
    → Pairs (FileIsMarked id now) d.files (mark_file d id now).files
unfolding mark_file
mark_file-Pairs d id now =
    update-Pairs (FileIsMarked id now) (λ f. str_eq f.file_uid id) _ d.files
      (λ f e. inl ((eq_iff f.file_uid id).0 e, refl)) (λ f e. inr (not_equal f.file_uid id e, refl))

mark_deleted-IsMarked :
    (kind : DeletionKind) (d : Facts) (id : String) (now : ℕ)
    → IsMarked kind id now d (mark_deleted kind d id now)
unfolding mark_part mark_file
mark_deleted-IsMarked session_audio d id now = (mark_part-Pairs d id now, refl)
mark_deleted-IsMarked rejected_session_audio d id now = (mark_part-Pairs d id now, refl)
mark_deleted-IsMarked incoming_audio d id now = (mark_file-Pairs d id now, refl)
mark_deleted-IsMarked quarantine d id now = (mark_file-Pairs d id now, refl)

-- A row is marked once every path of it is gone, and else the tables are as they were.
abbrev pub IsAllOrNothing :
    Facts
    → DeletionCandidate
    → List DeletionCandidate
    → ℕ
    → GroupResult
    → GroupApplyOutcome
    → Type 0
IsAllOrNothing d first members now r (deleted bytes) =
    (r.gone ≡ first ∷ members)
    × IsMarked first.kind first.id now d r.facts
    × (bytes ≡ sum (map (λ c. c.bytes) (first ∷ members)))
IsAllOrNothing d first members now r group_stale = (r.gone ≡ []) × (r.facts ≡ d)
IsAllOrNothing d first members now r (error path e) = r.facts ≡ d

-- The removal went through, or some path threw.
abbrev AllGone : List DeletionCandidate → List DeletionCandidate × Option (String × Text) → Type 0
AllGone cs (gone, none) = gone ≡ cs
AllGone cs (gone, some e) = Unit

unlink_all-AllGone :
    (unlink : String → Option Text) (cs : List DeletionCandidate)
    → AllGone cs (unlink_all unlink cs)
unfolding unlink_all
unlink_all-AllGone unlink [] = refl
unlink_all-AllGone unlink (c ∷ cs) =
    step (unlink c.path) (unlink_all unlink cs) (unlink_all-AllGone unlink cs)
  where
    step :
        (thrown : Option Text) (rest : List DeletionCandidate × Option (String × Text))
        → AllGone cs rest
        → AllGone (c ∷ cs) (unlink_step c thrown rest)
    step none (gone, none) h = ap (λ t. c ∷ t) h
    step none (gone, some e) h = tt
    step (some e) rest h = tt

commit_group-IsAllOrNothing :
    (d : Facts) (first : DeletionCandidate) (members gone : List DeletionCandidate) (now : ℕ)
    (thrown : Option Text)
    → gone ≡ first ∷ members
    → IsAllOrNothing d first members now
        (commit_group d first members gone now thrown)
        (commit_group d first members gone now thrown).outcome
unfolding commit_group
commit_group-IsAllOrNothing d first members gone now none h =
    (h, mark_deleted-IsMarked first.kind d first.id now, refl)
commit_group-IsAllOrNothing d first members gone now (some e) h = refl

finish_group-IsAllOrNothing :
    (d : Facts) (first : DeletionCandidate) (members : List DeletionCandidate) (turn : Turn)
    (tried : List DeletionCandidate × Option (String × Text))
    → AllGone (first ∷ members) tried
    → IsAllOrNothing d first members turn.clock
        (finish_group d first members turn tried)
        (finish_group d first members turn tried).outcome
unfolding finish_group
finish_group-IsAllOrNothing d first members turn (gone, none) h =
    commit_group-IsAllOrNothing d first members gone turn.clock turn.commits h
finish_group-IsAllOrNothing d first members turn (gone, some e) h = refl

locked_group-IsAllOrNothing :
    (d : Facts) (first : DeletionCandidate) (members : List DeletionCandidate) (turn : Turn)
    (eligible : Bool) (thrown : Option Text)
    → IsAllOrNothing d first members turn.clock
        (locked_group d first members turn eligible thrown)
        (locked_group d first members turn eligible thrown).outcome
unfolding locked_group
locked_group-IsAllOrNothing d first members turn eligible (some e) = refl
locked_group-IsAllOrNothing d first members turn false none = (refl, refl)
locked_group-IsAllOrNothing d first members turn true none =
    finish_group-IsAllOrNothing d first members turn (unlink_all turn.unlink (first ∷ members))
      (unlink_all-AllGone turn.unlink (first ∷ members))

-- If a group counts as deleted, every path of it was removed, the rows of its identifier have the time
-- of the run as their deletion time, every other row and table is as it was, and its bytes are
-- counted. If it is stale, nothing is removed and the tables are as they were. If BEGIN,
-- a removal or COMMIT throws, the tables are as they were.
pub apply_candidate_group-IsAllOrNothing :
    (not_after : String → String → Bool) (d : Facts) (first : DeletionCandidate)
    (members : List DeletionCandidate) (proof : RetentionPlanProof) (turn : Turn)
    → IsAllOrNothing d first members turn.clock
        (apply_candidate_group not_after d first members proof turn)
        (apply_candidate_group not_after d first members proof turn).outcome
unfolding apply_candidate_group
apply_candidate_group-IsAllOrNothing not_after d first members proof turn =
    locked_group-IsAllOrNothing d first members turn
      (group_still_eligible not_after d first members proof) turn.begins
