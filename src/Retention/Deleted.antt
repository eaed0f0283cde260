-- ===== src/Retention/Deleted.antt =====
-- A row that was deleted is never planned again (`planRetention` and `markDeleted` of
-- src/retention/policy.ts).
use Prim.Native.String.{String}
use text.Mathlib.Text.{◌==◌ as str_eq}
use text.Mathlib.TextEquality.{eq_iff}
use openmurmur.Prelude.{
  ℕ, ◌≡◌, ◌≢◌, sym, subst, Bool, true, false, none, some, List, [], ◌∷◌, All, inl, inr,
}
use openmurmur.Table.Laws.{update_split}
use openmurmur.Retention.Types.{
  Facts, RetentionConfig, DeletionKind, session_audio, rejected_session_audio, incoming_audio,
  quarantine,
}
use openmurmur.Retention.{plan_retention}
use openmurmur.Retention.Group.{mark_part, mark_file, mark_deleted}
use openmurmur.Retention.Proof.{Has, MayGo}
use openmurmur.Retention.Rows.{All-map}
use openmurmur.Retention.Lanes.{IsProven, plan_retention-IsProven}

abbrev pub is_part : DeletionKind → Bool
is_part session_audio = true
is_part rejected_session_audio = true
is_part incoming_audio = false
is_part quarantine = false

-- Every row of the identifier has a deletion time, among the parts or among the files.
abbrev pub IsGone : Bool → String → Facts → Type 0
IsGone true id d = All (λ p. p.part_id ≡ id → p.deleted_at ≢ none) d.parts
IsGone false id d = All (λ f. f.file_uid ≡ id → f.deleted_at ≢ none) d.files

module _ {A : Type 0} where
  none_there :
      (P Q : A → Type 0) (rows : List A) → ((a : A) → P a → Q a → ⊥) → All P rows → Has Q rows → ⊥
  none_there P Q [] f all h = h
  none_there P Q (a ∷ rows) f (p, all) (inl q) = f a p q
  none_there P Q (a ∷ rows) f (p, all) (inr h) = none_there P Q rows f all h

gone_is_not_proven :
    (d : Facts) (config : RetentionConfig) (now : ℕ) (kind : DeletionKind) (id path : String)
    → IsGone (is_part kind) id d
    → MayGo d config now kind id path
    → ⊥
gone_is_not_proven d config now session_audio id path =
    none_there _ _ d.parts (λ p gone (i, t, h). gone i h.part.0)
gone_is_not_proven d config now rejected_session_audio id path =
    none_there _ _ d.parts (λ p gone (i, t, h). gone i h.part.0)
gone_is_not_proven d config now incoming_audio id path =
    none_there _ _ d.files (λ f gone (i, t, h). gone i h.kept)
gone_is_not_proven d config now quarantine id path =
    none_there _ _ d.files (λ f gone (i, t, h). gone i h.kept)

unequal : (a b : String) → str_eq a b ≡ false → a ≡ b → ⊥
unequal a b e same = let f = (eq_iff a b).1 same in cc

part-IsGone : (d : Facts) (id : String) (now : ℕ) → IsGone true id (mark_part d id now)
unfolding mark_part
part-IsGone d id now =
    update_split (λ p. p.part_id ≡ id → p.deleted_at ≢ none) (λ p. str_eq p.part_id id)
      (λ p. record p { deleted_at = some now }) d.parts (λ p e i n. cc)
      (λ p e i. absurd (unequal p.part_id id e i))

file-IsGone : (d : Facts) (id : String) (now : ℕ) → IsGone false id (mark_file d id now)
unfolding mark_file
file-IsGone d id now =
    update_split (λ f. f.file_uid ≡ id → f.deleted_at ≢ none) (λ f. str_eq f.file_uid id)
      (λ f. record f { deleted_at = some now; updated_at = now }) d.files (λ f e i n. cc)
      (λ f e i. absurd (unequal f.file_uid id e i))

mark_deleted-IsGone :
    (kind : DeletionKind) (d : Facts) (id : String) (now : ℕ)
    → IsGone (is_part kind) id (mark_deleted kind d id now)
mark_deleted-IsGone session_audio d id now = part-IsGone d id now
mark_deleted-IsGone rejected_session_audio d id now = part-IsGone d id now
mark_deleted-IsGone incoming_audio d id now = file-IsGone d id now
mark_deleted-IsGone quarantine d id now = file-IsGone d id now

-- Marking a row gives it a deletion time, and whatever the tables have become: as long as the row has
-- one, no plan has a candidate for it, of either kind that deletes from its table, with any
-- configuration and at any time.
pub deleted_is_never_planned :
    (before later : Facts) (kind : DeletionKind) (id : String) (at now : ℕ)
    (config : RetentionConfig)
    → IsGone (is_part kind) id later
    → IsGone (is_part kind) id (mark_deleted kind before id at)
      × All
          (λ c. ¬ ((is_part c.kind ≡ is_part kind) × (c.id ≡ id)))
          (plan_retention later config now).candidates
deleted_is_never_planned before later kind id at now config gone = (
  mark_deleted-IsGone kind before id at,
  All-map (IsProven later config now) (λ c. ¬ ((is_part c.kind ≡ is_part kind) × (c.id ≡ id)))
      (plan_retention later config now).candidates
      (λ c p (k, i).
        gone_is_not_proven later config now c.kind c.id c.path
          (subst (λ t. IsGone t c.id later) (sym k)
            (subst (λ j. IsGone (is_part kind) j later) (sym i) gone))
          p)
      (plan_retention-IsProven later config now),
)
