-- ===== src/Retention/Lanes.antt =====
-- What each query of src/retention/policy.ts selects may go.
use Prim.Native.String.{String}
use openmurmur.Prelude.{
  ℕ, ◌≡◌, inl, inr, refl, sym, subst, Bool, true, ◌&&◌, Option, none, some, List, [], ◌∷◌, All,
  Bool-cases,
}
use openmurmur.Prelude.Text.{Text}
use openmurmur.Table.Laws.{append-All}
use openmurmur.Retention.Types.{
  AudioPart, IncomingFile, Facts, RetentionConfig, DeletionKind, session_audio,
  rejected_session_audio, incoming_audio, quarantine, DeletionCandidate,
}
use openmurmur.Retention.Eligible.{is_eligible, is_eligible_rejected, joins}
use openmurmur.Retention.Columns.{hours_ago_iso}
use openmurmur.Retention.{
  in_scope, session_candidates, rejected_candidates, file_candidates, at_path, plan_scoped_lane,
  plan_session_audio, plan_rejected_session_audio, plan_incoming_audio, plan_quarantine,
  plan_retention,
}
use openmurmur.Retention.Proof.{
  Has, IsDelivered, IsRejected, IsAnswered, IsRefused, IsPathOf, MayGo,
}
use openmurmur.Retention.Rows.{All-map, and_left}
use openmurmur.Retention.Proven.{
  is_eligible-IsDelivered, is_eligible_rejected-IsRejected, is_eligible_incoming-IsAnswered,
  is_eligible_quarantine-IsRefused,
}

-- A candidate of one kind, for a row that is as said.
abbrev IsFor {ℓ} :
    {A : Type ℓ}
    → (DeletionCandidate → A → Type 0)
    → DeletionKind
    → List A
    → DeletionCandidate
    → Type 0
IsFor P kind rows c = (c.kind ≡ kind) × Has (P c) rows

wider :
    {A : Type 0} (P : DeletionCandidate → A → Type 0) (kind : DeletionKind) (row : A)
    (rows : List A) (cs : List DeletionCandidate)
    → All (IsFor P kind rows) cs
    → All (IsFor P kind (row ∷ rows)) cs
wider P kind row rows cs h =
    All-map (IsFor P kind rows) (IsFor P kind (row ∷ rows)) cs (λ c (k, r). (k, inr r)) h

module _ (d : Facts) (config : RetentionConfig) (now : ℕ) (scope : Option String) where
  abbrev ForDelivered : DeletionCandidate → AudioPart → Type 0
  ForDelivered c p =
      (p.part_id ≡ c.id) × (p.path ≡ c.path) × IsDelivered d config.session_audio_hours now p

  abbrev ForRejected : DeletionCandidate → AudioPart → Type 0
  ForRejected c p = (p.part_id ≡ c.id) × (p.path ≡ c.path) × IsRejected d config now p

  session_candidates-IsFor :
      (ps : List AudioPart)
      → All
          (IsFor ForDelivered session_audio ps)
          (session_candidates d config (hours_ago_iso config.session_audio_hours now) scope ps)
  unfolding session_candidates
  session_candidates-IsFor [] = tt
  session_candidates-IsFor (p ∷ ps) =
      let rest = wider ForDelivered session_audio p ps _ (session_candidates-IsFor ps) in
      elim (Bool-cases (
        joins d.sessions (λ q s. is_eligible d q (hours_ago_iso config.session_audio_hours now) s) p
        && in_scope scope p.part_id)) [
          | inl e ↦ rw e (
            (
              refl,
              inl (
                refl,
                refl,
                is_eligible-IsDelivered d config.session_audio_hours now p (and_left _ _ e),
              ),
            ),
            rest,
          )
          | inr e ↦ rw e rest
        ]

  rejected_candidates-IsFor :
      (ps : List AudioPart)
      → All (IsFor ForRejected rejected_session_audio ps) (
          rejected_candidates d config
            (hours_ago_iso config.rejected_session_hours now)
            (hours_ago_iso config.session_audio_hours now)
            scope
            ps)
  unfolding rejected_candidates
  rejected_candidates-IsFor [] = tt
  rejected_candidates-IsFor (p ∷ ps) =
      let rest = wider ForRejected rejected_session_audio p ps _ (rejected_candidates-IsFor ps) in
      elim (Bool-cases (
        joins d.sessions
          (is_eligible_rejected d (hours_ago_iso config.rejected_session_hours now)
            (hours_ago_iso config.session_audio_hours now))
          p
        && in_scope scope p.part_id)) [
          | inl e ↦ rw e (
            (
              refl,
              inl (refl, refl, is_eligible_rejected-IsRejected d config now p (and_left _ _ e)),
            ),
            rest,
          )
          | inr e ↦ rw e rest
        ]

abbrev ForFile : (IncomingFile → Type 0) → DeletionCandidate → IncomingFile → Type 0
ForFile P c f = (f.file_uid ≡ c.id) × IsPathOf f c.path × P f

module _ (kind : DeletionKind) (reason : Text) (test : IncomingFile → Bool)
    (scope : Option String) where
  at_path-IsFor :
      (P : IncomingFile → Type 0) (f : IncomingFile) (fs : List IncomingFile) (path : Option String)
      → P f
      → ((t : String) → path ≡ some t → IsPathOf f t)
      → All (IsFor (ForFile P) kind (f ∷ fs)) (at_path kind reason f path)
  at_path-IsFor P f fs none p h = tt
  at_path-IsFor P f fs (some t) p h = ((refl, inl (refl, h t refl, p)), tt)

  file_candidates-IsFor :
      (P : IncomingFile → Type 0)
      → ((f : IncomingFile) → test f ≡ true → P f)
      → (fs : List IncomingFile)
      → All (IsFor (ForFile P) kind fs) (file_candidates kind reason test scope fs)
  unfolding file_candidates
  file_candidates-IsFor P sound [] = tt
  file_candidates-IsFor P sound (f ∷ fs) =
      let rest = wider (ForFile P) kind f fs _ (file_candidates-IsFor P sound fs) in
      append-All (IsFor (ForFile P) kind (f ∷ fs)) _ _
        (elim (Bool-cases (test f && in_scope scope f.file_uid)) [
          | inl e ↦ rw e (
              append-All (IsFor (ForFile P) kind (f ∷ fs)) _ _
                (at_path-IsFor P f fs f.quarantine_path (sound f (and_left _ _ e)) (λ t h. inl h))
                (at_path-IsFor P f fs f.normalized_path (sound f (and_left _ _ e)) (λ t h. inr h)))
          | inr e ↦ rw e tt
        ])
        rest

-- What the tables prove of a candidate.
abbrev pub IsProven : Facts → RetentionConfig → ℕ → DeletionCandidate → Type 0
IsProven d config now c = MayGo d config now c.kind c.id c.path

-- What each query plans, for one row or for all, the tables prove.
module _ (d : Facts) (config : RetentionConfig) (now : ℕ) (scope : Option String) where
  session_audio-IsProven : All (IsProven d config now) (plan_session_audio d config now scope)
  session_audio-IsProven =
      All-map (IsFor (ForDelivered d config now scope) session_audio d.parts) _ _
        (λ c (k, h). subst (λ kind. MayGo d config now kind c.id c.path) (sym k) h)
        (session_candidates-IsFor d config now scope d.parts)

  rejected_audio-IsProven :
      All (IsProven d config now) (plan_rejected_session_audio d config now scope)
  rejected_audio-IsProven =
      All-map (IsFor (ForRejected d config now scope) rejected_session_audio d.parts) _ _
        (λ c (k, h). subst (λ kind. MayGo d config now kind c.id c.path) (sym k) h)
        (rejected_candidates-IsFor d config now scope d.parts)

  incoming_audio-IsProven : All (IsProven d config now) (plan_incoming_audio d config now scope)
  incoming_audio-IsProven =
      All-map
        (IsFor (ForFile (IsAnswered d config.incoming_audio_hours now)) incoming_audio d.files) _ _
        (λ c (k, h). subst (λ kind. MayGo d config now kind c.id c.path) (sym k) h)
        (file_candidates-IsFor incoming_audio _ _ scope
          (IsAnswered d config.incoming_audio_hours now)
          (λ f e. is_eligible_incoming-IsAnswered d config.incoming_audio_hours now f e) d.files)

  quarantine-IsProven : All (IsProven d config now) (plan_quarantine d config now scope)
  quarantine-IsProven =
      All-map (IsFor (ForFile (IsRefused d config.quarantine_hours now)) quarantine d.files) _ _
        (λ c (k, h). subst (λ kind. MayGo d config now kind c.id c.path) (sym k) h)
        (file_candidates-IsFor quarantine _ _ scope (IsRefused d config.quarantine_hours now)
          (λ f e. is_eligible_quarantine-IsRefused d config.quarantine_hours now f e) d.files)

pub plan_scoped_lane-MayGo :
    (d : Facts) (config : RetentionConfig) (now : ℕ) (kind : DeletionKind) (id : String)
    → All (λ c. MayGo d config now c.kind c.id c.path) (plan_scoped_lane d config now kind id)
unfolding plan_scoped_lane
plan_scoped_lane-MayGo d config now session_audio id = session_audio-IsProven d config now (some id)
plan_scoped_lane-MayGo d config now rejected_session_audio id =
    rejected_audio-IsProven d config now (some id)
plan_scoped_lane-MayGo d config now incoming_audio id =
    incoming_audio-IsProven d config now (some id)
plan_scoped_lane-MayGo d config now quarantine id = quarantine-IsProven d config now (some id)

pub plan_retention-IsProven :
    (d : Facts) (config : RetentionConfig) (now : ℕ)
    → All (IsProven d config now) (plan_retention d config now).candidates
unfolding plan_retention
plan_retention-IsProven d config now =
    append-All (IsProven d config now) _ _ (session_audio-IsProven d config now none) (
      append-All (IsProven d config now) _ _ (rejected_audio-IsProven d config now none) (
        append-All (IsProven d config now) _ _ (incoming_audio-IsProven d config now none)
          (quarantine-IsProven d config now none)))
