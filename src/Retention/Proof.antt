-- ===== src/Retention/Proof.antt =====
-- When it is proven that a recording may go, said of the rows themselves (the rule at the head of
-- src/retention/policy.ts).
use Prim.Native.String.{String}
use openmurmur.Prelude.{
  ℕ, ◌+◌, ◌*◌, ◌≤◌, ◌≡◌, ◌≢◌, ◌⊎◌, true, Option, none, some, List, [], ◌∷◌, ◌++◌, is_some, All,
}
use openmurmur.Prelude.Text.{Text, codes}
use openmurmur.Jobs.Types.{JobKind, JobState}
use openmurmur.Outbox.Types.{OutboxKind, OutboxState}
use openmurmur.Retention.Types.{
  SessionState, AudioSession, AudioPart, IncomingState, IncomingFile, Facts, RetentionConfig,
  DeletionKind, session_audio, rejected_session_audio, incoming_audio, quarantine,
}
use openmurmur.Retention.Eligible.{may_name}

-- Some row is as said.
abbrev pub Has {ℓ} : {A : Type ℓ} → (A → Type 0) → List A → Type 0
Has P [] = ⊥
Has P (x ∷ xs) = P x ⊎ Has P xs

-- A time that is known, and as many hours ago.
abbrev pub IsPast : Option ℕ → ℕ → ℕ → Type 0
IsPast at hours now = (t : ℕ) × (at ≡ some t) × (t + hours * 3600000 ≤ now)

abbrev pub EndsWith : String → String → Type 0
EndsWith key id = (pre : Text) × (codes key ≡ pre ++ codes id)

abbrev pub IsLive : JobState → Type 0
IsLive state = (state ≡ JobState.pending) ⊎ (state ≡ JobState.leased)

abbrev pub IsWaiting : OutboxState → Type 0
IsWaiting state = (state ≡ OutboxState.pending) ⊎ (state ≡ OutboxState.sending)

-- No job that is waiting or running ends its key with the session.
abbrev pub NoLiveJob : Facts → String → Type 0
NoLiveJob d session_id =
    All (λ j. ¬ (IsLive j.state × EndsWith j.idempotency_key session_id)) d.jobs

-- A part that is still there, whole and hashed.
abbrev pub IsWholePart : AudioPart → Type 0
IsWholePart p = (p.deleted_at ≡ none) × (p.finalized ≡ true) × (is_some p.sha256 ≡ true)

-- A session in the table.
abbrev pub IsSession : Facts → String → (AudioSession → Type 0) → Type 0
IsSession d id P = Has (λ s. (s.session_id ≡ id) × P s) d.sessions

-- The part was delivered long enough ago, its session is done, its transcript was written and sent,
-- and nothing of the session is still on its way.
pub record IsDelivered (d : Facts) (hours now : ℕ) (p : AudioPart) : Type 0 where
  pub part : IsWholePart p
  pub delivered : p.delivered ≡ true
  pub long_ago : IsPast p.delivered_at hours now
  pub session : IsSession d p.session_id (λ s. s.state ≡ SessionState.done)
  pub written : Has (λ r. (r.session_id ≡ some p.session_id) × (r.is_current ≡ true)) d.revisions
  pub told :
      Has
        (λ o.
          (o.session_id ≡ some p.session_id)
          × (o.kind ≡ OutboxKind.transcript)
          × (o.state ≡ OutboxState.sent))
        d.outbox
  pub settled : All (λ o. ¬ ((o.session_id ≡ some p.session_id) × IsWaiting o.state)) d.outbox
  pub quiet : NoLiveJob d p.session_id

abbrev pub IsRejectedSession : RetentionConfig → ℕ → AudioPart → AudioSession → Type 0
IsRejectedSession config now p s =
    (s.state ≡ SessionState.rejected)
    × (((s.rejection_reason ≡ some "insufficient_speech")
          × IsPast s.ended_at config.rejected_session_hours now)
        ⊎ ((p.delivered ≡ true) × IsPast p.delivered_at config.session_audio_hours now))

-- The session was rejected: for want of speech and long ago, or its audio was delivered long ago.
pub record IsRejected (d : Facts) (config : RetentionConfig) (now : ℕ) (p : AudioPart)
    : Type 0 where
  pub part : IsWholePart p
  pub session : IsSession d p.session_id (IsRejectedSession config now p)
  pub settled :
      All
        (λ o. ¬ (
          (o.session_id ≡ some p.session_id)
          × (o.kind ≡ OutboxKind.audio)
          × (o.state ≢ OutboxState.sent)))
        d.outbox
  pub quiet : NoLiveJob d p.session_id

-- No job that may still read the file: waiting, running or dead, and with a payload that names it or
-- cannot be read.
abbrev pub NoReader : Facts → String → Type 0
NoReader d file_uid =
    All
      (λ j. ¬ (
        (IsLive j.state ⊎ (j.state ≡ JobState.dead))
        × (j.kind ≡ JobKind.incoming_audio)
        × (may_name file_uid j.payload ≡ true)))
      d.jobs

-- The transcript of the file was written and delivered long enough ago.
pub record IsAnswered (d : Facts) (hours now : ℕ) (f : IncomingFile) : Type 0 where
  pub kept : f.deleted_at ≡ none
  pub delivered : f.state ≡ IncomingState.delivered
  pub long_ago : IsPast f.delivered_at hours now
  pub written : Has (λ r. r.incoming_file_id ≡ some f.file_uid) d.revisions
  pub unread : NoReader d f.file_uid

-- The file was refused long enough ago.
pub record IsRefused (d : Facts) (hours now : ℕ) (f : IncomingFile) : Type 0 where
  pub kept : f.deleted_at ≡ none
  pub refused : (f.state ≡ IncomingState.rejected) ⊎ (f.state ≡ IncomingState.failed)
  pub long_ago : f.updated_at + hours * 3600000 ≤ now
  pub unread : NoReader d f.file_uid

abbrev pub IsPathOf : IncomingFile → String → Type 0
IsPathOf f path = (f.quarantine_path ≡ some path) ⊎ (f.normalized_path ≡ some path)

-- The tables prove that the path of a kind and an identifier may go.
abbrev pub MayGo : Facts → RetentionConfig → ℕ → DeletionKind → String → String → Type 0
MayGo d config now session_audio id path =
    Has (λ p. (p.part_id ≡ id) × (p.path ≡ path) × IsDelivered d config.session_audio_hours now p)
      d.parts
MayGo d config now rejected_session_audio id path =
    Has (λ p. (p.part_id ≡ id) × (p.path ≡ path) × IsRejected d config now p) d.parts
MayGo d config now incoming_audio id path =
    Has (λ f. (f.file_uid ≡ id) × IsPathOf f path × IsAnswered d config.incoming_audio_hours now f)
      d.files
MayGo d config now quarantine id path =
    Has (λ f. (f.file_uid ≡ id) × IsPathOf f path × IsRefused d config.quarantine_hours now f)
      d.files
