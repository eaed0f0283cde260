-- ===== src/Retention/Reading.antt =====
-- What the tests of Retention/Eligible say of the rows, one lemma for each.
use Prim.Native.String.{String}
use text.Mathlib.TextEquality.{eq_iff}
use openmurmur.Prelude.{
  ◌≡◌, ◌≢◌, ◌⊎◌, inl, inr, refl, sym, ap, ◌∙◌, subst, Bool, true, false, ◌||◌, negate, none, some,
  List, ◌∷◌, All, Option-cases, arith,
}
use openmurmur.Prelude.Text.{codes}
use openmurmur.Table.{exists}
use openmurmur.Table.Laws.{exists_none}
use openmurmur.Jobs.Types.{JobKind, JobState}
use openmurmur.Outbox.Types.{OutboxKind, OutboxState}
use openmurmur.Retention.Types.{SessionState, IncomingState, AudioSession, AudioPart, Facts}
use openmurmur.Retention.Like.{like, like_end}
use openmurmur.Retention.Eligible.{
  has_live_job, session_of, has_current_transcript, has_sent_transcript, has_undelivered,
  has_unsent_audio, has_recoverable_job, has_transcript_of, may_name, joins, on_row,
  is_delivered_state, is_refused,
}
use openmurmur.Retention.Columns.{
  is_live, is_dead, is_incoming, is_transcript, is_audio, is_sent, is_done, is_rejected,
}
use openmurmur.Retention.Proof.{Has, EndsWith, IsLive, IsWaiting, NoLiveJob, NoReader}
use openmurmur.Retention.Rows.{
  Has-map, All-map, exists-Has, get-Has, and_left, and_right, is_text-eq, text_found, negated,
  live_true, waiting_true, both,
}

-- A test that is false of each row says that no row is as the test asks.
refuse :
    {A : Type 0} (test : A → Bool) (P : A → Type 0) (rows : List A)
    → ((a : A) → P a → test a ≡ true)
    → exists test rows ≡ false
    → All (λ a. ¬ (P a)) rows
refuse test P rows f h =
    All-map (λ a. test a ≡ false) (λ a. ¬ (P a)) rows (λ a e p. clash (test a) e (f a p))
      (exists_none test rows h)
  where
    clash : (b : Bool) → b ≡ false → b ≡ true → ⊥
    clash b f t = cc

pub no_live_job :
    (d : Facts) (id : String) → negate (has_live_job d.jobs id) ≡ true → NoLiveJob d id
unfolding has_live_job
no_live_job d id h =
    refuse _ (λ j. IsLive j.state × EndsWith j.idempotency_key id) d.jobs
      (λ j (live, (pre, e)).
        both _ _ (live_true j.state live)
          (subst (λ t. like (37 ∷ codes id) t ≡ true) (sym e) (like_end pre (codes id))))
      (negated _ h)

joined_test :
    (sessions : List AudioSession) (test : AudioPart → AudioSession → Bool) (p : AudioPart)
    (s : AudioSession)
    → session_of sessions p.session_id ≡ some s
    → joins sessions test p ≡ test p s
unfolding joins
joined_test sessions test p s e = ap (on_row (test p)) e

unjoined_test :
    (sessions : List AudioSession) (test : AudioPart → AudioSession → Bool) (p : AudioPart)
    → session_of sessions p.session_id ≡ none
    → joins sessions test p ≡ false
unfolding joins
unjoined_test sessions test p e = ap (on_row (test p)) e

session_of-Has :
    (sessions : List AudioSession) (id : String) (s : AudioSession)
    → session_of sessions id ≡ some s
    → Has (λ r. (r.session_id ≡ id) × (r ≡ s)) sessions
unfolding session_of
session_of-Has sessions id s e =
    Has-map _ _ sessions (λ r (t, h). ((eq_iff r.session_id id).0 t, h)) (get-Has _ sessions s e)

-- The row that a part was joined with.
pub joins-Has :
    (sessions : List AudioSession) (test : AudioPart → AudioSession → Bool) (p : AudioPart)
    → joins sessions test p ≡ true
    → (s : AudioSession) × (test p s ≡ true)
      × Has (λ r. (r.session_id ≡ p.session_id) × (r ≡ s)) sessions
joins-Has sessions test p h = elim (Option-cases (session_of sessions p.session_id)) [
  | inl missing ↦ absurd (let f = unjoined_test sessions test p missing in cc)
  | inr (s, hit) ↦
      (s, sym (joined_test sessions test p s hit) ∙ h, session_of-Has sessions p.session_id s hit)
]

pub current_transcript :
    (d : Facts) (id : String)
    → has_current_transcript d.revisions id ≡ true
    → Has (λ r. (r.session_id ≡ some id) × (r.is_current ≡ true)) d.revisions
unfolding has_current_transcript
current_transcript d id h =
    Has-map _ (λ r. (r.session_id ≡ some id) × (r.is_current ≡ true)) d.revisions
      (λ r e. (is_text-eq r.session_id id (and_left _ _ e), and_right _ _ e))
      (exists-Has _ d.revisions h)

pub sent_transcript :
    (d : Facts) (id : String)
    → has_sent_transcript d.outbox id ≡ true
    → Has
        (λ o.
          (o.session_id ≡ some id)
          × (o.kind ≡ OutboxKind.transcript)
          × (o.state ≡ OutboxState.sent))
        d.outbox
unfolding has_sent_transcript
sent_transcript d id h =
    Has-map _
      (λ o.
        (o.session_id ≡ some id) × (o.kind ≡ OutboxKind.transcript) × (o.state ≡ OutboxState.sent))
      d.outbox
      (λ o e.
        let front = and_left _ _ e in
        (
          is_text-eq o.session_id id (and_left _ _ front),
          kind_is o.kind (and_right _ _ front),
          state_is o.state (and_right _ _ e),
        ))
      (exists-Has _ d.outbox h)
  where
    kind_is : (k : OutboxKind) → is_transcript k ≡ true → k ≡ OutboxKind.transcript
    kind_is k h = ground (arith, h)

    state_is : (k : OutboxState) → is_sent k ≡ true → k ≡ OutboxState.sent
    state_is k h = ground (arith, h)

pub nothing_waits :
    (d : Facts) (id : String)
    → negate (has_undelivered d.outbox id) ≡ true
    → All (λ o. ¬ ((o.session_id ≡ some id) × IsWaiting o.state)) d.outbox
unfolding has_undelivered
nothing_waits d id h =
    refuse _ (λ o. (o.session_id ≡ some id) × IsWaiting o.state) d.outbox
      (λ o (e, w). both _ _ (text_found o.session_id id e) (waiting_true o.state w)) (negated _ h)

pub no_unsent_audio :
    (d : Facts) (id : String)
    → negate (has_unsent_audio d.outbox id) ≡ true
    → All
        (λ o.
          ¬ ((o.session_id ≡ some id) × (o.kind ≡ OutboxKind.audio) × (o.state ≢ OutboxState.sent)))
        d.outbox
unfolding has_unsent_audio
no_unsent_audio d id h =
    refuse _
      (λ o. (o.session_id ≡ some id) × (o.kind ≡ OutboxKind.audio) × (o.state ≢ OutboxState.sent))
      d.outbox
      (λ o (e, k, w).
        both _ _ (both _ _ (text_found o.session_id id e) (audio_true o.kind k))
          (unsent_true o.state w))
      (negated _ h)
  where
    audio_true : (k : OutboxKind) → k ≡ OutboxKind.audio → is_audio k ≡ true
    audio_true k e = rw e refl

    unsent_true : (o : OutboxState) → o ≢ OutboxState.sent → negate (is_sent o) ≡ true
    unsent_true OutboxState.pending w = refl
    unsent_true OutboxState.sending w = refl
    unsent_true OutboxState.sent w = absurd (w refl)
    unsent_true OutboxState.failed w = refl
    unsent_true OutboxState.dead w = refl

pub no_reader :
    (d : Facts) (id : String) → negate (has_recoverable_job d.jobs id) ≡ true → NoReader d id
unfolding has_recoverable_job
no_reader d id h =
    refuse _
      (λ j.
        (IsLive j.state ⊎ (j.state ≡ JobState.dead))
        × (j.kind ≡ JobKind.incoming_audio)
        × (may_name id j.payload ≡ true))
      d.jobs (λ j (s, k, m). both _ _ (both _ _ (kept j.state s) (kind_true j.kind k)) m)
      (negated _ h)
  where
    kept : (s : JobState) → IsLive s ⊎ (s ≡ JobState.dead) → (is_live s || is_dead s) ≡ true
    kept s (inl (inl e)) = rw e refl
    kept s (inl (inr e)) = rw e refl
    kept s (inr e) = rw e refl

    kind_true : (k : JobKind) → k ≡ JobKind.incoming_audio → is_incoming k ≡ true
    kind_true k e = rw e refl

pub transcript_of :
    (d : Facts) (id : String)
    → has_transcript_of d.revisions id ≡ true
    → Has (λ r. r.incoming_file_id ≡ some id) d.revisions
unfolding has_transcript_of
transcript_of d id h =
    Has-map _ (λ r. r.incoming_file_id ≡ some id) d.revisions
      (λ r e. is_text-eq r.incoming_file_id id e) (exists-Has _ d.revisions h)

pub done_state : (s : SessionState) → is_done s ≡ true → s ≡ SessionState.done
done_state s h = ground (arith, h)

pub rejected_state : (s : SessionState) → is_rejected s ≡ true → s ≡ SessionState.rejected
rejected_state s h = ground (arith, h)

pub delivered_state :
    (s : IncomingState) → is_delivered_state s ≡ true → s ≡ IncomingState.delivered
delivered_state s h = ground (arith, h)

pub refused_state :
    (s : IncomingState)
    → is_refused s ≡ true
    → (s ≡ IncomingState.rejected) ⊎ (s ≡ IncomingState.failed)
refused_state IncomingState.rejected h = inl refl
refused_state IncomingState.failed h = inr refl
refused_state _ h = absurd (ground (arith, h))
