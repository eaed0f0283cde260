-- ===== src/Retention/Proven.antt =====
-- What a row that a WHERE clause of src/retention/policy.ts selects proves.
use openmurmur.Prelude.{
  ℕ, ◌+◌, ◌*◌, ◌≤◌, ◌≡◌, ◌≢◌, ◌⊎◌, inl, inr, refl, sym, ap, ◌∙◌, subst, Bool, true, false, ◌&&◌,
  ◌||◌, some, is_some, All, arith,
}
use openmurmur.Outbox.Types.{OutboxKind, OutboxState}
use openmurmur.Retention.Types.{
  SessionState, AudioSession, AudioPart, IncomingFile, Facts, RetentionConfig,
}
use openmurmur.Retention.Eligible.{
  is_delivered_part, is_eligible, is_eligible_rejected, is_silent_rejection, is_sent_rejection,
  is_eligible_incoming, is_eligible_quarantine, joins,
}
use openmurmur.Retention.Columns.{hours_ago_iso, is_null, or_zero}
use openmurmur.Retention.Proof.{
  Has, IsPast, IsWaiting, IsWholePart, IsDelivered, IsRejected, IsAnswered, IsRefused, NoLiveJob,
  IsRejectedSession,
}
use openmurmur.Retention.Reading.{
  no_live_job, joins-Has, current_transcript, sent_transcript, nothing_waits, no_unsent_audio,
  no_reader, transcript_of, done_state, rejected_state, delivered_state, refused_state,
}
use openmurmur.Retention.Rows.{
  Has-map, Has-at, and_left, and_right, is_text-eq, not_later-IsPast, null-none,
}

whole :
    (p : AudioPart)
    → (is_null p.deleted_at && p.finalized && is_some p.sha256) ≡ true
    → IsWholePart p
whole p e = (
  null-none p.deleted_at (and_left _ _ (and_left _ _ e)),
  and_right _ _ (and_left _ _ e),
  and_right _ _ e,
)

pub is_eligible-IsDelivered :
    (d : Facts) (hours now : ℕ) (p : AudioPart)
    → joins d.sessions (λ q s. is_eligible d q (hours_ago_iso hours now) s) p ≡ true
    → IsDelivered d hours now p
unfolding is_eligible is_delivered_part
is_eligible-IsDelivered d hours now p h =
    let (s, e, row) = joins-Has d.sessions _ p h in
    let id : s.session_id ≡ p.session_id =
      Has-at (λ r. r.session_id ≡ p.session_id) s d.sessions row in
    let e6 = and_left _ _ e in
    let e5 = and_left _ _ e6 in
    let e4 = and_left _ _ e5 in
    let e3 = and_left _ _ e4 in
    let e2 = and_left _ _ e3 in
    let part = and_left _ _ e2 in
    record {
      part = whole p (and_left _ _ (and_left _ _ part));
      delivered = and_right _ _ (and_left _ _ part);
      long_ago = not_later-IsPast p.delivered_at hours now (and_right _ _ part);
      session =
          Has-map _ (λ r. (r.session_id ≡ p.session_id) × (r.state ≡ SessionState.done)) d.sessions
            (λ r (i, q). (i, ap (λ t. t.state) q ∙ done_state s.state (and_right _ _ e2))) row;
      written =
          subst (λ i. Has (λ r. (r.session_id ≡ some i) × (r.is_current ≡ true)) d.revisions) id
            (current_transcript d s.session_id (and_right _ _ e4));
      told =
          subst
            (λ i.
              Has
                (λ o.
                  (o.session_id ≡ some i)
                  × (o.kind ≡ OutboxKind.transcript)
                  × (o.state ≡ OutboxState.sent))
                d.outbox)
            id (sent_transcript d s.session_id (and_right _ _ e5));
      settled =
          subst (λ i. All (λ o. ¬ ((o.session_id ≡ some i) × IsWaiting o.state)) d.outbox) id
            (nothing_waits d s.session_id (and_right _ _ e6));
      quiet = subst (λ i. NoLiveJob d i) id (no_live_job d s.session_id (and_right _ _ e));
    }

or_cases : (a b : Bool) → (a || b) ≡ true → (a ≡ true) ⊎ (b ≡ true)
or_cases true b h = inl refl
or_cases false b h = inr h

rejected_why :
    (d : Facts) (config : RetentionConfig) (now : ℕ) (p : AudioPart) (s : AudioSession)
    → (is_silent_rejection s (hours_ago_iso config.rejected_session_hours now)
        || is_sent_rejection d p (hours_ago_iso config.session_audio_hours now) s)
      ≡ true
    → ((s.rejection_reason ≡ some "insufficient_speech")
        × IsPast s.ended_at config.rejected_session_hours now)
      ⊎ ((p.delivered ≡ true) × IsPast p.delivered_at config.session_audio_hours now)
unfolding is_silent_rejection is_sent_rejection
rejected_why d config now p s h =
    elim (or_cases (is_silent_rejection s (hours_ago_iso config.rejected_session_hours now))
      (is_sent_rejection d p (hours_ago_iso config.session_audio_hours now) s) h) [
        | inl e ↦ inl (
          is_text-eq s.rejection_reason "insufficient_speech" (and_left _ _ e),
          not_later-IsPast s.ended_at config.rejected_session_hours now (and_right _ _ e),
        )
        | inr e ↦
            let front = and_left _ _ (and_left _ _ e) in
            inr (
              and_right _ _ (and_left _ _ front),
              not_later-IsPast p.delivered_at config.session_audio_hours now (and_right _ _ front),
            )
      ]

pub is_eligible_rejected-IsRejected :
    (d : Facts) (config : RetentionConfig) (now : ℕ) (p : AudioPart)
    → joins d.sessions
        (is_eligible_rejected d
          (hours_ago_iso config.rejected_session_hours now)
          (hours_ago_iso config.session_audio_hours now))
        p
      ≡ true
    → IsRejected d config now p
unfolding is_eligible_rejected
is_eligible_rejected-IsRejected d config now p h =
    let (s, e, row) = joins-Has d.sessions _ p h in
    let id : s.session_id ≡ p.session_id =
      Has-at (λ r. r.session_id ≡ p.session_id) s d.sessions row in
    let e6 = and_left _ _ e in
    let e5 = and_left _ _ e6 in
    let e4 = and_left _ _ e5 in
    let e3 = and_left _ _ e4 in
    let e2 = and_left _ _ e3 in
    record {
      part = (null-none p.deleted_at (and_left _ _ e2), and_right _ _ e3, and_right _ _ e4);
      session =
          Has-map (λ r. (r.session_id ≡ p.session_id) × (r ≡ s)) _ d.sessions
            (λ r (i, q). (
              i,
              subst (IsRejectedSession config now p) (sym q) (
                rejected_state s.state (and_right _ _ e2),
                rejected_why d config now p s (and_right _ _ e5),
              ),
            ))
            row;
      settled =
          subst
            (λ i.
              All
                (λ o. ¬ (
                  (o.session_id ≡ some i)
                  × (o.kind ≡ OutboxKind.audio)
                  × (o.state ≢ OutboxState.sent)))
                d.outbox)
            id (no_unsent_audio d s.session_id (and_right _ _ e6));
      quiet = subst (λ i. NoLiveJob d i) id (no_live_job d s.session_id (and_right _ _ e));
    }

pub is_eligible_incoming-IsAnswered :
    (d : Facts) (hours now : ℕ) (f : IncomingFile)
    → is_eligible_incoming d (hours_ago_iso hours now) f ≡ true
    → IsAnswered d hours now f
unfolding is_eligible_incoming
is_eligible_incoming-IsAnswered d hours now f e =
    let e5 = and_left _ _ e in
    let e4 = and_left _ _ e5 in
    let e3 = and_left _ _ e4 in
    let e2 = and_left _ _ e3 in
    record {
      kept = null-none f.deleted_at (and_left _ _ e2);
      delivered = delivered_state f.state (and_right _ _ e2);
      long_ago = not_later-IsPast f.delivered_at hours now (and_right _ _ e3);
      written = transcript_of d f.file_uid (and_right _ _ e4);
      unread = no_reader d f.file_uid (and_right _ _ e5);
    }

past_since : (t hours now : ℕ) → IsPast (some t) hours now → t + hours * 3600000 ≤ now
past_since t hours now (u, e, h) = let same : t ≡ u = ap or_zero e in ground (arith, same, h)

pub is_eligible_quarantine-IsRefused :
    (d : Facts) (hours now : ℕ) (f : IncomingFile)
    → is_eligible_quarantine d (hours_ago_iso hours now) f ≡ true
    → IsRefused d hours now f
unfolding is_eligible_quarantine
is_eligible_quarantine-IsRefused d hours now f e =
    let e4 = and_left _ _ e in
    let e3 = and_left _ _ e4 in
    let e2 = and_left _ _ e3 in
    record {
      kept = null-none f.deleted_at (and_left _ _ e2);
      refused = refused_state f.state (and_right _ _ e2);
      long_ago =
          past_since f.updated_at hours now
            (not_later-IsPast (some f.updated_at) hours now (and_right _ _ e4));
      unread = no_reader d f.file_uid (and_right _ _ e);
    }
