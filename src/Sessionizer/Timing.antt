-- ===== src/Sessionizer/Timing.antt =====
-- When src/sessionizer/machine.ts ends a session, how long its parts get, and where its audio
-- begins.
use Prim.Native.String.{String}
use openmurmur.Prelude.{
  ℕ, ◌+◌, ◌*◌, ◌≤◌, ◌≡◌, refl, sym, ap, ◌∙◌, subst, Bool-cases, Bool, true, false, Option, none,
  some, List, [], ◌∷◌, arith, All, if◌then◌else◌, ◌⊎◌, inl, inr, ltb, sum, ◌||◌,
}
use openmurmur.Prelude.Int.{ℤ, ltb_ℤ, pos, ◌+ℤ◌, ◌-ℤ◌, pos_part, neg_part, int_laws, -ℤ_parts}
use openmurmur.Sessionizer.Types.{
  SessionState, idle, speech_candidate, active, silence_grace, VadFrame, SessionIntent, open_part,
  close_part, rotation, SessionizerConfig,
}
use openmurmur.Sessionizer.Invariant.{IsValid, HasSession, Fits, push-IsValid}
use openmurmur.Sessionizer.Ring.{buffer_pre_roll-HoldsWithin}
use openmurmur.Sessionizer.Trace.{push_all, push_all-IsValid, intents_of}
use openmurmur.Sessionizer.{
  Sessionizer, on_speech, maybe_rotate, returned, push, dispatch, is_speech, is_open, finalize,
  buffer_pre_roll, on_candidate,
}

-- `t` is less than `limit` milliseconds before `at`.
abbrev pub within : ℕ → ℤ → ℤ → Bool
within limit t at = ltb (pos_part at + neg_part t) (pos_part t + neg_part at + limit)

-- A frame without speech that comes before the silence after `t` is over.
abbrev pub IsPause : SessionizerConfig → ℤ → VadFrame × String → Type 0
IsPause config t (f, id) =
    (is_speech config f ≡ false)
    × (within (config.silence_timeout_seconds * 1000) t f.monotonic_ms ≡ true)

-- Speech of the session `id` was last heard at `t`, and the machine waits for it to return.
record Waits (config : SessionizerConfig) (t : ℤ) (id : Option String) (m : Sessionizer)
    : Type 0 where
  set_up : m.config ≡ config
  open_now : is_open m.state ≡ true
  last : m.last_speech_monotonic_ms ≡ some t
  same : m.session_id ≡ id

module _ (config : SessionizerConfig) (t : ℤ) (session : Option String) where
  pause-Waits :
      (m : Sessionizer) (f : VadFrame) (id : String)
      → Waits config t session m
      → IsPause config t (f, id)
      → Waits config t session (push m f id).0 × ((push m f id).0.state ≡ silence_grace)
  unfolding push
  pause-Waits m f id w p = ground (arith, -ℤ_parts f.monotonic_ms t)

  pauses-Waits :
      (m : Sessionizer) (fs : List (VadFrame × String))
      → Waits config t session m
      → m.state ≡ silence_grace
      → All (IsPause config t) fs
      → Waits config t session (push_all m fs) × ((push_all m fs).state ≡ silence_grace)
  unfolding push_all
  pauses-Waits m [] w g p = (w, g)
  pauses-Waits m ((f, id) ∷ fs) w g (p, ps) =
      let (w', g') = pause-Waits m f id w p in pauses-Waits (push m f id).0 fs w' g' ps

  after_pauses :
      (m : Sessionizer) (g : VadFrame) (id : String)
      → IsValid m
      → Waits config t session m
      → m.state ≡ silence_grace
      → let m' = (push m g id).0 in
        let speech = is_speech config g in
        let early = within (config.silence_timeout_seconds * 1000) t g.monotonic_ms in
        (m'.state ≡ (if speech then active else if early then silence_grace else idle))
        × (m'.session_id ≡ (if speech || early then session else none))
  unfolding push finalize
  after_pauses m g id v w s = ground (arith, -ℤ_parts g.monotonic_ms t)

-- Speech of an open session was last heard at `t`, and frames without speech follow, one at least,
-- each less than the timeout after `t`. They end nothing. With the next frame the session goes on
-- as active if that frame has speech, goes on waiting if it has none and is still early, and ends
-- if it has none and comes at the timeout or later. The identifier stays until the end.
pub silence_timeout :
    (m : Sessionizer) (t : ℤ) (p : VadFrame × String) (ps : List (VadFrame × String)) (g : VadFrame)
    (id : String)
    → IsValid m
    → is_open m.state ≡ true
    → m.last_speech_monotonic_ms ≡ some t
    → All (IsPause m.config t) (p ∷ ps)
    → let m' = (push (push_all m (p ∷ ps)) g id).0 in
      let speech = is_speech m.config g in
      let early = within (m.config.silence_timeout_seconds * 1000) t g.monotonic_ms in
      (m'.state ≡ (if speech then active else if early then silence_grace else idle))
      × (m'.session_id ≡ (if speech || early then m.session_id else none))
unfolding push_all
silence_timeout m t (f, i) ps g id v o l (h, hs) =
    let w₀ : Waits m.config t m.session_id m = record {
      set_up = refl;
      open_now = o;
      last = l;
      same = refl;
    } in
    let (w₁, s₁) = pause-Waits m.config t m.session_id m f i w₀ h in
    let (w, s) = pauses-Waits m.config t m.session_id (push m f i).0 ps w₁ s₁ hs in
    let valid = push_all-IsValid (push m f i).0 ps (push-IsValid m f i v) in
    after_pauses m.config t m.session_id (push_all (push m f i).0 ps) g id valid w s

-- The part that is open after a frame with speech has run for less than the configured length.
unfoldable pub part_is_short_of : Option ℤ → VadFrame → SessionizerConfig → Bool
part_is_short_of none f config = false
part_is_short_of (some start) f config =
    within (config.max_part_seconds * 1000) start f.monotonic_ms

-- The open part is closed as a rotation and the next is opened at the same frame.
abbrev pub IsRotation : Sessionizer → VadFrame → List SessionIntent → Type 0
IsRotation m f (close_part c ∷ open_part o ∷ []) =
    (m.session_id ≡ some c.session_id)
    × (c.part_index ≡ m.part_index)
    × (c.reason ≡ rotation)
    × (c.ended_monotonic_ms ≡ f.monotonic_ms)
    × (m.session_id ≡ some o.session_id)
    × (o.part_index ≡ m.part_index + 1)
    × (o.pre_roll_frames ≡ 0)
    × (o.started_monotonic_ms ≡ f.monotonic_ms)
IsRotation m f _ = ⊥

-- The part that is open is short of the configured length and stays, or it is rotated.
abbrev pub KeepsOrRotates : Sessionizer → VadFrame → Sessionizer → List SessionIntent → Type 0
KeepsOrRotates m f m' intents =
    ((part_is_short_of m.part_started_monotonic_ms f m.config ≡ true)
      × (intents ≡ [])
      × (m'.part_index ≡ m.part_index)
      × (m'.part_started_monotonic_ms ≡ m.part_started_monotonic_ms))
    ⊎ ((part_is_short_of m.part_started_monotonic_ms f m.config ≡ false)
        × IsRotation m f intents
        × (m'.part_index ≡ m.part_index + 1)
        × (m'.part_started_monotonic_ms ≡ some f.monotonic_ms))

short_is :
    (start : ℤ) (f : VadFrame) (config : SessionizerConfig)
    → part_is_short_of (some start) f config
      ≡ ltb_ℤ (f.monotonic_ms -ℤ start) (pos (config.max_part_seconds * 1000))
unfolding part_is_short_of
short_is start f config = ground (arith, -ℤ_parts f.monotonic_ms start)

maybe_rotate_lem :
    (start : ℤ) (id : String) (m : Sessionizer) (f : VadFrame)
    → m.part_started_monotonic_ms ≡ some start
    → m.session_id ≡ some id
    → let (m', intents) = maybe_rotate (some start) (some id) m f in
      (m'.state ≡ m.state)
      × (m'.last_speech_monotonic_ms ≡ m.last_speech_monotonic_ms)
      × KeepsOrRotates m f m' intents
unfolding maybe_rotate
maybe_rotate_lem start id m f p s = elim (Bool-cases (part_is_short_of (some start) f m.config)) [
  | inl e ↦
      let cond = sym (short_is start f m.config) ∙ e in
      rw cond (refl, refl, inl (ap (λ o. part_is_short_of o f m.config) p ∙ e, refl, refl, refl))
  | inr e ↦
      let cond = sym (short_is start f m.config) ∙ e in
      rw cond (
        refl,
        refl,
        inr (
          ap (λ o. part_is_short_of o f m.config) p ∙ e,
          (s, refl, refl, refl, s, refl, refl, refl),
          refl,
          refl,
        ),
      )
]

-- A frame with speech in an open session is the case of `#onSpeech`.
push_speech :
    (m : Sessionizer) (f : VadFrame) (id : String)
    → is_open m.state ≡ true
    → is_speech m.config f ≡ true
    → push m f id
      ≡ returned (
          on_speech
            (record m { last_frame_wall_ms = f.wall_ms; last_frame_monotonic_ms = f.monotonic_ms })
            f)
unfolding push dispatch
push_speech m f id o h = rw h (in_state m.state o)
  where
    now : Sessionizer
    now = record m { last_frame_wall_ms = f.wall_ms; last_frame_monotonic_ms = f.monotonic_ms }

    in_state :
        (s : SessionState)
        → is_open s ≡ true
        → dispatch s true now f id ≡ returned (on_speech now f)
    in_state active o = refl
    in_state silence_grace o = refl
    in_state _ o = absurd (ground arith)

is_open-HasSession :
    (m : Sessionizer) (s : SessionState) → is_open s ≡ true → Fits s m → HasSession m
is_open-HasSession m active o h = h
is_open-HasSession m silence_grace o h = h
is_open-HasSession m _ o h = absurd (ground arith)

on_speech_lem :
    (m : Sessionizer) (f : VadFrame)
    → HasSession m
    → let (m', intents) = on_speech m f in
      (m'.state ≡ active)
      × (m'.last_speech_monotonic_ms ≡ some f.monotonic_ms)
      × KeepsOrRotates m f m' intents
unfolding on_speech
on_speech_lem m f h = parts m.part_started_monotonic_ms m.session_id refl refl
  where
    spoken : Sessionizer
    spoken = record m {
      state = active;
      speech_ms = m.speech_ms + f.duration_ms;
      last_speech_monotonic_ms = some f.monotonic_ms;
    }

    parts :
        (start : Option ℤ) (session : Option String)
        → m.part_started_monotonic_ms ≡ start
        → m.session_id ≡ session
        → let (m', intents) = maybe_rotate start session spoken f in
          (m'.state ≡ active)
          × (m'.last_speech_monotonic_ms ≡ some f.monotonic_ms)
          × KeepsOrRotates m f m' intents
    parts (some start) (some session) p s = maybe_rotate_lem start session spoken f p s
    parts none session p s = absurd (ground (arith, h, p))
    parts (some start) none p s = absurd (ground (arith, h, s))

-- A frame with speech in an open session leaves the session active, with the frame as its last
-- speech. If the open part began less than the configured length ago, it stays and nothing is
-- emitted. If it has reached the length, exactly a rotation is emitted: the part is closed and the
-- next, one number up, is opened at that frame.
pub speech_bounds_part :
    (m : Sessionizer) (f : VadFrame) (id : String)
    → IsValid m
    → is_open m.state ≡ true
    → is_speech m.config f ≡ true
    → let (m', r) = push m f id in
      (m'.state ≡ active)
      × (m'.last_speech_monotonic_ms ≡ some f.monotonic_ms)
      × KeepsOrRotates m f m' (intents_of r)
speech_bounds_part m f id v o h =
    subst
      (λ r.
        (r.0.state ≡ active)
        × (r.0.last_speech_monotonic_ms ≡ some f.monotonic_ms)
        × KeepsOrRotates m f r.0 (intents_of r.1))
      (sym (push_speech m f id o h))
      (on_speech_lem
        (record m { last_frame_wall_ms = f.wall_ms; last_frame_monotonic_ms = f.monotonic_ms }) f
        (is_open-HasSession m m.state o v.fits))

-- The audio that an intent to open a part promises from before the frame.
abbrev pub PreRollFits : SessionizerConfig → VadFrame → SessionIntent → Type 0
PreRollFits config f (open_part i) =
    (i.started_monotonic_ms +ℤ pos i.pre_roll_ms ≡ f.monotonic_ms)
    × (i.started_wall_ms +ℤ pos i.pre_roll_ms ≡ f.wall_ms)
    × ((i.pre_roll_frames ≤ 1) ⊎ (i.pre_roll_ms ≤ config.pre_roll_seconds * 1000))
PreRollFits config f _ = Unit {0}

sub_add_cancel : (a : ℤ) (n : ℕ) → a -ℤ pos n +ℤ pos n ≡ a
sub_add_cancel a n = omega int_laws

add_zero_ms : (a : ℤ) → a +ℤ pos 0 ≡ a
add_zero_ms a = omega int_laws

on_candidate_fits :
    (speech : Bool) (m : Sessionizer) (f : VadFrame) (id : String)
    → m.ring_ms ≡ sum m.ring
    → All (PreRollFits m.config f) (on_candidate speech m f id).1
unfolding on_candidate
on_candidate_fits speech m f id h = ground (
  arith,
  buffer_pre_roll-HoldsWithin m f h,
  sub_add_cancel f.monotonic_ms (buffer_pre_roll m f).ring_ms,
  sub_add_cancel f.wall_ms (buffer_pre_roll m f).ring_ms,
)

dispatch_fits :
    (s : SessionState) (speech : Bool) (m : Sessionizer) (f : VadFrame) (id : String)
    → m.ring_ms ≡ sum m.ring
    → All (PreRollFits m.config f) (intents_of (dispatch s speech m f id).1)
unfolding dispatch finalize
dispatch_fits speech_candidate speech m f id h = on_candidate_fits speech m f id h
dispatch_fits _ speech m f id h = ground (arith, add_zero_ms f.monotonic_ms, add_zero_ms f.wall_ms)

-- Where a frame opens a part, the part begins as far before the frame, on both clocks, as the audio
-- replayed into it lasts, and that is within the configured pre-roll unless it is a single frame.
pub push_pre_roll :
    (m : Sessionizer) (f : VadFrame) (id : String)
    → IsValid m
    → All (PreRollFits m.config f) (intents_of (push m f id).1)
unfolding push
push_pre_roll m f id v =
    dispatch_fits m.state (is_speech m.config f)
      (record m { last_frame_wall_ms = f.wall_ms; last_frame_monotonic_ms = f.monotonic_ms }) f id
      v.ring_total
