-- ===== src/Sessionizer.antt =====
-- The session state machine (src/sessionizer/machine.ts). A method that changes the machine returns
-- it anew with the method's result; the identifier that `#newId()` would give is an argument.
pub mod Types
pub mod Ring
pub mod Invariant
pub mod Trace
pub mod Protocol
pub mod Accounting
pub mod Timing
pub mod WallClock
mod Tests
use Prim.Native.String.{String}
use openmurmur.Prelude.{
  ℕ, ◌+◌, ◌-◌, ◌*◌, Bool, Option, none, some, List, [], ◌∷◌, ◌++◌, Result, ok, err, ltb, leb,
  if◌then◌else◌, length, ◌==◌,
}
use openmurmur.Prelude.Int.{ℤ, pos, ◌-ℤ◌, ltb_ℤ, leb_ℤ}
use Types.{
  SessionState, idle, speech_candidate, active, silence_grace, finalizing, processing, delivering,
  done, VadFrame, RejectionReason, insufficient_speech, insufficient_words, asr_empty, rotation,
  session_end, OpenPart, ClosePart, SessionIntent, open_part, close_part, session_started,
  session_finalized, session_rejected, SessionizerSnapshot, SessionizerConfig,
}

pub record Sessionizer : Type 0 where
  pub config : SessionizerConfig
  pub state : SessionState
  pub session_id : Option String
  pub part_index : ℕ
  pub ring : List ℕ
  pub ring_ms : ℕ
  pub candidate_speech_ms : ℕ
  pub speech_ms : ℕ
  pub session_started_monotonic_ms : Option ℤ
  pub session_started_wall_ms : Option ℤ
  pub part_started_monotonic_ms : Option ℤ
  pub last_speech_monotonic_ms : Option ℤ
  pub last_frame_wall_ms : ℤ
  pub last_frame_monotonic_ms : ℤ

-- `constructor`
unfoldable pub new : SessionizerConfig → Sessionizer
new config = record {
  config = config;
  state = idle;
  session_id = none;
  part_index = 0;
  ring = [];
  ring_ms = 0;
  candidate_speech_ms = 0;
  speech_ms = 0;
  session_started_monotonic_ms = none;
  session_started_wall_ms = none;
  part_started_monotonic_ms = none;
  last_speech_monotonic_ms = none;
  last_frame_wall_ms = pos 0;
  last_frame_monotonic_ms = pos 0;
}

-- `x === null ? null : at - x`
abbrev pub since : ℤ → Option ℤ → Option ℤ
since at none = none
since at (some t) = some (at -ℤ t)

unfoldable pub snapshot : Sessionizer → SessionizerSnapshot
snapshot m = record {
  state = m.state;
  session_id = m.session_id;
  part_index = m.part_index;
  speech_ms = m.speech_ms;
  session_started_monotonic_ms = m.session_started_monotonic_ms;
  session_started_wall_ms = m.session_started_wall_ms;
  silence_ms = since m.last_frame_monotonic_ms m.last_speech_monotonic_ms;
}

-- The `while` loop of `#bufferPreRoll`: the oldest durations go while more than one is held and
-- their total is over the capacity. `ms` is at least the oldest duration (`ring_total`).
unfoldable pub trim_ring : ℕ → List ℕ → ℕ → List ℕ × ℕ
trim_ring capacity [] ms = ([], ms)
trim_ring capacity (oldest ∷ []) ms = (oldest ∷ [], ms)
trim_ring capacity (oldest ∷ d ∷ ring) ms =
    let rest = trim_ring capacity (d ∷ ring) (ms - oldest) in
    if ltb capacity ms then rest else (oldest ∷ d ∷ ring, ms)

unfoldable pub buffer_pre_roll : Sessionizer → VadFrame → Sessionizer
buffer_pre_roll m f =
    let (ring, ms) =
      trim_ring (m.config.pre_roll_seconds * 1000) (m.ring ++ f.duration_ms ∷ [])
        (m.ring_ms + f.duration_ms) in
    record m { ring = ring; ring_ms = ms }

unfoldable pub reset_to_idle : Sessionizer → Sessionizer
reset_to_idle m = record m {
  state = idle;
  session_id = none;
  part_index = 0;
  speech_ms = 0;
  candidate_speech_ms = 0;
  session_started_monotonic_ms = none;
  session_started_wall_ms = none;
  part_started_monotonic_ms = none;
  last_speech_monotonic_ms = none;
  ring = [];
  ring_ms = 0;
}

-- `#openSession`, with the pre-roll drained.
unfoldable pub open_session : Sessionizer → VadFrame → String → Sessionizer × List SessionIntent
open_session m f id =
    let started_monotonic_ms = f.monotonic_ms -ℤ pos m.ring_ms in
    let started_wall_ms = f.wall_ms -ℤ pos m.ring_ms in
    (
      record m {
        state = active;
        session_id = some id;
        part_index = 0;
        speech_ms = m.candidate_speech_ms;
        candidate_speech_ms = 0;
        session_started_monotonic_ms = some started_monotonic_ms;
        session_started_wall_ms = some started_wall_ms;
        part_started_monotonic_ms = some started_monotonic_ms;
        last_speech_monotonic_ms = some f.monotonic_ms;
        ring = [];
        ring_ms = 0;
      },
      session_started (record { session_id = id; started_wall_ms = started_wall_ms })
          ∷ open_part (record {
            session_id = id;
            part_index = 0;
            pre_roll_frames = length m.ring;
            pre_roll_ms = m.ring_ms;
            started_wall_ms = started_wall_ms;
            started_monotonic_ms = started_monotonic_ms;
          })
          ∷ [],
    )

-- What `#maybeRotate` does once the part is found to be long enough.
unfoldable pub rotate : Sessionizer → VadFrame → String → Sessionizer × List SessionIntent
rotate m f id = (
  record m { part_index = m.part_index + 1; part_started_monotonic_ms = some f.monotonic_ms },
  close_part (record {
    session_id = id;
    part_index = m.part_index;
    ended_wall_ms = f.wall_ms;
    ended_monotonic_ms = f.monotonic_ms;
    reason = rotation;
    final_session = none;
  })
      ∷ open_part (record {
        session_id = id;
        part_index = m.part_index + 1;
        pre_roll_frames = 0;
        pre_roll_ms = 0;
        started_wall_ms = f.wall_ms;
        started_monotonic_ms = f.monotonic_ms;
      })
      ∷ [],
)

-- `#maybeRotate`: the two fields that it reads first are its first arguments.
unfoldable pub maybe_rotate :
    Option ℤ → Option String → Sessionizer → VadFrame → Sessionizer × List SessionIntent
unfolding rotate
maybe_rotate none id m f = (m, [])
maybe_rotate (some part_start) none m f = (m, [])
maybe_rotate (some part_start) (some id) m f =
    if ltb_ℤ (f.monotonic_ms -ℤ part_start) (pos (m.config.max_part_seconds * 1000))
    then (m, [])
    else rotate m f id

-- The verdict of `#finalize` on a session that has its last part closed.
unfoldable pub verdict : Sessionizer → VadFrame → String → ℤ → ℤ → SessionIntent
verdict m f id started_wall_ms duration_ms =
    if ltb m.speech_ms (m.config.min_speech_seconds * 1000)
    then session_rejected (record {
      session_id = id;
      reason = insufficient_speech;
      speech_ms = m.speech_ms;
      part_count = m.part_index + 1;
      ended_wall_ms = some f.wall_ms;
      duration_ms = some duration_ms;
    })
    else session_finalized (record {
      session_id = id;
      started_wall_ms = started_wall_ms;
      ended_wall_ms = f.wall_ms;
      part_count = m.part_index + 1;
      speech_ms = m.speech_ms;
      duration_ms = duration_ms;
    })

-- `#finalize`: the three fields that it reads first are its first arguments.
unfoldable pub finalize :
    Option String → Option ℤ → Option ℤ → Sessionizer → VadFrame → Sessionizer × List SessionIntent
unfolding reset_to_idle verdict
finalize none wall mono m f = (reset_to_idle m, [])
finalize (some id) none mono m f = (reset_to_idle m, [])
finalize (some id) (some wall) none m f = (reset_to_idle m, [])
finalize (some id) (some wall) (some mono) m f =
    let duration_ms = f.monotonic_ms -ℤ mono in
    (
      reset_to_idle m,
      close_part (record {
        session_id = id;
        part_index = m.part_index;
        ended_wall_ms = f.wall_ms;
        ended_monotonic_ms = f.monotonic_ms;
        reason = session_end;
        final_session = some (record {
          ended_wall_ms = f.wall_ms;
          duration_ms = duration_ms;
          speech_ms = m.speech_ms;
        });
      })
          ∷ verdict m f id wall duration_ms
          ∷ [],
    )

abbrev pub finalize_now : Sessionizer → VadFrame → Sessionizer × List SessionIntent
finalize_now m f =
    finalize m.session_id m.session_started_wall_ms m.session_started_monotonic_ms m f

-- `#silenceElapsedMs`
abbrev pub silence_elapsed_ms : Option ℤ → VadFrame → ℤ
silence_elapsed_ms none f = pos 0
silence_elapsed_ms (some last) f = f.monotonic_ms -ℤ last

unfoldable pub is_speech : SessionizerConfig → VadFrame → Bool
is_speech config f = leb config.vad_threshold f.speech_probability

-- The case `IDLE` of `push`.
unfoldable pub on_idle : Bool → Sessionizer → VadFrame → Sessionizer
unfolding buffer_pre_roll
on_idle speech m f =
    let b = buffer_pre_roll m f in
    if speech then record b { state = speech_candidate; candidate_speech_ms = f.duration_ms } else b

-- The case `SPEECH_CANDIDATE`.
unfoldable pub on_candidate :
    Bool → Sessionizer → VadFrame → String → Sessionizer × List SessionIntent
unfolding buffer_pre_roll open_session
on_candidate speech m f id =
    let b = buffer_pre_roll m f in
    let c = record b { candidate_speech_ms = b.candidate_speech_ms + f.duration_ms } in
    if speech
    then if leb c.config.speech_candidate_ms c.candidate_speech_ms
      then open_session c f id
      else (c, [])
    else (record b { state = idle; candidate_speech_ms = 0 }, [])

-- The branch of `ACTIVE` and of `SILENCE_GRACE` for a frame with speech.
unfoldable pub on_speech : Sessionizer → VadFrame → Sessionizer × List SessionIntent
unfolding maybe_rotate
on_speech m f =
    let t = record m {
      state = active;
      speech_ms = m.speech_ms + f.duration_ms;
      last_speech_monotonic_ms = some f.monotonic_ms;
    } in
    maybe_rotate t.part_started_monotonic_ms t.session_id t f

-- The case `SILENCE_GRACE` for a frame without speech.
unfoldable pub on_silence : Sessionizer → VadFrame → Sessionizer × List SessionIntent
unfolding finalize
on_silence m f =
    if leb_ℤ (pos (m.config.silence_timeout_seconds * 1000))
      (silence_elapsed_ms m.last_speech_monotonic_ms f)
    then finalize_now m f
    else (m, [])

abbrev pub returned :
    Sessionizer × List SessionIntent → Sessionizer × Result SessionState (List SessionIntent)
returned (m, intents) = (m, ok intents)

-- The `switch` of `push`. An error is the exception, with the state that it names.
unfoldable pub dispatch :
    SessionState
    → Bool
    → Sessionizer
    → VadFrame
    → String
    → Sessionizer × Result SessionState (List SessionIntent)
unfolding on_idle on_candidate on_speech on_silence
dispatch idle speech m f id = (on_idle speech m f, ok [])
dispatch speech_candidate speech m f id = returned (on_candidate speech m f id)
dispatch active speech m f id =
    if speech then returned (on_speech m f) else (record m { state = silence_grace }, ok [])
dispatch silence_grace speech m f id =
    if speech then returned (on_speech m f) else returned (on_silence m f)
dispatch finalizing speech m f id = (m, err finalizing)
dispatch processing speech m f id = (m, err processing)
dispatch delivering speech m f id = (m, err delivering)
dispatch done speech m f id = (m, err done)

unfoldable pub push :
    Sessionizer → VadFrame → String → Sessionizer × Result SessionState (List SessionIntent)
unfolding dispatch is_speech
push m f id =
    dispatch m.state (is_speech m.config f)
      (record m { last_frame_wall_ms = f.wall_ms; last_frame_monotonic_ms = f.monotonic_ms }) f id

-- The frame that `forceFinalize` makes up.
abbrev pub last_frame : Sessionizer → VadFrame
last_frame m = record {
  monotonic_ms = m.last_frame_monotonic_ms;
  wall_ms = m.last_frame_wall_ms;
  duration_ms = 0;
  speech_probability = 0;
}

abbrev pub is_open : SessionState → Bool
is_open active = Bool.true
is_open silence_grace = Bool.true
is_open _ = Bool.false

unfoldable pub force_finalize : Sessionizer → Sessionizer × List SessionIntent
unfolding finalize reset_to_idle
force_finalize m = if is_open m.state then finalize_now m (last_frame m) else (reset_to_idle m, [])

unfoldable pub classify_transcript : Sessionizer → String → ℕ → ℕ → Option SessionIntent
classify_transcript m id word_count speech_ms =
    if leb m.config.min_transcript_words word_count
    then none
    else some (
        session_rejected (record {
          session_id = id;
          reason = if word_count == 0 then asr_empty else insufficient_words;
          speech_ms = speech_ms;
          part_count = 0;
          ended_wall_ms = none;
          duration_ms = none;
        }))
