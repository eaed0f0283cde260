-- ===== src/Sessionizer/Tests.antt =====
-- Runs of the session state machine (src/sessionizer/machine.ts) on concrete frames.
use Prim.Native.String.{String}
use openmurmur.Prelude.{
  ℕ, ◌+◌, ◌≡◌, ◌≢◌, refl, true, false, none, some, List, [], ◌∷◌, map, All, arith,
}
use openmurmur.Prelude.Int.{pos}
use openmurmur.Sessionizer.Types.{SessionState, idle, active, VadFrame, SessionizerConfig}
use openmurmur.Sessionizer.Invariant.{IsValid, new-IsValid}
use openmurmur.Sessionizer.Trace.{
  intents_of, Call, pushes, forces, step, run, push_all, push_all-IsValid, threw, push_never_throws,
}
use openmurmur.Sessionizer.Protocol.{accept_all, outside, phase, run-new_accepted}
use openmurmur.Sessionizer.Accounting.{Reports, speech_total, session_speech}
use openmurmur.Sessionizer.Timing.{silence_timeout, KeepsOrRotates, speech_bounds_part}
use openmurmur.Sessionizer.WallClock.{erase_intent, wall_clock_irrelevant}
use openmurmur.Sessionizer.{
  Sessionizer, new, push, is_speech, is_open, trim_ring, dispatch, on_idle, buffer_pre_roll,
  on_candidate, open_session,
}

abbrev config : SessionizerConfig
config = record {
  pre_roll_seconds = 1;
  speech_candidate_ms = 600;
  silence_timeout_seconds = 2;
  max_part_seconds = 3;
  min_speech_seconds = 1;
  min_transcript_words = 3;
  vad_threshold = 50;
}

abbrev frame : ℕ → ℕ → VadFrame
frame at probability = record {
  monotonic_ms = pos at;
  wall_ms = pos (at + 1000000);
  duration_ms = 500;
  speech_probability = probability;
}

abbrev voice : ℕ → VadFrame × String
voice at = (frame at 90, "a")

abbrev hush : ℕ → VadFrame × String
hush at = (frame at 10, "b")

-- Half a second of silence, then speech until the session opens.
abbrev opening : List (VadFrame × String)
opening = hush 0 ∷ voice 500 ∷ voice 1000 ∷ []

abbrev opened : Sessionizer
opened = push_all (new config) opening

abbrev history : List Call
history =
    pushes (frame 0 10) "a"
    ∷ pushes (frame 500 90) "a"
    ∷ pushes (frame 1000 90) "a"
    ∷ pushes (frame 5000 90) "a"
    ∷ pushes (frame 5500 10) "a"
    ∷ forces
    ∷ []

opened-IsValid : IsValid opened
opened-IsValid = push_all-IsValid (new config) opening (new-IsValid config)

opened_is_open : is_open opened.state ≡ true
unfolding new push_all push dispatch on_idle buffer_pre_roll trim_ring on_candidate open_session
    is_speech
opened_is_open = refl

idle_is_not : {s : SessionState} → is_open s ≡ true → s ≢ idle
idle_is_not e h = ground arith

push_never_throws_example : threw (push (run (new config) history).0 (frame 6000 90) "c").1 ≡ false
push_never_throws_example = push_never_throws config history (frame 6000 90) "c"

run-new_accepted_example :
    let (m, intents) = run (new config) history in accept_all outside intents ≡ some (phase m)
run-new_accepted_example = run-new_accepted config history

session_speech_example :
    All
      (Reports config (speech_total config (voice 500 ∷ voice 1000 ∷ [])))
      (step (push_all (push (new config) (frame 500 90) "a").0 (voice 1000 ∷ [])) forces).1
unfolding new push dispatch on_idle buffer_pre_roll trim_ring on_candidate open_session is_speech
session_speech_example =
    session_speech (new config) (frame 500 90) "a" (voice 1000 ∷ []) forces (new-IsValid config)
      refl refl (idle_is_not refl, tt)

silence_timeout_example :
    ((push (push_all opened (hush 1500 ∷ [])) (frame 3000 10) "c").0.state ≡ idle)
    × ((push (push_all opened (hush 1500 ∷ [])) (frame 3000 10) "c").0.session_id ≡ none)
unfolding new push_all push dispatch on_idle buffer_pre_roll trim_ring on_candidate open_session
    is_speech
silence_timeout_example =
    silence_timeout opened (pos 1000) (hush 1500) [] (frame 3000 10) "c" opened-IsValid refl refl
      ((refl, refl), tt)

speech_bounds_part_example :
    let (m', r) = push opened (frame 5000 90) "c" in
    (m'.state ≡ active)
    × (m'.last_speech_monotonic_ms ≡ some (pos 5000))
    × KeepsOrRotates opened (frame 5000 90) m' (intents_of r)
unfolding new push_all push dispatch on_idle buffer_pre_roll trim_ring on_candidate open_session
    is_speech
speech_bounds_part_example = speech_bounds_part opened (frame 5000 90) "c" opened-IsValid refl refl

-- The same history with the wall clock set back in its midst.
abbrev set_back : List Call
set_back =
    pushes (frame 0 10) "a" ∷ pushes (record (frame 500 90) { wall_ms = pos 7 }) "a" ∷ forces ∷ []

abbrev not_set_back : List Call
not_set_back = pushes (frame 0 10) "a" ∷ pushes (frame 500 90) "a" ∷ forces ∷ []

wall_clock_irrelevant_example :
    map erase_intent (run (new config) set_back).1
    ≡ map erase_intent (run (new config) not_set_back).1
wall_clock_irrelevant_example =
    wall_clock_irrelevant (new config) (new config) set_back not_set_back refl refl
