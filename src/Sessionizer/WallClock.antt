-- ===== src/Sessionizer/WallClock.antt =====
-- src/sessionizer/machine.ts decides by the monotonic clock alone: a wall clock that jumps between
-- frames changes only the wall times that its intents carry.
use Prim.Native.String.{String}
use mathlib.Core.List.{map-append}
use mathlib.Core.Path.{ap₂}
use openmurmur.Prelude.{
  ◌≡◌, refl, sym, ap, ◌∙◌, Bool, Option, none, some, List, [], ◌∷◌, map, ◌++◌, arith,
}
use openmurmur.Prelude.Int.{ℤ, pos}
use openmurmur.Sessionizer.Types.{
  SessionState, idle, speech_candidate, active, silence_grace, VadFrame, FinalSession,
  SessionIntent, open_part, close_part, session_started, session_finalized, session_rejected,
}
use openmurmur.Sessionizer.Trace.{Call, pushes, forces, step, run, intents_of}
use openmurmur.Sessionizer.{
  Sessionizer, push, dispatch, is_speech, force_finalize, finalize, buffer_pre_roll,
}

-- The same with every wall time set to 0.
abbrev pub erase_option : Option ℤ → Option ℤ
erase_option none = none
erase_option (some t) = some (pos 0)

abbrev pub erase_frame : VadFrame → VadFrame
erase_frame f = record f { wall_ms = pos 0 }

abbrev pub erase : Sessionizer → Sessionizer
erase m = record m {
  session_started_wall_ms = erase_option m.session_started_wall_ms;
  last_frame_wall_ms = pos 0;
}

abbrev pub erase_final : Option FinalSession → Option FinalSession
erase_final none = none
erase_final (some s) = some (record s { ended_wall_ms = pos 0 })

abbrev pub erase_intent : SessionIntent → SessionIntent
erase_intent (open_part i) = open_part (record i { started_wall_ms = pos 0 })
erase_intent (close_part i) =
    close_part (record i { ended_wall_ms = pos 0; final_session = erase_final i.final_session })
erase_intent (session_started i) = session_started (record i { started_wall_ms = pos 0 })
erase_intent (session_finalized i) =
    session_finalized (record i { started_wall_ms = pos 0; ended_wall_ms = pos 0 })
erase_intent (session_rejected i) =
    session_rejected (record i { ended_wall_ms = erase_option i.ended_wall_ms })

-- Two machines, and two lists of intents, that differ in wall times only.
abbrev pub SameButWall :
    Sessionizer × List SessionIntent → Sessionizer × List SessionIntent → Type 0
SameButWall (m, is) (n, js) = (erase m ≡ erase n) × (map erase_intent is ≡ map erase_intent js)

abbrev pub erase_call : Call → Call
erase_call (pushes f id) = pushes (erase_frame f) id
erase_call forces = forces

dispatch_erased :
    (s : SessionState) (speech : Bool) (m : Sessionizer) (f : VadFrame) (id : String)
    → let (m', r) = dispatch s speech m f id in
      let (n', q) = dispatch s speech (erase m) (erase_frame f) id in
      SameButWall (m', intents_of r) (n', intents_of q)
unfolding dispatch buffer_pre_roll
dispatch_erased idle speech m f id = ground arith
dispatch_erased speech_candidate speech m f id = ground arith
dispatch_erased active speech m f id = ground arith
dispatch_erased silence_grace speech m f id = ground arith
dispatch_erased _ speech m f id = ground arith

step_erased : (m : Sessionizer) (c : Call) → SameButWall (step m c) (step (erase m) (erase_call c))
unfolding step push force_finalize finalize
step_erased m (pushes f id) =
    dispatch_erased m.state (is_speech m.config f)
      (record m { last_frame_wall_ms = f.wall_ms; last_frame_monotonic_ms = f.monotonic_ms }) f id
step_erased m forces = ground arith

erase_call_idem : (c : Call) → erase_call (erase_call c) ≡ erase_call c
erase_call_idem (pushes f id) = refl
erase_call_idem forces = refl

-- A machine with the wall times of its calls erased keeps step with the machine itself.
step_relates :
    (m n : Sessionizer) (c : Call)
    → erase m ≡ erase n
    → SameButWall (step m c) (step n (erase_call c))
step_relates m n c e = (
  (step_erased m c).0
      ∙ ap (λ k. erase (step k (erase_call c)).0) e
      ∙ sym ((step_erased n (erase_call c)).0 ∙ twice (λ d. erase (step (erase n) d).0)),
  (step_erased m c).1
      ∙ ap (λ k. map erase_intent (step k (erase_call c)).1) e
      ∙ sym ((step_erased n (erase_call c)).1 ∙ twice (λ d. map erase_intent (step (erase n) d).1)),
)
  where
    twice : {A : Type 0} (g : Call → A) → g (erase_call (erase_call c)) ≡ g (erase_call c)
    twice g = ap g (erase_call_idem c)

run_relates :
    (m n : Sessionizer) (cs : List Call)
    → erase m ≡ erase n
    → map erase_intent (run m cs).1 ≡ map erase_intent (run n (map erase_call cs)).1
unfolding run
run_relates m n [] e = refl
run_relates m n (c ∷ cs) e =
    let (same, now) = step_relates m n c e in
    map-append erase_intent (step m c).1 (run (step m c).0 cs).1
    ∙ ap₂ ◌++◌ now (run_relates (step m c).0 (step n (erase_call c)).0 cs same)
    ∙ sym (
        map-append erase_intent (step n (erase_call c)).1
          (run (step n (erase_call c)).0 (map erase_call cs)).1)

-- Two histories whose calls differ in the frames' wall times only, from two machines that differ in
-- wall times only, give the same intents up to wall times: no jump of the wall clock starts,
-- prolongs, splits, ends or rejects a session.
pub wall_clock_irrelevant :
    (m n : Sessionizer) (cs ds : List Call)
    → erase m ≡ erase n
    → map erase_call cs ≡ map erase_call ds
    → map erase_intent (run m cs).1 ≡ map erase_intent (run n ds).1
wall_clock_irrelevant m n cs ds e h =
    run_relates m n cs e
    ∙ ap (λ es. map erase_intent (run n es).1) h
    ∙ sym (run_relates n n ds refl)
