-- ===== src/Sessionizer/Protocol.antt =====
-- The language of the intents that src/sessionizer/machine.ts emits, as an automaton that a host
-- could run beside it, and the proof that every history speaks it.
use Prim.Native.String.{String}
use text.Mathlib.Text.{◌==◌ as str_eq}
use text.Mathlib.TextPositions.{eq_refl}
use openmurmur.Prelude.{
  ℕ, ◌+◌, ◌≡◌, refl, ◌∙◌, Bool, true, false, ◌&&◌, Option, none, some, List, [], ◌∷◌, ◌++◌, arith,
  ◌==◌, is_some, Option-cases, inl, inr, if◌then◌else◌,
}
use openmurmur.Sessionizer.Types.{
  SessionState, idle, speech_candidate, active, silence_grace, VadFrame, CloseReason, rotation,
  session_end, SessionIntent, open_part, close_part, session_started, session_finalized,
  session_rejected, SessionizerConfig,
}
use openmurmur.Sessionizer.Invariant.{IsValid, Fits, HasSession, new-IsValid}
use openmurmur.Sessionizer.Trace.{Call, pushes, forces, step, run, step-IsValid, intents_of}
use openmurmur.Sessionizer.{
  Sessionizer, new, push, on_speech, on_silence, finalize, finalize_now, last_frame, on_candidate,
  dispatch, is_speech, force_finalize,
}

-- `recording s k`: part k of session s is open. `between s k`: the parts below k are closed and
-- part k is due. `ended s n`: all n parts are closed and the verdict is due.
pub data Phase : Type 0 where
  outside : Phase
  recording between ended : String → ℕ → Phase

abbrev pub is_rotation : CloseReason → Bool
is_rotation rotation = true
is_rotation session_end = false

-- The phase that an intent leads to, or `none` where it may not come.
unfoldable pub accept : Phase → SessionIntent → Option Phase
accept outside (session_started i) = some (between i.session_id 0)
accept (between s k) (open_part i) =
    if str_eq s i.session_id && k == i.part_index then some (recording s k) else none
accept (recording s k) (close_part i) =
    if str_eq s i.session_id && k == i.part_index
    then if is_rotation i.reason
      then if is_some i.final_session then none else some (between s (k + 1))
      else if is_some i.final_session
      then some (ended s (k + 1))
      else none
    else none
accept (ended s n) (session_finalized i) =
    if str_eq s i.session_id && n == i.part_count then some outside else none
accept (ended s n) (session_rejected i) =
    if str_eq s i.session_id && n == i.part_count then some outside else none
accept _ _ = none

unfoldable pub accept_all : Phase → List SessionIntent → Option Phase
accept_all p [] = some p
accept_all p (i ∷ is) = elim (accept p i) [ none ↦ none | some q ↦ accept_all q is ]

-- The phase of a machine, by its state.
abbrev pub phase_of : SessionState → Option String → ℕ → Phase
phase_of active (some s) k = recording s k
phase_of silence_grace (some s) k = recording s k
phase_of _ _ k = outside

abbrev pub phase : Sessionizer → Phase
phase m = phase_of m.state m.session_id m.part_index

-- The three ways on from an open session; `finalize` reads the identifier first.
module _ (m : Sessionizer) (f : VadFrame) (s : String) (e : m.session_id ≡ some s) where
  on_speech_accepted :
      HasSession m
      → let (m', intents) = on_speech m f in
        accept_all (recording s m.part_index) intents ≡ some (phase m')
  unfolding on_speech accept_all accept
  on_speech_accepted v = ground (arith, eq_refl s)

  finalize_accepted :
      HasSession m
      → let (m', intents) = finalize_now m f in
        accept_all (recording s m.part_index) intents ≡ some (phase m')
  unfolding finalize accept_all accept
  finalize_accepted v = ground (arith, eq_refl s)

  on_silence_accepted :
      m.state ≡ silence_grace
      → HasSession m
      → let (m', intents) = on_silence m f in
        accept_all (recording s m.part_index) intents ≡ some (phase m')
  unfolding on_silence accept_all
  on_silence_accepted g v = ground (arith, finalize_accepted v)

on_candidate_accepted :
    (speech : Bool) (m : Sessionizer) (f : VadFrame) (id : String)
    → m.state ≡ speech_candidate
    → let (m', intents) = on_candidate speech m f id in accept_all outside intents ≡ some (phase m')
unfolding on_candidate accept_all accept
on_candidate_accepted speech m f id e = ground (arith, eq_refl id)

dispatch_accepted :
    (s : SessionState) (speech : Bool) (m : Sessionizer) (f : VadFrame) (id : String)
    → m.state ≡ s
    → Fits s m
    → let (m', r) = dispatch s speech m f id in
      accept_all (phase_of s m.session_id m.part_index) (intents_of r) ≡ some (phase m')
unfolding dispatch accept_all
dispatch_accepted idle speech m f id e v = ground arith
dispatch_accepted speech_candidate speech m f id e v = on_candidate_accepted speech m f id e
dispatch_accepted active speech m f id e v = elim (Option-cases m.session_id) [
  | inl n ↦ ground arith
  | inr (s, i) ↦ ground (arith, on_speech_accepted m f s i v)
]
dispatch_accepted silence_grace speech m f id e v = elim (Option-cases m.session_id) [
  | inl n ↦ ground arith
  | inr (s, i) ↦ ground (arith, on_speech_accepted m f s i v, on_silence_accepted m f s i e v)
]
dispatch_accepted _ speech m f id e v = elim v [ ]

push_accepted :
    (m : Sessionizer) (f : VadFrame) (id : String)
    → IsValid m
    → let (m', r) = push m f id in accept_all (phase m) (intents_of r) ≡ some (phase m')
unfolding push
push_accepted m f id v =
    dispatch_accepted m.state (is_speech m.config f)
      (record m { last_frame_wall_ms = f.wall_ms; last_frame_monotonic_ms = f.monotonic_ms }) f id
      refl (ground arith)

force_finalize_accepted :
    (m : Sessionizer)
    → IsValid m
    → let (m', intents) = force_finalize m in accept_all (phase m) intents ≡ some (phase m')
unfolding force_finalize accept_all
force_finalize_accepted m v = elim (Option-cases m.session_id) [
  | inl n ↦ ground arith
  | inr (s, i) ↦ ground (arith, finalize_accepted m (last_frame m) s i)
]

step_accepted :
    (m : Sessionizer) (c : Call)
    → IsValid m
    → let (m', intents) = step m c in accept_all (phase m) intents ≡ some (phase m')
unfolding step
step_accepted m (pushes f id) v = push_accepted m f id v
step_accepted m forces v = force_finalize_accepted m v

accept_all-append :
    (p q : Phase) (xs ys : List SessionIntent)
    → accept_all p xs ≡ some q
    → accept_all p (xs ++ ys) ≡ accept_all q ys
unfolding accept_all
accept_all-append p q [] ys h = ground arith
accept_all-append p q (x ∷ xs) ys h = elim (Option-cases (accept p x)) [
  | inl n ↦ ground arith
  | inr (r, e) ↦ rw (e, accept_all) (accept_all-append r q xs ys (rw (e, accept_all) at h))
]

run_accepted :
    (m : Sessionizer) (cs : List Call)
    → IsValid m
    → let (m', intents) = run m cs in accept_all (phase m) intents ≡ some (phase m')
unfolding run
run_accepted m [] v = unfold accept_all in refl
run_accepted m (c ∷ cs) v =
    let (m', now) = step m c in
    accept_all-append (phase m) (phase m') now (run m' cs).1 (step_accepted m c v)
    ∙ run_accepted m' cs (step-IsValid m c v)

-- Whatever frames and forced ends come, the intents of the whole history follow the protocol and
-- end in the phase that the machine's state shows. So a session starts, its parts open and close in
-- turn, numbered from 0 without a gap, under the session's identifier; only its last part carries
-- the session's totals, and one verdict follows, with the number of the parts.
pub run-new_accepted :
    (config : SessionizerConfig) (cs : List Call)
    → let (m, intents) = run (new config) cs in accept_all outside intents ≡ some (phase m)
unfolding new
run-new_accepted config cs = run_accepted (new config) cs (new-IsValid config)
