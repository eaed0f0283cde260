-- ===== src/Sessionizer/Trace.antt =====
-- Histories of the sessionizer (src/sessionizer/machine.ts): the calls of `push` and
-- `forceFinalize` that a host makes, in order, and the intents that they return.
use Prim.Native.String.{String}
use openmurmur.Prelude.{◌≡◌, Bool, true, false, List, [], ◌∷◌, ◌++◌, arith, Result, ok, err}
use openmurmur.Sessionizer.Types.{SessionState, VadFrame, SessionIntent, SessionizerConfig}
use openmurmur.Sessionizer.Invariant.{IsValid, new-IsValid, push-IsValid, force_finalize-IsValid}
use openmurmur.Sessionizer.{Sessionizer, new, push, force_finalize}

-- A frame comes with the identifier that `#newId()` would give a session opened by it.
pub data Call : Type 0 where
  pushes : VadFrame → String → Call
  forces : Call

-- The machine after a list of frames.
unfoldable pub push_all : Sessionizer → List (VadFrame × String) → Sessionizer
push_all m [] = m
push_all m ((f, id) ∷ fs) = push_all (push m f id).0 fs

abbrev pub intents_of : Result SessionState (List SessionIntent) → List SessionIntent
intents_of (ok intents) = intents
intents_of (err s) = []

unfoldable pub step : Sessionizer → Call → Sessionizer × List SessionIntent
step m (pushes f id) = let (m', r) = push m f id in (m', intents_of r)
step m forces = force_finalize m

unfoldable pub run : Sessionizer → List Call → Sessionizer × List SessionIntent
run m [] = (m, [])
run m (c ∷ cs) = let (m', now) = step m c in let (m'', later) = run m' cs in (m'', now ++ later)

pub push_all-IsValid :
    (m : Sessionizer) (fs : List (VadFrame × String)) → IsValid m → IsValid (push_all m fs)
unfolding push_all
push_all-IsValid m [] v = v
push_all-IsValid m ((f, id) ∷ fs) v = push_all-IsValid (push m f id).0 fs (push-IsValid m f id v)

pub step-IsValid : (m : Sessionizer) (c : Call) → IsValid m → IsValid (step m c).0
unfolding step
step-IsValid m (pushes f id) v = push-IsValid m f id v
step-IsValid m forces v = force_finalize-IsValid m v

run-IsValid : (m : Sessionizer) (cs : List Call) → IsValid m → IsValid (run m cs).0
unfolding run
run-IsValid m [] v = v
run-IsValid m (c ∷ cs) v = run-IsValid (step m c).0 cs (step-IsValid m c v)

-- Whatever the host has done since the machine was made, the machine is valid.
run-new-IsValid : (config : SessionizerConfig) (cs : List Call) → IsValid (run (new config) cs).0
run-new-IsValid config cs = run-IsValid (new config) cs (new-IsValid config)

abbrev pub threw : Result SessionState (List SessionIntent) → Bool
threw (ok intents) = false
threw (err s) = true

push_never_throws_of_IsValid :
    (m : Sessionizer) (f : VadFrame) (id : String) → IsValid m → threw (push m f id).1 ≡ false
unfolding push
push_never_throws_of_IsValid m f id v = ground arith

-- After any history from a new machine, `push` returns intents for whatever frame comes next: the
-- exception for a state that takes no input is never thrown.
pub push_never_throws :
    (config : SessionizerConfig) (cs : List Call) (f : VadFrame) (id : String)
    → threw (push (run (new config) cs).0 f id).1 ≡ false
push_never_throws config cs f id = push_never_throws_of_IsValid _ f id (run-new-IsValid config cs)
