-- ===== src/Sessionizer/Accounting.antt =====
-- How src/sessionizer/machine.ts counts speech, and what its verdict rests on.
use Prim.Native.String.{String}
use openmurmur.Prelude.{
  ℕ, ◌+◌, ◌*◌, ◌≤◌, ◌<◌, ◌≡◌, ◌≢◌, refl, Bool, true, false, Option, none, some, List, [], ◌∷◌,
  arith, All, if◌then◌else◌, subst,
}
use openmurmur.Prelude.Int.{ℤ}
use openmurmur.Sessionizer.Types.{
  SessionState, idle, speech_candidate, silence_grace, VadFrame, FinalSession, SessionIntent,
  close_part, session_finalized, session_rejected, SessionizerConfig,
}
use openmurmur.Sessionizer.Invariant.{IsValid, Fits, push-IsValid}
use openmurmur.Sessionizer.Trace.{push_all, Call, pushes, forces, step, intents_of}
use openmurmur.Sessionizer.{
  Sessionizer, push, dispatch, is_speech, force_finalize, finalize, buffer_pre_roll, last_frame,
}

-- The durations of the frames with speech, added up.
unfoldable pub speech_total : SessionizerConfig → List (VadFrame × String) → ℕ
speech_total config [] = 0
speech_total config ((f, id) ∷ fs) =
    (if is_speech config f then f.duration_ms else 0) + speech_total config fs

-- The speech counted since the machine left the idle state.
abbrev pub heard : Sessionizer → ℕ
heard m = m.candidate_speech_ms + m.speech_ms

-- No frame of the list sends the machine back to the idle state.
abbrev pub StaysBusy : Sessionizer → List (VadFrame × String) → Type 0
StaysBusy m [] = Unit {0}
StaysBusy m ((f, id) ∷ fs) = ((push m f id).0.state ≢ idle) × StaysBusy (push m f id).0 fs

push-config : (m : Sessionizer) (f : VadFrame) (id : String) → (push m f id).0.config ≡ m.config
unfolding push buffer_pre_roll finalize
push-config m f id = ground arith

heard-dispatch :
    (s : SessionState) (speech : Bool) (m : Sessionizer) (f : VadFrame) (id : String)
    → m.state ≡ s
    → Fits s m
    → s ≢ idle
    → (dispatch s speech m f id).0.state ≢ idle
    → heard (dispatch s speech m f id).0 ≡ heard m + (if speech then f.duration_ms else 0)
unfolding dispatch buffer_pre_roll
heard-dispatch idle speech m f id e v b k = absurd (b refl)
heard-dispatch _ speech m f id e v b k = ground arith

-- A frame that leaves the machine busy adds its duration to the count if it has speech.
heard-push :
    (m : Sessionizer) (f : VadFrame) (id : String)
    → IsValid m
    → m.state ≢ idle
    → (push m f id).0.state ≢ idle
    → heard (push m f id).0 ≡ heard m + (if is_speech m.config f then f.duration_ms else 0)
unfolding push
heard-push m f id v b k =
    heard-dispatch m.state (is_speech m.config f)
      (record m { last_frame_wall_ms = f.wall_ms; last_frame_monotonic_ms = f.monotonic_ms }) f id
      refl (ground arith) b k

heard-push_idle :
    (m : Sessionizer) (f : VadFrame) (id : String)
    → IsValid m
    → m.state ≡ idle
    → is_speech m.config f ≡ true
    → (heard (push m f id).0 ≡ f.duration_ms) × ((push m f id).0.state ≡ speech_candidate)
unfolding push buffer_pre_roll
heard-push_idle m f id v e h = ground arith

push_all_counts :
    (m : Sessionizer) (fs : List (VadFrame × String))
    → IsValid m
    → m.state ≢ idle
    → StaysBusy m fs
    → IsValid (push_all m fs)
      × ((push_all m fs).config ≡ m.config)
      × (heard (push_all m fs) ≡ heard m + speech_total m.config fs)
unfolding push_all speech_total
push_all_counts m [] v b s = (v, refl, omega arith)
push_all_counts m ((f, id) ∷ fs) v b (k, s) =
    let ih = push_all_counts (push m f id).0 fs (push-IsValid m f id v) k s in
    ground (arith, ih, heard-push m f id v b k, push-config m f id)

abbrev pub FinalReports : ℕ → Option FinalSession → Type 0
FinalReports total none = Unit {0}
FinalReports total (some final) = final.speech_ms ≡ total

-- What an intent says of a session with `total` milliseconds of speech.
abbrev pub Reports : SessionizerConfig → ℕ → SessionIntent → Type 0
Reports config total (close_part i) = FinalReports total i.final_session
Reports config total (session_finalized i) =
    (i.speech_ms ≡ total) × (config.min_speech_seconds * 1000 ≤ total)
Reports config total (session_rejected i) =
    (i.speech_ms ≡ total) × (total < config.min_speech_seconds * 1000)
Reports config total _ = Unit {0}

finalize-Reports :
    (id : Option String) (wall mono : Option ℤ) (m : Sessionizer) (f : VadFrame)
    → All (Reports m.config m.speech_ms) (finalize id wall mono m f).1
unfolding finalize
finalize-Reports none wall mono m f = tt
finalize-Reports (some id) none mono m f = tt
finalize-Reports (some id) (some wall) none m f = tt
finalize-Reports (some id) (some wall) (some mono) m f = ground arith

dispatch-Reports :
    (s : SessionState) (speech : Bool) (m : Sessionizer) (f : VadFrame) (id : String)
    → Fits s m
    → All (Reports m.config (heard m)) (intents_of (dispatch s speech m f id).1)
unfolding dispatch
dispatch-Reports silence_grace true m f id v = ground arith
dispatch-Reports silence_grace false m f id v = ground (
  arith,
  finalize-Reports m.session_id m.session_started_wall_ms m.session_started_monotonic_ms m f,
)
dispatch-Reports _ speech m f id v = ground arith

step-Reports :
    (m : Sessionizer) (c : Call) → IsValid m → All (Reports m.config (heard m)) (step m c).1
unfolding step push force_finalize
step-Reports m (pushes f id) v =
    dispatch-Reports m.state (is_speech m.config f)
      (record m { last_frame_wall_ms = f.wall_ms; last_frame_monotonic_ms = f.monotonic_ms }) f id
      (ground arith)
step-Reports m forces v = ground (
  arith,
  finalize-Reports m.session_id m.session_started_wall_ms m.session_started_monotonic_ms m
      (last_frame m),
)

module _ (m : Sessionizer) (f : VadFrame) (id : String) (fs : List (VadFrame × String))
    (v : IsValid m) (e : m.state ≡ idle) (h : is_speech m.config f ≡ true)
    (s : StaysBusy (push m f id).0 fs) where
  session_counts :
      IsValid (push_all (push m f id).0 fs)
      × ((push_all (push m f id).0 fs).config ≡ m.config)
      × (heard (push_all (push m f id).0 fs) ≡ speech_total m.config ((f, id) ∷ fs))
  unfolding speech_total
  session_counts =
      let (first, busy) = heard-push_idle m f id v e h in
      let counts = push_all_counts (push m f id).0 fs (push-IsValid m f id v) (ground arith) s in
      ground (arith, counts, first, push-config m f id)

-- From an idle machine, a frame with speech and further frames that keep the machine busy: what the
-- intents of the next call report as the session's speech is the total of the durations of all
-- frames with speech since the first. A session that is finalized has at least the configured
-- minimum of it, one that is rejected has less.
pub session_speech :
    (m : Sessionizer) (f : VadFrame) (id : String) (fs : List (VadFrame × String)) (c : Call)
    → IsValid m
    → m.state ≡ idle
    → is_speech m.config f ≡ true
    → StaysBusy (push m f id).0 fs
    → All
        (Reports m.config (speech_total m.config ((f, id) ∷ fs)))
        (step (push_all (push m f id).0 fs) c).1
session_speech m f id fs c v e h s =
    let (valid, same, total) = session_counts m f id fs v e h s in
    let last = push_all (push m f id).0 fs in
    subst (λ n. All (Reports m.config n) (step last c).1) total
      (subst (λ k. All (Reports k (heard last)) (step last c).1) same (step-Reports last c valid))
