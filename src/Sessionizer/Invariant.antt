-- ===== src/Sessionizer/Invariant.antt =====
-- What holds of the sessionizer (src/sessionizer/machine.ts) between two calls.
use Prim.Native.String.{String}
use openmurmur.Prelude.{◌*◌, ◌≤◌, ◌≡◌, refl, ◌⊎◌, Bool, true, none, [], arith, length, sum, is_some}
use openmurmur.Sessionizer.Types.{
  SessionState, idle, speech_candidate, active, silence_grace, VadFrame, SessionizerConfig,
}
use openmurmur.Sessionizer.Ring.{buffer_pre_roll-HoldsWithin}
use openmurmur.Sessionizer.{
  Sessionizer, new, buffer_pre_roll, dispatch, push, is_speech, force_finalize,
}

abbrev pub HasNoSession : Sessionizer → Type 0
HasNoSession m =
    (m.session_id ≡ none)
    × (m.part_index ≡ 0)
    × (m.speech_ms ≡ 0)
    × (m.session_started_monotonic_ms ≡ none)
    × (m.session_started_wall_ms ≡ none)
    × (m.part_started_monotonic_ms ≡ none)
    × (m.last_speech_monotonic_ms ≡ none)

abbrev pub HasSession : Sessionizer → Type 0
HasSession m =
    (is_some m.session_id ≡ true)
    × (is_some m.session_started_monotonic_ms ≡ true)
    × (is_some m.session_started_wall_ms ≡ true)
    × (is_some m.part_started_monotonic_ms ≡ true)
    × (is_some m.last_speech_monotonic_ms ≡ true)
    × (m.ring ≡ [])
    × (m.candidate_speech_ms ≡ 0)

abbrev pub Fits : SessionState → Sessionizer → Type 0
Fits idle m = HasNoSession m × (m.candidate_speech_ms ≡ 0)
Fits speech_candidate m = HasNoSession m
Fits active m = HasSession m
Fits silence_grace m = HasSession m
Fits _ m = ⊥

-- The machine rests in one of the four input states, its fields agree with that state, and the
-- pre-roll ring holds what it says within its capacity.
pub record IsValid (m : Sessionizer) : Type 0 where
  pub fits : Fits m.state m
  pub ring_total : m.ring_ms ≡ sum m.ring
  pub ring_bounded : (length m.ring ≤ 1) ⊎ (m.ring_ms ≤ m.config.pre_roll_seconds * 1000)

pub new-IsValid : (c : SessionizerConfig) → IsValid (new c)
unfolding new
new-IsValid c = ground arith

-- The state that `dispatch` is given is the machine's.
dispatch-IsValid :
    (s : SessionState) (speech : Bool) (m : Sessionizer) (f : VadFrame) (id : String)
    → m.state ≡ s
    → IsValid m
    → IsValid (dispatch s speech m f id).0
unfolding dispatch buffer_pre_roll
dispatch-IsValid idle speech m f id e v =
    ground (arith, buffer_pre_roll-HoldsWithin m f v.ring_total)
dispatch-IsValid speech_candidate speech m f id e v =
    ground (arith, buffer_pre_roll-HoldsWithin m f v.ring_total)
dispatch-IsValid _ speech m f id e v = ground arith

-- No frame breaks the invariant.
pub push-IsValid :
    (m : Sessionizer) (f : VadFrame) (id : String) → IsValid m → IsValid (push m f id).0
unfolding push
push-IsValid m f id v =
    dispatch-IsValid m.state (is_speech m.config f)
      (record m { last_frame_wall_ms = f.wall_ms; last_frame_monotonic_ms = f.monotonic_ms }) f id
      refl
      (record { fits = ground arith; ring_total = v.ring_total; ring_bounded = v.ring_bounded })

-- Nor does a forced end.
pub force_finalize-IsValid : (m : Sessionizer) → IsValid m → IsValid (force_finalize m).0
unfolding force_finalize
force_finalize-IsValid m v = ground arith
