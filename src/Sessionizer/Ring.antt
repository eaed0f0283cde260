-- ===== src/Sessionizer/Ring.antt =====
-- The pre-roll ring of src/sessionizer/machine.ts (`#bufferPreRoll`): what it holds and how much.
use openmurmur.Prelude.{
  ℕ, ◌+◌, ◌-◌, ◌*◌, ◌≤◌, ◌≡◌, ◌⊎◌, inl, List, [], ◌∷◌, ◌++◌, arith, length, sum, sum-append,
}
use openmurmur.Sessionizer.Types.{VadFrame}
use openmurmur.Sessionizer.{Sessionizer, trim_ring, buffer_pre_roll}

-- The total is that of the durations held, and it is over the capacity for a single frame only.
abbrev pub HoldsWithin : ℕ → List ℕ × ℕ → Type 0
HoldsWithin capacity (ring, ms) = (ms ≡ sum ring) × ((length ring ≤ 1) ⊎ (ms ≤ capacity))

trim_ring-HoldsWithin :
    (capacity : ℕ) (ring : List ℕ) (ms : ℕ)
    → ms ≡ sum ring
    → HoldsWithin capacity (trim_ring capacity ring ms)
unfolding trim_ring
trim_ring-HoldsWithin capacity [] ms h = (h, inl (omega arith))
trim_ring-HoldsWithin capacity (d ∷ []) ms h = (h, inl (omega arith))
trim_ring-HoldsWithin capacity (d ∷ e ∷ ring) ms h =
    ground (arith, trim_ring-HoldsWithin capacity (e ∷ ring) (ms - d))

pub buffer_pre_roll-HoldsWithin :
    (m : Sessionizer) (f : VadFrame)
    → m.ring_ms ≡ sum m.ring
    → let b = buffer_pre_roll m f in
      HoldsWithin (m.config.pre_roll_seconds * 1000) (b.ring, b.ring_ms)
unfolding buffer_pre_roll
buffer_pre_roll-HoldsWithin m f h =
    trim_ring-HoldsWithin (m.config.pre_roll_seconds * 1000) (m.ring ++ f.duration_ms ∷ [])
      (m.ring_ms + f.duration_ms) (omega (arith, sum-append m.ring (f.duration_ms ∷ [])))
