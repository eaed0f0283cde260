-- ===== src/Jobs/Backoff.antt =====
-- The retry delays of src/jobs/queue.ts (`backoffMs`).
use native.Mathlib.Nat.{pow-suc}
use openmurmur.Prelude.{ℕ, zero, suc, ◌*◌, ◌^◌, ◌≤◌, ◌≡◌, refl, min, arith}
use openmurmur.Jobs.{backoff_ms}

pow_pos : (n : ℕ) → 1 ≤ 2 ^ n
pow_pos zero = omega arith
pow_pos (suc n) = omega (arith, pow_pos n, pow-suc 2 n)

-- The delay is a second at least and a quarter of an hour at most; it starts at one second and
-- doubles with each attempt until it reaches the ceiling.
pub backoff_ms_bounds :
    (n : ℕ)
    → (1000 ≤ backoff_ms n)
      × (backoff_ms n ≤ 900000)
      × (backoff_ms 0 ≡ 1000)
      × (backoff_ms (suc n) ≡ min (2 * backoff_ms n) 900000)
unfolding backoff_ms
backoff_ms_bounds n = (omega (arith, pow_pos n), omega arith, refl, omega (arith, pow-suc 2 n))
