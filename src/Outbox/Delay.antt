-- ===== src/Outbox/Delay.antt =====
-- The retry delays of src/telegram/outbox.ts (`retryDelayMs`).
use Prim.Native.Nat.{bit_xor}
use Prim.Native.String.{String}
use native.Mathlib.Nat.{mod-lt}
use openmurmur.Prelude.Text.{first_units, decimal}
use openmurmur.Prelude.{ℕ, ◌+◌, ◌*◌, ◌/◌, ◌%◌, ◌^◌, ◌≤◌, ◌<◌, min, List, [], ◌∷◌, ◌++◌, arith}

abbrev pub max_retry_delay_ms : ℕ
max_retry_delay_ms = 600000

-- The loop of `retryDelayMs`.
unfoldable pub fnv : ℕ → List ℕ → ℕ
fnv hash [] = hash
fnv hash (u ∷ us) = fnv (bit_xor hash u * 16777619 % 2 ^ 32) us

-- 545454 is Math.floor(MAX_RETRY_DELAY_MS / 1.1).
unfoldable pub retry_delay_ms : ℕ → String → ℕ → ℕ
retry_delay_ms attempts outbox_id claim_generation =
    let base = min (2 ^ attempts * 1000) 545454 in
    let max_jitter = base / 10 in
    let hash = fnv 2166136261 (first_units outbox_id ++ 58 ∷ decimal claim_generation) in
    min max_retry_delay_ms (base + hash % (max_jitter + 1))

jittered :
    (base hash : ℕ)
    → base ≤ 545454
    → let delay = min 600000 (base + hash % (base / 10 + 1)) in
      (base ≤ delay) × (delay ≤ base + base / 10) × (delay ≤ 600000)
jittered base hash h =
    let jitter : hash % (base / 10 + 1) < base / 10 + 1 = mod-lt hash (omega arith) in
    (omega (arith, jitter), omega (arith, jitter), omega (arith, jitter))

-- A delay is at least the exponential backoff of its attempts, or 545.454 s where that is less, is
-- over it by a tenth at most, and is never over ten minutes.
pub retry_delay_ms_bounds :
    (attempts : ℕ) (outbox_id : String) (claim_generation : ℕ)
    → let base = min (2 ^ attempts * 1000) 545454 in
      let delay = retry_delay_ms attempts outbox_id claim_generation in
      (base ≤ delay) × (delay ≤ base + base / 10) × (delay ≤ 600000)
unfolding retry_delay_ms
retry_delay_ms_bounds attempts outbox_id claim_generation =
    jittered (min (2 ^ attempts * 1000) 545454) _ (omega arith)
