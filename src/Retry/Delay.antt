-- ===== src/Retry/Delay.antt =====
-- Bounds and growth of the retry delay, crates/favetto-core/src/config.rs.
use native.Mathlib.Nat.{pow-le-pow_right, mul-le-mul_left}
use favetto.Common.{ℕ, ◌-◌, ◌*◌, ◌^◌, ◌≤◌, min, ◌≡◌, arith}
use favetto.Retry.{
  Backoff, RetrySettings, exponential, fixed, u64_max, saturating_mul, exponent, uncapped,
  backoff_delay,
}

exponent_mono : (a b : ℕ) → a ≤ b → exponent a ≤ exponent b
unfolding exponent
exponent_mono a b h = omega arith

saturating_mul_mono : (m a b : ℕ) → a ≤ b → saturating_mul m a ≤ saturating_mul m b
unfolding saturating_mul
saturating_mul_mono m a b h = omega (arith, mul-le-mul_left m h)

uncapped_mono : (k : Backoff) (m a b : ℕ) → a ≤ b → uncapped k m a ≤ uncapped k m b
unfolding uncapped
uncapped_mono fixed m a b h = omega arith
uncapped_mono exponential m a b h =
    saturating_mul_mono m (2 ^ a) (2 ^ b) (pow-le-pow_right (omega arith) h)

-- The delay never passes `max_ms`, and a later attempt never waits less than an earlier one.
pub backoff_delay_mono :
    (s : RetrySettings) (a b : ℕ)
    → a ≤ b
    → (backoff_delay s a ≤ backoff_delay s b) × (backoff_delay s b ≤ s.max_ms)
unfolding backoff_delay
backoff_delay_mono s a b h =
    omega
      (arith, uncapped_mono s.backoff s.initial_ms (exponent a) (exponent b) (exponent_mono a b h))

exponent_small : (attempt : ℕ) → attempt ≤ 32 → exponent attempt ≡ attempt - 1
unfolding exponent
exponent_small attempt h = omega arith

-- Within the first 32 attempts, and for a `max_ms` that a u64 holds, the exponential delay is
-- `initial_ms * 2^(attempt - 1)` capped at `max_ms`: the saturation of the u64 product never
-- shows.
pub backoff_delay-exponential :
    (s : RetrySettings) (attempt : ℕ)
    → s.backoff ≡ exponential
    → s.max_ms ≤ u64_max
    → 1 ≤ attempt
    → attempt ≤ 32
    → backoff_delay s attempt ≡ min (s.initial_ms * 2 ^ (attempt - 1)) s.max_ms
unfolding backoff_delay
backoff_delay-exponential s attempt e m lo hi = rw (e, exponent_small attempt hi) (omega arith)
