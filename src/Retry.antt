-- ===== src/Retry.antt =====
-- The automatic retry policy `[executor.retry]` and the concurrency bound of the executor:
-- crates/favetto-core/src/config.rs. Millisecond counts are u64, attempt counters u32.
pub mod Delay
use favetto.Common.{
  ℕ, ◌-◌, ◌*◌, ◌^◌, min, max, ltb, leb, if◌then◌else◌, Bool, ◌&&◌, List, [], ◌∷◌, any,
}
use favetto.Model.Status.{FailureKind, Failure, failure_kind_eq}

-- how the delay between attempts grows
pub data Backoff : Type 0 where
  exponential fixed : Backoff

pub record RetrySettings : Type 0 where
  pub max_attempts : ℕ
  pub backoff : Backoff
  pub initial_ms : ℕ
  pub max_ms : ℕ
  pub retry_on : List FailureKind

abbrev pub u64_max : ℕ
u64_max = 2 ^ 64 - 1

-- `Default for RetrySettings`, with the values of the `default_retry_*` functions
unfoldable pub default_settings : RetrySettings
default_settings = record {
  max_attempts = 1;
  backoff = exponential;
  initial_ms = 5000;
  max_ms = 300000;
  retry_on = FailureKind.infrastructure ∷ FailureKind.timeout ∷ [];
}

-- `RetrySettings::should_retry`
unfoldable pub should_retry : RetrySettings → ℕ → Failure → Bool
should_retry s attempt failure =
    leb 1 attempt
    && ltb attempt s.max_attempts
    && failure.retryable
    && any (λ k. failure_kind_eq k failure.kind) s.retry_on

-- `u64::saturating_mul`
unfoldable pub saturating_mul : ℕ → ℕ → ℕ
saturating_mul a b = min (a * b) u64_max

-- `attempt.saturating_sub(1).min(31)`
unfoldable pub exponent : ℕ → ℕ
exponent attempt = min (attempt - 1) 31

-- The delay before it is capped. `1u64.checked_shl(exponent)` is exact, as the exponent is
-- below 64.
unfoldable pub uncapped : Backoff → ℕ → ℕ → ℕ
unfolding saturating_mul
uncapped fixed initial_ms e = initial_ms
uncapped exponential initial_ms e = saturating_mul initial_ms (2 ^ e)

-- `RetrySettings::backoff_delay`, in milliseconds
unfoldable pub backoff_delay : RetrySettings → ℕ → ℕ
unfolding uncapped exponent
backoff_delay s attempt = min (uncapped s.backoff s.initial_ms (exponent attempt)) s.max_ms

-- `ExecutorSettings::concurrency`
unfoldable pub concurrency : Bool → ℕ → ℕ
concurrency parallel max_concurrency = if parallel then max max_concurrency 1 else 1
