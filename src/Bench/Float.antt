-- ===== src/Bench/Float.antt =====
-- What the benchmark asks of `f64` and of `Duration`s in seconds. The arithmetic is the machine's, a
-- parameter.
use pulsemq_cli.Base.{ℕ, ◌≤◌, Bool, Bytes}

pub record Float (F : Type 0) : Type 0 where
  pub of_nat : ℕ → F  -- `as f64`
  pub mul : F → F → F
  pub div : F → F → F
  pub ceil : F → ℕ  -- `.ceil() as usize`
  pub less : F → F → Bool
  pub is_finite : F → Bool
  pub display : F → Bytes
  pub zero : F
  pub one : F
  pub max_rate : F
  pub max_duration : F  -- `Duration::MAX.as_secs_f64()`
  pub p50 : F
  pub p95 : F
  pub p99 : F
  pub at_most : F → F → Bool
  pub million : F  -- `1e6`
  pub as_secs : ℕ → F  -- `Duration::as_secs_f64`, of nanoseconds
  pub fixed : ℕ → F → Bytes  -- `{:.n}`
  pub from_secs : F → ℕ  -- `Duration::from_secs_f64`, in nanoseconds
  pub mul_duration : ℕ → F → ℕ  -- `Duration::mul_f64`

-- Products and `ceil` are monotone.
pub record IsMonotone {F : Type 0} (f : Float F) : Type 0 where
  pub p50_p95 : (n : ℕ) → f.ceil (f.mul f.p50 (f.of_nat n)) ≤ f.ceil (f.mul f.p95 (f.of_nat n))
  pub p95_p99 : (n : ℕ) → f.ceil (f.mul f.p95 (f.of_nat n)) ≤ f.ceil (f.mul f.p99 (f.of_nat n))
