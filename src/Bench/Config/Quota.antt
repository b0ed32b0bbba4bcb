-- ===== src/Bench/Config/Quota.antt =====
-- The split of a run's messages, its window and its rate.
use pulsemq_cli.Base.{
  ℕ, zero, suc, ◌+◌, ◌*◌, ◌/◌, ◌%◌, ◌^◌, ◌≤◌, ◌<◌, min, max, true, false, Option, none, some, ◌≡◌,
  inr, refl, ap, ap₂, arith,
}
use mathlib.Core.Option.{some-injective, none-ne-some}
use native.Mathlib.Nat.{div-add-mod, mod-lt}
use pulsemq_cli.Mqtt.{Protocol}
use pulsemq_cli.Error.{ok}
use pulsemq_cli.Cli.{BenchArgs}
use pulsemq_cli.Bench.Float.{Float}
use pulsemq_cli.Bench.Config.{
  Stop, count, duration, count_within, Config, share, quota_for, effective_inflight, from_args,
  rate_error, stop_for, deadline,
}

-- The quotas of the first `k` publishers together.
abbrev pub shares : ℕ → ℕ → ℕ → ℕ
shares publishers total zero = 0
shares publishers total (suc k) = shares publishers total k + share publishers total k

shares_up_to :
    (publishers total k : ℕ)
    → shares publishers total k ≡ k * (total / publishers) + min k (total % publishers)
shares_up_to publishers total zero = omega arith
shares_up_to publishers total (suc k) = grind (arith, shares_up_to publishers total k)

abbrev pub quota_or : Option ℕ → ℕ
quota_or none = 0
quota_or (some n) = n

-- The number of messages that ends the run.
abbrev pub limit : Stop → Option ℕ
limit (count n) = some n
limit (count_within n d) = some n
limit (duration d) = none

module _ {F : Type 0} (c : Config F) where
  -- What the first `k` publishers send together.
  abbrev pub quotas : ℕ → ℕ
  quotas zero = 0
  quotas (suc k) = quotas k + quota_or (quota_for c k)

  quota_for-limit :
      (n k : ℕ) → limit c.stop ≡ some n → quota_for c k ≡ some (share c.publishers n k)
  unfolding quota_for
  quota_for-limit n k h = by_stop c.stop h
    where
      by_stop :
          (s : Stop)
          → limit s ≡ some n
          → quota_for (record c { stop = s }) k ≡ some (share c.publishers n k)
      by_stop (count m) e = cc
      by_stop (count_within m d) e = cc
      by_stop (duration d) e = cc

  quotas-shares : (n k : ℕ) → limit c.stop ≡ some n → quotas k ≡ shares c.publishers n k
  quotas-shares n zero h = refl
  quotas-shares n (suc k) h =
      ap₂ (λ a b. a + quota_or b) (quotas-shares n k h) (quota_for-limit n k h)

  -- Where a run is limited to a number of messages, the quotas of its publishers add up to that
  -- number, and no two of them differ by more than one.
  pub quotas_total :
      (n : ℕ)
      → limit c.stop ≡ some n
      → 0 < c.publishers
      → (quotas c.publishers ≡ n)
        × ((i j : ℕ) → quota_or (quota_for c i) ≤ quota_or (quota_for c j) + 1)
  quotas_total n h p = (
    omega (
      arith,
      quotas-shares n c.publishers h,
      shares_up_to c.publishers n c.publishers,
      div-add-mod n c.publishers,
      mod-lt n p,
    ),
    λ i j.
        let a = ap quota_or (quota_for-limit n i h) in
        let b = ap quota_or (quota_for-limit n j h) in ground (arith, a, b),
  )

-- The window is never empty, is never wider than asked for (or 1), and keeps to a Receive Maximum
-- of the broker that is not 0.
pub effective_inflight_lem :
    (requested : ℕ) (m : Option ℕ)
    → let window = effective_inflight requested m in
      (1 ≤ window) × (window ≤ max requested 1) × ((r : ℕ) → m ≡ some r → 0 < r → window ≤ r)
unfolding effective_inflight
effective_inflight_lem requested none = (omega arith, omega arith, λ r e. absurd (none-ne-some r e))
effective_inflight_lem requested (some m) =
    (omega arith, omega arith, λ r e p. let k = some-injective _ _ e in omega (arith, k))

module _ {F : Type 0} (f : Float F) where
  -- The rate is finite, positive and not above the greatest that is allowed, and a publisher's
  -- period is finite and not above the longest `Duration`, both as `f64`.
  abbrev pub HasPeriod : ℕ → F → Type 0
  HasPeriod publishers rate =
      let period = f.div f.one (f.div rate (f.of_nat publishers)) in
      (f.less f.zero rate ≡ true)
      × (f.is_finite rate ≡ true)
      × (f.less f.max_rate rate ≡ false)
      × (f.is_finite period ≡ true)
      × (f.less f.max_duration period ≡ false)

  rate_error-HasPeriod :
      (publishers : ℕ) (rate : F)
      → rate_error f publishers (some rate) ≡ ok tt
      → HasPeriod publishers rate
  unfolding rate_error
  rate_error-HasPeriod publishers rate h = ground arith

  -- How the run stops, from --count and --duration: a limit of 10,000 messages where neither is
  -- given, and else each as it is given, or not at all.
  abbrev pub StopsBy : Option ℕ → Option ℕ → Config F → Type 0
  StopsBy none none c = (limit c.stop ≡ some 10000) × (deadline c ≡ none)
  StopsBy none (some secs) c = (limit c.stop ≡ none) × (deadline c ≡ some (secs * 10 ^ 9))
  StopsBy (some n) none c = (limit c.stop ≡ some n) × (deadline c ≡ none)
  StopsBy (some n) (some secs) c = (limit c.stop ≡ some n) × (deadline c ≡ some (secs * 10 ^ 9))

  stop_for-StopsBy :
      (n secs : Option ℕ) (c : Config F) → c.stop ≡ stop_for n secs → StopsBy n secs c
  unfolding deadline
  stop_for-StopsBy none none c e = ground arith
  stop_for-StopsBy none (some secs) c e = ground arith
  stop_for-StopsBy (some n) none c e = ground arith
  stop_for-StopsBy (some n) (some secs) c e = ground arith

  from_args_stop :
      (P : Protocol) (args : BenchArgs F) (c : Config F)
      → from_args f P args ≡ ok c
      → c.stop ≡ stop_for args.count args.duration
  unfolding from_args
  from_args_stop P args c h = ground arith

  -- A configuration that is accepted has a publisher, the quality of service that was given, and a
  -- rate that is finite, positive and at most the greatest allowed, of which every publisher has a
  -- share with a period that is finite and, in seconds as `f64`, not above the longest `Duration`.
  -- It is limited by --count and has the deadline of --duration, each exactly if it was given, and
  -- where neither was it is limited to 10,000 messages.
  pub from_args_lem :
      (P : Protocol) (args : BenchArgs F) (c : Config F)
      → from_args f P args ≡ ok c
      → (0 < c.publishers)
        × ((r : F) → c.rate ≡ some r → HasPeriod c.publishers r)
        × StopsBy args.count args.duration c
        × (P.qos_from_u8 args.qos ≡ inr c.qos)
  unfolding from_args
  from_args_lem P args c h = (
    ground arith,
    (λ r e. ground (arith, rate_error-HasPeriod args.publishers r)),
    stop_for-StopsBy args.count args.duration c (from_args_stop P args c h),
    ground arith,
  )
