-- ===== src/Bench/Stats.antt =====
-- Samples, counters and the verdict of a run (src/bench/stats.rs).
pub mod Order
pub mod Counting
pub mod Quantiles
use pulsemq_cli.Base.{
  ℕ, suc, ◌+◌, ◌-◌, ◌/◌, ◌%◌, ◌^◌, min, Bool, true, false, ◌&&◌, Option, none, some, List, [], ◌∷◌,
  ◌++◌, Bytes, length, get_or, leb, ltb, ◌==◌, if◌then◌else◌,
}
use pulsemq_cli.Mqtt.{ReasonCode}
use pulsemq_cli.Bench.Float.{Float}

pub record Samples : Type 0 where
  pub values : List ℕ  -- nanoseconds, each a u64
  pub sorted : Bool

abbrev pub samples_new : Samples
samples_new = record { values = []; sorted = false }

-- The source's `record`.
abbrev pub record_sample : ℕ → Samples → Samples
record_sample nanos s = record { values = s.values ++ (nanos ∷ []); sorted = false }

abbrev pub merge : Samples → Samples → Samples
merge s more = record { values = s.values ++ more.values; sorted = false }

-- `sort_unstable` of numbers, which have only one sorted order.
insert : ℕ → List ℕ → List ℕ
insert x [] = x ∷ []
insert x (y ∷ ys) = let rest = insert x ys in if leb x y then x ∷ y ∷ ys else y ∷ rest

pub sort_unstable : List ℕ → List ℕ
unfolding insert
sort_unstable [] = []
sort_unstable (x ∷ xs) = insert x (sort_unstable xs)

pub record Summary : Type 0 where
  pub count : ℕ
  pub min_ns : ℕ
  pub p50_ns : ℕ
  pub p95_ns : ℕ
  pub p99_ns : ℕ
  pub max_ns : ℕ
  pub mean_ns : ℕ

pub sum : List ℕ → ℕ
sum [] = 0
sum (v ∷ vs) = v + sum vs

abbrev is_empty : List ℕ → Bool
is_empty [] = true
is_empty (v ∷ vs) = false

module _ {F : Type 0} (f : Float F) where
  -- `sorted[index]`, within bounds where `sorted` is not empty.
  pub percentile : List ℕ → F → ℕ
  percentile sorted p =
      let rank = f.ceil (f.mul p (f.of_nat (length sorted))) in
      get_or sorted (min (rank - 1) (length sorted - 1)) 0

  abbrev summary_of : List ℕ → Summary
  unfolding sum percentile
  summary_of values = record {
    count = length values;
    min_ns = get_or values 0 0;
    p50_ns = percentile values f.p50;
    p95_ns = percentile values f.p95;
    p99_ns = percentile values f.p99;
    max_ns = get_or values (length values - 1) 0;
    mean_ns = sum values / length values % 2 ^ 64;
  }

  abbrev sort_once : Samples → Samples
  unfolding sort_unstable
  sort_once s = if s.sorted then s else record { values = sort_unstable s.values; sorted = true }

  unfoldable pub summary : Samples → Option Summary × Samples
  unfolding sort_unstable sum percentile
  summary s =
      if is_empty s.values
      then (none, s)
      else let s' = sort_once s in (some (summary_of s'.values), s')

-- The counters that the connections share; `refused` by reason code, in order.
pub record Counters : Type 0 where
  pub published : ℕ
  pub acknowledged : ℕ
  pub received : ℕ
  pub bytes_sent : ℕ
  pub bytes_received : ℕ
  pub publish_errors : ℕ
  pub refused : List (ReasonCode × ℕ)

abbrev pub counters_new : Counters
counters_new = record {
  published = 0;
  acknowledged = 0;
  received = 0;
  bytes_sent = 0;
  bytes_received = 0;
  publish_errors = 0;
  refused = [];
}

-- `*refused.entry(code).or_insert(0) += 1` on a BTreeMap.
count_refusal : ReasonCode → List (ReasonCode × ℕ) → List (ReasonCode × ℕ)
count_refusal code [] = (code, 1) ∷ []
count_refusal code ((c, n) ∷ rest) =
    let later = count_refusal code rest in
    if code == c
    then (c, n + 1) ∷ rest
    else if ltb code c
    then (code, 1) ∷ (c, n) ∷ rest
    else (c, n) ∷ later

unfoldable pub record_refusal : ReasonCode → Counters → Counters
unfolding count_refusal
record_refusal code c = record c { refused = count_refusal code c.refused }

abbrev none_failed : List Bytes → Bool
none_failed [] = true
none_failed (x ∷ xs) = false

abbrev none_refused : List (ReasonCode × ℕ) → Bool
none_refused [] = true
none_refused (x ∷ xs) = false

-- `Report::success`, of the report's failures and totals.
unfoldable pub success : List Bytes → Counters → Bool
success task_failures totals =
    none_failed task_failures && none_refused totals.refused && (totals.publish_errors == 0)
