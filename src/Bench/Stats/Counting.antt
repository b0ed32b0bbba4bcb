-- ===== src/Bench/Stats/Counting.antt =====
-- The tally of refusals, and the verdict.
use pulsemq_cli.Base.{
  ℕ, ◌+◌, ◌<◌, Bool, true, false, List, [], ◌∷◌, Bytes, All, ltb, ◌==◌, if◌then◌else◌, ◌≡◌, ◌↔◌,
  refl, arith, inl, inr, Bool-cases,
}
use pulsemq_cli.Mqtt.{ReasonCode}
use pulsemq_cli.Bench.Stats.{Counters, count_refusal, record_refusal, none_refused, success}

abbrev pub Tally : Type 0
Tally = List (ReasonCode × ℕ)

-- The keys ascend, as in a BTreeMap.
abbrev pub IsAscending : Tally → Type 0
IsAscending [] = Unit {0}
IsAscending ((c, n) ∷ rest) = All (λ e. c < e.0) rest × IsAscending rest

-- How often a code was refused.
abbrev pub tally : ReasonCode → Tally → ℕ
tally code [] = 0
tally code ((c, n) ∷ rest) = if code == c then n else tally code rest

abbrev pub one_if : Bool → ℕ
one_if b = if b then 1 else 0

count_refusal-above :
    (low code : ReasonCode) (t : Tally)
    → low < code
    → All (λ e. low < e.0) t
    → All (λ e. low < e.0) (count_refusal code t)
unfolding count_refusal
count_refusal-above low code [] l h = (l, tt)
count_refusal-above low code ((c, n) ∷ rest) l h =
    let later = count_refusal-above low code rest l h.1 in ground arith

above-weaken : (a b : ReasonCode) (t : Tally) → a < b → All (λ e. b < e.0) t → All (λ e. a < e.0) t
above-weaken a b [] l h = tt
above-weaken a b (e ∷ t) l h = (omega (arith, h.0), above-weaken a b t l h.1)

tally_below : (code : ReasonCode) (t : Tally) → All (λ e. code < e.0) t → tally code t ≡ 0
tally_below code [] h = refl
tally_below code ((c, n) ∷ rest) h = ground (arith, tally_below code rest h.1)

count_refusal-IsAscending :
    (code : ReasonCode) (t : Tally) → IsAscending t → IsAscending (count_refusal code t)
unfolding count_refusal
count_refusal-IsAscending code [] h = (tt, tt)
count_refusal-IsAscending code ((c, n) ∷ rest) h = elim (Bool-cases (code == c)) [
  | inl e ↦ rw e h
  | inr e ↦ elim (Bool-cases (ltb code c)) [
    | inl l ↦ let k : code < c = ground arith in rw (e, l) ((k, above-weaken code c rest k h.0), h)
    | inr l ↦
        let k : c < code = ground arith in
        rw (e, l) (count_refusal-above c code rest k h.0, count_refusal-IsAscending code rest h.1)
  ]
]

count_refusal-tally :
    (code d : ReasonCode) (t : Tally)
    → IsAscending t
    → tally d (count_refusal code t) ≡ tally d t + one_if (d == code)
unfolding count_refusal
count_refusal-tally code d [] h = ground arith
count_refusal-tally code d ((c, n) ∷ rest) h =
    let later = count_refusal-tally code d rest h.1 in
    let low : d < c → tally d rest ≡ 0 = λ l. tally_below d rest (above-weaken d c rest l h.0) in
    ground arith

count_refusal-some : (code : ReasonCode) (t : Tally) → none_refused (count_refusal code t) ≡ false
unfolding count_refusal
count_refusal-some code [] = refl
count_refusal-some code ((c, n) ∷ rest) = ground arith

-- A refusal adds one to the count of its own code and to no other, keeps the codes in order, and
-- from then on the run is no success.
record_refusal_lem :
    (code : ReasonCode) (c : Counters) (failures : List Bytes)
    → IsAscending c.refused
    → let c' = record_refusal code c in
      IsAscending c'.refused
      × ((d : ReasonCode) → tally d c'.refused ≡ tally d c.refused + one_if (d == code))
      × (success failures c' ≡ false)
unfolding record_refusal success count_refusal
record_refusal_lem code c failures h = (
  count_refusal-IsAscending code c.refused h,
  λ d. count_refusal-tally code d c.refused h,
  ground (arith, count_refusal-some code c.refused),
)

-- A run is a success exactly when no connection failed, nothing was refused and no publish failed.
pub success-eq-true :
    (failures : List Bytes) (c : Counters)
    → (success failures c ≡ true) ↔ ((failures ≡ []) × (c.refused ≡ []) × (c.publish_errors ≡ 0))
unfolding success
success-eq-true failures c = ground arith
