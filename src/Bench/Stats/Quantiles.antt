-- ===== src/Bench/Stats/Quantiles.antt =====
-- What a summary says of the samples.
use mathlib.Core.Option.{some-injective, none-ne-some}
use native.Mathlib.Nat.{le-div_iff_mul-le, div-lt_iff_lt-mul}
use pulsemq_cli.Base.{
  ℕ, suc, ◌-◌, ◌/◌, ◌%◌, ◌^◌, ◌≤◌, ◌<◌, Bool, true, false, some, List, [], ◌∷◌, ◌++◌, All, length,
  get_or, ◌≡◌, refl, sym, ap, subst, ◌∙◌, arith, inl, inr, Bool-cases,
}
use pulsemq_cli.Bench.Float.{Float, IsMonotone}
use pulsemq_cli.Bench.Stats.{
  Samples, merge, is_empty, sort_unstable, Summary, sum, percentile, summary_of, sort_once, summary,
}
use pulsemq_cli.Bench.Stats.Order.{
  Sorted, All-weaken, get_or-All, get_or_mono, sort_append_comm, sort_unstable-Sorted,
  length-sort_unstable, All-at, sum_le, le_sum, to_sort, of_sort,
}

-- Samples that say they are sorted are sorted.
abbrev pub IsHonest : Samples → Type 0
IsHonest s = s.sorted ≡ true → Sorted s.values

-- The quantiles ascend, and all samples lie between the first and the last of them.
abbrev pub IsOrdered : List ℕ → Summary → Type 0
IsOrdered values r =
    (r.count ≡ length values)
    × (r.min_ns ≤ r.p50_ns)
    × (r.p50_ns ≤ r.p95_ns)
    × (r.p95_ns ≤ r.p99_ns)
    × (r.p99_ns ≤ r.max_ns)
    × All (λ v. (r.min_ns ≤ v) × (v ≤ r.max_ns)) values
    × (All (λ v. v < 2 ^ 64) values → (r.min_ns ≤ r.mean_ns) × (r.mean_ns ≤ r.max_ns))

mean_between :
    (values : List ℕ) (lo hi : ℕ)
    → 0 < length values
    → All (λ v. (lo ≤ v) × (v ≤ hi)) values
    → hi < 2 ^ 64
    → (lo ≤ sum values / length values % 2 ^ 64) × (sum values / length values % 2 ^ 64 ≤ hi)
mean_between values lo hi n h b =
    let below =
      le_sum lo values
        (All-weaken (λ v. (lo ≤ v) × (v ≤ hi)) (λ v. lo ≤ v) values (λ v k. k.0) h) in
    let above =
      sum_le hi values
        (All-weaken (λ v. (lo ≤ v) × (v ≤ hi)) (λ v. v ≤ hi) values (λ v k. k.1) h) in
    let l : lo ≤ sum values / length values = (le-div_iff_mul-le n).1 below in
    let u : sum values / length values < suc hi =
      (div-lt_iff_lt-mul n).1 (grind (arith, above, n)) in
    omega arith

is_empty_comm : (xs ys : List ℕ) → is_empty (xs ++ ys) ≡ is_empty (ys ++ xs)
is_empty_comm [] [] = refl
is_empty_comm [] (y ∷ ys) = refl
is_empty_comm (x ∷ xs) [] = refl
is_empty_comm (x ∷ xs) (y ∷ ys) = refl

is_empty-sort : (v : ℕ) (vs : List ℕ) → is_empty (sort_unstable (v ∷ vs)) ≡ false
is_empty-sort v vs =
    nonempty (sort_unstable (v ∷ vs)) (omega (arith, length-sort_unstable (v ∷ vs)))
  where
    nonempty : (xs : List ℕ) → 0 < length xs → is_empty xs ≡ false
    nonempty [] h = absurd (omega arith)
    nonempty (x ∷ xs) h = refl

module _ {F : Type 0} (f : Float F) (M : IsMonotone f) where
  summary_of-IsOrdered :
      (values : List ℕ) → 0 < length values → Sorted values → IsOrdered values (summary_of f values)
  unfolding percentile summary_of
  summary_of-IsOrdered values n s =
      let last = length values - 1 in
      let between : All (λ v. (get_or values 0 0 ≤ v) × (v ≤ get_or values last 0)) values =
        All-at (λ v. (get_or values 0 0 ≤ v) × (v ≤ get_or values last 0)) values
          (λ i l. (
            get_or_mono values 0 i s (omega arith) l,
            get_or_mono values i last s (omega arith) (omega arith),
          )) in
      (
        refl,
        get_or_mono values 0 _ s (omega arith) (omega arith),
        get_or_mono values _ _ s (omega (arith, M.p50_p95 (length values))) (omega arith),
        get_or_mono values _ _ s (omega (arith, M.p95_p99 (length values))) (omega arith),
        get_or_mono values _ last s (omega arith) (omega arith),
        between,
        λ b.
            mean_between values _ _ n between
              (get_or-All (λ v. v < 2 ^ 64) values last (omega arith) b),
      )

  unsort_IsOrdered :
      (values : List ℕ) (r : Summary) → IsOrdered (sort_unstable values) r → IsOrdered values r
  unsort_IsOrdered values r o = (
    o.0 ∙ length-sort_unstable values,
    o.1,
    o.2,
    o.3,
    o.4,
    of_sort (λ v. (r.min_ns ≤ v) × (v ≤ r.max_ns)) values o.5,
    λ b. o.6 (to_sort (λ v. v < 2 ^ 64) values b),
  )

  -- Where products and `ceil` are monotone, a summary counts every sample, its quantiles ascend
  -- from the least to the greatest sample, and its mean lies between those two where the samples
  -- fit 64 bits.
  pub summary-IsOrdered :
      (s : Samples) (r : Summary) → IsHonest s → (summary f s).0 ≡ some r → IsOrdered s.values r
  unfolding summary sort_once
  summary-IsOrdered s r h g = ordered s.values s.sorted h g
    where
      ordered :
          (values : List ℕ) (sorted : Bool)
          → (sorted ≡ true → Sorted values)
          → (summary f (record { values = values; sorted = sorted })).0 ≡ some r
          → IsOrdered values r
      ordered [] sorted h g = absurd (none-ne-some r g)
      ordered (v ∷ vs) true h g =
          subst (IsOrdered (v ∷ vs)) (some-injective _ _ g)
            (summary_of-IsOrdered (v ∷ vs) (omega arith) (h refl))
      ordered (v ∷ vs) false h g = subst (IsOrdered (v ∷ vs)) (some-injective _ _ g) (
          unsort_IsOrdered (v ∷ vs) _ (
            summary_of-IsOrdered (sort_unstable (v ∷ vs))
              (omega (arith, length-sort_unstable (v ∷ vs))) (sort_unstable-Sorted (v ∷ vs))))

  -- Taking a summary leaves the samples honest about being sorted, and a second one is the same.
  pub summary_twice :
      (s : Samples)
      → IsHonest s
      → IsHonest (summary f s).1 × ((summary f (summary f s).1).0 ≡ (summary f s).0)
  unfolding summary sort_once
  summary_twice s h = again s.values s.sorted h
    where
      again :
          (values : List ℕ) (sorted : Bool)
          → (sorted ≡ true → Sorted values)
          → let s : Samples = record { values = values; sorted = sorted } in
            IsHonest (summary f s).1 × ((summary f (summary f s).1).0 ≡ (summary f s).0)
      again [] sorted h = (h, refl)
      again (v ∷ vs) true h = (h, refl)
      again (v ∷ vs) false h = (λ _. sort_unstable-Sorted (v ∷ vs), rw (is_empty-sort v vs) refl)

  -- It does not matter in which order the samples of two connections are joined: the summary is the
  -- same.
  pub summary-merge_comm : (s t : Samples) → (summary f (merge s t)).0 ≡ (summary f (merge t s)).0
  unfolding summary sort_unstable
  summary-merge_comm s t =
      let turn = is_empty_comm s.values t.values in
      elim (Bool-cases (is_empty (s.values ++ t.values))) [
        | inl e ↦ rw (e, sym turn ∙ e) refl
        | inr e ↦
            rw (e, sym turn ∙ e)
              (ap (λ vs. some (summary_of f vs)) (sort_append_comm s.values t.values))
      ]
