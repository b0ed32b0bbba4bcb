-- ===== src/Bench/Config/Verdict.antt =====
-- From the ends of a run's tasks to its verdict.
use mathlib.Core.List.{append-nil, append_assoc}
use pulsemq_cli.Base.{
  ℕ, suc, ◌+◌, true, List, [], ◌∷◌, ◌++◌, Bytes, text, All, length, ◌≡◌, ◌↔◌, refl, sym, ap, ◌∙◌,
  arith,
}
use pulsemq_cli.Error.{Error, Result, ok, err}
use pulsemq_cli.Bench.Stats.{Samples, samples_new, merge, Counters, success}
use pulsemq_cli.Bench.Stats.Counting.{success-eq-true}
use pulsemq_cli.Bench.Config.{
  Joined, returned, task_panicked, join_tasks, collect_failures, failures_from,
}

abbrev pub IsOk : Result (Unit {0}) → Type 0
IsOk (ok u) = Unit {0}
IsOk (err e) = ⊥

-- A task that returned its samples: it neither failed nor panicked.
abbrev pub IsClean : Joined → Type 0
IsClean (returned (ok s)) = Unit {0}
IsClean (returned (err e)) = ⊥
IsClean (task_panicked e) = ⊥

-- The samples of the tasks that have any, in order.
abbrev pub samples_of : List Joined → List ℕ
samples_of [] = []
samples_of (returned (ok s) ∷ rest) = s.values ++ samples_of rest
samples_of (returned (err e) ∷ rest) = samples_of rest
samples_of (task_panicked e ∷ rest) = samples_of rest

-- Joining keeps every sample, in the order of the tasks, and gives a result for each task.
join_tasks_lem :
    (tasks : List Joined) (merged : Samples)
    → let (all, results) = join_tasks tasks merged in
      (all.values ≡ merged.values ++ samples_of tasks) × (length results ≡ length tasks)
unfolding join_tasks
join_tasks_lem [] merged = (sym (append-nil merged.values), refl)
join_tasks_lem (returned (ok s) ∷ rest) merged =
    let (v, l) = join_tasks_lem rest (merge merged s) in
    (v ∙ append_assoc merged.values s.values (samples_of rest), ap suc l)
join_tasks_lem (returned (err e) ∷ rest) merged =
    let (v, l) = join_tasks_lem rest merged in (v, ap suc l)
join_tasks_lem (task_panicked e ∷ rest) merged =
    let (v, l) = join_tasks_lem rest merged in (v, ap suc l)

module _ (display : Error → Bytes) where
  failures_from-nil :
      (role : Bytes) (i : ℕ) (tasks : List Joined) (merged : Samples)
      → failures_from display role i (join_tasks tasks merged).1 ≡ []
      → All IsClean tasks
  unfolding join_tasks
  failures_from-nil role i [] merged h = tt
  failures_from-nil role i (returned (ok s) ∷ rest) merged h =
      (tt, failures_from-nil role (i + 1) rest (merge merged s) h)
  failures_from-nil role i (returned (err e) ∷ rest) merged h = absurd (ground arith)
  failures_from-nil role i (task_panicked e ∷ rest) merged h = absurd (ground arith)

  failures_from-clean :
      (role : Bytes) (i : ℕ) (tasks : List Joined) (merged : Samples)
      → All IsClean tasks
      → failures_from display role i (join_tasks tasks merged).1 ≡ []
  unfolding join_tasks
  failures_from-clean role i [] merged h = refl
  failures_from-clean role i (returned (ok s) ∷ rest) merged h =
      failures_from-clean role (i + 1) rest (merge merged s) h.1
  failures_from-clean role i (returned (err e) ∷ rest) merged h = absurd h.0
  failures_from-clean role i (task_panicked e ∷ rest) merged h = absurd h.0

  nil_of_append : (xs ys : List Bytes) → xs ++ ys ≡ [] → (xs ≡ []) × (ys ≡ [])
  nil_of_append [] ys h = (refl, h)
  nil_of_append (x ∷ xs) ys h = absurd (ground arith)

  -- What a successful run asks for.
  abbrev pub IsCleanRun : List Joined → List Joined → Counters → Type 0
  IsCleanRun publishers subscribers totals =
      All IsClean publishers
      × All IsClean subscribers
      × (totals.refused ≡ [])
      × (totals.publish_errors ≡ 0)

  -- A run is reported as a success exactly if every publisher and every subscriber returned its
  -- samples, the broker refused nothing and no publish failed.
  pub verdict_lem :
      (publishers subscribers : List Joined) (totals : Counters)
      → (success
            (collect_failures display (join_tasks publishers samples_new).1 (text "publisher")
              ++ collect_failures display
                  (join_tasks subscribers samples_new).1
                  (text "subscriber"))
            totals
          ≡ true)
        ↔ IsCleanRun publishers subscribers totals
  unfolding collect_failures
  verdict_lem publishers subscribers totals = (
    λ h.
        let k = (success-eq-true _ totals).0 h in
        let (p, s) = nil_of_append _ _ k.0 in
        (
          failures_from-nil (text "publisher") 0 publishers samples_new p,
          failures_from-nil (text "subscriber") 0 subscribers samples_new s,
          k.1,
          k.2,
        ),
    λ k. (success-eq-true _ totals).1 (
      rw (failures_from-clean (text "publisher") 0 publishers samples_new k.0)
          (failures_from-clean (text "subscriber") 0 subscribers samples_new k.1),
      k.2,
      k.3,
    ),
  )
