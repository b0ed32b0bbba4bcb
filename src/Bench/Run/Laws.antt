-- ===== src/Bench/Run/Laws.antt =====
-- What a run prints, and when it succeeds.
use pulsemq_cli.Base.{
  ℕ, zero, suc, ◌+◌, ◌≤◌, ◌<◌, true, false, Option, none, some, List, [], ◌∷◌, map, ap, ap₂, arith,
  leb→le, ◌∙◌, Option-cases, Bytes, ◌≡◌, ◌⊎◌, inl, inr, refl, Bool-cases,
}
use pulsemq_cli.Mqtt.{Protocol}
use pulsemq_cli.Error.{Error, usage, Result, ok, err}
use pulsemq_cli.Cli.{BenchArgs}
use pulsemq_cli.Io.{World, done, failed, waiting, panicked, Outcome}
use pulsemq_cli.Bench.Float.{Float}
use pulsemq_cli.Bench.Config.{Config, from_args, Joined}
use pulsemq_cli.Bench.Config.Verdict.{IsCleanRun, verdict_lem}
use pulsemq_cli.Bench.Stats.{success}
use pulsemq_cli.Bench.Report.Value.{Json}
use pulsemq_cli.Bench.Run.{
  complaint, Tasks, handles, and_more, await_all, overflows, display, failures_of, report_of,
  printed_report, print, run,
}

Result-cases : {A : Type 0} (r : Result A) → ((e : Error) × (r ≡ err e)) ⊎ ((a : A) × (r ≡ ok a))
Result-cases (err e) = inl (e, refl)
Result-cases (ok a) = inr (a, refl)

-- One of the first `n` connections never ends.
abbrev pub Endless : (ℕ → Option Joined) → ℕ → Type 0
Endless ends n = (i : ℕ) × (i < n) × (ends i ≡ none)

-- What the connections from `index` on come to: each has its end, or one of them never ends.
await_cases :
    (ends : ℕ → Option Joined) (index n : ℕ)
    → ((js : List Joined) × (handles ends index n ≡ map some js)
        × (await_all (handles ends index n) ≡ some js))
      ⊎ ((i : ℕ) × (i < index + n) × (ends i ≡ none) × (await_all (handles ends index n) ≡ none))
unfolding await_all
await_cases ends index zero = inl ([], refl, refl)
await_cases ends index (suc n) = elim (await_cases ends (index + 1) n) [
  | inl (js, h, a) ↦ elim (Option-cases (ends index)) [
    | inl e ↦
        inr (index, omega arith, e, ap (λ o. and_more o (await_all (handles ends (index + 1) n))) e)
    | inr (j, e) ↦ inl (j ∷ js, ap₂ (λ x xs. x ∷ xs) e h, ap₂ and_more e a)
  ]
  | inr (i, l, e, a) ↦ elim (Option-cases (ends index)) [
    | inl e' ↦ inr (i, omega (arith, l), e, ap₂ and_more e' a)
    | inr (j, e') ↦ inr (i, omega (arith, l), e, ap₂ and_more e' a)
  ]
]

await_all-map : (js : List Joined) → await_all (map some js) ≡ some js
unfolding await_all
await_all-map [] = refl
await_all-map (j ∷ js) = ap (and_more (some j)) (await_all-map js)

module _ {F : Type 0} (f : Float F) (P : Protocol) (to_string_pretty : Json F → Bytes) where
  -- These are the ends of all connections.
  abbrev pub Ended : Config F → Tasks → List Joined → List Joined → Type 0
  Ended c tasks publishers subscribers =
      (handles tasks.publisher_ends 0 c.publishers ≡ map some publishers)
      × (handles tasks.subscriber_ends 0 c.subscribers ≡ map some subscribers)

  -- Every connection returned its samples, nothing was refused and no publish failed.
  abbrev pub WentWell : Tasks → List Joined → List Joined → Type 0
  WentWell tasks publishers subscribers =
      IsCleanRun (display f P to_string_pretty) publishers subscribers tasks.counters

  -- All connections ended, the report is printed, and the result is an error exactly where the run
  -- did not go well.
  abbrev pub Reported : Config F → Tasks → World → Outcome World (Unit {0}) → Type 0
  Reported c tasks w o =
      (publishers : List Joined) × (subscribers : List Joined) × Ended c tasks publishers
        subscribers
      × (let w' =
            print f P to_string_pretty
              (printed_report f P to_string_pretty c
                (report_of f P to_string_pretty c publishers subscribers tasks))
              w in
          (WentWell tasks publishers subscribers × (o ≡ done tt w'))
          ⊎ ((WentWell tasks publishers subscribers → ⊥) × (o ≡ failed (usage complaint) w')))

  -- A run whose configuration is accepted: it panics where the end of the warm-up is no time that
  -- can be held, else it waits for as long as a connection does not end, else it panics where
  -- standard output refuses the report, and else it reports.
  abbrev pub Came : Config F → Tasks → World → Outcome World (Unit {0}) → Type 0
  Came c tasks w o =
      ((tasks.instant_end ≤ tasks.baseline + c.warmup) × (o ≡ panicked))
      ⊎ ((tasks.baseline + c.warmup < tasks.instant_end)
          × (((Endless tasks.publisher_ends c.publishers
                  ⊎ Endless tasks.subscriber_ends c.subscribers)
                × (o ≡ waiting w))
              ⊎ (((tasks.stdout_refuses ≡ true) × (o ≡ panicked))
                  ⊎ ((tasks.stdout_refuses ≡ false) × Reported c tasks w o))))

  accepted-Came :
      (tasks : Tasks) (args : BenchArgs F) (c : Config F) (w : World)
      → from_args f P args ≡ ok c
      → Came c tasks w (run f P to_string_pretty tasks args w)
  unfolding run report_of
  accepted-Came tasks args c w h = elim (Bool-cases (overflows f P to_string_pretty c tasks)) [
    | inl b ↦ inl (leb→le tasks.instant_end _ b, rw (h, run, b) refl)
    | inr b ↦ inr (
      ground arith,
      elim (await_cases tasks.publisher_ends 0 c.publishers) [
        | inr (i, l, e, a) ↦ inl (inl (i, omega (arith, l), e), rw (h, run, b, a) refl)
        | inl (js, hj, a) ↦ elim (await_cases tasks.subscriber_ends 0 c.subscribers) [
          | inr (i, l, e, x) ↦ inl (inr (i, omega (arith, l), e), rw (h, run, b, a, x) refl)
          | inl (ks, hk, x) ↦ elim (Bool-cases tasks.stdout_refuses) [
            | inl r ↦ inr (inl (r, rw (h, run, b, a, x, r) refl))
            | inr r ↦
                let v = verdict_lem (display f P to_string_pretty) js ks tasks.counters in
                inr (
                  inr (
                    r,
                    (
                      js,
                      ks,
                      (hj, hk),
                      elim (Bool-cases
                          (success (failures_of f P to_string_pretty js ks) tasks.counters)) [
                            | inl s ↦ inl (v.0 s, rw (h, run, b, a, x, r, report_of, s) refl)
                            | inr s ↦ inr (
                              λ k. absurd (cc (v.1 k, s)),
                              rw (h, run, b, a, x, r, report_of, s) refl,
                            )
                          ],
                    ),
                  ))
          ]
        ]
      ],
    )
  ]

  pub run-Reported :
      (tasks : Tasks) (args : BenchArgs F) (w : World)
      → ((e : Error) × (from_args f P args ≡ err e)
          × (run f P to_string_pretty tasks args w ≡ failed e w))
        ⊎ ((c : Config F) × (from_args f P args ≡ ok c)
            × Came c tasks w (run f P to_string_pretty tasks args w))
  unfolding run
  run-Reported tasks args w = elim (Result-cases (from_args f P args)) [
    | inl (e, h) ↦ inl (e, h, rw (h, run) refl)
    | inr (c, h) ↦ inr (c, h, accepted-Came tasks args c w h)
  ]

  -- A run that goes well is done.
  pub run_done :
      (tasks : Tasks) (args : BenchArgs F) (c : Config F) (js ks : List Joined) (w : World)
      → from_args f P args ≡ ok c
      → tasks.baseline + c.warmup < tasks.instant_end
      → tasks.stdout_refuses ≡ false
      → Ended c tasks js ks
      → WentWell tasks js ks
      → (v : World) × (run f P to_string_pretty tasks args w ≡ done tt v)
  unfolding run report_of
  run_done tasks args c js ks w h l r ends well =
      let b : overflows f P to_string_pretty c tasks ≡ false = ground arith in
      let a = ap await_all ends.0 ∙ await_all-map js in
      let x = ap await_all ends.1 ∙ await_all-map ks in
      let v = verdict_lem (display f P to_string_pretty) js ks tasks.counters in
      rw (h, run, b, a, x, r, report_of, v.1 well) (_, refl)
