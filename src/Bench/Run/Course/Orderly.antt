-- ===== src/Bench/Run/Course/Orderly.antt =====
-- The order that a run of `bench` keeps.
use pulsemq_cli.Base.{
  ℕ, ◌+◌, ◌≤◌, Bool, true, false, Option, none, some, List, [], ◌∷◌, leb, leb→le, if◌then◌else◌,
  ◌≡◌, refl, subst, arith, inl, inr, ◌⊎◌,
}
use pulsemq_cli.Bench.Config.{Config, deadline}
use pulsemq_cli.Bench.Run.Course.{
  Phase, settling, publishing, draining, stopping, reporting, Course, Happening, passes,
  subscriber_ends, publisher_ends, ctrl_c, expires, continues, all_ended, begin, advance, stop_now,
  expire_at, step, course,
}
use pulsemq_cli.Bench.Run.Course.Ends.{length-spawned}
use pulsemq_cli.Bench.Run.Course.Waiting.{
  IsExcused, IsOrderly, passes-IsOrderly, subscriber_ends-IsOrderly, publisher_ends-IsOrderly,
}

if_cases :
    {S : Type 0} (Q : S → Type 0) (w : Bool) (x y : S)
    → (w ≡ true → Q x)
    → (w ≡ false → Q y)
    → Q (if w then x else y)
if_cases Q true x y h k = h refl
if_cases Q false x y h k = k refl

-- Whether a Ctrl-C has come, before or among what happens.
abbrev pub signalled_by : Bool → Happening → Bool
signalled_by b ctrl_c = true
signalled_by b (passes d) = b
signalled_by b (subscriber_ends i j) = b
signalled_by b (publisher_ends i j) = b
signalled_by b expires = b
signalled_by b continues = b

abbrev pub signalled : Bool → List Happening → Bool
signalled b [] = b
signalled b (h ∷ hs) = signalled (signalled_by b h) hs

module _ {F : Type 0} (c : Config F) (baseline : ℕ) where
  weaken-IsExcused :
      (b : Bool) (r : Course) → IsExcused c baseline b r → IsExcused c baseline true r
  weaken-IsExcused b r (inl h) = inl h
  weaken-IsExcused b r (inr (s, w, why)) = inr (s, w, inl refl)

  weaken-IsOrderly :
      (b : Bool) (p : Phase) (r : Course)
      → IsOrderly c baseline b p r
      → IsOrderly c baseline true p r
  weaken-IsOrderly b settling r h = h
  weaken-IsOrderly b publishing r h = (h.0, weaken-IsExcused b r h.1)
  weaken-IsOrderly b draining r h = (h.0, weaken-IsExcused b r h.1, h.2, h.3, h.4)
  weaken-IsOrderly b stopping r h = h
  weaken-IsOrderly b reporting r h = h

  -- Why a stop signal may be given.
  abbrev Reason : Bool → Course → Type 0
  Reason b r = (b ≡ true) ⊎ ((d : ℕ) × (deadline c ≡ some d) × (r.started + d ≤ r.now))

  stopped-IsOrderly :
      (b : Bool) (p : Phase) (r : Course)
      → Reason b r
      → r.watching ≡ true
      → IsOrderly c baseline b p r
      → IsOrderly c baseline b p (record r { watching = false; stop = true })
  stopped-IsOrderly b settling r why e h = absurd (cc (e, h.2))
  stopped-IsOrderly b publishing r why e h = (h.0, inr (refl, refl, why))
  stopped-IsOrderly b draining r why e h = (h.0, inr (refl, refl, why), h.2, h.3, h.4)
  stopped-IsOrderly b stopping r why e h = absurd (cc (e, h.1.2))
  stopped-IsOrderly b reporting r why e h = absurd (cc (e, h.1.2))

  abbrev pub KeepsOrder : Bool → Course → Type 0
  KeepsOrder b r = IsOrderly c baseline b r.phase r

  stop_now-KeepsOrder :
      (b : Bool) (r : Course) → Reason b r → KeepsOrder b r → KeepsOrder b (stop_now c r)
  stop_now-KeepsOrder b r why h =
      if_cases (KeepsOrder b) r.watching _ r (λ e. stopped-IsOrderly b r.phase r why e h) (λ e. h)

  expire_at-KeepsOrder :
      (b : Bool) (o : Option ℕ) (r : Course)
      → deadline c ≡ o
      → KeepsOrder b r
      → KeepsOrder b (expire_at c o r)
  expire_at-KeepsOrder b none r e h = h
  expire_at-KeepsOrder b (some d) r e h =
      if_cases (KeepsOrder b) (leb (r.started + d) r.now) _ r
        (λ l. stop_now-KeepsOrder b r (inr (d, e, leb→le (r.started + d) r.now l)) h) (λ l. h)

  advance-KeepsOrder :
      (b : Bool) (p : Phase) (r : Course)
      → IsOrderly c baseline b p r
      → KeepsOrder b (advance c p r)
  unfolding advance
  advance-KeepsOrder b settling r h =
      if_cases (KeepsOrder b) (leb r.wake r.now) _ _
        (λ l. (
          (
            subst (λ n. n ≤ r.now) h.3 (ground arith),
            omega arith,
            h.4,
            length-spawned c.publishers,
          ),
          inl (h.1, refl),
        ))
        (λ l. h)
  advance-KeepsOrder b publishing r h =
      if_cases (KeepsOrder b) (all_ended r.publishers) _ _
        (λ l. (h.0, h.1, l, omega (arith, h.0.1), omega (arith, h.0.1))) (λ l. h)
  advance-KeepsOrder b draining r h =
      if_cases (KeepsOrder b) (leb r.wake r.now) _ _
        (λ l. (h.0, (h.2, refl, refl, subst (λ n. n ≤ r.now) h.3 (ground arith)))) (λ l. h)
  advance-KeepsOrder b stopping r h =
      if_cases (KeepsOrder b) (all_ended r.subscribers) _ _ (λ l. (h.0, h.1, l)) (λ l. h)
  advance-KeepsOrder b reporting r h = h

  step-KeepsOrder :
      (b : Bool) (h : Happening) (r : Course)
      → KeepsOrder b r
      → KeepsOrder (signalled_by b h) (step c h r)
  unfolding step
  step-KeepsOrder b (passes d) r k = passes-IsOrderly c baseline b r.phase d r k
  step-KeepsOrder b (subscriber_ends i j) r k =
      subscriber_ends-IsOrderly c baseline b r.phase i j r k
  step-KeepsOrder b (publisher_ends i j) r k = publisher_ends-IsOrderly c baseline b r.phase i j r k
  step-KeepsOrder b ctrl_c r k =
      stop_now-KeepsOrder true r (inl refl) (weaken-IsOrderly b r.phase r k)
  step-KeepsOrder b expires r k = expire_at-KeepsOrder b (deadline c) r refl k
  step-KeepsOrder b continues r k = advance-KeepsOrder b r.phase r k

  later-KeepsOrder :
      (b : Bool) (hs : List Happening) (r : Course)
      → KeepsOrder b r
      → KeepsOrder (signalled b hs) (course c hs r)
  unfolding course
  later-KeepsOrder b [] r k = k
  later-KeepsOrder b (h ∷ hs) r k =
      later-KeepsOrder (signalled_by b h) hs (step c h r) (step-KeepsOrder b h r k)

  -- Whatever happens in a run of `bench`, in whatever order: the publishers are spawned only after
  -- the subscribers, when these had their time to settle; while `run` waits for the publishers or
  -- drains, the stop signal has been given only if a Ctrl-C came or the deadline passed, and
  -- exactly if nothing watches for these any more; `run` drains only when every publisher has
  -- ended, it gives the stop signal itself only when the time that it measured and the drain are
  -- over, and it reports only when every subscriber has ended as well.
  pub course-KeepsOrder :
      (hs : List Happening) → KeepsOrder (signalled false hs) (course c hs (begin c baseline))
  course-KeepsOrder hs =
      later-KeepsOrder false hs (begin c baseline)
        (refl, refl, refl, refl, length-spawned c.subscribers)
