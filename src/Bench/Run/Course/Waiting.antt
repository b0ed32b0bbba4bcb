-- ===== src/Bench/Run/Course/Waiting.antt =====
-- What holds in each phase of a run of `bench`, and that time and the ends of tasks keep it.
use pulsemq_cli.Base.{
  ℕ, ◌+◌, ◌≤◌, Bool, true, false, some, [], length, ◌≡◌, ap, ◌∙◌, arith, inl, inr, ◌⊎◌,
}
use pulsemq_cli.Bench.Config.{Config, deadline, Joined}
use pulsemq_cli.Bench.Run.Course.{
  Phase, settling, publishing, draining, stopping, reporting, Course, end_task, all_ended,
  settled_at,
}
use pulsemq_cli.Bench.Run.Course.Ends.{length-end_task, end_task_ended}

module _ {F : Type 0} (c : Config F) (baseline : ℕ) where
  -- The stop signal has been given exactly if the watching task is gone, and only after Ctrl-C, which
  -- `signalled` says, or the deadline.
  abbrev pub IsExcused : Bool → Course → Type 0
  IsExcused signalled r =
      ((r.stop ≡ false) × (r.watching ≡ true))
      ⊎ ((r.stop ≡ true)
          × (r.watching ≡ false)
          × ((signalled ≡ true) ⊎ ((d : ℕ) × (deadline c ≡ some d) × (r.started + d ≤ r.now))))

  -- All connections were spawned, and the publishers only after the subscribers had settled.
  abbrev pub IsBegun : Course → Type 0
  IsBegun r =
      (settled_at c baseline ≤ r.started)
      × (r.started ≤ r.now)
      × (length r.subscribers ≡ c.subscribers)
      × (length r.publishers ≡ c.publishers)

  -- The publishers are done, and the time that was measured is over, and then the drain.
  abbrev pub IsDrained : Course → Type 0
  IsDrained r =
      (all_ended r.publishers ≡ true)
      × (r.stop ≡ true)
      × (r.watching ≡ false)
      × (r.started + r.elapsed + c.drain ≤ r.now)

  abbrev pub IsOrderly : Bool → Phase → Course → Type 0
  IsOrderly signalled settling r =
      (r.publishers ≡ [])
      × (r.stop ≡ false)
      × (r.watching ≡ false)
      × (r.wake ≡ settled_at c baseline)
      × (length r.subscribers ≡ c.subscribers)
  IsOrderly signalled publishing r = IsBegun r × IsExcused signalled r
  IsOrderly signalled draining r =
      IsBegun r
      × IsExcused signalled r
      × (all_ended r.publishers ≡ true)
      × (r.wake ≡ r.started + r.elapsed + c.drain)
      × (r.started + r.elapsed ≤ r.now)
  IsOrderly signalled stopping r = IsBegun r × IsDrained r
  IsOrderly signalled reporting r = IsBegun r × IsDrained r × (all_ended r.subscribers ≡ true)

  passes-IsExcused :
      (b : Bool) (d : ℕ) (r : Course) → IsExcused b r → IsExcused b (record r { now = r.now + d })
  passes-IsExcused b d r (inl h) = inl h
  passes-IsExcused b d r (inr (s, w, inl h)) = inr (s, w, inl h)
  passes-IsExcused b d r (inr (s, w, inr (t, e, l))) = inr (s, w, inr (t, e, omega (arith, l)))

  passes-IsBegun : (d : ℕ) (r : Course) → IsBegun r → IsBegun (record r { now = r.now + d })
  passes-IsBegun d r h = (h.0, omega (arith, h.1), h.2, h.3)

  pub passes-IsOrderly :
      (b : Bool) (p : Phase) (d : ℕ) (r : Course)
      → IsOrderly b p r
      → IsOrderly b p (record r { now = r.now + d })
  passes-IsOrderly b settling d r h = h
  passes-IsOrderly b publishing d r h = (passes-IsBegun d r h.0, passes-IsExcused b d r h.1)
  passes-IsOrderly b draining d r h =
      (passes-IsBegun d r h.0, passes-IsExcused b d r h.1, h.2, h.3, omega (arith, h.4))
  passes-IsOrderly b stopping d r h =
      (passes-IsBegun d r h.0, (h.1.0, h.1.1, h.1.2, omega (arith, h.1.3)))
  passes-IsOrderly b reporting d r h =
      (passes-IsBegun d r h.0, (h.1.0, h.1.1, h.1.2, omega (arith, h.1.3)), h.2)

  pub subscriber_ends-IsOrderly :
      (b : Bool) (p : Phase) (i : ℕ) (j : Joined) (r : Course)
      → IsOrderly b p r
      → IsOrderly b p (record r { subscribers = end_task i j r.subscribers })
  subscriber_ends-IsOrderly b settling i j r h =
      (h.0, h.1, h.2, h.3, length-end_task i j r.subscribers ∙ h.4)
  subscriber_ends-IsOrderly b publishing i j r h =
      ((h.0.0, h.0.1, length-end_task i j r.subscribers ∙ h.0.2, h.0.3), h.1)
  subscriber_ends-IsOrderly b draining i j r h =
      ((h.0.0, h.0.1, length-end_task i j r.subscribers ∙ h.0.2, h.0.3), h.1, h.2, h.3, h.4)
  subscriber_ends-IsOrderly b stopping i j r h =
      ((h.0.0, h.0.1, length-end_task i j r.subscribers ∙ h.0.2, h.0.3), h.1)
  subscriber_ends-IsOrderly b reporting i j r h = (
    (h.0.0, h.0.1, length-end_task i j r.subscribers ∙ h.0.2, h.0.3),
    h.1,
    ap all_ended (end_task_ended i j r.subscribers h.2) ∙ h.2,
  )

  pub publisher_ends-IsOrderly :
      (b : Bool) (p : Phase) (i : ℕ) (j : Joined) (r : Course)
      → IsOrderly b p r
      → IsOrderly b p (record r { publishers = end_task i j r.publishers })
  unfolding end_task
  publisher_ends-IsOrderly b settling i j r h = (ap (end_task i j) h.0, h.1, h.2, h.3, h.4)
  publisher_ends-IsOrderly b publishing i j r h =
      ((h.0.0, h.0.1, h.0.2, length-end_task i j r.publishers ∙ h.0.3), h.1)
  publisher_ends-IsOrderly b draining i j r h = (
    (h.0.0, h.0.1, h.0.2, length-end_task i j r.publishers ∙ h.0.3),
    h.1,
    ap all_ended (end_task_ended i j r.publishers h.2) ∙ h.2,
    h.3,
    h.4,
  )
  publisher_ends-IsOrderly b stopping i j r h = (
    (h.0.0, h.0.1, h.0.2, length-end_task i j r.publishers ∙ h.0.3),
    (ap all_ended (end_task_ended i j r.publishers h.1.0) ∙ h.1.0, h.1.1, h.1.2, h.1.3),
  )
  publisher_ends-IsOrderly b reporting i j r h = (
    (h.0.0, h.0.1, h.0.2, length-end_task i j r.publishers ∙ h.0.3),
    (ap all_ended (end_task_ended i j r.publishers h.1.0) ∙ h.1.0, h.1.1, h.1.2, h.1.3),
    h.2,
  )
