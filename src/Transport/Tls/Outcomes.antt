-- ===== src/Transport/Tls/Outcomes.antt =====
-- Parts that read and write no packets, and fail with errors of usage only.
use pulsemq_cli.Base.{Bytes, ◌≡◌, refl, ◌⊎◌, inl, inr}
use pulsemq_cli.Error.{
  Error, usage, rejected, disconnected, unsupported, mqtt, Result, ok, err, or_usage,
}
use pulsemq_cli.Error
use pulsemq_cli.Io.{
  World, Outcome, done, failed, waiting, panicked, stuck, Action, and_then, lift_result,
}

abbrev pub IsUsage : Error → Type 0
IsUsage (usage m) = Unit
IsUsage (rejected m code) = ⊥
IsUsage (disconnected m) = ⊥
IsUsage (unsupported m) = ⊥
IsUsage (mqtt e) = ⊥

-- The value meets `Q`, or the error is one of usage.
abbrev pub Yields : {A : Type 0} → (A → Type 0) → Result A → Type 0
Yields Q (ok a) = Q a
Yields Q (err e) = IsUsage e

pub bind-Yields :
    {A B : Type 0} (Q : A → Type 0) (R : B → Type 0) (r : Result A) (f : A → Result B)
    → Yields Q r
    → ((a : A) → Q a → Yields R (f a))
    → Yields R (Error.◌>>=◌ r f)
bind-Yields Q R (ok a) f h k = k a h
bind-Yields Q R (err e) f h k = h

pub weaken-Yields :
    {A : Type 0} (Q R : A → Type 0) (r : Result A) → Yields Q r → ((a : A) → Q a → R a) → Yields R r
weaken-Yields Q R (ok a) h k = k a h
weaken-Yields Q R (err e) h k = h

pub or_usage-Yields :
    {A : Type 0} (before : Bytes) (r : Bytes ⊎ A) → Yields (λ a. r ≡ inr a) (or_usage before r)
or_usage-Yields before (inl e) = tt
or_usage-Yields before (inr a) = refl

-- The outcome of a part that has changed at most the warnings: success meets `Q`, and a failure is an
-- error of usage.
abbrev pub Settles : {A : Type 0} → (A → World → Type 0) → World → Outcome World A → Type 0
Settles Q w (done a w') = Q a w' × (w' ≡ record w { warnings = w'.warnings })
Settles Q w (failed e w') = IsUsage e × (w' ≡ record w { warnings = w'.warnings })
Settles Q w (waiting w') = ⊥
Settles Q w panicked = ⊥
Settles Q w stuck = ⊥

pub weaken-Settles :
    {A : Type 0} (Q R : A → World → Type 0) (w : World) (m : Outcome World A)
    → Settles Q w m
    → ((a : A) (v : World) → Q a v → R a v)
    → Settles R w m
weaken-Settles Q R w (done a v) h k = (k a v h.0, h.1)
weaken-Settles Q R w (failed e v) h k = h
weaken-Settles Q R w (waiting v) h k = h
weaken-Settles Q R w panicked h k = h
weaken-Settles Q R w stuck h k = h

pub and_then-Settles :
    {A B : Type 0} (Q : A → World → Type 0) (R : B → World → Type 0) (w : World)
    (m : Outcome World A) (f : A → Action World B)
    → Settles Q w m
    → ((a : A) (v : World) → Q a v → v ≡ record w { warnings = v.warnings } → Settles R w (f a v))
    → Settles R w (and_then m f)
and_then-Settles Q R w (done a v) f h k = k a v h.0 h.1
and_then-Settles Q R w (failed e v) f h k = h
and_then-Settles Q R w (waiting v) f h k = h
and_then-Settles Q R w panicked f h k = h
and_then-Settles Q R w stuck f h k = h

pub lift_result-Settles :
    {A : Type 0} (Q : A → Type 0) (w v : World) (r : Result A)
    → v ≡ record w { warnings = v.warnings }
    → Yields Q r
    → Settles (λ a w'. Q a × (w' ≡ v)) w (lift_result r v)
lift_result-Settles Q w v (ok a) e h = ((h, refl), e)
lift_result-Settles Q w v (err x) e h = (h, e)
