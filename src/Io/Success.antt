-- ===== src/Io/Success.antt =====
-- Parts that are done.
use pulsemq_cli.Base.{◌≡◌, sym, subst}
use pulsemq_cli.Error.{Result, ok}
use pulsemq_cli.Io.{Outcome, done, Action, and_then, lift_result}

-- The part is done, and what it is done with meets `Q`.
abbrev pub Gives : {S A : Type 0} → (A → S → Type 0) → Outcome S A → Type 0
Gives {S = S} {A = A} Q o = (a : A) × (s : S) × (o ≡ done a s) × Q a s

pub and_then-Gives :
    {S A B : Type 0} (Q : A → S → Type 0) (R : B → S → Type 0) (o : Outcome S A)
    (f : A → Action S B)
    → Gives Q o
    → ((a : A) (s : S) → Q a s → Gives R (f a s))
    → Gives R (and_then o f)
and_then-Gives Q R o f (a, s, e, q) k = subst (λ x. Gives R (and_then x f)) (sym e) (k a s q)

pub ok_then :
    {S A B : Type 0} (Q : B → S → Type 0) (r : Result A) (a : A) (s : S) (f : A → Action S B)
    → r ≡ ok a
    → Gives Q (f a s)
    → Gives Q (and_then (lift_result r s) f)
ok_then Q r a s f e h = subst (λ x. Gives Q (and_then (lift_result x s) f)) (sym e) h
