-- ===== src/Io/Laws.antt =====
-- Postconditions of sessions: a rule for sequencing and a rule for loops with enough fuel.
use pulsemq_cli.Base.{
  ℕ, zero, suc, ◌<◌, ◌≡◌, refl, List, [], ◌∷◌, ◌+◌, length, arith, ◌++◌, Option-cases, inl, inr,
  Option, none, some,
}
use pulsemq_cli.Mqtt.{Packet}
use pulsemq_cli.Error.{Result, ok, err}
use pulsemq_cli.Io.{
  Event, arrived, closed, broken, elapsed, World, Outcome, done, failed, waiting, panicked, stuck,
  Action, lift_result, and_then, ReadOutcome, packet, eof, read_from, read_packet, write_packet,
  Next, again, finish, continue, loop,
}

-- The value that a session ends with.
abbrev pub result_of : {S A : Type 0} → Outcome S A → Option A
result_of (done a s) = some a
result_of (failed e s) = none
result_of (waiting s) = none
result_of panicked = none
result_of stuck = none

-- `Q` holds where the session is done and `W` where it waits; it neither panics nor is it stuck.
-- Nothing is said of a failure.
abbrev pub Ensures : {S A : Type 0} → (A → S → Type 0) → (S → Type 0) → Outcome S A → Type 0
Ensures Q W (done a s) = Q a s
Ensures Q W (failed e s) = Unit
Ensures Q W (waiting s) = W s
Ensures Q W panicked = ⊥
Ensures Q W stuck = ⊥

pub weaken-Ensures :
    {S A : Type 0} (Q : A → S → Type 0) (W : S → Type 0) (R : A → S → Type 0) (V : S → Type 0)
    (m : Outcome S A)
    → Ensures Q W m
    → ((a : A) (s : S) → Q a s → R a s)
    → ((s : S) → W s → V s)
    → Ensures R V m
weaken-Ensures Q W R V (done a s) h k l = k a s h
weaken-Ensures Q W R V (failed e s) h k l = tt
weaken-Ensures Q W R V (waiting s) h k l = l s h
weaken-Ensures Q W R V panicked h k l = h
weaken-Ensures Q W R V stuck h k l = h

pub and_then-Ensures :
    {S A B : Type 0} (Q : A → S → Type 0) (W : S → Type 0) (R : B → S → Type 0) (m : Outcome S A)
    (f : A → Action S B)
    → Ensures Q W m
    → ((a : A) (s : S) → Q a s → Ensures R W (f a s))
    → Ensures R W (and_then m f)
and_then-Ensures Q W R (done a s) f h k = k a s h
and_then-Ensures Q W R (failed e s) f h k = tt
and_then-Ensures Q W R (waiting s) f h k = h
and_then-Ensures Q W R panicked f h k = h
and_then-Ensures Q W R stuck f h k = h

-- The action after a result.
pub lift_result-Ensures :
    {S A B : Type 0} (R : B → S → Type 0) (r : Result A) (f : A → Action S B) (s : S)
    → ((a : A) → r ≡ ok a → Ensures R (λ _. Unit) (f a s))
    → Ensures R (λ _. Unit) (and_then (lift_result r s) f)
lift_result-Ensures R (ok a) f s h = h a refl
lift_result-Ensures R (err e) f s h = tt

-- What a round of a loop owes: its end meets `Q`, and another round starts from a smaller state.
abbrev pub Round : {S T A : Type 0} → (T → S → Type 0) → (A → S → Type 0) → Next T A → S → Type 0
Round I Q (again t) s = I t s
Round I Q (finish a) s = Q a s

continue-Ensures :
    {S T A : Type 0} (J : T → S → Type 0) (Q : A → S → Type 0) (W : S → Type 0)
    (next : T → Action S A) (o : Outcome S (Next T A))
    → Ensures (Round J Q) W o
    → ((t : T) (s : S) → J t s → Ensures Q W (next t s))
    → Ensures Q W (continue next o)
continue-Ensures J Q W next (done (again t) s) h k = k t s h
continue-Ensures J Q W next (done (finish a) s) h k = h
continue-Ensures J Q W next (failed e s) h k = tt
continue-Ensures J Q W next (waiting s) h k = h
continue-Ensures J Q W next panicked h k = h
continue-Ensures J Q W next stuck h k = h

-- An invariant of the rounds, with a measure that falls from round to round, gives the end of the
-- loop by its own test: it never runs out of fuel.
pub loop-Ensures :
    {S T A : Type 0} (measure : S → ℕ) (I : T → S → Type 0) (Q : A → S → Type 0) (W : S → Type 0)
    (body : T → Action S (Next T A))
    → ((t : T) (s : S)
        → I t s
        → Ensures (Round (λ t' s'. I t' s' × (measure s' < measure s)) Q) W (body t s))
    → (fuel : ℕ) (t : T) (s : S) → measure s < fuel
    → I t s
    → Ensures Q W (loop fuel body t s)
unfolding loop
loop-Ensures measure I Q W body keep zero t s m h = absurd (omega arith)
loop-Ensures measure I Q W body keep (suc fuel) t s m h =
    continue-Ensures (λ t' s'. I t' s' × (measure s' < measure s)) Q W _ (body t s) (keep t s h)
      (λ t' s' k. loop-Ensures measure I Q W body keep fuel t' s' (omega (arith, k.1)) k.0)

-- The packets among the events, in order.
abbrev pub packets : List Event → List Packet
packets [] = []
packets (arrived p ∷ es) = p ∷ packets es
packets (closed ∷ es) = packets es
packets (broken e ∷ es) = packets es
packets (elapsed ∷ es) = packets es

-- The packets owed for a run of events: `f p` for each packet `p`, and `tick` each time the timer
-- runs out.
abbrev pub replies : (Packet → List Packet) → List Packet → List Event → List Packet
replies f tick [] = []
replies f tick (arrived p ∷ es) = f p ++ replies f tick es
replies f tick (closed ∷ es) = replies f tick es
replies f tick (broken e ∷ es) = replies f tick es
replies f tick (elapsed ∷ es) = tick ++ replies f tick es

abbrev Front : List Event → ReadOutcome → List Event → Type 0
Front es (packet p) rest =
    (packets es ≡ p ∷ packets rest)
    × ((f : Packet → List Packet) → replies f [] es ≡ f p ++ replies f [] rest)
Front es eof rest = packets es ≡ packets rest

-- A read changes nothing but the events that are left.
abbrev pub Took : World → ReadOutcome → World → Type 0
Took w o w' =
    (w' ≡ record w { incoming = w'.incoming })
    × (length w'.incoming < length w.incoming)
    × Front w.incoming o w'.incoming

abbrev pub Drained : World → World → Type 0
Drained w w' =
    (w' ≡ record w { incoming = [] })
    × (packets w.incoming ≡ [])
    × ((f : Packet → List Packet) → replies f [] w.incoming ≡ [])

later_Took :
    (es : List Event) (w : World) (o : ReadOutcome) (w' : World)
    → Took (record w { incoming = es }) o w'
    → Took (record w { incoming = elapsed ∷ es }) o w'
later_Took es w (packet p) w' t = (t.0, omega (arith, t.1), t.2)
later_Took es w eof w' t = (t.0, omega (arith, t.1), t.2)

read_from-Took :
    (es : List Event) (w : World)
    → Ensures
        (λ o w'. Took (record w { incoming = es }) o w')
        (Drained (record w { incoming = es }))
        (read_from es w)
unfolding read_from
read_from-Took [] w = (refl, refl, λ f. refl)
read_from-Took (arrived p ∷ es) w = (refl, omega arith, (refl, λ f. refl))
read_from-Took (closed ∷ es) w = (refl, omega arith, refl)
read_from-Took (broken e ∷ es) w = tt
read_from-Took (elapsed ∷ es) w =
    weaken-Ensures (λ o w'. Took (record w { incoming = es }) o w')
      (Drained (record w { incoming = es }))
      (λ o w'. Took (record w { incoming = elapsed ∷ es }) o w')
      (Drained (record w { incoming = elapsed ∷ es })) (read_from es w) (read_from-Took es w)
      (λ o w' t. later_Took es w o w' t) (λ w' t. t)

pub read_packet-Took : (w : World) → Ensures (Took w) (Drained w) (read_packet w)
unfolding read_packet
read_packet-Took w = read_from-Took w.incoming w

-- A write that succeeds adds its packet to what was sent.
abbrev pub Wrote : Packet → World → World → Type 0
Wrote p w w' = w' ≡ record w { sent = w.sent ++ (p ∷ []); writes = w.writes + 1 }

pub write_packet-Wrote :
    (p : Packet) (w : World) → Ensures (λ _ w'. Wrote p w w') (λ _. ⊥) (write_packet p w)
unfolding write_packet
write_packet-Wrote p w = elim (Option-cases (w.fault w.writes)) [
  | inl e ↦ rw (e, write_packet) refl
  | inr (x, e) ↦ rw (e, write_packet) tt
]
