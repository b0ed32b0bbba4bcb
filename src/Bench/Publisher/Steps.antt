-- ===== src/Bench/Publisher/Steps.antt =====
-- The steps of a publisher's two sides, and what the outcomes of a step leave.
use pulsemq_cli.Base.{
  subst, ℕ, ◌≤◌, ◌<◌, Bool, true, false, some, [], ◌∷◌, length, if◌then◌else◌, ◌≡◌, arith,
}
use pulsemq_cli.Mqtt.{Protocol, Packet}
use pulsemq_cli.Io.{World, Outcome, done, failed, waiting, panicked, stuck, Action, and_then}
use pulsemq_cli.Bench.Config.{Config}
use pulsemq_cli.Bench.Publisher.{
  InFlight, lookup, remove, insert_at, Publisher, on_packet, close_window, write_then, Turn,
  send_round,
}

-- The state that an outcome leaves, if it leaves one.
abbrev pub Leaves : {A : Type 0} → Outcome Publisher A → Publisher → Type 0
Leaves (done a s) s' = s' ≡ s
Leaves (failed e s) s' = s' ≡ s
Leaves (waiting s) s' = s' ≡ s
Leaves panicked s' = ⊥
Leaves stuck s' = ⊥

-- One connection: its configuration, its index, and the times that its run is measured from.
pub record Setting : Type 1 where
  pub F : Type 0
  pub protocol : Protocol
  pub config : Config F
  pub index : ℕ
  pub baseline : ℕ
  pub warmup_until : ℕ

-- A step of either side. Between two awaits a side runs alone.
pub data Step (k : Setting) (s : Publisher) : Publisher → Type 0 where
  read : (now : ℕ) (p : Packet) → Step k s (on_packet k.protocol k.warmup_until now p s)
  ended : Step k s (close_window k.protocol s)
  turned :
      (turn : Turn) (s' : Publisher)
      → Leaves (send_round k.config k.index k.baseline k.protocol turn s) s'
      → Step k s s'

pub data Reachable (k : Setting) (s : Publisher) : Publisher → Type 0 where
  here : Reachable k s s
  later : (a b : Publisher) → Reachable k s a → Step k a b → Reachable k s b

pub length-remove_le : (id : ℕ) (m : InFlight) → length (remove id m) ≤ length m
length-remove_le id [] = omega arith
length-remove_le id ((i, t) ∷ rest) = ground (arith, length-remove_le id rest)

pub length-remove_lt :
    (id : ℕ) (m : InFlight) (t : ℕ) → lookup id m ≡ some t → length (remove id m) < length m
length-remove_lt id [] t h = absurd (ground arith)
length-remove_lt id ((i, u) ∷ rest) t h =
    ground (arith, length-remove_le id rest, length-remove_lt id rest t)

-- `Q` of the state that an outcome leaves, if it leaves one.
abbrev pub Every : {A : Type 0} → (Publisher → Type 0) → Outcome Publisher A → Type 0
Every Q (done a s) = Q s
Every Q (failed e s) = Q s
Every Q (waiting s) = Q s
Every Q panicked = Unit {0}
Every Q stuck = Unit {0}

pub and_then-Every :
    {A B : Type 0} (R : Publisher → Type 0) (o : Outcome Publisher A) (m : A → Action Publisher B)
    → Every R o
    → ((a : A) (s : Publisher) → R s → Every R (m a s))
    → Every R (and_then o m)
and_then-Every R (done a s) m h k = k a s h
and_then-Every R (failed e s) m h k = h
and_then-Every R (waiting s) m h k = h
and_then-Every R panicked m h k = tt
and_then-Every R stuck m h k = tt

pub write_then-Every :
    (Q : Publisher → Type 0) (P : Protocol) (s : Publisher) (o : Outcome World (Unit {0}))
    → ((w : World) → Q (record s { stream = w }))
    → Every Q (write_then P s o)
unfolding write_then
write_then-Every Q P s (done u w) h = h w
write_then-Every Q P s (failed e w) h = h w
write_then-Every Q P s (waiting w) h = h w
write_then-Every Q P s panicked h = tt
write_then-Every Q P s stuck h = tt

pub lookup-insert_at : (id now : ℕ) (m : InFlight) → lookup id (insert_at id now m) ≡ some now
lookup-insert_at id now m = ground arith

pub if-Every :
    {A : Type 0} (Q : Publisher → Type 0) (b : Bool) (x y : Outcome Publisher A)
    → Every Q x
    → Every Q y
    → Every Q (if b then x else y)
if-Every Q true x y h k = h
if-Every Q false x y h k = k

-- Like `Every`, but only of what is done.
abbrev pub IfDone : {A : Type 0} → (Publisher → Type 0) → Outcome Publisher A → Type 0
IfDone Q (done a s) = Q s
IfDone Q (failed e s) = Unit {0}
IfDone Q (waiting s) = Unit {0}
IfDone Q panicked = Unit {0}
IfDone Q stuck = Unit {0}

pub and_then-IfDone :
    {A B : Type 0} (R Q : Publisher → Type 0) (o : Outcome Publisher A) (m : A → Action Publisher B)
    → Every R o
    → ((a : A) (s : Publisher) → R s → IfDone Q (m a s))
    → IfDone Q (and_then o m)
and_then-IfDone R Q (done a s) m h k = k a s h
and_then-IfDone R Q (failed e s) m h k = tt
and_then-IfDone R Q (waiting s) m h k = tt
and_then-IfDone R Q panicked m h k = tt
and_then-IfDone R Q stuck m h k = tt

pub if-IfDone :
    {A : Type 0} (Q : Publisher → Type 0) (b : Bool) (x y : Outcome Publisher A)
    → IfDone Q x
    → IfDone Q y
    → IfDone Q (if b then x else y)
if-IfDone Q true x y h k = h
if-IfDone Q false x y h k = k

pub done-IfDone :
    {A : Type 0} (Q : Publisher → Type 0) (o : Outcome Publisher A) (n : A) (s : Publisher)
    → IfDone Q o
    → o ≡ done n s
    → Q s
done-IfDone Q o n s h e = subst (IfDone Q) e h
