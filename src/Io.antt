-- ===== src/Io.antt =====
-- A session as the process sees it. The results of successive `read_packet` calls of the protocol
-- crate are a list of events, and the outcome of the n-th `write_packet` is given by `fault`;
-- both are arbitrary. The list of events may end, and then the process is still waiting.
pub mod Laws
pub mod Success
use pulsemq_cli.Base.{
  ℕ, zero, suc, ◌+◌, Bool, Option, none, some, List, [], ◌∷◌, ◌++◌, Bytes, length,
}
use pulsemq_cli.Mqtt.{Packet, MqttError}
use pulsemq_cli.Error.{Error, mqtt, Result, ok, err}

-- `elapsed`: the keep-alive timer of the client runs out before the next packet is there.
pub data Event : Type 0 where
  arrived : Packet → Event
  closed : Event
  broken : MqttError → Event
  elapsed : Event

-- The process's side of the world. `warned_mode` and `warned_plaintext` are the two `Once` flags.
pub record World : Type 0 where
  pub incoming : List Event
  pub sent : List Packet  -- oldest first
  pub writes : ℕ
  pub fault : ℕ → Option MqttError
  pub printed : Bytes  -- standard output
  pub to_terminal : Bool
  pub warnings : List Bytes  -- standard error, newest first
  pub warned_mode : Bool
  pub warned_plaintext : Bool
  pub dials : ℕ  -- TCP connections attempted

-- `waiting`: blocked on a broker that sends nothing more. `panicked`: an `expect` failed. `stuck` is
-- no outcome of the program: a loop of the model ran out of fuel.
pub data Outcome (S A : Type 0) : Type 0 where
  done : A → S → Outcome S A
  failed : Error → S → Outcome S A
  waiting : S → Outcome S A
  panicked : Outcome S A
  stuck : Outcome S A

abbrev pub Action : Type 0 → Type 0 → Type 0
Action S A = S → Outcome S A

abbrev pub and_then : {S A B : Type 0} → Outcome S A → (A → Action S B) → Outcome S B
and_then (done a s) f = f a s
and_then (failed e s) f = failed e s
and_then (waiting s) f = waiting s
and_then panicked f = panicked
and_then stuck f = stuck

infixl 5 ◌>>=◌ ◌>>◌
abbrev pub ◌>>=◌ : {S A B : Type 0} → Action S A → (A → Action S B) → Action S B
◌>>=◌ m f s = and_then (m s) f

abbrev pub ◌>>◌ : {S B : Type 0} → Action S (Unit {0}) → Action S B → Action S B
◌>>◌ m k = m >>= λ _. k

abbrev pub return : {S A : Type 0} → A → Action S A
return a s = done a s

abbrev pub raise : {S A : Type 0} → Error → Action S A
raise e s = failed e s

-- `expect` on an option.
abbrev pub expect : {S A : Type 0} → Option A → Action S A
expect none s = panicked
expect (some a) s = done a s

abbrev pub modify : {S : Type 0} → (S → S) → Action S (Unit {0})
modify f s = done tt (f s)

abbrev pub lift_result : {S A : Type 0} → Result A → Action S A
lift_result (ok a) = return a
lift_result (err e) = raise e

-- `ReadOutcome`
pub data ReadOutcome : Type 0 where
  packet : Packet → ReadOutcome
  eof : ReadOutcome

unfoldable pub read_from : List Event → Action World ReadOutcome
read_from [] w = waiting (record w { incoming = [] })
read_from (arrived p ∷ es) w = done (packet p) (record w { incoming = es })
read_from (closed ∷ es) w = done eof (record w { incoming = es })
read_from (broken e ∷ es) w = failed (mqtt e) (record w { incoming = es })
read_from (elapsed ∷ es) w = read_from es w

unfoldable pub read_packet : Action World ReadOutcome
unfolding read_from
read_packet w = read_from w.incoming w

unfoldable pub write_packet : Packet → Action World (Unit {0})
write_packet p w = elim (w.fault w.writes) [
  | none ↦ done tt (record w { sent = w.sent ++ (p ∷ []); writes = w.writes + 1 })
  | some e ↦ failed (mqtt e) (record w { writes = w.writes + 1 })
]

-- One round of a loop asks for another, or ends it.
pub data Next (T A : Type 0) : Type 0 where
  again : T → Next T A
  finish : A → Next T A

abbrev pub continue : {S T A : Type 0} → (T → Action S A) → Outcome S (Next T A) → Outcome S A
continue next (done (again t) s) = next t s
continue next (done (finish a) s) = done a s
continue next (failed e s) = failed e s
continue next (waiting s) = waiting s
continue next panicked = panicked
continue next stuck = stuck

unfoldable pub loop : {S T A : Type 0} → ℕ → (T → Action S (Next T A)) → T → Action S A
loop zero body t s = stuck
loop (suc fuel) body t s = continue (λ t' s'. loop fuel body t' s') (body t s)
