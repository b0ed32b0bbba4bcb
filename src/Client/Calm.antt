-- ===== src/Client/Calm.antt =====
-- Connections on which nothing goes wrong.
use pulsemq_cli.Base.{
  ℕ, zero, suc, ◌+◌, Bool, true, false, none, List, [], ◌∷◌, ◌++◌, ◌≡◌, refl, sym, subst,
  if◌then◌else◌, ◌==◌,
}
use pulsemq_cli.Mqtt.{
  Packet, publish, puback, pubrec, pubrel, pubcomp, suback, disconnect, connect, connack, pingreq,
  pingresp, other, subscribe,
}
use pulsemq_cli.Io.{
  Event, arrived, closed, broken, elapsed, World, Outcome, done, failed, waiting, panicked, stuck,
  Action, and_then, Next, again, finish, continue, loop, read_from, read_packet, write_packet,
}
use pulsemq_cli.Io.Laws.{Ensures}
use pulsemq_cli.Client.{
  Client, send, recv, recv_keepalive, keepalive_loop, with_incoming, on_stream_done, expect_packet,
}

-- The part does not fail, and what it is done with meets `Q`.
abbrev pub Unfailing : {S A : Type 0} → (A → S → Type 0) → Outcome S A → Type 0
Unfailing Q (done a s) = Q a s
Unfailing Q (failed e s) = ⊥
Unfailing Q (waiting s) = Unit
Unfailing Q panicked = Unit
Unfailing Q stuck = Unit

pub and_then-Unfailing :
    {S A B : Type 0} (Q : A → S → Type 0) (R : B → S → Type 0) (m : Outcome S A)
    (f : A → Action S B)
    → Unfailing Q m
    → ((a : A) (s : S) → Q a s → Unfailing R (f a s))
    → Unfailing R (and_then m f)
and_then-Unfailing Q R (done a s) f h k = k a s h
and_then-Unfailing Q R (failed e s) f h k = absurd h
and_then-Unfailing Q R (waiting s) f h k = tt
and_then-Unfailing Q R panicked f h k = tt
and_then-Unfailing Q R stuck f h k = tt

continue-Unfailing :
    {S T A : Type 0} (I : S → Type 0) (next : T → Action S A) (o : Outcome S (Next T A))
    → Unfailing (λ _ s. I s) o
    → ((t : T) (s : S) → I s → Unfailing (λ _ s'. I s') (next t s))
    → Unfailing (λ _ s. I s) (continue next o)
continue-Unfailing I next (done (again t) s) h k = k t s h
continue-Unfailing I next (done (finish a) s) h k = h
continue-Unfailing I next (failed e s) h k = absurd h
continue-Unfailing I next (waiting s) h k = tt
continue-Unfailing I next panicked h k = tt
continue-Unfailing I next stuck h k = tt

-- A loop whose rounds do not fail does not fail.
pub loop-Unfailing :
    {S T A : Type 0} (I : S → Type 0) (body : T → Action S (Next T A))
    → ((t : T) (s : S) → I s → Unfailing (λ _ s'. I s') (body t s))
    → (fuel : ℕ) (t : T) (s : S) → I s
    → Unfailing (λ _ s'. I s') (loop fuel body t s)
unfolding loop
loop-Unfailing I body keep zero t s h = tt
loop-Unfailing I body keep (suc fuel) t s h =
    continue-Unfailing I _ (body t s) (keep t s h)
      (λ t' s' k. loop-Unfailing I body keep fuel t' s' k)

-- The broker does not close the connection with this packet.
abbrev pub IsCalm : Packet → Type 0
IsCalm (disconnect code) = ⊥
IsCalm (publish x) = Unit {0}
IsCalm (connect x) = Unit {0}
IsCalm (connack x) = Unit {0}
IsCalm (puback x) = Unit {0}
IsCalm (pubrec x) = Unit {0}
IsCalm (pubrel x) = Unit {0}
IsCalm (pubcomp x) = Unit {0}
IsCalm (subscribe x) = Unit {0}
IsCalm (suback x) = Unit {0}
IsCalm pingreq = Unit {0}
IsCalm pingresp = Unit {0}
IsCalm (other x) = Unit {0}

abbrev pub AreCalm : List Event → Type 0
AreCalm [] = Unit {0}
AreCalm (arrived p ∷ es) = IsCalm p × AreCalm es
AreCalm (closed ∷ es) = ⊥
AreCalm (broken e ∷ es) = ⊥
AreCalm (elapsed ∷ es) = AreCalm es

-- No write fails, and the stream neither ends nor breaks, nor does the broker disconnect.
abbrev pub Calm : Client → Type 0
Calm c = ((n : ℕ) → c.stream.fault n ≡ none) × AreCalm c.stream.incoming

pub write_packet_calm :
    (p : Packet) (w : World)
    → w.fault w.writes ≡ none
    → write_packet p w ≡ done tt (record w { sent = w.sent ++ (p ∷ []); writes = w.writes + 1 })
unfolding write_packet
write_packet_calm p w e = rw (e, write_packet) refl

pub send-Calm : (p : Packet) (c : Client) → Calm c → Unfailing (λ _ d. Calm d) (send p c)
unfolding send on_stream_done
send-Calm p c h =
    subst (λ o. Unfailing (λ _ d. Calm d) (on_stream_done c o))
      (sym (write_packet_calm p c.stream (h.0 c.stream.writes))) h

read_from-Calm :
    (es : List Event) (c : Client) (w : World)
    → ((n : ℕ) → w.fault n ≡ none)
    → AreCalm es
    → Unfailing
        (λ p d. IsCalm p × Calm d)
        (and_then (on_stream_done c (read_from es w)) expect_packet)
unfolding read_from on_stream_done expect_packet
read_from-Calm [] c w f h = tt
read_from-Calm (arrived p ∷ es) c w f h = (h.0, (f, h.1))
read_from-Calm (closed ∷ es) c w f h = absurd h
read_from-Calm (broken e ∷ es) c w f h = absurd h
read_from-Calm (elapsed ∷ es) c w f h = read_from-Calm es c w f h

recv-Calm : (c : Client) → Calm c → Unfailing (λ p d. IsCalm p × Calm d) (recv c)
unfolding recv read_packet
recv-Calm c h = read_from-Calm c.stream.incoming c c.stream h.0 h.1

keepalive_loop-Calm :
    (es : List Event) (c : Client)
    → ((n : ℕ) → c.stream.fault n ≡ none)
    → AreCalm es
    → Unfailing (λ p d. IsCalm p × Calm d) (keepalive_loop es c)
unfolding keepalive_loop
keepalive_loop-Calm [] c f h = tt
keepalive_loop-Calm (arrived p ∷ es) c f h = recv-Calm (with_incoming (arrived p ∷ es) c) (f, h)
keepalive_loop-Calm (closed ∷ es) c f h = absurd h
keepalive_loop-Calm (broken e ∷ es) c f h = absurd h
keepalive_loop-Calm (elapsed ∷ es) c f h =
    and_then-Unfailing (λ _ d. Calm d) _ (send pingreq (with_incoming es c)) _
      (send-Calm pingreq (with_incoming es c) (f, h)) (λ _ d k. keepalive_loop-Calm es d k.0 h)

if-Unfailing :
    {S A : Type 0} (Q : A → S → Type 0) (b : Bool) (m n : Outcome S A)
    → Unfailing Q m
    → Unfailing Q n
    → Unfailing Q (if b then m else n)
if-Unfailing Q true m n h k = h
if-Unfailing Q false m n h k = k

-- A receive on such a connection gives a packet or waits.
pub recv_keepalive-Calm :
    (c : Client) → Calm c → Unfailing (λ p d. IsCalm p × Calm d) (recv_keepalive c)
unfolding recv_keepalive
recv_keepalive-Calm c h =
    if-Unfailing _ (c.keep_alive == 0) _ _ (recv-Calm c h)
      (keepalive_loop-Calm c.stream.incoming c h.0 h.1)

-- An outcome that neither fails nor waits.
pub finishes :
    (W : Client → Type 0) (Q : Client → Type 0) (o : Outcome Client (Unit {0}))
    → Ensures (λ _ d. Q d) W o
    → Unfailing (λ _ d. Calm d) o
    → ((d : Client) → W d → ⊥)
    → (d : Client) × (o ≡ done tt d) × Q d
finishes W Q (done u d) h k n = (d, refl, h)
finishes W Q (failed e d) h k n = absurd k
finishes W Q (waiting d) h k n = absurd (n d h)
finishes W Q panicked h k n = absurd h
finishes W Q stuck h k n = absurd h
