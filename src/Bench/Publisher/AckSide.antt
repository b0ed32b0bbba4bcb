-- ===== src/Bench/Publisher/AckSide.antt =====
-- The ack task (src/bench/publisher.rs: the loop of `ack_task`).
use mathlib.Core.List.{append-nil, append_assoc}
use pulsemq_cli.Base.{
  ℕ, Bool, true, false, Option, none, some, List, [], ◌∷◌, ◌++◌, ◌≡◌, refl, sym, ap, subst, ◌∙◌,
  arith, inl, inr, All, if◌then◌else◌, Option-cases,
}
use pulsemq_cli.Mqtt.{Protocol, Packet, MqttError, ReasonCode, puback, pubrec, pubcomp}
use pulsemq_cli.Io.{Event, arrived, closed, broken, elapsed}
use pulsemq_cli.Bench.Publisher.{
  Publisher, InFlight, lookup, remove, complete_ack, on_packet, close_window,
}
use pulsemq_cli.Bench.Publisher.Tail.{Lull}
use pulsemq_cli.Bench.Publisher.Released.{handed, handed_cons, on_packet-Handed}
use pulsemq_cli.Bench.Publisher.Steps.{Setting, read, ended, Reachable, here, later}

-- How far the task is: still reading, or at its end, with a read error or without.
pub data AckEnd : Type 0 where
  reading : AckEnd
  over : Option MqttError → AckEnd

-- The results of its reads, with the times. There is no timer, so nothing is `elapsed`.
unfoldable pub ack_loop : Protocol → ℕ → List (ℕ × Event) → Publisher → AckEnd × Publisher
ack_loop P warmup_until [] s = (reading, s)
ack_loop P warmup_until ((now, arrived p) ∷ events) s =
    ack_loop P warmup_until events (on_packet P warmup_until now p s)
ack_loop P warmup_until ((now, closed) ∷ events) s = (over none, close_window P s)
ack_loop P warmup_until ((now, broken e) ∷ events) s = (over (some e), close_window P s)
ack_loop P warmup_until ((now, elapsed) ∷ events) s = ack_loop P warmup_until events s

module _ (k : Setting) where
  open k use {protocol, warmup_until}

  Reachable-trans : (a b c : Publisher) → Reachable k a b → Reachable k b c → Reachable k a c
  Reachable-trans a b c r here = r
  Reachable-trans a b c r (later d e q step) = later d c (Reachable-trans a b d r q) step

  on_packet-closed :
      (now : ℕ) (p : Packet) (s : Publisher)
      → (on_packet protocol warmup_until now p s).closed ≡ s.closed
  on_packet-closed now p s = (on_packet-Handed protocol warmup_until now p s).3

  -- The packets that the task takes: all that come before the end of the stream or a read error.
  abbrev pub taken_of : List (ℕ × Event) → Lull
  taken_of [] = []
  taken_of ((now, arrived p) ∷ events) = (now, p) ∷ taken_of events
  taken_of ((now, closed) ∷ events) = []
  taken_of ((now, broken e) ∷ events) = []
  taken_of ((now, elapsed) ∷ events) = taken_of events

  -- The identifiers that packets complete: those of PUBACKs, PUBCOMPs and PUBRECs with an error.
  abbrev pub completed : Lull → List ℕ
  completed [] = []
  completed ((now, puback a) ∷ reads) = a.packet_id ∷ completed reads
  completed ((now, pubcomp a) ∷ reads) = a.packet_id ∷ completed reads
  completed ((now, pubrec a) ∷ reads) =
      if protocol.is_error a.reason_code then a.packet_id ∷ completed reads else completed reads
  completed ((now, p) ∷ reads) = completed reads

  -- Nothing is in flight under the identifier.
  abbrev pub IsSettled : Publisher → ℕ → Type 0
  IsSettled s id = lookup id s.in_flight ≡ none

  lookup-remove : (id : ℕ) (m : InFlight) → lookup id (remove id m) ≡ none
  lookup-remove id [] = refl
  lookup-remove id ((i, t) ∷ rest) = ground (arith, lookup-remove id rest)

  lookup_removed :
      (id other : ℕ) (m : InFlight) → lookup id m ≡ none → lookup id (remove other m) ≡ none
  lookup_removed id other [] h = refl
  lookup_removed id other ((i, t) ∷ rest) h = ground (arith, lookup_removed id other rest)

  complete_ack-in_flight :
      (now id : ℕ) (code : ReasonCode) (s : Publisher)
      → (complete_ack protocol warmup_until now id code s).in_flight ≡ remove id s.in_flight
  unfolding complete_ack
  complete_ack-in_flight now id code s = elim (Option-cases (lookup id s.in_flight)) [
    | inl e ↦ rw (complete_ack, e) refl
    | inr (t, e) ↦ rw (complete_ack, e) refl
  ]

  -- What is settled in `s` is so in `d`.
  abbrev StaysSettled : Publisher → Publisher → Type 0
  StaysSettled s d = (id : ℕ) → IsSettled s id → IsSettled d id

  complete_ack-IsSettled :
      (now id : ℕ) (code : ReasonCode) (s : Publisher)
      → let d = complete_ack protocol warmup_until now id code s in
        StaysSettled s d × IsSettled d id
  complete_ack-IsSettled now id code s =
      let e = complete_ack-in_flight now id code s in
      (
        λ i h. subst (λ m. lookup i m ≡ none) (sym e) (lookup_removed i id s.in_flight h),
        subst (λ m. lookup id m ≡ none) (sym e) (lookup-remove id s.in_flight),
      )

  pubrec_by-IsSettled :
      (now id : ℕ) (code : ReasonCode) (is_error : Bool) (s : Publisher)
      → let d =
          if is_error
          then complete_ack protocol warmup_until now id code s
          else record s { pubrels = s.pubrels ++ (id ∷ []) } in
        StaysSettled s d × All (IsSettled d) (if is_error then id ∷ [] else [])
  pubrec_by-IsSettled now id code true s =
      let c = complete_ack-IsSettled now id code s in (c.0, (c.1, tt))
  pubrec_by-IsSettled now id code false s = (λ i h. h, tt)

  -- What a packet does to the messages in flight: it takes off those that it completes.
  on_packet-IsSettled :
      (now : ℕ) (p : Packet) (s : Publisher)
      → let d = on_packet protocol warmup_until now p s in
        StaysSettled s d × All (IsSettled d) (completed ((now, p) ∷ []))
  unfolding on_packet
  on_packet-IsSettled now (puback a) s =
      let c = complete_ack-IsSettled now a.packet_id a.reason_code s in (c.0, (c.1, tt))
  on_packet-IsSettled now (pubcomp a) s =
      let c = complete_ack-IsSettled now a.packet_id a.reason_code s in (c.0, (c.1, tt))
  on_packet-IsSettled now (pubrec a) s =
      pubrec_by-IsSettled now a.packet_id a.reason_code (protocol.is_error a.reason_code) s
  on_packet-IsSettled now p s = (λ i h. h, tt)

  All-if :
      (Q : ℕ → Type 0) (b : Bool) (id : ℕ) (ids : List ℕ)
      → All Q (if b then id ∷ [] else [])
      → All Q ids
      → All Q (if b then id ∷ ids else ids)
  All-if Q true id ids h k = (h.0, k)
  All-if Q false id ids h k = k

  All-completed :
      (Q : ℕ → Type 0) (now : ℕ) (p : Packet) (reads : Lull)
      → All Q (completed ((now, p) ∷ []))
      → All Q (completed reads)
      → All Q (completed ((now, p) ∷ reads))
  All-completed Q now (puback a) reads h k = (h.0, k)
  All-completed Q now (pubcomp a) reads h k = (h.0, k)
  All-completed Q now (pubrec a) reads h k =
      All-if Q (protocol.is_error a.reason_code) a.packet_id (completed reads) h k
  All-completed Q now p reads h k = k

  All-weaken : (Q R : ℕ → Type 0) (ids : List ℕ) → ((id : ℕ) → Q id → R id) → All Q ids → All R ids
  All-weaken Q R [] f h = tt
  All-weaken Q R (id ∷ ids) f h = (f id h.0, All-weaken Q R ids f h.1)

  -- The task ends with the stream or with the first read error, and else it is still reading.
  abbrev pub EndsAs : List (ℕ × Event) → AckEnd → Type 0
  EndsAs [] end = end ≡ reading
  EndsAs ((now, arrived p) ∷ events) end = EndsAs events end
  EndsAs ((now, closed) ∷ events) end = end ≡ over none
  EndsAs ((now, broken e) ∷ events) end = end ≡ over (some e)
  EndsAs ((now, elapsed) ∷ events) end = EndsAs events end

  -- The window is closed exactly at the end.
  abbrev pub IsClosedBy : AckEnd → Publisher → Type 0
  IsClosedBy reading d = d.closed ≡ false
  IsClosedBy (over e) d = d.closed ≡ true

  -- What the task has done of its packets.
  abbrev pub Did : Lull → Publisher → Publisher → Type 0
  Did taken s d =
      Reachable k s d
      × (d.stream ≡ s.stream)
      × (d.pubrels ≡ s.pubrels ++ handed protocol warmup_until taken)
      × All (IsSettled d) (completed taken)
      × StaysSettled s d

  Did-nothing : (s : Publisher) → Did [] s s
  Did-nothing s = (here, refl, sym (append-nil s.pubrels), tt, λ i h. h)

  Did-end : (s : Publisher) → Did [] s (close_window protocol s)
  Did-end s = (later s _ here ended, refl, sym (append-nil s.pubrels), tt, λ i h. h)

  Did-packet :
      (now : ℕ) (p : Packet) (reads : Lull) (s d : Publisher)
      → Did reads (on_packet protocol warmup_until now p s) d
      → Did ((now, p) ∷ reads) s d
  Did-packet now p reads s d h =
      let b = on_packet protocol warmup_until now p s in
      let one = on_packet-Handed protocol warmup_until now p s in
      let held = on_packet-IsSettled now p s in
      (
        Reachable-trans s b d (later s b here (read now p)) h.0,
        h.1 ∙ one.0,
        h.2
            ∙ ap (λ l. l ++ handed protocol warmup_until reads) one.1
            ∙ append_assoc s.pubrels (handed protocol warmup_until ((now, p) ∷ [])) _
            ∙ ap (◌++◌ s.pubrels) (sym (handed_cons protocol warmup_until now p reads)),
        All-completed (IsSettled d) now p reads
            (All-weaken (IsSettled b) (IsSettled d) (completed ((now, p) ∷ [])) h.4 held.1) h.3,
        λ i q. h.4 i (held.0 i q),
      )

  -- The ack task ends with the stream or with the first read error, and closes the window exactly
  -- then. It writes nothing, and from all packets up to there it has handed over the identifiers of
  -- the PUBRECs without an error, in order, and nothing is in flight any more under the identifier
  -- of a PUBACK, a PUBCOMP or a PUBREC with an error. It is a run of the steps of the ack side.
  pub ack_loop-Did :
      (events : List (ℕ × Event)) (s : Publisher)
      → s.closed ≡ false
      → let (end, d) = ack_loop protocol warmup_until events s in
        EndsAs events end × IsClosedBy end d × Did (taken_of events) s d
  unfolding ack_loop
  ack_loop-Did [] s h = (refl, h, Did-nothing s)
  ack_loop-Did ((now, arrived p) ∷ events) s h =
      let b = on_packet protocol warmup_until now p s in
      let (e, c, d) = ack_loop-Did events b (on_packet-closed now p s ∙ h) in
      (e, c, Did-packet now p (taken_of events) s _ d)
  ack_loop-Did ((now, closed) ∷ events) s h = (refl, refl, Did-end s)
  ack_loop-Did ((now, broken e) ∷ events) s h = (refl, refl, Did-end s)
  ack_loop-Did ((now, elapsed) ∷ events) s h = ack_loop-Did events s h
