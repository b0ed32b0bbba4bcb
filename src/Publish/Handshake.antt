-- ===== src/Publish/Handshake.antt =====
-- The acknowledgement handshake of each quality of service.
use mathlib.Core.List.{append_assoc}
use pulsemq_cli.Base.{
  ℕ, zero, suc, ◌+◌, ◌<◌, false, List, [], ◌∷◌, ◌++◌, Bytes, text, length, ◌≡◌, refl, sym, ap,
  subst, ◌∙◌, arith, inl, inr, Bool-cases,
}
use pulsemq_cli.Mqtt.{ReasonCode, Protocol, Packet, puback, pubrec, pubcomp, pingresp}
use pulsemq_cli.Io.{Action, and_then}
use pulsemq_cli.Io.Laws.{Ensures, and_then-Ensures, weaken-Ensures, Round, loop-Ensures, packets}
use pulsemq_cli.Client.{Client, recv}
use pulsemq_cli.Client.Laws.{Received, recv-Received}
use pulsemq_cli.Subscribe.{fuel}
use pulsemq_cli.Publish.{expect_ack_on, expect_ack_round, expect_ack, check}

module _ (P : Protocol) where
  -- A run of packets of which `n` are acknowledgements, none of them an error, and the others PINGRESP;
  -- the last is an acknowledgement.
  abbrev pub Acked : ℕ → List Packet → Type 0
  Acked zero [] = Unit
  Acked zero (p ∷ ps) = ⊥
  Acked (suc n) (puback a ∷ ps) = (P.is_error a.reason_code ≡ false) × Acked n ps
  Acked (suc n) (pubrec a ∷ ps) = (P.is_error a.reason_code ≡ false) × Acked n ps
  Acked (suc n) (pubcomp a ∷ ps) = (P.is_error a.reason_code ≡ false) × Acked n ps
  Acked (suc n) (pingresp ∷ ps) = Acked (suc n) ps
  Acked (suc n) _ = ⊥

  -- Only the events differ, and `n` acknowledgements have been taken off.
  abbrev pub Took : ℕ → Client → Client → Type 0
  Took n c d =
      (d ≡ record c { stream = record c.stream { incoming = d.stream.incoming } })
      × (taken : List Packet) × (packets c.stream.incoming ≡ taken ++ packets d.stream.incoming)
      × Acked n taken

  -- PINGRESPs, then one acknowledgement with this code.
  abbrev OneAck : ReasonCode → List Packet → Type 0
  OneAck code [] = ⊥
  OneAck code (puback a ∷ ps) = (a.reason_code ≡ code) × (ps ≡ [])
  OneAck code (pubrec a ∷ ps) = (a.reason_code ≡ code) × (ps ≡ [])
  OneAck code (pubcomp a ∷ ps) = (a.reason_code ≡ code) × (ps ≡ [])
  OneAck code (pingresp ∷ ps) = OneAck code ps
  OneAck code _ = ⊥

  abbrev Pings : List Packet → Type 0
  Pings [] = Unit
  Pings (pingresp ∷ ps) = Pings ps
  Pings _ = ⊥

  Pings-ack :
      (ps : List Packet) (code : ReasonCode) (p : Packet)
      → Pings ps
      → OneAck code (p ∷ [])
      → OneAck code (ps ++ (p ∷ []))
  Pings-ack [] code p h k = k
  Pings-ack (pingresp ∷ ps) code p h k = Pings-ack ps code p h k
  Pings-ack (puback a ∷ ps) code p h k = absurd h
  Pings-ack (x ∷ ps) code p h k = absurd h

  Pings-pingresp : (ps : List Packet) → Pings ps → Pings (ps ++ (pingresp ∷ []))
  Pings-pingresp [] h = tt
  Pings-pingresp (pingresp ∷ ps) h = Pings-pingresp ps h
  Pings-pingresp (puback a ∷ ps) h = absurd h
  Pings-pingresp (x ∷ ps) h = absurd h

  -- Taking `taken` off the front.
  abbrev Off : List Packet → Client → Client → Type 0
  Off taken c d =
      (d ≡ record c { stream = record c.stream { incoming = d.stream.incoming } })
      × (packets c.stream.incoming ≡ taken ++ packets d.stream.incoming)

  Off-Received :
      (ps : List Packet) (c b d : Client) (p : Packet)
      → Off ps c b
      → Received b p d
      → Off (ps ++ (p ∷ [])) c d
  Off-Received ps c b d p o r =
      (ground arith, o.1 ∙ ap (◌++◌ ps) r.1.2.0 ∙ sym (append_assoc ps (p ∷ []) _))

  abbrev Awaits : Client → Client → Type 0
  Awaits c b = (ps : List Packet) × Off ps c b × Pings ps

  abbrev pub Got : Client → ReasonCode → Client → Type 0
  Got c code d = (ps : List Packet) × Off ps c d × OneAck code ps

  expect_ack_on-Round :
      (what : Bytes) (p : Packet) (c b d : Client)
      → Awaits c b
      → Received b p d
      → Ensures
          (Round
            (λ _ e. Awaits c e × (length e.stream.incoming < length b.stream.incoming))
            (λ code e. Got c code e))
          (λ _. Unit)
          (expect_ack_on P what p d)
  unfolding expect_ack_on
  expect_ack_on-Round what (puback a) c b d w r = (
    w.0 ++ (puback a ∷ []),
    Off-Received w.0 c b d (puback a) w.1 r,
    Pings-ack w.0 a.reason_code (puback a) w.2 (refl, refl),
  )
  expect_ack_on-Round what (pubrec a) c b d w r = (
    w.0 ++ (pubrec a ∷ []),
    Off-Received w.0 c b d (pubrec a) w.1 r,
    Pings-ack w.0 a.reason_code (pubrec a) w.2 (refl, refl),
  )
  expect_ack_on-Round what (pubcomp a) c b d w r = (
    w.0 ++ (pubcomp a ∷ []),
    Off-Received w.0 c b d (pubcomp a) w.1 r,
    Pings-ack w.0 a.reason_code (pubcomp a) w.2 (refl, refl),
  )
  expect_ack_on-Round what pingresp c b d w r = (
    (w.0 ++ (pingresp ∷ []), Off-Received w.0 c b d pingresp w.1 r, Pings-pingresp w.0 w.2),
    r.1.1,
  )
  expect_ack_on-Round what p c b d w r = tt

  expect_ack_round-Round :
      (what : Bytes) (c : Client) (t : Unit {0}) (b : Client)
      → Awaits c b
      → Ensures
          (Round
            (λ _ e. Awaits c e × (length e.stream.incoming < length b.stream.incoming))
            (λ code e. Got c code e))
          (λ _. Unit)
          (expect_ack_round P what t b)
  unfolding expect_ack_round
  expect_ack_round-Round what c t b w =
      and_then-Ensures (Received b) (λ _. Unit) _ (recv b) (expect_ack_on P what)
        (weaken-Ensures (Received b) _ (Received b) (λ _. Unit) (recv b) (recv-Received b)
          (λ p d r. r) (λ d h. tt))
        (λ p d r. expect_ack_on-Round what p c b d w r)

  -- `expect_ack` gives the reason code of the first acknowledgement, of whatever kind, and only
  -- PINGRESPs come before it; it writes nothing and it ends or waits.
  pub expect_ack-Got :
      (what : Bytes) (c : Client) → Ensures (Got c) (λ _. Unit) (expect_ack P what c)
  unfolding expect_ack
  expect_ack-Got what c =
      loop-Ensures (λ d. length d.stream.incoming) (λ _ d. Awaits c d) (Got c) (λ _. Unit)
        (expect_ack_round P what) (expect_ack_round-Round what c) (fuel c) tt c (omega arith)
        ([], (refl, refl), tt)

  OneAck-Acked :
      (ps : List Packet) (code : ReasonCode) → OneAck code ps → P.is_error code ≡ false → Acked 1 ps
  OneAck-Acked (puback a ∷ ps) code h e = (ap P.is_error h.0 ∙ e, subst (Acked 0) (sym h.1) tt)
  OneAck-Acked (pubrec a ∷ ps) code h e = (ap P.is_error h.0 ∙ e, subst (Acked 0) (sym h.1) tt)
  OneAck-Acked (pubcomp a ∷ ps) code h e = (ap P.is_error h.0 ∙ e, subst (Acked 0) (sym h.1) tt)
  OneAck-Acked (pingresp ∷ ps) code h e = OneAck-Acked ps code h e
  OneAck-Acked [] code h e = absurd h
  OneAck-Acked (p ∷ ps) code h e = absurd h

  pub Acked-append :
      (m n : ℕ) (ps qs : List Packet) → Acked m ps → Acked n qs → Acked (m + n) (ps ++ qs)
  Acked-append zero n [] qs h k = let e : 0 + n ≡ n = omega arith in rw e k
  Acked-append zero n (p ∷ ps) qs h k = absurd h
  Acked-append (suc m) n (puback a ∷ ps) qs h k =
      let e : suc m + n ≡ suc (m + n) = omega arith in rw e (h.0, Acked-append m n ps qs h.1 k)
  Acked-append (suc m) n (pubrec a ∷ ps) qs h k =
      let e : suc m + n ≡ suc (m + n) = omega arith in rw e (h.0, Acked-append m n ps qs h.1 k)
  Acked-append (suc m) n (pubcomp a ∷ ps) qs h k =
      let e : suc m + n ≡ suc (m + n) = omega arith in rw e (h.0, Acked-append m n ps qs h.1 k)
  Acked-append (suc m) n (pingresp ∷ ps) qs h k =
      let e : suc m + n ≡ suc (m + n) = omega arith in
      rw e (rw e at (Acked-append (suc m) n ps qs h k))
  Acked-append (suc m) n [] qs h k = absurd h
  Acked-append (suc m) n (p ∷ ps) qs h k = absurd h

  pub check-Took :
      (c : Client) (code : ReasonCode) (d : Client)
      → Got c code d
      → Ensures (λ _ e. Took 1 c e) (λ _. Unit) (check P code (text "publish") d)
  unfolding check
  check-Took c code d g = elim (Bool-cases (P.is_error code)) [
    | inl e ↦ rw e tt
    | inr e ↦ rw e (g.1.0, g.0, g.1.1, OneAck-Acked g.0 code g.2 e)
  ]

  -- One step of the handshake: an acknowledgement that is no error.
  abbrev pub acknowledged : Action Client (Unit {0})
  acknowledged c = and_then (expect_ack P (text "publish") c) λ code. check P code (text "publish")

  pub acknowledged-Took : (c : Client) → Ensures (λ _ d. Took 1 c d) (λ _. Unit) (acknowledged c)
  acknowledged-Took c =
      and_then-Ensures (Got c) (λ _. Unit) (λ _ d. Took 1 c d) (expect_ack P (text "publish") c)
        (λ code. check P code (text "publish")) (expect_ack-Got (text "publish") c) (check-Took c)
