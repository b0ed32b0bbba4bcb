-- ===== src/Request/Refused.antt =====
-- What `request` makes of a broker that refuses the publication.
use pulsemq_cli.Base.{
  ℕ, zero, suc, ◌<◌, Bool, List, [], ◌∷◌, length, lt→ltb, ◌==◌, ◌≡◌, refl, ap, arith, inl, inr,
  Bool-cases,
}
use pulsemq_cli.Mqtt.{Protocol, PubAck, puback}
use pulsemq_cli.Io.{Event, arrived, waiting, read_packet, read_from, loop}
use pulsemq_cli.Client.{Client, with_incoming, keepalive_loop, recv, recv_keepalive}
use pulsemq_cli.Subscribe.{fuel}
use pulsemq_cli.Request.{reply_on, reply_round, reply_loop}

abbrev pub pubacks : List PubAck → List Event
pubacks [] = []
pubacks (a ∷ acks) = arrived (puback a) ∷ pubacks acks

length-pubacks : (acks : List PubAck) → length (pubacks acks) ≡ length acks
length-pubacks [] = refl
length-pubacks (a ∷ acks) = ap suc (length-pubacks acks)

module _ (P : Protocol) (show_topic : Bool) (count : ℕ) where
  ignored :
      (fuel : ℕ) (acks : List PubAck) (c : Client)
      → 0 < count
      → length acks < fuel
      → loop fuel (reply_round P show_topic count) 0 (with_incoming (pubacks acks) c)
        ≡ waiting (with_incoming [] c)
  unfolding loop reply_round reply_on recv_keepalive keepalive_loop recv read_packet read_from
  ignored zero acks c h l = absurd (omega arith)
  ignored (suc fuel) [] c h l = elim (Bool-cases (c.keep_alive == 0)) [
    | inl k ↦ rw (lt→ltb 0 count h, k) refl
    | inr k ↦ rw (lt→ltb 0 count h, k) refl
  ]
  ignored (suc fuel) (a ∷ acks) c h l = elim (Bool-cases (c.keep_alive == 0)) [
    | inl k ↦ rw (lt→ltb 0 count h, k) (ignored fuel acks c h (omega arith))
    | inr k ↦ rw (lt→ltb 0 count h, k) (ignored fuel acks c h (omega arith))
  ]

  -- Where a reply is asked for and the broker sends PUBACKs only, whatever their reason codes, the
  -- reply loop waits on and does not fail.
  pub reply_loop_refused :
      (acks : List PubAck) (c : Client)
      → 0 < count
      → reply_loop P show_topic count (with_incoming (pubacks acks) c)
        ≡ waiting (with_incoming [] c)
  unfolding reply_loop
  reply_loop_refused acks c h =
      ignored (suc (fuel (with_incoming (pubacks acks) c))) acks c h
        (omega (arith, length-pubacks acks))
