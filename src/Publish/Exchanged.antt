-- ===== src/Publish/Exchanged.antt =====
-- What a publication writes and what it takes off.
use mathlib.Core.List.{append-nil, append_assoc}
use pulsemq_cli.Base.{ℕ, ◌+◌, Bool, none, some, List, [], ◌∷◌, ◌++◌, Bytes, ◌≡◌, sym, ap, ◌∙◌}
use pulsemq_cli.Mqtt
use pulsemq_cli.Mqtt.{
  QoS, at_most_once, at_least_once, exactly_once, ReasonCode, Protocol, Packet, Publish, PubAck,
  puback, pubrec, pubrel, pubcomp, suback, disconnect, publish, connect, connack, pingreq, pingresp,
  other, subscribe,
}
use pulsemq_cli.Io.Laws.{packets}
use pulsemq_cli.Client.{Client, step_packet_id}
use pulsemq_cli.Subscribe.{pub_ack}
use pulsemq_cli.Subscribe.Laws.{Put}
use pulsemq_cli.Publish.{publication}
use pulsemq_cli.Publish.Handshake.{Acked, Took, Acked-append}

module _ (P : Protocol) where
  -- What a publication puts on the wire.
  abbrev pub exchange : Bytes → QoS → Bool → Mqtt.Properties → ℕ → Bytes → List Packet
  exchange topic at_most_once retain properties id payload =
      publish (publication P topic payload at_most_once retain properties none) ∷ []
  exchange topic at_least_once retain properties id payload =
      publish (publication P topic payload at_least_once retain properties (some id)) ∷ []
  exchange topic exactly_once retain properties id payload =
      publish (publication P topic payload exactly_once retain properties (some id))
      ∷ pubrel (pub_ack P id)
      ∷ []

  -- How many acknowledgements it takes, and the state of the identifiers afterwards.
  abbrev pub acks_of : QoS → ℕ
  acks_of at_most_once = 0
  acks_of at_least_once = 1
  acks_of exactly_once = 2

  abbrev pub id_after : QoS → ℕ → ℕ
  id_after at_most_once id = id
  id_after _ id = step_packet_id id

  -- From `c` to `d` the packets `ps` were written, and `n` good acknowledgements were taken off.
  abbrev pub Exchanged : List Packet → ℕ → Client → Client → Type 0
  Exchanged ps n c d =
      (d.stream.sent ≡ c.stream.sent ++ ps)
      × (d.stream.printed ≡ c.stream.printed)
      × (taken : List Packet) × (packets c.stream.incoming ≡ taken ++ packets d.stream.incoming)
      × Acked P n taken

  pub Exchanged-Put : (ps : List Packet) (c d : Client) → Put ps c d → Exchanged ps 0 c d
  Exchanged-Put ps c d put = (
    ap (λ (k : Client). k.stream.sent) put,
    ap (λ (k : Client). k.stream.printed) put,
    [],
    ap (λ (k : Client). packets k.stream.incoming) (sym put),
    tt,
  )

  pub Exchanged-Took : (n : ℕ) (c d : Client) → Took P n c d → Exchanged [] n c d
  Exchanged-Took n c d t = (
    ap (λ (k : Client). k.stream.sent) t.0 ∙ sym (append-nil c.stream.sent),
    ap (λ (k : Client). k.stream.printed) t.0,
    t.1,
    t.2,
    t.3,
  )

  pub Exchanged-trans :
      (ps qs : List Packet) (m n : ℕ) (c d e : Client)
      → Exchanged ps m c d
      → Exchanged qs n d e
      → Exchanged (ps ++ qs) (m + n) c e
  Exchanged-trans ps qs m n c d e x y = (
    y.0 ∙ ap (λ (s : List Packet). s ++ qs) x.0 ∙ append_assoc c.stream.sent ps qs,
    y.1 ∙ x.1,
    x.2 ++ y.2,
    x.3 ∙ ap (◌++◌ x.2) y.3 ∙ sym (append_assoc x.2 y.2 _),
    Acked-append P m n x.2 y.2 x.4 y.4,
  )
