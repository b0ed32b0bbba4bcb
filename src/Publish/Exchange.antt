-- ===== src/Publish/Exchange.antt =====
-- One publication, and the publications of a whole session.
use mathlib.Core.List.{append-nil}
use pulsemq_cli.Base.{
  ℕ, ◌+◌, Bool, Option, none, some, List, [], ◌∷◌, ◌++◌, Bytes, text, ◌≡◌, refl, sym, ap, subst,
  ◌∙◌, arith, inl, inr, ◌⊎◌,
}
use pulsemq_cli.Mqtt
use pulsemq_cli.Mqtt.{
  QoS, at_most_once, at_least_once, exactly_once, Protocol, Packet, pubrel, publish,
}
use pulsemq_cli.Io.{and_then}
use pulsemq_cli.Io.Laws.{Ensures, and_then-Ensures, weaken-Ensures}
use pulsemq_cli.Cli.{PubArgs}
use pulsemq_cli.Client.{Client, send, next_packet_id, step_packet_id}
use pulsemq_cli.Subscribe.{pub_ack}
use pulsemq_cli.Subscribe.Laws.{Put, send-Put}
use pulsemq_cli.Publish.{complete, check, expect_ack, publication, publish_one, publish_lines}
use pulsemq_cli.Publish.Handshake.{
  Took, acknowledged, acknowledged-Took, Got, check-Took, expect_ack-Got,
}
use pulsemq_cli.Publish.Exchanged.{
  exchange, acks_of, id_after, Exchanged, Exchanged-Put, Exchanged-Took, Exchanged-trans,
}

module _ (P : Protocol) where
  -- `Exchanged`, with the state of the identifiers.
  abbrev pub Steps : List Packet → ℕ → ℕ → Client → Client → Type 0
  Steps ps n id c d = Exchanged P ps n c d × (d.next_packet_id ≡ id)

  Steps-Put : (ps : List Packet) (c d : Client) → Put ps c d → Steps ps 0 c.next_packet_id c d
  Steps-Put ps c d put = (Exchanged-Put P ps c d put, ap (λ (k : Client). k.next_packet_id) put)

  Steps-Took : (n : ℕ) (c d : Client) → Took P n c d → Steps [] n c.next_packet_id c d
  Steps-Took n c d t = (Exchanged-Took P n c d t, ap (λ (k : Client). k.next_packet_id) t.0)

  Steps-trans :
      (ps qs : List Packet) (m n i j : ℕ) (c d e : Client)
      → Steps ps m i c d
      → Steps qs n j d e
      → Steps (ps ++ qs) (m + n) j c e
  Steps-trans ps qs m n i j c d e x y = (Exchanged-trans P ps qs m n c d e x.0 y.0, y.1)

  acknowledged-Steps :
      (c : Client) → Ensures (λ _ d. Steps [] 1 c.next_packet_id c d) (λ _. Unit) (acknowledged P c)
  acknowledged-Steps c =
      weaken-Ensures (λ _ d. Took P 1 c d) (λ _. Unit) (λ _ d. Steps [] 1 c.next_packet_id c d)
        (λ _. Unit) (acknowledged P c) (acknowledged-Took P c) (λ _ d t. Steps-Took 1 c d t)
        (λ d u. tt)

  -- What is written after the PUBLISH.
  abbrev tail_of : QoS → ℕ → List Packet
  tail_of exactly_once id = pubrel (pub_ack P id) ∷ []
  tail_of _ id = []

  abbrev pub id_for : QoS → ℕ → Option ℕ
  id_for at_most_once id = none
  id_for _ id = some id

  complete-Steps :
      (qos : QoS) (id : ℕ) (c : Client)
      → Ensures
          (λ _ d. Steps (tail_of qos id) (acks_of P qos) c.next_packet_id c d)
          (λ _. Unit)
          (complete P qos (id_for qos id) c)
  unfolding complete
  complete-Steps at_most_once id c = ((sym (append-nil c.stream.sent), refl, [], refl, tt), refl)
  complete-Steps at_least_once id c = acknowledged-Steps c
  complete-Steps exactly_once id c =
      and_then-Ensures (Got P c) (λ _. Unit) _ (expect_ack P (text "publish") c) _
        (expect_ack-Got P (text "publish") c)
        (λ code d g.
          and_then-Ensures (λ _ e. Took P 1 c e) (λ _. Unit) _ (check P code (text "publish") d) _
            (check-Took P c code d g) (λ _ e t. released-Steps id c e t))
    where
      rel : ℕ → List Packet
      rel i = pubrel (pub_ack P i) ∷ []

      released-Steps :
          (i : ℕ) (a b : Client)
          → Took P 1 a b
          → Ensures
              (λ _ d. Steps (pubrel (pub_ack P i) ∷ []) 2 a.next_packet_id a d)
              (λ _. Unit)
              (and_then (send (pubrel (pub_ack P i)) b) λ _. acknowledged P)
      released-Steps i a b t =
          and_then-Ensures (λ _ e. Put (rel i) b e) (λ _. Unit) _ (send (pubrel (pub_ack P i)) b) _
            (weaken-Ensures (λ _ e. Put (rel i) b e) (λ _. ⊥) (λ _ e. Put (rel i) b e) (λ _. Unit)
              (send (pubrel (pub_ack P i)) b) (send-Put (pubrel (pub_ack P i)) b) (λ _ e p. p)
              (λ e x. tt))
            (λ _ e p.
              weaken-Ensures (λ _ d. Steps [] 1 e.next_packet_id e d) (λ _. Unit)
                (λ _ d. Steps (rel i) 2 a.next_packet_id a d) (λ _. Unit) (acknowledged P e)
                (acknowledged-Steps e)
                (λ _ d k. (
                  Exchanged-trans P (rel i) [] 1 1 a e d
                      (Exchanged-trans P [] (rel i) 1 0 a b e (Exchanged-Took P 1 a b t)
                        (Exchanged-Put P (rel i) b e p))
                      k.0,
                  k.1
                      ∙ ap (λ (x : Client). x.next_packet_id) p
                      ∙ ap (λ (x : Client). x.next_packet_id) t.0,
                ))
                (λ d u. tt))

  published-Steps :
      (p : Packet) (qos : QoS) (id : ℕ) (c : Client)
      → Ensures
          (λ _ d. Steps (p ∷ tail_of qos id) (acks_of P qos) c.next_packet_id c d)
          (λ _. Unit)
          (and_then (send p c) λ _. complete P qos (id_for qos id))
  published-Steps p qos id c =
      and_then-Ensures (λ _ d. Put (p ∷ []) c d) (λ _. Unit) _ (send p c) _
        (weaken-Ensures (λ _ d. Put (p ∷ []) c d) (λ _. ⊥) (λ _ d. Put (p ∷ []) c d) (λ _. Unit)
          (send p c) (send-Put p c) (λ _ d put. put) (λ d x. tt))
        (λ _ d put.
          weaken-Ensures (λ _ e. Steps (tail_of qos id) (acks_of P qos) d.next_packet_id d e)
            (λ _. Unit) _ (λ _. Unit) (complete P qos (id_for qos id) d) (complete-Steps qos id d)
            (λ _ e k.
              let n : 0 + acks_of P qos ≡ acks_of P qos = omega arith in
              (
                subst (λ m. Exchanged P (p ∷ tail_of qos id) m c e) n
                    (Exchanged-trans P (p ∷ []) (tail_of qos id) 0 (acks_of P qos) c d e
                      (Exchanged-Put P (p ∷ []) c d put) k.0),
                k.1 ∙ ap (λ (x : Client). x.next_packet_id) put,
              ))
            (λ e u. tt))

  abbrev pub ids_of : QoS → Bytes → Bool → Mqtt.Properties → Bytes → Client → List Packet
  ids_of qos topic retain properties payload c =
      exchange P topic qos retain properties (step_packet_id c.next_packet_id) payload

  pub publish_one-Steps :
      (topic payload : Bytes) (qos : QoS) (retain : Bool) (properties : Mqtt.Properties)
      (c : Client)
      → Ensures
          (λ _ d.
            Steps
              (ids_of qos topic retain properties payload c)
              (acks_of P qos)
              (id_after P qos c.next_packet_id)
              c
              d)
          (λ _. Unit)
          (publish_one P topic payload qos retain properties c)
  unfolding publish_one next_packet_id
  publish_one-Steps topic payload at_most_once retain properties c =
      published-Steps (publish (publication P topic payload at_most_once retain properties none))
        at_most_once 0 c
  publish_one-Steps topic payload at_least_once retain properties c =
      let id = step_packet_id c.next_packet_id in
      published-Steps
        (publish (publication P topic payload at_least_once retain properties (some id)))
        at_least_once id (record c { next_packet_id = id })
  publish_one-Steps topic payload exactly_once retain properties c =
      let id = step_packet_id c.next_packet_id in
      published-Steps
        (publish (publication P topic payload exactly_once retain properties (some id)))
        exactly_once id (record c { next_packet_id = id })

  -- The packets of one publication after another, and the identifiers and acknowledgements they use.
  abbrev pub payloads : List (Bytes ⊎ Bytes) → List Bytes
  payloads [] = []
  payloads (inl e ∷ ls) = payloads ls
  payloads (inr line ∷ ls) = line ∷ payloads ls

  abbrev pub exchanges : PubArgs → QoS → Mqtt.Properties → ℕ → List Bytes → List Packet
  exchanges args qos properties id [] = []
  exchanges args qos properties id (line ∷ ls) =
      exchange P args.topic qos args.retain properties (step_packet_id id) line
      ++ exchanges args qos properties (id_after P qos id) ls

  abbrev pub acks_for : QoS → List Bytes → ℕ
  acks_for qos [] = 0
  acks_for qos (line ∷ ls) = acks_of P qos + acks_for qos ls

  -- With --stdin-lines a session that succeeds has published the lines in order on one connection,
  -- each with the whole exchange of its quality of service before the next, with successive
  -- identifiers, and has taken off just the acknowledgements they ask for.
  pub publish_lines-Exchanged :
      (args : PubArgs) (qos : QoS) (properties : Mqtt.Properties) (ls : List (Bytes ⊎ Bytes))
      (c : Client)
      → Ensures
          (λ _ d.
            Exchanged P
              (exchanges args qos properties c.next_packet_id (payloads ls))
              (acks_for qos (payloads ls))
              c
              d)
          (λ _. Unit)
          (publish_lines P args qos properties ls c)
  unfolding publish_lines
  publish_lines-Exchanged args qos properties [] c =
      ((sym (append-nil c.stream.sent), refl, [], refl, tt))
  publish_lines-Exchanged args qos properties (inl e ∷ ls) c = tt
  publish_lines-Exchanged args qos properties (inr line ∷ ls) c =
      and_then-Ensures
        (λ _ d.
          Steps (ids_of qos args.topic args.retain properties line c) (acks_of P qos)
            (id_after P qos c.next_packet_id) c d)
        (λ _. Unit) _ (publish_one P args.topic line qos args.retain properties c) _
        (publish_one-Steps args.topic line qos args.retain properties c)
        (λ _ d k.
          weaken-Ensures
            (λ _ e.
              Exchanged P (exchanges args qos properties d.next_packet_id (payloads ls))
                (acks_for qos (payloads ls)) d e)
            (λ _. Unit) _ (λ _. Unit) (publish_lines P args qos properties ls d)
            (publish_lines-Exchanged args qos properties ls d)
            (λ _ e h.
              Exchanged-trans P (ids_of qos args.topic args.retain properties line c) _
                (acks_of P qos) (acks_for qos (payloads ls)) c d e k.0
                (subst
                  (λ i.
                    Exchanged P (exchanges args qos properties i (payloads ls))
                      (acks_for qos (payloads ls)) d e)
                  k.1 h))
            (λ e u. tt))
