-- ===== src/Cli/Laws.antt =====
-- Limits, ports and splitting.
use pulsemq_cli.Base.{
  ℕ, ◌≤◌, Option, none, some, [], ◌∷◌, ◌++◌, Bytes, All, Option-cases, zero, suc, ◌⊎◌, inl, inr,
  ◌≡◌, ◌≢◌, ◌↔◌, refl, arith,
}
use pulsemq_cli.Mqtt.{Protocol, IsLawful, Will, QoS, at_most_once, at_least_once, exactly_once}
use pulsemq_cli.Cli.{
  ConnectionArgs, SubArgs, unwrap_or, IsParsed, protocol_max_packet_size, debug_fields,
  max_packet_size, will, split_once, effective_limit,
}

-- The debug form shows whether there is a password and nothing of what it is.
pub debug_fields_redacted :
    (a : ConnectionArgs) (p q : Bytes)
    → debug_fields (record a { password = some p }) ≡ debug_fields (record a { password = some q })
unfolding debug_fields
debug_fields_redacted a p q = refl

-- A packet size is accepted exactly between 1 and the protocol maximum, and is then the one asked
-- for.
max_packet_size-inr :
    (a : ConnectionArgs) (n : ℕ)
    → (max_packet_size a ≡ inr n)
      ↔ ((a.max_packet_size ≡ n) × (1 ≤ n) × (n ≤ protocol_max_packet_size))
unfolding max_packet_size
max_packet_size-inr a n = ground arith

qos_from_u8_total :
    (P : Protocol) → IsLawful P → (n : ℕ) → n ≤ 2 → (q : QoS) × (P.qos_from_u8 n ≡ inr q)
qos_from_u8_total P L zero h = (at_most_once, L.qos_0)
qos_from_u8_total P L (suc zero) h = (at_least_once, L.qos_1)
qos_from_u8_total P L (suc (suc zero)) h = (exactly_once, L.qos_2)
qos_from_u8_total P L (suc (suc (suc n))) h = absurd (omega arith)

-- For parsed arguments the `expect` in `will` does not fail, and there is a Will exactly when a
-- topic was given.
pub will_total :
    (P : Protocol) (a : ConnectionArgs)
    → IsLawful P
    → IsParsed a
    → (w : Option Will) × (will P a ≡ some w) × ((w ≡ none) ↔ (a.will_topic ≡ none))
unfolding will
will_total P a L h = elim (Option-cases a.will_topic) [
  | inl e ↦ rw (e, will) (none, refl, ((λ _. refl), λ _. refl))
  | inr (topic, e) ↦
      let (q, good) = qos_from_u8_total P L a.will_qos h.will_range in
      (
        some (record {
          qos = q;
          retain = a.will_retain;
          properties = P.properties_new;
          topic = topic;
          payload = unwrap_or a.will_payload [];
        }),
        ground arith,
        ground arith,
      )
]

-- --count and --max-messages both bound the limit, the limit is one of the two, and there is none
-- exactly without --count and with --max-messages 0.
pub effective_limit_lem :
    (a : SubArgs)
    → ((n : ℕ)
        → effective_limit a ≡ some n
        → ((c : ℕ) → a.count ≡ some c → n ≤ c)
          × (a.max_messages ≢ 0 → n ≤ a.max_messages)
          × ((a.count ≡ some n) ⊎ (a.max_messages ≡ n)))
      × ((effective_limit a ≡ none) ↔ ((a.count ≡ none) × (a.max_messages ≡ 0)))
unfolding effective_limit
effective_limit_lem a = ground arith

-- A key without the separator and any value, joined by the separator, are read back.
split_once_joined :
    (d : ℕ) (k v : Bytes) → All (λ c. c ≢ d) k → split_once d (k ++ d ∷ v) ≡ some (k, v)
unfolding split_once
split_once_joined d [] v h = ground arith
split_once_joined d (c ∷ k) v h = ground (arith, split_once_joined d k v h.1)
