-- ===== src/Publish/Properties.antt =====
-- Which properties a publication carries.
use pulsemq_cli.Base.{true, false, none, some, [], Bytes, ◌≡◌, refl, arith, inl, inr, Bool-cases}
use pulsemq_cli.Mqtt
use pulsemq_cli.Mqtt.{Protocol}
use pulsemq_cli.Error.{ok, err, usage}
use pulsemq_cli.Cli
use pulsemq_cli.Cli.{PubArgs}
use pulsemq_cli.Publish.{uses_properties, resolve_properties}

module _ (P : Protocol) where
  -- None of the flags was given that only v5 has.
  abbrev pub IsPlain : PubArgs → Type 0
  IsPlain args =
      (args.user_properties ≡ [])
      × (args.message_expiry_interval ≡ none)
      × (args.content_type ≡ none)
      × (args.payload_format_indicator ≡ false)

  -- Each of them stands in its own property, and the other properties are the defaults.
  abbrev pub Carries : PubArgs → Mqtt.Properties → Type 0
  Carries args properties =
      (properties.user_properties ≡ args.user_properties)
      × (properties.message_expiry_interval ≡ args.message_expiry_interval)
      × (properties.content_type ≡ args.content_type)
      × (args.payload_format_indicator ≡ true → properties.payload_format_indicator ≡ some 1)
      × (args.payload_format_indicator ≡ false
          → properties.payload_format_indicator ≡ P.properties_new.payload_format_indicator)
      × (properties.response_topic ≡ P.properties_new.response_topic)
      × (properties.maximum_packet_size ≡ P.properties_new.maximum_packet_size)
      × (properties.receive_maximum ≡ P.properties_new.receive_maximum)

  unused-IsPlain : (args : PubArgs) → uses_properties P args ≡ false → IsPlain args
  unused-IsPlain args h = ground arith

  IsPlain-unused : (args : PubArgs) → IsPlain args → uses_properties P args ≡ false
  IsPlain-unused args h = ground arith

  -- Where the version has properties they are accepted, each flag stands as given in its own
  -- property, and every other property is the default. Where it has none, the flags are refused
  -- with a usage error exactly if one of them was given, and else the properties are the defaults.
  pub resolve_properties_lem :
      (args : PubArgs)
      → (P.has_properties (Cli.version args.conn) ≡ true
          → (properties : Mqtt.Properties) × (resolve_properties P args ≡ ok properties)
            × Carries args properties)
        × (P.has_properties (Cli.version args.conn) ≡ false
            → (IsPlain args → resolve_properties P args ≡ ok P.properties_new)
              × ((IsPlain args → ⊥) → (e : Bytes) × (resolve_properties P args ≡ err (usage e))))
  unfolding resolve_properties
  resolve_properties_lem args = (
    (λ h.
        rw (h, resolve_properties)
          (
            _,
            refl,
            (refl, refl, refl, (λ e. ground arith), (λ e. ground arith), refl, refl, refl),
          )),
    λ h. (
      (λ plain. let u = IsPlain-unused args plain in rw (h, u, resolve_properties) refl),
      λ given. elim (Bool-cases (uses_properties P args)) [
        | inl u ↦ rw (h, u, resolve_properties) (_, refl)
        | inr u ↦ absurd (given (unused-IsPlain args u))
      ],
    ),
  )
