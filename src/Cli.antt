-- ===== src/Cli.antt =====
-- The arguments of the subcommands as clap delivers them, and what is computed from them
-- (src/cli.rs). The features `tls` and `websocket` are on.
pub mod Laws
use pulsemq_cli.Base.{
  ℕ, ◌<◌, ◌≤◌, min, Bool, true, false, not, ◌&&◌, ◌||◌, Option, none, some, List, [], ◌∷◌, ◌++◌,
  Bytes, text, decimal, ltb, ◌==◌, if◌then◌else◌, is_some, ◌⊎◌, inl, inr, ◌≡◌,
}
use mathlib.Core.Option.{get_or}
use pulsemq_cli.Mqtt
use pulsemq_cli.Mqtt.{ProtocolVersion, v3_1_1, v3_1, Will, Protocol, QoS}
use pulsemq_cli.Error.{Result, ok, err, Error, usage}

abbrev pub default_max_packet_size : ℕ
default_max_packet_size = 1048576

abbrev pub protocol_max_packet_size : ℕ
protocol_max_packet_size = 268435455

-- The source's `Protocol`.
pub data ProtocolArg : Type 0 where
  v5 v311 v31 : ProtocolArg

abbrev pub to_version : ProtocolArg → ProtocolVersion
to_version ProtocolArg.v5 = ProtocolVersion.v5
to_version ProtocolArg.v311 = v3_1_1
to_version ProtocolArg.v31 = v3_1

pub record ConnectionArgs : Type 0 where
  pub broker : Bytes
  pub port_arg : Option ℕ
  pub client_id : Option Bytes
  pub protocol : ProtocolArg
  pub user : Option Bytes
  pub password : Option Bytes
  pub password_file : Option Bytes
  pub keepalive : ℕ
  pub max_packet_size : ℕ
  pub persistent_session : Bool
  pub tls : Bool
  pub cafile : Option Bytes
  pub cert : Option Bytes
  pub key : Option Bytes
  pub insecure : Bool
  pub websocket : Bool
  pub will_topic : Option Bytes
  pub will_payload : Option Bytes
  pub will_qos : ℕ
  pub will_retain : Bool

-- What a `debug_struct` prints for a field.
pub data DebugValue : Type 0 where
  string : Bytes → DebugValue
  number : ℕ → DebugValue
  boolean : Bool → DebugValue
  protocol : ProtocolArg → DebugValue
  absent : DebugValue
  present : DebugValue → DebugValue

abbrev debug_option {ℓ} : {A : Type ℓ} → (A → DebugValue) → Option A → DebugValue
debug_option f none = absent
debug_option f (some a) = present (f a)

pub debug_fields : ConnectionArgs → List (Bytes × DebugValue)
debug_fields a =
    (text "broker", string a.broker)
    ∷ (text "port_arg", debug_option number a.port_arg)
    ∷ (text "client_id", debug_option string a.client_id)
    ∷ (text "protocol", protocol a.protocol)
    ∷ (text "user", debug_option string a.user)
    ∷ (text "password", debug_option (λ _. string (text "<redacted>")) a.password)
    ∷ (text "password_file", debug_option string a.password_file)
    ∷ (text "keepalive", number a.keepalive)
    ∷ (text "max_packet_size", number a.max_packet_size)
    ∷ (text "persistent_session", boolean a.persistent_session)
    ∷ (text "tls", boolean a.tls)
    ∷ (text "cafile", debug_option string a.cafile)
    ∷ (text "cert", debug_option string a.cert)
    ∷ (text "key", debug_option string a.key)
    ∷ (text "insecure", boolean a.insecure)
    ∷ (text "websocket", boolean a.websocket)
    ∷ (text "will_topic", debug_option string a.will_topic)
    ∷ (text "will_payload", debug_option string a.will_payload)
    ∷ (text "will_qos", number a.will_qos)
    ∷ (text "will_retain", boolean a.will_retain)
    ∷ []

abbrev pub clean_start : ConnectionArgs → Bool
clean_start a = not a.persistent_session

abbrev pub version : ConnectionArgs → ProtocolVersion
version a = to_version a.protocol

-- `unwrap_or`
abbrev pub unwrap_or {ℓ} : {A : Type ℓ} → Option A → A → A
unwrap_or none d = d
unwrap_or (some a) d = a

unfoldable pub port : ConnectionArgs → ℕ
port a = let default : ℕ = if a.tls then 8883 else 1883 in unwrap_or a.port_arg default

unfoldable pub max_packet_size : ConnectionArgs → Bytes ⊎ ℕ
max_packet_size a =
    if a.max_packet_size == 0
    then inl (text "--max-packet-size must be at least 1")
    else if ltb protocol_max_packet_size a.max_packet_size
    then inl (
        text "--max-packet-size "
        ++ (decimal a.max_packet_size
            ++ (text " exceeds the protocol maximum " ++ decimal protocol_max_packet_size)))
    else inr a.max_packet_size

-- `QoS::from_u8(..).expect(..)`: `none` is the panic.
will_with : ConnectionArgs → Mqtt.Properties → Bytes → Mqtt.MqttError ⊎ QoS → Option (Option Will)
will_with a properties topic (inl e) = none
will_with a properties topic (inr qos) = some (
    some (record {
      qos = qos;
      retain = a.will_retain;
      properties = properties;
      topic = topic;
      payload = unwrap_or a.will_payload [];
    }))

unfoldable pub will : Protocol → ConnectionArgs → Option (Option Will)
unfolding will_with
will P a = elim a.will_topic [
  | none ↦ some none
  | some topic ↦ will_with a P.properties_new topic (P.qos_from_u8 a.will_qos)
]

-- clap's own checks on these fields: `requires`, `conflicts_with` and `range`.
pub record IsParsed (a : ConnectionArgs) : Type 0 where
  pub will_range : a.will_qos ≤ 2
  pub one_password : (a.password ≡ none) ⊎ (a.password_file ≡ none)
  pub resumable : a.persistent_session ≡ true → is_some a.client_id ≡ true

pub record PubArgs : Type 0 where
  pub conn : ConnectionArgs
  pub topic : Bytes
  pub message : Option Bytes
  pub file : Option Bytes
  pub stdin_lines : Bool
  pub qos : ℕ
  pub retain : Bool
  pub user_properties : List (Bytes × Bytes)
  pub message_expiry_interval : Option ℕ
  pub content_type : Option Bytes
  pub payload_format_indicator : Bool

-- `str::split_once` at a byte.
pub split_once : ℕ → Bytes → Option (Bytes × Bytes)
split_once d [] = none
split_once d (c ∷ s) =
    let rest = split_once d s in
    if c == d then some ([], s) else elim rest [ none ↦ none | some (k, v) ↦ some (c ∷ k, v) ]

-- The message of an error quotes the argument, as `{s:?}` does.
pub parse_user_property : (Bytes → Bytes) → Bytes → Bytes ⊎ (Bytes × Bytes)
unfolding split_once
parse_user_property quote s = elim (split_once b'=' s) [
  | some (k, v) ↦ inr (k, v)
  | none ↦ inl (text "expected KEY=VALUE, got " ++ quote s)
]

pub record SubArgs : Type 0 where
  pub conn : ConnectionArgs
  pub topic : List Bytes
  pub qos : ℕ
  pub show_topic : Bool
  pub count : Option ℕ
  pub max_messages : ℕ

abbrev pub default_max_messages : ℕ
default_max_messages = 1000000

abbrev smaller : Option ℕ → Option ℕ → Option ℕ
smaller (some a) (some b) = some (min a b)
smaller (some a) none = some a
smaller none (some b) = some b
smaller none none = none

unfoldable pub effective_limit : SubArgs → Option ℕ
effective_limit a =
    let ceiling = if not (a.max_messages == 0) then some a.max_messages else none in
    smaller a.count ceiling

pub record RequestArgs : Type 0 where
  pub conn : ConnectionArgs
  pub topic : Bytes
  pub reply_topic : Bytes
  pub message : Option Bytes
  pub qos : ℕ
  pub show_topic : Bool
  pub count : ℕ

-- `F` is `f64`.
pub record BenchArgs (F : Type 0) : Type 0 where
  pub conn : ConnectionArgs
  pub publishers : ℕ
  pub subscribers : ℕ
  pub topic_prefix : Bytes
  pub qos : ℕ
  pub payload_size : ℕ
  pub count : Option ℕ
  pub duration : Option ℕ
  pub rate : Option F
  pub inflight : ℕ
  pub warmup : ℕ
  pub drain : ℕ
  pub json : Bool
