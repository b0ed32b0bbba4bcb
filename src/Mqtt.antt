-- ===== src/Mqtt.antt =====
-- What the client uses of the `wispmq-protocol` crate, which is not part of the repository: the
-- fields and constructors that the sources name, and the functions that they call as a parameter.
-- A reason code is the byte that `as_u8` gives for it.
use pulsemq_cli.Base.{ℕ, Bool, true, false, Option, List, Bytes, ◌≡◌, ◌⊎◌, inr}

pub data QoS : Type 0 where
  at_most_once at_least_once exactly_once : QoS

pub data ProtocolVersion : Type 0 where
  v5 v3_1_1 v3_1 : ProtocolVersion

abbrev pub ReasonCode : Type 0
ReasonCode = ℕ

pub data MqttError : Type 0 where
  io : Bytes → MqttError
  protocol : Bytes → MqttError

pub record Properties : Type 0 where
  pub user_properties : List (Bytes × Bytes)
  pub message_expiry_interval : Option ℕ
  pub content_type : Option Bytes
  pub payload_format_indicator : Option ℕ
  pub response_topic : Option Bytes
  pub maximum_packet_size : Option ℕ
  pub receive_maximum : Option ℕ

pub record Publish : Type 0 where
  pub dup : Bool
  pub qos : QoS
  pub retain : Bool
  pub topic : Bytes
  pub packet_id : Option ℕ
  pub properties : Properties
  pub payload : Bytes

-- PUBACK, PUBREC, PUBREL and PUBCOMP.
pub record PubAck : Type 0 where
  pub packet_id : ℕ
  pub reason_code : ReasonCode

pub record Connack : Type 0 where
  pub session_present : Bool
  pub reason_code : ReasonCode
  pub properties : Properties

pub record Will : Type 0 where
  pub qos : QoS
  pub retain : Bool
  pub properties : Properties
  pub topic : Bytes
  pub payload : Bytes

pub record Connect : Type 0 where
  pub protocol_name : Bytes
  pub protocol_version : ℕ
  pub clean_start : Bool
  pub keep_alive : ℕ
  pub properties : Properties
  pub client_id : Bytes
  pub will : Option Will
  pub username : Option Bytes
  pub password : Option Bytes

pub data RetainHandling : Type 0 where
  send_at_subscribe : RetainHandling

pub record TopicFilter : Type 0 where
  pub filter : Bytes
  pub qos : QoS
  pub no_local : Bool
  pub retain_as_published : Bool
  pub retain_handling : RetainHandling

pub record Subscribe : Type 0 where
  pub packet_id : ℕ
  pub properties : Properties
  pub filters : List TopicFilter

pub record SubAck : Type 0 where
  pub packet_id : ℕ
  pub reason_codes : List ReasonCode

-- `other` stands for the packets that no source names.
pub data Packet : Type 0 where
  connect : Connect → Packet
  connack : Connack → Packet
  publish : Publish → Packet
  puback pubrec pubrel pubcomp : PubAck → Packet
  subscribe : Subscribe → Packet
  suback : SubAck → Packet
  pingreq pingresp : Packet
  disconnect : ReasonCode → Packet
  other : ℕ → Packet

-- The functions of the crate that the client calls.
pub record Protocol : Type 0 where
  pub is_error : ReasonCode → Bool
  pub success : ReasonCode
  pub qos_from_u8 : ℕ → MqttError ⊎ QoS
  pub has_properties : ProtocolVersion → Bool
  pub level : ProtocolVersion → ℕ
  pub packet_name : Packet → Bytes
  pub qos_as_u8 : QoS → ℕ
  pub debug_code : ReasonCode → Bytes  -- `{:?}`
  pub display_error : MqttError → Bytes
  pub properties_new : Properties

-- Their documented behaviour.
pub record IsLawful (P : Protocol) : Type 0 where
  pub success_lem : P.is_error P.success ≡ false
  pub qos_0 : P.qos_from_u8 0 ≡ inr at_most_once
  pub qos_1 : P.qos_from_u8 1 ≡ inr at_least_once
  pub qos_2 : P.qos_from_u8 2 ≡ inr exactly_once
  pub properties_v5 : P.has_properties v5 ≡ true
  pub properties_v3_1_1 : P.has_properties v3_1_1 ≡ false
  pub properties_v3_1 : P.has_properties v3_1 ≡ false
