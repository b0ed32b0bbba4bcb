-- ===== src/Error.antt =====
-- The error type of the tools (src/error.rs) and results that carry it.
use pulsemq_cli.Base.{
  ℕ, ◌+◌, ◌/◌, ◌%◌, [], ◌∷◌, ◌++◌, Bytes, text, ltb, if◌then◌else◌, ◌⊎◌, inl, inr,
}
use pulsemq_cli.Mqtt.{ReasonCode, MqttError, io}

pub data Error : Type 0 where
  usage : Bytes → Error
  rejected : Bytes → ReasonCode → Error
  disconnected : Bytes → Error
  unsupported : Bytes → Error
  mqtt : MqttError → Error

pub data Result {ℓ} (A : Type ℓ) : Type ℓ where
  ok : A → Result A
  err : Error → Result A

-- `?`: the rest of a function after a result.
infixl 5 ◌>>=◌ ◌>>◌
abbrev pub ◌>>=◌ : {A B : Type 0} → Result A → (A → Result B) → Result B
err e >>= rest = err e
ok a >>= rest = rest a

abbrev pub ◌>>◌ : {B : Type 0} → Result (Unit {0}) → Result B → Result B
err e >> rest = err e
ok u >> rest = rest

-- `?` on a result of the protocol crate: `From<MqttError>`.
abbrev pub from_mqtt {ℓ} : {A : Type ℓ} → MqttError ⊎ A → Result A
from_mqtt (inl e) = err (mqtt e)
from_mqtt (inr a) = ok a

-- `?` on an I/O result: `From<std::io::Error>`.
abbrev pub from_io {ℓ} : {A : Type ℓ} → Bytes ⊎ A → Result A
from_io (inl e) = err (mqtt (io e))
from_io (inr a) = ok a

-- `map_err(|e| Error::Usage(format!("{before}{e}")))`
abbrev pub or_usage {ℓ} : {A : Type ℓ} → Bytes → Bytes ⊎ A → Result A
or_usage before (inl e) = err (usage (before ++ e))
or_usage before (inr a) = ok a

hex_digit : ℕ → ℕ → ℕ
hex_digit letter n = if ltb n 10 then 48 + n else letter + n

-- `{n:02X}` of a byte; `A` is 65.
unfoldable pub hex_upper : ℕ → Bytes
unfolding hex_digit
hex_upper n = hex_digit 55 (n / 16) ∷ hex_digit 55 (n % 16) ∷ []

-- `{n:02x}` of a byte; `a` is 97.
unfoldable pub hex_lower : ℕ → Bytes
unfolding hex_digit
hex_lower n = hex_digit 87 (n / 16) ∷ hex_digit 87 (n % 16) ∷ []

-- `Display`. The debug form of a reason code and the display of an `MqttError` are the crate's.
pub fmt : (ReasonCode → Bytes) → (MqttError → Bytes) → Error → Bytes
fmt debug display (usage m) = m
fmt debug display (rejected what code) =
    what
    ++ (text " rejected by broker: "
        ++ (debug code ++ (text " (0x" ++ (hex_upper code ++ text ")"))))
fmt debug display (disconnected m) = text "broker closed the connection " ++ m
fmt debug display (unsupported m) = m
fmt debug display (mqtt e) = display e
