-- ===== src/Subscribe/Output.antt =====
-- What is printed for a message (src/subscribe.rs).
use pulsemq_cli.Base.{
  ℕ, ◌+◌, ◌-◌, Bool, ◌&&◌, ◌||◌, Option, none, some, List, [], ◌∷◌, ◌++◌, Bytes, text, decimal, ltb,
  leb, ◌==◌, take, drop, if◌then◌else◌,
}
use pulsemq_cli.Mqtt.{Properties, Publish}
use pulsemq_cli.Error.{hex_lower}

-- Tab, printable ASCII, and all bytes from 0x80.
unfoldable pub printable : ℕ → Bool
printable byte = byte == 9 || (leb 0x20 byte && ltb byte 0x7f) || leb 0x80 byte

-- `write!(out, "\\x{byte:02x}")`
unfoldable pub escape_byte : ℕ → Bytes
escape_byte byte = b'\\' ∷ b'x' ∷ hex_lower byte

-- The loop of `write_payload`: `rest` is what the iterator has not reached, at `index`; what is
-- written goes to the end of `out`.
unfoldable pub write_loop : Bytes → ℕ → ℕ → Bytes → Bytes → Bytes
write_loop bytes plain_from index [] out = out ++ drop plain_from bytes
write_loop bytes plain_from index (byte ∷ rest) out =
    let kept = write_loop bytes plain_from (index + 1) rest out in
    let run = take (index - plain_from) (drop plain_from bytes) in
    let escaped =
      write_loop bytes (index + 1) (index + 1) rest (out ++ (run ++ escape_byte byte)) in
    if printable byte then kept else escaped

unfoldable pub write_payload : Bytes → Bytes → Bool → Bytes
unfolding write_loop printable
write_payload out bytes escape = if escape then write_loop bytes 0 0 bytes out else out ++ bytes

abbrev push_if : {A : Type 0} → Option A → (A → Bytes) → List Bytes → List Bytes
push_if none f parts = parts
push_if (some v) f parts = parts ++ (f v ∷ [])

abbrev user_parts : List (Bytes × Bytes) → List Bytes
user_parts [] = []
user_parts ((k, v) ∷ more) = (text "user:" ++ (k ++ (text "=" ++ v))) ∷ user_parts more

-- `parts.join(" ")`
join_spaces : Bytes → List Bytes → Bytes
join_spaces part [] = part
join_spaces part (next ∷ more) = part ++ (b' ' ∷ join_spaces next more)

join_parts : List Bytes → Option Bytes
unfolding join_spaces
join_parts [] = none
join_parts (part ∷ more) = some (join_spaces part more)

unfoldable pub format_properties : Properties → Option Bytes
unfolding join_parts
format_properties p =
    let parts0 = push_if p.content_type (λ v. text "content-type=" ++ v) [] in
    let parts1 =
      push_if p.message_expiry_interval (λ v. text "message-expiry-interval=" ++ decimal v)
        parts0 in
    let parts2 =
      push_if p.payload_format_indicator (λ v. text "payload-format-indicator=" ++ decimal v)
        parts1 in
    join_parts (parts2 ++ user_parts p.user_properties)

-- The line of properties, if there is one.
property_line : Option Bytes → Bool → Bytes
property_line none to_terminal = []
property_line (some line) to_terminal = write_payload [] line to_terminal ++ (10 ∷ [])

-- The bytes that one message adds to standard output.
unfoldable pub print_message : Publish → Bool → Bool → Bytes
unfolding property_line
print_message p show_topic to_terminal =
    let head =
      property_line (format_properties p.properties) to_terminal
      ++ (write_payload [] p.topic to_terminal ++ (32 ∷ [])) in
    (if show_topic then head else []) ++ (write_payload [] p.payload to_terminal ++ (10 ∷ []))
