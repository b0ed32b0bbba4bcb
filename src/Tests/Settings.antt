-- ===== src/Tests/Settings.antt =====
-- Arguments, passwords, the payload header, terminal output and the WebSocket adapter.
use pulsemq_cli.Base.{
  ℕ, ◌≤◌, true, false, none, some, [], ◌∷◌, ◌++◌, Bytes, length, ◌⊎◌, inl, inr, ◌≡◌, ◌≢◌, ◌↔◌, refl,
  arith, All,
}
use pulsemq_cli.Error.{ok}
use pulsemq_cli.Io.Laws.{result_of}
use pulsemq_cli.Cli.{SubArgs, effective_limit, debug_fields}
use pulsemq_cli.Cli.Laws.{debug_fields_redacted, effective_limit_lem}
use pulsemq_cli.Password.{password}
use pulsemq_cli.Password.Laws.{Stripped, password_precedence}
use pulsemq_cli.Publish.{resolve_properties}
use pulsemq_cli.Mqtt
use pulsemq_cli.Error.{err, usage}
use pulsemq_cli.Publish.Properties.{IsPlain, Carries, resolve_properties_lem}
use pulsemq_cli.Bench.Payload.Laws.{}
use pulsemq_cli.Subscribe.Output.{write_payload, printable}
use pulsemq_cli.Subscribe.Terminal.{
  escaped, IsSafe, write_payload_lem, write_payload-IsSafe, write_payload-printable,
}
use pulsemq_cli.Transport.Ws.{
  WsByteStream, binary, close_frame, control, sink_ready, poll_read, poll_flush, ready, flushed,
}
use pulsemq_cli.Transport.Ws.Laws.{delivered, unread, poll_read_conserves, poll_flush_frame}
use pulsemq_cli.Tests.Fixtures.{mqtt_protocol, world, no_properties, connection, pub_args, host}

debug_fields_redacted_example :
    debug_fields (record connection { password = some (112 ∷ []) })
    ≡ debug_fields (record connection { password = some (113 ∷ 114 ∷ []) })
debug_fields_redacted_example = debug_fields_redacted connection (112 ∷ []) (113 ∷ 114 ∷ [])

abbrev sub_args : SubArgs
sub_args = record {
  conn = connection;
  topic = (116 ∷ []) ∷ [];
  qos = 1;
  show_topic = true;
  count = some 3;
  max_messages = 1000;
}

effective_limit_lem_example :
    ((n : ℕ)
      → effective_limit sub_args ≡ some n
      → ((c : ℕ) → sub_args.count ≡ some c → n ≤ c)
        × (sub_args.max_messages ≢ 0 → n ≤ sub_args.max_messages)
        × ((sub_args.count ≡ some n) ⊎ (sub_args.max_messages ≡ n)))
    × ((effective_limit sub_args ≡ none) ↔ ((sub_args.count ≡ none) × (sub_args.max_messages ≡ 0)))
effective_limit_lem_example = effective_limit_lem sub_args

-- `k=v=w`
abbrev crlf : Bytes
crlf = 112 ∷ 10 ∷ 119 ∷ 13 ∷ 10 ∷ []

password_precedence_example :
    let r = result_of (password host connection (world [])) in
    ((path : Bytes)
      → connection.password_file ≡ some path
      → ((e : Bytes) → host.read_file path ≡ inl e → r ≡ some (inl e))
        × ((b : Bytes)
            → host.read_file path ≡ inr b
            → (kept : Bytes) × (r ≡ some (inr (some kept))) × Stripped b kept))
    × (connection.password_file ≡ none
        → (p : Bytes) → connection.password ≡ some p
        → r ≡ some (inr (some p)))
    × (connection.password_file ≡ none
        → connection.password ≡ none
        → r ≡ some (inr host.password_variable))
password_precedence_example = password_precedence host connection (world [])

resolve_runs :
    resolve_properties mqtt_protocol pub_args
    ≡ ok (record no_properties { message_expiry_interval = some 60 })
unfolding resolve_properties
resolve_runs = refl

resolve_properties_lem_example :
    (true ≡ true
      → (properties : Mqtt.Properties) × (resolve_properties mqtt_protocol pub_args ≡ ok properties)
        × Carries mqtt_protocol pub_args properties)
    × (true ≡ false
        → (IsPlain mqtt_protocol pub_args
            → resolve_properties mqtt_protocol pub_args ≡ ok no_properties)
          × ((IsPlain mqtt_protocol pub_args → ⊥)
              → (e : Bytes) × (resolve_properties mqtt_protocol pub_args ≡ err (usage e))))
resolve_properties_lem_example = resolve_properties_lem mqtt_protocol pub_args

-- ESC [ 2 J, a tab and a letter.
abbrev hostile : Bytes
hostile = 27 ∷ 91 ∷ 50 ∷ 74 ∷ 9 ∷ 97 ∷ []

write_payload_lem_example :
    (write_payload [] hostile true ≡ [] ++ escaped hostile)
    × (write_payload [] hostile false ≡ [] ++ hostile)
write_payload_lem_example = write_payload_lem [] hostile

write_payload-IsSafe_example : All IsSafe (write_payload [] hostile true)
write_payload-IsSafe_example =
    write_payload-IsSafe hostile
      (omega arith, (omega arith, (omega arith, (omega arith, (omega arith, (omega arith, tt))))))

printable_runs : All (λ b. printable b ≡ true) (9 ∷ 97 ∷ 226 ∷ [])
unfolding printable
printable_runs = (refl, (refl, (refl, tt)))

write_payload-printable_example :
    write_payload [] (9 ∷ 97 ∷ 226 ∷ []) true ≡ [] ++ (9 ∷ 97 ∷ 226 ∷ [])
write_payload-printable_example = write_payload-printable [] (9 ∷ 97 ∷ 226 ∷ []) printable_runs

-- A ping of the WebSocket layer, an empty message, three bytes, then a close frame.
abbrev ws_stream : WsByteStream
ws_stream = record {
  messages = control ∷ binary [] ∷ binary (1 ∷ 2 ∷ 3 ∷ []) ∷ close_frame ∷ [];
  readies = sink_ready ∷ [];
  flushes = sink_ready ∷ [];
  starts = none ∷ [];
  frames = [];
  read_buf = [];
  read_pos = 0;
  write_buf = 4 ∷ 5 ∷ [];
  sending = false;
}

poll_read_conserves_example :
    let (r, s') = poll_read 2 ws_stream in
    (delivered r ++ unread s' ≡ unread ws_stream) × (length (delivered r) ≤ 2)
poll_read_conserves_example = poll_read_conserves 2 ws_stream

abbrev closing : WsByteStream
closing = record ws_stream { messages = close_frame ∷ [] }

eof_runs : (poll_read 2 closing).0 ≡ ready []
unfolding poll_read
eof_runs = refl

abbrev flushed_stream : WsByteStream
flushed_stream = record ws_stream {
  readies = [];
  flushes = [];
  starts = [];
  frames = (4 ∷ 5 ∷ []) ∷ [];
  write_buf = [];
}

flush_runs : poll_flush ws_stream ≡ (flushed, flushed_stream)
unfolding poll_flush
flush_runs = refl

poll_flush_frame_example :
    (flushed_stream.sending ≡ false)
    × (ws_stream.sending ≡ true
        → (flushed_stream.frames ≡ ws_stream.frames)
          × (flushed_stream.write_buf ≡ ws_stream.write_buf))
    × (ws_stream.sending ≡ false
        → ws_stream.write_buf ≡ []
        → (flushed_stream.frames ≡ ws_stream.frames) × (flushed_stream.write_buf ≡ []))
    × (ws_stream.sending ≡ false
        → ws_stream.write_buf ≢ []
        → (flushed_stream.frames ≡ ws_stream.frames ++ (ws_stream.write_buf ∷ []))
          × (flushed_stream.write_buf ≡ []))
poll_flush_frame_example = poll_flush_frame ws_stream flushed_stream flush_runs
