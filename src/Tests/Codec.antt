-- ===== src/Tests/Codec.antt =====
-- Payload header, terminal output, arguments.
use pulsemq_cli.Base.{◌≡◌, some, arith}
use pulsemq_cli.Bench.Payload.{Header, build, decode}
use pulsemq_cli.Bench.Payload.Laws.{decode-build}

abbrev pub header : Header
header = record { elapsed_ns = 1234567890; publisher = 7; seq = 42 }

decode-build_example : decode (build 64 header) ≡ some header
decode-build_example = decode-build 64 header (omega arith)
