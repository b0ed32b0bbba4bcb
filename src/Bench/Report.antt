-- ===== src/Bench/Report.antt =====
-- The report of a run (src/bench/stats.rs: `Report`), as a table and as JSON.
pub mod Value
pub mod Reading
pub mod RoundTrip
use pulsemq_cli.Base.{
  ℕ, zero, suc, ◌+◌, ◌-◌, Bool, true, false, Option, none, some, List, [], ◌∷◌, ◌++◌, Bytes, text,
  decimal, replicate, length, if◌then◌else◌,
}
use pulsemq_cli.Mqtt.{ReasonCode}
use pulsemq_cli.Error.{hex_upper}
use pulsemq_cli.Cli.{unwrap_or}
use pulsemq_cli.Bench.Float.{Float}
use pulsemq_cli.Bench.Stats.{Summary, Counters, success}
use pulsemq_cli.Bench.Report.Value.{
  Json, null, boolean, number, real, string, array, object, Fields, no_fields, field, Items,
  no_items, item,
}

pub record ReportConfig (F : Type 0) : Type 0 where
  pub publishers : ℕ
  pub subscribers : ℕ
  pub qos : ℕ
  pub payload_size : ℕ
  pub inflight : ℕ
  pub rate : Option F
  pub topic_prefix : Bytes

-- `elapsed` in nanoseconds.
pub record Report (F : Type 0) : Type 0 where
  pub config : ReportConfig F
  pub elapsed : ℕ
  pub totals : Counters
  pub task_failures : List Bytes
  pub ack : Option Summary
  pub end_to_end : Option Summary
  pub end_to_end_disabled : Bool

-- `{s:>width}` and `{s:<width}`
abbrev pad_left : ℕ → Bytes → Bytes
pad_left width s = replicate (width - length s) b' ' ++ s

abbrev pad_right : ℕ → Bytes → Bytes
pad_right width s = s ++ replicate (width - length s) b' '

abbrev writeln : Bytes → Bytes → Bytes
writeln out line = out ++ (line ++ (10 ∷ []))

abbrev padded : ℕ → Bytes
padded n = pad_left 12 (decimal n)

refused_rows : Bytes → List (ReasonCode × ℕ) → Bytes
refused_rows out [] = out
refused_rows out ((code, count) ∷ rows) =
    refused_rows
      (writeln out (text "  refused 0x" ++ (hex_upper code ++ (text "     " ++ padded count)))) rows

failure_rows : Bytes → List Bytes → Bytes
failure_rows out [] = out
failure_rows out (failure ∷ rows) =
    failure_rows (writeln out (text "  task failed: " ++ failure)) rows

abbrev disabled_reason : Bool → Option Bytes
disabled_reason true = some (text "payload too small for the measurement header")
disabled_reason false = none

module _ {F : Type 0} where
  pub summary_json : Option Summary → Json F
  summary_json (some s) = object (
      field (text "count") (number s.count) (
        field (text "min_ns") (number s.min_ns) (
          field (text "p50_ns") (number s.p50_ns) (
            field (text "p95_ns") (number s.p95_ns) (
              field (text "p99_ns") (number s.p99_ns) (
                field (text "max_ns") (number s.max_ns)
                  (field (text "mean_ns") (number s.mean_ns) no_fields)))))))
  summary_json none = null

  pub refused_json : List (ReasonCode × ℕ) → Fields F
  refused_json [] = no_fields
  refused_json ((code, count) ∷ rest) =
      field (text "0x" ++ hex_upper code) (number count) (refused_json rest)

  pub texts_json : List Bytes → Items F
  texts_json [] = no_items
  texts_json (t ∷ ts) = item (string t) (texts_json ts)

  abbrev pub rate_json : Option F → Json F
  rate_json (some r) = real r
  rate_json none = null

  abbrev pub config_json : ReportConfig F → Json F
  config_json c = object (
      field (text "publishers") (number c.publishers) (
        field (text "subscribers") (number c.subscribers) (
          field (text "qos") (number c.qos) (
            field (text "payload_size") (number c.payload_size) (
              field (text "inflight") (number c.inflight) (
                field (text "rate") (rate_json c.rate)
                  (field (text "topic_prefix") (string c.topic_prefix) no_fields)))))))

  unfoldable pub counters_json : Counters → Json F
  unfolding refused_json
  counters_json t = object (
      field (text "published") (number t.published) (
        field (text "acknowledged") (number t.acknowledged) (
          field (text "received") (number t.received) (
            field (text "bytes_sent") (number t.bytes_sent) (
              field (text "bytes_received") (number t.bytes_received) (
                field (text "publish_errors") (number t.publish_errors)
                  (field (text "refused") (object (refused_json t.refused)) no_fields)))))))

module _ {F : Type 0} (f : Float F) where
  pub per_second : ℕ → ℕ → F
  per_second count elapsed =
      let secs = f.as_secs elapsed in
      if f.at_most secs f.zero then f.zero else f.div (f.of_nat count) secs

  abbrev pub publish_rate : Report F → F
  unfolding per_second
  publish_rate r = per_second r.totals.published r.elapsed

  abbrev pub receive_rate : Report F → F
  unfolding per_second
  receive_rate r = per_second r.totals.received r.elapsed

  -- The rows of a latency section.
  latency_rows : Bytes → List (Bytes × ℕ) → Bytes
  latency_rows out [] = out
  latency_rows out ((name, value) ∷ rows) =
      latency_rows
        (writeln out (
          text "  "
          ++ (pad_right 4 name
              ++ (text " "
                  ++ (pad_left 10 (f.fixed 3 (f.div (f.of_nat value) f.million)) ++ text " ms")))))
        rows

  pub write_latency : Bytes → Bytes → Option Summary → Option Bytes → Bytes
  unfolding latency_rows
  write_latency out label (some s) why =
      latency_rows (writeln out (label ++ (text " (" ++ (decimal s.count ++ text " samples)")))) (
        (text "min", s.min_ns)
        ∷ (text "p50", s.p50_ns)
        ∷ (text "p95", s.p95_ns)
        ∷ (text "p99", s.p99_ns)
        ∷ (text "max", s.max_ns)
        ∷ (text "mean", s.mean_ns)
        ∷ [])
  write_latency out label none why =
      writeln out
        (label ++ (text ": not measured (" ++ (unwrap_or why (text "no samples") ++ text ")")))

  abbrev offered : Option F → Bytes
  offered (some r) = f.display r ++ text " msg/s offered"
  offered none = text "unthrottled"

  config_line : ReportConfig F → Bytes
  config_line c =
      text "config: "
      ++ (decimal c.publishers
          ++ (text " publishers, "
              ++ (decimal c.subscribers
                  ++ (text " subscribers, QoS "
                      ++ (decimal c.qos
                          ++ (text ", "
                              ++ (decimal c.payload_size
                                  ++ (text " B payload, inflight "
                                      ++ (decimal c.inflight
                                          ++ (text ", "
                                              ++ (offered c.rate
                                                  ++ (text ", prefix " ++ c.topic_prefix))))))))))))

  abbrev rated : ℕ → F → Bytes
  rated n rate = padded n ++ (text "  (" ++ (f.fixed 0 rate ++ text "/s)"))

  counter_rows : Report F → Bytes → Bytes
  unfolding per_second
  counter_rows r out =
      let out =
        writeln out (text "  published       " ++ rated r.totals.published (publish_rate r)) in
      let out = writeln out (text "  acknowledged    " ++ padded r.totals.acknowledged) in
      let out =
        writeln out (text "  received        " ++ rated r.totals.received (receive_rate r)) in
      let out = writeln out (text "  bytes sent      " ++ padded r.totals.bytes_sent) in
      let out = writeln out (text "  bytes received  " ++ padded r.totals.bytes_received) in
      writeln out (text "  publish errors  " ++ padded r.totals.publish_errors)

  pub to_table : Report F → Bytes
  unfolding config_line counter_rows refused_rows failure_rows write_latency
  to_table r =
      let out = writeln [] (config_line r.config) in
      let out = writeln out (text "elapsed:  " ++ (f.fixed 3 (f.as_secs r.elapsed) ++ text " s")) in
      let out = counter_rows r (writeln out []) in
      let out = failure_rows (refused_rows out r.totals.refused) r.task_failures in
      let out = write_latency (writeln out []) (text "ack latency") r.ack none in
      write_latency out (text "end-to-end latency") r.end_to_end
        (disabled_reason r.end_to_end_disabled)

  -- The value that `to_json` prints.
  unfoldable pub report_json : Report F → Json F
  unfolding summary_json texts_json per_second refused_json
  report_json r = object (
      field (text "config") (config_json r.config) (
        field (text "elapsed_secs") (real (f.as_secs r.elapsed)) (
          field (text "counters") (counters_json r.totals) (
            field (text "throughput")
              (object (
                field (text "published_per_sec") (real (publish_rate r))
                  (field (text "received_per_sec") (real (receive_rate r)) no_fields)))
              (field (text "latency")
                (object (
                  field (text "ack") (summary_json r.ack) (
                    field (text "end_to_end") (summary_json r.end_to_end) (
                      field (text "end_to_end_disabled") (boolean r.end_to_end_disabled)
                        no_fields))))
                (field (text "task_failures") (array (texts_json r.task_failures)) (
                  field (text "success") (boolean (success r.task_failures r.totals))
                    no_fields)))))))
