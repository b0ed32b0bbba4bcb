-- ===== src/Bench/Report/RoundTrip.antt =====
-- The figures of a JSON report are those of the run.
use pulsemq_cli.Base.{
  ℕ, ◌<◌, Option, none, some, List, [], ◌∷◌, ◌++◌, Bytes, text, All, ◌≡◌, refl, arith,
}
use pulsemq_cli.Mqtt.{ReasonCode}
use pulsemq_cli.Error.{hex_upper}
use pulsemq_cli.Bench.Float.{Float}
use pulsemq_cli.Bench.Stats.{Summary, Counters, success}
use pulsemq_cli.Bench.Report.{
  Report, ReportConfig, publish_rate, receive_rate, summary_json, refused_json, texts_json,
  report_json, config_json, counters_json,
}
use pulsemq_cli.Bench.Report.Reading.{
  code_of, as_option, read_summary, read_refused, read_texts, read_counters, read_config,
  JsonReport, read_report,
}

digits_lem : (code : ℕ) → code < 256 → code_of (text "0x" ++ hex_upper code) ≡ some code
unfolding hex_upper text
digits_lem code h = ground arith

module _ (F : Type 0) where
  refused_lem :
      (refused : List (ReasonCode × ℕ))
      → All (λ r. r.0 < 256) refused
      → read_refused (refused_json {F = F} refused) ≡ some refused
  unfolding read_refused refused_json
  refused_lem [] h = refl
  refused_lem ((code, count) ∷ rest) h = rw (digits_lem code h.0, refused_lem rest h.1) refl

  texts_lem : (ts : List Bytes) → read_texts (texts_json {F = F} ts) ≡ some ts
  unfolding read_texts texts_json
  texts_lem [] = refl
  texts_lem (t ∷ ts) = rw (texts_lem ts) refl

  summary_lem : (s : Summary) → read_summary (summary_json {F = F} (some s)) ≡ some s
  unfolding read_summary summary_json text
  summary_lem s = refl

module _ {F : Type 0} (f : Float F) where
  -- What the run measured.
  abbrev pub measured : Report F → JsonReport F
  measured r = record {
    config = r.config;
    elapsed_secs = f.as_secs r.elapsed;
    totals = r.totals;
    published_per_sec = publish_rate f r;
    received_per_sec = receive_rate f r;
    ack = r.ack;
    end_to_end = r.end_to_end;
    end_to_end_disabled = r.end_to_end_disabled;
    task_failures = r.task_failures;
    is_success = success r.task_failures r.totals;
  }

  config_lem : (c : ReportConfig F) → read_config (config_json c) ≡ some c
  unfolding read_config text
  config_lem c =
      elim c.rate
        as (λ rate.
          read_config (config_json (record c { rate = rate })) ≡ some (record c { rate = rate })) [
            | none ↦ refl
            | some r ↦ refl
          ]

  counters_lem :
      (t : Counters)
      → All (λ r. r.0 < 256) t.refused
      → read_counters (counters_json {F = F} t) ≡ some t
  unfolding read_counters text counters_json
  counters_lem t h = rw (refused_lem F t.refused h) refl

  optional_lem : (s : Option Summary) → as_option read_summary (summary_json {F = F} s) ≡ some s
  unfolding summary_json
  optional_lem none = refl
  optional_lem (some s) = rw (summary_lem F s) refl

  -- From the JSON of a report whose refusals have codes of a byte, every figure, rate, failure and
  -- the verdict can be read back under its name.
  pub report_json-read :
      (r : Report F)
      → All (λ e. e.0 < 256) r.totals.refused
      → read_report (report_json f r) ≡ some (measured r)
  unfolding read_report report_json text
  report_json-read r h =
      simp
        (
          config_lem r.config,
          counters_lem r.totals h,
          optional_lem r.ack,
          optional_lem r.end_to_end,
          texts_lem F r.task_failures,
        )
        refl
