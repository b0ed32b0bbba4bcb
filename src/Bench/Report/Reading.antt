-- ===== src/Bench/Report/Reading.antt =====
-- Reading a JSON report back.
use pulsemq_cli.Base.{
  ℕ, ◌+◌, ◌-◌, ◌*◌, Bool, Option, none, some, List, [], ◌∷◌, Bytes, text, bytes_eq, ltb,
  if◌then◌else◌,
}
use pulsemq_cli.Mqtt.{ReasonCode}
use pulsemq_cli.Bench.Stats.{Summary, Counters}
use pulsemq_cli.Bench.Report.{ReportConfig}
use pulsemq_cli.Bench.Report.Value.{
  Json, null, boolean, number, real, string, array, object, Fields, no_fields, field, Items,
  no_items, item,
}

infixl 5 ◌>>=◌
abbrev pub ◌>>=◌ : {A B : Type 0} → Option A → (A → Option B) → Option B
none >>= f = none
some a >>= f = f a

-- The value of a hexadecimal digit in upper case.
abbrev pub digit_value : ℕ → ℕ
digit_value d = if ltb d 58 then d - 48 else d - 55

-- The code of a key `0x..`.
abbrev pub code_of : Bytes → Option ReasonCode
code_of (zero_digit ∷ x ∷ high ∷ low ∷ []) = some (digit_value high * 16 + digit_value low)
code_of _ = none

module _ {F : Type 0} where
  abbrev pub member : Bytes → Fields F → Option (Json F)
  member key no_fields = none
  member key (field k v rest) =
      let later = member key rest in if bytes_eq key k then some v else later

  abbrev pub get : Bytes → Json F → Option (Json F)
  get key (object fields) = member key fields
  get key _ = none

  abbrev as_number : Json F → Option ℕ
  as_number (number n) = some n
  as_number _ = none

  abbrev as_real : Json F → Option F
  as_real (real x) = some x
  as_real _ = none

  abbrev as_boolean : Json F → Option Bool
  as_boolean (boolean b) = some b
  as_boolean _ = none

  abbrev as_string : Json F → Option Bytes
  as_string (string s) = some s
  as_string _ = none

  -- A value that may be null.
  abbrev pub as_option : {A : Type 0} → (Json F → Option A) → Json F → Option (Option A)
  as_option read null = some none
  as_option read j = read j >>= λ a. some (some a)

  abbrev number_at : Bytes → Json F → Option ℕ
  number_at key j = get key j >>= as_number

  unfoldable pub read_summary : Json F → Option Summary
  read_summary j = do
    count ← number_at (text "count") j
    min_ns ← number_at (text "min_ns") j
    p50_ns ← number_at (text "p50_ns") j
    p95_ns ← number_at (text "p95_ns") j
    p99_ns ← number_at (text "p99_ns") j
    max_ns ← number_at (text "max_ns") j
    mean_ns ← number_at (text "mean_ns") j
    some (record {
      count = count;
      min_ns = min_ns;
      p50_ns = p50_ns;
      p95_ns = p95_ns;
      p99_ns = p99_ns;
      max_ns = max_ns;
      mean_ns = mean_ns;
    })

  unfoldable pub read_refused : Fields F → Option (List (ReasonCode × ℕ))
  read_refused no_fields = some []
  read_refused (field key v rest) = code_of key >>= λ code.
      as_number v >>= λ count. read_refused rest >>= λ more. some ((code, count) ∷ more)

  abbrev as_fields : Json F → Option (Fields F)
  as_fields (object fields) = some fields
  as_fields _ = none

  unfoldable pub read_texts : Items F → Option (List Bytes)
  read_texts no_items = some []
  read_texts (item j rest) = as_string j >>= λ t. read_texts rest >>= λ ts. some (t ∷ ts)

  abbrev as_texts : Json F → Option (List Bytes)
  unfolding read_texts
  as_texts (array items) = read_texts items
  as_texts _ = none

  unfoldable pub read_counters : Json F → Option Counters
  unfolding read_refused
  read_counters j = do
    published ← number_at (text "published") j
    acknowledged ← number_at (text "acknowledged") j
    received ← number_at (text "received") j
    bytes_sent ← number_at (text "bytes_sent") j
    bytes_received ← number_at (text "bytes_received") j
    publish_errors ← number_at (text "publish_errors") j
    refused ← get (text "refused") j >>= as_fields >>= read_refused
    some (record {
      published = published;
      acknowledged = acknowledged;
      received = received;
      bytes_sent = bytes_sent;
      bytes_received = bytes_received;
      publish_errors = publish_errors;
      refused = refused;
    })

  unfoldable pub read_config : Json F → Option (ReportConfig F)
  read_config j = do
    publishers ← number_at (text "publishers") j
    subscribers ← number_at (text "subscribers") j
    qos ← number_at (text "qos") j
    payload_size ← number_at (text "payload_size") j
    inflight ← number_at (text "inflight") j
    rate ← get (text "rate") j >>= as_option as_real
    topic_prefix ← get (text "topic_prefix") j >>= as_string
    some (record {
      publishers = publishers;
      subscribers = subscribers;
      qos = qos;
      payload_size = payload_size;
      inflight = inflight;
      rate = rate;
      topic_prefix = topic_prefix;
    })

-- All that a reader finds in a report.
pub record JsonReport (F : Type 0) : Type 0 where
  pub config : ReportConfig F
  pub elapsed_secs : F
  pub totals : Counters
  pub published_per_sec : F
  pub received_per_sec : F
  pub ack : Option Summary
  pub end_to_end : Option Summary
  pub end_to_end_disabled : Bool
  pub task_failures : List Bytes
  pub is_success : Bool

module _ {F : Type 0} where
  unfoldable pub read_report : Json F → Option (JsonReport F)
  unfolding read_config read_counters read_summary read_texts
  read_report j = do
    config ← get (text "config") j >>= read_config
    elapsed_secs ← get (text "elapsed_secs") j >>= as_real
    totals ← get (text "counters") j >>= read_counters
    throughput ← get (text "throughput") j
    published_per_sec ← get (text "published_per_sec") throughput >>= as_real
    received_per_sec ← get (text "received_per_sec") throughput >>= as_real
    latency ← get (text "latency") j
    ack ← get (text "ack") latency >>= as_option read_summary
    end_to_end ← get (text "end_to_end") latency >>= as_option read_summary
    end_to_end_disabled ← get (text "end_to_end_disabled") latency >>= as_boolean
    task_failures ← get (text "task_failures") j >>= as_texts
    is_success ← get (text "success") j >>= as_boolean
    some (record {
      config = config;
      elapsed_secs = elapsed_secs;
      totals = totals;
      published_per_sec = published_per_sec;
      received_per_sec = received_per_sec;
      ack = ack;
      end_to_end = end_to_end;
      end_to_end_disabled = end_to_end_disabled;
      task_failures = task_failures;
      is_success = is_success;
    })
