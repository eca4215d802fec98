-- ===== src/Export/Otel.antt =====
-- otel_metrics.go and otel_executor.go: the instruments of OpenTelemetry, and when they are exported.
pub mod Values
pub mod Ticks
use aerospike_prometheus_exp.Base.{
  ℕ, suc, ◌≡◌, Bool, true, false, ◌&&◌, List, [], ◌∷◌, ◌++◌, Option, none, some, Bytes, bytes, Map,
  lookup, insert, get_string, equal, nonempty, leb, if◌then◌else◌,
}
use aerospike_prometheus_exp.Config.{Outcome, done, fatal, panics, ◌>>=◌, no_instrument}
use aerospike_prometheus_exp.Env.{Env}
use aerospike_prometheus_exp.Stats.Metric.{
  AerospikeStat, MetricType, gauge, counter, context_name, label_cluster_name, label_service,
}
use aerospike_prometheus_exp.Stats.Shared.{SharedState}
use aerospike_prometheus_exp.Export.Names.{normalize_metric}

-- The OpenTelemetry SDK's and Go's part: int64, the conversion to it, and whether an instrument of
-- a name can be made and its callback registered.
pub record Meter (F : Type 0) : Type 1 where
  pub Int64 : Type 0
  pub of_bool : Bool → Int64
  pub of_float : F → Int64
  pub creates : Bytes → Bool

-- `GaugeMetrics` and `CounterMetrics`: an instrument that observes `value` with these labels.
pub record Metered (I : Type 0) : Type 0 where
  pub name : Bytes
  pub desc : Bytes
  pub labels : Map Bytes
  pub value : I

pub record Instruments (I : Type 0) : Type 0 where
  pub gauges : Map (Metered I)
  pub counters : Map (Metered I)

unfoldable pub metric_context_separator : Bytes → Bytes
metric_context_separator s =
    if equal s (bytes "period")
    then bytes "."
    else if equal s (bytes "underscore")
    then bytes "_"
    else []

unfoldable pub label_keys : Map Bytes → Bytes
label_keys [] = []
label_keys ((k, v) ∷ ls) = bytes "|" ++ (k ++ (bytes "=" ++ (v ++ label_keys ls)))

unfoldable pub construct_metric_key : Bytes → Map Bytes → Bytes
unfolding label_keys
construct_metric_key name ls = name ++ label_keys ls

pub data Temporality : Type 0 where
  delta cumulative : Temporality

-- `true` for an observable counter
unfoldable pub get_temporality_selector : Bytes → Bool → Temporality
get_temporality_selector configured is_counter =
    if is_counter && equal configured (bytes "delta") then delta else cumulative

-- Whether `Export` hands the metrics on: not until the third refresh of a reachable server.
unfoldable pub exports : Bool → ℕ → Bool
exports connected refreshes = if connected && leb refreshes 2 then false else true

module _ (env : Env) (meter : Meter env.Float) where
  open env use {cfg, Float, range}
  open meter use {Int64, of_bool, of_float, creates}

  unfoldable pub get_renamed_label : Bytes → Bytes
  get_renamed_label label = elim (lookup label cfg.agent.otel.renamed_labels) [
    | some name ↦ name
    | none ↦ label
  ]

  unfoldable pub get_common_labels : Map Bytes
  get_common_labels = elim cfg.agent.metric_labels [ none ↦ [] | some m ↦ range Bytes m ]

  found_or_made :
      Bytes → Bytes → Map Bytes → Int64 → Option (Metered Int64) → Outcome (Metered Int64)
  found_or_made name desc ls v (some gd) = done (record gd { value = v })
  found_or_made name desc ls v none =
      if creates name
      then done (record { name = name; desc = desc; labels = ls; value = v })
      else fatal no_instrument

  -- `getGaugeMetric`, `getCounterMetric` or `getNodeUpGaugeMetric`, and the value that is stored
  -- next. An instrument that is found keeps its name and labels.
  unfoldable pub store :
      Bytes
      → Bytes
      → Bytes
      → Map Bytes
      → Int64
      → Map (Metered Int64)
      → Outcome (Map (Metered Int64))
  unfolding found_or_made
  store key name desc ls v m =
      found_or_made name desc ls v (lookup key m) >>= λ gd. done (insert key gd m)

  unfoldable pub store_gauge :
      Bytes → Bytes → Map Bytes → Int64 → Instruments Int64 → Outcome (Instruments Int64)
  unfolding store construct_metric_key
  store_gauge name desc ls v o =
      store (construct_metric_key name ls) name desc ls v o.gauges >>= λ m.
      done (record { gauges = m; counters = o.counters })

  unfoldable pub store_counter :
      Bytes → Bytes → Map Bytes → Int64 → Instruments Int64 → Outcome (Instruments Int64)
  unfolding store construct_metric_key
  store_counter name desc ls v o =
      store (construct_metric_key name ls) name desc ls v o.counters >>= λ m.
      done (record { gauges = o.gauges; counters = m })

  unfoldable pub qualified_name : AerospikeStat Float → Bytes
  unfolding metric_context_separator normalize_metric context_name
  qualified_name stat =
      let sep = metric_context_separator cfg.agent.otel.metric_context_separator in
      cfg.agent.otel.metric_name_prefix
      ++ (sep ++ (context_name stat.context ++ (sep ++ normalize_metric stat.name)))

  -- A label without a value panics; values without a label are not looked at.
  unfoldable pub pair_labels : List Bytes → List Bytes → Outcome (Map Bytes)
  unfolding get_renamed_label
  pair_labels [] values = done []
  pair_labels (l ∷ ls) [] = panics
  pair_labels (l ∷ ls) (v ∷ vs) = pair_labels ls vs >>= λ m. done ((get_renamed_label l, v) ∷ m)

  abbrev pub is_counter : MetricType → Bool
  is_counter counter = if cfg.agent.otel.all_metrics_as_gauge then false else true
  is_counter gauge = false

  abbrev pub description : AerospikeStat Float → Bytes
  description stat = normalize_metric (bytes "description_" ++ stat.name)

  store_stat :
      AerospikeStat Float → Map Bytes → Instruments Int64 → Bool → Outcome (Instruments Int64)
  store_stat stat ls o true =
      store_counter (qualified_name stat) (description stat) ls (of_float stat.value) o
  store_stat stat ls o false =
      store_gauge (qualified_name stat) (description stat) ls (of_float stat.value) o

  -- A round of `processAndPushStats`.
  unfoldable pub push_stat :
      Map Bytes → AerospikeStat Float → Instruments Int64 → Outcome (Instruments Int64)
  unfolding store_stat
  push_stat common stat o = pair_labels stat.labels stat.label_values >>= λ ls.
      store_stat stat (ls ++ common) o (is_counter stat.m_type)

  unfoldable pub process_and_push_stats :
      Map Bytes → List (AerospikeStat Float) → Instruments Int64 → Outcome (Instruments Int64)
  process_and_push_stats common [] o = done o
  process_and_push_stats common (stat ∷ stats) o =
      push_stat common stat o >>= process_and_push_stats common stats

  unfoldable pub send_node_up :
      Bytes → Map Bytes → Bool → Instruments Int64 → Outcome (Instruments Int64)
  unfolding store_gauge
  send_node_up name ls up o =
      store_gauge name (bytes "Aerospike node active status") ls (of_bool up) o

  abbrev pub server_labels : SharedState → Map Bytes
  server_labels shared =
      (get_renamed_label label_cluster_name, shared.cluster_name)
      ∷ (get_renamed_label label_service, shared.service)
      ∷ (get_renamed_label (bytes "build"), shared.build)
      ∷ (get_renamed_label (bytes "node_id"), shared.node_id)
      ∷ []

  abbrev pub is_identified : SharedState → Bool
  is_identified shared =
      nonempty shared.node_id && (nonempty shared.cluster_name && nonempty shared.service)

  -- What a refresh does, given its result, `none` for an error, and the shared state that it
  -- leaves: the instruments, and the counter of refreshes in a row that succeeded.
  unfoldable pub handle_aerospike_metrics :
      Bytes
      → Map Bytes
      → SharedState
      → Option (List (AerospikeStat Float))
      → Instruments Int64
      → ℕ
      → Outcome (Instruments Int64 × ℕ)
  unfolding send_node_up process_and_push_stats
  handle_aerospike_metrics node_up common shared none o refreshes =
      send_node_up node_up (if is_identified shared then common ++ server_labels shared else common)
        false o
      >>= λ o'. done (o', 0)
  handle_aerospike_metrics node_up common shared (some stats) o refreshes =
      send_node_up node_up (common ++ server_labels shared) true o >>= λ up.
      process_and_push_stats common stats up >>= λ o'. done (o', suc refreshes)
