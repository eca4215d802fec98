-- ===== src/Tests/Exported.antt =====
-- Metrics with their labels, and what leaves the exporter.
use aerospike_prometheus_exp.Base.{
  ℕ, ◌≡◌, ◌↔◌, ◌⊎◌, refl, true, false, [], ◌∷◌, ◌++◌, Option, some, Bytes, bytes, Map, All, split,
  split_n2, lookup, insert, delete, equal, contains, has_prefix, replace_all, to_lower, get_string,
}
use aerospike_prometheus_exp.Config.{done}
use aerospike_prometheus_exp.Commons.ParseStats.{parse_stats}
use aerospike_prometheus_exp.Commons.Convert.{try_convert}
use aerospike_prometheus_exp.Stats.Metric.{AerospikeStat, namespace, gauge, context_name}
use aerospike_prometheus_exp.Stats.Filter.{
  is_metric_allowed, new_aerospike_stat, loop_patterns, get_metric_type, is_gauge,
}
use aerospike_prometheus_exp.Stats.Cache.{send, get_or_create}
use aerospike_prometheus_exp.Stats.Cache.Labelled.{AreLabelled}
use aerospike_prometheus_exp.Stats.Benchmarks.{is_stat_latency_hist_related}
use aerospike_prometheus_exp.Stats.Namespace.{
  NamespaceState, refresh_namespace_stats, send_namespace_value, note_re_repl,
  note_namespace_benchmark, pass_two_keys, key_metadata,
}
use aerospike_prometheus_exp.Stats.Namespace.Naming.{name_stat, handle_array_stats, add_type_label}
use aerospike_prometheus_exp.Stats.Namespace.Arrays.{check_stat_persistance_type, find_array_stat}
use aerospike_prometheus_exp.Stats.Namespace.Labelled.{refresh_namespace_stats-IsLabelled}
use aerospike_prometheus_exp.Stats.Namespace.Maps.{HasMap, pass_two_keys-HasMap}
use aerospike_prometheus_exp.Export.Prometheus.{
  handle_metrics, serve_metrics, handle_metrics-serves,
}
use aerospike_prometheus_exp.Export.Otel.{
  Meter, Instruments, push_stat, process_and_push_stats, construct_metric_key, qualified_name,
  pair_labels, is_counter, store, store_gauge,
}
use aerospike_prometheus_exp.Export.Otel.Values.{
  Pushed, none_allowed, push_stat-Pushed, process_and_push_stats-none_allowed,
}
use aerospike_prometheus_exp.Tests.{env, shared, result_or, outcome_or}

abbrev namespace_answer : Map Bytes
namespace_answer =
    (
      bytes "namespace/test",
      bytes
          "objects=5;storage-engine.file[0].age=3;storage-engine.file[0]=/opt/a;storage-engine=device",
    )
    ∷ []

abbrev namespace_state : NamespaceState ℕ
namespace_state = record {
  sending = record { cache = []; sent = [] };
  flash = false;
  sc_status = [];
  benchmarks = (bytes "test", []) ∷ [];
}

abbrev namespace_sent : NamespaceState ℕ
namespace_sent =
    result_or namespace_state
      (refresh_namespace_stats env shared (bytes "namespace/test") namespace_answer namespace_state)

refresh_namespace_stats-IsLabelled_example : AreLabelled env namespace_sent.sending
unfolding refresh_namespace_stats parse_stats try_convert lookup insert delete equal split split_n2
    contains has_prefix replace_all send send_namespace_value get_or_create is_metric_allowed
    new_aerospike_stat get_metric_type is_gauge context_name to_lower note_re_repl
    note_namespace_benchmark name_stat handle_array_stats add_type_label check_stat_persistance_type
    find_array_stat is_stat_latency_hist_related loop_patterns
refresh_namespace_stats-IsLabelled_example =
    refresh_namespace_stats-IsLabelled env shared (bytes "namespace/test") namespace_answer
      namespace_state namespace_sent tt refl

pass_two_keys-HasMap_example :
    All
      (HasMap (pass_two_keys true true [] [] ((key_metadata, bytes "test;bar") ∷ [])).1)
      (split b';' (get_string key_metadata ((key_metadata, bytes "test;bar") ∷ [])))
pass_two_keys-HasMap_example =
    pass_two_keys-HasMap true true [] [] ((key_metadata, bytes "test;bar") ∷ [])

abbrev meter : Meter ℕ
meter = record {
  Int64 = ℕ;
  of_bool = λ b. elim b [ true ↦ 1 | false ↦ 0 ];
  of_float = λ x. x;
  creates = λ name. true;
}

abbrev objects : AerospikeStat ℕ
objects = record {
  context = namespace;
  name = bytes "objects";
  m_type = gauge;
  is_allowed = false;
  is_config = false;
  value = 5;
  labels = bytes "service" ∷ bytes "ns" ∷ [];
  label_values = bytes "10.0.0.1" ∷ bytes "test" ∷ [];
}

abbrev no_instruments : Instruments ℕ
no_instruments = record { gauges = []; counters = [] }

abbrev pushed : Instruments ℕ
pushed = outcome_or no_instruments (push_stat env meter [] objects no_instruments)

push_stat-Pushed_example :
    (ls : Map Bytes) × (pair_labels env meter objects.labels objects.label_values ≡ done ls)
    × Pushed env meter
        (is_counter env meter objects.m_type)
        (construct_metric_key (qualified_name env meter objects) (ls ++ []))
        (meter.of_float objects.value)
        no_instruments
        pushed
unfolding push_stat store_gauge store lookup insert equal pair_labels
push_stat-Pushed_example = push_stat-Pushed env meter [] objects no_instruments pushed refl

process_and_push_stats-none_allowed_example :
    process_and_push_stats env meter []
      (none_allowed env meter (objects ∷ objects ∷ []))
      no_instruments
    ≡ process_and_push_stats env meter [] (objects ∷ objects ∷ []) no_instruments
process_and_push_stats-none_allowed_example =
    process_and_push_stats-none_allowed env meter [] (objects ∷ objects ∷ []) no_instruments

abbrev credentials : Option (Bytes × Bytes)
credentials = some (bytes "prom", bytes "pw")

handle_metrics-serves_example :
    (handle_metrics credentials (bytes "prom") (bytes "pw") ≡ serve_metrics)
    ↔ ((bytes "prom" ≡ []) ⊎ (credentials ≡ some (bytes "prom", bytes "pw")))
handle_metrics-serves_example = handle_metrics-serves credentials (bytes "prom") (bytes "pw")
