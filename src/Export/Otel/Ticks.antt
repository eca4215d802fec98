-- ===== src/Export/Otel/Ticks.antt =====
-- otel_executor.go: a tick of the loop that `Initialize` starts, and the headers.
use aerospike_prometheus_exp.Base.{
  ℕ, List, [], ◌∷◌, ◌++◌, Option, none, some, Bytes, bytes, Map, insert,
}
use aerospike_prometheus_exp.Config.{Outcome, done, ◌>>=◌}
use aerospike_prometheus_exp.Env.{Env}
use aerospike_prometheus_exp.Commons.Secrets.{Sources}
use aerospike_prometheus_exp.Commons.Certificates.{Crypto}
use aerospike_prometheus_exp.Stats.Shared.{SharedState}
use aerospike_prometheus_exp.Stats.Metric.{AerospikeStat}
use aerospike_prometheus_exp.Refresher.{Refreshed, refresh, run_go}
use aerospike_prometheus_exp.Refresher.Provider.{DataProvider}
use aerospike_prometheus_exp.Refresher.State.{Refresher}
use aerospike_prometheus_exp.Host.Files.{Host}
use aerospike_prometheus_exp.Host.Processor.{refresh_system_info}
use aerospike_prometheus_exp.Export.Otel.{
  Meter, Instruments, metric_context_separator, get_common_labels, handle_aerospike_metrics,
  process_and_push_stats,
}

-- The executor's fields that a tick changes.
pub record OtelExecutor (S F I : Type 0) : Type 0 where
  pub refresher : Refresher S F
  pub instruments : Instruments I
  pub refresh_counter : ℕ

abbrev copy_all : Map Bytes → Map Bytes → Map Bytes
copy_all [] headers = headers
copy_all ((k, v) ∷ m) headers = copy_all m (insert k v headers)

module _ (env : Env) (meter : Meter env.Float) (host : Host (env.Float)) (sources : Sources)
    (crypto : Crypto) (data_provider : DataProvider) where
  open env use {cfg, Float, range}
  open meter use {Int64}
  open data_provider use {Session, Error}

  unfoldable pub read_headers : Map Bytes
  read_headers = copy_all (range Bytes cfg.agent.otel.headers) []

  unfoldable pub node_up_metric_name : Bytes
  unfolding metric_context_separator
  node_up_metric_name =
      let otel = cfg.agent.otel in
      otel.metric_name_prefix
      ++ (metric_context_separator otel.metric_context_separator ++ bytes "node_up")

  unfoldable pub handle_system_info_metrics :
      Map Bytes → SharedState → Instruments Int64 → Outcome (Instruments Int64)
  handle_system_info_metrics common shared o =
      run_go (refresh_system_info env host shared) >>= λ stats.
      process_and_push_stats env meter common stats o

  abbrev result_of :
      Refreshed env sources crypto data_provider → Option (List (AerospikeStat Float))
  result_of out = elim out.err [ none ↦ some out.stats | some e ↦ none ]

  -- What a tick at the time `now` does: the server's metrics, and then the host's.
  unfoldable pub on_tick :
      ℕ → OtelExecutor Session Float Int64 → Outcome (OtelExecutor Session Float Int64)
  unfolding handle_system_info_metrics node_up_metric_name
  on_tick now oe = do
    out ← refresh env sources crypto data_provider now oe.refresher
    let shared : SharedState = out.refresher.shared
    let common : Map Bytes = get_common_labels env meter
    pushed ←
        handle_aerospike_metrics env meter node_up_metric_name common shared (result_of out)
          oe.instruments oe.refresh_counter
    instruments ← handle_system_info_metrics common shared pushed.0
    done (record {
      refresher = out.refresher;
      instruments = instruments;
      refresh_counter = pushed.1;
    })
