-- ===== src/Export/Scrape.antt =====
-- internal/pkg/executors/prometheus.go: what a scrape of Prometheus gets.
pub mod Served
pub mod Complete
use aerospike_prometheus_exp.Base.{
  ℕ, suc, ◌+◌, ◌≡◌, refl, Bool, true, false, List, [], ◌∷◌, ◌++◌, Option, none, some, Bytes, bytes,
  Go, ok, panic, map,
}
use aerospike_prometheus_exp.Config.{Outcome, done, fatal, panics, ◌>>=◌}
use aerospike_prometheus_exp.Env.{Env}
use aerospike_prometheus_exp.Commons.Secrets.{Sources}
use aerospike_prometheus_exp.Commons.Certificates.{Crypto}
use aerospike_prometheus_exp.Stats.Shared.{SharedState}
use aerospike_prometheus_exp.Stats.Metric.{AerospikeStat, MetricType, gauge}
use aerospike_prometheus_exp.Refresher.{Refreshed, refresh, run_go}
use aerospike_prometheus_exp.Refresher.Provider.{DataProvider}
use aerospike_prometheus_exp.Refresher.State.{Refresher}
use aerospike_prometheus_exp.Host.Files.{Host}
use aerospike_prometheus_exp.Host.Processor.{refresh_system_info}
use aerospike_prometheus_exp.Export.Prometheus.{Desc, push_all}

-- What is written into the channel: the counter of scrapes, and samples.
pub data Emitted (Sample : Type 0) : Type 0 where
  ticks : ℕ → Emitted Sample
  sample : Sample → Emitted Sample

-- The counter of `PrometheusImpl`, and its refresher with the shared state.
pub record PrometheusImpl (S F : Type 0) : Type 0 where
  pub scrapes : ℕ
  pub refresher : Refresher S F

-- `must_new_const_metric` is of the Prometheus client, `none` where it panics.
module _ (env : Env) (host : Host (env.Float)) (sources : Sources) (crypto : Crypto)
    (data_provider : DataProvider) {Sample : Type 0}
    (must_new_const_metric : Desc → MetricType → env.Float → List Bytes → Option Sample) where
  open env use {cfg, Float, of_nat}
  open data_provider use {Session, Error}

  abbrev pub node_active_desc : Desc
  node_active_desc = record {
    name = bytes "aerospike_node_up";
    help = bytes "Aerospike node active status";
    variable_labels = bytes "cluster_name" ∷ bytes "service" ∷ bytes "build" ∷ bytes "node_id" ∷ [];
    const_labels = cfg.agent.metric_labels;
  }

  -- `aerospike_node_up`, whose creation is not recovered from.
  unfoldable pub node_up : ℕ → SharedState → Option Sample
  node_up v shared =
      must_new_const_metric node_active_desc gauge (of_nat v)
        (shared.cluster_name ∷ shared.service ∷ shared.build ∷ shared.node_id ∷ [])

  -- What is sent, and the state after.
  abbrev pub Collected : Type 0
  Collected = List (Emitted Sample) × PrometheusImpl Session Float

  or_panic : Option Sample → Outcome Sample
  or_panic none = panics
  or_panic (some s) = done s

  after_refresh : ℕ → Refreshed env sources crypto data_provider → Option Error → Outcome Collected
  unfolding or_panic node_up
  after_refresh n out (some e) = or_panic (node_up 0 out.refresher.shared) >>= λ down.
      done (ticks n ∷ sample down ∷ [], record { scrapes = n; refresher = out.refresher })
  after_refresh n out none = do
    up ← or_panic (node_up 1 out.refresher.shared)
    system ← run_go (refresh_system_info env host out.refresher.shared)
    done (
      ticks n
          ∷ sample up
          ∷ map sample (
              push_all env must_new_const_metric out.stats
              ++ push_all env must_new_const_metric system),
      record { scrapes = n; refresher = out.refresher },
    )

  -- `Collect`, at the time `now`
  unfoldable pub collect : ℕ → PrometheusImpl Session Float → Outcome Collected
  unfolding after_refresh
  collect now o = refresh env sources crypto data_provider now o.refresher >>= λ out.
      after_refresh (suc o.scrapes) out out.err
