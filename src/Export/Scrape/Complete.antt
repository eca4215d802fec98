-- ===== src/Export/Scrape/Complete.antt =====
-- A whole scrape, over the refresh, the host and the client.
use aerospike_prometheus_exp.Base.{
  ℕ, suc, ◌≡◌, refl, Bool, true, false, List, ◌∷◌, ◌++◌, Option, none, some, Bytes, ok, map, arith,
}
use aerospike_prometheus_exp.Config.{done, panics}
use aerospike_prometheus_exp.Env.{Env}
use aerospike_prometheus_exp.Commons.Secrets.{Sources}
use aerospike_prometheus_exp.Commons.Certificates.{Crypto}
use aerospike_prometheus_exp.Stats.Metric.{AerospikeStat, MetricType, gauge}
use aerospike_prometheus_exp.Refresher.{Refreshed, refresh}
use aerospike_prometheus_exp.Refresher.Provider.{DataProvider}
use aerospike_prometheus_exp.Refresher.Labelled.{stats-refresh-AreLabelled}
use aerospike_prometheus_exp.Host.Files.{Host}
use aerospike_prometheus_exp.Host.Processor.{refresh_system_info}
use aerospike_prometheus_exp.Host.Processor.Labelled.{refresh_system_info-AreLabelled}
use aerospike_prometheus_exp.Export.Prometheus.{Desc, push_all}
use aerospike_prometheus_exp.Export.Scrape
use aerospike_prometheus_exp.Export.Scrape.{
  ticks, sample, PrometheusImpl, node_up, node_active_desc, collect,
}
use aerospike_prometheus_exp.Export.Scrape.Served.{
  all_valid, identity, IsClient, Served, Served-++, push_all-Served,
}

module _ (env : Env) (host : Host (env.Float)) (sources : Sources) (crypto : Crypto)
    (data_provider : DataProvider) {Sample : Type 0} (valid_desc : Desc → Bool)
    (must_new_const_metric : Desc → MetricType → env.Float → List Bytes → Option Sample) where
  open env use {Float}
  open data_provider use {Session}

  abbrev Result : Type 0
  Result = Refreshed env sources crypto data_provider

  abbrev active_desc : Desc
  active_desc = node_active_desc env host sources crypto data_provider must_new_const_metric

  -- Where the Prometheus client makes a sample of exactly the descriptions without an error with as
  -- many values as labels, all of them UTF-8, and panics on all else: a scrape whose refresh has no
  -- error and whose reading of the host does not panic, with the description of `aerospike_node_up`
  -- without an error and the node's identity UTF-8, ends. It sends the counter of scrapes, the sample
  -- that the node is up, and then, in their order, the samples of the server's metrics and of the
  -- host's: one for each metric that is allowed, has a description without an error and values in
  -- UTF-8, made of its own description, kind, value and labels' values, and none for another.
  pub collect_complete :
      (now : ℕ) (o : PrometheusImpl Session Float) (out : Result)
      (system : List (AerospikeStat Float))
      → IsClient env valid_desc must_new_const_metric
      → refresh env sources crypto data_provider now o.refresher ≡ done out
      → out.err ≡ none
      → refresh_system_info env host out.refresher.shared ≡ ok system
      → valid_desc (node_active_desc env host sources crypto data_provider must_new_const_metric)
        ≡ true
      → all_valid (identity out.refresher.shared) ≡ true
      → (up : Sample) × (rest : List Sample) × (node_up env host sources crypto data_provider
            must_new_const_metric 1 out.refresher.shared
          ≡ some up)
        × (collect env host sources crypto data_provider must_new_const_metric now o
            ≡ done (
              ticks (suc o.scrapes) ∷ sample up ∷ map sample rest,
              record { scrapes = suc o.scrapes; refresher = out.refresher },
            ))
        × Served env valid_desc must_new_const_metric (out.stats ++ system) rest
  unfolding collect node_up Scrape.after_refresh Scrape.or_panic
  collect_complete now o out system client ran fine read described utf8 =
      let shared = out.refresher.shared in
      let (up, e) =
        (client active_desc gauge (env.of_nat 1) (identity shared)).0 (rw (described, utf8) refl) in
      (
        up,
        push_all env must_new_const_metric out.stats ++ push_all env must_new_const_metric system,
        e,
        rw (ran, fine, e, read) refl,
        Served-++ env valid_desc must_new_const_metric
            (push_all-Served env valid_desc must_new_const_metric client out.stats
              (stats-refresh-AreLabelled env sources crypto data_provider now o.refresher ran))
            (push_all-Served env valid_desc must_new_const_metric client system
              (refresh_system_info-AreLabelled env host shared system read)),
      )

  -- Where the Prometheus client makes a sample of exactly the descriptions without an error with as
  -- many values as labels, all of them UTF-8, and panics on all else: a scrape panics if its refresh,
  -- with an error or without, leaves a cluster's name, a service, a build or a node that is not UTF-8.
  pub collect-identity-panics :
      (now : ℕ) (o : PrometheusImpl Session Float) (out : Result)
      → IsClient env valid_desc must_new_const_metric
      → refresh env sources crypto data_provider now o.refresher ≡ done out
      → all_valid (identity out.refresher.shared) ≡ false
      → collect env host sources crypto data_provider must_new_const_metric now o ≡ panics
  unfolding collect node_up Scrape.after_refresh Scrape.or_panic
  collect-identity-panics now o out client ran broken = rw (ran) (ends out.err)
    where
      refused :
          (n : ℕ)
          → must_new_const_metric active_desc gauge (env.of_nat n) (identity out.refresher.shared)
            ≡ none
      refused n =
          (client active_desc gauge (env.of_nat n) (identity out.refresher.shared)).1
            (ground (arith, broken))

      ends :
          (e : Option data_provider.Error)
          → Scrape.after_refresh env host sources crypto data_provider must_new_const_metric
              (suc o.scrapes)
              out
              e
            ≡ panics
      ends none = rw (refused 1) refl
      ends (some e) = rw (refused 0) refl
