-- ===== src/Stats/Sindex/Labelled.antt =====
-- The labels of the secondary indexes' metrics.
use aerospike_prometheus_exp.Base.{
  ◌≡◌, refl, subst, Bool, true, false, List, [], Bytes, Map, get_string, ok, ok-injective,
  >>=-eq-ok, for_each, for_each_inv, if◌then◌else◌,
}
use aerospike_prometheus_exp.Env.{Env}
use aerospike_prometheus_exp.Commons.ParseStats.{parse_stats}
use aerospike_prometheus_exp.Commons.Convert.{try_convert}
use aerospike_prometheus_exp.Stats.Shared.{SharedState}
use aerospike_prometheus_exp.Stats.Metric.{AerospikeStat, sindex}
use aerospike_prometheus_exp.Stats.Cache.{Sending}
use aerospike_prometheus_exp.Stats.Cache.Labelled.{AreLabelled, send_converted-AreLabelled}
use aerospike_prometheus_exp.Stats.Sindex.{
  sindex_labels, sindex_label_values, get_namespace_and_sindex_name, send_sindex_stat, send_sindex,
  refresh,
}

module _ (env : Env) (shared : SharedState) where
  open env use {cfg, Float, range}

  send_sindex_stat-AreLabelled :
      (names x : Bytes × Bytes) (st u : Sending Float)
      → AreLabelled env st
      → send_sindex_stat env shared names x st ≡ ok u
      → AreLabelled env u
  unfolding send_sindex_stat
  send_sindex_stat-AreLabelled (ns, name) (stat, value) st u h e =
      send_converted-AreLabelled env sindex stat stat stat (try_convert env value) sindex_labels
        (sindex_label_values env shared ns name) st u refl h e

  send_sindex-AreLabelled :
      (raw_metrics : Map Bytes) (key : Bytes) (st u : Sending Float)
      → AreLabelled env st
      → send_sindex env shared raw_metrics key st ≡ ok u
      → AreLabelled env u
  unfolding send_sindex
  send_sindex-AreLabelled raw_metrics key st u h e =
      let (names, _, e') = >>=-eq-ok (get_namespace_and_sindex_name key) _ e in
      for_each_inv (AreLabelled env) (send_sindex_stat env shared names)
        (send_sindex_stat-AreLabelled names)
        (range Bytes (parse_stats (get_string key raw_metrics) b';')) st h e'

  pub refresh-AreLabelled :
      (info_keys : List Bytes) (raw_metrics : Map Bytes) (cache : Map (AerospikeStat Float))
      (u : Sending Float)
      → refresh env shared info_keys raw_metrics cache ≡ ok u
      → AreLabelled env u
  unfolding refresh
  refresh-AreLabelled info_keys raw_metrics cache u e = go cfg.aerospike.disable_sindex_metrics e
    where
      start : Sending Float
      start = record { cache = cache; sent = [] }

      go :
          (off : Bool)
          → (if off
              then ok start
              else for_each (send_sindex env shared raw_metrics) info_keys start)
            ≡ ok u
          → AreLabelled env u
      go true q = subst (AreLabelled env) (ok-injective q) tt
      go false q =
          for_each_inv (AreLabelled env) (send_sindex env shared raw_metrics)
            (send_sindex-AreLabelled raw_metrics) info_keys start tt q
