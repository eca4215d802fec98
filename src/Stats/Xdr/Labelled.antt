-- ===== src/Stats/Xdr/Labelled.antt =====
-- The labels of the metrics of cross-datacenter replication.
use aerospike_prometheus_exp.Base.{
  ◌≡◌, refl, List, [], ◌∷◌, ◌++◌, Bytes, Map, get_string, length, ok, for_each_inv,
}
use aerospike_prometheus_exp.Env.{Env}
use aerospike_prometheus_exp.Commons.ParseStats.{parse_stats}
use aerospike_prometheus_exp.Commons.Convert.{try_convert}
use aerospike_prometheus_exp.Stats.Shared.{SharedState}
use aerospike_prometheus_exp.Stats.Metric.{AerospikeStat, xdr}
use aerospike_prometheus_exp.Stats.Cache.{Sending}
use aerospike_prometheus_exp.Stats.Cache.Labelled.{AreLabelled, send_converted-AreLabelled}
use aerospike_prometheus_exp.Stats.Xdr.{
  xdr_labels, xdr_label_values, construct_metric_name_prefix, send_xdr_stat, handle_refresh,
  refresh,
}

module _ (env : Env) (shared : SharedState) where
  open env use {Float, range}

  paired : (dc ns : Bytes) → length (xdr_labels ns) ≡ length (xdr_label_values env shared dc ns)
  paired dc [] = refl
  paired dc (c ∷ ns) = refl

  send_xdr_stat-AreLabelled :
      (names : Bytes × Bytes × Bytes) (x : Bytes × Bytes) (st u : Sending Float)
      → AreLabelled env st
      → send_xdr_stat env shared names x st ≡ ok u
      → AreLabelled env u
  unfolding send_xdr_stat
  send_xdr_stat-AreLabelled (dc, ns, prefix) (stat, value) st u h e =
      send_converted-AreLabelled env xdr stat stat (prefix ++ stat) (try_convert env value)
        (xdr_labels ns) (xdr_label_values env shared dc ns) st u (paired dc ns) h e

  handle_refresh-AreLabelled :
      (raw_metrics : Map Bytes) (key : Bytes) (st u : Sending Float)
      → AreLabelled env st
      → handle_refresh env shared raw_metrics key st ≡ ok u
      → AreLabelled env u
  unfolding handle_refresh
  handle_refresh-AreLabelled raw_metrics key st u h e =
      let names = construct_metric_name_prefix key in
      for_each_inv (AreLabelled env) (send_xdr_stat env shared names)
        (send_xdr_stat-AreLabelled names)
        (range Bytes (parse_stats (get_string key raw_metrics) b';')) st h e

  pub refresh-AreLabelled :
      (info_keys : List Bytes) (raw_metrics : Map Bytes) (cache : Map (AerospikeStat Float))
      (u : Sending Float)
      → refresh env shared info_keys raw_metrics cache ≡ ok u
      → AreLabelled env u
  unfolding refresh
  refresh-AreLabelled info_keys raw_metrics cache u e =
      for_each_inv (AreLabelled env) (handle_refresh env shared raw_metrics)
        (handle_refresh-AreLabelled raw_metrics) info_keys (record { cache = cache; sent = [] }) tt
        e
