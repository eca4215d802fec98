-- ===== src/Stats/Sets/Labelled.antt =====
-- The labels of the sets' metrics.
use aerospike_prometheus_exp.Base.{◌≡◌, refl, [], Bytes, Map, get_string, split, ok, for_each_inv}
use aerospike_prometheus_exp.Env.{Env}
use aerospike_prometheus_exp.Commons.ParseStats.{parse_stats}
use aerospike_prometheus_exp.Commons.Convert.{try_convert}
use aerospike_prometheus_exp.Stats.Shared.{SharedState}
use aerospike_prometheus_exp.Stats.Metric.{AerospikeStat, sets}
use aerospike_prometheus_exp.Stats.Cache.{Sending}
use aerospike_prometheus_exp.Stats.Cache.Labelled.{AreLabelled, send_converted-AreLabelled}
use aerospike_prometheus_exp.Stats.Sets.{
  key_sets, set_labels, set_label_values, send_set_stat, send_set, refresh,
}

module _ (env : Env) (shared : SharedState) where
  open env use {Float, range}

  send_set_stat-AreLabelled :
      (stats : Map Bytes) (x : Bytes × Bytes) (st u : Sending Float)
      → AreLabelled env st
      → send_set_stat env shared stats x st ≡ ok u
      → AreLabelled env u
  unfolding send_set_stat
  send_set_stat-AreLabelled stats (stat, value) st u h e =
      send_converted-AreLabelled env sets stat stat stat (try_convert env value) set_labels
        (set_label_values env shared stats) st u refl h e

  send_set-AreLabelled :
      (s : Bytes) (st u : Sending Float)
      → AreLabelled env st
      → send_set env shared s st ≡ ok u
      → AreLabelled env u
  unfolding send_set
  send_set-AreLabelled s st u h e =
      let stats = parse_stats s b':' in
      for_each_inv (AreLabelled env) (send_set_stat env shared stats)
        (send_set_stat-AreLabelled stats) (range Bytes stats) st h e

  pub refresh-AreLabelled :
      (raw_metrics : Map Bytes) (cache : Map (AerospikeStat Float)) (u : Sending Float)
      → refresh env shared raw_metrics cache ≡ ok u
      → AreLabelled env u
  unfolding refresh
  refresh-AreLabelled raw_metrics cache u e =
      for_each_inv (AreLabelled env) (send_set env shared) send_set-AreLabelled
        (split b';' (get_string key_sets raw_metrics)) (record { cache = cache; sent = [] }) tt e
