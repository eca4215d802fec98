-- ===== src/Stats/Sets/Cached.antt =====
-- The cache of set metrics does not show in what is sent.
use aerospike_prometheus_exp.Base.{refl, List, [], Bytes, Map, get_string, split, Go, for_each}
use aerospike_prometheus_exp.Env.{Env}
use aerospike_prometheus_exp.Commons.ParseStats.{parse_stats}
use aerospike_prometheus_exp.Commons.Convert.{try_convert}
use aerospike_prometheus_exp.Stats.Shared.{SharedState}
use aerospike_prometheus_exp.Stats.Metric.{AerospikeStat, sets}
use aerospike_prometheus_exp.Stats.Cache.{
  Sending, make, fresh_converted, IsCoherent, Agrees, send_converted-Agrees, for_each-Agrees,
}
use aerospike_prometheus_exp.Stats.Sets.{
  key_sets, set_labels, set_label_values, send_set_stat, send_set, refresh,
}

module _ (env : Env) (shared : SharedState) where
  open env use {Float, range}

  -- What is made for a statistic, and filtered, by its own name.
  abbrev pub recipe : Bytes → Go (AerospikeStat Float)
  recipe stat = make env sets stat stat

  fresh_set_stat :
      Map Bytes → Bytes × Bytes → List (AerospikeStat Float) → Go (List (AerospikeStat Float))
  fresh_set_stat stats (stat, value) sent =
      fresh_converted env sets stat stat (try_convert env value) set_labels
        (set_label_values env shared stats) sent

  fresh_set : Bytes → List (AerospikeStat Float) → Go (List (AerospikeStat Float))
  unfolding fresh_set_stat
  fresh_set s sent =
      let stats = parse_stats s b':' in for_each (fresh_set_stat stats) (range Bytes stats) sent

  -- Every numeric or Boolean statistic of every set, named and filtered afresh, under the labels of
  -- its set.
  unfoldable pub refresh_uncached : Map Bytes → Go (List (AerospikeStat Float))
  unfolding fresh_set
  refresh_uncached raw_metrics =
      for_each fresh_set (split b';' (get_string key_sets raw_metrics)) []

  send_set_stat-Agrees :
      (stats : Map Bytes) (kv : Bytes × Bytes) (st : Sending Float)
      → IsCoherent env recipe st.cache
      → Agrees env recipe (send_set_stat env shared stats kv st) (fresh_set_stat stats kv st.sent)
  unfolding send_set_stat fresh_set_stat
  send_set_stat-Agrees stats (stat, value) st c =
      send_converted-Agrees env recipe sets stat stat stat (try_convert env value) set_labels
        (set_label_values env shared stats) st refl c

  -- From a cache whose entries are what would be made afresh, as the empty one's are, a refresh
  -- sends exactly what one without a cache sends, in the same order, or panics where that does, and
  -- leaves such a cache.
  pub refresh-eq-uncached_sets :
      (raw_metrics : Map Bytes) (cache : Map (AerospikeStat Float))
      → IsCoherent env recipe cache
      → Agrees env recipe (refresh env shared raw_metrics cache) (refresh_uncached raw_metrics)
  unfolding refresh refresh_uncached
  refresh-eq-uncached_sets raw_metrics cache c =
      for_each-Agrees env recipe (send_set env shared) fresh_set
        (λ s st k.
          for_each-Agrees env recipe (send_set_stat env shared (parse_stats s b':'))
            (fresh_set_stat (parse_stats s b':')) (send_set_stat-Agrees (parse_stats s b':')) _ st
            k)
        (split b';' (get_string key_sets raw_metrics)) (record { cache = cache; sent = [] }) c
