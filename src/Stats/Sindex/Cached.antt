-- ===== src/Stats/Sindex/Cached.antt =====
-- The cache of secondary index metrics does not show in what is sent.
use aerospike_prometheus_exp.Base.{
  refl, List, [], Bytes, Map, get_string, Go, ok, panic, ◌>>=◌, for_each, Bool, true, false,
  if◌then◌else◌,
}
use aerospike_prometheus_exp.Env.{Env}
use aerospike_prometheus_exp.Commons.ParseStats.{parse_stats}
use aerospike_prometheus_exp.Commons.Convert.{try_convert}
use aerospike_prometheus_exp.Stats.Shared.{SharedState}
use aerospike_prometheus_exp.Stats.Metric.{AerospikeStat, sindex}
use aerospike_prometheus_exp.Stats.Cache.{
  Sending, make, fresh_converted, IsCoherent, Agrees, send_converted-Agrees, for_each-Agrees,
}
use aerospike_prometheus_exp.Stats.Sindex.{
  sindex_labels, sindex_label_values, get_namespace_and_sindex_name, send_sindex_stat, send_sindex,
  refresh,
}

module _ (env : Env) (shared : SharedState) where
  open env use {cfg, Float, range}

  abbrev pub recipe : Bytes → Go (AerospikeStat Float)
  recipe stat = make env sindex stat stat

  fresh_sindex_stat :
      Bytes × Bytes → Bytes × Bytes → List (AerospikeStat Float) → Go (List (AerospikeStat Float))
  fresh_sindex_stat (ns, name) (stat, value) sent =
      fresh_converted env sindex stat stat (try_convert env value) sindex_labels
        (sindex_label_values env shared ns name) sent

  fresh_sindex : Map Bytes → Bytes → List (AerospikeStat Float) → Go (List (AerospikeStat Float))
  unfolding fresh_sindex_stat
  fresh_sindex raw_metrics key sent = get_namespace_and_sindex_name key >>= λ names.
      for_each (fresh_sindex_stat names)
        (range Bytes (parse_stats (get_string key raw_metrics) b';')) sent

  -- Every numeric or Boolean statistic of every index asked for, named and filtered afresh.
  unfoldable pub refresh_uncached : List Bytes → Map Bytes → Go (List (AerospikeStat Float))
  unfolding fresh_sindex
  refresh_uncached info_keys raw_metrics =
      if cfg.aerospike.disable_sindex_metrics
      then ok []
      else for_each (fresh_sindex raw_metrics) info_keys []

  send_sindex_stat-Agrees :
      (names kv : Bytes × Bytes) (st : Sending Float)
      → IsCoherent env recipe st.cache
      → Agrees env recipe
          (send_sindex_stat env shared names kv st)
          (fresh_sindex_stat names kv st.sent)
  unfolding send_sindex_stat fresh_sindex_stat
  send_sindex_stat-Agrees (ns, name) (stat, value) st c =
      send_converted-Agrees env recipe sindex stat stat stat (try_convert env value) sindex_labels
        (sindex_label_values env shared ns name) st refl c

  send_sindex-Agrees :
      (raw_metrics : Map Bytes) (key : Bytes) (st : Sending Float)
      → IsCoherent env recipe st.cache
      → Agrees env recipe
          (send_sindex env shared raw_metrics key st)
          (fresh_sindex raw_metrics key st.sent)
  unfolding send_sindex fresh_sindex
  send_sindex-Agrees raw_metrics key st c = go (get_namespace_and_sindex_name key)
    where
      entries : Map Bytes
      entries = range Bytes (parse_stats (get_string key raw_metrics) b';')

      go :
          (names : Go (Bytes × Bytes))
          → Agrees env recipe
              (names >>= λ n. for_each (send_sindex_stat env shared n) entries st)
              (names >>= λ n. for_each (fresh_sindex_stat n) entries st.sent)
      go (ok n) =
          for_each-Agrees env recipe (send_sindex_stat env shared n) (fresh_sindex_stat n)
            (send_sindex_stat-Agrees n) entries st c
      go panic = tt

  -- From a cache whose entries are what would be made afresh, a refresh sends exactly what one
  -- without a cache sends, in the same order, or panics where that does, and leaves such a cache;
  -- where secondary index metrics are disabled both send nothing.
  pub refresh-eq-uncached_sindex :
      (info_keys : List Bytes) (raw_metrics : Map Bytes) (cache : Map (AerospikeStat Float))
      → IsCoherent env recipe cache
      → Agrees env recipe
          (refresh env shared info_keys raw_metrics cache)
          (refresh_uncached info_keys raw_metrics)
  unfolding refresh refresh_uncached
  refresh-eq-uncached_sindex info_keys raw_metrics cache c = go cfg.aerospike.disable_sindex_metrics
    where
      start : Sending Float
      start = record { cache = cache; sent = [] }

      go :
          (off : Bool)
          → Agrees env recipe
              (if off
                then ok start
                else for_each (send_sindex env shared raw_metrics) info_keys start)
              (if off then ok [] else for_each (fresh_sindex raw_metrics) info_keys [])
      go true = (refl, c)
      go false =
          for_each-Agrees env recipe (send_sindex env shared raw_metrics) (fresh_sindex raw_metrics)
            (send_sindex-Agrees raw_metrics) info_keys start c
