-- ===== src/Stats/Sindex.antt =====
-- sp_sindex.go: the statistics of secondary indexes.
pub mod Names
pub mod Cached
pub mod Labelled
use aerospike_prometheus_exp.Base.{
  ◌≡◌, Bool, true, false, List, [], ◌∷◌, ◌++◌, Option, none, some, Bytes, bytes, Map, get_string,
  split, nonempty, Go, ok, ◌>>=◌, index, for_each, if◌then◌else◌,
}
use aerospike_prometheus_exp.Env.{Env}
use aerospike_prometheus_exp.Commons.ParseStats.{parse_stats}
use aerospike_prometheus_exp.Commons.Convert.{try_convert}
use aerospike_prometheus_exp.Stats.Shared.{SharedState}
use aerospike_prometheus_exp.Stats.Metric.{
  AerospikeStat, sindex, label_cluster_name, label_service, label_ns, label_sindex,
}
use aerospike_prometheus_exp.Stats.Cache.{Sending, send_converted}

abbrev pub key_sindex_command : Bytes
key_sindex_command = bytes "sindex-list:"

-- One command for each index whose description names a namespace.
unfoldable pub get_sindex_commands : List Bytes → List Bytes
get_sindex_commands [] = []
get_sindex_commands (meta ∷ metas) =
    let stats = parse_stats meta b':' in
    let rest = get_sindex_commands metas in
    if nonempty (get_string (bytes "ns") stats)
    then (bytes "sindex-stat:namespace="
        ++ (get_string (bytes "ns") stats
            ++ (bytes ";indexname=" ++ get_string (bytes "indexname") stats)))
      ∷ rest
    else rest

-- Splitting a key that is not such a command may run out of pieces, and panic.
unfoldable pub get_namespace_and_sindex_name : Bytes → Go (Bytes × Bytes)
get_namespace_and_sindex_name key = do
  infos ← index (split b':' key) 1
  ns ← index (split b';' infos) 0
  ns_name ← index (split b'=' ns) 1
  idx ← index (split b';' infos) 1
  sindex_name ← index (split b'=' idx) 1
  ok (ns_name, sindex_name)

abbrev pub sindex_labels : List Bytes
sindex_labels = label_cluster_name ∷ label_service ∷ label_ns ∷ label_sindex ∷ []

module _ (env : Env) (shared : SharedState) where
  open env use {cfg, Float, range}

  unfoldable pub pass_one_keys : List Bytes
  pass_one_keys = if cfg.aerospike.disable_sindex_metrics then [] else key_sindex_command ∷ []

  unfoldable pub pass_two_keys : Map Bytes → List Bytes
  unfolding get_sindex_commands
  pass_two_keys pass_one_stats =
      if cfg.aerospike.disable_sindex_metrics
      then []
      else get_sindex_commands (split b';' (get_string key_sindex_command pass_one_stats))

  abbrev pub sindex_label_values : Bytes → Bytes → List Bytes
  sindex_label_values ns name = shared.cluster_name ∷ shared.service ∷ ns ∷ name ∷ []

  send_sindex_stat : Bytes × Bytes → Bytes × Bytes → Sending Float → Go (Sending Float)
  send_sindex_stat (ns, name) (stat, value) st =
      send_converted env sindex stat stat stat (try_convert env value) sindex_labels
        (sindex_label_values ns name) st

  send_sindex : Map Bytes → Bytes → Sending Float → Go (Sending Float)
  unfolding send_sindex_stat
  send_sindex raw_metrics key st = get_namespace_and_sindex_name key >>= λ names.
      for_each (send_sindex_stat names)
        (range Bytes (parse_stats (get_string key raw_metrics) b';')) st

  -- `Refresh`, from the processor's cache
  unfoldable pub refresh : List Bytes → Map Bytes → Map (AerospikeStat Float) → Go (Sending Float)
  unfolding send_sindex
  refresh info_keys raw_metrics cache =
      if cfg.aerospike.disable_sindex_metrics
      then ok (record { cache = cache; sent = [] })
      else for_each (send_sindex raw_metrics) info_keys (record { cache = cache; sent = [] })
