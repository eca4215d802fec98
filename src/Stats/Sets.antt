-- ===== src/Stats/Sets.antt =====
-- sp_sets.go: the statistics of sets.
pub mod Cached
pub mod Labelled
use aerospike_prometheus_exp.Base.{
  ◌≡◌, List, [], ◌∷◌, Option, none, some, Bytes, bytes, Map, get_string, split, Go, ok, for_each,
}
use aerospike_prometheus_exp.Env.{Env}
use aerospike_prometheus_exp.Commons.ParseStats.{parse_stats}
use aerospike_prometheus_exp.Commons.Convert.{try_convert}
use aerospike_prometheus_exp.Stats.Shared.{SharedState}
use aerospike_prometheus_exp.Stats.Metric.{
  AerospikeStat, sets, label_cluster_name, label_service, label_ns, label_set,
}
use aerospike_prometheus_exp.Stats.Cache.{Sending, send_converted}

abbrev pub key_sets : Bytes
key_sets = bytes "sets"

abbrev pub pass_one_keys : List Bytes
pass_one_keys = []

abbrev pub pass_two_keys : Map Bytes → List Bytes
pass_two_keys pass_one_stats = key_sets ∷ []

abbrev pub set_labels : List Bytes
set_labels = label_cluster_name ∷ label_service ∷ label_ns ∷ label_set ∷ []

module _ (env : Env) (shared : SharedState) where
  open env use {Float, range}

  abbrev pub set_label_values : Map Bytes → List Bytes
  set_label_values stats =
      shared.cluster_name
      ∷ shared.service
      ∷ get_string (bytes "ns") stats
      ∷ get_string (bytes "set") stats
      ∷ []

  -- The inner loop's body, where the statistics of the set are `stats`.
  send_set_stat : Map Bytes → Bytes × Bytes → Sending Float → Go (Sending Float)
  send_set_stat stats (stat, value) st =
      send_converted env sets stat stat stat (try_convert env value) set_labels
        (set_label_values stats) st

  send_set : Bytes → Sending Float → Go (Sending Float)
  unfolding send_set_stat
  send_set s st =
      let stats = parse_stats s b':' in for_each (send_set_stat stats) (range Bytes stats) st

  -- `Refresh`, from the processor's cache
  unfoldable pub refresh : Map Bytes → Map (AerospikeStat Float) → Go (Sending Float)
  unfolding send_set
  refresh raw_metrics cache =
      for_each send_set (split b';' (get_string key_sets raw_metrics))
        (record { cache = cache; sent = [] })
