-- ===== src/Stats/Latencies.antt =====
-- sp_latency.go: which latency histograms are asked for, and the metrics made of them.
pub mod Labelled
use aerospike_prometheus_exp.Base.{
  ℕ, zero, suc, ◌+◌, ◌≡◌, Bool, true, false, not, ◌&&◌, ◌||◌, List, [], ◌∷◌, ◌++◌, Option, none,
  some, Bytes, bytes, Map, get_string, equal, any, nonempty, trim_space, Go, ok, panic, ◌>>=◌,
  index, for_each, if◌then◌else◌,
}
use aerospike_prometheus_exp.Env.{Env}
use aerospike_prometheus_exp.Stats.Shared.{SharedState}
use aerospike_prometheus_exp.Stats.Metric.{
  AerospikeStat, latencies, update_values, label_cluster_name, label_service, label_le, label_ns,
}
use aerospike_prometheus_exp.Stats.Filter.{is_build_version_greater_than_or_equal}
use aerospike_prometheus_exp.Stats.Cache.{make}
use aerospike_prometheus_exp.Latency.Parser.{
  LatencyStats, Latencies, parse_latency_info, parse_latency_info_legacy,
}

abbrev pub key_latencies : Bytes
key_latencies = bytes "latencies:"

abbrev pub key_latency : Bytes
key_latency = bytes "latency:"

-- `labels` and the same with the namespace's, where there is one
abbrev pub with_namespace : Bytes → List Bytes → Bytes → List Bytes
with_namespace ns xs x = if nonempty (trim_space ns) then xs ++ x ∷ [] else xs

hist_commands : Map Bytes → List Bytes
hist_commands [] = []
hist_commands ((stat, command) ∷ m) = (bytes "latencies:hist=" ++ command) ∷ hist_commands m

module _ (env : Env) (shared : SharedState) where
  open env use {cfg, Float, range}

  namespace_commands : Map (Map Bytes) → List Bytes
  unfolding hist_commands
  namespace_commands [] = []
  namespace_commands ((ns, m) ∷ rest) = hist_commands (range Bytes m) ++ namespace_commands rest

  unfoldable pub get_latencies_commands : List Bytes
  unfolding namespace_commands
  get_latencies_commands =
      key_latencies
      ∷ (namespace_commands (range (Map Bytes) shared.namespace_latency_benchmarks)
          ++ hist_commands (range Bytes shared.service_latency_benchmarks))

  unfoldable pub pass_two_keys : Map Bytes → List Bytes
  unfolding get_latencies_commands
  pass_two_keys pass_one_stats =
      if cfg.aerospike.disable_latencies_metrics
      then []
      else (elim (is_build_version_greater_than_or_equal env
          (get_string (bytes "build") pass_one_stats) (bytes "5.1.0.0")) [
            | none ↦ []
            | some true ↦ get_latencies_commands
            | some false ↦ key_latency ∷ []
          ])

  -- The lists of the configuration choose among the operations.
  unfoldable pub is_operation_allowed : Bytes → Bool
  is_operation_allowed op =
      let filter = cfg.aerospike.latencies_metrics in
      (not filter.allowlist_enabled || any (equal op) filter.allowlist)
      && (not (nonempty filter.blocklist) || not (any (equal op) filter.blocklist))

  latency_stat : Bytes → Float → List Bytes → List Bytes → Go (AerospikeStat Float)
  latency_stat name v ls lvs = make env latencies name name >>= λ m. ok (update_values v ls lvs m)

  -- The bucket `i`, whose label is `le`.
  bucket_stat : Bytes → Bytes → LatencyStats Float → ℕ → Bytes → Go (AerospikeStat Float)
  unfolding latency_stat
  bucket_stat ns op stats i le = index stats.bucket_values i >>= λ pv.
      latency_stat (op ++ (bytes "_" ++ (stats.time_unit ++ bytes "_bucket"))) pv
        (with_namespace ns (label_cluster_name ∷ label_service ∷ label_le ∷ []) label_ns)
        (with_namespace ns (shared.cluster_name ∷ shared.service ∷ le ∷ []) ns)

  -- The first bucket is the count as well.
  count_stat : Bytes → Bytes → LatencyStats Float → Go (AerospikeStat Float)
  unfolding latency_stat
  count_stat ns op stats = index stats.bucket_values 0 >>= λ pv.
      latency_stat (op ++ (bytes "_" ++ (stats.time_unit ++ bytes "_count"))) pv
        (with_namespace ns (label_cluster_name ∷ label_service ∷ []) label_ns)
        (with_namespace ns (shared.cluster_name ∷ shared.service ∷ []) ns)

  -- What the buckets from `i` on, whose labels are given, add.
  unfoldable pub send_buckets :
      Bytes
      → Bytes
      → LatencyStats Float
      → ℕ
      → List Bytes
      → List (AerospikeStat Float)
      → Go (List (AerospikeStat Float))
  unfolding bucket_stat count_stat
  send_buckets ns op stats i [] sent = ok sent
  send_buckets ns op stats zero (le ∷ les) sent = do
    bucket ← bucket_stat ns op stats 0 le
    count ← count_stat ns op stats
    send_buckets ns op stats 1 les (sent ++ bucket ∷ count ∷ [])
  send_buckets ns op stats (suc i) (le ∷ les) sent = do
    bucket ← bucket_stat ns op stats (suc i) le
    send_buckets ns op stats (suc (suc i)) les (sent ++ bucket ∷ [])

  send_operation :
      Bytes
      → Bytes × LatencyStats Float
      → List (AerospikeStat Float)
      → Go (List (AerospikeStat Float))
  unfolding is_operation_allowed send_buckets
  send_operation ns (op, stats) sent =
      if is_operation_allowed op
      then send_buckets ns op stats 0 stats.bucket_labels sent
      else ok sent

  send_namespace :
      Bytes × Map (LatencyStats Float)
      → List (AerospikeStat Float)
      → Go (List (AerospikeStat Float))
  unfolding send_operation
  send_namespace (ns, ops) sent = for_each (send_operation ns) (range (LatencyStats Float) ops) sent

  read_latencies : Bytes → Map Bytes → Go (Latencies Float)
  read_latencies key raw_metrics =
      if nonempty (get_string key_latencies raw_metrics)
      then parse_latency_info env cfg.aerospike.latency_buckets_count (get_string key raw_metrics)
      else parse_latency_info_legacy env cfg.aerospike.latency_buckets_count
          (get_string key_latency raw_metrics)

  unfoldable pub parse_single_latencies_key :
      Map Bytes → Bytes → List (AerospikeStat Float) → Go (List (AerospikeStat Float))
  unfolding read_latencies send_namespace
  parse_single_latencies_key raw_metrics key sent = read_latencies key raw_metrics >>= λ stats.
      for_each send_namespace (range (Map (LatencyStats Float)) stats) sent

  unfoldable pub refresh : List Bytes → Map Bytes → Go (List (AerospikeStat Float))
  unfolding parse_single_latencies_key
  refresh info_keys raw_metrics = for_each (parse_single_latencies_key raw_metrics) info_keys []
