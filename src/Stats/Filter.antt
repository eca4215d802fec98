-- ===== src/Stats/Filter.antt =====
-- statprocessors/utils.go: which metrics are allowed, which are gauges, and server versions.
pub mod Allowed
use aerospike_prometheus_exp.Base.{
  ◌≡◌, refl, Bool, true, false, not, ◌&&◌, ◌||◌, List, [], ◌∷◌, Option, none, some, Bytes, bytes,
  Map, lookup, nonempty, is_empty, contains, replace_all, to_lower, trim_space, any, Go, ok, panic,
  ◌>>=◌, All, arith, if◌then◌else◌, Bool-cases,
}
use aerospike_prometheus_exp.Config.{MetricFilter}
use aerospike_prometheus_exp.Env.{Env}
use aerospike_prometheus_exp.Stats.Metric.{
  Context, users, namespace, node_stats, sets, sindex, xdr, latencies, context_name, MetricType,
  gauge, counter, AerospikeStat,
}

-- A set of names: a missing key reads as false.
abbrev pub in_set : Bytes → Map Bool → Bool
in_set k m = elim (lookup k m) [ none ↦ false | some b ↦ b ]

module _ (env : Env) where
  open env use {cfg, gauge_stats, glob_compile, is_version, version_ge, Float, of_nat}

  -- `glob.MustCompile` panics on a pattern that is not a glob.
  match_pattern : Bytes → Bytes → Go Bool
  match_pattern p s = elim (glob_compile p) [ none ↦ panic | some matches ↦ ok (matches s) ]

  -- The search stops at the first pattern that matches; what `rest` stands for is not run then.
  unfoldable pub loop_patterns : Bytes → List Bytes → Go Bool
  unfolding match_pattern
  loop_patterns s [] = ok false
  loop_patterns s (p ∷ ps) =
      let rest = loop_patterns s ps in
      if nonempty p then (do found ← match_pattern p s; if found then ok true else rest) else rest

  abbrev pub allowlist_of : Context → List Bytes
  allowlist_of namespace = cfg.aerospike.namespace_metrics.allowlist
  allowlist_of node_stats = cfg.aerospike.node_metrics.allowlist
  allowlist_of sets = cfg.aerospike.set_metrics.allowlist
  allowlist_of sindex = cfg.aerospike.sindex_metrics.allowlist
  allowlist_of xdr = cfg.aerospike.xdr_metrics.allowlist
  allowlist_of _ = []

  abbrev pub blocklist_of : Context → List Bytes
  blocklist_of namespace = cfg.aerospike.namespace_metrics.blocklist
  blocklist_of node_stats = cfg.aerospike.node_metrics.blocklist
  blocklist_of sets = cfg.aerospike.set_metrics.blocklist
  blocklist_of sindex = cfg.aerospike.sindex_metrics.blocklist
  blocklist_of xdr = cfg.aerospike.xdr_metrics.blocklist
  blocklist_of _ = []

  -- What follows when the blocklist does not block.
  check_allowlist : Bytes → List Bytes → Go Bool
  check_allowlist s allow = if is_empty allow then ok true else loop_patterns s allow

  unfoldable pub is_metric_allowed : Context → Bytes → Go Bool
  unfolding check_allowlist loop_patterns
  is_metric_allowed ctx s = do
    let allow = allowlist_of ctx
    let block = blocklist_of ctx
    blocked ← (if nonempty block then loop_patterns s block else ok false)
    if blocked then ok false else check_allowlist s allow

  -- Any context whose name contains `sysinfo_` reads the system gauges.
  unfoldable pub is_gauge : Context → Bytes → Bool
  unfolding contains to_lower context_name lookup
  is_gauge namespace s = in_set s gauge_stats.namespace_stats
  is_gauge node_stats s = in_set s gauge_stats.node_stats
  is_gauge sets s = in_set s gauge_stats.sets_stats
  is_gauge sindex s = in_set s gauge_stats.sindex_stats
  is_gauge xdr s = in_set s gauge_stats.xdr_stats
  is_gauge ctx s =
      if contains (to_lower (context_name ctx)) (bytes "sysinfo_")
      then in_set s gauge_stats.sys_info_stats
      else false

  -- After the latency and user contexts, which hold gauges only.
  unfoldable pub type_by_name : Context → Bytes → MetricType
  unfolding replace_all contains is_gauge
  type_by_name ctx raw =
      let s = replace_all raw (bytes "storage-engine") [] in
      if contains s (bytes "-") || is_gauge ctx s then gauge else counter

  unfoldable pub get_metric_type : Context → Bytes → MetricType
  unfolding type_by_name
  get_metric_type latencies s = gauge
  get_metric_type users s = gauge
  get_metric_type ctx s = type_by_name ctx s

  -- aerospike_stat.go
  unfoldable pub new_aerospike_stat : Context → Bytes → Bool → AerospikeStat Float
  unfolding get_metric_type contains
  new_aerospike_stat ctx s allowed = record {
    context = ctx;
    name = s;
    m_type = get_metric_type ctx s;
    is_allowed = allowed;
    is_config = contains s (bytes "-");
    value = of_nat 0;
    labels = [];
    label_values = [];
  }

  -- `none` is the error.
  unfoldable pub is_build_version_greater_than_or_equal : Bytes → Bytes → Option Bool
  unfolding trim_space
  is_build_version_greater_than_or_equal build ref =
      if is_empty (trim_space build)
      then none
      else if not (is_version build)
      then none
      else if not (is_version ref)
      then none
      else some (version_ge build ref)
