-- ===== src/Stats/Xdr.antt =====
-- sp_xdr.go: the statistics and settings of cross-datacenter replication.
pub mod Keys
pub mod Names
pub mod Labelled
use aerospike_prometheus_exp.Base.{
  ◌≡◌, Bool, true, false, ◌&&◌, not, List, [], ◌∷◌, ◌++◌, Option, none, some, Bytes, bytes, Map,
  get_string, has_key, split, nonempty, is_empty, Go, ok, for_each, if◌then◌else◌,
}
use aerospike_prometheus_exp.Env.{Env}
use aerospike_prometheus_exp.Commons.ParseStats.{parse_stats}
use aerospike_prometheus_exp.Commons.Convert.{try_convert}
use aerospike_prometheus_exp.Stats.Shared.{SharedState}
use aerospike_prometheus_exp.Stats.Metric.{
  AerospikeStat, xdr, label_cluster_name, label_service, label_ns, label_dc_name,
}
use aerospike_prometheus_exp.Stats.Cache.{Sending, send_converted}

abbrev pub key_xdr_metadata : Bytes
key_xdr_metadata = bytes "get-config:context=xdr"

abbrev pub key_xdr_stat : Bytes
key_xdr_stat = bytes "get-stats:context=xdr;dc="

abbrev pub key_xdr_config : Bytes
key_xdr_config = bytes "get-config:context=xdr;dc="

abbrev pub pass_one_keys : List Bytes
pass_one_keys = key_xdr_metadata ∷ []

abbrev pub namespace_keys : Bytes → List Bytes → List Bytes
namespace_keys dc [] = []
namespace_keys dc (ns ∷ nss) =
    (key_xdr_config ++ (dc ++ (bytes ";namespace=" ++ ns)))
    ∷ (key_xdr_stat ++ (dc ++ (bytes ";namespace=" ++ ns)))
    ∷ namespace_keys dc nss

abbrev pub dc_keys : List Bytes → List Bytes → List Bytes
dc_keys nss [] = []
dc_keys nss (dc ∷ dcs) =
    let rest = dc_keys nss dcs in
    if nonempty dc
    then (key_xdr_stat ++ dc) ∷ (key_xdr_config ++ dc) ∷ (namespace_keys dc nss ++ rest)
    else rest

unfoldable pub pass_two_keys : Map Bytes → List Bytes
pass_two_keys pass_one_stats =
    let list = parse_stats (get_string key_xdr_metadata pass_one_stats) b';' in
    dc_keys (split b';' (get_string (bytes "namespaces") pass_one_stats))
      (split b',' (get_string (bytes "dcs") list))

-- The datacenter, the namespace and the prefix of the metrics' names.
unfoldable pub construct_metric_name_prefix : Bytes → Bytes × Bytes × Bytes
construct_metric_name_prefix key =
    let kv = parse_stats key b';' in
    let cfg_ok = has_key (bytes "get-config:context") kv in
    let stat_ok = has_key (bytes "get-stats:context") kv in
    let ns_ok = has_key (bytes "namespace") kv in
    let dc = get_string (bytes "dc") kv in
    let ns = get_string (bytes "namespace") kv in
    if cfg_ok && ns_ok
    then (dc, ns, bytes "dc_namespace_")
    else if stat_ok && ns_ok
    then (dc, ns, bytes "dc_namespace_")
    else if cfg_ok
    then (dc, ns, bytes "dc_")
    else (dc, ns, [])

abbrev pub xdr_labels : Bytes → List Bytes
xdr_labels ns =
    if nonempty ns
    then label_cluster_name ∷ label_service ∷ label_dc_name ∷ label_ns ∷ []
    else label_cluster_name ∷ label_service ∷ label_dc_name ∷ []

module _ (env : Env) (shared : SharedState) where
  open env use {Float, range}

  abbrev pub xdr_label_values : Bytes → Bytes → List Bytes
  xdr_label_values dc ns =
      if nonempty ns
      then shared.cluster_name ∷ shared.service ∷ dc ∷ ns ∷ []
      else shared.cluster_name ∷ shared.service ∷ dc ∷ []

  -- A round of `handleRefresh`: the cache is by the statistic, the name has the prefix too.
  unfoldable pub send_xdr_stat :
      Bytes × Bytes × Bytes → Bytes × Bytes → Sending Float → Go (Sending Float)
  send_xdr_stat (dc, ns, prefix) (stat, value) st =
      send_converted env xdr stat stat (prefix ++ stat) (try_convert env value) (xdr_labels ns)
        (xdr_label_values dc ns) st

  -- `handleRefresh` of one key
  handle_refresh : Map Bytes → Bytes → Sending Float → Go (Sending Float)
  unfolding send_xdr_stat
  handle_refresh raw_metrics key st =
      for_each (send_xdr_stat (construct_metric_name_prefix key))
        (range Bytes (parse_stats (get_string key raw_metrics) b';')) st

  -- `Refresh`, from the processor's cache
  unfoldable pub refresh : List Bytes → Map Bytes → Map (AerospikeStat Float) → Go (Sending Float)
  unfolding handle_refresh
  refresh info_keys raw_metrics cache =
      for_each (handle_refresh raw_metrics) info_keys (record { cache = cache; sent = [] })
