-- ===== src/Stats/Metric.antt =====
-- aerospike_stat.go, and the contexts of commons/constants.go and types.go.
use aerospike_prometheus_exp.Base.{◌≡◌, Bool, List, ◌++◌, Bytes, bytes, length}

-- The values of `ContextType`.
pub data Context : Type 0 where
  users namespace node_stats sets sindex xdr latencies : Context
  sysinfo_memory_stats sysinfo_netstat sysinfo_network sysinfo_filefd : Context

-- string(ctx)
unfoldable pub context_name : Context → Bytes
context_name users = bytes "users"
context_name namespace = bytes "namespace"
context_name node_stats = bytes "node_stats"
context_name sets = bytes "sets"
context_name sindex = bytes "sindex"
context_name xdr = bytes "xdr"
context_name latencies = bytes "latencies"
context_name sysinfo_memory_stats = bytes "sysinfo_memory_stats"
context_name sysinfo_netstat = bytes "sysinfo_netstat"
context_name sysinfo_network = bytes "sysinfo_network"
context_name sysinfo_filefd = bytes "sysinfo_filefd"

pub data MetricType : Type 0 where
  gauge counter : MetricType

pub record AerospikeStat (F : Type 0) : Type 0 where
  pub context : Context
  pub name : Bytes
  pub m_type : MetricType
  pub is_allowed : Bool
  pub is_config : Bool
  pub value : F
  pub labels : List Bytes
  pub label_values : List Bytes

module _ {F : Type 0} where
  -- `resetValues`, which it begins with, changes nothing.
  abbrev pub update_values : F → List Bytes → List Bytes → AerospikeStat F → AerospikeStat F
  update_values v ls lvs m = record m { value = v; labels = ls; label_values = lvs }

  unfoldable pub qualify_metric_context : AerospikeStat F → Bytes
  unfolding context_name
  qualify_metric_context m = bytes "aerospike_" ++ context_name m.context

  -- One value for each label, without which Prometheus refuses the metric.
  abbrev pub IsLabelled : AerospikeStat F → Type 0
  IsLabelled m = length m.labels ≡ length m.label_values

-- The label names of commons/constants.go.
abbrev pub label_cluster_name : Bytes
label_cluster_name = bytes "cluster_name"

abbrev pub label_service : Bytes
label_service = bytes "service"

abbrev pub label_ns : Bytes
label_ns = bytes "ns"

abbrev pub label_set : Bytes
label_set = bytes "set"

abbrev pub label_le : Bytes
label_le = bytes "le"

abbrev pub label_dc_name : Bytes
label_dc_name = bytes "dc"

abbrev pub label_index : Bytes
label_index = bytes "index"

abbrev pub label_sindex : Bytes
label_sindex = bytes "sindex"

abbrev pub label_storage_engine : Bytes
label_storage_engine = bytes "storage_engine"

abbrev pub label_user : Bytes
label_user = bytes "user"
