-- ===== src/Config/Data.antt =====
-- `Config`, its sections as records of their own. A slice that is nil reads as an empty list.
use aerospike_prometheus_exp.Base.{ℕ, Bool, List, Option, Bytes, Map}

pub record OtelConfig : Type 0 where
  pub service_name : Bytes
  pub endpoint : Bytes
  pub grpc_endpoint : Bytes
  pub http_endpoint : Bytes
  pub headers : Map Bytes
  pub push_interval : ℕ
  pub server_stat_fetch_interval : ℕ
  pub counter_temporality : Bytes
  pub all_metrics_as_gauge : Bool
  pub metric_name_prefix : Bytes
  pub metric_context_separator : Bytes
  pub renamed_labels : Map Bytes

pub record AgentConfig : Type 0 where
  pub otel_enabled : Bool
  pub prometheus_enabled : Bool
  -- `none` is the nil map, which can be read and not written
  pub metric_labels : Option (Map Bytes)
  pub timeout : ℕ
  pub refresh_system_stats : Bool
  pub cloud_provider : Bytes
  pub log_file : Bytes
  pub log_level : Bytes
  pub bind : Bytes
  pub cert_file : Bytes
  pub key_file : Bytes
  pub root_ca : Bytes
  pub key_file_passphrase : Bytes
  pub tls_cipher_suites : Bytes
  pub basic_auth_username : Bytes
  pub basic_auth_password : Bytes
  pub otel : OtelConfig
  pub is_kubernetes : Bool
  pub kubernetes_pod_name : Bytes

-- The three lists of one context that a TOML file may hold, and whether the first is in force.
pub record MetricFilter : Type 0 where
  pub allowlist : List Bytes
  pub blocklist : List Bytes
  pub allowlist_enabled : Bool
  pub whitelist : List Bytes
  pub blacklist : List Bytes

pub record AerospikeConfig : Type 0 where
  pub host : Bytes
  pub port : ℕ
  pub cert_file : Bytes
  pub key_file : Bytes
  pub key_file_passphrase : Bytes
  pub node_tls_name : Bytes
  pub root_ca : Bytes
  pub auth_mode : Bytes
  pub user : Bytes
  pub password : Bytes
  pub timeout : ℕ
  pub latency_buckets_count : ℕ
  pub namespace_metrics : MetricFilter
  pub set_metrics : MetricFilter
  pub node_metrics : MetricFilter
  pub xdr_metrics : MetricFilter
  -- these have no older whitelist or blacklist
  pub latencies_metrics : MetricFilter
  pub user_metrics_users : MetricFilter
  pub job_metrics : MetricFilter
  pub sindex_metrics : MetricFilter
  pub disable_latencies_metrics : Bool
  pub disable_job_metrics : Bool
  pub disable_sindex_metrics : Bool

pub record Config : Type 0 where
  pub agent : AgentConfig
  pub aerospike : AerospikeConfig

-- `toml.MetaData.IsDefined` of the file that was read.
abbrev pub MetaData : Type 0
MetaData = List Bytes → Bool
