-- ===== src/Stats/Shared.antt =====
-- statsprocessor.go: the state that the processors share.
use aerospike_prometheus_exp.Base.{Bytes, bytes, [], Map}

pub record SharedState : Type 0 where
  pub service : Bytes
  pub cluster_name : Bytes
  pub build : Bytes
  pub node_id : Bytes
  pub infokey_cluster_name : Bytes
  pub infokey_service : Bytes
  pub infokey_build : Bytes
  pub infokey_node_id : Bytes
  pub service_latency_benchmarks : Map Bytes
  pub namespace_latency_benchmarks : Map (Map Bytes)

abbrev pub service_clear_std : Bytes
service_clear_std = bytes "service-clear-std"

abbrev pub service_tls_std : Bytes
service_tls_std = bytes "service-tls-std"

abbrev pub new_stat_processor_shared_state : SharedState
new_stat_processor_shared_state = record {
  service = [];
  cluster_name = [];
  build = [];
  node_id = [];
  infokey_cluster_name = bytes "cluster-name";
  infokey_service = service_clear_std;
  infokey_build = bytes "build";
  infokey_node_id = bytes "node:";
  service_latency_benchmarks = [];
  namespace_latency_benchmarks = [];
}
