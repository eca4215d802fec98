-- ===== src/Tests.antt =====
-- A configuration, and a stand-in for the code outside the repository, to run the model on.
mod Settings
mod Readings
mod Metrics
mod Exported
mod Serving
mod Hosted
mod Refreshing
use aerospike_prometheus_exp.Base.{
  ℕ, zero, suc, ◌+◌, ◌-◌, ◌*◌, ◌/◌, ◌≡◌, Bool, true, false, ◌&&◌, List, [], ◌∷◌, Option, none, some,
  Bytes, bytes, Map, equal, leb, ◌==◌, if◌then◌else◌, Go, ok, panic, Free, arith,
}
use aerospike_prometheus_exp.Config.{
  Config, AgentConfig, AerospikeConfig, OtelConfig, MetricFilter, Outcome, done, fatal, panics,
}
use aerospike_prometheus_exp.Env.{Env, GaugeStats}
use aerospike_prometheus_exp.Stats.Shared.{SharedState, new_stat_processor_shared_state}

abbrev pub no_filter : MetricFilter
no_filter = record {
  allowlist = [];
  blocklist = [];
  allowlist_enabled = false;
  whitelist = [];
  blacklist = [];
}

abbrev pub one_each : MetricFilter
one_each = record {
  allowlist = bytes "objects" ∷ [];
  blocklist = bytes "tombstones" ∷ [];
  allowlist_enabled = true;
  whitelist = bytes "memory" ∷ [];
  blacklist = [];
}

abbrev pub otel_config : OtelConfig
otel_config = record {
  service_name = bytes "exporter";
  endpoint = [];
  grpc_endpoint = bytes "collector:4317";
  http_endpoint = [];
  headers = [];
  push_interval = 60;
  server_stat_fetch_interval = 15;
  counter_temporality = bytes "delta";
  all_metrics_as_gauge = false;
  metric_name_prefix = bytes "aerospike.server";
  metric_context_separator = bytes "period";
  renamed_labels = (bytes "service", bytes "node") ∷ [];
}

abbrev pub agent_config : AgentConfig
agent_config = record {
  otel_enabled = true;
  prometheus_enabled = true;
  metric_labels = none;
  timeout = 10;
  refresh_system_stats = false;
  cloud_provider = [];
  log_file = [];
  log_level = [];
  bind = bytes ":9145";
  cert_file = [];
  key_file = [];
  root_ca = [];
  key_file_passphrase = [];
  tls_cipher_suites = [];
  basic_auth_username = [];
  basic_auth_password = [];
  otel = otel_config;
  is_kubernetes = false;
  kubernetes_pod_name = [];
}

abbrev pub aerospike_config : AerospikeConfig
aerospike_config = record {
  host = bytes "localhost";
  port = 3000;
  cert_file = [];
  key_file = [];
  key_file_passphrase = [];
  node_tls_name = [];
  root_ca = [];
  auth_mode = [];
  user = bytes "admin";
  password = bytes "admin";
  timeout = 5;
  latency_buckets_count = 2;
  namespace_metrics = one_each;
  set_metrics = no_filter;
  node_metrics = no_filter;
  xdr_metrics = no_filter;
  latencies_metrics = no_filter;
  user_metrics_users = no_filter;
  job_metrics = no_filter;
  sindex_metrics = no_filter;
  disable_latencies_metrics = false;
  disable_job_metrics = false;
  disable_sindex_metrics = false;
}

abbrev pub config : Config
config = record { agent = agent_config; aerospike = aerospike_config }

abbrev pub no_gauges : GaugeStats
no_gauges = record {
  namespace = [];
  node = [];
  sets = [];
  sindex = [];
  xdr = [];
  sys_info = [];
  namespace_stats = [];
  node_stats = [];
  sets_stats = [];
  sindex_stats = [];
  xdr_stats = [];
  sys_info_stats = [];
}

abbrev parse_digits : ℕ → Bytes → Option ℕ
parse_digits n [] = some n
parse_digits n (c ∷ s) =
    let rest = parse_digits (n * 10 + (c - b'0')) s in
    if leb b'0' c && leb c b'9' then rest else none

abbrev pub parse_number : Bytes → Option ℕ
parse_number [] = none
parse_number (c ∷ s) = parse_digits 0 (c ∷ s)

-- Floats are natural numbers, a glob matches its own text, and `range` visits a map in its order.
abbrev pub env : Env
env = record {
  cfg = config;
  gauge_stats = no_gauges;
  Float = ℕ;
  sub = λ a b. a - b;
  mul = λ a b. a * b;
  div = λ a b. a / b;
  float_eq = λ a b. a == b;
  of_nat = λ n. n;
  parse_float = parse_number;
  glob_compile = λ p. some (λ s. equal p s);
  is_version = λ v. true;
  version_ge = λ a b. true;
  range = λ V m. m;
}

abbrev pub shared : SharedState
shared = record new_stat_processor_shared_state {
  cluster_name = bytes "c1";
  service = bytes "10.0.0.1";
}

-- The result of a run that has one, and `d` otherwise.
abbrev pub result_or {ℓ} : {A : Type ℓ} → A → Go A → A
result_or d (ok a) = a
result_or d panic = d

abbrev pub outcome_or {ℓ} : {A : Type ℓ} → A → Outcome A → A
outcome_or d (done a) = a
outcome_or d _ = d

abbrev pub lacks : ℕ → Bytes → Bool
lacks sep [] = true
lacks sep (c ∷ s) = if c == sep then false else lacks sep s

pub lacks-Free : (sep : ℕ) (s : Bytes) → lacks sep s ≡ true → Free sep s
lacks-Free sep [] h = tt
lacks-Free sep (c ∷ s) h = (ground arith, lacks-Free sep s (ground arith))
