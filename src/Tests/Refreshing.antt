-- ===== src/Tests/Refreshing.antt =====
-- A refresh at a concrete input.
use aerospike_prometheus_exp.Base.{
  ok, split, lookup, insert, equal, ◌==◌, ◌+◌, arith, if◌then◌else◌, ℕ, ◌≡◌, refl, Bool, true,
  false, List, [], ◌∷◌, Option, none, some, Bytes, bytes, Map, All, length, map, leb, any, not,
  ◌&&◌, ◌||◌, ◌++◌,
}
use aerospike_prometheus_exp.Config.{done, panics}
use aerospike_prometheus_exp.Commons.Sanitize.{valid_string}
use aerospike_prometheus_exp.Commons.Secrets.{Sources}
use aerospike_prometheus_exp.Commons.Certificates.{Crypto}
use aerospike_prometheus_exp.Stats.Metric.{IsLabelled}
use aerospike_prometheus_exp.Stats.Users.{UserRoles}
use aerospike_prometheus_exp.Stats.Shared.{new_stat_processor_shared_state}
use aerospike_prometheus_exp.Refresher.{Refreshed, refresh}
use aerospike_prometheus_exp.Refresher.Provider.{DataProvider}
use aerospike_prometheus_exp.Refresher.State.{Refresher, new_stats_refresher}
use aerospike_prometheus_exp.Env.{Env}
use aerospike_prometheus_exp.Commons.Convert.{try_convert}
use aerospike_prometheus_exp.Stats.Filter.{is_metric_allowed}
use aerospike_prometheus_exp.Stats.Metric.{AerospikeStat, MetricType}
use aerospike_prometheus_exp.Host.Files.{
  Host, get_file_fd, get_mem_info_stats, parse_net_stats, get_net_dev_stats,
}
use aerospike_prometheus_exp.Host.Segments.{get_shared_memory_stats}
use aerospike_prometheus_exp.Host.Processor.{refresh_system_info}
use aerospike_prometheus_exp.Export.Prometheus.{Desc}
use aerospike_prometheus_exp.Export.Scrape.{
  ticks, sample, PrometheusImpl, node_up, node_active_desc, collect,
}
use aerospike_prometheus_exp.Export.Scrape.Served.{
  IsClient, acceptable, all_valid, identity, Served,
}
use aerospike_prometheus_exp.Export.Scrape.Complete.{collect_complete, collect-identity-panics}
use aerospike_prometheus_exp.Refresher.Labelled.{stats-refresh-AreLabelled}
use aerospike_prometheus_exp.Tests.{config, agent_config, result_or, outcome_or}
use aerospike_prometheus_exp.Tests

-- The host is watched as well.
abbrev env : Env
env = record Tests.env {
  cfg = record config { agent = record agent_config { refresh_system_stats = true } };
}

abbrev sources : Sources
sources = record { lookup_env = λ v. none; read_file = λ p. none }

-- No certificate is read.
abbrev crypto : Crypto
crypto = record {
  Pool = Unit;
  Certificate = Unit;
  Block = Unit;
  system_pool = tt;
  append_pem = λ p s. p;
  decode_pem = λ s. none;
  is_encrypted = λ b. false;
  decrypt = λ b s. none;
  encode_pem = λ b. none;
  key_pair = λ c k. none;
}

-- What a node with one namespace answers, in a cluster of that name.
abbrev answers : Bytes → Map Bytes
answers cluster_name =
    (bytes "namespaces", bytes "test")
    ∷ (bytes "build", bytes "6.0")
    ∷ (bytes "cluster-name", cluster_name)
    ∷ (bytes "namespace/test", bytes "objects=5")
    ∷ (bytes "logs", bytes "0:log")
    ∷ (bytes "sets", bytes "ns=test:objects=3")
    ∷ []

abbrev admin : UserRoles
admin = record { user = bytes "admin"; conns_in_use = 1; read_info = []; write_info = [] }

abbrev data_provider_of : Bytes → DataProvider
data_provider_of cluster_name = record {
  Session = Unit;
  Error = Unit;
  request_info = λ keys s. done ((answers cluster_name, none), s);
  fetch_users_details = λ s. done ((true, admin ∷ [], none), s);
}

abbrev data_provider : DataProvider
data_provider = data_provider_of (bytes "c1")

-- Its cluster's name is not UTF-8.
abbrev misnamed : DataProvider
misnamed = data_provider_of (b'c' ∷ 255 ∷ [])

abbrev start : Refresher Unit ℕ
start = new_stats_refresher {S = Unit} {F = ℕ} tt new_stat_processor_shared_state 0

abbrev once : Refreshed env sources crypto data_provider
once =
    outcome_or (record { stats = []; err = none; refresher = start })
      (refresh env sources crypto data_provider 0 start)

abbrev once_misnamed : Refreshed env sources crypto misnamed
once_misnamed =
    outcome_or (record { stats = []; err = none; refresher = start })
      (refresh env sources crypto misnamed 0 start)

once-ran :
    (refresh env sources crypto data_provider 0 start ≡ done once)
    × (once.err ≡ none)
    × (refresh env sources crypto misnamed 0 start ≡ done once_misnamed)
    × (all_valid (identity once.refresher.shared) ≡ true)
    × (all_valid (identity once_misnamed.refresher.shared) ≡ false)
unfolding refresh valid_string aerospike_prometheus_exp.Base.equal new_stats_refresher
    aerospike_prometheus_exp.Commons.Certificates.load_server_or_client_certificates
    aerospike_prometheus_exp.Refresher.Passes.make_plan
    aerospike_prometheus_exp.Stats.Node.pass_two_keys
    aerospike_prometheus_exp.Stats.Node.parse_log_sink_details aerospike_prometheus_exp.Base.split
    aerospike_prometheus_exp.Base.lookup
    aerospike_prometheus_exp.Stats.Filter.is_build_version_greater_than_or_equal
    aerospike_prometheus_exp.Refresher.Processing.process
    aerospike_prometheus_exp.Stats.Namespace.refresh
    aerospike_prometheus_exp.Stats.Namespace.pass_two_keys aerospike_prometheus_exp.Base.has_prefix
    aerospike_prometheus_exp.Commons.ParseStats.parse_stats
    aerospike_prometheus_exp.Commons.Sanitize.sanitize_utf8 aerospike_prometheus_exp.Base.split_n2
    aerospike_prometheus_exp.Base.insert aerospike_prometheus_exp.Commons.Convert.try_convert
    aerospike_prometheus_exp.Stats.Namespace.Naming.name_stat
    aerospike_prometheus_exp.Stats.Namespace.Arrays.check_stat_persistance_type
    aerospike_prometheus_exp.Stats.Cache.send
    aerospike_prometheus_exp.Stats.Filter.is_metric_allowed
    aerospike_prometheus_exp.Stats.Benchmarks.is_stat_latency_hist_related
    aerospike_prometheus_exp.Stats.Namespace.note_re_repl
    aerospike_prometheus_exp.Refresher.Passes.set_identity aerospike_prometheus_exp.Base.replace_all
    aerospike_prometheus_exp.Stats.Node.refresh
    aerospike_prometheus_exp.Stats.Node.handle_log_sink_stats
    aerospike_prometheus_exp.Stats.Sets.refresh aerospike_prometheus_exp.Stats.Cache.send_converted
    aerospike_prometheus_exp.Stats.Sindex.refresh
    aerospike_prometheus_exp.Stats.Sindex.pass_two_keys aerospike_prometheus_exp.Stats.Xdr.refresh
    aerospike_prometheus_exp.Stats.Xdr.pass_two_keys
    aerospike_prometheus_exp.Stats.Latencies.refresh
    aerospike_prometheus_exp.Stats.Latencies.pass_two_keys
    aerospike_prometheus_exp.Latency.Parser.parse_latency_info_legacy
    aerospike_prometheus_exp.Latency.Names.read_namespace_and_operation
    aerospike_prometheus_exp.Latency.Reader.peek_and_expect
    aerospike_prometheus_exp.Latency.Reader.expect aerospike_prometheus_exp.Latency.Names.until
    aerospike_prometheus_exp.Latency.Reader.read_until
    aerospike_prometheus_exp.Stats.Users.can_refresh_user_stats
    aerospike_prometheus_exp.Stats.Users.refresh
once-ran = (refl, refl, refl, refl, refl)

stats-refresh-AreLabelled_example : All IsLabelled once.stats
stats-refresh-AreLabelled_example =
    stats-refresh-AreLabelled env sources crypto data_provider 0 start once-ran.0

-- A host with one open file, and no procfs.
abbrev host : Host ℕ
host = record {
  read_lines =
      λ name. if equal name (bytes "/proc/sys/fs/file-nr") then some (bytes "1" ∷ []) else none;
  mem_info = none;
  net_dev = none;
  print_float = λ v. [];
}

-- The letters, digits and underscores of a name.
abbrev name_byte : ℕ → Bool
name_byte c =
    (leb b'a' c && leb c b'z')
    || (leb b'A' c && leb c b'Z')
    || (leb b'0' c && leb c b'9')
    || (c == b'_')

-- Whether no label stands twice.
abbrev distinct : List Bytes → Bool
distinct [] = true
distinct (label ∷ labels) = let rest = distinct labels in not (any (equal label) labels) && rest

abbrev valid_desc : Desc → Bool
valid_desc d = not (any (λ c. not (name_byte c)) d.name) && distinct d.variable_labels

-- A client that checks all that it documents, and keeps the name and the values as the sample.
abbrev must_new_const_metric : Desc → MetricType → ℕ → List Bytes → Option (Bytes × List Bytes)
must_new_const_metric d kind v values =
    if acceptable env {Sample = Bytes × List Bytes} valid_desc (λ _ _ _ _. none) d values
    then some (d.name, values)
    else none

client : IsClient env valid_desc must_new_const_metric
client d kind v values = (λ yes. ((d.name, values), rw (yes) refl), λ refused. rw (refused) refl)

abbrev scraper : PrometheusImpl Unit ℕ
scraper = record { scrapes = 0; refresher = start }

abbrev system : List (AerospikeStat ℕ)
system = result_or [] (refresh_system_info env host once.refresher.shared)

system-read : refresh_system_info env host once.refresher.shared ≡ ok system
unfolding refresh_system_info get_file_fd get_mem_info_stats parse_net_stats get_net_dev_stats
    get_shared_memory_stats equal split try_convert lookup insert is_metric_allowed
system-read = refl

described :
    valid_desc (node_active_desc env host sources crypto data_provider must_new_const_metric) ≡ true
unfolding equal
described = refl

collect_complete_example :
    (up : Bytes × List Bytes) × (rest : List (Bytes × List Bytes)) × (node_up env host sources
        crypto data_provider must_new_const_metric 1 once.refresher.shared
      ≡ some up)
    × (collect env host sources crypto data_provider must_new_const_metric 0 scraper
        ≡ done (
          ticks 1 ∷ sample up ∷ map sample rest,
          record { scrapes = 1; refresher = once.refresher },
        ))
    × Served env valid_desc must_new_const_metric (once.stats ++ system) rest
collect_complete_example =
    collect_complete env host sources crypto data_provider valid_desc must_new_const_metric 0
      scraper once system client once-ran.0 once-ran.1 system-read described once-ran.3

collect-identity-panics_example :
    collect env host sources crypto misnamed must_new_const_metric 0 scraper ≡ panics
collect-identity-panics_example =
    collect-identity-panics env host sources crypto misnamed valid_desc must_new_const_metric 0
      scraper once_misnamed client once-ran.2 once-ran.4
