-- ===== src/Stats/Node.antt =====
-- sp_node_stats.go: a node's settings, statistics, log sinks and client user agents.
pub mod Sinks
pub mod Labelled
use aerospike_prometheus_exp.Base.{
  ℕ, zero, suc, ◌+◌, ◌≡◌, Bool, true, false, not, ◌&&◌, ◌||◌, List, [], ◌∷◌, ◌++◌, Option, none,
  some, Bytes, bytes, Map, get_string, has_key, split, split_n2, contains, itoa, is_empty, length,
  Go, ok, panic, ◌>>=◌, index, for_each, if◌then◌else◌,
}
use aerospike_prometheus_exp.Env.{Env}
use aerospike_prometheus_exp.Commons.ParseStats.{parse_stats}
use aerospike_prometheus_exp.Commons.Convert.{try_convert}
use aerospike_prometheus_exp.Commons.Base64.{get_value_from_base64}
use aerospike_prometheus_exp.Stats.Shared.{SharedState}
use aerospike_prometheus_exp.Stats.Metric.{
  AerospikeStat, node_stats, label_cluster_name, label_service,
}
use aerospike_prometheus_exp.Stats.Filter.{is_build_version_greater_than_or_equal}
use aerospike_prometheus_exp.Stats.Cache.{Sending, send, send_converted}
use aerospike_prometheus_exp.Stats.Benchmarks.{
  is_stat_latency_hist_related, latency_subcommand, note_benchmark,
}

abbrev pub key_service_config : Bytes
key_service_config = bytes "get-config:context=service"

abbrev pub key_service_statistics : Bytes
key_service_statistics = bytes "statistics"

abbrev pub key_service_logs : Bytes
key_service_logs = bytes "logs"

abbrev pub pass_one_keys : List Bytes
pass_one_keys = key_service_logs ∷ []

log_sink_commands : List Bytes → Go (List Bytes)
log_sink_commands [] = ok []
log_sink_commands (sink ∷ sinks) = do
  id ← index (split b':' sink) 0
  rest ← log_sink_commands sinks
  ok ((bytes "log/" ++ id) ∷ rest)

-- The commands, and `logSinkCount`.
unfoldable pub parse_log_sink_details : Map Bytes → Go (List Bytes × ℕ)
unfolding log_sink_commands
parse_log_sink_details raw_metrics = do
  let sinks = split b';' (get_string key_service_logs raw_metrics)
  commands ← log_sink_commands sinks
  ok (commands, length sinks)

-- What a client sends about itself: library version, application and count.
abbrev pub UserAgent : Type 0
UserAgent = Bytes × Bytes × Bytes

abbrev nth_or : Bytes → List Bytes → ℕ → Bytes
nth_or d [] i = d
nth_or d (x ∷ xs) zero = x
nth_or d (x ∷ xs) (suc i) = nth_or d xs i

agent_of : Bytes → List Bytes → Go UserAgent
agent_of info parts = do
  let values = split b',' info
  counted ← index parts 1
  count ← index (split_n2 b'=' counted) 1
  ok (nth_or (bytes "unknown") values 1, nth_or (bytes "unknown") values 2, count)

-- `none` is the error of the decoding; a text without its marks panics.
unfoldable pub get_user_agent_info : Bytes → Go (Option UserAgent)
unfolding agent_of get_value_from_base64
get_user_agent_info text = do
  let parts = split b':' text
  agent ← index parts 0
  encoded ← index (split_n2 b'=' agent) 1
  elim (get_value_from_base64 encoded) [
    | none ↦ ok none
    | some info ↦ agent_of info parts >>= λ a. ok (some a)
  ]

-- The processor's state with that of its loops.
pub record NodeState (F : Type 0) : Type 0 where
  pub sending : Sending F
  pub benchmarks : Map Bytes

abbrev pub node_labels : List Bytes
node_labels = label_cluster_name ∷ label_service ∷ []

module _ (env : Env) (shared : SharedState) where
  open env use {Float, range, float_eq, of_nat}

  abbrev pub node_label_values : List Bytes
  node_label_values = shared.cluster_name ∷ shared.service ∷ []

  unfoldable pub pass_two_keys : Map Bytes → Go (List Bytes × ℕ)
  pass_two_keys pass_one_stats = do
    sinks ← parse_log_sink_details pass_one_stats
    let keys = key_service_config ∷ key_service_statistics ∷ sinks.0
    elim (is_build_version_greater_than_or_equal env (get_string (bytes "build") pass_one_stats)
        (bytes "8.1.0.0")) [
          | none ↦ ok (keys, sinks.1)
          | some true ↦ ok (keys ++ bytes "user-agents" ∷ [], sinks.1)
          | some false ↦ ok (keys, sinks.1)
        ]

  -- A setting that switches a histogram.
  unfoldable pub note_node_benchmark : Bytes → Float → Map Bytes → Map Bytes
  note_node_benchmark stat pv m =
      if is_stat_latency_hist_related stat
      then note_benchmark stat (latency_subcommand stat) (float_eq pv (of_nat 1)) m
      else m

  send_node_value : Bytes → Option Float → NodeState Float → Go (NodeState Float)
  send_node_value stat none st = ok st
  send_node_value stat (some pv) st =
      send env node_stats stat stat stat pv node_labels node_label_values st.sending >>= λ s.
      ok (record { sending = s; benchmarks = note_node_benchmark stat pv st.benchmarks })

  send_node_stat : Bytes × Bytes → NodeState Float → Go (NodeState Float)
  unfolding send_node_value
  send_node_stat (stat, value) st = send_node_value stat (try_convert env value) st

  unfoldable pub handle_refresh : Bytes → NodeState Float → Go (NodeState Float)
  unfolding send_node_stat
  handle_refresh raw st = for_each send_node_stat (range Bytes (parse_stats raw b';')) st

  -- Whether one of the sinks `log/i`, `log/(i + 1)`, ... (`n` of them) has the level.
  unfoldable pub some_sink : Bytes → ℕ → ℕ → Map Bytes → Bool
  some_sink level zero i raw_metrics = false
  some_sink level (suc n) i raw_metrics =
      contains (get_string (bytes "log/" ++ itoa i) raw_metrics) level
      || some_sink level n (i + 1) raw_metrics

  abbrev pub flag : Bool → Float
  flag b = of_nat (if b then 1 else 0)

  unfoldable pub handle_log_sink_stats : ℕ → Map Bytes → Sending Float → Go (Sending Float)
  unfolding some_sink
  handle_log_sink_stats sinks raw_metrics st = do
    let debug = bytes "pseudo_log_debug"
    let detail = bytes "pseudo_log_detail"
    st' ←
        send env node_stats debug debug debug
          (flag (some_sink (bytes ":DEBUG") sinks 0 raw_metrics)) node_labels node_label_values st
    send env node_stats detail detail detail
        (flag (some_sink (bytes ":DETAIL") sinks 0 raw_metrics)) node_labels node_label_values st'

  abbrev pub agent_labels : List Bytes
  agent_labels =
      label_cluster_name
      ∷ label_service
      ∷ bytes "client_library_version"
      ∷ bytes "client_app_id"
      ∷ []

  send_user_agent : Bytes → Sending Float → Option UserAgent → Go (Sending Float)
  send_user_agent text st none = ok st
  send_user_agent text st (some (library, app, count)) =
      send_converted env node_stats text text (bytes "user_agent_details") (try_convert env count)
        agent_labels (shared.cluster_name ∷ shared.service ∷ library ∷ app ∷ []) st

  handle_user_agent : Bytes → Sending Float → Go (Sending Float)
  unfolding send_user_agent
  handle_user_agent text st =
      if is_empty text then ok st else (get_user_agent_info text >>= send_user_agent text st)

  unfoldable pub handle_user_agents_stats : Map Bytes → Sending Float → Go (Sending Float)
  unfolding handle_user_agent
  handle_user_agents_stats raw_metrics st =
      for_each handle_user_agent (split b';' (get_string (bytes "user-agents") raw_metrics)) st

  -- `Refresh`, from the processor's cache, its count of log sinks and the shared benchmarks
  unfoldable pub refresh :
      ℕ → Map Bytes → Map (AerospikeStat Float) → Map Bytes → Go (NodeState Float)
  unfolding handle_refresh
  refresh sinks raw_metrics cache benchmarks = do
    st ←
        handle_refresh (get_string key_service_config raw_metrics)
          (record { sending = record { cache = cache; sent = [] }; benchmarks = benchmarks })
    st' ← handle_refresh (get_string key_service_statistics raw_metrics) st
    logged ← handle_log_sink_stats sinks raw_metrics st'.sending
    agents ←
        (if has_key (bytes "user-agents") raw_metrics
          then handle_user_agents_stats raw_metrics logged
          else ok logged)
    ok (record { sending = agents; benchmarks = st'.benchmarks })
