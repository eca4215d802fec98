-- ===== src/Host/Processor.antt =====
-- sp_host_systeminfo.go: the metrics of the host.
pub mod Labelled
use aerospike_prometheus_exp.Base.{
  List, [], ◌∷◌, ◌++◌, Option, none, some, Bytes, bytes, Map, get_string, to_lower, Go, ok, ◌>>=◌,
  for_each, if◌then◌else◌,
}
use aerospike_prometheus_exp.Env.{Env}
use aerospike_prometheus_exp.Commons.Convert.{try_convert}
use aerospike_prometheus_exp.Stats.Shared.{SharedState}
use aerospike_prometheus_exp.Stats.Metric.{
  Context, AerospikeStat, update_values, label_cluster_name, label_service, sysinfo_memory_stats,
  sysinfo_netstat, sysinfo_network, sysinfo_filefd,
}
use aerospike_prometheus_exp.Stats.Cache.{make}
use aerospike_prometheus_exp.Host.Segments.{get_shared_memory_stats}
use aerospike_prometheus_exp.Host.Files.{
  Host, get_file_fd, parse_net_stats, get_mem_info_stats, get_net_dev_stats,
}

abbrev pub host_labels : List Bytes
host_labels = label_cluster_name ∷ label_service ∷ []

abbrev pub device_labels : List Bytes
device_labels = label_cluster_name ∷ label_service ∷ bytes "device" ∷ []

abbrev pub segment_labels : List Bytes
segment_labels =
    label_cluster_name
    ∷ label_service
    ∷ bytes "hexkey"
    ∷ bytes "namespace_id"
    ∷ bytes "instance_id"
    ∷ bytes "prefix"
    ∷ bytes "typeid"
    ∷ bytes "cpid"
    ∷ bytes "lpid"
    ∷ []

module _ (env : Env) (host : Host (env.Float)) (shared : SharedState) where
  open env use {cfg, Float, range}
  open host use {read_lines}

  abbrev Stats : Type 0
  Stats = List (AerospikeStat Float)

  abbrev host_values : List Bytes
  host_values = shared.cluster_name ∷ shared.service ∷ []

  -- `isMetricAllowed` of the statistic, and a metric with the name, appended. What is no number is
  -- left out.
  unfoldable pub append_converted :
      Context → Bytes → Bytes → Option Float → List Bytes → List Bytes → Stats → Go Stats
  append_converted ctx stat name none ls lvs sent = ok sent
  append_converted ctx stat name (some v) ls lvs sent =
      make env ctx stat name >>= λ m. ok (sent ++ update_values v ls lvs m ∷ [])

  unfoldable pub get_fd_info : Go Stats
  unfolding append_converted
  get_fd_info = get_file_fd (read_lines (bytes "/proc/sys/fs/file-nr")) >>= λ stats.
      append_converted sysinfo_filefd (bytes "allocated") (bytes "allocated")
        (try_convert env (get_string (bytes "allocated") stats)) host_labels host_values []

  send_mem_stat : Bytes × Bytes → Stats → Go Stats
  unfolding append_converted
  send_mem_stat (stat, value) sent =
      append_converted sysinfo_memory_stats stat (to_lower stat ++ bytes "_bytes")
        (try_convert env value) host_labels host_values sent

  unfoldable pub get_mem_info : Go Stats
  unfolding send_mem_stat
  get_mem_info = for_each send_mem_stat (range Bytes (get_mem_info_stats env host)) []

  send_net_stat : Bytes × Bytes → Stats → Go Stats
  unfolding append_converted
  send_net_stat (stat, value) sent =
      append_converted sysinfo_netstat stat stat (try_convert env value) host_labels host_values
        sent

  unfoldable pub get_net_stat_info : Go Stats
  unfolding send_net_stat
  get_net_stat_info = parse_net_stats (read_lines (bytes "/proc/net/snmp")) >>= λ stats.
      for_each send_net_stat (range Bytes stats) []

  -- The statistic of a device.
  send_dev_stat : Bytes → Map Bytes → Stats → Go Stats
  unfolding append_converted
  send_dev_stat stat stats sent =
      append_converted sysinfo_network stat stat (try_convert env (get_string stat stats))
        device_labels
        (shared.cluster_name ∷ shared.service ∷ get_string (bytes "device_name") stats ∷ []) sent

  unfoldable pub get_network_info : Go Stats
  unfolding send_dev_stat
  get_network_info =
      let devices = get_net_dev_stats env host in
      for_each (send_dev_stat (bytes "receive_bytes_total")) devices.0 []
      >>= for_each (send_dev_stat (bytes "transfer_bytes_total")) devices.1

  abbrev segment_values : Map Bytes → List Bytes
  segment_values stats =
      shared.cluster_name
      ∷ shared.service
      ∷ get_string (bytes "hexKey") stats
      ∷ get_string (bytes "namespaceid") stats
      ∷ get_string (bytes "instanceid") stats
      ∷ get_string (bytes "prefix") stats
      ∷ get_string (bytes "typeid") stats
      ∷ get_string (bytes "cpid") stats
      ∷ get_string (bytes "lpid") stats
      ∷ []

  append_segment : Bytes → Option Float → Map Bytes → Stats → Go Stats
  unfolding append_converted
  append_segment stat v stats sent =
      append_converted sysinfo_memory_stats stat stat v segment_labels (segment_values stats) sent

  -- A size that is no number skips the second metric as well.
  send_segment : Map Bytes → Stats → Go Stats
  unfolding append_segment
  send_segment stats sent = elim (try_convert env (get_string (bytes "size") stats)) [
    | none ↦ ok sent
    | some size ↦
        append_segment (bytes "shared_memory_size") (some size) stats sent
        >>= append_segment (bytes "shared_memory_rss")
            (try_convert env (get_string (bytes "rss") stats)) stats
  ]

  unfoldable pub get_shared_memory_info : Go Stats
  unfolding send_segment
  get_shared_memory_info =
      get_shared_memory_stats (read_lines (bytes "/proc/sysvipc/shm")) >>= λ segments.
      for_each send_segment segments []

  unfoldable pub refresh_system_info : Go Stats
  unfolding get_fd_info get_mem_info get_net_stat_info get_network_info get_shared_memory_info
  refresh_system_info =
      if cfg.agent.refresh_system_stats
      then (do
        fd ← get_fd_info
        mem ← get_mem_info
        net_stat ← get_net_stat_info
        network ← get_network_info
        segments ← get_shared_memory_info
        ok (fd ++ (mem ++ (net_stat ++ (network ++ segments)))))
      else ok []
