-- ===== src/Host/Processor/Labelled.antt =====
-- The labels of the host's metrics.
use aerospike_prometheus_exp.Base.{
  ◌≡◌, refl, subst, Bool, true, false, List, [], ◌∷◌, ◌++◌, Option, none, some, Bytes, bytes, Map,
  get_string, to_lower, length, All, All-append, Go, ok, ◌>>=◌, >>=-eq-ok, ok-injective, for_each,
  for_each_inv, if◌then◌else◌,
}
use aerospike_prometheus_exp.Env.{Env}
use aerospike_prometheus_exp.Commons.Convert.{try_convert}
use aerospike_prometheus_exp.Stats.Shared.{SharedState}
use aerospike_prometheus_exp.Stats.Metric.{
  Context, AerospikeStat, update_values, IsLabelled, sysinfo_memory_stats, sysinfo_netstat,
  sysinfo_network, sysinfo_filefd,
}
use aerospike_prometheus_exp.Stats.Cache.{make}
use aerospike_prometheus_exp.Host.Segments.{get_shared_memory_stats}
use aerospike_prometheus_exp.Host.Files.{
  Host, get_file_fd, parse_net_stats, get_mem_info_stats, get_net_dev_stats,
}
use aerospike_prometheus_exp.Host.Processor
use aerospike_prometheus_exp.Host.Processor.{
  host_labels, device_labels, segment_labels, append_converted, get_fd_info, get_mem_info,
  get_net_stat_info, get_network_info, get_shared_memory_info, refresh_system_info,
}

module _ (env : Env) (host : Host (env.Float)) (shared : SharedState) where
  open env use {cfg, Float, range}
  open host use {read_lines}

  abbrev AreLabelled : List (AerospikeStat Float) → Type 0
  AreLabelled sent = All IsLabelled sent

  append_converted-AreLabelled :
      (ctx : Context) (stat name : Bytes) (o : Option Float) (ls lvs : List Bytes)
      (sent out : List (AerospikeStat Float))
      → length ls ≡ length lvs
      → AreLabelled sent
      → append_converted env host shared ctx stat name o ls lvs sent ≡ ok out
      → AreLabelled out
  unfolding append_converted
  append_converted-AreLabelled ctx stat name none ls lvs sent out p h e =
      subst AreLabelled (ok-injective e) h
  append_converted-AreLabelled ctx stat name (some v) ls lvs sent out p h e =
      let (m, _, e') = >>=-eq-ok (make env ctx stat name) _ e in
      subst AreLabelled (ok-injective e')
        (All-append IsLabelled sent (update_values v ls lvs m ∷ []) h (p, tt))

  get_fd_info-AreLabelled :
      (out : List (AerospikeStat Float)) → get_fd_info env host shared ≡ ok out → AreLabelled out
  unfolding get_fd_info
  get_fd_info-AreLabelled out e =
      let (stats, _, e') =
        >>=-eq-ok (get_file_fd (read_lines (bytes "/proc/sys/fs/file-nr"))) _ e in
      append_converted-AreLabelled sysinfo_filefd (bytes "allocated") (bytes "allocated")
        (try_convert env (get_string (bytes "allocated") stats)) host_labels
        (Processor.host_values env host shared) [] out refl tt e'

  send_mem_stat-AreLabelled :
      (x : Bytes × Bytes) (sent out : List (AerospikeStat Float))
      → AreLabelled sent
      → Processor.send_mem_stat env host shared x sent ≡ ok out
      → AreLabelled out
  unfolding Processor.send_mem_stat
  send_mem_stat-AreLabelled (stat, value) sent out h e =
      append_converted-AreLabelled sysinfo_memory_stats stat (to_lower stat ++ bytes "_bytes")
        (try_convert env value) host_labels (Processor.host_values env host shared) sent out refl h
        e

  get_mem_info-AreLabelled :
      (out : List (AerospikeStat Float)) → get_mem_info env host shared ≡ ok out → AreLabelled out
  unfolding get_mem_info
  get_mem_info-AreLabelled out e =
      for_each_inv AreLabelled (Processor.send_mem_stat env host shared) send_mem_stat-AreLabelled
        (range Bytes (get_mem_info_stats env host)) [] tt e

  send_net_stat-AreLabelled :
      (x : Bytes × Bytes) (sent out : List (AerospikeStat Float))
      → AreLabelled sent
      → Processor.send_net_stat env host shared x sent ≡ ok out
      → AreLabelled out
  unfolding Processor.send_net_stat
  send_net_stat-AreLabelled (stat, value) sent out h e =
      append_converted-AreLabelled sysinfo_netstat stat stat (try_convert env value) host_labels
        (Processor.host_values env host shared) sent out refl h e

  get_net_stat_info-AreLabelled :
      (out : List (AerospikeStat Float))
      → get_net_stat_info env host shared ≡ ok out
      → AreLabelled out
  unfolding get_net_stat_info
  get_net_stat_info-AreLabelled out e =
      let (stats, _, e') = >>=-eq-ok (parse_net_stats (read_lines (bytes "/proc/net/snmp"))) _ e in
      for_each_inv AreLabelled (Processor.send_net_stat env host shared) send_net_stat-AreLabelled
        (range Bytes stats) [] tt e'

  send_dev_stat-AreLabelled :
      (stat : Bytes) (stats : Map Bytes) (sent out : List (AerospikeStat Float))
      → AreLabelled sent
      → Processor.send_dev_stat env host shared stat stats sent ≡ ok out
      → AreLabelled out
  unfolding Processor.send_dev_stat
  send_dev_stat-AreLabelled stat stats sent out h e =
      append_converted-AreLabelled sysinfo_network stat stat
        (try_convert env (get_string stat stats)) device_labels
        (shared.cluster_name ∷ shared.service ∷ get_string (bytes "device_name") stats ∷ []) sent
        out refl h e

  get_network_info-AreLabelled :
      (out : List (AerospikeStat Float))
      → get_network_info env host shared ≡ ok out
      → AreLabelled out
  unfolding get_network_info
  get_network_info-AreLabelled out e =
      let devices = get_net_dev_stats env host in
      let receive = Processor.send_dev_stat env host shared (bytes "receive_bytes_total") in
      let transfer = Processor.send_dev_stat env host shared (bytes "transfer_bytes_total") in
      let (mid, first, e') = >>=-eq-ok (for_each receive devices.0 []) _ e in
      for_each_inv AreLabelled transfer (send_dev_stat-AreLabelled (bytes "transfer_bytes_total"))
        devices.1 mid
        (for_each_inv AreLabelled receive (send_dev_stat-AreLabelled (bytes "receive_bytes_total"))
          devices.0 [] tt first)
        e'

  append_segment-AreLabelled :
      (stat : Bytes) (o : Option Float) (stats : Map Bytes) (sent out : List (AerospikeStat Float))
      → AreLabelled sent
      → Processor.append_segment env host shared stat o stats sent ≡ ok out
      → AreLabelled out
  unfolding Processor.append_segment
  append_segment-AreLabelled stat o stats sent out h e =
      append_converted-AreLabelled sysinfo_memory_stats stat stat o segment_labels
        (Processor.segment_values env host shared stats) sent out refl h e

  send_segment-AreLabelled :
      (stats : Map Bytes) (sent out : List (AerospikeStat Float))
      → AreLabelled sent
      → Processor.send_segment env host shared stats sent ≡ ok out
      → AreLabelled out
  unfolding Processor.send_segment
  send_segment-AreLabelled stats sent out h e =
      go (try_convert env (get_string (bytes "size") stats)) e
    where
      rss : Option Float
      rss = try_convert env (get_string (bytes "rss") stats)

      go :
          (o : Option Float)
          → (elim o [
            | none ↦ ok sent
            | some size ↦
                Processor.append_segment env host shared
                  (bytes "shared_memory_size")
                  (some size)
                  stats
                  sent
                >>= Processor.append_segment env host shared (bytes "shared_memory_rss") rss stats
          ])
            ≡ ok out
          → AreLabelled out
      go none q = subst AreLabelled (ok-injective q) h
      go (some size) q =
          let (mid, first, q') =
            >>=-eq-ok
              (Processor.append_segment env host shared (bytes "shared_memory_size") (some size)
                stats sent)
              _ q in
          append_segment-AreLabelled (bytes "shared_memory_rss") rss stats mid out
            (append_segment-AreLabelled (bytes "shared_memory_size") (some size) stats sent mid h
              first)
            q'

  get_shared_memory_info-AreLabelled :
      (out : List (AerospikeStat Float))
      → get_shared_memory_info env host shared ≡ ok out
      → AreLabelled out
  unfolding get_shared_memory_info
  get_shared_memory_info-AreLabelled out e =
      let (segments, _, e') =
        >>=-eq-ok (get_shared_memory_stats (read_lines (bytes "/proc/sysvipc/shm"))) _ e in
      for_each_inv AreLabelled (Processor.send_segment env host shared) send_segment-AreLabelled
        segments [] tt e'

  pub refresh_system_info-AreLabelled :
      (out : List (AerospikeStat Float))
      → refresh_system_info env host shared ≡ ok out
      → AreLabelled out
  unfolding refresh_system_info
  refresh_system_info-AreLabelled out e = go cfg.agent.refresh_system_stats e
    where
      run : Go (List (AerospikeStat Float))
      run = do
        fd ← get_fd_info env host shared
        mem ← get_mem_info env host shared
        net_stat ← get_net_stat_info env host shared
        network ← get_network_info env host shared
        segments ← get_shared_memory_info env host shared
        ok (fd ++ (mem ++ (net_stat ++ (network ++ segments))))

      go : (b : Bool) → (if b then run else ok []) ≡ ok out → AreLabelled out
      go false q = subst AreLabelled (ok-injective q) tt
      go true q =
          let (fd, e1, r1) = >>=-eq-ok (get_fd_info env host shared) _ q in
          let (mem, e2, r2) = >>=-eq-ok (get_mem_info env host shared) _ r1 in
          let (net_stat, e3, r3) = >>=-eq-ok (get_net_stat_info env host shared) _ r2 in
          let (network, e4, r4) = >>=-eq-ok (get_network_info env host shared) _ r3 in
          let (segments, e5, r5) = >>=-eq-ok (get_shared_memory_info env host shared) _ r4 in
          subst AreLabelled (ok-injective r5) (
            All-append IsLabelled fd _ (get_fd_info-AreLabelled fd e1) (
              All-append IsLabelled mem _ (get_mem_info-AreLabelled mem e2) (
                All-append IsLabelled net_stat _ (get_net_stat_info-AreLabelled net_stat e3) (
                  All-append IsLabelled network segments (get_network_info-AreLabelled network e4)
                    (get_shared_memory_info-AreLabelled segments e5)))))
