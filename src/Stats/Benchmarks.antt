-- ===== src/Stats/Benchmarks.antt =====
-- The histograms that a server's settings enable, as sp_node_stats.go and sp_namespaces.go collect
-- them for sp_latency.go.
use aerospike_prometheus_exp.Base.{
  Bool, not, ◌&&◌, ◌||◌, [], Bytes, bytes, Map, insert, delete, contains, replace_all,
  if◌then◌else◌,
}

-- sp_latency.go
unfoldable pub is_stat_latency_hist_related : Bytes → Bool
unfolding contains
is_stat_latency_hist_related stat =
    not (contains stat (bytes "enable-benchmarks-storage"))
    && (contains stat (bytes "enable-benchmarks-") || contains stat (bytes "enable-hist-"))

abbrev drop_text : Bytes → Bytes → Bytes
drop_text part s = if contains s part then replace_all s part [] else s

-- The server's histograms are named without `enable-` and `hist-`.
unfoldable pub latency_subcommand : Bytes → Bytes
unfolding contains replace_all
latency_subcommand s = drop_text (bytes "hist-") (drop_text (bytes "enable-") s)

-- A histogram that is switched on is remembered under its setting, and one that is off forgotten.
unfoldable pub note_benchmark : Bytes → Bytes → Bool → Map Bytes → Map Bytes
note_benchmark stat command on m = if on then insert stat command m else delete stat m
