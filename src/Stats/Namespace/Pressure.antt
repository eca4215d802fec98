-- ===== src/Stats/Namespace/Pressure.antt =====
-- sp_namespaces.go: index pressure and rosters.
pub mod Labelled
use aerospike_prometheus_exp.Base.{
  ℕ, ◌+◌, not, ◌&&◌, List, [], ◌∷◌, ◌++◌, Option, none, some, Bytes, bytes, Map, get_string, equal,
  split, length, nonempty, Go, ok, panic, ◌>>=◌, index, for_each, if◌then◌else◌,
}
use aerospike_prometheus_exp.Env.{Env}
use aerospike_prometheus_exp.Commons.ParseStats.{parse_stats}
use aerospike_prometheus_exp.Commons.Convert.{try_convert}
use aerospike_prometheus_exp.Stats.Shared.{SharedState}
use aerospike_prometheus_exp.Stats.Metric.{namespace}
use aerospike_prometheus_exp.Stats.Cache.{Sending, send, send_converted}
use aerospike_prometheus_exp.Stats.Namespace.Naming.{namespace_labels, namespace_label_values}

abbrev pub pressure_names : List Bytes
pressure_names =
    bytes "index_pressure_namespace"
    ∷ bytes "index_pressure_total_memory"
    ∷ bytes "index_pressure_dirty_memory"
    ∷ []

module _ (env : Env) (shared : SharedState) where
  open env use {Float, range, of_nat}

  send_pressure_value : Bytes → Bytes → Option Float → Sending Float → Go (Sending Float)
  send_pressure_value ns name pv st =
      send_converted env namespace name name name pv namespace_labels
        (namespace_label_values env shared ns) st

  -- A value that is a number and has no name panics.
  pressure_value : Bytes → ℕ → Option Float → Sending Float → Go (Sending Float)
  unfolding send_pressure_value
  pressure_value ns i none st = ok st
  pressure_value ns i (some pv) st =
      index pressure_names i >>= λ name. send_pressure_value ns name (some pv) st

  unfoldable pub pressure_values : Bytes → ℕ → List Bytes → Sending Float → Go (Sending Float)
  unfolding pressure_value
  pressure_values ns i [] st = ok st
  pressure_values ns i (v ∷ vs) st =
      pressure_value ns i (try_convert env v) st >>= pressure_values ns (i + 1) vs

  pressure_of : List Bytes → Sending Float → Go (Sending Float)
  unfolding pressure_values
  pressure_of [] st = panic
  pressure_of (ns ∷ values) st = pressure_values ns 1 values st

  unfoldable pub refresh_index_pressure : Bytes → Map Bytes → Sending Float → Go (Sending Float)
  unfolding pressure_of
  refresh_index_pressure key raw_metrics st =
      for_each (λ text. pressure_of (split b':' text)) (split b';' (get_string key raw_metrics)) st

  roster_size : Bytes → ℕ
  roster_size value =
      if not (equal value (bytes "null")) && nonempty value then length (split b',' value) else 0

  send_roster : Bytes → Bytes × Bytes → Sending Float → Go (Sending Float)
  unfolding roster_size
  send_roster ns (stat, value) st =
      let name = bytes "pseudo_" ++ (stat ++ bytes "_size") in
      send env namespace name name name (of_nat (roster_size value)) namespace_labels
        (namespace_label_values env shared ns) st

  unfoldable pub refresh_roster_stats : Bytes → Map Bytes → Sending Float → Go (Sending Float)
  unfolding send_roster
  refresh_roster_stats key raw_metrics st =
      let roster = get_string key raw_metrics in
      if nonempty roster
      then (do
        ns ← index (split b'=' key) 1
        for_each (send_roster ns) (range Bytes (parse_stats roster b':')) st)
      else ok st
