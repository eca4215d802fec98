-- ===== src/Stats/Namespace.antt =====
-- sp_namespaces.go: the processor of namespaces; its children name statistics, and read index
-- pressure and rosters.
pub mod Arrays
pub mod Naming
pub mod Pressure
pub mod Labelled
pub mod Refreshed
pub mod Maps
use aerospike_prometheus_exp.Base.{
  ℕ, zero, suc, ◌+◌, ◌≡◌, Bool, true, false, not, ◌&&◌, ◌||◌, List, [], ◌∷◌, ◌++◌, Option, none,
  some, Bytes, bytes, Map, lookup, insert, delete, get_string, has_key, equal, has_prefix, contains,
  replace_all, split, trim_space, length, nonempty, is_empty, Go, ok, panic, ◌>>=◌, index, for_each,
  if◌then◌else◌,
}
use aerospike_prometheus_exp.Env.{Env}
use aerospike_prometheus_exp.Commons.ParseStats.{parse_stats}
use aerospike_prometheus_exp.Commons.Convert.{try_convert}
use aerospike_prometheus_exp.Stats.Shared.{SharedState}
use aerospike_prometheus_exp.Stats.Metric.{
  AerospikeStat, namespace, label_cluster_name, label_service, label_ns, label_index, label_sindex,
  label_storage_engine,
}
use aerospike_prometheus_exp.Stats.Cache.{Sending, send, send_converted}
use aerospike_prometheus_exp.Stats.Benchmarks.{
  is_stat_latency_hist_related, latency_subcommand, note_benchmark,
}
use Arrays.{check_stat_persistance_type}
use Naming.{Named, Typed, add_type_label, name_stat}
use Pressure.{refresh_index_pressure, refresh_roster_stats}

abbrev pub key_metadata : Bytes
key_metadata = bytes "namespaces"

abbrev pub pass_one_keys : List Bytes
pass_one_keys = key_metadata ∷ []

-- What the processor keeps, and the shared benchmarks. A namespace without an entry in these has
-- the nil map.
pub record NamespaceState (F : Type 0) : Type 0 where
  pub sending : Sending F
  pub flash : Bool
  pub sc_status : Map Bool
  pub benchmarks : Map (Map Bytes)

-- A map for a namespace that has none.
abbrev pub ensure_map : Bytes → Map (Map Bytes) → Map (Map Bytes)
ensure_map ns m = elim (lookup ns m) [ some _ ↦ m | none ↦ insert ns [] m ]

abbrev roster_keys : Bytes → Option Bool → List Bytes
roster_keys ns (some true) = (bytes "roster:namespace=" ++ ns) ∷ []
roster_keys ns _ = []

-- The commands for each namespace, and the benchmarks' maps.
unfoldable pub namespace_keys :
    Map Bool → List Bytes → Map (Map Bytes) → List Bytes × Map (Map Bytes)
namespace_keys sc [] m = ([], m)
namespace_keys sc (ns ∷ nss) m =
    let (keys, m') = namespace_keys sc nss (ensure_map ns m) in
    ((bytes "namespace/" ++ ns) ∷ (roster_keys ns (lookup ns sc) ++ keys), m')

-- `due` is whether ten minutes have passed since index pressure was last asked for. The last
-- result is whether that time is set to now.
unfoldable pub pass_two_keys :
    Bool → Bool → Map Bool → Map (Map Bytes) → Map Bytes → List Bytes × Map (Map Bytes) × Bool
unfolding namespace_keys
pass_two_keys due flash sc benchmarks pass_one_stats =
    let (keys, m) =
      namespace_keys sc (split b';' (get_string key_metadata pass_one_stats)) benchmarks in
    if flash && due then (keys ++ bytes "index-pressure" ∷ [], m, true) else (keys, m, false)

-- The nil map takes no entry, and gives none up.
unfoldable pub note_namespace_benchmark :
    Bytes → Bytes → Bool → Map (Map Bytes) → Go (Map (Map Bytes))
note_namespace_benchmark ns stat on m = elim (lookup ns m) [
  | some b ↦ ok (
      insert ns
        (note_benchmark stat (latency_subcommand (bytes "{" ++ (ns ++ (bytes "}-" ++ stat)))) on b)
        m)
  | none ↦ if on then panic else ok m
]

-- `re-repl` is measured always.
unfoldable pub note_re_repl : Bytes → Map (Map Bytes) → Go (Map (Map Bytes))
note_re_repl ns m = elim (lookup ns m) [
  | some b ↦ ok (insert ns (insert (bytes "re-repl") (bytes "{" ++ (ns ++ bytes "}-re-repl")) b) m)
  | none ↦ panic
]

module _ (env : Env) (shared : SharedState) where
  open env use {Float, range, float_eq, of_nat}

  -- A metric without a name is not sent.
  send_named : Bytes → Bytes → Float → List Bytes → List Bytes → Sending Float → Go (Sending Float)
  send_named stat name pv ls lvs st =
      if nonempty name then send env namespace name stat name pv ls lvs st else ok st

  note_stat : Bytes → Bytes → Float → Map (Map Bytes) → Go (Map (Map Bytes))
  unfolding note_namespace_benchmark
  note_stat ns stat pv m =
      if is_stat_latency_hist_related stat
      then note_namespace_benchmark ns stat (float_eq pv (of_nat 1)) m
      else ok m

  -- A round of the loop of `refreshNamespaceStats` whose value is a number.
  unfoldable pub send_namespace_value :
      Bytes → Map Bytes → Bytes → Float → NamespaceState Float → Go (NamespaceState Float)
  unfolding send_named note_stat
  send_namespace_value ns stats stat pv st = do
    let typed = check_stat_persistance_type stat
    let (name, ls, lvs) = name_stat env shared ns stats stat typed
    let (labels, values, flash) = add_type_label typed.0 stats st.flash ls lvs
    sending ← send_named stat name pv labels values st.sending
    noted ← note_stat ns stat pv st.benchmarks
    ok (record { sending = sending; flash = flash; sc_status = st.sc_status; benchmarks = noted })

  send_namespace_stat :
      Bytes → Map Bytes → Bytes × Bytes → NamespaceState Float → Go (NamespaceState Float)
  unfolding send_namespace_value
  send_namespace_stat ns stats (stat, value) st = elim (try_convert env value) [
    | none ↦ ok st
    | some pv ↦ send_namespace_value ns stats stat pv st
  ]

  note_sc_status : Bytes → Option Bytes → Map Bool → Map Bool
  note_sc_status ns none m = m
  note_sc_status ns (some v) m = insert ns (equal (trim_space v) (bytes "true")) m

  unfoldable pub refresh_namespace_stats :
      Bytes → Map Bytes → NamespaceState Float → Go (NamespaceState Float)
  unfolding send_namespace_stat note_sc_status
  refresh_namespace_stats key raw_metrics st = do
    let ns = replace_all key (bytes "namespace/") []
    let stats = parse_stats (get_string key raw_metrics) b';'
    st' ← for_each (send_namespace_stat ns stats) (range Bytes stats) st
    noted ← note_re_repl ns st'.benchmarks
    ok (record st' {
      sc_status = note_sc_status ns (lookup (bytes "strong-consistency") stats) st'.sc_status;
      benchmarks = noted;
    })

  -- `Refresh` for one key
  unfoldable pub refresh_key : Map Bytes → Bytes → NamespaceState Float → Go (NamespaceState Float)
  unfolding refresh_namespace_stats refresh_index_pressure refresh_roster_stats
  refresh_key raw_metrics key st =
      if has_prefix key (bytes "namespace")
      then refresh_namespace_stats key raw_metrics st
      else if has_prefix key (bytes "index-pressure")
      then (refresh_index_pressure env shared key raw_metrics st.sending >>= λ s.
          ok (record st { sending = s }))
      else if has_prefix key (bytes "roster")
      then (refresh_roster_stats env shared key raw_metrics st.sending >>= λ s.
          ok (record st { sending = s }))
      else ok st

  unfoldable pub refresh : List Bytes → Map Bytes → NamespaceState Float → Go (NamespaceState Float)
  unfolding refresh_key
  refresh info_keys raw_metrics st = for_each (refresh_key raw_metrics) info_keys st
