-- ===== src/Stats/Namespace/Naming.antt =====
-- sp_namespaces.go: the name and the labels of a namespace's statistic.
use aerospike_prometheus_exp.Base.{
  Bool, true, false, not, ◌&&◌, List, [], ◌∷◌, ◌++◌, Option, none, some, Bytes, bytes, Map,
  get_string, has_prefix, contains, nonempty, if◌then◌else◌,
}
use aerospike_prometheus_exp.Env.{Env}
use aerospike_prometheus_exp.Stats.Shared.{SharedState}
use aerospike_prometheus_exp.Stats.Metric.{
  label_cluster_name, label_service, label_ns, label_index, label_sindex, label_storage_engine,
}
use aerospike_prometheus_exp.Stats.Namespace.Arrays.{
  ArrayMatch, storage_engine, index_type, sindex_type, find_array_stat,
}

abbrev pub set_flag_flash : Bytes → Bool → Bool
set_flag_flash kind flash =
    if nonempty kind && not flash then contains kind (bytes "flash") else flash

-- The name, labels and label values of one statistic.
abbrev pub Named : Type 0
Named = Bytes × List Bytes × List Bytes

-- Labels, their values and the flag.
abbrev pub Typed : Type 0
Typed = List Bytes × List Bytes × Bool

-- The label of the index, the secondary index or the storage that a statistic is about.
unfoldable pub add_type_label : Bytes → Map Bytes → Bool → List Bytes → List Bytes → Typed
add_type_label device stats flash ls lvs =
    let index_kind = get_string index_type stats in
    let sindex_kind = get_string sindex_type stats in
    let storage = get_string storage_engine stats in
    if has_prefix device index_type && nonempty index_kind
    then (ls ++ label_index ∷ [], lvs ++ index_kind ∷ [], set_flag_flash index_kind flash)
    else if has_prefix device sindex_type && nonempty sindex_kind
    then (ls ++ label_sindex ∷ [], lvs ++ sindex_kind ∷ [], set_flag_flash sindex_kind flash)
    else if nonempty storage
    then (ls ++ label_storage_engine ∷ [], lvs ++ storage ∷ [], flash)
    else (ls, lvs, flash)

abbrev pub namespace_labels : List Bytes
namespace_labels = label_cluster_name ∷ label_service ∷ label_ns ∷ []

module _ (env : Env) (shared : SharedState) where
  abbrev pub namespace_label_values : Bytes → List Bytes
  namespace_label_values ns = shared.cluster_name ∷ shared.service ∷ ns ∷ []

  unfoldable pub name_array_stat : Bytes → Map Bytes → Bytes → Option ArrayMatch → Named
  name_array_stat ns stats device none = ([], [], [])
  name_array_stat ns stats device (some (kind, idx, metric)) = (
    device ++ (bytes "_" ++ (kind ++ (bytes "_" ++ metric))),
    label_cluster_name ∷ label_service ∷ label_ns ∷ (kind ++ bytes "_index") ∷ kind ∷ [],
    shared.cluster_name
        ∷ shared.service
        ∷ ns
        ∷ idx
        ∷ get_string (device ++ (bytes "." ++ (kind ++ (bytes "[" ++ (idx ++ bytes "]"))))) stats
        ∷ [],
  )

  unfoldable pub handle_array_stats : Bytes → Bytes → Map Bytes → Bytes → Named
  unfolding name_array_stat
  handle_array_stats ns stat stats device =
      name_array_stat ns stats device (find_array_stat device stat)

  -- The naming of a statistic whose device type, and whether it is of an array, are given.
  unfoldable pub name_stat : Bytes → Map Bytes → Bytes → Bytes × Bool → Named
  unfolding handle_array_stats
  name_stat ns stats stat (device, true) = handle_array_stats ns stat stats device
  name_stat ns stats stat (device, false) = (stat, namespace_labels, namespace_label_values ns)
