-- ===== src/Stats/Gauges.antt =====
-- internal/pkg/config/gauge_stats.go: the sets of gauges, made of the lists that were read.
use aerospike_prometheus_exp.Base.{
  ◌≡◌, refl, ap, ◌∙◌, Bool, true, false, List, [], ◌∷◌, Option, none, some, Bytes, Map, lookup,
  insert, lookup-insert, equal, any, if◌then◌else◌, contains, to_lower, replace_all, bytes, ◌||◌,
}
use aerospike_prometheus_exp.Env.{Env, GaugeStats}
use aerospike_prometheus_exp.Stats.Metric.{
  Context, users, namespace, node_stats, sets, sindex, xdr, latencies, sysinfo_memory_stats,
  sysinfo_netstat, sysinfo_network, sysinfo_filefd, context_name, gauge, counter,
}
use aerospike_prometheus_exp.Stats.Filter.{in_set, is_gauge, type_by_name, get_metric_type}

-- The loop of `createMapFromArray`, from the map so far.
add_all : List Bytes → Map Bool → Map Bool
add_all [] m = m
add_all (s ∷ ss) m = add_all ss (insert s true m)

unfoldable pub create_map_from_array : List Bytes → Map Bool
unfolding add_all
create_map_from_array stats = add_all stats []

-- `InitGaugeStats`, once the file is read; the lists are emptied.
unfoldable pub init_gauge_stats : GaugeStats → GaugeStats
unfolding create_map_from_array
init_gauge_stats g = record {
  namespace = [];
  node = [];
  sets = [];
  sindex = [];
  xdr = [];
  sys_info = [];
  namespace_stats = create_map_from_array g.namespace;
  node_stats = create_map_from_array g.node;
  sets_stats = create_map_from_array g.sets;
  sindex_stats = create_map_from_array g.sindex;
  xdr_stats = create_map_from_array g.xdr;
  sys_info_stats = create_map_from_array g.sys_info;
}

-- The list of a context.
abbrev pub listed : GaugeStats → Context → List Bytes
listed g namespace = g.namespace
listed g node_stats = g.node
listed g sets = g.sets
listed g sindex = g.sindex
listed g xdr = g.xdr
listed g users = []
listed g latencies = []
listed g _ = g.sys_info

abbrev pub names : Bytes → List Bytes → Bool
names s = any (λ x. equal x s)

in_set-insert :
    (s k : Bytes) (m : Map Bool)
    → in_set s (insert k true m) ≡ (if equal k s then true else in_set s m)
in_set-insert s k m =
    ap (λ (o : Option Bool). elim o [ none ↦ false | some c ↦ c ])
      (lookup-insert {V = Bool} k s true m)
    ∙ go (equal k s)
  where
    go :
        (b : Bool)
        → (elim (if b then some true else lookup s m) [ none ↦ false | some c ↦ c ])
          ≡ (if b then true else in_set s m)
    go true = refl
    go false = refl

in_set-add_all :
    (s : Bytes) (ss : List Bytes) (m : Map Bool)
    → in_set s (add_all ss m) ≡ (if names s ss then true else in_set s m)
unfolding add_all
in_set-add_all s [] m = refl
in_set-add_all s (k ∷ ss) m =
    in_set-add_all s ss (insert k true m) ∙ go (equal k s) (names s ss) (in_set-insert s k m)
  where
    go :
        (b c : Bool)
        → in_set s (insert k true m) ≡ (if b then true else in_set s m)
        → (if c then true else in_set s (insert k true m))
          ≡ (if (elim b [ true ↦ true | false ↦ c ]) then true else in_set s m)
    go true true h = refl
    go true false h = h
    go false true h = refl
    go false false h = h

in_set-create_map : (s : Bytes) (ss : List Bytes) → in_set s (create_map_from_array ss) ≡ names s ss
unfolding create_map_from_array lookup
in_set-create_map s ss = in_set-add_all s ss [] ∙ go (names s ss)
  where
    go : (c : Bool) → (if c then true else false) ≡ c
    go true = refl
    go false = refl

-- The lookup alone: users and latencies have no list, and all host contexts share one.
is_gauge-listed :
    (env : Env) (g : GaugeStats) (ctx : Context) (s : Bytes)
    → is_gauge (record env { gauge_stats = init_gauge_stats g }) ctx s ≡ names s (listed g ctx)
unfolding is_gauge init_gauge_stats context_name contains to_lower
is_gauge-listed env g users s = refl
is_gauge-listed env g namespace s = in_set-create_map s g.namespace
is_gauge-listed env g node_stats s = in_set-create_map s g.node
is_gauge-listed env g sets s = in_set-create_map s g.sets
is_gauge-listed env g sindex s = in_set-create_map s g.sindex
is_gauge-listed env g xdr s = in_set-create_map s g.xdr
is_gauge-listed env g latencies s = refl
is_gauge-listed env g sysinfo_memory_stats s = in_set-create_map s g.sys_info
is_gauge-listed env g sysinfo_netstat s = in_set-create_map s g.sys_info
is_gauge-listed env g sysinfo_network s = in_set-create_map s g.sys_info
is_gauge-listed env g sysinfo_filefd s = in_set-create_map s g.sys_info

-- The contexts of gauges only.
abbrev pub only_gauges : Context → Bool
only_gauges users = true
only_gauges latencies = true
only_gauges _ = false

by_list :
    (env : Env) (g : GaugeStats) (ctx : Context) (raw : Bytes)
    → type_by_name (record env { gauge_stats = init_gauge_stats g }) ctx raw ≡ (
        if contains (replace_all raw (bytes "storage-engine") []) (bytes "-")
          || names (replace_all raw (bytes "storage-engine") []) (listed g ctx)
        then gauge
        else counter)
unfolding type_by_name
by_list env g ctx raw =
    rw (is_gauge-listed env g ctx (replace_all raw (bytes "storage-engine") [])) refl

-- Once the gauge list is read, a metric of users or latencies is a gauge, and so is one whose name,
-- the text `storage-engine` taken out, has a dash or is named by the list of its context, where the
-- host's contexts share one list; every other metric is a counter.
pub get_metric_type-listed :
    (env : Env) (g : GaugeStats) (ctx : Context) (raw : Bytes)
    → get_metric_type (record env { gauge_stats = init_gauge_stats g }) ctx raw ≡ (
        if only_gauges ctx
          || (contains (replace_all raw (bytes "storage-engine") []) (bytes "-")
              || names (replace_all raw (bytes "storage-engine") []) (listed g ctx))
        then gauge
        else counter)
unfolding get_metric_type type_by_name
get_metric_type-listed env g users raw = refl
get_metric_type-listed env g latencies raw = refl
get_metric_type-listed env g namespace raw = by_list env g namespace raw
get_metric_type-listed env g node_stats raw = by_list env g node_stats raw
get_metric_type-listed env g sets raw = by_list env g sets raw
get_metric_type-listed env g sindex raw = by_list env g sindex raw
get_metric_type-listed env g xdr raw = by_list env g xdr raw
get_metric_type-listed env g sysinfo_memory_stats raw = by_list env g sysinfo_memory_stats raw
get_metric_type-listed env g sysinfo_netstat raw = by_list env g sysinfo_netstat raw
get_metric_type-listed env g sysinfo_network raw = by_list env g sysinfo_network raw
get_metric_type-listed env g sysinfo_filefd raw = by_list env g sysinfo_filefd raw
