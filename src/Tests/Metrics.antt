-- ===== src/Tests/Metrics.antt =====
-- Metrics made of answers.
use aerospike_prometheus_exp.Base.{
  ℕ, ◌≡◌, ◌<◌, ◌↔◌, refl, true, not, ◌&&◌, ◌||◌, List, [], ◌∷◌, ◌++◌, Bytes, bytes, Map, any,
  is_empty, ok, panic, lookup, insert, equal, arith,
}
use aerospike_prometheus_exp.Commons.Convert.{try_convert}
use aerospike_prometheus_exp.Stats.Metric.{namespace}
use aerospike_prometheus_exp.Stats.Filter.{
  allowlist_of, blocklist_of, is_metric_allowed, new_aerospike_stat,
}
use aerospike_prometheus_exp.Stats.Filter.Allowed.{covers, is_metric_allowed-covers}
use aerospike_prometheus_exp.Stats.Cache.{send, send_converted, Sending, Agrees, IsCoherent-empty}
use aerospike_prometheus_exp.Stats.Users.{UserRoles, allowed_user}
use aerospike_prometheus_exp.Stats.Users.Counts.{Grows, total_count, refresh-count, refresh-panic}
use aerospike_prometheus_exp.Stats.Xdr.{
  key_xdr_stat, key_xdr_config, construct_metric_name_prefix, send_xdr_stat,
}
use aerospike_prometheus_exp.Stats.Xdr.Keys.{construct_metric_name_prefix-keys}
use aerospike_prometheus_exp.Stats.Xdr.Names.{
  Round, send_round, SendsNamed, send_xdr_stat-first_name,
}
use aerospike_prometheus_exp.Stats.Sindex.{get_namespace_and_sindex_name}
use aerospike_prometheus_exp.Stats.Sindex.Names.{IsName, get_namespace_and_sindex_name-command}
use aerospike_prometheus_exp.Stats.Node.{some_sink}
use aerospike_prometheus_exp.Stats.Node.Sinks.{SinkHas, some_sink_iff}
use aerospike_prometheus_exp.Tests.{env, shared, lacks-Free, result_or}
use aerospike_prometheus_exp.Stats.Sets
use aerospike_prometheus_exp.Stats.Sets.Cached as SetsCached
use aerospike_prometheus_exp.Stats.Sindex
use aerospike_prometheus_exp.Stats.Sindex.Cached as SindexCached
use aerospike_prometheus_exp.Stats.Users

is_metric_allowed-covers_example :
    is_metric_allowed env namespace (bytes "objects")
    ≡ ok (
        not (any (covers env (bytes "objects")) (blocklist_of env namespace))
        && (is_empty (allowlist_of env namespace)
            || any (covers env (bytes "objects")) (allowlist_of env namespace)))
is_metric_allowed-covers_example =
    is_metric_allowed-covers env namespace (bytes "objects")
      (λ e. ((λ s. equal (bytes "objects") s), refl), tt)
      (λ e. ((λ s. equal (bytes "tombstones") s), refl), tt)

abbrev sets_answer : Map Bytes
sets_answer = (bytes "sets", bytes "ns=test:set=a:objects=5;ns=test:set=b:objects=7") ∷ []

refresh-eq-uncached_sets_example :
    Agrees env
      (SetsCached.recipe env shared)
      (Sets.refresh env shared sets_answer [])
      (SetsCached.refresh_uncached env shared sets_answer)
refresh-eq-uncached_sets_example =
    SetsCached.refresh-eq-uncached_sets env shared sets_answer []
      (IsCoherent-empty env (SetsCached.recipe env shared))

abbrev sindex_keys : List Bytes
sindex_keys = bytes "sindex-stat:namespace=test;indexname=i1" ∷ []

abbrev sindex_answer : Map Bytes
sindex_answer =
    (bytes "sindex-stat:namespace=test;indexname=i1", bytes "entries=5;load_pct=100") ∷ []

refresh-eq-uncached_sindex_example :
    Agrees env
      (SindexCached.recipe env shared)
      (Sindex.refresh env shared sindex_keys sindex_answer [])
      (SindexCached.refresh_uncached env shared sindex_keys sindex_answer)
refresh-eq-uncached_sindex_example =
    SindexCached.refresh-eq-uncached_sindex env shared sindex_keys sindex_answer []
      (IsCoherent-empty env (SindexCached.recipe env shared))

test-IsName : IsName (bytes "test")
test-IsName = record {
  no_colon = lacks-Free b':' (bytes "test") refl;
  no_semicolon = lacks-Free b';' (bytes "test") refl;
  no_equals = lacks-Free b'=' (bytes "test") refl;
}

get_namespace_and_sindex_name-command_example :
    get_namespace_and_sindex_name
      (bytes "sindex-stat:namespace=" ++ (bytes "test" ++ (bytes ";indexname=" ++ bytes "test")))
    ≡ ok (bytes "test", bytes "test")
get_namespace_and_sindex_name-command_example =
    get_namespace_and_sindex_name-command (bytes "test") (bytes "test") test-IsName test-IsName

construct_metric_name_prefix-keys_example :
    (construct_metric_name_prefix (key_xdr_stat ++ bytes "dc1") ≡ (bytes "dc1", [], []))
    × (construct_metric_name_prefix (key_xdr_config ++ bytes "dc1")
        ≡ (bytes "dc1", [], bytes "dc_"))
    × (construct_metric_name_prefix
          (key_xdr_config ++ (bytes "dc1" ++ (bytes ";namespace=" ++ bytes "test")))
        ≡ (bytes "dc1", bytes "test", bytes "dc_namespace_"))
    × (construct_metric_name_prefix
          (key_xdr_stat ++ (bytes "dc1" ++ (bytes ";namespace=" ++ bytes "test")))
        ≡ (bytes "dc1", bytes "test", bytes "dc_namespace_"))
construct_metric_name_prefix-keys_example =
    construct_metric_name_prefix-keys (bytes "dc1") (lacks-Free b';' (bytes "dc1") refl)
      (bytes "test") (lacks-Free b';' (bytes "test") refl)

abbrev uncached : Sending ℕ
uncached = record { cache = []; sent = [] }

-- A round for the datacenter, and one for one of its namespaces.
abbrev of_dc : Round
of_dc = ((bytes "dc1", [], []), (bytes "recoveries", bytes "9"))

abbrev of_lag : Round
of_lag = ((bytes "dc1", [], []), (bytes "lag", bytes "1"))

abbrev after_dc : Sending ℕ
after_dc = result_or uncached (send_round env shared of_dc uncached)

abbrev after_lag : Sending ℕ
after_lag = result_or after_dc (send_round env shared of_lag after_dc)

send_xdr_stat-first_name_example :
    (u : Sending ℕ) × (send_round env shared
        ((bytes "dc1", bytes "test", bytes "dc_namespace_"), (bytes "recoveries", bytes "7"))
        after_lag
      ≡ ok u)
    × SendsNamed env shared (bytes "recoveries") (bytes "dc1") (bytes "test") after_lag u
unfolding try_convert lookup equal send_xdr_stat send_converted send is_metric_allowed insert
    new_aerospike_stat
send_xdr_stat-first_name_example =
    send_xdr_stat-first_name env shared (bytes "dc1") [] [] (bytes "recoveries") (bytes "9") 9
      (of_lag ∷ []) (bytes "dc1") (bytes "test") (bytes "dc_namespace_") (bytes "7") 7 uncached
      after_dc after_lag refl refl refl refl refl

abbrev reader : UserRoles
reader = record {
  user = bytes "reader";
  conns_in_use = 3;
  read_info = 1 ∷ 2 ∷ 3 ∷ 4 ∷ [];
  write_info = 5 ∷ 6 ∷ 7 ∷ 8 ∷ [];
}

abbrev writer : UserRoles
writer = record {
  user = bytes "writer";
  conns_in_use = 3;
  read_info = 1 ∷ 2 ∷ 3 ∷ 4 ∷ 5 ∷ [];
  write_info = 5 ∷ 6 ∷ 7 ∷ 8 ∷ [];
}

refresh-count_example :
    Grows env shared
      (total_count env shared (reader ∷ []))
      []
      (Users.refresh env shared (reader ∷ []))
refresh-count_example = refresh-count env shared (reader ∷ []) ((omega arith, omega arith), tt)

refresh-panic_example : Users.refresh env shared (writer ∷ reader ∷ []) ≡ panic
unfolding allowed_user
refresh-panic_example = refresh-panic env shared writer (reader ∷ []) 1 2 3 4 5 [] refl refl refl

abbrev logs : Map Bytes
logs = (bytes "log/0", bytes "misc:INFO") ∷ (bytes "log/1", bytes "misc:DEBUG;alloc:INFO") ∷ []

some_sink_iff_example :
    (some_sink env shared (bytes ":DEBUG") 2 0 logs ≡ true)
    ↔ ((k : ℕ) × (k < 2) × SinkHas env shared (bytes ":DEBUG") logs k)
some_sink_iff_example = some_sink_iff env shared (bytes ":DEBUG") 2 logs
