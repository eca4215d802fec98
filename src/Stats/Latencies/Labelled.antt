-- ===== src/Stats/Latencies/Labelled.antt =====
-- The labels of latency metrics.
use aerospike_prometheus_exp.Base.{
  ℕ, zero, suc, ◌≡◌, refl, subst, Bool, true, false, List, [], ◌∷◌, ◌++◌, Bytes, Map, nonempty,
  trim_space, length, length-append, arith, All, All-append, ok, >>=-eq-ok, ok-injective, index,
  for_each_inv, if◌then◌else◌,
}
use aerospike_prometheus_exp.Env.{Env}
use aerospike_prometheus_exp.Stats.Shared.{SharedState}
use aerospike_prometheus_exp.Stats.Metric.{
  AerospikeStat, latencies, IsLabelled, label_cluster_name, label_service, label_le, label_ns,
}
use aerospike_prometheus_exp.Stats.Cache.{make}
use aerospike_prometheus_exp.Latency.Parser.{LatencyStats}
use aerospike_prometheus_exp.Stats.Latencies.{
  with_namespace, latency_stat, bucket_stat, count_stat, send_buckets, send_operation,
  send_namespace, read_latencies, is_operation_allowed, parse_single_latencies_key, refresh,
}

-- The namespace's label and its value come together.
with_namespace-length :
    (ns : Bytes) (xs ys : List Bytes) (x y : Bytes)
    → length xs ≡ length ys
    → length (with_namespace ns xs x) ≡ length (with_namespace ns ys y)
with_namespace-length ns xs ys x y e = go (nonempty (trim_space ns))
  where
    go :
        (b : Bool)
        → length (if b then xs ++ x ∷ [] else xs) ≡ length (if b then ys ++ y ∷ [] else ys)
    go true = ground (arith, length-append xs (x ∷ []), length-append ys (y ∷ []))
    go false = e

module _ (env : Env) (shared : SharedState) where
  open env use {Float, range}

  abbrev pub AreLabelled : List (AerospikeStat Float) → Type 0
  AreLabelled sent = All IsLabelled sent

  latency_stat-IsLabelled :
      (name : Bytes) (v : Float) (ls lvs : List Bytes) (m : AerospikeStat Float)
      → length ls ≡ length lvs
      → latency_stat env shared name v ls lvs ≡ ok m
      → IsLabelled m
  unfolding latency_stat
  latency_stat-IsLabelled name v ls lvs m h e =
      let (made, first, eq) = >>=-eq-ok (make env latencies name name) _ e in
      subst IsLabelled (ok-injective eq) h

  bucket_stat-IsLabelled :
      (ns op : Bytes) (stats : LatencyStats Float) (i : ℕ) (le : Bytes) (m : AerospikeStat Float)
      → bucket_stat env shared ns op stats i le ≡ ok m
      → IsLabelled m
  unfolding bucket_stat
  bucket_stat-IsLabelled ns op stats i le m e =
      let (pv, found, eq) = >>=-eq-ok (index stats.bucket_values i) _ e in
      latency_stat-IsLabelled _ pv _ _ m
        (with_namespace-length ns (label_cluster_name ∷ label_service ∷ label_le ∷ [])
          (shared.cluster_name ∷ shared.service ∷ le ∷ []) label_ns ns refl)
        eq

  count_stat-IsLabelled :
      (ns op : Bytes) (stats : LatencyStats Float) (m : AerospikeStat Float)
      → count_stat env shared ns op stats ≡ ok m
      → IsLabelled m
  unfolding count_stat
  count_stat-IsLabelled ns op stats m e =
      let (pv, found, eq) = >>=-eq-ok (index stats.bucket_values 0) _ e in
      latency_stat-IsLabelled _ pv _ _ m
        (with_namespace-length ns (label_cluster_name ∷ label_service ∷ [])
          (shared.cluster_name ∷ shared.service ∷ []) label_ns ns refl)
        eq

  send_buckets-AreLabelled :
      (ns op : Bytes) (stats : LatencyStats Float) (i : ℕ) (les : List Bytes)
      (sent out : List (AerospikeStat Float))
      → AreLabelled sent
      → send_buckets env shared ns op stats i les sent ≡ ok out
      → AreLabelled out
  unfolding send_buckets
  send_buckets-AreLabelled ns op stats i [] sent out h e = subst AreLabelled (ok-injective e) h
  send_buckets-AreLabelled ns op stats zero (le ∷ les) sent out h e =
      let (b, bucket, e1) = >>=-eq-ok (bucket_stat env shared ns op stats 0 le) _ e in
      let (c, count, e2) = >>=-eq-ok (count_stat env shared ns op stats) _ e1 in
      send_buckets-AreLabelled ns op stats 1 les _ out
        (All-append IsLabelled sent (b ∷ c ∷ []) h (
          bucket_stat-IsLabelled ns op stats 0 le b bucket,
          (count_stat-IsLabelled ns op stats c count, tt),
        ))
        e2
  send_buckets-AreLabelled ns op stats (suc i) (le ∷ les) sent out h e =
      let (b, bucket, e1) = >>=-eq-ok (bucket_stat env shared ns op stats (suc i) le) _ e in
      send_buckets-AreLabelled ns op stats (suc (suc i)) les _ out
        (All-append IsLabelled sent (b ∷ []) h
          (bucket_stat-IsLabelled ns op stats (suc i) le b bucket, tt))
        e1

  send_operation-AreLabelled :
      (ns : Bytes) (x : Bytes × LatencyStats Float) (sent out : List (AerospikeStat Float))
      → AreLabelled sent
      → send_operation env shared ns x sent ≡ ok out
      → AreLabelled out
  unfolding send_operation
  send_operation-AreLabelled ns (op, stats) sent out h e = go (is_operation_allowed env shared op) e
    where
      go :
          (b : Bool)
          → (if b then send_buckets env shared ns op stats 0 stats.bucket_labels sent else ok sent)
            ≡ ok out
          → AreLabelled out
      go true q = send_buckets-AreLabelled ns op stats 0 stats.bucket_labels sent out h q
      go false q = subst AreLabelled (ok-injective q) h

  send_namespace-AreLabelled :
      (x : Bytes × Map (LatencyStats Float)) (sent out : List (AerospikeStat Float))
      → AreLabelled sent
      → send_namespace env shared x sent ≡ ok out
      → AreLabelled out
  unfolding send_namespace
  send_namespace-AreLabelled (ns, ops) sent out h e =
      for_each_inv AreLabelled (send_operation env shared ns) (send_operation-AreLabelled ns)
        (range (LatencyStats Float) ops) sent h e

  -- Every latency metric that a refresh sends has a value for each of its labels.
  pub refresh-AreLabelled :
      (info_keys : List Bytes) (raw_metrics : Map Bytes) (out : List (AerospikeStat Float))
      → refresh env shared info_keys raw_metrics ≡ ok out
      → AreLabelled out
  unfolding refresh parse_single_latencies_key
  refresh-AreLabelled info_keys raw_metrics out e =
      for_each_inv AreLabelled (parse_single_latencies_key env shared raw_metrics) keep info_keys []
        tt e
    where
      keep :
          (key : Bytes) (sent t : List (AerospikeStat Float))
          → AreLabelled sent
          → parse_single_latencies_key env shared raw_metrics key sent ≡ ok t
          → AreLabelled t
      keep key sent t h q =
          let (stats, read, eq) = >>=-eq-ok (read_latencies env shared key raw_metrics) _ q in
          for_each_inv AreLabelled (send_namespace env shared) send_namespace-AreLabelled
            (range (Map (LatencyStats Float)) stats) sent h eq
