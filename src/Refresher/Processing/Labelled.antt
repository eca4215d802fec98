-- ===== src/Refresher/Processing/Labelled.antt =====
-- The labels of what the processors send in a refresh.
use aerospike_prometheus_exp.Base.{
  ◌≡◌, subst, List, ◌++◌, Bytes, Map, All, All-append, ok, >>=-eq-ok, ok-injective,
}
use aerospike_prometheus_exp.Env.{Env}
use aerospike_prometheus_exp.Stats.Shared.{SharedState}
use aerospike_prometheus_exp.Stats.Metric.{AerospikeStat}
use aerospike_prometheus_exp.Stats.Namespace
use aerospike_prometheus_exp.Stats.Node
use aerospike_prometheus_exp.Stats.Sets
use aerospike_prometheus_exp.Stats.Sindex
use aerospike_prometheus_exp.Stats.Xdr
use aerospike_prometheus_exp.Stats.Latencies
use aerospike_prometheus_exp.Refresher.State.{Processors}
use aerospike_prometheus_exp.Stats.Metric.{IsLabelled}
use aerospike_prometheus_exp.Stats.Namespace.Refreshed
use aerospike_prometheus_exp.Stats.Node.Labelled
use aerospike_prometheus_exp.Refresher.Passes.{Plan}
use aerospike_prometheus_exp.Refresher.Processing.{Processed, namespace_start, process}

module _ (env : Env) where
  open env use {Float}

  abbrev AreLabelled : List (AerospikeStat Float) → Type 0
  AreLabelled sent = All IsLabelled sent

  append-AreLabelled :
      (xs ys : List (AerospikeStat Float))
      → AreLabelled xs
      → AreLabelled ys
      → AreLabelled (xs ++ ys)
  append-AreLabelled xs ys h k = All-append IsLabelled xs ys h k

  pub process-AreLabelled :
      (plan : Plan Float) (raw : Map Bytes) (shared : SharedState) (ps : Processors Float)
      (out : Processed env)
      → process env plan raw shared ps ≡ ok out
      → AreLabelled out.stats
  unfolding process
  process-AreLabelled plan raw shared ps out e =
      let (ns, e1, r1) =
        >>=-eq-ok
          (Namespace.refresh env shared plan.namespace_keys raw (namespace_start env shared ps)) _
          e in
      let shared1 : SharedState = record shared { namespace_latency_benchmarks = ns.benchmarks } in
      let (node, e2, r2) =
        >>=-eq-ok
          (Node.refresh env shared1 ps.log_sinks raw ps.node_cache
            shared1.service_latency_benchmarks)
          _ r1 in
      let shared2 : SharedState = record shared1 { service_latency_benchmarks = node.benchmarks } in
      let (sets, e3, r3) = >>=-eq-ok (Sets.refresh env shared2 raw ps.sets_cache) _ r2 in
      let (sindex, e4, r4) =
        >>=-eq-ok (Sindex.refresh env shared2 plan.sindex_keys raw ps.sindex_cache) _ r3 in
      let (xdr, e5, r5) = >>=-eq-ok (Xdr.refresh env shared2 plan.xdr_keys raw ps.xdr_cache) _ r4 in
      let (latencies, e6, r6) =
        >>=-eq-ok (Latencies.refresh env shared2 plan.latency_keys raw) _ r5 in
      subst (λ o. AreLabelled o.stats) (ok-injective r6)
        (append-AreLabelled ns.sending.sent _
          (Namespace.Refreshed.refresh-IsLabelled env shared plan.namespace_keys raw
            (namespace_start env shared ps) ns tt e1)
          (append-AreLabelled node.sending.sent _
            (Node.Labelled.refresh-AreLabelled env shared1 ps.log_sinks raw ps.node_cache
              shared1.service_latency_benchmarks node e2)
            (append-AreLabelled sets.sent _
              (Sets.Labelled.refresh-AreLabelled env shared2 raw ps.sets_cache sets e3)
              (append-AreLabelled sindex.sent _
                (Sindex.Labelled.refresh-AreLabelled env shared2 plan.sindex_keys raw
                  ps.sindex_cache sindex e4)
                (append-AreLabelled xdr.sent latencies
                  (Xdr.Labelled.refresh-AreLabelled env shared2 plan.xdr_keys raw ps.xdr_cache xdr
                    e5)
                  (Latencies.Labelled.refresh-AreLabelled env shared2 plan.latency_keys raw
                    latencies e6))))))
