-- ===== src/Refresher/Processing.antt =====
-- `Refresh` of each processor, in turn, as statsrefresh.go calls them.
pub mod Labelled
use aerospike_prometheus_exp.Base.{◌≡◌, refl, List, [], ◌∷◌, ◌++◌, Bytes, Map, Go, ok, panic, ◌>>=◌}
use aerospike_prometheus_exp.Env.{Env}
use aerospike_prometheus_exp.Stats.Shared.{SharedState}
use aerospike_prometheus_exp.Stats.Metric.{AerospikeStat}
use aerospike_prometheus_exp.Stats.Namespace
use aerospike_prometheus_exp.Stats.Node
use aerospike_prometheus_exp.Stats.Sets
use aerospike_prometheus_exp.Stats.Sindex
use aerospike_prometheus_exp.Stats.Xdr
use aerospike_prometheus_exp.Stats.Latencies
use aerospike_prometheus_exp.Refresher.State.{Processors}
use aerospike_prometheus_exp.Stats.Cache.{Sending}
use aerospike_prometheus_exp.Stats.Namespace.{NamespaceState}
use aerospike_prometheus_exp.Stats.Node.{NodeState}
use aerospike_prometheus_exp.Refresher.Passes.{Plan}

-- A processor's loop, before its first round.
abbrev pub nothing_sent : {F : Type 0} → Map (AerospikeStat F) → Sending F
nothing_sent cache = record { cache = cache; sent = [] }

module _ (env : Env) where
  open env use {Float}

  -- What the processors send, and what they keep.
  pub record Processed : Type 0 where
    pub stats : List (AerospikeStat Float)
    pub shared : SharedState
    pub processors : Processors Float

  -- The namespace processor's loop, before its first round.
  abbrev pub namespace_start : SharedState → Processors Float → NamespaceState Float
  namespace_start shared ps = record {
    sending = nothing_sent ps.namespace_cache;
    flash = ps.flash;
    sc_status = ps.sc_status;
    benchmarks = shared.namespace_latency_benchmarks;
  }

  unfoldable pub process : Plan Float → Map Bytes → SharedState → Processors Float → Go Processed
  process plan raw shared ps = do
    ns ← Namespace.refresh env shared plan.namespace_keys raw (namespace_start shared ps)
    let shared1 : SharedState = record shared { namespace_latency_benchmarks = ns.benchmarks }
    node ←
        Node.refresh env shared1 ps.log_sinks raw ps.node_cache shared1.service_latency_benchmarks
    let shared2 : SharedState = record shared1 { service_latency_benchmarks = node.benchmarks }
    sets ← Sets.refresh env shared2 raw ps.sets_cache
    sindex ← Sindex.refresh env shared2 plan.sindex_keys raw ps.sindex_cache
    xdr ← Xdr.refresh env shared2 plan.xdr_keys raw ps.xdr_cache
    latencies ← Latencies.refresh env shared2 plan.latency_keys raw
    ok (record {
      stats =
          ns.sending.sent
          ++ (node.sending.sent ++ (sets.sent ++ (sindex.sent ++ (xdr.sent ++ latencies))));
      shared = shared2;
      processors = record ps {
        namespace_cache = ns.sending.cache;
        flash = ns.flash;
        sc_status = ns.sc_status;
        node_cache = node.sending.cache;
        sets_cache = sets.cache;
        sindex_cache = sindex.cache;
        xdr_cache = xdr.cache;
      };
    })
