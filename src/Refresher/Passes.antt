-- ===== src/Refresher/Passes.antt =====
-- The keys of the two requests of statsrefresh.go, and what is read off the second answer at once.
use aerospike_prometheus_exp.Base.{
  ℕ, ◌*◌, ◌-◌, List, [], ◌∷◌, ◌++◌, Bytes, bytes, Map, get_string, leb, Go, ok, ◌>>=◌,
  if◌then◌else◌,
}
use aerospike_prometheus_exp.Env.{Env}
use aerospike_prometheus_exp.Stats.Shared.{SharedState}
use aerospike_prometheus_exp.Stats.Namespace
use aerospike_prometheus_exp.Stats.Node
use aerospike_prometheus_exp.Stats.Sets
use aerospike_prometheus_exp.Stats.Sindex
use aerospike_prometheus_exp.Stats.Xdr
use aerospike_prometheus_exp.Stats.Latencies
use aerospike_prometheus_exp.Refresher.State.{Processors}

-- The keys of the second request by the processor, and what the processors keep then.
pub record Plan (F : Type 0) : Type 0 where
  pub namespace_keys : List Bytes
  pub node_keys : List Bytes
  pub sets_keys : List Bytes
  pub sindex_keys : List Bytes
  pub xdr_keys : List Bytes
  pub latency_keys : List Bytes
  pub shared : SharedState
  pub processors : Processors F

-- ten minutes
abbrev index_pressure_interval : ℕ
index_pressure_interval = 600 * 1000000000

module _ (env : Env) where
  open env use {cfg, Float}

  -- The latency processor asks for nothing in the first pass.
  unfoldable pub pass_one_keys : SharedState → List Bytes
  pass_one_keys shared =
      Namespace.pass_one_keys
      ++ (Node.pass_one_keys
          ++ (Sets.pass_one_keys
              ++ (Sindex.pass_one_keys env shared ++ (Xdr.pass_one_keys ++ bytes "build" ∷ []))))

  -- `PassTwoKeys` of each processor, in turn.
  unfoldable pub make_plan : ℕ → SharedState → Processors Float → Map Bytes → Go (Plan Float)
  make_plan now shared ps pass_one =
      let due = leb index_pressure_interval (now - ps.index_pressure_time) in
      let (keys, noted, asked) =
        Namespace.pass_two_keys due ps.flash ps.sc_status shared.namespace_latency_benchmarks
          pass_one in
      let later : SharedState = record shared { namespace_latency_benchmarks = noted } in
      Node.pass_two_keys env later pass_one >>= λ node. ok (record {
        namespace_keys = keys;
        node_keys = node.0;
        sets_keys = Sets.pass_two_keys pass_one;
        sindex_keys = Sindex.pass_two_keys env later pass_one;
        xdr_keys = Xdr.pass_two_keys pass_one;
        latency_keys = Latencies.pass_two_keys env later pass_one;
        shared = later;
        processors = record ps {
          index_pressure_time = if asked then now else ps.index_pressure_time;
          log_sinks = node.1;
        };
      })

  unfoldable pub pass_two_keys : Plan Float → List Bytes
  pass_two_keys p =
      p.shared.infokey_cluster_name
      ∷ p.shared.infokey_service
      ∷ p.shared.infokey_build
      ∷ p.shared.infokey_node_id
      ∷ (p.namespace_keys
          ++ (p.node_keys ++ (p.sets_keys ++ (p.sindex_keys ++ (p.xdr_keys ++ p.latency_keys)))))

  -- In Kubernetes the pod's name stands for the address of the service.
  unfoldable pub set_identity : Map Bytes → SharedState → SharedState
  set_identity raw shared = record shared {
    cluster_name = get_string shared.infokey_cluster_name raw;
    service =
        if cfg.agent.is_kubernetes
        then cfg.agent.kubernetes_pod_name
        else get_string shared.infokey_service raw;
    build = get_string shared.infokey_build raw;
    node_id = get_string shared.infokey_node_id raw;
  }
