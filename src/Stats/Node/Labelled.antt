-- ===== src/Stats/Node/Labelled.antt =====
-- The labels of a node's metrics.
use aerospike_prometheus_exp.Base.{
  ℕ, ◌≡◌, refl, subst, Bool, true, false, [], ◌∷◌, Option, none, some, Bytes, bytes, Map,
  get_string, has_key, split, ok, ◌>>=◌, >>=-eq-ok, ok-injective, for_each_inv, if◌then◌else◌,
}
use aerospike_prometheus_exp.Env.{Env}
use aerospike_prometheus_exp.Commons.ParseStats.{parse_stats}
use aerospike_prometheus_exp.Commons.Convert.{try_convert}
use aerospike_prometheus_exp.Stats.Shared.{SharedState}
use aerospike_prometheus_exp.Stats.Metric.{AerospikeStat, node_stats}
use aerospike_prometheus_exp.Stats.Cache.{Sending, send}
use aerospike_prometheus_exp.Stats.Cache.Labelled.{
  AreLabelled, send-AreLabelled, send_converted-AreLabelled,
}
use aerospike_prometheus_exp.Stats.Node
use aerospike_prometheus_exp.Stats.Node.{
  NodeState, UserAgent, node_labels, node_label_values, agent_labels, some_sink, flag,
  handle_refresh, handle_log_sink_stats, handle_user_agents_stats, get_user_agent_info, refresh,
  key_service_config, key_service_statistics,
}

module _ (env : Env) (shared : SharedState) where
  open env use {Float, range}

  abbrev StateIsLabelled : NodeState Float → Type 0
  StateIsLabelled st = AreLabelled env st.sending

  send_node_value-IsLabelled :
      (stat : Bytes) (o : Option Float) (st u : NodeState Float)
      → StateIsLabelled st
      → Node.send_node_value env shared stat o st ≡ ok u
      → StateIsLabelled u
  unfolding Node.send_node_value
  send_node_value-IsLabelled stat none st u h e = subst StateIsLabelled (ok-injective e) h
  send_node_value-IsLabelled stat (some pv) st u h e =
      let (s, sent, e') =
        >>=-eq-ok
          (send env node_stats stat stat stat pv node_labels (node_label_values env shared)
            st.sending)
          _ e in
      subst StateIsLabelled (ok-injective e') (
        send-AreLabelled env node_stats stat stat stat pv node_labels (node_label_values env shared)
          st.sending s refl h sent)

  send_node_stat-IsLabelled :
      (x : Bytes × Bytes) (st u : NodeState Float)
      → StateIsLabelled st
      → Node.send_node_stat env shared x st ≡ ok u
      → StateIsLabelled u
  unfolding Node.send_node_stat
  send_node_stat-IsLabelled (stat, value) st u h e =
      send_node_value-IsLabelled stat (try_convert env value) st u h e

  handle_refresh-IsLabelled :
      (raw : Bytes) (st u : NodeState Float)
      → StateIsLabelled st
      → handle_refresh env shared raw st ≡ ok u
      → StateIsLabelled u
  unfolding handle_refresh
  handle_refresh-IsLabelled raw st u h e =
      for_each_inv StateIsLabelled (Node.send_node_stat env shared) send_node_stat-IsLabelled
        (range Bytes (parse_stats raw b';')) st h e

  handle_log_sink_stats-AreLabelled :
      (sinks : ℕ) (raw_metrics : Map Bytes) (st u : Sending Float)
      → AreLabelled env st
      → handle_log_sink_stats env shared sinks raw_metrics st ≡ ok u
      → AreLabelled env u
  unfolding handle_log_sink_stats
  handle_log_sink_stats-AreLabelled sinks raw_metrics st u h e =
      let debug = bytes "pseudo_log_debug" in
      let detail = bytes "pseudo_log_detail" in
      let level = λ (l : Bytes). flag env shared (some_sink env shared l sinks 0 raw_metrics) in
      let (mid, first, e') =
        >>=-eq-ok
          (send env node_stats debug debug debug (level (bytes ":DEBUG")) node_labels
            (node_label_values env shared) st)
          _ e in
      send-AreLabelled env node_stats detail detail detail (level (bytes ":DETAIL")) node_labels
        (node_label_values env shared) mid u refl
        (send-AreLabelled env node_stats debug debug debug (level (bytes ":DEBUG")) node_labels
          (node_label_values env shared) st mid refl h first)
        e'

  send_user_agent-AreLabelled :
      (text : Bytes) (o : Option UserAgent) (st u : Sending Float)
      → AreLabelled env st
      → Node.send_user_agent env shared text st o ≡ ok u
      → AreLabelled env u
  unfolding Node.send_user_agent
  send_user_agent-AreLabelled text none st u h e = subst (AreLabelled env) (ok-injective e) h
  send_user_agent-AreLabelled text (some (library, app, count)) st u h e =
      send_converted-AreLabelled env node_stats text text (bytes "user_agent_details")
        (try_convert env count) (agent_labels env shared)
        (shared.cluster_name ∷ shared.service ∷ library ∷ app ∷ []) st u refl h e

  handle_user_agent-AreLabelled :
      (text : Bytes) (st u : Sending Float)
      → AreLabelled env st
      → Node.handle_user_agent env shared text st ≡ ok u
      → AreLabelled env u
  unfolding Node.handle_user_agent
  handle_user_agent-AreLabelled [] st u h e = subst (AreLabelled env) (ok-injective e) h
  handle_user_agent-AreLabelled (c ∷ text) st u h e =
      let (o, _, e') = >>=-eq-ok (get_user_agent_info (c ∷ text)) _ e in
      send_user_agent-AreLabelled (c ∷ text) o st u h e'

  handle_user_agents_stats-AreLabelled :
      (raw_metrics : Map Bytes) (st u : Sending Float)
      → AreLabelled env st
      → handle_user_agents_stats env shared raw_metrics st ≡ ok u
      → AreLabelled env u
  unfolding handle_user_agents_stats
  handle_user_agents_stats-AreLabelled raw_metrics st u h e =
      for_each_inv (AreLabelled env) (Node.handle_user_agent env shared)
        handle_user_agent-AreLabelled (split b';' (get_string (bytes "user-agents") raw_metrics)) st
        h e

  pub refresh-AreLabelled :
      (sinks : ℕ) (raw_metrics : Map Bytes) (cache : Map (AerospikeStat Float))
      (benchmarks : Map Bytes) (u : NodeState Float)
      → refresh env shared sinks raw_metrics cache benchmarks ≡ ok u
      → AreLabelled env u.sending
  unfolding refresh
  refresh-AreLabelled sinks raw_metrics cache benchmarks u e =
      let start : NodeState Float = record {
        sending = record { cache = cache; sent = [] };
        benchmarks = benchmarks;
      } in
      let (st, e1, r1) =
        >>=-eq-ok (handle_refresh env shared (get_string key_service_config raw_metrics) start) _
          e in
      let (st', e2, r2) =
        >>=-eq-ok (handle_refresh env shared (get_string key_service_statistics raw_metrics) st) _
          r1 in
      let (logged, e3, r3) =
        >>=-eq-ok (handle_log_sink_stats env shared sinks raw_metrics st'.sending) _ r2 in
      let h =
        handle_refresh-IsLabelled (get_string key_service_config raw_metrics) start st tt e1 in
      let h' =
        handle_refresh-IsLabelled (get_string key_service_statistics raw_metrics) st st' h e2 in
      let h'' = handle_log_sink_stats-AreLabelled sinks raw_metrics st'.sending logged h' e3 in
      go logged st'.benchmarks h'' (has_key (bytes "user-agents") raw_metrics) r3
    where
      go :
          (logged : Sending Float) (noted : Map Bytes)
          → AreLabelled env logged
          → (asked : Bool)
          → ((if asked then handle_user_agents_stats env shared raw_metrics logged else ok logged)
              >>= λ s. ok (record { sending = s; benchmarks = noted }))
            ≡ ok u
          → AreLabelled env u.sending
      go logged noted h true q =
          let (s, e4, r4) =
            >>=-eq-ok (handle_user_agents_stats env shared raw_metrics logged) _ q in
          subst StateIsLabelled (ok-injective r4)
            (handle_user_agents_stats-AreLabelled raw_metrics logged s h e4)
      go logged noted h false q = subst StateIsLabelled (ok-injective q) h
