-- ===== src/Stats/Namespace/Refreshed.antt =====
-- The labels of what a refresh of the namespaces sends, index pressure and rosters included.
use aerospike_prometheus_exp.Base.{
  ◌≡◌, subst, Bool, true, false, List, Bytes, bytes, Map, has_prefix, Go, ok, ◌>>=◌, >>=-eq-ok,
  ok-injective, for_each_inv, if◌then◌else◌,
}
use aerospike_prometheus_exp.Env.{Env}
use aerospike_prometheus_exp.Stats.Shared.{SharedState}
use aerospike_prometheus_exp.Stats.Cache.{Sending}
use aerospike_prometheus_exp.Stats.Cache.Labelled.{AreLabelled}
use aerospike_prometheus_exp.Stats.Namespace.{
  NamespaceState, refresh_namespace_stats, refresh_key, refresh,
}
use aerospike_prometheus_exp.Stats.Namespace.Labelled.{refresh_namespace_stats-IsLabelled}
use aerospike_prometheus_exp.Stats.Namespace.Pressure.{refresh_index_pressure, refresh_roster_stats}
use aerospike_prometheus_exp.Stats.Namespace.Pressure.Labelled.{
  refresh_index_pressure-AreLabelled, refresh_roster_stats-AreLabelled,
}

module _ (env : Env) (shared : SharedState) where
  open env use {Float}

  abbrev StateIsLabelled : NamespaceState Float → Type 0
  StateIsLabelled st = AreLabelled env st.sending

  -- A part that only sends.
  sending-IsLabelled :
      (run : Go (Sending Float)) (st u : NamespaceState Float)
      → ((s : Sending Float) → run ≡ ok s → AreLabelled env s)
      → (run >>= λ s. ok (record st { sending = s })) ≡ ok u
      → StateIsLabelled u
  sending-IsLabelled run st u keep e =
      let (s, ran, e') = >>=-eq-ok run _ e in subst StateIsLabelled (ok-injective e') (keep s ran)

  refresh_key-IsLabelled :
      (raw_metrics : Map Bytes) (key : Bytes) (st u : NamespaceState Float)
      → StateIsLabelled st
      → refresh_key env shared raw_metrics key st ≡ ok u
      → StateIsLabelled u
  unfolding refresh_key
  refresh_key-IsLabelled raw_metrics key st u h e =
      go (has_prefix key (bytes "namespace")) (has_prefix key (bytes "index-pressure"))
        (has_prefix key (bytes "roster")) e
    where
      go :
          (a b c : Bool)
          → (if a
              then refresh_namespace_stats env shared key raw_metrics st
              else if b
              then (refresh_index_pressure env shared key raw_metrics st.sending >>= λ s.
                  ok (record st { sending = s }))
              else if c
              then (refresh_roster_stats env shared key raw_metrics st.sending >>= λ s.
                  ok (record st { sending = s }))
              else ok st)
            ≡ ok u
          → StateIsLabelled u
      go true b c q = refresh_namespace_stats-IsLabelled env shared key raw_metrics st u h q
      go false true c q =
          sending-IsLabelled (refresh_index_pressure env shared key raw_metrics st.sending) st u
            (λ s. refresh_index_pressure-AreLabelled env shared key raw_metrics st.sending s h) q
      go false false true q =
          sending-IsLabelled (refresh_roster_stats env shared key raw_metrics st.sending) st u
            (λ s. refresh_roster_stats-AreLabelled env shared key raw_metrics st.sending s h) q
      go false false false q = subst StateIsLabelled (ok-injective q) h

  pub refresh-IsLabelled :
      (info_keys : List Bytes) (raw_metrics : Map Bytes) (st u : NamespaceState Float)
      → AreLabelled env st.sending
      → refresh env shared info_keys raw_metrics st ≡ ok u
      → AreLabelled env u.sending
  unfolding refresh
  refresh-IsLabelled info_keys raw_metrics st u h e =
      for_each_inv StateIsLabelled (refresh_key env shared raw_metrics)
        (refresh_key-IsLabelled raw_metrics) info_keys st h e
