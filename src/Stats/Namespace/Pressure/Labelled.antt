-- ===== src/Stats/Namespace/Pressure/Labelled.antt =====
-- The labels of the metrics of index pressure and rosters.
use aerospike_prometheus_exp.Base.{
  ℕ, ◌+◌, ◌≡◌, refl, subst, Bool, true, false, List, [], ◌∷◌, ◌++◌, Option, none, some, Bytes,
  bytes, Map, get_string, nonempty, split, ok, ◌>>=◌, index, >>=-eq-ok, ok-injective, for_each,
  for_each_inv, if◌then◌else◌,
}
use aerospike_prometheus_exp.Env.{Env}
use aerospike_prometheus_exp.Commons.ParseStats.{parse_stats}
use aerospike_prometheus_exp.Commons.Convert.{try_convert}
use aerospike_prometheus_exp.Stats.Shared.{SharedState}
use aerospike_prometheus_exp.Stats.Metric.{namespace}
use aerospike_prometheus_exp.Stats.Cache.{Sending}
use aerospike_prometheus_exp.Stats.Cache.Labelled.{
  AreLabelled, send-AreLabelled, send_converted-AreLabelled,
}
use aerospike_prometheus_exp.Stats.Namespace.Pressure
use aerospike_prometheus_exp.Stats.Namespace.Pressure.{
  pressure_names, pressure_values, refresh_index_pressure, refresh_roster_stats,
}
use aerospike_prometheus_exp.Stats.Namespace.Naming.{namespace_labels, namespace_label_values}

module _ (env : Env) (shared : SharedState) where
  open env use {Float, range, of_nat}

  pressure_value-AreLabelled :
      (ns : Bytes) (i : ℕ) (o : Option Float) (st u : Sending Float)
      → AreLabelled env st
      → Pressure.pressure_value env shared ns i o st ≡ ok u
      → AreLabelled env u
  unfolding Pressure.pressure_value Pressure.send_pressure_value
  pressure_value-AreLabelled ns i none st u h e = subst (AreLabelled env) (ok-injective e) h
  pressure_value-AreLabelled ns i (some pv) st u h e =
      let (name, _, e') = >>=-eq-ok (index pressure_names i) _ e in
      send_converted-AreLabelled env namespace name name name (some pv) namespace_labels
        (namespace_label_values env shared ns) st u refl h e'

  pressure_values-AreLabelled :
      (ns : Bytes) (i : ℕ) (vs : List Bytes) (st u : Sending Float)
      → AreLabelled env st
      → pressure_values env shared ns i vs st ≡ ok u
      → AreLabelled env u
  unfolding pressure_values
  pressure_values-AreLabelled ns i [] st u h e = subst (AreLabelled env) (ok-injective e) h
  pressure_values-AreLabelled ns i (v ∷ vs) st u h e =
      let (mid, first, e') =
        >>=-eq-ok (Pressure.pressure_value env shared ns i (try_convert env v) st) _ e in
      pressure_values-AreLabelled ns (i + 1) vs mid u
        (pressure_value-AreLabelled ns i (try_convert env v) st mid h first) e'

  pressure_of-AreLabelled :
      (values : List Bytes) (st u : Sending Float)
      → AreLabelled env st
      → Pressure.pressure_of env shared values st ≡ ok u
      → AreLabelled env u
  unfolding Pressure.pressure_of
  pressure_of-AreLabelled [] st u h e = cc
  pressure_of-AreLabelled (ns ∷ values) st u h e = pressure_values-AreLabelled ns 1 values st u h e

  pub refresh_index_pressure-AreLabelled :
      (key : Bytes) (raw_metrics : Map Bytes) (st u : Sending Float)
      → AreLabelled env st
      → refresh_index_pressure env shared key raw_metrics st ≡ ok u
      → AreLabelled env u
  unfolding refresh_index_pressure
  refresh_index_pressure-AreLabelled key raw_metrics st u h e =
      for_each_inv (AreLabelled env) (λ text. Pressure.pressure_of env shared (split b':' text))
        (λ text. pressure_of-AreLabelled (split b':' text))
        (split b';' (get_string key raw_metrics)) st h e

  send_roster-AreLabelled :
      (ns : Bytes) (x : Bytes × Bytes) (st u : Sending Float)
      → AreLabelled env st
      → Pressure.send_roster env shared ns x st ≡ ok u
      → AreLabelled env u
  unfolding Pressure.send_roster
  send_roster-AreLabelled ns (stat, value) st u h e =
      let name = bytes "pseudo_" ++ (stat ++ bytes "_size") in
      send-AreLabelled env namespace name name name (of_nat (Pressure.roster_size env shared value))
        namespace_labels (namespace_label_values env shared ns) st u refl h e

  pub refresh_roster_stats-AreLabelled :
      (key : Bytes) (raw_metrics : Map Bytes) (st u : Sending Float)
      → AreLabelled env st
      → refresh_roster_stats env shared key raw_metrics st ≡ ok u
      → AreLabelled env u
  unfolding refresh_roster_stats
  refresh_roster_stats-AreLabelled key raw_metrics st u h e =
      go (nonempty (get_string key raw_metrics)) e
    where
      rosters : Map Bytes
      rosters = parse_stats (get_string key raw_metrics) b':'

      go :
          (full : Bool)
          → (if full
              then (index (split b'=' key) 1 >>= λ ns.
                  for_each (Pressure.send_roster env shared ns) (range Bytes rosters) st)
              else ok st)
            ≡ ok u
          → AreLabelled env u
      go true q =
          let (ns, _, q') = >>=-eq-ok (index (split b'=' key) 1) _ q in
          for_each_inv (AreLabelled env) (Pressure.send_roster env shared ns)
            (send_roster-AreLabelled ns) (range Bytes rosters) st h q'
      go false q = subst (AreLabelled env) (ok-injective q) h
