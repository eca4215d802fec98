-- ===== src/Stats/Cache/Labelled.antt =====
-- The labels of what is sent.
use aerospike_prometheus_exp.Base.{
  ◌≡◌, subst, List, [], ◌∷◌, Option, none, some, Bytes, length, All, All-append, ok, >>=-eq-ok,
  ok-injective,
}
use aerospike_prometheus_exp.Env.{Env}
use aerospike_prometheus_exp.Stats.Metric.{Context, update_values, IsLabelled}
use aerospike_prometheus_exp.Stats.Cache.{Sending, get_or_create, send, send_converted}

module _ (env : Env) where
  open env use {Float}

  -- Each metric that is sent has a value for each of its labels.
  abbrev pub AreLabelled : Sending Float → Type 0
  AreLabelled st = All IsLabelled st.sent

  -- So it stays if the labels and values that are given are as many.
  pub send-AreLabelled :
      (ctx : Context) (key raw name : Bytes) (v : Float) (ls lvs : List Bytes)
      (st u : Sending Float)
      → length ls ≡ length lvs
      → AreLabelled st
      → send env ctx key raw name v ls lvs st ≡ ok u
      → AreLabelled u
  unfolding send
  send-AreLabelled ctx key raw name v ls lvs st u h labelled e =
      let (found, got, eq) = >>=-eq-ok (get_or_create env ctx key raw name st.cache) _ e in
      subst AreLabelled (ok-injective eq)
        (All-append IsLabelled st.sent (update_values v ls lvs found.0 ∷ []) labelled (h, tt))

  pub send_converted-AreLabelled :
      (ctx : Context) (key raw name : Bytes) (o : Option Float) (ls lvs : List Bytes)
      (st u : Sending Float)
      → length ls ≡ length lvs
      → AreLabelled st
      → send_converted env ctx key raw name o ls lvs st ≡ ok u
      → AreLabelled u
  unfolding send_converted
  send_converted-AreLabelled ctx key raw name none ls lvs st u h labelled e =
      subst AreLabelled (ok-injective e) labelled
  send_converted-AreLabelled ctx key raw name (some pv) ls lvs st u h labelled e =
      send-AreLabelled ctx key raw name pv ls lvs st u h labelled e
