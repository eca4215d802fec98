-- ===== src/Stats/Cache/Kept.antt =====
-- How long the caches of metric definitions keep what they hold.
use aerospike_prometheus_exp.Base.{
  ◌≡◌, refl, ◌∙◌, subst, List, Option, none, some, Bytes, Map, lookup, insert, lookup-insert, equal,
  equal_iff, equal_refl, Go, ok, >>=-eq-ok, ok-injective, Bool-cases, inl, inr,
}
use aerospike_prometheus_exp.Env.{Env}
use aerospike_prometheus_exp.Stats.Metric.{Context, AerospikeStat}
use aerospike_prometheus_exp.Stats.Filter.{is_metric_allowed, new_aerospike_stat}
use aerospike_prometheus_exp.Stats.Cache
use aerospike_prometheus_exp.Stats.Cache.{Sending, make, get_or_create, send, send_converted}

module _ (env : Env) where
  open env use {Float}

  -- The cache has this entry.
  abbrev pub Holds : Bytes → AerospikeStat Float → Sending Float → Type 0
  Holds k m st = lookup k st.cache ≡ some m

  insert-keeps :
      (k key : Bytes) (m n : AerospikeStat Float) (cache : Map (AerospikeStat Float))
      → lookup k cache ≡ some m
      → lookup key cache ≡ none
      → lookup k (insert key n cache) ≡ some m
  insert-keeps k key m n cache h fresh = elim (Bool-cases (equal key k)) [
    | inl same ↦ let e : key ≡ k = (equal_iff key k).0 same in let h' = rw (← e) at h in absurd (cc)
    | inr other ↦ lookup-insert {V = AerospikeStat Float} key k n cache ∙ rw other h
  ]

  remember-keeps :
      (k key : Bytes) (m : AerospikeStat Float) (cache : Map (AerospikeStat Float))
      (found : Option (AerospikeStat Float)) (made : Go (AerospikeStat Float))
      {r : AerospikeStat Float × Map (AerospikeStat Float)}
      → lookup key cache ≡ found
      → lookup k cache ≡ some m
      → Cache.remember env key cache found made ≡ ok r
      → lookup k r.1 ≡ some m
  unfolding Cache.remember
  remember-keeps k key m cache (some n) made at_key h e =
      subst (λ r. lookup k r.1 ≡ some m) (ok-injective e) h
  remember-keeps k key m cache none made at_key h e =
      let (n, _, e') = >>=-eq-ok made _ e in
      subst (λ r. lookup k r.1 ≡ some m) (ok-injective e') (insert-keeps k key m n cache h at_key)

  send-Holds :
      (k : Bytes) (m : AerospikeStat Float) (ctx : Context) (key raw name : Bytes) (v : Float)
      (ls lvs : List Bytes) (st u : Sending Float)
      → Holds k m st
      → send env ctx key raw name v ls lvs st ≡ ok u
      → Holds k m u
  unfolding send get_or_create
  send-Holds k m ctx key raw name v ls lvs st u h e =
      let (found, got, e') = >>=-eq-ok (get_or_create env ctx key raw name st.cache) _ e in
      subst (Holds k m) (ok-injective e')
        (remember-keeps k key m st.cache (lookup key st.cache) (make env ctx raw name) refl h got)

  -- No round of a loop drops or changes an entry.
  pub send_converted-Holds :
      (k : Bytes) (m : AerospikeStat Float) (ctx : Context) (key raw name : Bytes)
      (o : Option Float) (ls lvs : List Bytes) (st u : Sending Float)
      → Holds k m st
      → send_converted env ctx key raw name o ls lvs st ≡ ok u
      → Holds k m u
  unfolding send_converted
  send_converted-Holds k m ctx key raw name none ls lvs st u h e =
      subst (Holds k m) (ok-injective e) h
  send_converted-Holds k m ctx key raw name (some v) ls lvs st u h e =
      send-Holds k m ctx key raw name v ls lvs st u h e

  -- The first round of a key caches a metric under it that has the name of that round.
  pub send-caches :
      (ctx : Context) (key raw name : Bytes) (v : Float) (ls lvs : List Bytes)
      (st u : Sending Float)
      → lookup key st.cache ≡ none
      → send env ctx key raw name v ls lvs st ≡ ok u
      → (m : AerospikeStat Float) × Holds key m u × (m.name ≡ name)
  unfolding send get_or_create Cache.remember new_aerospike_stat
  send-caches ctx key raw name v ls lvs st u fresh e =
      let (found, got, e') = >>=-eq-ok (get_or_create env ctx key raw name st.cache) _ e in
      let (n, made, got') = >>=-eq-ok (make env ctx raw name) _ (rw fresh at got) in
      let (allowed, _, is_new) = >>=-eq-ok (is_metric_allowed env ctx raw) _ made in
      let held : lookup key (insert key n st.cache) ≡ some n =
        lookup-insert {V = AerospikeStat Float} key key n st.cache ∙ rw (equal_refl key) refl in
      (
        n,
        subst (Holds key n) (ok-injective e')
            (subst (λ r. lookup key r.1 ≡ some n) (ok-injective got') held),
        subst (λ x. x.name ≡ name) (ok-injective is_new) refl,
      )
