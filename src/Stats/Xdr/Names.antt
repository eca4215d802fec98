-- ===== src/Stats/Xdr/Names.antt =====
-- The cache of XDR metrics is by the statistic alone, and does show in what is sent.
use aerospike_prometheus_exp.Base.{
  ◌≡◌, refl, subst, List, [], ◌∷◌, ◌++◌, none, some, Bytes, lookup, Go, ok, for_each, for_each_inv,
  arith,
}
use aerospike_prometheus_exp.Env.{Env}
use aerospike_prometheus_exp.Commons.Convert.{try_convert}
use aerospike_prometheus_exp.Stats.Shared.{SharedState}
use aerospike_prometheus_exp.Stats.Metric.{AerospikeStat, update_values, xdr}
use aerospike_prometheus_exp.Stats.Cache.{Sending, get_or_create, send, send_converted}
use aerospike_prometheus_exp.Stats.Cache.Kept.{Holds, send_converted-Holds, send-caches}
use aerospike_prometheus_exp.Stats.Xdr.{xdr_labels, xdr_label_values, send_xdr_stat}

-- A round of `handleRefresh`: the datacenter, the namespace and the prefix of the key, and the
-- statistic with its value.
abbrev pub Round : Type 0
Round = (Bytes × Bytes × Bytes) × (Bytes × Bytes)

module _ (env : Env) (shared : SharedState) where
  open env use {Float}

  abbrev pub send_round : Round → Sending Float → Go (Sending Float)
  send_round r st = send_xdr_stat env shared r.0 r.1 st

  -- A round adds one metric, with this name and the labels of this datacenter and namespace.
  abbrev pub SendsNamed : Bytes → Bytes → Bytes → Sending Float → Sending Float → Type 0
  SendsNamed name dc ns st u =
      (n : AerospikeStat Float) × (u.sent ≡ st.sent ++ n ∷ [])
      × (n.name ≡ name)
      × (n.labels ≡ xdr_labels ns)
      × (n.label_values ≡ xdr_label_values env shared dc ns)

  send_round-Holds :
      (k : Bytes) (m : AerospikeStat Float) (r : Round) (st u : Sending Float)
      → Holds env k m st
      → send_round r st ≡ ok u
      → Holds env k m u
  unfolding send_xdr_stat
  send_round-Holds k m ((dc, ns, prefix), (stat, value)) st u h e =
      send_converted-Holds env k m xdr stat stat (prefix ++ stat) (try_convert env value)
        (xdr_labels ns) (xdr_label_values env shared dc ns) st u h e

  first-caches :
      (dc ns prefix stat value : Bytes) (v : Float) (st u : Sending Float)
      → try_convert env value ≡ some v
      → lookup stat st.cache ≡ none
      → send_round ((dc, ns, prefix), (stat, value)) st ≡ ok u
      → (m : AerospikeStat Float) × Holds env stat m u × (m.name ≡ prefix ++ stat)
  unfolding send_xdr_stat send_converted
  first-caches dc ns prefix stat value v st u number fresh e =
      send-caches env xdr stat stat (prefix ++ stat) v (xdr_labels ns)
        (xdr_label_values env shared dc ns) st u fresh (rw number at e)

  cached-SendsNamed :
      (dc ns prefix stat value : Bytes) (v : Float) (m : AerospikeStat Float) (st : Sending Float)
      → try_convert env value ≡ some v
      → Holds env stat m st
      → (u : Sending Float) × (send_round ((dc, ns, prefix), (stat, value)) st ≡ ok u)
        × SendsNamed m.name dc ns st u
  unfolding send_xdr_stat send_converted send get_or_create
  cached-SendsNamed dc ns prefix stat value v m st number held =
      let n = update_values v (xdr_labels ns) (xdr_label_values env shared dc ns) m in
      (
        record { cache = st.cache; sent = st.sent ++ n ∷ [] },
        ground arith,
        (n, refl, refl, refl, refl),
      )

  -- The key that is processed first names a statistic. After a round, with a number, for a statistic
  -- that was not cached, and after any further rounds, of any keys, that do not panic, a round with a
  -- number for the same statistic adds one metric, with the prefix of the first round's key in its
  -- name and the labels of its own: its own prefix plays no part, whatever it is.
  pub send_xdr_stat-first_name :
      (dc ns prefix stat value : Bytes) (v : Float) (between : List Round)
      (dc' ns' prefix' value' : Bytes) (v' : Float) (st st1 st2 : Sending Float)
      → try_convert env value ≡ some v
      → try_convert env value' ≡ some v'
      → lookup stat st.cache ≡ none
      → send_round ((dc, ns, prefix), (stat, value)) st ≡ ok st1
      → for_each send_round between st1 ≡ ok st2
      → (u : Sending Float) × (send_round ((dc', ns', prefix'), (stat, value')) st2 ≡ ok u)
        × SendsNamed (prefix ++ stat) dc' ns' st2 u
  send_xdr_stat-first_name dc ns prefix stat value v between dc' ns' prefix' value' v' st st1 st2
        number number' fresh first later =
      let (m, held, named) = first-caches dc ns prefix stat value v st st1 number fresh first in
      let kept : Holds env stat m st2 =
        for_each_inv (Holds env stat m) send_round (send_round-Holds stat m) between st1 held
          later in
      subst
        (λ name.
          (u : Sending Float) × (send_round ((dc', ns', prefix'), (stat, value')) st2 ≡ ok u)
          × SendsNamed name dc' ns' st2 u)
        named (cached-SendsNamed dc' ns' prefix' stat value' v' m st2 number' kept)
