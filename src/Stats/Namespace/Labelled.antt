-- ===== src/Stats/Namespace/Labelled.antt =====
-- The labels of a namespace's metrics.
use aerospike_prometheus_exp.Base.{
  ◌≡◌, refl, subst, Bool, true, false, ◌&&◌, List, [], ◌∷◌, ◌++◌, Option, none, some, Bytes, bytes,
  Map, get_string, has_prefix, nonempty, length, length-append, ok, >>=-eq-ok, ok-injective,
  for_each, for_each_inv, replace_all, arith, if◌then◌else◌,
}
use aerospike_prometheus_exp.Env.{Env}
use aerospike_prometheus_exp.Commons.ParseStats.{parse_stats}
use aerospike_prometheus_exp.Commons.Convert.{try_convert}
use aerospike_prometheus_exp.Stats.Shared.{SharedState}
use aerospike_prometheus_exp.Stats.Metric.{
  namespace, label_index, label_sindex, label_storage_engine,
}
use aerospike_prometheus_exp.Stats.Cache.{Sending}
use aerospike_prometheus_exp.Stats.Cache.Labelled.{AreLabelled, send-AreLabelled}
use aerospike_prometheus_exp.Stats.Namespace.{
  NamespaceState, send_named, send_namespace_value, send_namespace_stat, refresh_namespace_stats,
  note_stat, note_re_repl,
}
use aerospike_prometheus_exp.Stats.Namespace.Naming.{
  Named, Typed, add_type_label, name_stat, name_array_stat, handle_array_stats, set_flag_flash,
}
use aerospike_prometheus_exp.Stats.Namespace.Arrays.{
  ArrayMatch, check_stat_persistance_type, find_array_stat, index_type, sindex_type, storage_engine,
}

abbrev ArePaired : List Bytes → List Bytes → Type 0
ArePaired ls lvs = length ls ≡ length lvs

one_more :
    (ls lvs : List Bytes) (l v : Bytes)
    → ArePaired ls lvs
    → ArePaired (ls ++ l ∷ []) (lvs ++ v ∷ [])
one_more ls lvs l v h = ground (arith, length-append ls (l ∷ []), length-append lvs (v ∷ []))

add_type_label-ArePaired :
    (device : Bytes) (stats : Map Bytes) (flash : Bool) (ls lvs : List Bytes)
    → ArePaired ls lvs
    → ArePaired
        (add_type_label device stats flash ls lvs).0
        (add_type_label device stats flash ls lvs).1
unfolding add_type_label
add_type_label-ArePaired device stats flash ls lvs h =
    go (has_prefix device index_type && nonempty (get_string index_type stats))
      (has_prefix device sindex_type && nonempty (get_string sindex_type stats))
      (nonempty (get_string storage_engine stats))
  where
    choice : Bool → Bool → Bool → Typed
    choice a b c =
        if a
        then (
          ls ++ label_index ∷ [],
          lvs ++ get_string index_type stats ∷ [],
          set_flag_flash (get_string index_type stats) flash,
        )
        else if b
        then (
          ls ++ label_sindex ∷ [],
          lvs ++ get_string sindex_type stats ∷ [],
          set_flag_flash (get_string sindex_type stats) flash,
        )
        else if c
        then (ls ++ label_storage_engine ∷ [], lvs ++ get_string storage_engine stats ∷ [], flash)
        else (ls, lvs, flash)

    go : (a b c : Bool) → ArePaired (choice a b c).0 (choice a b c).1
    go true b c = one_more ls lvs _ _ h
    go false true c = one_more ls lvs _ _ h
    go false false true = one_more ls lvs _ _ h
    go false false false = h

module _ (env : Env) (shared : SharedState) where
  open env use {Float, range}

  name_stat-ArePaired :
      (ns : Bytes) (stats : Map Bytes) (stat : Bytes) (typed : Bytes × Bool)
      → ArePaired
          (name_stat env shared ns stats stat typed).1
          (name_stat env shared ns stats stat typed).2
  unfolding name_stat handle_array_stats
  name_stat-ArePaired ns stats stat (device, false) = refl
  name_stat-ArePaired ns stats stat (device, true) = go (find_array_stat device stat)
    where
      go :
          (o : Option ArrayMatch)
          → ArePaired
              (name_array_stat env shared ns stats device o).1
              (name_array_stat env shared ns stats device o).2
      go none = refl
      go (some m) = refl

  send_named-AreLabelled :
      (stat name : Bytes) (pv : Float) (ls lvs : List Bytes) (st u : Sending Float)
      → ArePaired ls lvs
      → AreLabelled env st
      → send_named env shared stat name pv ls lvs st ≡ ok u
      → AreLabelled env u
  unfolding send_named
  send_named-AreLabelled stat [] pv ls lvs st u h labelled e =
      subst (AreLabelled env) (ok-injective e) labelled
  send_named-AreLabelled stat (c ∷ cs) pv ls lvs st u h labelled e =
      send-AreLabelled env namespace (c ∷ cs) stat (c ∷ cs) pv ls lvs st u h labelled e

  abbrev StateIsLabelled : NamespaceState Float → Type 0
  StateIsLabelled st = AreLabelled env st.sending

  send_namespace_value-IsLabelled :
      (ns : Bytes) (stats : Map Bytes) (stat : Bytes) (pv : Float) (st u : NamespaceState Float)
      → StateIsLabelled st
      → send_namespace_value env shared ns stats stat pv st ≡ ok u
      → StateIsLabelled u
  unfolding send_namespace_value
  send_namespace_value-IsLabelled ns stats stat pv st u labelled e =
      let typed : Bytes × Bool = check_stat_persistance_type stat in
      let named : Named = name_stat env shared ns stats stat typed in
      let full : Typed = add_type_label typed.0 stats st.flash named.1 named.2 in
      let (sending, sent, e1) =
        >>=-eq-ok (send_named env shared stat named.0 pv full.0 full.1 st.sending) _ e in
      let (noted, kept, e2) = >>=-eq-ok (note_stat env shared ns stat pv st.benchmarks) _ e1 in
      subst StateIsLabelled (ok-injective e2) (
        send_named-AreLabelled stat named.0 pv full.0 full.1 st.sending sending
          (add_type_label-ArePaired typed.0 stats st.flash named.1 named.2
            (name_stat-ArePaired ns stats stat typed))
          labelled sent)

  send_namespace_stat-IsLabelled :
      (ns : Bytes) (stats : Map Bytes) (x : Bytes × Bytes) (st u : NamespaceState Float)
      → StateIsLabelled st
      → send_namespace_stat env shared ns stats x st ≡ ok u
      → StateIsLabelled u
  unfolding send_namespace_stat
  send_namespace_stat-IsLabelled ns stats (stat, value) st u labelled e =
      go (try_convert env value) e
    where
      go :
          (o : Option Float)
          → (elim o [
            | none ↦ ok st
            | some pv ↦ send_namespace_value env shared ns stats stat pv st
          ])
            ≡ ok u
          → StateIsLabelled u
      go none q = subst StateIsLabelled (ok-injective q) labelled
      go (some pv) q = send_namespace_value-IsLabelled ns stats stat pv st u labelled q

  -- If each metric that was sent before has a value for each of its labels, so has each metric sent
  -- once a namespace's statistics are refreshed, those of arrays and of typed indexes included.
  pub refresh_namespace_stats-IsLabelled :
      (key : Bytes) (raw_metrics : Map Bytes) (st u : NamespaceState Float)
      → AreLabelled env st.sending
      → refresh_namespace_stats env shared key raw_metrics st ≡ ok u
      → AreLabelled env u.sending
  unfolding refresh_namespace_stats
  refresh_namespace_stats-IsLabelled key raw_metrics st u labelled e =
      let ns : Bytes = replace_all key (bytes "namespace/") [] in
      let stats : Map Bytes = parse_stats (get_string key raw_metrics) b';' in
      let (v, looped, e1) =
        >>=-eq-ok (for_each (send_namespace_stat env shared ns stats) (range Bytes stats) st) _ e in
      let (noted, kept, e2) = >>=-eq-ok (note_re_repl ns v.benchmarks) _ e1 in
      subst StateIsLabelled (ok-injective e2) (
        for_each_inv StateIsLabelled (send_namespace_stat env shared ns stats)
          (send_namespace_stat-IsLabelled ns stats) (range Bytes stats) st labelled looped)
