-- ===== src/Stats/Users/Labelled.antt =====
-- The labels of the users' metrics.
use aerospike_prometheus_exp.Base.{
  ℕ, ◌+◌, ◌≡◌, refl, subst, ◌&&◌, List, [], ◌∷◌, Bytes, bytes, length, leb, All, All-append, ok,
  index, >>=-eq-ok, ok-injective, for_each_inv, Bool-cases, inl, inr,
}
use aerospike_prometheus_exp.Env.{Env}
use aerospike_prometheus_exp.Stats.Shared.{SharedState}
use aerospike_prometheus_exp.Stats.Metric.{
  AerospikeStat, users, update_values, IsLabelled, label_cluster_name, label_service, label_user,
}
use aerospike_prometheus_exp.Stats.Cache.{make}
use aerospike_prometheus_exp.Stats.Users.{
  UserRoles, send_user_stat, send_info, send_infos, send_user, allowed_user, refresh,
  read_info_stats, write_info_stats,
}

module _ (env : Env) (shared : SharedState) where
  open env use {Float, of_nat}

  abbrev AreLabelled : List (AerospikeStat Float) → Type 0
  AreLabelled sent = All IsLabelled sent

  send_user_stat-AreLabelled :
      (name user : Bytes) (v : ℕ) (sent out : List (AerospikeStat Float))
      → AreLabelled sent
      → send_user_stat env shared name user v sent ≡ ok out
      → AreLabelled out
  unfolding send_user_stat
  send_user_stat-AreLabelled name user v sent out h e =
      let (m, _, e') = >>=-eq-ok (make env users name name) _ e in
      subst AreLabelled (ok-injective e') (
        All-append IsLabelled sent
          (update_values (of_nat v) (label_cluster_name ∷ label_service ∷ label_user ∷ [])
              (shared.cluster_name ∷ shared.service ∷ user ∷ []) m
            ∷ [])
          h (refl, tt))

  send_info-AreLabelled :
      (names : List Bytes) (user : Bytes) (i : ℕ) (vs : List ℕ)
      (sent out : List (AerospikeStat Float))
      → AreLabelled sent
      → send_info env shared names user i vs sent ≡ ok out
      → AreLabelled out
  unfolding send_info
  send_info-AreLabelled names user i [] sent out h e = subst AreLabelled (ok-injective e) h
  send_info-AreLabelled names user i (v ∷ vs) sent out h e =
      let (name, _, e1) = >>=-eq-ok (index names i) _ e in
      let (mid, first, e2) = >>=-eq-ok (send_user_stat env shared name user v sent) _ e1 in
      send_info-AreLabelled names user (i + 1) vs mid out
        (send_user_stat-AreLabelled name user v sent mid h first) e2

  send_infos-AreLabelled :
      (u : UserRoles) (sent out : List (AerospikeStat Float))
      → AreLabelled sent
      → send_infos env shared u sent ≡ ok out
      → AreLabelled out
  unfolding send_infos
  send_infos-AreLabelled u sent out h e =
      elim (Bool-cases (leb 4 (length u.read_info) && leb 4 (length u.write_info))) [
        | inl full ↦
            let (mid, read, e') =
              >>=-eq-ok (send_info env shared read_info_stats u.user 0 u.read_info sent) _
                (rw full at e) in
            send_info-AreLabelled write_info_stats u.user 0 u.write_info mid out
              (send_info-AreLabelled read_info_stats u.user 0 u.read_info sent mid h read) e'
        | inr short ↦ subst AreLabelled (ok-injective (rw short at e)) h
      ]

  send_user-AreLabelled :
      (u : UserRoles) (sent out : List (AerospikeStat Float))
      → AreLabelled sent
      → send_user env shared u sent ≡ ok out
      → AreLabelled out
  unfolding send_user
  send_user-AreLabelled u sent out h e = elim (Bool-cases (allowed_user env shared u.user)) [
    | inl allowed ↦
        let (mid, first, e') =
          >>=-eq-ok (send_user_stat env shared (bytes "conns_in_use") u.user u.conns_in_use sent) _
            (rw allowed at e) in
        send_infos-AreLabelled u mid out
          (send_user_stat-AreLabelled (bytes "conns_in_use") u.user u.conns_in_use sent mid h first)
          e'
    | inr other ↦ subst AreLabelled (ok-injective (rw other at e)) h
  ]

  pub refresh-AreLabelled :
      (us : List UserRoles) (out : List (AerospikeStat Float))
      → refresh env shared us ≡ ok out
      → AreLabelled out
  unfolding refresh
  refresh-AreLabelled us out e =
      for_each_inv AreLabelled (send_user env shared) send_user-AreLabelled us [] tt e
