-- ===== src/Stats/Users.antt =====
-- sp_users.go: the statistics of users.
pub mod Counts
pub mod Labelled
use aerospike_prometheus_exp.Base.{
  ℕ, zero, suc, ◌+◌, ◌≡◌, Bool, true, false, not, ◌&&◌, ◌||◌, List, [], ◌∷◌, ◌++◌, Option, none,
  some, Bytes, bytes, Map, get_string, nonempty, is_empty, any, equal, length, Go, ok, ◌>>=◌, index,
  for_each, leb, if◌then◌else◌,
}
use aerospike_prometheus_exp.Env.{Env}
use aerospike_prometheus_exp.Stats.Shared.{SharedState}
use aerospike_prometheus_exp.Stats.Metric.{
  AerospikeStat, users, update_values, label_cluster_name, label_service, label_user,
}
use aerospike_prometheus_exp.Stats.Cache.{make}
use aerospike_prometheus_exp.Stats.Filter.{is_build_version_greater_than_or_equal}

-- The fields of the client's `UserRoles` that the processor reads.
pub record UserRoles : Type 0 where
  pub user : Bytes
  pub conns_in_use : ℕ
  pub read_info : List ℕ
  pub write_info : List ℕ

abbrev pub read_info_stats : List Bytes
read_info_stats =
    bytes "read_quota"
    ∷ bytes "read_single_record_tps"
    ∷ bytes "read_scan_query_rps"
    ∷ bytes "limitless_read_scan_query"
    ∷ []

abbrev pub write_info_stats : List Bytes
write_info_stats =
    bytes "write_quota"
    ∷ bytes "write_single_record_tps"
    ∷ bytes "write_scan_query_rps"
    ∷ bytes "limitless_write_scan_query"
    ∷ []

module _ (env : Env) (shared : SharedState) where
  open env use {cfg, Float, of_nat}

  -- Whether to ask for users, and the flag `ShouldFetchUserStatistics` from then on.
  unfoldable pub can_refresh_user_stats : Bool → Map Bytes → Bool × Bool
  can_refresh_user_stats should_fetch raw_metrics =
      let aero = cfg.aerospike in
      if not (equal aero.auth_mode (bytes "pki")) && (is_empty aero.user && is_empty aero.password)
      then (false, should_fetch)
      else if not should_fetch
      then (false, should_fetch)
      else (elim (is_build_version_greater_than_or_equal env
          (get_string (bytes "build") raw_metrics) (bytes "5.6.0.0")) [
            | none ↦ (false, should_fetch)
            | some true ↦ (true, should_fetch)
            | some false ↦ (false, false)
          ])

  -- `makeAerospikeStat` and `updateValues`, appended to what is sent
  send_user_stat : Bytes → Bytes → ℕ → List (AerospikeStat Float) → Go (List (AerospikeStat Float))
  send_user_stat name user v sent = make env users name name >>= λ m. ok (
      sent
      ++ update_values (of_nat v) (label_cluster_name ∷ label_service ∷ label_user ∷ [])
          (shared.cluster_name ∷ shared.service ∷ user ∷ []) m
        ∷ [])

  -- The loop over `ReadInfo` or `WriteInfo`, whose statistics are named by position: a fifth value
  -- has no name, and panics.
  send_info :
      List Bytes → Bytes → ℕ → List ℕ → List (AerospikeStat Float) → Go (List (AerospikeStat Float))
  unfolding send_user_stat
  send_info names user i [] sent = ok sent
  send_info names user i (v ∷ vs) sent =
      index names i >>= λ name. send_user_stat name user v sent >>= send_info names user (i + 1) vs

  unfoldable pub allowed_user : Bytes → Bool
  allowed_user user =
      let lists = cfg.aerospike.user_metrics_users in
      (not lists.allowlist_enabled || any (λ u. equal u user) lists.allowlist)
      && not (any (λ u. equal u user) lists.blocklist)

  send_infos : UserRoles → List (AerospikeStat Float) → Go (List (AerospikeStat Float))
  unfolding send_info
  send_infos u sent =
      if leb 4 (length u.read_info) && leb 4 (length u.write_info)
      then send_info read_info_stats u.user 0 u.read_info sent
        >>= send_info write_info_stats u.user 0 u.write_info
      else ok sent

  send_user : UserRoles → List (AerospikeStat Float) → Go (List (AerospikeStat Float))
  unfolding allowed_user send_user_stat send_infos
  send_user u sent =
      if allowed_user u.user
      then send_user_stat (bytes "conns_in_use") u.user u.conns_in_use sent >>= send_infos u
      else ok sent

  -- `refreshUserStats`; `Refresh` returns the same, for the error is never set.
  unfoldable pub refresh : List UserRoles → Go (List (AerospikeStat Float))
  unfolding send_user
  refresh us = for_each send_user us []
