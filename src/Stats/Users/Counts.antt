-- ===== src/Stats/Users/Counts.antt =====
-- How many metrics a user gives.
use aerospike_prometheus_exp.Base.{
  ℕ, zero, suc, ◌+◌, ◌≤◌, ◌<◌, ◌≡◌, Bool, true, false, ◌&&◌, List, [], ◌∷◌, Bytes, bytes, length,
  length-append, All, Go, ok, panic, ◌>>=◌, index, for_each, leb, if◌then◌else◌, arith,
}
use aerospike_prometheus_exp.Env.{Env}
use aerospike_prometheus_exp.Stats.Shared.{SharedState}
use aerospike_prometheus_exp.Stats.Metric.{AerospikeStat}
use aerospike_prometheus_exp.Stats.Filter.{is_metric_allowed}
use aerospike_prometheus_exp.Stats.Users.{
  UserRoles, read_info_stats, write_info_stats, send_user_stat, send_info, send_infos, allowed_user,
  send_user, refresh,
}

module _ (env : Env) (shared : SharedState) where
  open env use {Float}

  -- The loop does not panic, and what is sent grows by `n`.
  abbrev pub Grows : ℕ → List (AerospikeStat Float) → Go (List (AerospikeStat Float)) → Type 0
  Grows n sent (ok out) = length out ≡ length sent + n
  Grows n sent panic = ⊥

  Grows-bind :
      (m n : ℕ) (sent : List (AerospikeStat Float)) (r : Go (List (AerospikeStat Float)))
      (f : List (AerospikeStat Float) → Go (List (AerospikeStat Float)))
      → Grows m sent r
      → ((out : List (AerospikeStat Float)) → Grows n out (f out))
      → Grows (m + n) sent (r >>= f)
  Grows-bind m n sent (ok out) f h k = go (f out) (k out)
    where
      go : (q : Go (List (AerospikeStat Float))) → Grows n out q → Grows (m + n) sent q
      go (ok fin) g = omega arith
      go panic g = g
  Grows-bind m n sent panic f h k = elim h [ ]

  send_user_stat-Grows :
      (name user : Bytes) (v : ℕ) (sent : List (AerospikeStat Float))
      → Grows 1 sent (send_user_stat env shared name user v sent)
  unfolding send_user_stat is_metric_allowed
  send_user_stat-Grows name user v sent = length-append sent _

  -- A position that has a name.
  index-Grows :
      (names : List Bytes) (i n : ℕ) (sent : List (AerospikeStat Float))
      (f : Bytes → Go (List (AerospikeStat Float)))
      → i < length names
      → ((name : Bytes) → Grows n sent (f name))
      → Grows n sent (index names i >>= f)
  index-Grows [] i n sent f lt h = elim lt [ ]
  index-Grows (x ∷ names) zero n sent f lt h = h x
  index-Grows (x ∷ names) (suc i) n sent f lt h = index-Grows names i n sent f (omega arith) h

  send_info-Grows :
      (names : List Bytes) (user : Bytes) (i : ℕ) (vs : List ℕ) (sent : List (AerospikeStat Float))
      → i + length vs ≤ length names
      → Grows (length vs) sent (send_info env shared names user i vs sent)
  unfolding send_info
  send_info-Grows names user i [] sent h = omega arith
  send_info-Grows names user i (v ∷ vs) sent h =
      index-Grows names i (suc (length vs)) sent _ (omega arith) (λ name. rw (one (length vs)) (
        Grows-bind 1 (length vs) sent (send_user_stat env shared name user v sent) _
          (send_user_stat-Grows name user v sent)
          (λ out. send_info-Grows names user (i + 1) vs out (omega arith))))
    where
      one : (n : ℕ) → suc n ≡ 1 + n
      one n = omega arith

  -- A user's quotas and rates are sent only if both lists are complete.
  abbrev pub info_count : UserRoles → ℕ
  info_count u =
      if leb 4 (length u.read_info) && leb 4 (length u.write_info)
      then length u.read_info + length u.write_info
      else 0

  abbrev pub user_count : UserRoles → ℕ
  user_count u = if allowed_user env shared u.user then 1 + info_count u else 0

  abbrev pub total_count : List UserRoles → ℕ
  total_count [] = 0
  total_count (u ∷ us) = user_count u + total_count us

  -- No list is longer than the names for its values.
  abbrev pub Fits : UserRoles → Type 0
  Fits u = (length u.read_info ≤ 4) × (length u.write_info ≤ 4)

  send_infos-Grows :
      (u : UserRoles) (sent : List (AerospikeStat Float))
      → Fits u
      → Grows (info_count u) sent (send_infos env shared u sent)
  unfolding send_infos
  send_infos-Grows u sent h = go (leb 4 (length u.read_info) && leb 4 (length u.write_info))
    where
      go :
          (b : Bool)
          → Grows (if b then length u.read_info + length u.write_info else 0) sent (
              if b
              then send_info env shared read_info_stats u.user 0 u.read_info sent
                >>= send_info env shared write_info_stats u.user 0 u.write_info
              else ok sent)
      go true =
          Grows-bind (length u.read_info) (length u.write_info) sent
            (send_info env shared read_info_stats u.user 0 u.read_info sent) _
            (send_info-Grows read_info_stats u.user 0 u.read_info sent (omega arith))
            (λ out. send_info-Grows write_info_stats u.user 0 u.write_info out (omega arith))
      go false = omega arith

  send_user-Grows :
      (u : UserRoles) (sent : List (AerospikeStat Float))
      → Fits u
      → Grows (user_count u) sent (send_user env shared u sent)
  unfolding send_user
  send_user-Grows u sent h = go (allowed_user env shared u.user)
    where
      go :
          (b : Bool)
          → Grows (if b then 1 + info_count u else 0) sent (
              if b
              then send_user_stat env shared (bytes "conns_in_use") u.user u.conns_in_use sent
                >>= send_infos env shared u
              else ok sent)
      go true =
          Grows-bind 1 (info_count u) sent _ _ (send_user_stat-Grows _ u.user u.conns_in_use sent)
            (λ out. send_infos-Grows u out h)
      go false = omega arith

  for_users-Grows :
      (us : List UserRoles) (sent : List (AerospikeStat Float))
      → All Fits us
      → Grows (total_count us) sent (for_each (send_user env shared) us sent)
  for_users-Grows [] sent h = omega arith
  for_users-Grows (u ∷ us) sent h =
      Grows-bind (user_count u) (total_count us) sent (send_user env shared u sent) _
        (send_user-Grows u sent h.0) (λ out. for_users-Grows us out h.1)

  -- If no user has more than four read and four write values, a refresh of the users does not
  -- panic, and sends one metric for each user that the two lists of users let pass, and one more
  -- for each of the user's values if there are four of both kinds.
  pub refresh-count :
      (us : List UserRoles) → All Fits us → Grows (total_count us) [] (refresh env shared us)
  unfolding refresh
  refresh-count us h = for_users-Grows us [] h

  -- A fifth read value panics, for a user that is let pass and whose write values are complete.
  pub refresh-panic :
      (u : UserRoles) (us : List UserRoles) (a b c d e : ℕ) (more : List ℕ)
      → allowed_user env shared u.user ≡ true
      → u.read_info ≡ a ∷ b ∷ c ∷ d ∷ e ∷ more
      → leb 4 (length u.write_info) ≡ true
      → refresh env shared (u ∷ us) ≡ panic
  unfolding refresh send_user send_infos send_info send_user_stat is_metric_allowed
  refresh-panic u us a b c d e more h r w = ground arith
