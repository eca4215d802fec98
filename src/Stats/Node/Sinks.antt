-- ===== src/Stats/Node/Sinks.antt =====
-- The log sinks of a node.
use aerospike_prometheus_exp.Base.{
  ℕ, zero, suc, ◌+◌, ◌<◌, ◌≡◌, refl, sym, subst, Bool, true, false, ◌||◌, ◌++◌, Bytes, bytes, Map,
  get_string, contains, itoa, ◌↔◌, ◌⊎◌, inl, inr, arith,
}
use aerospike_prometheus_exp.Env.{Env}
use aerospike_prometheus_exp.Stats.Shared.{SharedState}
use aerospike_prometheus_exp.Stats.Node.{some_sink}

module _ (env : Env) (shared : SharedState) where
  -- What the server says of the log sink `i` has the level.
  abbrev pub SinkHas : Bytes → Map Bytes → ℕ → Type 0
  SinkHas level raw_metrics i =
      contains (get_string (bytes "log/" ++ itoa i) raw_metrics) level ≡ true

  or_left : (a b : Bool) → a ≡ true → (a || b) ≡ true
  or_left true b e = refl
  or_left false b e = absurd (cc)

  or_right : (a b : Bool) → b ≡ true → (a || b) ≡ true
  or_right true b e = refl
  or_right false b e = e

  or_cases : (a b : Bool) → (a || b) ≡ true → (a ≡ true) ⊎ (b ≡ true)
  or_cases true b e = inl refl
  or_cases false b e = inr e

  found :
      (level : Bytes) (n i : ℕ) (raw_metrics : Map Bytes)
      → some_sink env shared level n i raw_metrics ≡ true
      → (k : ℕ) × (k < n) × SinkHas level raw_metrics (i + k)
  unfolding some_sink
  found level zero i raw_metrics e = absurd (cc)
  found level (suc n) i raw_metrics e =
      elim (or_cases (contains (get_string (bytes "log/" ++ itoa i) raw_metrics) level) _ e) [
        | inl here ↦ (0, omega arith, subst (SinkHas level raw_metrics) (plus_zero i) here)
        | inr later ↦
            let (k, lt, has) = found level n (i + 1) raw_metrics later in
            (suc k, omega arith, subst (SinkHas level raw_metrics) (plus_suc i k) has)
      ]
    where
      plus_zero : (j : ℕ) → j ≡ j + 0
      plus_zero j = omega arith

      plus_suc : (j k : ℕ) → j + 1 + k ≡ j + suc k
      plus_suc j k = omega arith

  finds :
      (level : Bytes) (n i k : ℕ) (raw_metrics : Map Bytes)
      → k < n
      → SinkHas level raw_metrics (i + k)
      → some_sink env shared level n i raw_metrics ≡ true
  unfolding some_sink
  finds level zero i k raw_metrics lt has = absurd (omega arith)
  finds level (suc n) i zero raw_metrics lt has =
      or_left _ _ (subst (SinkHas level raw_metrics) (plus_zero i) has)
    where
      plus_zero : (j : ℕ) → j + 0 ≡ j
      plus_zero j = omega arith
  finds level (suc n) i (suc k) raw_metrics lt has = or_right _ _ (
      finds level n (i + 1) k raw_metrics (omega arith)
        (subst (SinkHas level raw_metrics) (plus_suc i k) has))
    where
      plus_suc : (j k : ℕ) → j + suc k ≡ j + 1 + k
      plus_suc j k = omega arith

  -- The search over `n` log sinks from the first on succeeds exactly if the server's answer for one
  -- of them contains the level.
  pub some_sink_iff :
      (level : Bytes) (n : ℕ) (raw_metrics : Map Bytes)
      → (some_sink env shared level n 0 raw_metrics ≡ true)
        ↔ ((k : ℕ) × (k < n) × SinkHas level raw_metrics k)
  some_sink_iff level n raw_metrics = (
    λ e.
        let (k, lt, has) = found level n 0 raw_metrics e in
        (k, lt, subst (SinkHas level raw_metrics) (zero_plus k) has),
    λ (k, lt, has).
        finds level n 0 k raw_metrics lt
          (subst (SinkHas level raw_metrics) (sym (zero_plus k)) has),
  )
    where
      zero_plus : (k : ℕ) → 0 + k ≡ k
      zero_plus k = omega arith
