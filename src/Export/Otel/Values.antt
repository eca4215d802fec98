-- ===== src/Export/Otel/Values.antt =====
-- What the instruments hold after metrics are pushed.
use aerospike_prometheus_exp.Base.{
  ◌≡◌, refl, ap, subst, ◌∙◌, Bool, true, false, not, List, [], ◌∷◌, ◌++◌, Option, none, some, Bytes,
  Map, lookup, insert, lookup-insert, equal, equal_refl, if◌then◌else◌,
}
use aerospike_prometheus_exp.Config.{done, fatal, ◌>>=◌, no_instrument, >>=-eq-done, done-injective}
use aerospike_prometheus_exp.Env.{Env}
use aerospike_prometheus_exp.Stats.Metric.{AerospikeStat}
use aerospike_prometheus_exp.Export.Otel.{
  Meter, Metered, Instruments, construct_metric_key, store, store_gauge, store_counter,
  qualified_name, pair_labels, is_counter, found_or_made, store_stat, description, push_stat,
  process_and_push_stats,
}

module _ (env : Env) (meter : Meter env.Float) where
  open env use {Float}
  open meter use {Int64, of_float}

  -- The map that a metric's instrument is in, and the other one.
  abbrev pub kind_of : Bool → Instruments Int64 → Map (Metered Int64)
  kind_of true o = o.counters
  kind_of false o = o.gauges

  -- The value under `key` is `v`, and every other entry is that of `m`.
  abbrev pub Stores : Bytes → Int64 → Map (Metered Int64) → Map (Metered Int64) → Type 0
  Stores key v m m' =
      ((gd : Metered Int64) × (lookup key m' ≡ some gd) × (gd.value ≡ v))
      × ((k : Bytes) → equal key k ≡ false → lookup k m' ≡ lookup k m)

  Stores-insert :
      (key : Bytes) (gd : Metered Int64) (m : Map (Metered Int64))
      → Stores key gd.value m (insert key gd m)
  Stores-insert key gd m = (
    (gd, lookup-insert {V = Metered Int64} key key gd m ∙ rw (equal_refl key) refl, refl),
    λ k e. lookup-insert {V = Metered Int64} key k gd m ∙ rw e refl,
  )

  store-Stores :
      (key name desc : Bytes) (ls : Map Bytes) (v : Int64) (m m' : Map (Metered Int64))
      → store env meter key name desc ls v m ≡ done m'
      → Stores key v m m'
  unfolding store found_or_made
  store-Stores key name desc ls v m m' e = go (lookup key m) e
    where
      made :
          (b : Bool)
          → ((if b
                then done (record { name = name; desc = desc; labels = ls; value = v })
                else fatal no_instrument)
              >>= λ gd. done (insert key gd m))
            ≡ done m'
          → Stores key v m m'
      made true q =
          subst (λ x. Stores key v m x) (done-injective q)
            (Stores-insert key (record { name = name; desc = desc; labels = ls; value = v }) m)
      made false q = absurd (cc)

      go :
          (found : Option (Metered Int64))
          → (found_or_made env meter name desc ls v found >>= λ gd. done (insert key gd m))
            ≡ done m'
          → Stores key v m m'
      go (some gd) q =
          subst (λ x. Stores key v m x) (done-injective q)
            (Stores-insert key (record gd { value = v }) m)
      go none q = made (meter.creates name) q

  -- The instrument of a metric has the metric's value, and the other instruments are as before.
  abbrev pub Pushed : Bool → Bytes → Int64 → Instruments Int64 → Instruments Int64 → Type 0
  Pushed c key v o o' =
      Stores key v (kind_of c o) (kind_of c o') × (kind_of (not c) o' ≡ kind_of (not c) o)

  store_stat-Pushed :
      (stat : AerospikeStat Float) (ls : Map Bytes) (o o' : Instruments Int64) (c : Bool)
      → store_stat env meter stat ls o c ≡ done o'
      → Pushed c
          (construct_metric_key (qualified_name env meter stat) ls)
          (of_float stat.value)
          o
          o'
  unfolding store_stat store_gauge store_counter
  store_stat-Pushed stat ls o o' true e =
      let (m, stored, eq) =
        >>=-eq-done
          (store env meter (construct_metric_key (qualified_name env meter stat) ls)
            (qualified_name env meter stat) (description env meter stat) ls (of_float stat.value)
            o.counters)
          _ e in
      let made : record { gauges = o.gauges; counters = m } ≡ o' = done-injective eq in
      rw (← made) (store-Stores _ _ _ ls _ o.counters m stored, refl)
  store_stat-Pushed stat ls o o' false e =
      let (m, stored, eq) =
        >>=-eq-done
          (store env meter (construct_metric_key (qualified_name env meter stat) ls)
            (qualified_name env meter stat) (description env meter stat) ls (of_float stat.value)
            o.gauges)
          _ e in
      let made : record { gauges = m; counters = o.counters } ≡ o' = done-injective eq in
      rw (← made) (store-Stores _ _ _ ls _ o.gauges m stored, refl)

  -- A push that goes on has paired the metric's labels with values. The instrument under the key
  -- made of the metric's name and these labels then has its value, it is a counter exactly if the
  -- metric is one and counters are not sent as gauges, and every other instrument is as before.
  pub push_stat-Pushed :
      (common : Map Bytes) (stat : AerospikeStat Float) (o o' : Instruments Int64)
      → push_stat env meter common stat o ≡ done o'
      → (ls : Map Bytes) × (pair_labels env meter stat.labels stat.label_values ≡ done ls)
        × Pushed
            (is_counter env meter stat.m_type)
            (construct_metric_key (qualified_name env meter stat) (ls ++ common))
            (of_float stat.value)
            o
            o'
  unfolding push_stat
  push_stat-Pushed common stat o o' e =
      let (ls, paired, stored) =
        >>=-eq-done (pair_labels env meter stat.labels stat.label_values) _ e in
      (
        ls,
        paired,
        store_stat-Pushed stat (ls ++ common) o o' (is_counter env meter stat.m_type) stored,
      )

  -- The same metrics, none of them allowed.
  abbrev pub none_allowed : List (AerospikeStat Float) → List (AerospikeStat Float)
  none_allowed [] = []
  none_allowed (stat ∷ stats) = record stat { is_allowed = false } ∷ none_allowed stats

  -- The permission of a metric plays no part: what is pushed is the same if none is allowed.
  pub process_and_push_stats-none_allowed :
      (common : Map Bytes) (stats : List (AerospikeStat Float)) (o : Instruments Int64)
      → process_and_push_stats env meter common (none_allowed stats) o
        ≡ process_and_push_stats env meter common stats o
  unfolding process_and_push_stats push_stat store_stat qualified_name
  process_and_push_stats-none_allowed common [] o = refl
  process_and_push_stats-none_allowed common (stat ∷ stats) o =
      ap (◌>>=◌ (push_stat env meter common stat o))
        (λ i o'. process_and_push_stats-none_allowed common stats o' i)
