-- ===== src/Export/Scrape/Served.antt =====
-- The Prometheus client's documented behaviour, and what PushToPrometheus sends for a list of metrics.
use aerospike_prometheus_exp.Base.{
  ℕ, ◌==◌, ◌≡◌, refl, Bool, true, false, not, ◌&&◌, any, List, [], ◌∷◌, ◌++◌, Option, none, some,
  Bytes, sym, ◌∙◌, length, All, arith, Bool-cases, inl, inr,
}
use aerospike_prometheus_exp.Env.{Env}
use aerospike_prometheus_exp.Commons.Sanitize.{valid_string}
use aerospike_prometheus_exp.Stats.Metric.{AerospikeStat, MetricType, IsLabelled}
use aerospike_prometheus_exp.Stats.Shared.{SharedState}
use aerospike_prometheus_exp.Export.Prometheus.{
  Desc, make_prom_metric, push_to_prometheus, push_all,
}

-- Whether every label's value is well-formed UTF-8.
abbrev pub all_valid : List Bytes → Bool
all_valid values = not (any (λ v. not (valid_string v)) values)

-- The values of the labels of `aerospike_node_up`.
abbrev pub identity : SharedState → List Bytes
identity shared = shared.cluster_name ∷ shared.service ∷ shared.build ∷ shared.node_id ∷ []

-- `valid_desc` is whether the client's `NewDesc` finds no error: in the metric's name, in the names
-- of the labels, or a label twice.
module _ (env : Env) {Sample : Type 0} (valid_desc : Desc → Bool)
    (must_new_const_metric : Desc → MetricType → env.Float → List Bytes → Option Sample) where
  open env use {Float}

  -- What the client makes a sample of.
  abbrev pub acceptable : Desc → List Bytes → Bool
  acceptable d values =
      valid_desc d && (length d.variable_labels == length values) && all_valid values

  -- The client's documented behaviour: a sample is made exactly of a description without an error and
  -- as many values as it has labels, all of them UTF-8; all else panics.
  abbrev pub IsClient : Type 0
  IsClient =
      (d : Desc) (kind : MetricType) (v : Float) (values : List Bytes)
      → (acceptable d values ≡ true
          → (s : Sample) × (must_new_const_metric d kind v values ≡ some s))
        × (acceptable d values ≡ false → must_new_const_metric d kind v values ≡ none)

  -- Whether a metric is allowed, its description without an error and its values UTF-8.
  abbrev pub servable : AerospikeStat Float → Bool
  servable stat =
      stat.is_allowed && valid_desc (make_prom_metric env stat).0 && all_valid stat.label_values

  -- The samples of a list of metrics, in its order: each servable metric's own, made of its
  -- description, kind, value and labels' values, and nothing for another.
  pub data Served : List (AerospikeStat Float) → List Sample → Type 0 where
    nothing : Served [] []
    passed_over :
        {stat : AerospikeStat Float} {stats : List (AerospikeStat Float)} {samples : List Sample}
        → servable stat ≡ false
        → Served stats samples
        → Served (stat ∷ stats) samples
    sent :
        {stat : AerospikeStat Float} {stats : List (AerospikeStat Float)} {samples : List Sample}
        {s : Sample}
        → servable stat ≡ true
        → must_new_const_metric
            (make_prom_metric env stat).0
            stat.m_type
            stat.value
            stat.label_values
          ≡ some s
        → Served stats samples
        → Served (stat ∷ stats) (s ∷ samples)

  pub Served-++ :
      {xs ys : List (AerospikeStat Float)} {ss ts : List Sample}
      → Served xs ss
      → Served ys ts
      → Served (xs ++ ys) (ss ++ ts)
  Served-++ nothing h = h
  Served-++ (passed_over n hs) h = passed_over n (Served-++ hs h)
  Served-++ (sent y e hs) h = sent y e (Served-++ hs h)

  -- A metric with as many values as labels is acceptable up to what its texts are.
  acceptable-labelled :
      (d : Desc) (values : List Bytes)
      → length d.variable_labels ≡ length values
      → acceptable d values ≡ (valid_desc d && all_valid values)
  acceptable-labelled d values h =
      let e = ==-refl (length d.variable_labels) (length values) h in
      elim (Bool-cases (valid_desc d)) [ inl v ↦ rw (v, e) refl | inr v ↦ rw (v) refl ]
    where
      ==-refl : (a b : ℕ) → a ≡ b → (a == b) ≡ true
      ==-refl a b e = ground arith

  push_to_prometheus-Served :
      IsClient
      → {stat : AerospikeStat Float} {stats : List (AerospikeStat Float)} {samples : List Sample}
      → IsLabelled stat
      → Served stats samples
      → Served (stat ∷ stats) (push_to_prometheus env must_new_const_metric stat ++ samples)
  unfolding push_to_prometheus make_prom_metric
  push_to_prometheus-Served client {stat = stat} h hs =
      let d = (make_prom_metric env stat).0 in
      let same = acceptable-labelled d stat.label_values h in
      let (makes, refuses) = client d stat.m_type stat.value stat.label_values in
      elim (Bool-cases stat.is_allowed) [
        | inl allowed ↦ elim (Bool-cases (acceptable d stat.label_values)) [
          | inl fits ↦ let (s, e) = makes fits in rw (allowed, e) (sent (sym same ∙ fits) e hs)
          | inr not_fits ↦ rw (allowed, refuses not_fits) (passed_over (sym same ∙ not_fits) hs)
        ]
        | inr other ↦ rw (other) (passed_over refl hs)
      ]

  pub push_all-Served :
      IsClient
      → (stats : List (AerospikeStat Float)) → All IsLabelled stats
      → Served stats (push_all env must_new_const_metric stats)
  unfolding push_all
  push_all-Served client [] h = nothing
  push_all-Served client (stat ∷ stats) (h, hs) =
      push_to_prometheus-Served client h (push_all-Served client stats hs)
