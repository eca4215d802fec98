-- ===== src/Export/Prometheus.antt =====
-- prometheus.go and prometheus_httplistener.go: what a scrape gets, and who may scrape.
use aerospike_prometheus_exp.Base.{
  ◌≡◌, Bool, false, ◌&&◌, List, [], ◌∷◌, ◌++◌, Option, none, some, Bytes, bytes, Map, equal,
  equal_iff, refl, nonempty, ◌↔◌, ◌⊎◌, inl, arith, if◌then◌else◌,
}
use aerospike_prometheus_exp.Env.{Env}
use aerospike_prometheus_exp.Stats.Metric.{AerospikeStat, MetricType, qualify_metric_context}
use aerospike_prometheus_exp.Export.Names.{normalize_desc, normalize_metric}

-- What `prometheus.NewDesc` is given.
pub record Desc : Type 0 where
  pub name : Bytes
  pub help : Bytes
  pub variable_labels : List Bytes
  pub const_labels : Option (Map Bytes)

-- The response's status, or the handler of the metrics' registry.
pub data Response : Type 0 where
  serve_metrics unauthorized : Response

-- commons.ValidateBasicAuth: what BasicAuth finds in the request, if anything
unfoldable pub validate_basic_auth : Option (Bytes × Bytes) → Bytes → Bytes → Bool
validate_basic_auth none username password = false
validate_basic_auth (some (user, pass)) username password =
    equal user username && equal pass password

-- The handler of `/metrics`.
unfoldable pub handle_metrics : Option (Bytes × Bytes) → Bytes → Bytes → Response
unfolding validate_basic_auth
handle_metrics auth username password =
    if nonempty username
    then (if validate_basic_auth auth username password then serve_metrics else unauthorized)
    else serve_metrics

-- A request gets the metrics exactly if no user is configured or it has the configured user and
-- password.
pub handle_metrics-serves :
    (auth : Option (Bytes × Bytes)) (username password : Bytes)
    → (handle_metrics auth username password ≡ serve_metrics)
      ↔ ((username ≡ []) ⊎ (auth ≡ some (username, password)))
unfolding handle_metrics validate_basic_auth
handle_metrics-serves auth [] password = (λ e. inl refl, λ h. refl)
handle_metrics-serves none (c ∷ cs) password =
    (λ e. absurd (ground arith), λ h. absurd (ground arith))
handle_metrics-serves (some (user, pass)) (c ∷ cs) password =
    let same_user = equal_iff user (c ∷ cs) in
    let same_pass = equal_iff pass password in (λ e. ground (arith), λ h. ground (arith))

module _ (env : Env) where
  open env use {cfg, Float, of_nat}

  unfoldable pub make_prom_metric : AerospikeStat Float → Desc × MetricType
  unfolding qualify_metric_context normalize_metric normalize_desc
  make_prom_metric stat = (
    record {
      name = qualify_metric_context stat ++ (bytes "_" ++ normalize_metric stat.name);
      help = normalize_desc stat.name;
      variable_labels = stat.labels;
      const_labels = cfg.agent.metric_labels;
    },
    stat.m_type,
  )

  -- `must_new_const_metric` is of the Prometheus client, `none` where it panics.
  module _ {Sample : Type 0}
      (must_new_const_metric : Desc → MetricType → Float → List Bytes → Option Sample) where
    abbrev recovered : Option Sample → List Sample
    recovered none = []
    recovered (some s) = s ∷ []

    -- A panic of the client is recovered from, and the metric is not sent.
    unfoldable pub push_to_prometheus : AerospikeStat Float → List Sample
    unfolding make_prom_metric
    push_to_prometheus stat =
        let (desc, kind) = make_prom_metric stat in
        if stat.is_allowed
        then recovered (must_new_const_metric desc kind stat.value stat.label_values)
        else []

    unfoldable pub push_all : List (AerospikeStat Float) → List Sample
    unfolding push_to_prometheus
    push_all [] = []
    push_all (stat ∷ stats) = push_to_prometheus stat ++ push_all stats
