-- ===== src/Config/Validate/Usable.antt =====
-- What an accepted configuration is.
use aerospike_prometheus_exp.Base.{
  ◌≡◌, refl, subst, ◌⊎◌, inl, inr, true, false, not, ◌&&◌, ◌||◌, bytes, nonempty, is_empty,
  equal_iff, to_lower, arith, ◌==◌, Bool-cases,
}
use aerospike_prometheus_exp.Config.Outcomes.{
  done, fatal_if, >>=-eq-done, done-injective, nothing_enabled,
}
use aerospike_prometheus_exp.Config.Data.{OtelConfig, AgentConfig, Config, MetaData}
use aerospike_prometheus_exp.Config.Validate.{
  resolve_endpoint, validate_otel_configs, otel_defaults, agent_defaults, aerospike_defaults,
  check_certificates, update_otel, validate_and_update,
}

-- Exactly one OpenTelemetry endpoint, and values that the exporter knows.
pub record OtelIsValid (o : OtelConfig) : Type 0 where
  pub not_both : (nonempty o.grpc_endpoint && nonempty o.http_endpoint) ≡ false
  pub not_neither : (is_empty o.grpc_endpoint && is_empty o.http_endpoint) ≡ false
  pub temporality :
      (o.counter_temporality ≡ bytes "delta") ⊎ (o.counter_temporality ≡ bytes "cumulative")
  pub separator :
      (o.metric_context_separator ≡ bytes "period")
      ⊎ (o.metric_context_separator ≡ bytes "underscore")

pub record ConfigIsValid (c : Config) : Type 0 where
  pub bound : is_empty c.agent.bind ≡ false
  pub agent_timeout : (c.agent.timeout == 0) ≡ false
  pub aerospike_timeout : (c.aerospike.timeout == 0) ≡ false
  pub push_interval : (c.agent.otel.push_interval == 0) ≡ false
  pub fetch_interval : (c.agent.otel.server_stat_fetch_interval == 0) ≡ false
  pub key_and_cert : is_empty c.aerospike.key_file ≡ is_empty c.aerospike.cert_file
  pub cert_and_ca : (nonempty c.aerospike.cert_file && is_empty c.aerospike.root_ca) ≡ false
  pub serves : (c.agent.prometheus_enabled || c.agent.otel_enabled) ≡ true
  pub otel_valid : c.agent.otel_enabled ≡ true → OtelIsValid c.agent.otel

-- OpenTelemetry settings that pass are usable.
validate_otel_configs-OtelIsValid :
    (c o : OtelConfig) → validate_otel_configs c ≡ done o → OtelIsValid o
unfolding validate_otel_configs
validate_otel_configs-OtelIsValid c o h =
    let (r, e, h1) = >>=-eq-done (resolve_endpoint c) _ h in
    ground (
      arith,
      h1,
      equal_iff (to_lower r.counter_temporality) (bytes "delta"),
      equal_iff (to_lower r.counter_temporality) (bytes "cumulative"),
      equal_iff (to_lower r.metric_context_separator) (bytes "period"),
      equal_iff (to_lower r.metric_context_separator) (bytes "underscore"),
    )

-- The part of the agent's section that OpenTelemetry does not touch.
record AgentKept (a b : AgentConfig) : Type 0 where
  bind : b.bind ≡ a.bind
  timeout : b.timeout ≡ a.timeout
  prometheus : b.prometheus_enabled ≡ a.prometheus_enabled
  push_interval : b.otel.push_interval ≡ a.otel.push_interval
  fetch_interval : b.otel.server_stat_fetch_interval ≡ a.otel.server_stat_fetch_interval
  otel_valid : b.otel_enabled ≡ true → OtelIsValid b.otel

validate_otel_configs-intervals :
    (c o : OtelConfig)
    → validate_otel_configs c ≡ done o
    → (o.push_interval ≡ c.push_interval)
      × (o.server_stat_fetch_interval ≡ c.server_stat_fetch_interval)
unfolding validate_otel_configs resolve_endpoint
validate_otel_configs-intervals c o h =
    let (r, e, h1) = >>=-eq-done (resolve_endpoint c) _ h in ground (arith, h1, e)

update_otel-AgentKept :
    (md : MetaData) (a b : AgentConfig) → update_otel md a ≡ done b → AgentKept a b
unfolding update_otel otel_defaults
update_otel-AgentKept md a b h = elim (Bool-cases a.otel_enabled) [
  | inl on ↦
      let (o, e, k) =
        >>=-eq-done (validate_otel_configs (otel_defaults md a.otel)) _ (rw on at h) in
      let kept = validate_otel_configs-intervals _ o e in
      let valid = validate_otel_configs-OtelIsValid _ o e in
      subst (AgentKept a) (done-injective k) (record {
        bind = refl;
        timeout = refl;
        prometheus = refl;
        push_interval = kept.0;
        fetch_interval = kept.1;
        otel_valid = λ _. valid;
      })
  | inr off ↦ subst (AgentKept a) (done-injective (rw off at h)) (record {
    bind = refl;
    timeout = refl;
    prometheus = refl;
    push_interval = refl;
    fetch_interval = refl;
    otel_valid = λ on. absurd (cc);
  })
]

-- A configuration that validation accepts is usable: the bind address, both timeouts and both
-- intervals are set, key_file and cert_file stand together and with a root_ca, at least one way
-- to serve metrics is enabled, and, if that is OpenTelemetry, exactly one of its endpoints is set
-- and its temporality and separator are values that the exporter knows.
pub validate_and_update-ConfigIsValid :
    (md : MetaData) (c d : Config) → validate_and_update md c ≡ done d → ConfigIsValid d
unfolding validate_and_update aerospike_defaults agent_defaults check_certificates
validate_and_update-ConfigIsValid md c d h =
    let (u, certs, h1) = >>=-eq-done (check_certificates (aerospike_defaults c.aerospike)) _ h in
    let (agent, e, h2) = >>=-eq-done (update_otel md (agent_defaults md c.agent)) _ h1 in
    let kept = update_otel-AgentKept md _ agent e in
    let (v, served, h3) =
      >>=-eq-done
        (fatal_if (not agent.prometheus_enabled && not agent.otel_enabled) nothing_enabled)
        (λ _. done (record { agent = agent; aerospike = aerospike_defaults c.aerospike })) h2 in
    subst ConfigIsValid (done-injective h3) (record {
      bound = rw kept.bind (ground arith);
      agent_timeout = rw kept.timeout (ground arith);
      aerospike_timeout = ground arith;
      push_interval = rw kept.push_interval (ground arith);
      fetch_interval = rw kept.fetch_interval (ground arith);
      key_and_cert = ground (arith, certs);
      cert_and_ca = ground (arith, certs);
      serves = ground (arith, served);
      otel_valid = kept.otel_valid;
    })
