-- ===== src/Config/Validate.antt =====
-- `ValidateAndUpdate` and `validateOtelConfigs` of config.go.
pub mod Usable
use aerospike_prometheus_exp.Base.{
  ◌≡◌, refl, subst, ◌⊎◌, inl, inr, true, false, not, ◌&&◌, ◌||◌, List, [], ◌∷◌, Bytes, bytes, Map,
  nonempty, is_empty, equal, equal_iff, to_lower, trim_space, arith, if◌then◌else◌, ◌==◌,
  Bool-cases,
}
use aerospike_prometheus_exp.Config.Outcomes.{
  Outcome, done, ◌>>=◌, ◌>>◌, fatal_if, >>=-eq-done, done-injective, key_file_missing,
  cert_file_missing, root_ca_missing, nothing_enabled, endpoint_and_grpc, grpc_and_http,
  no_endpoint, bad_temporality, bad_separator,
}
use aerospike_prometheus_exp.Config.Data.{
  OtelConfig, AgentConfig, AerospikeConfig, Config, MetaData,
}

abbrev or_default : Bytes → Bytes → Bytes
or_default s d = if is_empty s then d else s

abbrev otel_key : Bytes → List Bytes
otel_key k = bytes "Agent" ∷ bytes "OpenTelemetry" ∷ k ∷ []

-- The deprecated `endpoint` stands in for `grpc_endpoint`; both together are refused.
unfoldable pub resolve_endpoint : OtelConfig → Outcome OtelConfig
resolve_endpoint o = do
  fatal_if (nonempty o.endpoint && nonempty o.grpc_endpoint) endpoint_and_grpc
  done (if nonempty o.endpoint then record o { grpc_endpoint = o.endpoint } else o)

unfoldable pub validate_otel_configs : OtelConfig → Outcome OtelConfig
unfolding resolve_endpoint
validate_otel_configs c = do
  o ← resolve_endpoint c
  fatal_if (nonempty o.grpc_endpoint && nonempty o.http_endpoint) grpc_and_http
  fatal_if (is_empty o.grpc_endpoint && is_empty o.http_endpoint) no_endpoint
  let p = record o {
    metric_context_separator = to_lower o.metric_context_separator;
    counter_temporality = to_lower o.counter_temporality;
  }
  fatal_if
      (not (equal p.counter_temporality (bytes "delta"))
        && not (equal p.counter_temporality (bytes "cumulative")))
      bad_temporality
  fatal_if
      (not (equal p.metric_context_separator (bytes "period"))
        && not (equal p.metric_context_separator (bytes "underscore")))
      bad_separator
  done p

abbrev default_renamed_labels : Map Bytes
default_renamed_labels =
    (bytes "cluster_name", bytes "aerospike_cluster")
    ∷ (bytes "service", bytes "aerospike_service")
    ∷ []

-- What the file leaves out of the OpenTelemetry section.
unfoldable pub otel_defaults : MetaData → OtelConfig → OtelConfig
otel_defaults md o = record o {
  counter_temporality =
      if md (otel_key (bytes "counter_temporality")) then o.counter_temporality else bytes "delta";
  all_metrics_as_gauge =
      if md (otel_key (bytes "all_metrics_as_gauges")) then o.all_metrics_as_gauge else true;
  metric_name_prefix =
      if md (otel_key (bytes "metric_name_prefix"))
      then o.metric_name_prefix
      else bytes "aerospike.server";
  metric_context_separator =
      if md (otel_key (bytes "metric_context_separator"))
      then o.metric_context_separator
      else bytes "period";
  renamed_labels =
      if md (otel_key (bytes "renamed_labels")) then o.renamed_labels else default_renamed_labels;
}

-- The defaults that do not depend on OpenTelemetry being enabled.
unfoldable pub agent_defaults : MetaData → AgentConfig → AgentConfig
agent_defaults md a =
    let o = a.otel in
    record a {
      bind = or_default a.bind (bytes ":9145");
      timeout = if a.timeout == 0 then 5 else a.timeout;
      prometheus_enabled =
          if md (bytes "Agent" ∷ bytes "enable_prometheus" ∷ [])
          then a.prometheus_enabled
          else true;
      otel = record o {
        service_name = or_default o.service_name (bytes "aerospike-server-metrics-service");
        push_interval = if o.push_interval == 0 then 60 else o.push_interval;
        server_stat_fetch_interval =
            if o.server_stat_fetch_interval == 0 then 15 else o.server_stat_fetch_interval;
      };
    }

unfoldable pub aerospike_defaults : AerospikeConfig → AerospikeConfig
aerospike_defaults c = record c {
  auth_mode = to_lower (trim_space (or_default c.auth_mode (bytes "internal")));
  timeout = if c.timeout == 0 then 5 else c.timeout;
}

-- key_file and cert_file stand together, and with root_ca.
unfoldable pub check_certificates : AerospikeConfig → Outcome (Unit {0})
check_certificates c = do
  fatal_if (is_empty c.key_file && nonempty c.cert_file) key_file_missing
  fatal_if (nonempty c.key_file && is_empty c.cert_file) cert_file_missing
  fatal_if (is_empty c.root_ca && nonempty c.cert_file) root_ca_missing

-- The block under `if c.Agent.OtelEnabled`.
unfoldable pub update_otel : MetaData → AgentConfig → Outcome AgentConfig
update_otel md a =
    if a.otel_enabled
    then (do o ← validate_otel_configs (otel_defaults md a.otel); done (record a { otel = o }))
    else done a

unfoldable pub validate_and_update : MetaData → Config → Outcome Config
validate_and_update md c = do
  let aero = aerospike_defaults c.aerospike
  check_certificates aero
  agent ← update_otel md (agent_defaults md c.agent)
  fatal_if (not agent.prometheus_enabled && not agent.otel_enabled) nothing_enabled
  done (record { agent = agent; aerospike = aero })
