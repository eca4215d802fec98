-- ===== src/Tests/Settings.antt =====
-- Accepted configurations, secrets and lists.
use aerospike_prometheus_exp.Base.{
  ◌≡◌, refl, ◌++◌, none, some, false, [], ◌∷◌, bytes, equal, to_lower, trim_space, if◌then◌else◌,
  ◌||◌, contains, replace_all,
}
use aerospike_prometheus_exp.Commons.Secrets.{
  Sources, get_secret, get_certificate, get_secret-eq-get_certificate,
}
use aerospike_prometheus_exp.Commons.Ciphers.{
  get_configured_cipher_suite_ids, get_configured_cipher_suite_ids-empty,
}
use aerospike_prometheus_exp.Env.{GaugeStats}
use aerospike_prometheus_exp.Stats.Metric.{namespace, gauge, counter}
use aerospike_prometheus_exp.Stats.Filter.{get_metric_type}
use aerospike_prometheus_exp.Stats.Gauges.{
  init_gauge_stats, names, listed, only_gauges, get_metric_type-listed,
}
use aerospike_prometheus_exp.Config.{Config, AerospikeConfig, MetaData}
use aerospike_prometheus_exp.Config.Lists.{
  LayeredFrom, enable_allowlist, tolerate_whitelist, tolerate_blacklist,
  init_allowlist_and_blocklist_configs, init_allowlist_and_blocklist_configs-Merged,
}
use aerospike_prometheus_exp.Config.Validate.Usable.{
  ConfigIsValid, validate_and_update-ConfigIsValid,
}
use aerospike_prometheus_exp.Config.Validate.{
  resolve_endpoint, validate_otel_configs, otel_defaults, agent_defaults, aerospike_defaults,
  check_certificates, update_otel, validate_and_update,
}
use aerospike_prometheus_exp.Tests.{
  aerospike_config, config, outcome_or, env, no_gauges, lacks-Free,
}

-- Only the namespaces' whitelist is set.
abbrev defined : MetaData
defined (_ ∷ key ∷ _) = equal key (bytes "namespace_metrics_whitelist")
defined _ = false

abbrev layered : AerospikeConfig
layered =
    outcome_or aerospike_config (init_allowlist_and_blocklist_configs defined aerospike_config)

init_allowlist_and_blocklist_configs-Merged_example : LayeredFrom defined aerospike_config layered
unfolding init_allowlist_and_blocklist_configs enable_allowlist tolerate_whitelist
    tolerate_blacklist equal
init_allowlist_and_blocklist_configs-Merged_example =
    init_allowlist_and_blocklist_configs-Merged defined aerospike_config layered refl

abbrev updated : Config
updated = outcome_or config (validate_and_update defined config)

validate_and_update-ConfigIsValid_example : ConfigIsValid updated
unfolding validate_and_update resolve_endpoint validate_otel_configs otel_defaults agent_defaults
    aerospike_defaults check_certificates update_otel equal to_lower trim_space
validate_and_update-ConfigIsValid_example =
    validate_and_update-ConfigIsValid defined config updated refl

abbrev sources : Sources
sources = record { lookup_env = λ name. none; read_file = λ path. some (bytes "secret\n") }

get_secret-eq-get_certificate_example :
    get_secret sources (bytes "file" ++ b':' ∷ bytes "/etc/pw:1")
    ≡ get_certificate sources (bytes "file" ++ b':' ∷ bytes "/etc/pw:1")
unfolding equal
get_secret-eq-get_certificate_example =
    get_secret-eq-get_certificate sources (bytes "file") (bytes "/etc/pw:1")
      (lacks-Free b':' (bytes "file") refl) refl

get_configured_cipher_suite_ids-empty_example :
    get_configured_cipher_suite_ids
      ((bytes "TLS_AES_128_GCM_SHA256", 4865) ∷ [])
      (bytes "TLS_AES_128_GCM_SHA256")
    ≡ []
get_configured_cipher_suite_ids-empty_example =
    get_configured_cipher_suite_ids-empty ((bytes "TLS_AES_128_GCM_SHA256", 4865) ∷ [])
      (bytes "TLS_AES_128_GCM_SHA256")

abbrev gauge_list : GaugeStats
gauge_list = record no_gauges { namespace = bytes "objects" ∷ bytes ".file" ∷ [] }

get_metric_type-listed_example :
    get_metric_type
      (record env { gauge_stats = init_gauge_stats gauge_list })
      namespace
      (bytes "storage-engine.file")
    ≡ (if only_gauges namespace
          || (contains
                (replace_all (bytes "storage-engine.file") (bytes "storage-engine") [])
                (bytes "-")
              || names
                  (replace_all (bytes "storage-engine.file") (bytes "storage-engine") [])
                  (listed gauge_list namespace))
        then gauge
        else counter)
get_metric_type-listed_example =
    get_metric_type-listed env gauge_list namespace (bytes "storage-engine.file")
