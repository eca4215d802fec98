-- ===== src/Config/Surroundings.antt =====
-- cloudinfo.go, and `FetchCloudInfo` and `FetchKubernetesInfo` of config.go: what the configuration
-- takes from where the exporter runs.
use aerospike_prometheus_exp.Base.{
  true, false, not, ◌&&◌, [], ◌∷◌, ◌++◌, Option, none, some, Bytes, bytes, Map, insert, equal,
  contains, trim, trim_space, nonempty, is_empty, ◌==◌, Go, ok, panic, if◌then◌else◌,
}
use aerospike_prometheus_exp.Config.Data.{AgentConfig, MetaData}

-- The host: the body of an HTTP request by method, URL and headers, `none` for an error of it or of
-- reading; os.Getenv; and os.Hostname, which returns no name with an error.
pub record Surroundings : Type 0 where
  pub http_body : Bytes → Bytes → Map Bytes → Option Bytes
  pub getenv : Bytes → Bytes
  pub hostname : Option Bytes
  -- the order in which `range` visits a map
  pub visit : Map Bytes → Map Bytes

module _ (here : Surroundings) where
  open here use {http_body, getenv, hostname, visit}

  accepted : Option Bytes → Option Bytes
  accepted none = none
  accepted (some body) = if contains body (bytes "xml version=") then none else some body

  -- `none` where the second result is false.
  unfoldable pub call_url : Bytes → Bytes → Map Bytes → Option Bytes
  unfolding accepted
  call_url method path headers =
      accepted (http_body method (bytes "http://169.254.169.254/" ++ path) headers)

  -- An answer that is noted, and after which `next` goes on.
  noted : Bytes → Map Bytes → Option Bytes → (Map Bytes → Map Bytes) → Map Bytes
  noted key info none next = info
  noted key info (some v) next = next (insert key v info)

  aws_with_token : Option Bytes → Map Bytes
  unfolding noted
  aws_with_token none = []
  aws_with_token (some token) =
      let headers =
        (bytes "X-aws-ec2-metadata-token-ttl-seconds", bytes "21600")
        ∷ (bytes "X-aws-ec2-metadata-token", token)
        ∷ [] in
      noted (bytes "region") []
        (call_url (bytes "GET") (bytes "/latest/meta-data/placement/region") headers)
        (λ info.
          noted (bytes "availability_zone") info
            (call_url (bytes "GET") (bytes "/latest/meta-data/placement/availability-zone") headers)
            (λ m. m))

  unfoldable pub get_aws_cloud_details : Map Bytes
  unfolding aws_with_token
  get_aws_cloud_details = aws_with_token (
      call_url (bytes "PUT") (bytes "/latest/api/token")
        ((bytes "X-aws-ec2-metadata-token-ttl-seconds", bytes "21600") ∷ []))

  unfoldable pub get_azure_cloud_details : Map Bytes
  unfolding noted
  get_azure_cloud_details =
      let headers = (bytes "Metadata", bytes "true") ∷ [] in
      noted (bytes "location") []
        (call_url (bytes "GET")
          (bytes "/metadata/instance/compute/location?api-version=2021-02-01&format=text") headers)
        (λ info.
          noted (bytes "zone") info
            (call_url (bytes "GET")
              (bytes "/metadata/instance/compute/zone?api-version=2021-02-01&format=text") headers)
            (λ m. m))

  unfoldable pub get_google_cloud_details : Map Bytes
  unfolding noted
  get_google_cloud_details =
      noted (bytes "zone") []
        (call_url (bytes "GET") (bytes "/computeMetadata/v1/instance/zone")
          ((bytes "Metadata-Flavor", bytes "Google") ∷ []))
        (λ m. m)

  abbrev trim_spaces : Bytes → Bytes
  trim_spaces s = trim (λ c. c == b' ') s

  unfoldable pub collect_cloud_details : Bytes → Map Bytes
  unfolding get_aws_cloud_details get_google_cloud_details get_azure_cloud_details
  collect_cloud_details cloud_provider =
      let provider = trim_spaces cloud_provider in
      if equal provider (bytes "aws")
      then get_aws_cloud_details
      else if equal provider (bytes "gcp")
      then get_google_cloud_details
      else if equal provider (bytes "azure")
      then get_azure_cloud_details
      else []

  -- The loop over the labels: an empty value reads `null`, and a map that the configuration does not
  -- set is nil, which takes no entry.
  add_labels : Map Bytes → Option (Map Bytes) → Go (Option (Map Bytes))
  add_labels [] labels = ok labels
  add_labels (kv ∷ m) none = panic
  add_labels ((k, v) ∷ m) (some labels) =
      add_labels m (some (insert k (if is_empty v then bytes "null" else v) labels))

  with_labels : AgentConfig → Go (Option (Map Bytes)) → Go AgentConfig
  with_labels agent (ok labels) = ok (record agent { metric_labels = labels })
  with_labels agent panic = panic

  unfoldable pub fetch_cloud_info : MetaData → AgentConfig → Go AgentConfig
  unfolding collect_cloud_details add_labels with_labels
  fetch_cloud_info md agent =
      if not (md (bytes "Agent" ∷ bytes "cloud_provider" ∷ []))
      then ok agent
      else if nonempty agent.cloud_provider && nonempty (trim_spaces agent.cloud_provider)
      then with_labels agent
          (add_labels (visit (collect_cloud_details agent.cloud_provider)) agent.metric_labels)
      else ok agent

  host_or_empty : Option Bytes → Bytes
  host_or_empty none = []
  host_or_empty (some h) = h

  unfoldable pub fetch_kubernetes_info : AgentConfig → AgentConfig
  unfolding host_or_empty
  fetch_kubernetes_info agent =
      let service_host = getenv (bytes "KUBERNETES_SERVICE_HOST") in
      if nonempty service_host && nonempty (trim_space service_host)
      then record agent { is_kubernetes = true; kubernetes_pod_name = host_or_empty hostname }
      else record agent { is_kubernetes = false }
