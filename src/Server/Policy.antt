-- ===== src/Server/Policy.antt =====
-- `createClientPolicy` and `initAerospikeTLS` of aero_server.go.
use aerospike_prometheus_exp.Base.{
  Bool, true, false, ◌||◌, [], Option, none, some, Bytes, bytes, equal, is_empty, if◌then◌else◌,
}
use aerospike_prometheus_exp.Config.{
  Outcome, done, fatal, ◌>>=◌, AerospikeConfig, bad_user, bad_password, no_pki_certificate,
  bad_auth_mode,
}
use aerospike_prometheus_exp.Commons.Secrets.{Sources, get_secret}
use aerospike_prometheus_exp.Commons.Certificates.{Crypto, load_server_or_client_certificates}
use aerospike_prometheus_exp.Server.Client.{ClientPolicy, AuthMode, internal, external, pki}

auth_mode_of : AerospikeConfig → Outcome AuthMode
auth_mode_of c =
    if equal c.auth_mode (bytes "internal") || equal c.auth_mode []
    then done internal
    else if equal c.auth_mode (bytes "external")
    then done external
    else if equal c.auth_mode (bytes "pki")
    then (if is_empty c.cert_file || is_empty c.key_file
        then fatal no_pki_certificate
        else done pki)
    else fatal bad_auth_mode

secret_or : Option Bytes → Outcome Bytes → Outcome Bytes
secret_or none e = e
secret_or (some s) e = done s

is_some {ℓ} : {A : Type ℓ} → Option A → Bool
is_some none = false
is_some (some a) = true

module _ (sources : Sources) (crypto : Crypto) where
  -- Whether there is a configuration of TLS.
  unfoldable pub init_aerospike_tls : AerospikeConfig → Outcome Bool
  unfolding is_some
  init_aerospike_tls c = load_server_or_client_certificates sources crypto c >>= λ pools.
      done (is_some pools.0 || is_some pools.1)

  unfoldable pub create_client_policy : AerospikeConfig → Outcome ClientPolicy
  unfolding auth_mode_of secret_or init_aerospike_tls
  create_client_policy c = do
    user ← secret_or (get_secret sources c.user) (fatal bad_user)
    password ← secret_or (get_secret sources c.password) (fatal bad_password)
    mode ← auth_mode_of c
    tls ← init_aerospike_tls c
    done (record {
      user = user;
      password = password;
      auth_mode = mode;
      connection_queue_size = 1;
      timeout = c.timeout;
      tls = tls;
    })
