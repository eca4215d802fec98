-- ===== src/Server/Connect.antt =====
-- `createNewConnection` and `setUserAgent` of aero_server.go.
pub mod Ready
pub mod Bounds
pub mod Recovery
use aerospike_prometheus_exp.Base.{
  ◌≡◌, refl, Bool, true, false, List, [], ◌∷◌, ◌++◌, Option, none, some, Bytes, bytes,
  if◌then◌else◌,
}
use aerospike_prometheus_exp.Config.{Outcome, done, fatal, panics, ◌>>=◌, AerospikeConfig}
use aerospike_prometheus_exp.Commons.Secrets.{Sources}
use aerospike_prometheus_exp.Commons.Certificates.{Crypto}
use aerospike_prometheus_exp.Server.Policy.{create_client_policy}
use aerospike_prometheus_exp.Commons.Base64.{encode_to_string}
use aerospike_prometheus_exp.Commons.Versions.{BuildInfo, get_module_version}
use aerospike_prometheus_exp.Server.Client.{
  Client, ClientPolicy, ServerState, Call, connects, logs_in, sets_timeout, asks, Reply, answer,
  failure,
}

abbrev pub go_client_library_path : Bytes
go_client_library_path = bytes "github.com/aerospike/aerospike-client-go/v8"

abbrev pub aero_exporter_library_path : Bytes
aero_exporter_library_path = bytes "github.com/aerospike/aerospike-prometheus-exporter"

-- What the provider reads and does not change. `make_policy` is `createClientPolicy`.
pub record Provider : Type 1 where
  pub client : Client
  pub build_info : Option BuildInfo
  pub make_policy : Outcome ClientPolicy

-- `NewAerospikeProvider`, with the policy of the configuration.
unfoldable pub new_aerospike_provider :
    Client → Option BuildInfo → Sources → Crypto → AerospikeConfig → Provider
new_aerospike_provider client build_info sources crypto c = record {
  client = client;
  build_info = build_info;
  make_policy = create_client_policy sources crypto c;
}

module _ (provider : Provider) where
  open provider use {client, build_info, make_policy}
  open client use {
    Connection, Error, requires_authentication, new_connection, login, set_timeout, request_info,
  }

  abbrev pub State : Type 0
  State = ServerState Connection

  -- The connection, or the error of the client, and the state after it.
  abbrev pub Made : Type 0
  Made = Reply Connection Error × State

  -- A further call.
  abbrev pub called : Call Connection → State → State
  called c st = record st { calls = c ∷ st.calls }

  -- The policy is made once.
  with_policy : Option ClientPolicy → Outcome ClientPolicy
  with_policy none = make_policy
  with_policy (some p) = done p

  after_timeout : Connection → State → Option Error → Made
  after_timeout conn st none = (answer conn, st)
  after_timeout conn st (some e) = (failure e, st)

  limit_time : Connection → State → Made
  unfolding after_timeout
  limit_time conn st =
      after_timeout conn (called (sets_timeout conn) st) (set_timeout conn st.calls)

  after_login : Connection → State → Option Error → Made
  unfolding limit_time
  after_login conn st none = limit_time conn st
  after_login conn st (some e) = (failure e, st)

  -- A connection whose login or timeout fails is neither returned nor closed.
  after_connect : ClientPolicy → State → Reply Connection Error → Made
  unfolding after_login limit_time
  after_connect p st (failure e) = (failure e, record st { connection = none })
  after_connect p st (answer conn) =
      let held = record st { connection = some conn } in
      if requires_authentication p
      then after_login conn (called (logs_in conn) held) (login conn held.calls)
      else limit_time conn held

  unfoldable pub create_new_connection : State → Outcome Made
  unfolding with_policy after_connect
  create_new_connection st = with_policy st.policy >>= λ p. done (
      after_connect p (called connects (record st { policy = some p })) (new_connection p st.calls))

  abbrev pub user_agent_command : List Bytes
  user_agent_command =
      (bytes "user-agent-set:value="
        ++ encode_to_string (
            bytes "1,go-"
            ++ (get_module_version build_info go_client_library_path
                ++ (bytes ",ape-" ++ get_module_version build_info aero_exporter_library_path))))
      ∷ []

  -- The error, if any.
  unfoldable pub set_user_agent : Connection → State → Option Error × State
  set_user_agent conn st =
      ((request_info conn user_agent_command st.calls).1, called (asks conn user_agent_command) st)
