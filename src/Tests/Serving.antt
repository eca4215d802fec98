-- ===== src/Tests/Serving.antt =====
-- The properties of the server's connection at concrete inputs.
use aerospike_prometheus_exp.Base.{
  ℕ, ◌≡◌, ◌≤◌, ◌+◌, refl, true, false, List, [], ◌∷◌, Option, none, some, Bytes, bytes, Map, equal,
  length, has_prefix, ◌==◌, if◌then◌else◌,
}
use aerospike_prometheus_exp.Config.{done}
use aerospike_prometheus_exp.Server.Client.{Client, ClientPolicy, internal, answer}
use aerospike_prometheus_exp.Server.Connect.{Provider, State, create_new_connection, set_user_agent}
use aerospike_prometheus_exp.Server.Request.{RequestError, checked, fetch_request_info}
use aerospike_prometheus_exp.Server.Request.Answers.{Answered, fetch_request_info-answers}
use aerospike_prometheus_exp.Server.Request.Bounds.{fetch_request_info-returns}
use aerospike_prometheus_exp.Server.Request.Recovery.{fetch_request_info-recovers}
use aerospike_prometheus_exp.Server.Users.{UsersFetch, fetch_users_roles}
use aerospike_prometheus_exp.Server.Users.GivingUp.{Violated, fetch_users_roles-gives_up}
use aerospike_prometheus_exp.Server.Users.Unreported.{fetch_users_roles-unreported}
use aerospike_prometheus_exp.Server.Protocol.{KeepsProtocol}
use aerospike_prometheus_exp.Server.Sessions.{
  begins, requests, new_aerospike_server, Reach-KeepsProtocol,
}
use aerospike_prometheus_exp.Tests.{outcome_or}

abbrev policy : ClientPolicy
policy = record {
  user = bytes "admin";
  password = bytes "admin";
  auth_mode = internal;
  connection_queue_size = 1;
  timeout = 5;
  tls = false;
}

abbrev answered : Map Bytes
answered = (bytes "build", bytes "7.0.0.0") ∷ []

-- A client that opens connection 1 and answers on no other one, and whose queries for users end with
-- an error.
abbrev client : Bytes → Client
client users_error = record {
  Connection = ℕ;
  Error = Bytes;
  requires_authentication = λ p. true;
  new_connection = λ p calls. answer 1;
  login = λ c calls. none;
  set_timeout = λ c calls. none;
  request_info = λ c keys calls. if c == 1 then (answered, none) else ([], some (bytes "EOF"));
  query_users = λ c calls. ([], some users_error);
  is_connected = λ c calls. true;
  is_role_violation = λ e. equal e (bytes "role");
  message = λ e. e;
}

abbrev provider : Bytes → Provider
provider users_error = record {
  client = client users_error;
  build_info = none;
  make_policy = done policy;
}

abbrev refusing : Provider
refusing = provider (bytes "role")

abbrev failing : Provider
failing = provider (bytes "timeout")

-- Connection 7 is held, and broken.
abbrev broken : State failing
broken = record { connection = some 7; policy = none; calls = [] }

abbrev keys : List Bytes
keys = bytes "build" ∷ []

abbrev fetched : (Map Bytes × Option (RequestError Bytes)) × State failing
fetched = outcome_or (([], none), broken) (fetch_request_info failing keys broken)

abbrev served : State failing
served =
    (outcome_or (([], none), broken)
      (fetch_request_info failing keys (new_aerospike_server failing))).1

Reach-KeepsProtocol_example : KeepsProtocol failing served
unfolding fetch_request_info create_new_connection set_user_agent
Reach-KeepsProtocol_example = Reach-KeepsProtocol failing served (requests keys begins refl)

fetch_request_info-answers_example : Answered failing keys answered fetched.1
unfolding fetch_request_info create_new_connection set_user_agent has_prefix
fetch_request_info-answers_example = fetch_request_info-answers failing keys broken refl

fetch_request_info-returns_example :
    (r : (Map Bytes × Option (RequestError Bytes)) × State failing) × (fetch_request_info failing
        keys broken
      ≡ done r)
    × (length (r.1).calls ≤ length broken.calls + 18)
fetch_request_info-returns_example = fetch_request_info-returns failing refl keys broken

fetch_request_info-recovers_example :
    (response : Map Bytes) × (st : State failing) × (fetch_request_info failing keys broken
      ≡ done (checked failing response none, st))
fetch_request_info-recovers_example =
    fetch_request_info-recovers failing refl (λ q calls. refl) (λ calls. refl) (λ calls. refl)
      (λ ks calls. refl) keys broken

abbrev refused : UsersFetch refusing
refused =
    outcome_or
      (record {
        should_fetch = true;
        users = [];
        err = none;
        state = new_aerospike_server refusing;
      })
      (fetch_users_roles refusing (new_aerospike_server refusing))

fetch_users_roles-gives_up_example : Violated refusing refused.state
unfolding fetch_users_roles create_new_connection equal
fetch_users_roles-gives_up_example =
    fetch_users_roles-gives_up refusing (new_aerospike_server refusing) refl refl

abbrev failed : UsersFetch failing
failed =
    outcome_or (record { should_fetch = true; users = []; err = none; state = broken })
      (fetch_users_roles failing broken)

fetch_users_roles-unreported_example : (failed.err ≡ none) × (failed.state.connection ≡ some 7)
unfolding fetch_users_roles equal
fetch_users_roles-unreported_example =
    fetch_users_roles-unreported failing 7 (λ calls. refl) broken refl refl
