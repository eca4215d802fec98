-- ===== src/Refresher/Provider.antt =====
-- The interface `DataProvider` of internal/pkg/dataprovider/data_provider.go, and the provider that
-- asks the Aerospike server.
use aerospike_prometheus_exp.Base.{Bool, List, Option, Bytes, Map}
use aerospike_prometheus_exp.Config.{Outcome, done, ◌>>=◌}
use aerospike_prometheus_exp.Stats.Users.{UserRoles}
use aerospike_prometheus_exp.Server.Connect.{Provider, State}
use aerospike_prometheus_exp.Server.Request.{RequestError, fetch_request_info, lift_error}
use aerospike_prometheus_exp.Server.Users.{fetch_users_roles}

pub record DataProvider : Type 1 where
  pub Session : Type 0
  pub Error : Type 0
  pub request_info : List Bytes → Session → Outcome ((Map Bytes × Option Error) × Session)
  -- the flag, the users and the error
  pub fetch_users_details : Session → Outcome ((Bool × List UserRoles × Option Error) × Session)

-- `RequestInfo` and `FetchUsersDetails` of aero_server.go
unfoldable pub aerospike_data_provider : Provider → DataProvider
aerospike_data_provider provider = record {
  Session = State provider;
  Error = RequestError provider.client.Error;
  request_info = fetch_request_info provider;
  fetch_users_details = λ st. fetch_users_roles provider st >>= λ f.
      done ((f.should_fetch, f.users, lift_error provider f.err), f.state);
}
