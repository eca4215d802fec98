-- ===== src/Server/Users.antt =====
-- `fetchUsersRoles` and `IsServerConnected` of aero_server.go.
pub mod Ready
pub mod GivingUp
pub mod Unreported
use aerospike_prometheus_exp.Base.{
  ℕ, zero, suc, ◌+◌, ◌≡◌, refl, Bool, true, false, ◌&&◌, List, [], ◌∷◌, Option, none, some, Bytes,
  nonempty, if◌then◌else◌,
}
use aerospike_prometheus_exp.Config.{Outcome, done, fatal, panics, ◌>>=◌}
use aerospike_prometheus_exp.Stats.Users.{UserRoles}
use aerospike_prometheus_exp.Server.Client.{
  Client, ServerState, Call, queries_users, Reply, answer, failure,
}
use aerospike_prometheus_exp.Server.Connect.{Provider, State, Made, called, create_new_connection}
use aerospike_prometheus_exp.Server.Request.{retry_count}

module _ (provider : Provider) where
  open provider use {client}
  open client use {Connection, Error, query_users, is_connected, is_role_violation, message}

  connected_on : Option Connection → State provider → Bool
  connected_on none st = false
  connected_on (some conn) st = is_connected conn st.calls

  unfoldable pub is_server_connected : State provider → Bool
  unfolding connected_on
  is_server_connected st = connected_on st.connection st

  -- The variables of the loop, and the provider. `err` is of connecting only.
  pub record UsersFetch : Type 0 where
    pub should_fetch : Bool
    pub users : List UserRoles
    pub err : Option Error
    pub state : State provider

  -- In the results of a round, `true` is `break` and `false` is `continue`.
  after_query : UsersFetch → List UserRoles × Option Error → Bool × UsersFetch
  after_query f (users, none) = (true, record f { users = users })
  after_query f (users, some e) =
      if is_role_violation e
      then (true, record f { users = users; should_fetch = false })
      else if nonempty (message e)
      then (false, record f { users = users })
      else (true, record f { users = users })

  query : Connection → UsersFetch → Bool × UsersFetch
  unfolding after_query
  query conn f =
      after_query (record f { state = called provider (queries_users conn) f.state })
        (query_users conn f.state.calls)

  after_connection : UsersFetch → Made provider → Bool × UsersFetch
  unfolding query
  after_connection f (failure e, st) =
      (false, record f { err = some e; state = record st { connection = none } })
  after_connection f (answer conn, st) =
      query conn (record f { err = none; state = record st { connection = some conn } })

  reconnect : UsersFetch → Outcome (Bool × UsersFetch)
  unfolding after_connection
  reconnect f = create_new_connection provider f.state >>= λ made. done (after_connection f made)

  attempt_on : UsersFetch → Option Connection → Outcome (Bool × UsersFetch)
  unfolding reconnect query
  attempt_on f none = reconnect f
  attempt_on f (some conn) =
      if is_connected conn f.state.calls then done (query conn f) else reconnect f

  -- A round of the loop.
  unfoldable pub attempt : UsersFetch → Outcome (Bool × UsersFetch)
  unfolding attempt_on
  attempt f = attempt_on f f.state.connection

  continue_with : (UsersFetch → Outcome UsersFetch) → Bool × UsersFetch → Outcome UsersFetch
  continue_with k (true, f) = done f
  continue_with k (false, f) = k f

  unfoldable pub attempts : ℕ → UsersFetch → Outcome UsersFetch
  unfolding attempt continue_with
  attempts zero f = done f
  attempts (suc n) f = attempt f >>= continue_with (attempts n)

  abbrev pub first_fetch : State provider → UsersFetch
  first_fetch st = record { should_fetch = true; users = []; err = none; state = st }

  -- The flag, the users and the error, and the state after.
  unfoldable pub fetch_users_roles : State provider → Outcome UsersFetch
  unfolding attempts
  fetch_users_roles st = attempts retry_count (first_fetch st)
