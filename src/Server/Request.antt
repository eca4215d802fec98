-- ===== src/Server/Request.antt =====
-- `fetchRequestInfoFromAerospike` of aero_server.go: a request with its retries.
pub mod Ready
pub mod Answers
pub mod Bounds
pub mod Recovery
use aerospike_prometheus_exp.Base.{
  ℕ, zero, suc, ◌+◌, ◌-◌, ◌≡◌, refl, Bool, true, false, ◌&&◌, List, [], ◌∷◌, Option, none, some,
  Bytes, bytes, Map, has_prefix, leb, if◌then◌else◌,
}
use aerospike_prometheus_exp.Config.{Outcome, done, fatal, panics, ◌>>=◌}
use aerospike_prometheus_exp.Server.Client.{
  Client, ServerState, Call, asks, closes, Reply, answer, failure,
}
use aerospike_prometheus_exp.Server.Connect.{
  Provider, State, Made, called, create_new_connection, set_user_agent,
}

abbrev pub retry_count : ℕ
retry_count = 3

-- strings.ToUpper, of ASCII
abbrev to_upper : Bytes → Bytes
to_upper [] = []
to_upper (c ∷ s) =
    let rest = to_upper s in if leb b'a' c && leb c b'z' then (c - 32) ∷ rest else c ∷ rest

-- Either the server's answer is an error, or the client failed.
pub data RequestError (E : Type 0) : Type 0 where
  reported : Bytes → RequestError E
  client_error : E → RequestError E

module _ (provider : Provider) where
  open provider use {client}
  open client use {Connection, Error, request_info, is_connected}

  -- The variables of the loop, and the provider.
  pub record Fetch : Type 0 where
    pub response : Map Bytes
    pub err : Option Error
    pub state : State provider

  -- In the results of a round, `true` is `break` and `false` is `continue`.
  after_info : Connection → Map Bytes × Option Error → State provider → Bool × Fetch
  after_info conn (response, none) st =
      (true, record { response = response; err = none; state = st })
  after_info conn (response, some e) st = (
    false,
    record {
      response = response;
      err = some e;
      state = record (called provider (closes conn) st) { connection = none };
    },
  )

  ask : List Bytes → Connection → State provider → Bool × Fetch
  unfolding after_info
  ask keys conn st =
      after_info conn (request_info conn keys st.calls) (called provider (asks conn keys) st)

  after_user_agent :
      List Bytes → Connection → Map Bytes → Option Error × State provider → Bool × Fetch
  unfolding ask
  after_user_agent keys conn response (none, st) = ask keys conn st
  after_user_agent keys conn response (some e, st) =
      (false, record { response = response; err = some e; state = st })

  after_connection : List Bytes → Map Bytes → Made provider → Bool × Fetch
  unfolding after_user_agent
  after_connection keys response (failure e, st) =
      (false, record { response = response; err = some e; state = record st { connection = none } })
  after_connection keys response (answer conn, st) =
      after_user_agent keys conn response
        (set_user_agent provider conn (record st { connection = some conn }))

  reconnect : List Bytes → Fetch → Outcome (Bool × Fetch)
  unfolding after_connection
  reconnect keys f = create_new_connection provider f.state >>= λ made.
      done (after_connection keys f.response made)

  attempt_on : List Bytes → Fetch → Option Connection → Outcome (Bool × Fetch)
  unfolding reconnect ask
  attempt_on keys f none = reconnect keys f
  attempt_on keys f (some conn) =
      if is_connected conn f.state.calls then done (ask keys conn f.state) else reconnect keys f

  -- A round of the loop.
  unfoldable pub attempt : List Bytes → Fetch → Outcome (Bool × Fetch)
  unfolding attempt_on
  attempt keys f = attempt_on keys f f.state.connection

  continue_with : (Fetch → Outcome Fetch) → Bool × Fetch → Outcome Fetch
  continue_with k (true, f) = done f
  continue_with k (false, f) = k f

  unfoldable pub attempts : ℕ → List Bytes → Fetch → Outcome Fetch
  unfolding attempt continue_with
  attempts zero keys f = done f
  attempts (suc n) keys f = attempt keys f >>= continue_with (attempts n keys)

  unfoldable pub lift_error : Option Error → Option (RequestError Error)
  lift_error none = none
  lift_error (some e) = some (client_error e)

  -- The only entry of a response may report an error.
  unfoldable pub checked : Map Bytes → Option Error → Map Bytes × Option (RequestError Error)
  unfolding lift_error
  checked ((k, v) ∷ []) e =
      if has_prefix (to_upper k) (bytes "ERROR:")
      then ([], some (reported k))
      else ((k, v) ∷ [], lift_error e)
  checked response e = (response, lift_error e)

  abbrev pub first_fetch : State provider → Fetch
  first_fetch st = record { response = []; err = none; state = st }

  -- The response, the error and the state after.
  unfoldable pub fetch_request_info :
      List Bytes
      → State provider
      → Outcome ((Map Bytes × Option (RequestError Error)) × State provider)
  unfolding attempts checked
  fetch_request_info keys st =
      attempts retry_count keys (first_fetch st) >>= λ f. done (checked f.response f.err, f.state)
