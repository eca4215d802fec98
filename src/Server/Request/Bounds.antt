-- ===== src/Server/Request/Bounds.antt =====
-- How many calls `fetchRequestInfoFromAerospike` of aero_server.go makes, and that it returns.
use aerospike_prometheus_exp.Base.{
  ℕ, zero, suc, ◌+◌, ◌*◌, ◌≤◌, ◌≡◌, refl, Bool, true, false, List, Option, none, some, Bytes, Map,
  Bool-cases, inl, inr, length, arith,
}
use aerospike_prometheus_exp.Config.{done}
use aerospike_prometheus_exp.Server.Client.{ClientPolicy, asks, answer, failure}
use aerospike_prometheus_exp.Server.Connect.{Provider, State, Made, called, set_user_agent}
use aerospike_prometheus_exp.Server.Connect.Bounds.{size, create_new_connection-size}
use aerospike_prometheus_exp.Server.Request
use aerospike_prometheus_exp.Server.Request.{
  Fetch, RequestError, retry_count, attempt, attempts, first_fetch, checked, fetch_request_info,
}

module _ (provider : Provider) where
  open provider use {client, make_policy}
  open client use {Connection, Error, request_info, is_connected}

  -- A round makes at most two calls on a connection, and six with a new one.
  after_info-size :
      (c : Connection) (r : Map Bytes × Option Error) (st : State provider)
      → size provider (Request.after_info provider c r st).1.state ≤ size provider st + 1
  unfolding Request.after_info
  after_info-size c (response, none) st = omega arith
  after_info-size c (response, some e) st = omega arith

  ask-size :
      (keys : List Bytes) (c : Connection) (st : State provider)
      → size provider (Request.ask provider keys c st).1.state ≤ size provider st + 2
  unfolding Request.ask
  ask-size keys c st =
      omega
        (arith, after_info-size c (request_info c keys st.calls) (called provider (asks c keys) st))

  after_connection-size :
      (keys : List Bytes) (response : Map Bytes) (r : Made provider)
      → size provider (Request.after_connection provider keys response r).1.state
        ≤ size provider r.1 + 3
  unfolding Request.after_connection set_user_agent Request.after_user_agent
  after_connection-size keys response (failure e, st) = omega arith
  after_connection-size keys response (answer c, st) =
      let held : State provider = record st { connection = some c } in
      go (set_user_agent provider c held) refl
    where
      go :
          (r : Option Error × State provider)
          → size provider r.1 ≡ suc (size provider st)
          → size provider (Request.after_user_agent provider keys c response r).1.state
            ≤ size provider st + 3
      go (none, st') h = omega (arith, ask-size keys c st')
      go (some e, st') h = omega arith

  module _ {p : ClientPolicy} (made : make_policy ≡ done p) where
    reconnect-size :
        (keys : List Bytes) (f : Fetch provider)
        → (r : Bool × Fetch provider) × (Request.reconnect provider keys f ≡ done r)
          × (size provider (r.1).state ≤ size provider f.state + 6)
    unfolding Request.reconnect
    reconnect-size keys f =
        let (r, e, h) = create_new_connection-size provider made f.state in
        (
          Request.after_connection provider keys f.response r,
          rw e refl,
          omega (arith, h, after_connection-size keys f.response r),
        )

    attempt_on-size :
        (keys : List Bytes) (f : Fetch provider) (o : Option Connection)
        → (r : Bool × Fetch provider) × (Request.attempt_on provider keys f o ≡ done r)
          × (size provider (r.1).state ≤ size provider f.state + 6)
    unfolding Request.attempt_on
    attempt_on-size keys f none = reconnect-size keys f
    attempt_on-size keys f (some c) = elim (Bool-cases (is_connected c f.state.calls)) [
      | inl t ↦
          (Request.ask provider keys c f.state, rw t refl, omega (arith, ask-size keys c f.state))
      | inr n ↦ let (r, e, h) = reconnect-size keys f in (r, rw n e, h)
    ]

    attempts-size :
        (n : ℕ) (keys : List Bytes) (f : Fetch provider)
        → (g : Fetch provider) × (attempts provider n keys f ≡ done g)
          × (size provider g.state ≤ size provider f.state + 6 * n)
    unfolding attempts attempt Request.continue_with
    attempts-size zero keys f = (f, refl, omega arith)
    attempts-size (suc n) keys f =
        let (r, e, h) = attempt_on-size keys f f.state.connection in
        rw e (go r h (attempts-size n keys r.1))
      where
        go :
            (r : Bool × Fetch provider)
            → size provider (r.1).state ≤ size provider f.state + 6
            → ((g : Fetch provider) × (attempts provider n keys r.1 ≡ done g)
                × (size provider g.state ≤ size provider (r.1).state + 6 * n))
            → (g : Fetch provider) × (Request.continue_with provider (attempts provider n keys) r
                ≡ done g)
              × (size provider g.state ≤ size provider f.state + 6 * suc n)
        go (true, u) h ih = (u, refl, omega (arith, h))
        go (false, u) h (g, e, k) = (g, e, omega (arith, h, k))

    -- Where the policy can be made, a request returns, whatever the server does, and has made at
    -- most 18 calls of the client by then.
    pub fetch_request_info-returns :
        (keys : List Bytes) (st : State provider)
        → (r : (Map Bytes × Option (RequestError Error)) × State provider) × (fetch_request_info
              provider keys st
            ≡ done r)
          × (length (r.1).calls ≤ length st.calls + 18)
    unfolding fetch_request_info
    fetch_request_info-returns keys st =
        let (g, e, h) = attempts-size retry_count keys (first_fetch provider st) in
        ((checked provider g.response g.err, g.state), rw e refl, omega (arith, h))
