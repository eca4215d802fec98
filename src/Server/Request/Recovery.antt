-- ===== src/Server/Request/Recovery.antt =====
-- How `fetchRequestInfoFromAerospike` of aero_server.go recovers from a broken connection.
use aerospike_prometheus_exp.Base.{
  ℕ, suc, ◌≡◌, refl, Bool, true, false, List, Option, none, some, Bytes, Map, Bool-cases, inl, inr,
}
use aerospike_prometheus_exp.Config.{done}
use aerospike_prometheus_exp.Server.Client.{ClientPolicy, Call, asks, answer}
use aerospike_prometheus_exp.Server.Connect.{
  Provider, State, called, set_user_agent, user_agent_command,
}
use aerospike_prometheus_exp.Server.Connect.Recovery.{create_new_connection-answers}
use aerospike_prometheus_exp.Server.Request
use aerospike_prometheus_exp.Server.Request.{
  Fetch, RequestError, retry_count, attempt, attempts, first_fetch, checked, fetch_request_info,
}

module _ (provider : Provider) where
  open provider use {client, make_policy}
  open client use {
    Connection, Error, new_connection, login, set_timeout, request_info, is_connected,
  }

  abbrev Broken : Fetch provider → Type 0
  Broken f = f.state.connection ≡ none

  abbrev Fine : Fetch provider → Type 0
  Fine f = f.err ≡ none

  -- A round on a connection succeeds, or it leaves no connection.
  abbrev Progress : Bool × Fetch provider → Type 0
  Progress (true, f) = Fine f
  Progress (false, f) = Broken f

  after_info-Progress :
      (c : Connection) (r : Map Bytes × Option Error) (st : State provider)
      → Progress (Request.after_info provider c r st)
  unfolding Request.after_info
  after_info-Progress c (response, none) st = refl
  after_info-Progress c (response, some e) st = refl

  ask-Progress :
      (keys : List Bytes) (c : Connection) (st : State provider)
      → Progress (Request.ask provider keys c st)
  unfolding Request.ask
  ask-Progress keys c st = after_info-Progress c _ (called provider (asks c keys) st)

  after_info-succeeds :
      (c : Connection) (r : Map Bytes × Option Error) (st : State provider)
      → r.1 ≡ none
      → (f : Fetch provider) × (Request.after_info provider c r st ≡ (true, f)) × Fine f
  unfolding Request.after_info
  after_info-succeeds c (response, none) st h = (_, refl, refl)
  after_info-succeeds c (response, some e) st h = cc

  module _ {p : ClientPolicy} {c : Connection} (made : make_policy ≡ done p)
      (opens : (q : ClientPolicy) (calls : List (Call Connection))
        → new_connection q calls ≡ answer c)
      (logs : (calls : List (Call Connection)) → login c calls ≡ none)
      (lifts : (calls : List (Call Connection)) → set_timeout c calls ≡ none)
      (answers : (keys : List Bytes) (calls : List (Call Connection))
        → (request_info c keys calls).1 ≡ none) where
    reconnect-succeeds :
        (keys : List Bytes) (f : Fetch provider)
        → (g : Fetch provider) × (Request.reconnect provider keys f ≡ done (true, g)) × Fine g
    unfolding Request.reconnect Request.after_connection Request.after_user_agent Request.ask
        set_user_agent
    reconnect-succeeds keys f =
        let (st, e) = create_new_connection-answers provider made opens logs lifts f.state in
        let held : State provider = record st { connection = some c } in
        let told : State provider = called provider (asks c (user_agent_command provider)) held in
        let (g, e', fine) =
          after_info-succeeds c (request_info c keys told.calls)
            (called provider (asks c keys) told) (answers keys told.calls) in
        (g, rw (e, answers (user_agent_command provider) held.calls, e') refl, fine)

    attempt_on-Progress :
        (keys : List Bytes) (f : Fetch provider) (o : Option Connection)
        → (r : Bool × Fetch provider) × (Request.attempt_on provider keys f o ≡ done r) × Progress r
    unfolding Request.attempt_on
    attempt_on-Progress keys f none =
        let (g, e, fine) = reconnect-succeeds keys f in ((true, g), e, fine)
    attempt_on-Progress keys f (some d) = elim (Bool-cases (is_connected d f.state.calls)) [
      | inl t ↦ (Request.ask provider keys d f.state, rw t refl, ask-Progress keys d f.state)
      | inr n ↦ let (g, e, fine) = reconnect-succeeds keys f in ((true, g), rw n e, fine)
    ]

    attempt_on-succeeds :
        (keys : List Bytes) (f : Fetch provider) (o : Option Connection)
        → o ≡ none
        → (g : Fetch provider) × (Request.attempt_on provider keys f o ≡ done (true, g)) × Fine g
    unfolding Request.attempt_on
    attempt_on-succeeds keys f none h = reconnect-succeeds keys f
    attempt_on-succeeds keys f (some d) h = cc

    second_attempts-Fine :
        (n : ℕ) (keys : List Bytes) (f : Fetch provider)
        → Broken f
        → (g : Fetch provider) × (attempts provider (suc n) keys f ≡ done g) × Fine g
    unfolding attempts attempt Request.continue_with
    second_attempts-Fine n keys f broken =
        let (g, e, fine) = attempt_on-succeeds keys f f.state.connection broken in
        (g, rw e refl, fine)

    attempts-Fine :
        (n : ℕ) (keys : List Bytes) (f : Fetch provider)
        → (g : Fetch provider) × (attempts provider (suc (suc n)) keys f ≡ done g) × Fine g
    unfolding attempts attempt Request.continue_with
    attempts-Fine n keys f =
        let (r, e, h) = attempt_on-Progress keys f f.state.connection in rw e (go r h)
      where
        go :
            (r : Bool × Fetch provider)
            → Progress r
            → (g : Fetch provider) × (Request.continue_with provider
                  (attempts provider (suc n) keys)
                  r
                ≡ done g)
              × Fine g
        go (true, g) fine = (g, refl, fine)
        go (false, u) broken = second_attempts-Fine n keys u broken

    -- Where the policy can be made, and the server lets the exporter open a connection, log in and
    -- lift the deadline and then answers what it is asked there, a request succeeds, whatever
    -- connection was held before it: the client reports no error.
    pub fetch_request_info-recovers :
        (keys : List Bytes) (st : State provider)
        → (response : Map Bytes) × (st' : State provider) × (fetch_request_info provider keys st
            ≡ done (checked provider response none, st'))
    unfolding fetch_request_info
    fetch_request_info-recovers keys st =
        let (g, e, fine) = attempts-Fine 1 keys (first_fetch provider st) in
        (g.response, g.state, rw (e, fine) refl)
