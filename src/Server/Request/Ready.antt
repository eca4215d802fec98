-- ===== src/Server/Request/Ready.antt =====
-- `fetchRequestInfoFromAerospike` of aero_server.go, against the protocol.
use aerospike_prometheus_exp.Base.{
  ℕ, zero, suc, ◌≡◌, refl, ap, subst, Bool, true, false, List, Option, none, some, Bytes, Map,
  Bool-cases, inl, inr,
}
use aerospike_prometheus_exp.Config.{Outcome, done, >>=-eq-done, done-injective}
use aerospike_prometheus_exp.Server.Client.{asks, answer, failure}
use aerospike_prometheus_exp.Server.Connect.{
  Provider, State, Made, called, create_new_connection, user_agent_command, set_user_agent,
}
use aerospike_prometheus_exp.Server.Connect.Ready.{create_new_connection-MadeReady}
use aerospike_prometheus_exp.Server.Protocol.{
  Protocol, ready, requests, ends, KeepsProtocol, MadeReady,
}
use aerospike_prometheus_exp.Server.Request
use aerospike_prometheus_exp.Server.Request.{
  Fetch, RequestError, retry_count, attempt, attempts, first_fetch, checked, fetch_request_info,
}

module _ (provider : Provider) where
  open provider use {client}
  open client use {Connection, Error, request_info, is_connected}

  -- After a round.
  abbrev RoundKeeps : Bool × Fetch provider → Type 0
  RoundKeeps r = KeepsProtocol provider (r.1).state

  after_info-RoundKeeps :
      (c : Connection) (r : Map Bytes × Option Error) (st : State provider)
      → Protocol client st.calls (ready c)
      → st.connection ≡ some c
      → RoundKeeps (Request.after_info provider c r st)
  unfolding Request.after_info
  after_info-RoundKeeps c (response, none) st h held = rw held h
  after_info-RoundKeeps c (response, some e) st h held = (_, ends h)

  ask-RoundKeeps :
      (keys : List Bytes) (c : Connection) (st : State provider)
      → Protocol client st.calls (ready c)
      → st.connection ≡ some c
      → RoundKeeps (Request.ask provider keys c st)
  unfolding Request.ask
  ask-RoundKeeps keys c st h held =
      after_info-RoundKeeps c _ (called provider (asks c keys) st) (requests keys h) held

  after_user_agent-RoundKeeps :
      (keys : List Bytes) (c : Connection) (response : Map Bytes) (e : Option Error)
      (st : State provider)
      → Protocol client st.calls (ready c)
      → st.connection ≡ some c
      → RoundKeeps (Request.after_user_agent provider keys c response (e, st))
  unfolding Request.after_user_agent
  after_user_agent-RoundKeeps keys c response none st h held = ask-RoundKeeps keys c st h held
  after_user_agent-RoundKeeps keys c response (some e) st h held = rw held h

  after_connection-RoundKeeps :
      (keys : List Bytes) (response : Map Bytes) (made : Made provider)
      → MadeReady provider made
      → RoundKeeps (Request.after_connection provider keys response made)
  unfolding Request.after_connection set_user_agent
  after_connection-RoundKeeps keys response (failure e, st) h = h
  after_connection-RoundKeeps keys response (answer c, st) h =
      after_user_agent-RoundKeeps keys c response _
        (called provider (asks c (user_agent_command provider)) (record st { connection = some c }))
        (requests (user_agent_command provider) h) refl

  reconnect-RoundKeeps :
      (keys : List Bytes) (f : Fetch provider) (r : Bool × Fetch provider)
      → KeepsProtocol provider f.state
      → Request.reconnect provider keys f ≡ done r
      → RoundKeeps r
  unfolding Request.reconnect
  reconnect-RoundKeeps keys f r h e =
      let (made, m, e') = >>=-eq-done (create_new_connection provider f.state) _ e in
      subst RoundKeeps (done-injective e') (
        after_connection-RoundKeeps keys f.response made
          (create_new_connection-MadeReady provider f.state made h m))

  attempt_on-RoundKeeps :
      (keys : List Bytes) (f : Fetch provider) (o : Option Connection) (r : Bool × Fetch provider)
      → f.state.connection ≡ o
      → KeepsProtocol provider f.state
      → Request.attempt_on provider keys f o ≡ done r
      → RoundKeeps r
  unfolding Request.attempt_on
  attempt_on-RoundKeeps keys f none r held h e = reconnect-RoundKeeps keys f r h e
  attempt_on-RoundKeeps keys f (some c) r held h e =
      elim (Bool-cases (is_connected c f.state.calls)) [
        | inl t ↦
            subst RoundKeeps (done-injective (rw t at e))
              (ask-RoundKeeps keys c f.state (rw held at h) held)
        | inr n ↦ reconnect-RoundKeeps keys f r h (rw n at e)
      ]

  continue_with-KeepsProtocol :
      (k : Fetch provider → Outcome (Fetch provider)) (r : Bool × Fetch provider)
      (g : Fetch provider)
      → ((f : Fetch provider)
          → KeepsProtocol provider f.state
          → k f ≡ done g
          → KeepsProtocol provider g.state)
      → RoundKeeps r
      → Request.continue_with provider k r ≡ done g
      → KeepsProtocol provider g.state
  unfolding Request.continue_with
  continue_with-KeepsProtocol k (true, f) g ih h e =
      subst (λ x. KeepsProtocol provider x.state) (done-injective e) h
  continue_with-KeepsProtocol k (false, f) g ih h e = ih f h e

  attempts-KeepsProtocol :
      (n : ℕ) (keys : List Bytes) (f g : Fetch provider)
      → KeepsProtocol provider f.state
      → attempts provider n keys f ≡ done g
      → KeepsProtocol provider g.state
  unfolding attempts attempt
  attempts-KeepsProtocol zero keys f g h e =
      subst (λ x. KeepsProtocol provider x.state) (done-injective e) h
  attempts-KeepsProtocol (suc n) keys f g h e =
      let (r, a, e') = >>=-eq-done (attempt provider keys f) _ e in
      continue_with-KeepsProtocol (attempts provider n keys) r g
        (λ x. attempts-KeepsProtocol n keys x g)
        (attempt_on-RoundKeeps keys f f.state.connection r refl h a) e'

  pub fetch_request_info-KeepsProtocol :
      (keys : List Bytes) (st : State provider) {a : Map Bytes × Option (RequestError Error)}
      {st' : State provider}
      → KeepsProtocol provider st
      → fetch_request_info provider keys st ≡ done (a, st')
      → KeepsProtocol provider st'
  unfolding fetch_request_info
  fetch_request_info-KeepsProtocol keys st h e =
      let (f, a, e') =
        >>=-eq-done (attempts provider retry_count keys (first_fetch provider st)) _ e in
      subst (KeepsProtocol provider) (ap (λ r. r.1) (done-injective e'))
        (attempts-KeepsProtocol retry_count keys (first_fetch provider st) f h a)
