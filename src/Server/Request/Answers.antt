-- ===== src/Server/Request/Answers.antt =====
-- What `fetchRequestInfoFromAerospike` of aero_server.go returns without an error, and that it
-- returns.
use aerospike_prometheus_exp.Base.{
  ℕ, zero, suc, ◌≡◌, refl, ap, sym, ◌∙◌, subst, Bool, true, false, List, [], ◌∷◌, Option, none,
  some, Bytes, Map, Bool-cases, inl, inr, has_prefix, bytes,
}
use aerospike_prometheus_exp.Config.{Outcome, done, >>=-eq-done, done-injective}
use aerospike_prometheus_exp.Server.Client.{Call, asks, answer, failure}
use aerospike_prometheus_exp.Server.Connect.{
  Provider, State, Made, called, create_new_connection, user_agent_command, set_user_agent,
}
use aerospike_prometheus_exp.Server.Request
use aerospike_prometheus_exp.Server.Request.{
  Fetch, RequestError, reported, client_error, retry_count, attempt, attempts, first_fetch, checked,
  fetch_request_info,
}

module _ (provider : Provider) where
  open provider use {client, make_policy}
  open client use {Connection, Error, request_info, is_connected}

  -- The last call was the request, on the connection that is held, and this was its answer.
  abbrev pub Answered : List Bytes → Map Bytes → State provider → Type 0
  Answered keys response st =
      (c : Connection) × (earlier : List (Call Connection)) × (st.connection ≡ some c)
      × (st.calls ≡ asks c keys ∷ earlier)
      × (request_info c keys earlier ≡ (response, none))

  -- A round that ends the loop is such a success, and the others leave an error.
  abbrev Rounded : List Bytes → Bool × Fetch provider → Type 0
  Rounded keys (true, f) = Answered keys f.response f.state
  Rounded keys (false, f) = (e : Error) × (f.err ≡ some e)

  after_info-Rounded :
      (keys : List Bytes) (c : Connection) (r : Map Bytes × Option Error) (st : State provider)
      → request_info c keys st.calls ≡ r
      → st.connection ≡ some c
      → Rounded keys (Request.after_info provider c r (called provider (asks c keys) st))
  unfolding Request.after_info
  after_info-Rounded keys c (response, none) st got held = (c, st.calls, held, refl, got)
  after_info-Rounded keys c (response, some e) st got held = (e, refl)

  ask-Rounded :
      (keys : List Bytes) (c : Connection) (st : State provider)
      → st.connection ≡ some c
      → Rounded keys (Request.ask provider keys c st)
  unfolding Request.ask
  ask-Rounded keys c st held = after_info-Rounded keys c _ st refl held

  after_user_agent-Rounded :
      (keys : List Bytes) (c : Connection) (response : Map Bytes) (e : Option Error)
      (st : State provider)
      → st.connection ≡ some c
      → Rounded keys (Request.after_user_agent provider keys c response (e, st))
  unfolding Request.after_user_agent
  after_user_agent-Rounded keys c response none st held = ask-Rounded keys c st held
  after_user_agent-Rounded keys c response (some e) st held = (e, refl)

  after_connection-Rounded :
      (keys : List Bytes) (response : Map Bytes) (made : Made provider)
      → Rounded keys (Request.after_connection provider keys response made)
  unfolding Request.after_connection set_user_agent
  after_connection-Rounded keys response (failure e, st) = (e, refl)
  after_connection-Rounded keys response (answer c, st) =
      after_user_agent-Rounded keys c response _
        (called provider (asks c (user_agent_command provider)) (record st { connection = some c }))
        refl

  reconnect-Rounded :
      (keys : List Bytes) (f : Fetch provider) (r : Bool × Fetch provider)
      → Request.reconnect provider keys f ≡ done r
      → Rounded keys r
  unfolding Request.reconnect
  reconnect-Rounded keys f r e =
      let (made, _, e') = >>=-eq-done (create_new_connection provider f.state) _ e in
      subst (Rounded keys) (done-injective e') (after_connection-Rounded keys f.response made)

  attempt_on-Rounded :
      (keys : List Bytes) (f : Fetch provider) (o : Option Connection) (r : Bool × Fetch provider)
      → f.state.connection ≡ o
      → Request.attempt_on provider keys f o ≡ done r
      → Rounded keys r
  unfolding Request.attempt_on
  attempt_on-Rounded keys f none r held e = reconnect-Rounded keys f r e
  attempt_on-Rounded keys f (some c) r held e = elim (Bool-cases (is_connected c f.state.calls)) [
    | inl t ↦ subst (Rounded keys) (done-injective (rw t at e)) (ask-Rounded keys c f.state held)
    | inr n ↦ reconnect-Rounded keys f r (rw n at e)
  ]

  -- After at least one round, no error means an answer.
  continue_with-Answered :
      (k : Fetch provider → Outcome (Fetch provider)) (keys : List Bytes)
      (r : Bool × Fetch provider) (g : Fetch provider)
      → ((f : Fetch provider) (e : Error)
          → f.err ≡ some e
          → k f ≡ done g
          → g.err ≡ none
          → Answered keys g.response g.state)
      → Rounded keys r
      → Request.continue_with provider k r ≡ done g
      → g.err ≡ none
      → Answered keys g.response g.state
  unfolding Request.continue_with
  continue_with-Answered k keys (true, f) g ih h e fine =
      subst (λ x. Answered keys x.response x.state) (done-injective e) h
  continue_with-Answered k keys (false, f) g ih (x, h) e fine = ih f x h e fine

  some-neq-none : {x : Error} → some x ≡ none → ⊥
  some-neq-none h = cc

  attempts-Answered :
      (n : ℕ) (keys : List Bytes) (f g : Fetch provider)
      → attempts provider (suc n) keys f ≡ done g
      → g.err ≡ none
      → Answered keys g.response g.state
  unfolding attempts attempt
  attempts-Answered zero keys f g e fine =
      let (r, a, e') = >>=-eq-done (attempt provider keys f) _ e in
      continue_with-Answered (attempts provider 0 keys) keys r g
        (λ h x had last gone.
          absurd (some-neq-none (sym had ∙ (ap (λ u. u.err) (done-injective last) ∙ gone))))
        (attempt_on-Rounded keys f f.state.connection r refl a) e' fine
  attempts-Answered (suc n) keys f g e fine =
      let (r, a, e') = >>=-eq-done (attempt provider keys f) _ e in
      continue_with-Answered (attempts provider (suc n) keys) keys r g
        (λ h x had. attempts-Answered n keys h g)
        (attempt_on-Rounded keys f f.state.connection r refl a) e' fine

  lift_error-none : (e : Option Error) → Request.lift_error provider e ≡ none → e ≡ none
  unfolding Request.lift_error
  lift_error-none none h = refl
  lift_error-none (some e) h = cc

  checked-none :
      (response : Map Bytes) (e : Option Error) {response' : Map Bytes}
      → checked provider response e ≡ (response', none)
      → (response ≡ response') × (e ≡ none)
  unfolding checked
  checked-none [] e h = (ap (λ r. r.0) h, lift_error-none e (ap (λ r. r.1) h))
  checked-none ((k, v) ∷ []) e h =
      elim (Bool-cases (has_prefix (Request.to_upper k) (bytes "ERROR:"))) [
        | inl t ↦ let h' = rw t at h in cc
        | inr f ↦ let h' = rw f at h in (ap (λ r. r.0) h', lift_error-none e (ap (λ r. r.1) h'))
      ]
  checked-none (x ∷ y ∷ m) e h = (ap (λ r. r.0) h, lift_error-none e (ap (λ r. r.1) h))

  -- A request that returns no error returns what the server answered: the last call asked for these
  -- keys on the connection that the exporter holds after it, and the client answered it with this
  -- response and without an error.
  pub fetch_request_info-answers :
      (keys : List Bytes) (st : State provider) {response : Map Bytes} {st' : State provider}
      → fetch_request_info provider keys st ≡ done ((response, none), st')
      → Answered keys response st'
  unfolding fetch_request_info
  fetch_request_info-answers keys st {response} {st'} h =
      let (f, looped, e) =
        >>=-eq-done (attempts provider retry_count keys (first_fetch provider st)) _ h in
      let (same, fine) = checked-none f.response f.err (ap (λ r. r.0) (done-injective e)) in
      let answered : Answered keys f.response f.state =
        attempts-Answered 2 keys (first_fetch provider st) f looped fine in
      subst (λ m. Answered keys m st') same
        (subst (Answered keys f.response) (ap (λ r. r.1) (done-injective e)) answered)
