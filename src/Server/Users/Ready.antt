-- ===== src/Server/Users/Ready.antt =====
-- `fetchUsersRoles` of aero_server.go, against the protocol.
use aerospike_prometheus_exp.Base.{
  ℕ, zero, suc, ◌≡◌, refl, subst, Bool, true, false, List, Option, none, some, nonempty, Bool-cases,
  inl, inr,
}
use aerospike_prometheus_exp.Config.{Outcome, done, >>=-eq-done, done-injective}
use aerospike_prometheus_exp.Stats.Users.{UserRoles}
use aerospike_prometheus_exp.Server.Client.{queries_users, answer, failure}
use aerospike_prometheus_exp.Server.Connect.{Provider, State, Made, called, create_new_connection}
use aerospike_prometheus_exp.Server.Connect.Ready.{create_new_connection-MadeReady}
use aerospike_prometheus_exp.Server.Protocol.{Protocol, ready, queries, KeepsProtocol, MadeReady}
use aerospike_prometheus_exp.Server.Request.{retry_count}
use aerospike_prometheus_exp.Server.Users
use aerospike_prometheus_exp.Server.Users.{
  UsersFetch, attempt, attempts, first_fetch, fetch_users_roles,
}

module _ (provider : Provider) where
  open provider use {client}
  open client use {Connection, Error, query_users, is_connected, is_role_violation, message}

  -- After a round.
  abbrev RoundKeeps : Bool × UsersFetch provider → Type 0
  RoundKeeps r = KeepsProtocol provider (r.1).state

  after_query-RoundKeeps :
      (f : UsersFetch provider) (r : List UserRoles × Option Error)
      → KeepsProtocol provider f.state
      → RoundKeeps (Users.after_query provider f r)
  unfolding Users.after_query
  after_query-RoundKeeps f (users, none) h = h
  after_query-RoundKeeps f (users, some e) h = elim (Bool-cases (is_role_violation e)) [
    | inl t ↦ rw t h
    | inr n ↦ elim (Bool-cases (nonempty (message e))) [ inl t ↦ rw (n, t) h | inr m ↦ rw (n, m) h ]
  ]

  query-RoundKeeps :
      (c : Connection) (f : UsersFetch provider)
      → Protocol client f.state.calls (ready c)
      → f.state.connection ≡ some c
      → RoundKeeps (Users.query provider c f)
  unfolding Users.query
  query-RoundKeeps c f h held =
      after_query-RoundKeeps (record f { state = called provider (queries_users c) f.state }) _
        (rw held (queries h))

  after_connection-RoundKeeps :
      (f : UsersFetch provider) (made : Made provider)
      → MadeReady provider made
      → RoundKeeps (Users.after_connection provider f made)
  unfolding Users.after_connection
  after_connection-RoundKeeps f (failure e, st) h = h
  after_connection-RoundKeeps f (answer c, st) h =
      query-RoundKeeps c (record f { err = none; state = record st { connection = some c } }) h refl

  reconnect-RoundKeeps :
      (f : UsersFetch provider) (r : Bool × UsersFetch provider)
      → KeepsProtocol provider f.state
      → Users.reconnect provider f ≡ done r
      → RoundKeeps r
  unfolding Users.reconnect
  reconnect-RoundKeeps f r h e =
      let (made, m, e') = >>=-eq-done (create_new_connection provider f.state) _ e in
      subst RoundKeeps (done-injective e') (
        after_connection-RoundKeeps f made
          (create_new_connection-MadeReady provider f.state made h m))

  attempt_on-RoundKeeps :
      (f : UsersFetch provider) (o : Option Connection) (r : Bool × UsersFetch provider)
      → f.state.connection ≡ o
      → KeepsProtocol provider f.state
      → Users.attempt_on provider f o ≡ done r
      → RoundKeeps r
  unfolding Users.attempt_on
  attempt_on-RoundKeeps f none r held h e = reconnect-RoundKeeps f r h e
  attempt_on-RoundKeeps f (some c) r held h e = elim (Bool-cases (is_connected c f.state.calls)) [
    | inl t ↦
        subst RoundKeeps (done-injective (rw t at e)) (query-RoundKeeps c f (rw held at h) held)
    | inr n ↦ reconnect-RoundKeeps f r h (rw n at e)
  ]

  continue_with-KeepsProtocol :
      (k : UsersFetch provider → Outcome (UsersFetch provider)) (r : Bool × UsersFetch provider)
      (g : UsersFetch provider)
      → ((f : UsersFetch provider)
          → KeepsProtocol provider f.state
          → k f ≡ done g
          → KeepsProtocol provider g.state)
      → RoundKeeps r
      → Users.continue_with provider k r ≡ done g
      → KeepsProtocol provider g.state
  unfolding Users.continue_with
  continue_with-KeepsProtocol k (true, f) g ih h e =
      subst (λ x. KeepsProtocol provider x.state) (done-injective e) h
  continue_with-KeepsProtocol k (false, f) g ih h e = ih f h e

  attempts-KeepsProtocol :
      (n : ℕ) (f g : UsersFetch provider)
      → KeepsProtocol provider f.state
      → attempts provider n f ≡ done g
      → KeepsProtocol provider g.state
  unfolding attempts attempt
  attempts-KeepsProtocol zero f g h e =
      subst (λ x. KeepsProtocol provider x.state) (done-injective e) h
  attempts-KeepsProtocol (suc n) f g h e =
      let (r, a, e') = >>=-eq-done (attempt provider f) _ e in
      continue_with-KeepsProtocol (attempts provider n) r g (λ x. attempts-KeepsProtocol n x g)
        (attempt_on-RoundKeeps f f.state.connection r refl h a) e'

  pub fetch_users_roles-KeepsProtocol :
      (st : State provider) {g : UsersFetch provider}
      → KeepsProtocol provider st
      → fetch_users_roles provider st ≡ done g
      → KeepsProtocol provider g.state
  unfolding fetch_users_roles
  fetch_users_roles-KeepsProtocol st {g} h e =
      attempts-KeepsProtocol retry_count (first_fetch provider st) g h e
