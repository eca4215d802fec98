-- ===== src/Server/Users/Unreported.antt =====
-- The errors that `fetchUsersRoles` of aero_server.go does not report.
use aerospike_prometheus_exp.Base.{
  ℕ, zero, suc, ◌≡◌, refl, subst, Bool, true, false, List, Option, none, some, nonempty, Bool-cases,
  inl, inr,
}
use aerospike_prometheus_exp.Config.{Outcome, done, done-injective, >>=-eq-done}
use aerospike_prometheus_exp.Stats.Users.{UserRoles}
use aerospike_prometheus_exp.Server.Client.{Call, queries_users}
use aerospike_prometheus_exp.Server.Connect.{Provider, State, called}
use aerospike_prometheus_exp.Server.Request.{retry_count}
use aerospike_prometheus_exp.Server.Users
use aerospike_prometheus_exp.Server.Users.{
  UsersFetch, attempt, attempts, first_fetch, fetch_users_roles,
}

module _ (provider : Provider) where
  open provider use {client}
  open client use {Connection, Error, query_users, is_connected, is_role_violation, message}

  module _ (c : Connection)
      (stays : (calls : List (Call Connection)) → is_connected c calls ≡ true) where
    abbrev Holds : UsersFetch provider → Type 0
    Holds f = (f.state.connection ≡ some c) × (f.err ≡ none)

    after_query-Holds :
        (f : UsersFetch provider) (r : List UserRoles × Option Error)
        → Holds f
        → Holds (Users.after_query provider f r).1
    unfolding Users.after_query
    after_query-Holds f (users, none) h = h
    after_query-Holds f (users, some e) h = elim (Bool-cases (is_role_violation e)) [
      | inl t ↦ rw t h
      | inr n ↦ elim (Bool-cases (nonempty (message e))) [
        | inl t ↦ rw (n, t) h
        | inr m ↦ rw (n, m) h
      ]
    ]

    attempt_on-Holds :
        (f : UsersFetch provider) (o : Option Connection) (r : Bool × UsersFetch provider)
        → o ≡ some c
        → Holds f
        → Users.attempt_on provider f o ≡ done r
        → Holds r.1
    unfolding Users.attempt_on Users.query
    attempt_on-Holds f none r held h e = cc
    attempt_on-Holds f (some d) r held h e =
        let same : d ≡ c = cc in
        let up : is_connected d f.state.calls ≡ true = rw same (stays f.state.calls) in
        subst (λ x. Holds x.1) (done-injective (rw up at e))
          (after_query-Holds (record f { state = called provider (queries_users d) f.state }) _ h)

    continue_with-Holds :
        (k : UsersFetch provider → Outcome (UsersFetch provider)) (r : Bool × UsersFetch provider)
        (g : UsersFetch provider)
        → ((f : UsersFetch provider) → Holds f → k f ≡ done g → Holds g)
        → Holds r.1
        → Users.continue_with provider k r ≡ done g
        → Holds g
    unfolding Users.continue_with
    continue_with-Holds k (true, f) g ih h e = subst Holds (done-injective e) h
    continue_with-Holds k (false, f) g ih h e = ih f h e

    attempts-Holds :
        (n : ℕ) (f g : UsersFetch provider) → Holds f → attempts provider n f ≡ done g → Holds g
    unfolding attempts attempt
    attempts-Holds zero f g h e = subst Holds (done-injective e) h
    attempts-Holds (suc n) f g h e =
        let (r, a, e') = >>=-eq-done (attempt provider f) _ e in
        continue_with-Holds (attempts provider n) r g (λ x. attempts-Holds n x g)
          (attempt_on-Holds f f.state.connection r h.0 h a) e'

    -- While the connection that is held stays up, no error is returned and the connection is kept,
    -- whatever the server answers when it is asked for the users: an error of every one of the
    -- three queries is returned as success.
    pub fetch_users_roles-unreported :
        (st : State provider) {g : UsersFetch provider}
        → st.connection ≡ some c
        → fetch_users_roles provider st ≡ done g
        → (g.err ≡ none) × (g.state.connection ≡ some c)
    unfolding fetch_users_roles
    fetch_users_roles-unreported st {g} held e =
        let (kept, fine) = attempts-Holds retry_count (first_fetch provider st) g (held, refl) e in
        (fine, kept)
