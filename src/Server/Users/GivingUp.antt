-- ===== src/Server/Users/GivingUp.antt =====
-- When `fetchUsersRoles` of aero_server.go gives up, and what it reports.
use aerospike_prometheus_exp.Base.{
  ℕ, zero, suc, ◌≡◌, refl, subst, Bool, true, false, List, ◌∷◌, Option, none, some, nonempty,
  Bool-cases, inl, inr,
}
use aerospike_prometheus_exp.Config.{Outcome, done, >>=-eq-done, done-injective}
use aerospike_prometheus_exp.Stats.Users.{UserRoles}
use aerospike_prometheus_exp.Server.Client.{Call, queries_users, answer, failure}
use aerospike_prometheus_exp.Server.Connect.{Provider, State, Made, called, create_new_connection}
use aerospike_prometheus_exp.Server.Request.{retry_count}
use aerospike_prometheus_exp.Server.Users
use aerospike_prometheus_exp.Server.Users.{
  UsersFetch, attempt, attempts, first_fetch, fetch_users_roles,
}

module _ (provider : Provider) where
  open provider use {client}
  open client use {Connection, Error, query_users, is_connected, is_role_violation, message}

  -- The last call asked for the users, and the answer was a role violation.
  abbrev pub Violated : State provider → Type 0
  Violated st =
      (c : Connection) × (e : Error) × (earlier : List (Call Connection)) × (st.calls
        ≡ queries_users c ∷ earlier)
      × ((query_users c earlier).1 ≡ some e)
      × (is_role_violation e ≡ true)

  abbrev GivesUpRightly : UsersFetch provider → Type 0
  GivesUpRightly f = f.should_fetch ≡ false → Violated f.state

  -- A round that goes on has not given up.
  abbrev Rounded : Bool × UsersFetch provider → Type 0
  Rounded (true, f) = GivesUpRightly f
  Rounded (false, f) = f.should_fetch ≡ true

  true-neq-false : {x : Bool} → x ≡ true → x ≡ false → ⊥
  true-neq-false h k = cc

  after_query-Rounded :
      (c : Connection) (f : UsersFetch provider) (r : List UserRoles × Option Error)
      → (query_users c f.state.calls).1 ≡ r.1
      → f.should_fetch ≡ true
      → Rounded (
          Users.after_query provider
            (record f { state = called provider (queries_users c) f.state })
            r)
  unfolding Users.after_query
  after_query-Rounded c f (users, none) got h = λ k. absurd (true-neq-false h k)
  after_query-Rounded c f (users, some e) got h = elim (Bool-cases (is_role_violation e)) [
    | inl t ↦ rw t (λ k. (c, e, f.state.calls, refl, got, t))
    | inr n ↦ elim (Bool-cases (nonempty (message e))) [
      | inl t ↦ rw (n, t) h
      | inr m ↦ rw (n, m) (λ k. absurd (true-neq-false h k))
    ]
  ]

  query-Rounded :
      (c : Connection) (f : UsersFetch provider)
      → f.should_fetch ≡ true
      → Rounded (Users.query provider c f)
  unfolding Users.query
  query-Rounded c f h = after_query-Rounded c f _ refl h

  after_connection-Rounded :
      (f : UsersFetch provider) (made : Made provider)
      → f.should_fetch ≡ true
      → Rounded (Users.after_connection provider f made)
  unfolding Users.after_connection
  after_connection-Rounded f (failure e, st) h = h
  after_connection-Rounded f (answer c, st) h =
      query-Rounded c (record f { err = none; state = record st { connection = some c } }) h

  attempt_on-Rounded :
      (f : UsersFetch provider) (o : Option Connection) (r : Bool × UsersFetch provider)
      → f.should_fetch ≡ true
      → Users.attempt_on provider f o ≡ done r
      → Rounded r
  unfolding Users.attempt_on Users.reconnect
  attempt_on-Rounded f none r h e =
      let (made, _, e') = >>=-eq-done (create_new_connection provider f.state) _ e in
      subst Rounded (done-injective e') (after_connection-Rounded f made h)
  attempt_on-Rounded f (some c) r h e = elim (Bool-cases (is_connected c f.state.calls)) [
    | inl t ↦ subst Rounded (done-injective (rw t at e)) (query-Rounded c f h)
    | inr n ↦
        let (made, _, e') = >>=-eq-done (create_new_connection provider f.state) _ (rw n at e) in
        subst Rounded (done-injective e') (after_connection-Rounded f made h)
  ]

  continue_with-GivesUpRightly :
      (k : UsersFetch provider → Outcome (UsersFetch provider)) (r : Bool × UsersFetch provider)
      (g : UsersFetch provider)
      → ((f : UsersFetch provider) → f.should_fetch ≡ true → k f ≡ done g → GivesUpRightly g)
      → Rounded r
      → Users.continue_with provider k r ≡ done g
      → GivesUpRightly g
  unfolding Users.continue_with
  continue_with-GivesUpRightly k (true, f) g ih h e = subst GivesUpRightly (done-injective e) h
  continue_with-GivesUpRightly k (false, f) g ih h e = ih f h e

  attempts-GivesUpRightly :
      (n : ℕ) (f g : UsersFetch provider)
      → f.should_fetch ≡ true
      → attempts provider n f ≡ done g
      → GivesUpRightly g
  unfolding attempts attempt
  attempts-GivesUpRightly zero f g h e =
      subst GivesUpRightly (done-injective e) (λ k. absurd (true-neq-false h k))
  attempts-GivesUpRightly (suc n) f g h e =
      let (r, a, e') = >>=-eq-done (attempt provider f) _ e in
      continue_with-GivesUpRightly (attempts provider n) r g (λ x. attempts-GivesUpRightly n x g)
        (attempt_on-Rounded f f.state.connection r h a) e'

  -- If users are not to be asked for from now on, then the last call asked the server for them, and
  -- the answer was that the exporter lacks the role: no failure to connect and no other error of
  -- the server switches the users' statistics off.
  pub fetch_users_roles-gives_up :
      (st : State provider) {g : UsersFetch provider}
      → fetch_users_roles provider st ≡ done g
      → g.should_fetch ≡ false
      → Violated g.state
  unfolding fetch_users_roles
  fetch_users_roles-gives_up st {g} e =
      attempts-GivesUpRightly retry_count (first_fetch provider st) g refl e
