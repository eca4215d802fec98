-- ===== src/Server/Connect/Recovery.antt =====
-- `createNewConnection` of aero_server.go, where the server lets the exporter in.
use aerospike_prometheus_exp.Base.{◌≡◌, refl, List, Option, none, some, Bool-cases, inl, inr}
use aerospike_prometheus_exp.Config.{done}
use aerospike_prometheus_exp.Server.Client.{
  ClientPolicy, Call, connects, logs_in, sets_timeout, answer,
}
use aerospike_prometheus_exp.Server.Connect
use aerospike_prometheus_exp.Server.Connect.{Provider, State, Made, called, create_new_connection}

module _ (provider : Provider) where
  open provider use {client, make_policy}
  open client use {Connection, requires_authentication, new_connection, login, set_timeout}

  module _ {p : ClientPolicy} {c : Connection} (made : make_policy ≡ done p)
      (opens : (q : ClientPolicy) (calls : List (Call Connection))
        → new_connection q calls ≡ answer c)
      (logs : (calls : List (Call Connection)) → login c calls ≡ none)
      (lifts : (calls : List (Call Connection)) → set_timeout c calls ≡ none) where
    limit_time-answers :
        (st : State provider)
        → Connect.limit_time provider c st ≡ (answer c, called provider (sets_timeout c) st)
    unfolding Connect.limit_time Connect.after_timeout
    limit_time-answers st = rw (lifts st.calls) refl

    after_connect-answers :
        (q : ClientPolicy) (st : State provider)
        → (st' : State provider) × (Connect.after_connect provider q st (answer c)
            ≡ (answer c, st'))
    unfolding Connect.after_connect Connect.after_login
    after_connect-answers q st =
        let held : State provider = record st { connection = some c } in
        elim (Bool-cases (requires_authentication q)) [
          | inl t ↦ (
            called provider (sets_timeout c) (called provider (logs_in c) held),
            rw (t, logs held.calls) (limit_time-answers (called provider (logs_in c) held)),
          )
          | inr n ↦ (called provider (sets_timeout c) held, rw n (limit_time-answers held))
        ]

    with_policy-done :
        (o : Option ClientPolicy) → (q : ClientPolicy) × (Connect.with_policy provider o ≡ done q)
    unfolding Connect.with_policy
    with_policy-done none = (p, made)
    with_policy-done (some q) = (q, refl)

    pub create_new_connection-answers :
        (st : State provider)
        → (st' : State provider) × (create_new_connection provider st ≡ done (answer c, st'))
    unfolding create_new_connection
    create_new_connection-answers st =
        let (q, e) = with_policy-done st.policy in
        let (st', e') =
          after_connect-answers q (called provider connects (record st { policy = some q })) in
        (st', rw (e, opens q st.calls, e') refl)
