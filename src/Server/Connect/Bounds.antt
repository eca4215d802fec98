-- ===== src/Server/Connect/Bounds.antt =====
-- How many calls `createNewConnection` of aero_server.go makes.
use aerospike_prometheus_exp.Base.{
  ℕ, ◌+◌, ◌≤◌, ◌≡◌, refl, Option, none, some, Bool-cases, inl, inr, length, arith,
}
use aerospike_prometheus_exp.Config.{done}
use aerospike_prometheus_exp.Server.Client.{
  ClientPolicy, connects, logs_in, sets_timeout, Reply, answer, failure,
}
use aerospike_prometheus_exp.Server.Connect
use aerospike_prometheus_exp.Server.Connect.{
  Provider, State, Made, called, create_new_connection, set_user_agent,
}

module _ (provider : Provider) where
  open provider use {client, make_policy}
  open client use {
    Connection, Error, requires_authentication, request_info, is_connected, new_connection,
  }

  abbrev pub size : State provider → ℕ
  size st = length st.calls

  after_timeout-size :
      (c : Connection) (st : State provider) (r : Option Error)
      → size (Connect.after_timeout provider c st r).1 ≡ size st
  unfolding Connect.after_timeout
  after_timeout-size c st none = refl
  after_timeout-size c st (some e) = refl

  after_login-size :
      (c : Connection) (st : State provider) (r : Option Error)
      → size (Connect.after_login provider c st r).1 ≤ size st + 1
  unfolding Connect.after_login Connect.limit_time
  after_login-size c st none =
      omega (arith, after_timeout-size c (called provider (sets_timeout c) st) _)
  after_login-size c st (some e) = omega arith

  after_connect-size :
      (p : ClientPolicy) (st : State provider) (r : Reply Connection Error)
      → size (Connect.after_connect provider p st r).1 ≤ size st + 2
  unfolding Connect.after_connect Connect.limit_time
  after_connect-size p st (failure e) = omega arith
  after_connect-size p st (answer c) =
      let held : State provider = record st { connection = some c } in
      elim (Bool-cases (requires_authentication p)) [
        | inl t ↦ rw t (omega (arith, after_login-size c (called provider (logs_in c) held) _))
        | inr n ↦
            rw n (omega (arith, after_timeout-size c (called provider (sets_timeout c) held) _))
      ]

  module _ {p : ClientPolicy} (made : make_policy ≡ done p) where
    policy_of : Option ClientPolicy → ClientPolicy
    policy_of none = p
    policy_of (some q) = q

    with_policy-done :
        (o : Option ClientPolicy) → Connect.with_policy provider o ≡ done (policy_of o)
    unfolding Connect.with_policy policy_of
    with_policy-done none = made
    with_policy-done (some q) = refl

    pub create_new_connection-size :
        (st : State provider)
        → (r : Made provider) × (create_new_connection provider st ≡ done r)
          × (size r.1 ≤ size st + 3)
    unfolding create_new_connection
    create_new_connection-size st =
        let q = policy_of st.policy in
        let later : State provider = called provider connects (record st { policy = some q }) in
        (
          Connect.after_connect provider q later (new_connection q st.calls),
          rw (with_policy-done st.policy) refl,
          omega (arith, after_connect-size q later (new_connection q st.calls)),
        )
