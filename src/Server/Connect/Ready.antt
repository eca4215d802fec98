-- ===== src/Server/Connect/Ready.antt =====
-- `createNewConnection` and `setUserAgent` of aero_server.go, against the protocol.
use aerospike_prometheus_exp.Base.{◌≡◌, refl, subst, List, Option, none, some, Bool-cases, inl, inr}
use aerospike_prometheus_exp.Config.{done, >>=-eq-done, done-injective}
use aerospike_prometheus_exp.Server.Client.{
  ClientPolicy, Call, connects, logs_in, sets_timeout, Reply, answer, failure,
}
use aerospike_prometheus_exp.Server.Connect
use aerospike_prometheus_exp.Server.Connect.{Provider, State, Made, called}
use aerospike_prometheus_exp.Server.Protocol.{
  Protocol, opened, authenticated, ready, refused, opens, needs_no_login, logged_in, login_fails,
  lifts_deadline, deadline_fails, AnyPhase, HeldReady, KeepsProtocol, MadeReady,
}

module _ (provider : Provider) where
  open provider use {client}
  open client use {Connection, Error, requires_authentication, new_connection, login, set_timeout}

  pub forget-HeldReady :
      (o : Option Connection) (calls : List (Call Connection))
      → HeldReady provider o calls
      → AnyPhase provider calls
  forget-HeldReady none calls h = h
  forget-HeldReady (some c) calls h = (ready c, h)

  after_timeout-MadeReady :
      (c : Connection) (st : State provider) (r : Option Error)
      → set_timeout c st.calls ≡ r
      → Protocol client st.calls (authenticated c)
      → MadeReady provider
          (Connect.after_timeout provider c (called provider (sets_timeout c) st) r)
  unfolding Connect.after_timeout
  after_timeout-MadeReady c st none e h = lifts_deadline h e
  after_timeout-MadeReady c st (some x) e h = (_, deadline_fails h e)

  limit_time-MadeReady :
      (c : Connection) (st : State provider)
      → Protocol client st.calls (authenticated c)
      → MadeReady provider (Connect.limit_time provider c st)
  unfolding Connect.limit_time
  limit_time-MadeReady c st h = after_timeout-MadeReady c st _ refl h

  after_login-MadeReady :
      (p : ClientPolicy) (c : Connection) (st : State provider) (r : Option Error)
      → login c st.calls ≡ r
      → Protocol client st.calls (opened p c)
      → MadeReady provider (Connect.after_login provider c (called provider (logs_in c) st) r)
  unfolding Connect.after_login
  after_login-MadeReady p c st none e h =
      limit_time-MadeReady c (called provider (logs_in c) st) (logged_in h e)
  after_login-MadeReady p c st (some x) e h = (_, login_fails h e)

  after_connect-MadeReady :
      (p : ClientPolicy) (st : State provider) (r : Reply Connection Error)
      → new_connection p st.calls ≡ r
      → AnyPhase provider st.calls
      → MadeReady provider (Connect.after_connect provider p (called provider connects st) r)
  unfolding Connect.after_connect
  after_connect-MadeReady p st (failure x) e (ph, h) = (_, refused h e)
  after_connect-MadeReady p st (answer c) e (ph, h) =
      elim (Bool-cases (requires_authentication p)) [
        | inl t ↦ rw t (
            after_login-MadeReady p c (record (called provider connects st) { connection = some c })
              _ refl (opens h e))
        | inr f ↦ rw f (
            limit_time-MadeReady c (record (called provider connects st) { connection = some c })
              (needs_no_login (opens h e) f))
      ]

  pub create_new_connection-MadeReady :
      (st : State provider) (made : Made provider)
      → KeepsProtocol provider st
      → Connect.create_new_connection provider st ≡ done made
      → MadeReady provider made
  unfolding Connect.create_new_connection
  create_new_connection-MadeReady st made h e =
      let (p, _, e') = >>=-eq-done (Connect.with_policy provider st.policy) _ e in
      subst (MadeReady provider) (done-injective e') (
        after_connect-MadeReady p (record st { policy = some p }) _ refl
          (forget-HeldReady st.connection st.calls h))
