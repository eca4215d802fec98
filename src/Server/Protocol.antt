-- ===== src/Server/Protocol.antt =====
-- What the exporter may do with connections: open one, log in where the policy requires it, lift
-- the deadline, and then ask and query until it closes it or opens another one.
use aerospike_prometheus_exp.Base.{◌≡◌, false, List, [], ◌∷◌, Option, none, some, Bytes}
use aerospike_prometheus_exp.Server.Client.{
  Client, ClientPolicy, Call, connects, logs_in, sets_timeout, asks, closes, queries_users, answer,
  failure,
}
use aerospike_prometheus_exp.Server.Connect.{Provider, State, Made}

pub data Phase (C : Type 0) : Type 0 where
  idle : Phase C
  opened : ClientPolicy → C → Phase C
  authenticated : C → Phase C
  ready : C → Phase C

module _ (client : Client) where
  open client use {Connection, Error, requires_authentication, new_connection, login, set_timeout}

  -- A log of calls, the latest first, that keeps to the protocol, and the phase it leads to.
  pub data Protocol : List (Call Connection) → Phase Connection → Type 0 where
    starts : Protocol [] idle
    refused :
        {calls : List (Call Connection)} {ph : Phase Connection} {p : ClientPolicy} {e : Error}
        → Protocol calls ph
        → new_connection p calls ≡ failure e
        → Protocol (connects ∷ calls) idle
    opens :
        {calls : List (Call Connection)} {ph : Phase Connection} {p : ClientPolicy} {c : Connection}
        → Protocol calls ph
        → new_connection p calls ≡ answer c
        → Protocol (connects ∷ calls) (opened p c)
    needs_no_login :
        {calls : List (Call Connection)} {p : ClientPolicy} {c : Connection}
        → Protocol calls (opened p c)
        → requires_authentication p ≡ false
        → Protocol calls (authenticated c)
    logged_in :
        {calls : List (Call Connection)} {p : ClientPolicy} {c : Connection}
        → Protocol calls (opened p c)
        → login c calls ≡ none
        → Protocol (logs_in c ∷ calls) (authenticated c)
    login_fails :
        {calls : List (Call Connection)} {p : ClientPolicy} {c : Connection} {e : Error}
        → Protocol calls (opened p c)
        → login c calls ≡ some e
        → Protocol (logs_in c ∷ calls) idle
    lifts_deadline :
        {calls : List (Call Connection)} {c : Connection}
        → Protocol calls (authenticated c)
        → set_timeout c calls ≡ none
        → Protocol (sets_timeout c ∷ calls) (ready c)
    deadline_fails :
        {calls : List (Call Connection)} {c : Connection} {e : Error}
        → Protocol calls (authenticated c)
        → set_timeout c calls ≡ some e
        → Protocol (sets_timeout c ∷ calls) idle
    requests :
        {calls : List (Call Connection)} {c : Connection} (keys : List Bytes)
        → Protocol calls (ready c)
        → Protocol (asks c keys ∷ calls) (ready c)
    queries :
        {calls : List (Call Connection)} {c : Connection}
        → Protocol calls (ready c)
        → Protocol (queries_users c ∷ calls) (ready c)
    ends :
        {calls : List (Call Connection)} {c : Connection}
        → Protocol calls (ready c)
        → Protocol (closes c ∷ calls) idle

module _ (provider : Provider) where
  open provider use {client}
  open client use {Connection, Error}

  -- The log keeps to the protocol.
  abbrev pub AnyPhase : List (Call Connection) → Type 0
  AnyPhase calls = (ph : Phase Connection) × Protocol client calls ph

  abbrev pub HeldReady : Option Connection → List (Call Connection) → Type 0
  HeldReady none calls = AnyPhase calls
  HeldReady (some c) calls = Protocol client calls (ready c)

  -- The connection that is held is ready.
  abbrev pub KeepsProtocol : State provider → Type 0
  KeepsProtocol st = HeldReady st.connection st.calls

  -- The same of a result of `createNewConnection`, whose connection is not stored yet.
  abbrev pub MadeReady : Made provider → Type 0
  MadeReady (answer c, st) = Protocol client st.calls (ready c)
  MadeReady (failure e, st) = AnyPhase st.calls
