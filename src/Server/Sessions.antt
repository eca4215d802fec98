-- ===== src/Server/Sessions.antt =====
-- The states that the provider of aero_server.go reaches, request after request.
use aerospike_prometheus_exp.Base.{◌≡◌, List, [], Option, none, Bytes, Map}
use aerospike_prometheus_exp.Config.{done}
use aerospike_prometheus_exp.Server.Connect.{Provider, State}
use aerospike_prometheus_exp.Server.Request.{RequestError, fetch_request_info}
use aerospike_prometheus_exp.Server.Request.Ready.{fetch_request_info-KeepsProtocol}
use aerospike_prometheus_exp.Server.Users.{UsersFetch, fetch_users_roles}
use aerospike_prometheus_exp.Server.Users.Ready.{fetch_users_roles-KeepsProtocol}
use aerospike_prometheus_exp.Server.Protocol.{KeepsProtocol, idle, starts}

module _ (provider : Provider) where
  open provider use {client}
  open client use {Error}

  -- `&AerospikeServer{}`
  abbrev pub new_aerospike_server : State provider
  new_aerospike_server = record { connection = none; policy = none; calls = [] }

  -- By requests and queries in any order, whether they succeed or fail.
  pub data Reach : State provider → Type 0 where
    begins : Reach new_aerospike_server
    requests :
        {st st' : State provider} {r : Map Bytes × Option (RequestError Error)} (keys : List Bytes)
        → Reach st
        → fetch_request_info provider keys st ≡ done (r, st')
        → Reach st'
    queries :
        {st : State provider} {f : UsersFetch provider}
        → Reach st
        → fetch_users_roles provider st ≡ done f
        → Reach f.state

  -- However many requests and queries the provider has served, and whether they failed or not: the
  -- calls that it made of the client keep to the protocol, so that it opened each connection, logged
  -- in where the policy requires it and lifted the deadline, each with success, before it asked
  -- anything there, asked nothing on a connection that it had closed or given up, and holds none
  -- but such a connection.
  pub Reach-KeepsProtocol : (st : State provider) → Reach st → KeepsProtocol provider st
  Reach-KeepsProtocol st begins = (idle, starts)
  Reach-KeepsProtocol st (requests {st = st0} keys before e) =
      fetch_request_info-KeepsProtocol provider keys st0 (Reach-KeepsProtocol st0 before) e
  Reach-KeepsProtocol st (queries {st = st0} before e) =
      fetch_users_roles-KeepsProtocol provider st0 (Reach-KeepsProtocol st0 before) e
