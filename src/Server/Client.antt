-- ===== src/Server/Client.antt =====
-- The Aerospike client library, and what the exporter keeps of it.
use aerospike_prometheus_exp.Base.{ℕ, Bool, List, Option, Bytes, Map}
use aerospike_prometheus_exp.Stats.Users.{UserRoles}

pub data AuthMode : Type 0 where
  internal external pki : AuthMode

-- The fields of `aero.ClientPolicy` and `aero.Host` that the exporter sets.
pub record ClientPolicy : Type 0 where
  pub user : Bytes
  pub password : Bytes
  pub auth_mode : AuthMode
  pub connection_queue_size : ℕ
  pub timeout : ℕ
  -- whether there is a TlsConfig
  pub tls : Bool

-- The calls of the library that reach the network.
pub data Call (C : Type 0) : Type 0 where
  connects : Call C
  logs_in : C → Call C
  sets_timeout : C → Call C
  asks : C → List Bytes → Call C
  closes : C → Call C
  queries_users : C → Call C

pub data Reply (A E : Type 0) : Type 0 where
  answer : A → Reply A E
  failure : E → Reply A E

-- What the library answers may depend on all calls before, which are listed with the latest first.
pub record Client : Type 1 where
  pub Connection : Type 0
  pub Error : Type 0
  pub requires_authentication : ClientPolicy → Bool
  pub new_connection : ClientPolicy → List (Call Connection) → Reply Connection Error
  -- in these, `none` is success
  pub login : Connection → List (Call Connection) → Option Error
  pub set_timeout : Connection → List (Call Connection) → Option Error
  -- a response may come with an error
  pub request_info : Connection → List Bytes → List (Call Connection) → Map Bytes × Option Error
  pub query_users : Connection → List (Call Connection) → List UserRoles × Option Error
  pub is_connected : Connection → List (Call Connection) → Bool
  pub is_role_violation : Error → Bool
  pub message : Error → Bytes

-- `AerospikeServer`, and the calls that were made so far, the latest first.
pub record ServerState (C : Type 0) : Type 0 where
  pub connection : Option C
  pub policy : Option ClientPolicy
  pub calls : List (Call C)
