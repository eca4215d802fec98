-- ===== src/Refresher.antt =====
-- internal/pkg/statprocessors/statsrefresh.go: a refresh asks the server twice, and the processors
-- make metrics of the answers.
pub mod Provider
pub mod State
pub mod Passes
pub mod Processing
pub mod Labelled
use aerospike_prometheus_exp.Base.{
  ℕ, ◌≡◌, refl, Bool, true, false, ◌||◌, List, [], ◌∷◌, ◌++◌, Option, none, some, Bytes, Map, equal,
  Go, ok, panic, if◌then◌else◌,
}
use aerospike_prometheus_exp.Config.{Config, Outcome, done, fatal, panics, ◌>>=◌}
use aerospike_prometheus_exp.Env.{Env}
use aerospike_prometheus_exp.Commons.Secrets.{Sources}
use aerospike_prometheus_exp.Commons.Certificates.{Crypto, load_server_or_client_certificates}
use aerospike_prometheus_exp.Commons.Sanitize.{sanitize_utf8}
use aerospike_prometheus_exp.Stats.Shared.{SharedState, service_tls_std}
use aerospike_prometheus_exp.Stats.Metric.{AerospikeStat}
use aerospike_prometheus_exp.Stats.Users
use aerospike_prometheus_exp.Stats.Users.{UserRoles}
use Provider.{DataProvider}
use State.{Processors, Refresher}
use Passes.{Plan, make_plan, pass_one_keys, pass_two_keys, set_identity}
use Processing.{Processed, process}

abbrev pub run_go : {A : Type 0} → Go A → Outcome A
run_go (ok a) = done a
run_go panic = panics

abbrev sanitize_values : Map Bytes → Map Bytes
sanitize_values [] = []
sanitize_values ((k, v) ∷ m) = (k, sanitize_utf8 v) ∷ sanitize_values m

abbrev loaded {ℓ} : {A : Type ℓ} → Option A → Bool
loaded none = false
loaded (some a) = true

module _ (env : Env) (sources : Sources) (crypto : Crypto) (data_provider : DataProvider) where
  open env use {cfg, Float}
  open data_provider use {Session, Error, request_info, fetch_users_details}

  -- What is returned, the metrics and the error, and the state after.
  pub record Refreshed : Type 0 where
    pub stats : List (AerospikeStat Float)
    pub err : Option Error
    pub refresher : Refresher Session Float

  -- Once a certificate is configured, the server is asked for its TLS address.
  choose_service : SharedState → Outcome SharedState
  choose_service shared =
      if equal shared.infokey_service service_tls_std
      then done shared
      else (load_server_or_client_certificates sources crypto cfg.aerospike >>= λ pools. done (
          if loaded pools.0 || loaded pools.1
          then record shared { infokey_service = service_tls_std }
          else shared))

  -- What follows the answer of `FetchUsersDetails`.
  after_users : Processed env → (Bool × List UserRoles × Option Error) × Session → Outcome Refreshed
  after_users p ((flag, us, err), s) =
      let kept : Refresher Session Float = record {
        provider = s;
        shared = p.shared;
        processors = record p.processors { should_fetch_users = flag };
      } in
      elim err [
        | some e ↦ done (record { stats = p.stats; err = some e; refresher = kept })
        | none ↦ run_go (Users.refresh env p.shared us) >>= λ sent.
            done (record { stats = p.stats ++ sent; err = none; refresher = kept })
      ]

  -- The users, if the server knows them and is to be asked.
  refresh_users : Map Bytes → Processed env → Session → Outcome Refreshed
  unfolding after_users
  refresh_users raw p s =
      let (asked, flag) =
        Users.can_refresh_user_stats env p.shared p.processors.should_fetch_users raw in
      if asked
      then (fetch_users_details s >>= after_users p)
      else done (record {
        stats = p.stats;
        err = none;
        refresher = record {
          provider = s;
          shared = p.shared;
          processors = record p.processors { should_fetch_users = flag };
        };
      })

  -- What follows the second answer.
  after_pass_two : Plan Float → (Map Bytes × Option Error) × Session → Outcome Refreshed
  unfolding refresh_users
  after_pass_two plan ((raw, some e), s) = done (record {
    stats = [];
    err = some e;
    refresher = record { provider = s; shared = plan.shared; processors = plan.processors };
  })
  after_pass_two plan ((raw, none), s) =
      let sanitized = sanitize_values raw in
      run_go (process env plan sanitized (set_identity env raw plan.shared) plan.processors)
      >>= λ p. refresh_users sanitized p s

  -- What follows the first answer.
  after_pass_one :
      ℕ → Refresher Session Float → (Map Bytes × Option Error) × Session → Outcome Refreshed
  unfolding choose_service after_pass_two
  after_pass_one now r ((raw, some e), s) =
      done (record { stats = []; err = some e; refresher = record r { provider = s } })
  after_pass_one now r ((raw, none), s) = choose_service r.shared >>= λ shared.
      run_go (make_plan env now shared r.processors raw) >>= λ plan.
      request_info (pass_two_keys env plan) s >>= after_pass_two plan

  -- `Refresh`, at the time `now`.
  unfoldable pub refresh : ℕ → Refresher Session Float → Outcome Refreshed
  unfolding after_pass_one
  refresh now r = request_info (pass_one_keys env r.shared) r.provider >>= after_pass_one now r
