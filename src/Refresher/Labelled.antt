-- ===== src/Refresher/Labelled.antt =====
-- The labels of everything that a refresh of statsrefresh.go returns.
use aerospike_prometheus_exp.Base.{
  ℕ, ◌≡◌, subst, ap, Bool, true, false, List, Option, none, some, Bytes, Map, All, All-append, Go,
  ok, panic, if◌then◌else◌,
}
use aerospike_prometheus_exp.Config.{done, ◌>>=◌, >>=-eq-done, done-injective}
use aerospike_prometheus_exp.Env.{Env}
use aerospike_prometheus_exp.Commons.Secrets.{Sources}
use aerospike_prometheus_exp.Commons.Certificates.{Crypto}
use aerospike_prometheus_exp.Stats.Metric.{IsLabelled}
use aerospike_prometheus_exp.Stats.Users
use aerospike_prometheus_exp.Stats.Users.{UserRoles}
use aerospike_prometheus_exp.Stats.Users.Labelled
use aerospike_prometheus_exp.Refresher
use aerospike_prometheus_exp.Refresher.{Refreshed, refresh}
use aerospike_prometheus_exp.Refresher.Provider.{DataProvider}
use aerospike_prometheus_exp.Refresher.State.{Processors}
use aerospike_prometheus_exp.Refresher.State
use aerospike_prometheus_exp.Refresher.Passes.{
  Plan, make_plan, pass_one_keys, pass_two_keys, set_identity,
}
use aerospike_prometheus_exp.Refresher.Processing.{Processed, process}
use aerospike_prometheus_exp.Refresher.Processing.Labelled.{process-AreLabelled}

module _ (env : Env) (sources : Sources) (crypto : Crypto) (data_provider : DataProvider) where
  open env use {cfg, Float}
  open data_provider use {Session, Error, request_info, fetch_users_details}

  abbrev Result : Type 0
  Result = Refreshed env sources crypto data_provider

  abbrev ResultIsLabelled : Result → Type 0
  ResultIsLabelled out = All IsLabelled out.stats

  run_go-eq-done : {A : Type 0} (run : Go A) {a : A} → Refresher.run_go run ≡ done a → run ≡ ok a
  run_go-eq-done (ok b) h = ap ok (done-injective h)
  run_go-eq-done panic h = cc

  after_users-IsLabelled :
      (p : Processed env) (answer : (Bool × List UserRoles × Option Error) × Session) (out : Result)
      → All IsLabelled p.stats
      → Refresher.after_users env sources crypto data_provider p answer ≡ done out
      → ResultIsLabelled out
  unfolding Refresher.after_users
  after_users-IsLabelled p ((flag, us, some e), s) out h q =
      subst ResultIsLabelled (done-injective q) h
  after_users-IsLabelled p ((flag, us, none), s) out h q =
      let (sent, ran, q') = >>=-eq-done (Refresher.run_go (Users.refresh env p.shared us)) _ q in
      subst ResultIsLabelled (done-injective q') (
        All-append IsLabelled p.stats sent h (
          Users.Labelled.refresh-AreLabelled env p.shared us sent
            (run_go-eq-done (Users.refresh env p.shared us) ran)))

  refresh_users-IsLabelled :
      (raw : Map Bytes) (p : Processed env) (s : Session) (out : Result)
      → All IsLabelled p.stats
      → Refresher.refresh_users env sources crypto data_provider raw p s ≡ done out
      → ResultIsLabelled out
  unfolding Refresher.refresh_users
  refresh_users-IsLabelled raw p s out h q =
      go (Users.can_refresh_user_stats env p.shared p.processors.should_fetch_users raw) q
    where
      unasked : Bool → Result
      unasked flag = record {
        stats = p.stats;
        err = none;
        refresher = record {
          provider = s;
          shared = p.shared;
          processors = record p.processors { should_fetch_users = flag };
        };
      }

      go :
          (b : Bool × Bool)
          → (if b.0
              then (fetch_users_details s
                  >>= Refresher.after_users env sources crypto data_provider p)
              else done (unasked b.1))
            ≡ done out
          → ResultIsLabelled out
      go (true, flag) q' =
          let (answer, _, q'') = >>=-eq-done (fetch_users_details s) _ q' in
          after_users-IsLabelled p answer out h q''
      go (false, flag) q' = subst ResultIsLabelled (done-injective q') h

  after_pass_two-IsLabelled :
      (plan : Plan Float) (answer : (Map Bytes × Option Error) × Session) (out : Result)
      → Refresher.after_pass_two env sources crypto data_provider plan answer ≡ done out
      → ResultIsLabelled out
  unfolding Refresher.after_pass_two
  after_pass_two-IsLabelled plan ((raw, some e), s) out q =
      subst ResultIsLabelled (done-injective q) tt
  after_pass_two-IsLabelled plan ((raw, none), s) out q =
      let sanitized = Refresher.sanitize_values raw in
      let identity = set_identity env raw plan.shared in
      let (p, ran, q') =
        >>=-eq-done (Refresher.run_go (process env plan sanitized identity plan.processors)) _ q in
      refresh_users-IsLabelled sanitized p s out
        (process-AreLabelled env plan sanitized identity plan.processors p
          (run_go-eq-done (process env plan sanitized identity plan.processors) ran))
        q'

  after_pass_one-IsLabelled :
      (now : ℕ) (r : State.Refresher Session Float) (answer : (Map Bytes × Option Error) × Session)
      (out : Result)
      → Refresher.after_pass_one env sources crypto data_provider now r answer ≡ done out
      → ResultIsLabelled out
  unfolding Refresher.after_pass_one
  after_pass_one-IsLabelled now r ((raw, some e), s) out q =
      subst ResultIsLabelled (done-injective q) tt
  after_pass_one-IsLabelled now r ((raw, none), s) out q =
      let (shared, _, q1) =
        >>=-eq-done (Refresher.choose_service env sources crypto data_provider r.shared) _ q in
      let (plan, _, q2) =
        >>=-eq-done (Refresher.run_go (make_plan env now shared r.processors raw)) _ q1 in
      let (answer, _, q3) = >>=-eq-done (request_info (pass_two_keys env plan) s) _ q2 in
      after_pass_two-IsLabelled plan answer out q3

  -- Whatever the server answers and whatever the processors kept from earlier refreshes, each metric
  -- that a refresh returns has a value for each of its labels, with an error or without one.
  pub stats-refresh-AreLabelled :
      (now : ℕ) (r : State.Refresher Session Float) {out : Result}
      → refresh env sources crypto data_provider now r ≡ done out
      → All IsLabelled out.stats
  unfolding refresh
  stats-refresh-AreLabelled now r {out} q =
      let (answer, _, q') =
        >>=-eq-done (request_info (pass_one_keys env r.shared) r.provider) _ q in
      after_pass_one-IsLabelled now r answer out q'
