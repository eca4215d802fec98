-- ===== src/Refresher/State.antt =====
-- What the refresher of statsrefresh.go and its processors keep.
use aerospike_prometheus_exp.Base.{ℕ, Bool, true, false, [], Map}
use aerospike_prometheus_exp.Stats.Shared.{SharedState}
use aerospike_prometheus_exp.Stats.Metric.{AerospikeStat}

-- What the processors keep between refreshes. The time is that of the last request for index
-- pressure, in nanoseconds.
pub record Processors (F : Type 0) : Type 0 where
  pub namespace_cache : Map (AerospikeStat F)
  pub flash : Bool
  pub sc_status : Map Bool
  pub index_pressure_time : ℕ
  pub node_cache : Map (AerospikeStat F)
  pub log_sinks : ℕ
  pub sets_cache : Map (AerospikeStat F)
  pub sindex_cache : Map (AerospikeStat F)
  pub xdr_cache : Map (AerospikeStat F)
  pub should_fetch_users : Bool

pub record Refresher (S F : Type 0) : Type 0 where
  pub provider : S
  pub shared : SharedState
  pub processors : Processors F

-- `now` is the time at which it runs.
unfoldable pub new_stats_refresher : {S F : Type 0} → S → SharedState → ℕ → Refresher S F
new_stats_refresher provider shared now = record {
  provider = provider;
  shared = shared;
  processors = record {
    namespace_cache = [];
    flash = false;
    sc_status = [];
    index_pressure_time = now;
    node_cache = [];
    log_sinks = 0;
    sets_cache = [];
    sindex_cache = [];
    xdr_cache = [];
    should_fetch_users = true;
  };
}
