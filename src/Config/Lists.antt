-- ===== src/Config/Lists.antt =====
-- `initAllowlistAndBlocklistConfigs` of config.go.
use aerospike_prometheus_exp.Base.{
  ◌≡◌, subst, true, false, ◌&&◌, ◌||◌, List, [], ◌∷◌, Bytes, bytes, nonempty, arith, if◌then◌else◌,
}
use aerospike_prometheus_exp.Config.Outcomes.{
  Outcome, done, fatal, ◌>>=◌, >>=-eq-done, done-injective, whitelist_and_allowlist,
  blacklist_and_blocklist,
}
use aerospike_prometheus_exp.Config.Data.{AerospikeConfig, MetricFilter, MetaData}

abbrev aerospike_key : Bytes → List Bytes
aerospike_key k = bytes "Aerospike" ∷ k ∷ []

-- The `..._allowlist` key of one context puts its allowlist in force.
unfoldable pub enable_allowlist : MetaData → Bytes → MetricFilter → MetricFilter
enable_allowlist md key f = record f { allowlist_enabled = md (aerospike_key key) }

-- The `..._whitelist` block of one context.
unfoldable pub tolerate_whitelist : MetaData → Bytes → MetricFilter → Outcome MetricFilter
tolerate_whitelist md key f =
    if md (aerospike_key key)
    then (if f.allowlist_enabled
        then fatal whitelist_and_allowlist
        else done (record f { allowlist_enabled = true; allowlist = f.whitelist }))
    else done f

-- The `..._blacklist` block of one context.
unfoldable pub tolerate_blacklist : MetaData → Bytes → MetricFilter → Outcome MetricFilter
tolerate_blacklist md key f =
    if md (aerospike_key key)
    then (if nonempty f.blocklist
        then fatal blacklist_and_blocklist
        else done (record f { blocklist = f.blacklist }))
    else done f

unfoldable pub init_allowlist_and_blocklist_configs :
    MetaData → AerospikeConfig → Outcome AerospikeConfig
init_allowlist_and_blocklist_configs md c = do
  let ns = enable_allowlist md (bytes "namespace_metrics_allowlist") c.namespace_metrics
  let set = enable_allowlist md (bytes "set_metrics_allowlist") c.set_metrics
  let node = enable_allowlist md (bytes "node_metrics_allowlist") c.node_metrics
  let xdr = enable_allowlist md (bytes "xdr_metrics_allowlist") c.xdr_metrics
  let users = enable_allowlist md (bytes "user_metrics_users_allowlist") c.user_metrics_users
  let jobs = enable_allowlist md (bytes "job_metrics_allowlist") c.job_metrics
  let sindex = enable_allowlist md (bytes "sindex_metrics_allowlist") c.sindex_metrics
  let latencies = enable_allowlist md (bytes "latencies_metrics_allowlist") c.latencies_metrics
  ns' ← tolerate_whitelist md (bytes "namespace_metrics_whitelist") ns
  set' ← tolerate_whitelist md (bytes "set_metrics_whitelist") set
  node' ← tolerate_whitelist md (bytes "node_metrics_whitelist") node
  xdr' ← tolerate_whitelist md (bytes "xdr_metrics_whitelist") xdr
  ns'' ← tolerate_blacklist md (bytes "namespace_metrics_blacklist") ns'
  set'' ← tolerate_blacklist md (bytes "set_metrics_blacklist") set'
  node'' ← tolerate_blacklist md (bytes "node_metrics_blacklist") node'
  xdr'' ← tolerate_blacklist md (bytes "xdr_metrics_blacklist") xdr'
  done (record c {
    namespace_metrics = ns'';
    set_metrics = set'';
    node_metrics = node'';
    xdr_metrics = xdr'';
    user_metrics_users = users;
    job_metrics = jobs;
    sindex_metrics = sindex;
    latencies_metrics = latencies;
  })

-- One context's filter, before and after: the older key replaces the list, and never silently.
pub record Merged (md : MetaData) (allow white black : Bytes) (f g : MetricFilter) : Type 0 where
  pub enabled : g.allowlist_enabled ≡ (md (aerospike_key allow) || md (aerospike_key white))
  pub allowed : g.allowlist ≡ (if md (aerospike_key white) then f.whitelist else f.allowlist)
  pub blocked : g.blocklist ≡ (if md (aerospike_key black) then f.blacklist else f.blocklist)
  pub one_allowlist : (md (aerospike_key allow) && md (aerospike_key white)) ≡ false
  pub one_blocklist : (md (aerospike_key black) && nonempty f.blocklist) ≡ false

Merged-steps :
    (md : MetaData) (allow white black : Bytes) (f g h : MetricFilter)
    → tolerate_whitelist md white (enable_allowlist md allow f) ≡ done g
    → tolerate_blacklist md black g ≡ done h
    → Merged md allow white black f h
unfolding enable_allowlist tolerate_whitelist tolerate_blacklist
Merged-steps md allow white black f g h p q = ground arith

-- All four contexts with an older spelling.
abbrev pub LayeredFrom : MetaData → AerospikeConfig → AerospikeConfig → Type 0
LayeredFrom md c d =
    Merged md (bytes "namespace_metrics_allowlist") (bytes "namespace_metrics_whitelist")
      (bytes "namespace_metrics_blacklist") c.namespace_metrics d.namespace_metrics
    × Merged md (bytes "set_metrics_allowlist") (bytes "set_metrics_whitelist")
        (bytes "set_metrics_blacklist") c.set_metrics d.set_metrics
    × Merged md (bytes "node_metrics_allowlist") (bytes "node_metrics_whitelist")
        (bytes "node_metrics_blacklist") c.node_metrics d.node_metrics
    × Merged md (bytes "xdr_metrics_allowlist") (bytes "xdr_metrics_whitelist")
        (bytes "xdr_metrics_blacklist") c.xdr_metrics d.xdr_metrics

-- If the configuration is accepted, then in each of the four contexts with an older spelling the
-- allowlist in force is the older key's list where that key is set and the newer one's otherwise,
-- the allowlist is enabled exactly when one of the keys is set, the same goes for blocklists, and
-- no context had both spellings of an allowlist, or a blacklist beside a blocklist with entries.
pub init_allowlist_and_blocklist_configs-Merged :
    (md : MetaData) (c d : AerospikeConfig)
    → init_allowlist_and_blocklist_configs md c ≡ done d
    → LayeredFrom md c d
unfolding init_allowlist_and_blocklist_configs
init_allowlist_and_blocklist_configs-Merged md c d h =
    let (ns', w_ns, h1) =
      >>=-eq-done
        (tolerate_whitelist md (bytes "namespace_metrics_whitelist")
          (enable_allowlist md (bytes "namespace_metrics_allowlist") c.namespace_metrics))
        _ h in
    let (set', w_set, h2) =
      >>=-eq-done
        (tolerate_whitelist md (bytes "set_metrics_whitelist")
          (enable_allowlist md (bytes "set_metrics_allowlist") c.set_metrics))
        _ h1 in
    let (node', w_node, h3) =
      >>=-eq-done
        (tolerate_whitelist md (bytes "node_metrics_whitelist")
          (enable_allowlist md (bytes "node_metrics_allowlist") c.node_metrics))
        _ h2 in
    let (xdr', w_xdr, h4) =
      >>=-eq-done
        (tolerate_whitelist md (bytes "xdr_metrics_whitelist")
          (enable_allowlist md (bytes "xdr_metrics_allowlist") c.xdr_metrics))
        _ h3 in
    let (ns'', b_ns, h5) =
      >>=-eq-done (tolerate_blacklist md (bytes "namespace_metrics_blacklist") ns') _ h4 in
    let (set'', b_set, h6) =
      >>=-eq-done (tolerate_blacklist md (bytes "set_metrics_blacklist") set') _ h5 in
    let (node'', b_node, h7) =
      >>=-eq-done (tolerate_blacklist md (bytes "node_metrics_blacklist") node') _ h6 in
    let (xdr'', b_xdr, h8) =
      >>=-eq-done (tolerate_blacklist md (bytes "xdr_metrics_blacklist") xdr') _ h7 in
    subst (LayeredFrom md c) (done-injective h8) (
      Merged-steps md _ _ _ _ ns' _ w_ns b_ns,
      Merged-steps md _ _ _ _ set' _ w_set b_set,
      Merged-steps md _ _ _ _ node' _ w_node b_node,
      Merged-steps md _ _ _ _ xdr' _ w_xdr b_xdr,
    )
