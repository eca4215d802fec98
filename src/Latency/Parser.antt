-- ===== src/Latency/Parser.antt =====
-- `parseLatencyInfoLegacy` and `parseLatencyInfo` of latency_info_parser.go.
mod Ends
pub mod Runs
pub mod Sections
use aerospike_prometheus_exp.Base.{
  ℕ, zero, suc, ◌+◌, ◌≡◌, Bool, true, false, not, ◌&&◌, List, [], ◌∷◌, ◌++◌, Option, none, some,
  Bytes, bytes, Map, lookup, insert, split, is_empty, equal, has_prefix, take, length, Go, ok,
  panic, ◌>>=◌, if◌then◌else◌, ◌==◌, ◌-◌,
}
use aerospike_prometheus_exp.Env.{Env}
use aerospike_prometheus_exp.Latency.Reader.{peek_and_expect, expect, read_until}
use aerospike_prometheus_exp.Latency.Names.{until, read_namespace_and_operation}
use aerospike_prometheus_exp.Latency.Buckets.{Buckets, power_label, read_label, read_all_buckets}

-- The `LatencyStatsMap` of one operation.
pub record LatencyStats (F : Type 0) : Type 0 where
  pub bucket_labels : List Bytes
  pub bucket_values : List F
  pub time_unit : Bytes

-- Namespaces, then operations.
abbrev pub Latencies : Type 0 → Type 0
Latencies F = Map (Map (LatencyStats F))

-- strings.TrimSuffix(s, suffix)
unfoldable pub trim_suffix : Bytes → Bytes → Bytes
trim_suffix s suffix =
    if equal s (take (length s - length suffix) s ++ suffix)
    then take (length s - length suffix) s
    else s

-- A round of the loop: what is left to read and the map, or `none` where the loop breaks, which
-- leaves the map as it is.
abbrev pub Round : Type 0 → Type 0
Round F = Go (Option (Bytes × Latencies F))

-- `res[namespaceName][operation] = stats`, with a map made for a new namespace
abbrev pub add_stats : {F : Type 0} → Bytes → Bytes → LatencyStats F → Latencies F → Latencies F
add_stats ns op stats res =
    insert ns (insert op stats (elim (lookup ns res) [ none ↦ [] | some ops ↦ ops ])) res

module _ (env : Env) (limit : ℕ) where
  open env use {Float}

  -- The sanity check, and the entry that is stored.
  store_buckets :
      Bytes
      → Bytes
      → Bytes
      → Bytes
      → Latencies Float
      → Option (Buckets Float)
      → Option (Bytes × Latencies Float)
  store_buckets ns op unit rest res none = none
  store_buckets ns op unit rest res (some b) =
      if length b.labels == length b.values
      then (some (
        rest,
        add_stats ns op
            (record { bucket_labels = b.labels; bucket_values = b.values; time_unit = unit }) res,
      ))
      else none

  -- The bucket values of a section. Their `ReadUntil` may meet the end of the input.
  read_values : (ℕ → Go Bytes) → Bytes → Bytes → Bytes → Bytes → Latencies Float → Round Float
  unfolding store_buckets
  read_values label ns op unit ip res =
      let v = read_until b';' ip in
      read_all_buckets env label limit (split b',' v.text) >>= λ b.
      ok (store_buckets ns op unit v.rest res b)

  -- A section `unit,values;` of the newer format.
  unfoldable pub read_section : Bytes → Bytes → Bytes → Latencies Float → Round Float
  unfolding read_values
  read_section ns op ip res = elim (until b',' ip) [
    | none ↦ ok none
    | some unit ↦ read_values power_label ns op (trim_suffix unit.0 (bytes "ec")) unit.1 res
  ]

  -- `until` below is `ReadUntil`, with `break` on an error.
  read_legacy_values : Bytes → Bytes → List Bytes → Bytes → Latencies Float → Round Float
  unfolding read_values
  read_legacy_values ns op labels ip res = elim (until b',' ip) [
    | none ↦ ok none
    | some stamp ↦ read_values (read_label labels) ns op (bytes "ms") stamp.1 res
  ]

  read_legacy_labels : Bytes → Bytes → Bytes → Latencies Float → Round Float
  unfolding read_legacy_values
  read_legacy_labels ns op ip res = elim (until b';' ip) [
    | none ↦ ok none
    | some line ↦ read_legacy_values ns op (split b',' line.0) line.1 res
  ]

  -- A section `stamp,labels;stamp,values;` of the older format.
  unfoldable pub read_section_legacy : Bytes → Bytes → Bytes → Latencies Float → Round Float
  unfolding read_legacy_labels
  read_section_legacy ns op ip res = elim (until b',' ip) [
    | none ↦ ok none
    | some stamp ↦ read_legacy_labels ns op stamp.1 res
  ]

  -- The parsers differ only in how they read a section.
  abbrev pub Section : Type 0
  Section = Bytes → Bytes → Bytes → Latencies Float → Round Float

  -- A section with no data is a lone `;`.
  skip_empty : Bytes → Latencies Float → Round Float
  skip_empty ip res =
      let (e, rest) = expect (bytes ";") ip in
      elim e [ some _ ↦ ok none | none ↦ ok (some (rest, res)) ]

  after_names : Section → Bytes → Bytes → Bytes → Latencies Float → Round Float
  unfolding skip_empty
  after_names section ns op ip res =
      if is_empty ns && is_empty op
      then ok (some (ip, res))
      else (elim (peek_and_expect (bytes ";") ip) [
        | none ↦ skip_empty ip res
        | some _ ↦ section ns op ip res
      ])

  -- One turn of the loop.
  unfoldable pub round : Section → Bytes → Latencies Float → Round Float
  unfolding after_names
  round section ip res = elim (read_namespace_and_operation ip) [
    | none ↦ ok none
    | some r ↦ after_names section r.0 r.1 r.2 res
  ]

  -- The loop, on fuel: `none` if that runs out.
  unfoldable pub rounds : Section → ℕ → Bytes → Latencies Float → Option (Go (Latencies Float))
  rounds section zero ip res = none
  rounds section (suc fuel) ip res = elim (round section ip res) [
    | panic ↦ some panic
    | ok none ↦ some (ok res)
    | ok (some (rest, res')) ↦ rounds section fuel rest res'
  ]

  -- Every turn that goes on reads at least one byte, so that this fuel is never used up.
  abbrev run_rounds : Section → Bytes → Option (Go (Latencies Float))
  run_rounds section s = rounds section (length s + 1) s []

  abbrev or_panic : Option (Go (Latencies Float)) → Go (Latencies Float)
  or_panic none = panic
  or_panic (some r) = r

  unfoldable pub parse_latency_info : Bytes → Go (Latencies Float)
  unfolding rounds round read_section
  parse_latency_info s = or_panic (run_rounds read_section s)

  unfoldable pub parse_latency_info_legacy : Bytes → Go (Latencies Float)
  unfolding rounds round read_section_legacy
  parse_latency_info_legacy s = or_panic (run_rounds read_section_legacy s)
