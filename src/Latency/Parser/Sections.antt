-- ===== src/Latency/Parser/Sections.antt =====
-- What the newer format's parser makes of a well-formed answer.
use aerospike_prometheus_exp.Base.{
  ℕ, ◌≡◌, List, [], ◌∷◌, ◌++◌, map, some, Bytes, bytes, Free, All, false, is_empty, ◌&&◌,
}
use aerospike_prometheus_exp.Env.{Env}
use aerospike_prometheus_exp.Latency.Buckets.{Parses, powers, within_limit, bucket_value}
use aerospike_prometheus_exp.Latency.Parser.{Latencies, LatencyStats, add_stats, trim_suffix}
use aerospike_prometheus_exp.Latency.Parser.Runs.{Runs}

-- v0,v1,...
abbrev pub join_values : Bytes → List Bytes → Bytes
join_values v [] = v
join_values v (w ∷ ws) = v ++ b',' ∷ join_values w ws

-- One section of the answer.
pub record Line : Type 0 where
  pub ns : Bytes
  pub op : Bytes
  pub unit : Bytes
  pub total : Bytes
  pub values : List Bytes

-- `{ns}-op:unit,total,values...;`
abbrev pub render : Line → Bytes → Bytes
render l rest =
    b'{'
    ∷ (l.ns
        ++ b'}'
          ∷ b'-'
          ∷ (l.op ++ b':' ∷ (l.unit ++ b',' ∷ (join_values l.total l.values ++ b';' ∷ rest))))

abbrev pub render_all : List Line → Bytes
render_all [] = []
render_all (l ∷ ls) = render l (render_all ls)

-- Every field is free of the mark that ends it, and a section has a name and a unit.
pub record IsLine (l : Line) : Type 0 where
  pub ns_free : Free b'}' l.ns
  pub op_free : Free b':' l.op
  pub named : (is_empty l.ns && is_empty l.op) ≡ false
  pub unit_free : Free b',' l.unit
  pub unit_line_free : Free b';' l.unit
  pub total_free : Free b',' l.total
  pub values_free : All (Free b',') l.values
  pub line_free : Free b';' (join_values l.total l.values)

module _ (env : Env) (limit : ℕ) where
  open env use {Float, parse_float}

  -- The values of a section are numbers.
  abbrev pub AreNumbers : Line → Float → List Float → Type 0
  AreNumbers l total fs = (parse_float l.total ≡ some total) × Parses env l.values fs

  -- The entry for a section.
  abbrev pub stats_of : Line → Float → List Float → LatencyStats Float
  stats_of l total fs = record {
    bucket_labels = bytes "+Inf" ∷ powers env 0 (within_limit env limit fs);
    bucket_values = total ∷ map (bucket_value env total) (within_limit env limit fs);
    time_unit = trim_suffix l.unit (bytes "ec");
  }

  -- The numbers of every line, in order.
  abbrev pub Reading : Type 0
  Reading = Line × Float × List Float

  abbrev pub IsReading : Reading → Type 0
  IsReading (l, total, fs) = IsLine l × AreNumbers l total fs

  abbrev pub line_of : Reading → Line
  line_of (l, total, fs) = l

  abbrev pub stored : List Reading → Latencies Float → Latencies Float
  stored [] res = res
  stored ((l, total, fs) ∷ rs) res = stored rs (add_stats l.ns l.op (stats_of l total fs) res)
