-- ===== src/Env.antt =====
-- What the code reads and does not change: the globals `config.Cfg` and `config.GaugeStatHandler`,
-- the functions of third-party packages, float64 with its operations, and the order in which Go
-- visits a map.
use aerospike_prometheus_exp.Base.{ℕ, Bool, Option, List, Bytes, Map}
use aerospike_prometheus_exp.Config.{Config}

-- internal/pkg/config/gauge_stats.go: the lists of a TOML file, and the sets made of them.
pub record GaugeStats : Type 0 where
  pub namespace : List Bytes
  pub node : List Bytes
  pub sets : List Bytes
  pub sindex : List Bytes
  pub xdr : List Bytes
  pub sys_info : List Bytes
  pub namespace_stats : Map Bool
  pub node_stats : Map Bool
  pub sets_stats : Map Bool
  pub sindex_stats : Map Bool
  pub xdr_stats : Map Bool
  pub sys_info_stats : Map Bool

pub record Env : Type 1 where
  pub cfg : Config
  pub gauge_stats : GaugeStats
  -- float64
  pub Float : Type 0
  pub sub : Float → Float → Float
  pub mul : Float → Float → Float
  pub div : Float → Float → Float
  pub float_eq : Float → Float → Bool
  -- the conversion of an integer
  pub of_nat : ℕ → Float
  -- strconv.ParseFloat, `none` for its error
  pub parse_float : Bytes → Option Float
  -- github.com/gobwas/glob: Compile, `none` for its error, and Match
  pub glob_compile : Bytes → Option (Bytes → Bool)
  -- github.com/hashicorp/go-version: whether NewVersion accepts a text, and GreaterThanOrEqual
  pub is_version : Bytes → Bool
  pub version_ge : Bytes → Bytes → Bool
  -- the entries of a map in the order in which `range` visits them
  pub range : (V : Type 0) → Map V → Map V
