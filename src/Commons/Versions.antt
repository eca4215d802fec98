-- ===== src/Commons/Versions.antt =====
-- `GetModuleVersion` of utils.go.
use aerospike_prometheus_exp.Base.{
  Option, none, some, Bytes, bytes, Map, lookup, equal, if◌then◌else◌,
}

-- What debug.ReadBuildInfo returns: the main module, and the versions of the others by their paths.
pub record BuildInfo : Type 0 where
  pub main_path : Bytes
  pub main_version : Bytes
  pub deps : Map Bytes

abbrev default_version : Bytes
default_version = bytes "(devel)"

abbrev version_of_dep : Option Bytes → Bytes
version_of_dep none = default_version
version_of_dep (some v) = v

-- `none` where there is no build info.
unfoldable pub get_module_version : Option BuildInfo → Bytes → Bytes
unfolding equal lookup
get_module_version none path = default_version
get_module_version (some info) path =
    if equal path info.main_path then info.main_version else version_of_dep (lookup path info.deps)
