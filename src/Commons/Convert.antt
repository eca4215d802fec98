-- ===== src/Commons/Convert.antt =====
-- `TryConvert` of utils.go.
use aerospike_prometheus_exp.Base.{
  List, [], ◌∷◌, Bool, true, false, Option, none, some, Bytes, bytes, equal, any, if◌then◌else◌,
}
use aerospike_prometheus_exp.Env.{Env}

abbrev true_words : List Bytes
true_words = bytes "1" ∷ bytes "t" ∷ bytes "T" ∷ bytes "true" ∷ bytes "TRUE" ∷ bytes "True" ∷ []

abbrev false_words : List Bytes
false_words = bytes "0" ∷ bytes "f" ∷ bytes "F" ∷ bytes "false" ∷ bytes "FALSE" ∷ bytes "False" ∷ []

-- strconv.ParseBool, `none` for its error
unfoldable pub parse_bool : Bytes → Option Bool
unfolding equal
parse_bool s =
    if any (λ w. equal s w) true_words
    then some true
    else if any (λ w. equal s w) false_words
    then some false
    else none

module _ (env : Env) where
  open env use {Float, of_nat, parse_float}

  float_of_bool : Option Bool → Option Float
  float_of_bool none = none
  float_of_bool (some true) = some (of_nat 1)
  float_of_bool (some false) = some (of_nat 0)

  -- `none` is the error: neither a number nor a Boolean.
  unfoldable pub try_convert : Bytes → Option Float
  unfolding float_of_bool parse_bool
  try_convert s = elim (parse_float s) [ some f ↦ some f | none ↦ float_of_bool (parse_bool s) ]
