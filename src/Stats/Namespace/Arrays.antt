-- ===== src/Stats/Namespace/Arrays.antt =====
-- sp_namespaces.go: the statistics of one element of an array, as of `storage-engine.file[0].age`.
use aerospike_prometheus_exp.Base.{
  Bool, false, ◌&&◌, List, [], ◌∷◌, ◌++◌, Option, none, some, Bytes, bytes, has_prefix, contains,
  drop, length, nonempty, leb, ◌==◌, if◌then◌else◌,
}

abbrev pub storage_engine : Bytes
storage_engine = bytes "storage-engine"

abbrev pub index_type : Bytes
index_type = bytes "index-type"

abbrev pub sindex_type : Bytes
sindex_type = bytes "sindex-type"

unfoldable pub check_stat_persistance_type : Bytes → Bytes × Bool
check_stat_persistance_type stat =
    let is_array = contains stat (bytes "[") in
    if has_prefix stat index_type
    then (index_type, is_array)
    else if has_prefix stat sindex_type
    then (sindex_type, is_array)
    else if has_prefix stat storage_engine
    then (storage_engine, is_array)
    else ([], false)

-- The kinds of array that the expression of a device type reads.
abbrev array_kinds : Bytes → List Bytes
array_kinds device =
    if has_prefix device storage_engine
    then bytes "file" ∷ bytes "device" ∷ bytes "stripe" ∷ []
    else bytes "mount" ∷ []

-- `\d+`: the digits at the front, and what follows them
abbrev digits : Bytes → Bytes × Bytes
digits [] = ([], [])
digits (c ∷ s) =
    let (ds, rest) = digits s in if leb b'0' c && leb c b'9' then (c ∷ ds, rest) else ([], c ∷ s)

-- `.+`, which stops at the end of a line
abbrev line : Bytes → Bytes
line [] = []
line (c ∷ s) = let rest = line s in if c == 10 then [] else c ∷ rest

after : Bytes → Bytes → Option Bytes
after p s = if has_prefix s p then some (drop (length p) s) else none

-- The groups: kind, index, and metric.
abbrev pub ArrayMatch : Type 0
ArrayMatch = Bytes × Bytes × Bytes

match_metric : Bytes → Bytes → Option Bytes → Option ArrayMatch
match_metric kind idx none = none
match_metric kind idx (some s) = if nonempty (line s) then some (kind, idx, line s) else none

match_index : Bytes → Option Bytes → Option ArrayMatch
unfolding match_metric after
match_index kind none = none
match_index kind (some s) =
    let (idx, rest) = digits s in
    if nonempty idx then match_metric kind idx (after (bytes "].") rest) else none

-- The alternatives, in order.
match_kinds : List Bytes → Bytes → Option ArrayMatch
unfolding match_index after
match_kinds [] s = none
match_kinds (kind ∷ kinds) s = elim (match_index kind (after (kind ++ bytes "[") s)) [
  | some m ↦ some m
  | none ↦ match_kinds kinds s
]

match_here : Bytes → Option Bytes → Option ArrayMatch
unfolding match_kinds
match_here device none = none
match_here device (some s) = match_kinds (array_kinds device) s

-- `FindStringSubmatch` with the expression of `regexToExtractArrayStats`: the leftmost match
unfoldable pub find_array_stat : Bytes → Bytes → Option ArrayMatch
unfolding match_here after
find_array_stat device [] = none
find_array_stat device (c ∷ s) = elim (match_here device (after (device ++ bytes ".") (c ∷ s))) [
  | some m ↦ some m
  | none ↦ find_array_stat device s
]
