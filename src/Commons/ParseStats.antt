-- ===== src/Commons/ParseStats.antt =====
-- `ParseStats` of utils.go: the server's `key=value` lists as maps.
use aerospike_prometheus_exp.Base.{
  ℕ, ◌≡◌, sym, ap, ◌∙◌, ◌≢◌, List, [], ◌∷◌, ◌++◌, Option, none, some, Bytes, bytes, Map, lookup,
  insert, lookup-insert, split, split_n2, join, Free, split-Free, split-append, split_n2-append,
  equal, All, All-append, if◌then◌else◌,
}

-- The switch on the pieces of `strings.SplitN(s, "=", 2)`.
store_pair : List Bytes → Map Bytes → Map Bytes
store_pair [] stats = stats
store_pair (k ∷ []) stats = stats
store_pair (k ∷ v ∷ []) stats = insert k v stats
store_pair (k ∷ v ∷ w ∷ rest) stats = insert k (join (bytes "=") (v ∷ w ∷ rest)) stats

store_all : List Bytes → Map Bytes → Map Bytes
store_all [] stats = stats
store_all (s ∷ s2) stats = store_all s2 (store_pair (split_n2 b'=' s) stats)

-- Every separator in use is one byte.
unfoldable pub parse_stats : Bytes → ℕ → Map Bytes
unfolding store_all store_pair
parse_stats s sep = store_all (split sep s) []

-- What the server sends: `k1=v1;k2=v2`
abbrev pub pair : Bytes × Bytes → Bytes
pair (k, v) = k ++ b'=' ∷ v

abbrev pub render : ℕ → Bytes × Bytes → List (Bytes × Bytes) → Bytes
render sep kv [] = pair kv
render sep kv (kv' ∷ rest) = pair kv ++ sep ∷ render sep kv' rest

-- The last value written for a key.
abbrev pub last_value : Bytes → Option Bytes → List (Bytes × Bytes) → Option Bytes
last_value k found [] = found
last_value k found ((j, v) ∷ kvs) = last_value k (if equal j k then some v else found) kvs

-- A key has no `=`, and neither a key nor a value has the separator.
abbrev pub IsPair : ℕ → Bytes × Bytes → Type 0
IsPair sep (k, v) = Free b'=' k × Free sep k × Free sep v

pair-Free : (sep : ℕ) (kv : Bytes × Bytes) → sep ≢ b'=' → IsPair sep kv → Free sep (pair kv)
pair-Free sep (k, v) ne (p, q, r) = All-append _ k (b'=' ∷ v) q ((λ e. ne (sym e)), r)

lookup-store_all :
    (sep : ℕ) (k : Bytes) (kv : Bytes × Bytes) (rest : List (Bytes × Bytes)) (stats : Map Bytes)
    → sep ≢ b'='
    → IsPair sep kv
    → All (IsPair sep) rest
    → lookup k (store_all (split sep (render sep kv rest)) stats)
      ≡ last_value k (lookup k stats) (kv ∷ rest)
unfolding store_all store_pair
lookup-store_all sep k (j, v) [] stats ne p ps =
    rw (split-Free sep (j ++ b'=' ∷ v) (pair-Free sep (j, v) ne p), split_n2-append b'=' j v p.0)
      (lookup-insert j k v stats)
lookup-store_all sep k (j, v) (kv' ∷ rest) stats ne p ps =
    rw (split-append sep (j ++ b'=' ∷ v) (render sep kv' rest) (pair-Free sep (j, v) ne p)) (
      ap
        (λ (ps : List Bytes).
          lookup k (store_all (split sep (render sep kv' rest)) (store_pair ps stats)))
        (split_n2-append b'=' j v p.0)
      ∙ lookup-store_all sep k kv' rest (insert j v stats) ne ps.0 ps.1
      ∙ ap (λ (o : Option Bytes). last_value k o (kv' ∷ rest)) (lookup-insert j k v stats))

-- Reading back what the server rendered: for any list of at least one pair whose keys are free of
-- `=` and of the separator, and whose values are free of the separator (they may hold `=`), every
-- key has the value of its last occurrence, and no other key has one.
pub lookup-parse_stats :
    (sep : ℕ) (k : Bytes) (kv : Bytes × Bytes) (rest : List (Bytes × Bytes))
    → sep ≢ b'='
    → IsPair sep kv
    → All (IsPair sep) rest
    → lookup k (parse_stats (render sep kv rest) sep) ≡ last_value k none (kv ∷ rest)
unfolding parse_stats lookup
lookup-parse_stats sep k kv rest ne p ps = lookup-store_all sep k kv rest [] ne p ps
