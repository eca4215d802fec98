-- ===== src/Stats/Namespace/Maps.antt =====
-- The maps that hold the histograms of namespaces.
use aerospike_prometheus_exp.Base.{
  ◌≡◌, refl, ◌∙◌, Bool, true, false, List, [], ◌∷◌, ◌++◌, some, Bytes, bytes, Map, lookup,
  lookup-insert, get_string, equal, equal_refl, split, All, if◌then◌else◌, Bool-cases, Option-cases,
  inl, inr, ◌&&◌,
}
use aerospike_prometheus_exp.Stats.Namespace.{
  ensure_map, namespace_keys, pass_two_keys, key_metadata,
}

-- The namespace has a map to write to, not the nil map.
abbrev pub HasMap : Map (Map Bytes) → Bytes → Type 0
HasMap m ns = (b : Map Bytes) × (lookup ns m ≡ some b)

ensure_map-HasMap : (ns : Bytes) (m : Map (Map Bytes)) → HasMap (ensure_map ns m) ns
ensure_map-HasMap ns m = elim (Option-cases (lookup ns m)) [
  | inl missing ↦
      rw (missing, ensure_map)
        ([], lookup-insert {V = Map Bytes} ns ns [] m ∙ rw (equal_refl ns) refl)
  | inr (b, found) ↦ rw (found, ensure_map) (b, found)
]

ensure_map-keeps : (ns j : Bytes) (m : Map (Map Bytes)) → HasMap m j → HasMap (ensure_map ns m) j
ensure_map-keeps ns j m (b, h) = elim (Option-cases (lookup ns m)) [
  | inr (c, found) ↦ rw (found, ensure_map) (b, h)
  | inl missing ↦
      rw (missing, ensure_map)
        (elim (Bool-cases (equal ns j)) [
          | inl same ↦ ([], lookup-insert {V = Map Bytes} ns j [] m ∙ rw same refl)
          | inr other ↦ (b, lookup-insert {V = Map Bytes} ns j [] m ∙ (rw other refl ∙ h))
        ])
]

namespace_keys-keeps :
    (sc : Map Bool) (nss : List Bytes) (m : Map (Map Bytes)) (j : Bytes)
    → HasMap m j
    → HasMap (namespace_keys sc nss m).1 j
unfolding namespace_keys
namespace_keys-keeps sc [] m j h = h
namespace_keys-keeps sc (ns ∷ nss) m j h =
    namespace_keys-keeps sc nss (ensure_map ns m) j (ensure_map-keeps ns j m h)

namespace_keys-HasMap :
    (sc : Map Bool) (nss : List Bytes) (m : Map (Map Bytes))
    → All (HasMap (namespace_keys sc nss m).1) nss
unfolding namespace_keys
namespace_keys-HasMap sc [] m = tt
namespace_keys-HasMap sc (ns ∷ nss) m = (
  namespace_keys-keeps sc nss (ensure_map ns m) ns (ensure_map-HasMap ns m),
  namespace_keys-HasMap sc nss (ensure_map ns m),
)

-- The first pass over the server's namespaces leaves each of them with a map for its histograms.
pub pass_two_keys-HasMap :
    (due flash : Bool) (sc : Map Bool) (benchmarks : Map (Map Bytes)) (pass_one_stats : Map Bytes)
    → All
        (HasMap (pass_two_keys due flash sc benchmarks pass_one_stats).1)
        (split b';' (get_string key_metadata pass_one_stats))
unfolding pass_two_keys
pass_two_keys-HasMap due flash sc benchmarks pass_one_stats = go (flash && due)
  where
    nss : List Bytes
    nss = split b';' (get_string key_metadata pass_one_stats)

    r : List Bytes × Map (Map Bytes)
    r = namespace_keys sc nss benchmarks

    go :
        (b : Bool)
        → All
            (HasMap
              (if◌then◌else◌ {A = List Bytes × Map (Map Bytes) × Bool} b
                (r.0 ++ bytes "index-pressure" ∷ [], r.1, true)
                (r.0, r.1, false)).1)
            nss
    go true = namespace_keys-HasMap sc nss benchmarks
    go false = namespace_keys-HasMap sc nss benchmarks
