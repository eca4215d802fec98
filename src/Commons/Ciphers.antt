-- ===== src/Commons/Ciphers.antt =====
-- utils.go: the cipher suites of the configuration.
use aerospike_prometheus_exp.Base.{
  ℕ, ◌≡◌, Bool, true, ◌&&◌, List, [], ◌∷◌, Option, none, some, Bytes, Map, lookup, split,
  split-Free, trim-All, trim, is_empty, nonempty, Free, All, leb, ◌==◌, ◌-◌, if◌then◌else◌, arith,
  Bool-cases, inl, inr,
}

abbrev is_blank : ℕ → Bool
is_blank c = c == b' '

-- strings.ToUpper, on ASCII
abbrev to_upper : Bytes → Bytes
to_upper [] = []
to_upper (c ∷ s) = (if leb b'a' c && leb c b'z' then c - 32 else c) ∷ to_upper s

-- A name that is not known is logged, and left out.
add_id : Option ℕ → List ℕ → List ℕ
add_id none ids = ids
add_id (some id) ids = id ∷ ids

unfoldable pub cipher_ids : Map ℕ → List Bytes → List ℕ
unfolding add_id
cipher_ids supported [] = []
cipher_ids supported (name ∷ names) =
    let rest = cipher_ids supported names in
    let cleaned = trim is_blank name in
    if is_empty cleaned then rest else add_id (lookup (to_upper cleaned) supported) rest

-- `supported` is what crypto/tls lists, by name.
unfoldable pub get_configured_cipher_suite_ids : Map ℕ → Bytes → List ℕ
unfolding cipher_ids
get_configured_cipher_suite_ids supported configured =
    if nonempty (trim is_blank configured) then [] else cipher_ids supported (split b',' configured)

blank-Free : (s : Bytes) → All (λ c. is_blank c ≡ true) s → Free b',' s
blank-Free [] h = tt
blank-Free (c ∷ s) h = (ground arith, blank-Free s h.1)

-- Whatever is configured, no cipher suite is returned: a list that is not blank is not looked at,
-- and a blank one has no names.
pub get_configured_cipher_suite_ids-empty :
    (supported : Map ℕ) (configured : Bytes)
    → get_configured_cipher_suite_ids supported configured ≡ []
unfolding get_configured_cipher_suite_ids cipher_ids
get_configured_cipher_suite_ids-empty supported configured =
    elim (Bool-cases (is_empty (trim is_blank configured))) [
      | inl blank ↦
          rw
            (split-Free b',' configured
              (blank-Free configured (trim-All is_blank configured blank)))
            (ground (arith, blank))
      | inr filled ↦ ground (arith, filled)
    ]
