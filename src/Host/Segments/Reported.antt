-- ===== src/Host/Segments/Reported.antt =====
-- Which segments of shared memory host_sysinfo_provider.go reports.
use aerospike_prometheus_exp.Base.{
  ℕ, ◌+◌, ◌≡◌, refl, subst, ◌∙◌, Bool, true, false, ◌||◌, ◌⊎◌, inl, inr, Bool-cases, arith, List,
  [], ◌∷◌, Option, none, some, Bytes, bytes, Map, lookup, lookup-insert, equal, ◌==◌, All, Go, ok,
  >>=-eq-ok, ok-injective, if◌then◌else◌, trim_space, is_empty, has_prefix,
}
use aerospike_prometheus_exp.Host.Numbers.{format_int, ℤ, to_uint64, parse_int, fields}
use aerospike_prometheus_exp.Host.Segments
use aerospike_prometheus_exp.Host.Segments.{
  prefix_of, instance_of, namespace_of, suffix_of, AerospikeShmKeyInfo, decode_aerospike_shm_key,
  is_aerospike_shm_segment, type_id_of, take_fields, parse_sysv_shared_mem_info, segment_of_line,
  get_shared_memory_stats,
}

-- The key's top byte and the type are one of the pairs of Aerospike: of the primary index, of
-- secondary indexes, or of data.
abbrev pub TypeOf : ℕ → Bytes → Type 0
TypeOf p t =
    ((p ≡ 174) × (t ≡ bytes "pi"))
    ⊎ (((p ≡ 162) × (t ≡ bytes "si")) ⊎ ((p ≡ 173) × (t ≡ bytes "data")))

-- A segment has its key and a type, and these are such a pair.
abbrev pub HasType : Map Bytes → Type 0
HasType m =
    (key : ℤ) × (t : Bytes) × (lookup (bytes "key") m ≡ some (format_int key))
    × (lookup (bytes "typeid") m ≡ some t)
    × TypeOf (prefix_of (to_uint64 key)) t

type_id_of-TypeOf : (p : ℕ) → (p == 174 || (p == 162 || p == 173)) ≡ true → TypeOf p (type_id_of p)
type_id_of-TypeOf p h = elim (Bool-cases (p == 174)) [
  | inl a ↦ inl (ground (arith, a), rw a refl)
  | inr na ↦ elim (Bool-cases (p == 162)) [
    | inl b ↦ inr (inl (ground (arith, b), rw (na, b) refl))
    | inr nb ↦ elim (Bool-cases (p == 173)) [
      | inl c ↦ inr (inr (ground (arith, c), rw (na, nb, c) refl))
      | inr nc ↦ absurd (ground (arith, h, na, nb, nc))
    ]
  ]
]

typeid-with_key :
    (key : ℤ) (m : Map Bytes)
    → lookup (bytes "typeid") (Segments.with_key key m)
      ≡ some (type_id_of (prefix_of (to_uint64 key)))
unfolding decode_aerospike_shm_key equal
typeid-with_key key m =
    lookup-insert {V = Bytes} (bytes "suffix") (bytes "typeid") _ _
    ∙ (lookup-insert {V = Bytes} (bytes "namespaceid") (bytes "typeid") _ _
        ∙ (lookup-insert {V = Bytes} (bytes "instanceid") (bytes "typeid") _ _
            ∙ lookup-insert {V = Bytes} (bytes "typeid") (bytes "typeid") _ _))

key-with_key :
    (key : ℤ) (m : Map Bytes)
    → lookup (bytes "key") (Segments.with_key key m) ≡ some (format_int key)
unfolding decode_aerospike_shm_key equal
key-with_key key m =
    lookup-insert {V = Bytes} (bytes "suffix") (bytes "key") _ _
    ∙ (lookup-insert {V = Bytes} (bytes "namespaceid") (bytes "key") _ _
        ∙ (lookup-insert {V = Bytes} (bytes "instanceid") (bytes "key") _ _
            ∙ (lookup-insert {V = Bytes} (bytes "typeid") (bytes "key") _ _
                ∙ (lookup-insert {V = Bytes} (bytes "prefix") (bytes "key") _ _
                    ∙ (lookup-insert {V = Bytes} (bytes "hexKey") (bytes "key") _ _
                        ∙ lookup-insert {V = Bytes} (bytes "key") (bytes "key") _ _)))))

with_key-HasType :
    (key : ℤ) (m : Map Bytes)
    → is_aerospike_shm_segment key ≡ true
    → HasType (Segments.with_key key m)
unfolding is_aerospike_shm_segment
with_key-HasType key m h = (
  key,
  type_id_of (prefix_of (to_uint64 key)),
  key-with_key key m,
  typeid-with_key key m,
  type_id_of-TypeOf (prefix_of (to_uint64 key)) h,
)

abbrev AllSome : (Map Bytes → Type 0) → Option (Map Bytes) → Type 0
AllSome P none = Unit
AllSome P (some m) = P m

take_uints-HasType :
    (key : ℤ) (shm : List Bytes) (o r : Option (Map Bytes))
    → is_aerospike_shm_segment key ≡ true
    → Segments.take_uints key shm o ≡ ok r
    → AllSome HasType r
take_uints-HasType key shm none r h e = subst (AllSome HasType) (ok-injective e) tt
take_uints-HasType key shm (some m) r h e =
    let (o, _, e') = >>=-eq-ok (take_fields Segments.accepts_uint Segments.uint_fields shm m) _ e in
    subst (AllSome HasType) (ok-injective e') (done_with o)
  where
    done_with :
        (o : Option (Map Bytes))
        → AllSome HasType (elim o [ none ↦ none | some m' ↦ some (Segments.with_key key m') ])
    done_with none = tt
    done_with (some m') = with_key-HasType key m' h

segment_of-HasType :
    (shm : List Bytes) (r : Option (Map Bytes)) → Segments.segment_of shm ≡ ok r → AllSome HasType r
unfolding parse_sysv_shared_mem_info
segment_of-HasType [] r e = subst (AllSome HasType) (ok-injective e) tt
segment_of-HasType (text ∷ shm) r e = go (parse_int text) e
  where
    choice : ℤ → Bool → Go (Option (Map Bytes))
    choice key b = if b then parse_sysv_shared_mem_info key (text ∷ shm) else ok none

    decide :
        (key : ℤ) (b : Bool)
        → is_aerospike_shm_segment key ≡ b
        → choice key b ≡ ok r
        → AllSome HasType r
    decide key true h q =
        let (o, _, q') =
          >>=-eq-ok (take_fields Segments.accepts_int Segments.int_fields (text ∷ shm) []) _ q in
        take_uints-HasType key (text ∷ shm) o r h q'
    decide key false h q = subst (AllSome HasType) (ok-injective q) tt

    go :
        (o : Option ℤ)
        → (elim o [ none ↦ ok none | some key ↦ choice key (is_aerospike_shm_segment key) ]) ≡ ok r
        → AllSome HasType r
    go none q = subst (AllSome HasType) (ok-injective q) tt
    go (some key) q = decide key (is_aerospike_shm_segment key) refl q

segment_of_line-HasType :
    (n : ℕ) (text : Bytes) (r : Option (Map Bytes))
    → segment_of_line n text ≡ ok r
    → AllSome HasType r
unfolding segment_of_line
segment_of_line-HasType n text r e =
    go (is_empty (trim_space text) || (n == 1 || has_prefix (trim_space text) (bytes "key"))) e
  where
    go :
        (skipped : Bool)
        → (if skipped then ok none else Segments.segment_of (fields (trim_space text))) ≡ ok r
        → AllSome HasType r
    go true q = subst (AllSome HasType) (ok-injective q) tt
    go false q = segment_of-HasType (fields (trim_space text)) r q

push_segment-HasType :
    (o : Option (Map Bytes)) (ms : List (Map Bytes))
    → AllSome HasType o
    → All HasType ms
    → All HasType (Segments.push_segment o ms)
push_segment-HasType none ms h k = k
push_segment-HasType (some m) ms h k = (h, k)

segments_from-HasType :
    (n : ℕ) (lines : List Bytes) (ms : List (Map Bytes))
    → Segments.segments_from n lines ≡ ok ms
    → All HasType ms
unfolding Segments.segments_from
segments_from-HasType n [] ms e = subst (All HasType) (ok-injective e) tt
segments_from-HasType n (line ∷ lines) ms e =
    let (o, here, e1) = >>=-eq-ok (segment_of_line n line) _ e in
    let (rest, later, e2) = >>=-eq-ok (Segments.segments_from (n + 1) lines) _ e1 in
    subst (All HasType) (ok-injective e2) (
      push_segment-HasType o rest (segment_of_line-HasType n line o here)
        (segments_from-HasType (n + 1) lines rest later))

-- Each segment that is reported has its key and a type, and they fit: the key's top byte is 0xae and
-- the type is pi, or they are 0xa2 and si, or 0xad and data.
pub get_shared_memory_stats-HasType :
    (file : Option (List Bytes)) {ms : List (Map Bytes)}
    → get_shared_memory_stats file ≡ ok ms
    → All HasType ms
unfolding get_shared_memory_stats
get_shared_memory_stats-HasType none {ms} e = subst (All HasType) (ok-injective e) tt
get_shared_memory_stats-HasType (some lines) {ms} e = segments_from-HasType 1 lines ms e
