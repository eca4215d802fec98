-- ===== src/Host/Segments/Complete.antt =====
-- That host_sysinfo_provider.go reads a listing of shared memory without a panic.
use aerospike_prometheus_exp.Base.{
  ℕ, zero, suc, ◌+◌, ◌≤◌, ◌<◌, ◌≡◌, refl, Bool, true, false, ◌||◌, List, [], ◌∷◌, Option, none,
  some, Bytes, bytes, Map, insert, ◌==◌, length, All, Go, ok, index, if◌then◌else◌, Bool-cases, inl,
  inr, arith, trim_space, is_empty, has_prefix,
}
use aerospike_prometheus_exp.Host.Numbers.{ℤ, parse_int, fields}
use aerospike_prometheus_exp.Host.Segments
use aerospike_prometheus_exp.Host.Segments.{
  is_aerospike_shm_segment, take_fields, parse_sysv_shared_mem_info, segment_of_line,
  get_shared_memory_stats,
}

-- A run ends without a panic.
abbrev pub Ends : {A : Type 0} → Go A → Type 0
Ends {A} run = (a : A) × (run ≡ ok a)

index-Ends : {A : Type 0} (xs : List A) (i : ℕ) → i < length xs → Ends (index xs i)
index-Ends [] i h = absurd (omega (arith, h))
index-Ends (x ∷ xs) zero h = (x, refl)
index-Ends (x ∷ xs) (suc i) h = index-Ends xs i (omega (arith, h))

-- The fields asked for are there.
abbrev AreIn : List (ℕ × Bytes) → List Bytes → Type 0
AreIn names shm = All (λ n. n.0 < length shm) names

take_fields-Ends :
    (accepts : Bytes → Bool) (names : List (ℕ × Bytes)) (shm : List Bytes) (m : Map Bytes)
    → AreIn names shm
    → Ends (take_fields accepts names shm m)
unfolding take_fields
take_fields-Ends accepts [] shm m h = (some m, refl)
take_fields-Ends accepts ((i, name) ∷ names) shm m (h, hs) =
    let (value, found) = index-Ends shm i h in
    let (r, e) = take_fields-Ends accepts names shm (insert name value m) hs in
    elim (Bool-cases (accepts value)) [
      | inl good ↦ (r, rw (found, good) e)
      | inr bad ↦ (none, rw (found, bad) refl)
    ]

take_uints-Ends :
    (key : ℤ) (shm : List Bytes) (o : Option (Map Bytes))
    → AreIn Segments.uint_fields shm
    → Ends (Segments.take_uints key shm o)
take_uints-Ends key shm none h = (none, refl)
take_uints-Ends key shm (some m) h =
    let (r, e) = take_fields-Ends Segments.accepts_uint Segments.uint_fields shm m h in
    (finished r, rw e refl)
  where
    finished : Option (Map Bytes) → Option (Map Bytes)
    finished r = elim r [ none ↦ none | some m' ↦ some (Segments.with_key key m') ]

parse_sysv_shared_mem_info-Ends :
    (key : ℤ) (shm : List Bytes) → 16 ≤ length shm → Ends (parse_sysv_shared_mem_info key shm)
unfolding parse_sysv_shared_mem_info
parse_sysv_shared_mem_info-Ends key shm h =
    let ints : AreIn Segments.int_fields shm = (
      omega (arith, h),
      (
        omega (arith, h),
        (
          omega (arith, h),
          (
            omega (arith, h),
            (omega (arith, h), (omega (arith, h), (omega (arith, h), (omega (arith, h), tt)))),
          ),
        ),
      ),
    ) in
    let uints : AreIn Segments.uint_fields shm = (
      omega (arith, h),
      (
        omega (arith, h),
        (
          omega (arith, h),
          (omega (arith, h), (omega (arith, h), (omega (arith, h), (omega (arith, h), tt)))),
        ),
      ),
    ) in
    let (o, e) = take_fields-Ends Segments.accepts_int Segments.int_fields shm [] ints in
    let (r, e') = take_uints-Ends key shm o uints in (r, rw e e')

segment_of-Ends : (shm : List Bytes) → 16 ≤ length shm → Ends (Segments.segment_of shm)
unfolding parse_sysv_shared_mem_info
segment_of-Ends [] h = (none, refl)
segment_of-Ends (text ∷ shm) h = go (parse_int text)
  where
    decide :
        (key : ℤ) (b : Bool)
        → Ends (if b then parse_sysv_shared_mem_info key (text ∷ shm) else ok none)
    decide key true = parse_sysv_shared_mem_info-Ends key (text ∷ shm) h
    decide key false = (none, refl)

    go :
        (o : Option ℤ)
        → Ends {A = Option (Map Bytes)} (elim o [
          | none ↦ ok none
          | some key ↦
              if is_aerospike_shm_segment key
              then parse_sysv_shared_mem_info key (text ∷ shm)
              else ok none
        ])
    go none = (none, refl)
    go (some key) = decide key (is_aerospike_shm_segment key)

-- A line of the listing has all sixteen fields, unless it is skipped.
abbrev pub IsFull : Bytes → Type 0
IsFull line = is_empty (trim_space line) ≡ false → 16 ≤ length (fields (trim_space line))

segment_of_line-Ends : (n : ℕ) (line : Bytes) → IsFull line → Ends (segment_of_line n line)
unfolding segment_of_line
segment_of_line-Ends n line full =
    go (is_empty (trim_space line)) (n == 1 || has_prefix (trim_space line) (bytes "key")) refl
  where
    go :
        (a b : Bool)
        → is_empty (trim_space line) ≡ a
        → Ends (if a || b then ok none else Segments.segment_of (fields (trim_space line)))
    go true b h = (none, refl)
    go false true h = (none, refl)
    go false false h = segment_of-Ends (fields (trim_space line)) (full h)

segments_from-Ends :
    (n : ℕ) (lines : List Bytes) → All IsFull lines → Ends (Segments.segments_from n lines)
unfolding Segments.segments_from
segments_from-Ends n [] h = ([], refl)
segments_from-Ends n (line ∷ lines) (h, hs) =
    let (o, e) = segment_of_line-Ends n line h in
    let (rest, e') = segments_from-Ends (n + 1) lines hs in
    (Segments.push_segment o rest, rw (e, e') refl)

-- A listing in which every line that is not blank has at least sixteen fields is read without a panic.
pub get_shared_memory_stats-Ends :
    (lines : List Bytes) → All IsFull lines → Ends (get_shared_memory_stats (some lines))
unfolding get_shared_memory_stats
get_shared_memory_stats-Ends lines h = segments_from-Ends 1 lines h
