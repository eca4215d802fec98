-- ===== src/Host/Segments.antt =====
-- host_sysinfo_utils.go and host_sysinfo_provider.go: the segments of shared memory.
pub mod Reported
pub mod Complete
use aerospike_prometheus_exp.Base.{
  ℕ, zero, suc, ◌+◌, ◌*◌, ◌/◌, ◌%◌, ◌≡◌, refl, Bool, true, false, not, ◌&&◌, ◌||◌, List, [], ◌∷◌,
  ◌++◌, Option, none, some, Bytes, bytes, Map, insert, has_prefix, trim_space, is_empty, itoa, ◌==◌,
  Go, ok, panic, ◌>>=◌, index, if◌then◌else◌,
}
use aerospike_prometheus_exp.Host.Numbers.{
  ℤ, to_uint64, parse_int, parse_uint, format_int, format_hex, fields,
}

-- byte(u >> 24)
abbrev pub prefix_of : ℕ → ℕ
prefix_of u = u / 16777216 % 256

-- (u >> 20) & 0xF
abbrev pub instance_of : ℕ → ℕ
instance_of u = u / 1048576 % 16

-- (u >> 12) & 0xFF
abbrev pub namespace_of : ℕ → ℕ
namespace_of u = u / 4096 % 256

-- u & 0xFFF
abbrev pub suffix_of : ℕ → ℕ
suffix_of u = u % 4096

-- 0xae, 0xa2 and 0xad
unfoldable pub is_aerospike_shm_segment : ℤ → Bool
is_aerospike_shm_segment key =
    let p = prefix_of (to_uint64 key) in p == 174 || (p == 162 || p == 173)

pub record AerospikeShmKeyInfo : Type 0 where
  pub hex_key : Bytes
  pub prefix : Bytes
  pub type_id : Bytes
  pub instance_id : Bytes
  pub namespace_id : Bytes
  pub suffix : Bytes

abbrev pub type_id_of : ℕ → Bytes
type_id_of p =
    if p == 174
    then bytes "pi"
    else if p == 162
    then bytes "si"
    else if p == 173
    then bytes "data"
    else bytes "other"

unfoldable pub decode_aerospike_shm_key : ℤ → AerospikeShmKeyInfo
decode_aerospike_shm_key raw =
    let u = to_uint64 raw in
    record {
      hex_key = format_hex 8 u;
      prefix = format_hex 2 (prefix_of u);
      type_id = type_id_of (prefix_of u);
      instance_id = itoa (instance_of u);
      namespace_id = itoa (namespace_of u);
      suffix = itoa (suffix_of u);
    }

abbrev accepts_int : Bytes → Bool
accepts_int s = elim (parse_int s) [ none ↦ false | some i ↦ true ]

abbrev accepts_uint : Bytes → Bool
accepts_uint s = elim (parse_uint s) [ none ↦ false | some n ↦ true ]

-- The positions and names of the fields, without the key.
abbrev pub int_fields : List (ℕ × Bytes)
int_fields =
    (1, bytes "shmid")
    ∷ (2, bytes "perms")
    ∷ (4, bytes "cpid")
    ∷ (5, bytes "lpid")
    ∷ (6, bytes "nattch")
    ∷ (11, bytes "atime")
    ∷ (12, bytes "dtime")
    ∷ (13, bytes "ctime")
    ∷ []

abbrev pub uint_fields : List (ℕ × Bytes)
uint_fields =
    (3, bytes "size")
    ∷ (7, bytes "uid")
    ∷ (8, bytes "gid")
    ∷ (9, bytes "cuid")
    ∷ (10, bytes "cgid")
    ∷ (14, bytes "rss")
    ∷ (15, bytes "swap")
    ∷ []

-- A loop over fields: `none` is the `nil` that a field which is no number leads to. A field that is
-- not there panics.
unfoldable pub take_fields :
    (Bytes → Bool) → List (ℕ × Bytes) → List Bytes → Map Bytes → Go (Option (Map Bytes))
take_fields accepts [] shm m = ok (some m)
take_fields accepts ((i, name) ∷ names) shm m = index shm i >>= λ value.
    let rest = take_fields accepts names shm (insert name value m) in
    if accepts value then rest else ok none

abbrev with_key : ℤ → Map Bytes → Map Bytes
with_key key m =
    let d = decode_aerospike_shm_key key in
    insert (bytes "suffix") d.suffix (
      insert (bytes "namespaceid") d.namespace_id (
        insert (bytes "instanceid") d.instance_id (
          insert (bytes "typeid") d.type_id (
            insert (bytes "prefix") d.prefix
              (insert (bytes "hexKey") d.hex_key (insert (bytes "key") (format_int key) m))))))

abbrev take_uints : ℤ → List Bytes → Option (Map Bytes) → Go (Option (Map Bytes))
take_uints key shm none = ok none
take_uints key shm (some m) = take_fields accepts_uint uint_fields shm m >>= λ r.
    ok (elim r [ none ↦ none | some m' ↦ some (with_key key m') ])

unfoldable pub parse_sysv_shared_mem_info : ℤ → List Bytes → Go (Option (Map Bytes))
unfolding take_fields
parse_sysv_shared_mem_info key shm =
    take_fields accepts_int int_fields shm [] >>= take_uints key shm

-- A segment's fields, where the key is a number and is Aerospike's.
abbrev segment_of : List Bytes → Go (Option (Map Bytes))
segment_of [] = ok none
segment_of (text ∷ shm) = elim (parse_int text) [
  | none ↦ ok none
  | some key ↦
      if is_aerospike_shm_segment key then parse_sysv_shared_mem_info key (text ∷ shm) else ok none
]

-- The first line is that of the names.
unfoldable pub segment_of_line : ℕ → Bytes → Go (Option (Map Bytes))
unfolding parse_sysv_shared_mem_info
segment_of_line n text =
    let line = trim_space text in
    if is_empty line || (n == 1 || has_prefix line (bytes "key"))
    then ok none
    else segment_of (fields line)

abbrev push_segment : Option (Map Bytes) → List (Map Bytes) → List (Map Bytes)
push_segment none ms = ms
push_segment (some m) ms = m ∷ ms

segments_from : ℕ → List Bytes → Go (List (Map Bytes))
unfolding segment_of_line
segments_from n [] = ok []
segments_from n (line ∷ lines) = do
  segment ← segment_of_line n line
  rest ← segments_from (n + 1) lines
  ok (push_segment segment rest)

-- The lines of `sysvipc/shm`, `none` where it does not open.
unfoldable pub get_shared_memory_stats : Option (List Bytes) → Go (List (Map Bytes))
unfolding segments_from
get_shared_memory_stats none = ok []
get_shared_memory_stats (some lines) = segments_from 1 lines
