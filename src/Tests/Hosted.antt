-- ===== src/Tests/Hosted.antt =====
-- The properties of the host's statistics and of the cleaning of texts at concrete inputs.
use aerospike_prometheus_exp.Base.{
  ◌≡◌, refl, true, List, [], ◌∷◌, some, Bytes, bytes, Map, All, arith, trim_space, has_prefix,
}
use aerospike_prometheus_exp.Commons.Sanitize.{sanitize_utf8, valid_string}
use aerospike_prometheus_exp.Commons.Sanitize.WellFormed.{Utf8, sanitize_utf8-Utf8}
use aerospike_prometheus_exp.Host.Numbers.{pos, fields, parse_int, parse_uint}
use aerospike_prometheus_exp.Host.Segments.{
  decode_aerospike_shm_key, is_aerospike_shm_segment, get_shared_memory_stats,
}
use aerospike_prometheus_exp.Host.Segments.Reported.{HasType, get_shared_memory_stats-HasType}
use aerospike_prometheus_exp.Host.Segments.Complete.{Ends, get_shared_memory_stats-Ends}
use aerospike_prometheus_exp.Host.Keys.{SplitsKey, decode_aerospike_shm_key-fields}
use aerospike_prometheus_exp.Tests.{result_or}

sanitize_utf8-Utf8_example :
    Utf8 (sanitize_utf8 (b'a' ∷ 255 ∷ 195 ∷ []))
    × (valid_string (b'a' ∷ 255 ∷ 195 ∷ []) ≡ true
        → sanitize_utf8 (b'a' ∷ 255 ∷ 195 ∷ []) ≡ b'a' ∷ 255 ∷ 195 ∷ [])
sanitize_utf8-Utf8_example = sanitize_utf8-Utf8 (b'a' ∷ 255 ∷ 195 ∷ [])

decode_aerospike_shm_key-fields_example :
    SplitsKey (pos 2920288257) (decode_aerospike_shm_key (pos 2920288257))
decode_aerospike_shm_key-fields_example = decode_aerospike_shm_key-fields (pos 2920288257)

abbrev listing : List Bytes
listing =
    bytes "key shmid perms size cpid lpid nattch uid gid cuid cgid atime dtime ctime rss swap"
    ∷ bytes "2920288257 2 666 4096 10 11 1 0 0 0 0 1700000000 0 1700000000 4096 0"
    ∷ []

abbrev segments : List (Map Bytes)
segments = result_or [] (get_shared_memory_stats (some listing))

get_shared_memory_stats-HasType_example : All HasType segments
unfolding get_shared_memory_stats trim_space has_prefix fields parse_int is_aerospike_shm_segment
    parse_uint
get_shared_memory_stats-HasType_example = get_shared_memory_stats-HasType (some listing) refl

get_shared_memory_stats-Ends_example : Ends (get_shared_memory_stats (some listing))
unfolding fields trim_space
get_shared_memory_stats-Ends_example =
    get_shared_memory_stats-Ends listing ((λ _. omega arith), ((λ _. omega arith), tt))
