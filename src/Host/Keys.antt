-- ===== src/Host/Keys.antt =====
-- The keys of Aerospike's shared memory, as host_sysinfo_utils.go decodes them.
use aerospike_prometheus_exp.Base.{ℕ, ◌+◌, ◌*◌, ◌%◌, ◌^◌, ◌<◌, ◌≡◌, refl, itoa, arith}
use aerospike_prometheus_exp.Host.Numbers.{ℤ, to_uint64, format_hex}
use aerospike_prometheus_exp.Host.Segments.{
  prefix_of, instance_of, namespace_of, suffix_of, AerospikeShmKeyInfo, decode_aerospike_shm_key,
}

-- Four fields, of eight, four, eight and twelve bits, that are printed and that are, from the top, the
-- low 32 bits of the key.
abbrev pub SplitsKey : ℤ → AerospikeShmKeyInfo → Type 0
SplitsKey raw d =
    (p i n s : ℕ) × ((p < 256) × (i < 16) × (n < 256) × (s < 4096))
    × (to_uint64 raw % 2 ^ 32 ≡ ((p * 16 + i) * 256 + n) * 4096 + s)
    × (d.prefix ≡ format_hex 2 p)
    × (d.instance_id ≡ itoa i)
    × (d.namespace_id ≡ itoa n)
    × (d.suffix ≡ itoa s)

-- What is printed of a key are four numbers of eight, four, eight and twelve bits, and written one
-- after the other these are the low 32 bits of the key, so that no bit is lost or printed twice.
pub decode_aerospike_shm_key-fields : (raw : ℤ) → SplitsKey raw (decode_aerospike_shm_key raw)
unfolding decode_aerospike_shm_key
decode_aerospike_shm_key-fields raw =
    let u = to_uint64 raw in
    (
      prefix_of u,
      instance_of u,
      namespace_of u,
      suffix_of u,
      (omega arith, omega arith, omega arith, omega arith),
      splits u,
      refl,
      refl,
      refl,
      refl,
    )
  where
    splits :
        (u : ℕ)
        → u % 2 ^ 32
          ≡ ((prefix_of u * 16 + instance_of u) * 256 + namespace_of u) * 4096 + suffix_of u
    splits u = omega arith
