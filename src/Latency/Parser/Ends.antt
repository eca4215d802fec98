-- ===== src/Latency/Parser/Ends.antt =====
-- The parsers' loops end, whatever the server sends.
use aerospike_prometheus_exp.Base.{
  ℕ, ◌<◌, ◌≤◌, List, Option, none, some, Bytes, bytes, length, split, Go, ok, panic, ◌>>=◌, arith,
  Option-cases, inl, inr, Bool-cases, is_empty, ◌&&◌, ◌==◌,
}
use aerospike_prometheus_exp.Env.{Env}
use aerospike_prometheus_exp.Latency.Reader.{
  peek_and_expect, expect, read_until, length-expect, length-read_until,
}
use aerospike_prometheus_exp.Latency.Names.{
  until, read_namespace_and_operation, length-until, length-read_namespace_and_operation,
}
use aerospike_prometheus_exp.Latency.Buckets.{Buckets, power_label, read_label, read_all_buckets}
use aerospike_prometheus_exp.Latency.Parser.{
  Latencies, Section, Round, store_buckets, read_values, read_section, read_legacy_values,
  read_legacy_labels, read_section_legacy, skip_empty, after_names, round, trim_suffix,
}

module _ (env : Env) (limit : ℕ) where
  open env use {Float}

  -- A turn of a loop leaves at most `n` bytes to read, if the loop goes on.
  abbrev pub Leaves : ℕ → Round Float → Type 0
  Leaves n (ok (some (rest, res))) = length rest ≤ n
  Leaves n _ = Unit

  store_buckets-Leaves :
      (ns op unit rest : Bytes) (res : Latencies Float) (b : Option (Buckets Float)) (n : ℕ)
      → length rest ≤ n
      → Leaves n (ok (store_buckets env limit ns op unit rest res b))
  unfolding store_buckets
  store_buckets-Leaves ns op unit rest res none n h = tt
  store_buckets-Leaves ns op unit rest res (some b) n h =
      elim (Bool-cases (length b.labels == length b.values)) [
        | inl same ↦ rw same h
        | inr other ↦ rw other tt
      ]

  read_values-Leaves :
      (label : ℕ → Go Bytes) (ns op unit ip : Bytes) (res : Latencies Float) (n : ℕ)
      → length ip ≤ n
      → Leaves n (read_values env limit label ns op unit ip res)
  unfolding read_values
  read_values-Leaves label ns op unit ip res n h =
      go (read_all_buckets env label limit (split b',' (read_until b';' ip).text))
    where
      go :
          (r : Go (Option (Buckets Float)))
          → Leaves n
              (r >>= λ b. ok (store_buckets env limit ns op unit (read_until b';' ip).rest res b))
      go (ok b) =
          store_buckets-Leaves ns op unit (read_until b';' ip).rest res b n
            (omega (arith, length-read_until b';' ip))
      go panic = tt

  pub read_section-Leaves :
      (ns op ip : Bytes) (res : Latencies Float)
      → Leaves (length ip) (read_section env limit ns op ip res)
  unfolding read_section
  read_section-Leaves ns op ip res = elim (Option-cases (until b',' ip)) [
    | inl u ↦ rw (u, read_section) tt
    | inr ((t, r), u) ↦
        rw (u, read_section)
          (read_values-Leaves power_label ns op (trim_suffix t (bytes "ec")) r res (length ip)
            (omega (arith, length-until b',' ip t r u)))
  ]

  read_legacy_values-Leaves :
      (ns op : Bytes) (labels : List Bytes) (ip : Bytes) (res : Latencies Float) (n : ℕ)
      → length ip ≤ n
      → Leaves n (read_legacy_values env limit ns op labels ip res)
  unfolding read_legacy_values
  read_legacy_values-Leaves ns op labels ip res n h = elim (Option-cases (until b',' ip)) [
    | inl u ↦ rw (u, read_legacy_values) tt
    | inr ((t, r), u) ↦
        rw (u, read_legacy_values)
          (read_values-Leaves (read_label labels) ns op (bytes "ms") r res n
            (omega (arith, length-until b',' ip t r u)))
  ]

  read_legacy_labels-Leaves :
      (ns op ip : Bytes) (res : Latencies Float) (n : ℕ)
      → length ip ≤ n
      → Leaves n (read_legacy_labels env limit ns op ip res)
  unfolding read_legacy_labels
  read_legacy_labels-Leaves ns op ip res n h = elim (Option-cases (until b';' ip)) [
    | inl u ↦ rw (u, read_legacy_labels) tt
    | inr ((t, r), u) ↦
        rw (u, read_legacy_labels)
          (read_legacy_values-Leaves ns op (split b',' t) r res n
            (omega (arith, length-until b';' ip t r u)))
  ]

  pub read_section_legacy-Leaves :
      (ns op ip : Bytes) (res : Latencies Float)
      → Leaves (length ip) (read_section_legacy env limit ns op ip res)
  unfolding read_section_legacy
  read_section_legacy-Leaves ns op ip res = elim (Option-cases (until b',' ip)) [
    | inl u ↦ rw (u, read_section_legacy) tt
    | inr ((t, r), u) ↦
        rw (u, read_section_legacy)
          (read_legacy_labels-Leaves ns op r res (length ip)
            (omega (arith, length-until b',' ip t r u)))
  ]

  skip_empty-Leaves :
      (ip : Bytes) (res : Latencies Float) → Leaves (length ip) (skip_empty env limit ip res)
  unfolding skip_empty
  skip_empty-Leaves ip res = elim (Option-cases (expect (bytes ";") ip).0) [
    | inl e ↦ rw (e, skip_empty) (length-expect (bytes ";") ip)
    | inr (w, e) ↦ rw (e, skip_empty) tt
  ]

  after_names-Leaves :
      (section : Section env limit)
      → ((ns op ip : Bytes) (res : Latencies Float) → Leaves (length ip) (section ns op ip res))
      → (ns op ip : Bytes) (res : Latencies Float)
      → Leaves (length ip) (after_names env limit section ns op ip res)
  unfolding after_names
  after_names-Leaves section h ns op ip res = elim (Bool-cases (is_empty ns && is_empty op)) [
    | inl skip ↦ rw skip (omega arith)
    | inr named ↦ rw named (elim (Option-cases (peek_and_expect (bytes ";") ip)) [
      | inl e ↦ rw e (skip_empty-Leaves ip res)
      | inr (w, e) ↦ rw e (h ns op ip res)
    ])
  ]

  -- A turn after which the loop goes on has read something.
  abbrev pub Reads : ℕ → Round Float → Type 0
  Reads n (ok (some (rest, res))) = length rest < n
  Reads n _ = Unit

  Leaves-Reads : (m n : ℕ) (r : Round Float) → m < n → Leaves m r → Reads n r
  Leaves-Reads m n (ok (some (rest, res))) lt h = omega arith
  Leaves-Reads m n (ok none) lt h = tt
  Leaves-Reads m n panic lt h = tt

  pub round-Reads :
      (section : Section env limit)
      → ((ns op ip : Bytes) (res : Latencies Float) → Leaves (length ip) (section ns op ip res))
      → (ip : Bytes) (res : Latencies Float) → Reads (length ip) (round env limit section ip res)
  unfolding round
  round-Reads section h ip res = elim (Option-cases (read_namespace_and_operation ip)) [
    | inl e ↦ rw (e, round) tt
    | inr ((ns, op, rest), e) ↦
        rw (e, round)
          (Leaves-Reads (length rest) (length ip) _
            (length-read_namespace_and_operation ip ns op rest e)
            (after_names-Leaves section h ns op rest res))
  ]
