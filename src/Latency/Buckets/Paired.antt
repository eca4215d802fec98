-- ===== src/Latency/Buckets/Paired.antt =====
-- Every bucket has a label, so that the parsers' sanity check never fails.
use aerospike_prometheus_exp.Base.{
  ℕ, ◌+◌, ◌≡◌, refl, sym, ◌∙◌, subst, ◌&&◌, List, [], ◌∷◌, none, some, Bytes, bytes, length,
  length-append, Go, ok, >>=-eq-ok, ok-injective, arith, ltb, leb, Bool-cases, Option-cases, inl,
  inr,
}
use aerospike_prometheus_exp.Env.{Env}
use aerospike_prometheus_exp.Latency.Buckets.{
  Buckets, bucket_value, push, read_buckets, read_all_buckets, read_buckets-none, read_buckets-some,
}

module _ (env : Env) where
  open env use {Float, parse_float}

  -- As many labels as values.
  abbrev pub IsPaired : Buckets Float → Type 0
  IsPaired b = length b.labels ≡ length b.values

  push-IsPaired :
      (b : Buckets Float) (l : Bytes) (v : Float) → IsPaired b → IsPaired (push env b l v)
  push-IsPaired b l v p =
      omega (arith, length-append b.labels (l ∷ []), length-append b.values (v ∷ []))

  read_buckets-IsPaired :
      (label : ℕ → Go Bytes) (limit : ℕ) (total : Float) (i : ℕ) (vals : List Bytes)
      (b c : Buckets Float)
      → IsPaired b
      → read_buckets env label limit total i vals b ≡ ok c
      → IsPaired c
  read_buckets-IsPaired label limit total i [] b c p h =
      unfold read_buckets in subst IsPaired (ok-injective h) p
  read_buckets-IsPaired label limit total i (s ∷ vals) b c p h =
      elim (Option-cases (parse_float s)) [
        | inl bad ↦
            subst IsPaired
              (ok-injective (sym (read_buckets-none env label limit total i s vals b bad) ∙ h)) p
        | inr (val, good) ↦
            let (l, labelled, h') =
              >>=-eq-ok (label i) _
                (sym (read_buckets-some env label limit total i s vals b good) ∙ h) in
            let b' = push env b l (bucket_value env total val) in
            let p' = push-IsPaired b l (bucket_value env total val) p in
            elim (Bool-cases (ltb 0 limit && leb limit i)) [
              | inl last ↦ subst IsPaired (ok-injective (rw last at h')) p'
              | inr more ↦
                  read_buckets-IsPaired label limit total (i + 1) vals b' c p' (rw more at h')
            ]
      ]

  -- Whatever the labels and the text of the values, buckets that are read have as many labels as
  -- values.
  pub read_all_buckets-IsPaired :
      (label : ℕ → Go Bytes) (limit : ℕ) (vals : List Bytes) (b : Buckets Float)
      → read_all_buckets env label limit vals ≡ ok (some b)
      → IsPaired b
  unfolding read_all_buckets
  read_all_buckets-IsPaired label limit [] b h = absurd (cc)
  read_all_buckets-IsPaired label limit (s ∷ vals) b h = elim (Option-cases (parse_float s)) [
    | inl bad ↦ absurd (let h' : ok none ≡ ok (some b) = rw (bad, read_all_buckets) at h in cc)
    | inr (total, good) ↦
        let (c, e, k) =
          >>=-eq-ok
            (read_buckets env label limit total 1 vals
              (record { labels = bytes "+Inf" ∷ []; values = total ∷ [] }))
            _ (rw (good, read_all_buckets) at h) in
        let same : c ≡ b = cc in
        rw (← same) (read_buckets-IsPaired label limit total 1 vals _ c refl e)
  ]
