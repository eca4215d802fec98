-- ===== src/Stats/Filter/Allowed.antt =====
-- What `isMetricAllowed` decides.
use aerospike_prometheus_exp.Base.{
  ◌≡◌, refl, inl, inr, Bool, true, false, not, ◌&&◌, ◌||◌, List, [], ◌∷◌, none, some, Bytes,
  nonempty, is_empty, any, ok, All, arith, if◌then◌else◌, Bool-cases,
}
use aerospike_prometheus_exp.Env.{Env}
use aerospike_prometheus_exp.Stats.Metric.{Context}
use aerospike_prometheus_exp.Stats.Filter.{
  loop_patterns, check_allowlist, is_metric_allowed, allowlist_of, blocklist_of,
}

module _ (env : Env) where
  open env use {glob_compile}

  -- A pattern covers a name: it is not the empty text, it is a glob, and the glob matches.
  abbrev pub covers : Bytes → Bytes → Bool
  covers s p = nonempty p && elim (glob_compile p) [ none ↦ false | some matches ↦ matches s ]

  -- Every pattern that is compiled is a glob.
  abbrev pub IsGlob : Bytes → Type 0
  IsGlob p = nonempty p ≡ true → (matches : Bytes → Bool) × (glob_compile p ≡ some matches)

  loop_patterns-any :
      (s : Bytes) (ps : List Bytes)
      → All IsGlob ps
      → loop_patterns env s ps ≡ ok (any (covers s) ps)
  unfolding loop_patterns
  loop_patterns-any s [] g = refl
  loop_patterns-any s (p ∷ ps) g = elim (Bool-cases (nonempty p)) [
    | inl full ↦ let (matches, e) = g.0 full in ground (arith, e, loop_patterns-any s ps g.1)
    | inr empty ↦ ground (arith, loop_patterns-any s ps g.1)
  ]

  blocked-any :
      (s : Bytes) (ps : List Bytes)
      → All IsGlob ps
      → (if nonempty ps then loop_patterns env s ps else ok false) ≡ ok (any (covers s) ps)
  blocked-any s [] g = refl
  blocked-any s (p ∷ ps) g = loop_patterns-any s (p ∷ ps) g

  check_allowlist-any :
      (s : Bytes) (ps : List Bytes)
      → All IsGlob ps
      → check_allowlist env s ps ≡ ok (is_empty ps || any (covers s) ps)
  unfolding check_allowlist
  check_allowlist-any s [] g = refl
  check_allowlist-any s (p ∷ ps) g = loop_patterns-any s (p ∷ ps) g

  -- Where every pattern of the context's two lists is a glob, a metric is allowed exactly when no
  -- pattern of the blocklist covers its name and the allowlist is empty or one of its patterns
  -- does: the blocklist wins, and the filter does not panic.
  pub is_metric_allowed-covers :
      (ctx : Context) (s : Bytes)
      → All IsGlob (allowlist_of env ctx)
      → All IsGlob (blocklist_of env ctx)
      → is_metric_allowed env ctx s
        ≡ ok (
            not (any (covers s) (blocklist_of env ctx))
            && (is_empty (allowlist_of env ctx) || any (covers s) (allowlist_of env ctx)))
  unfolding is_metric_allowed
  is_metric_allowed-covers ctx s a b = ground (
    arith,
    blocked-any s (blocklist_of env ctx) b,
    check_allowlist-any s (allowlist_of env ctx) a,
  )
