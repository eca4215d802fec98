-- ===== src/Stats/Cache.antt =====
-- The caches of metric definitions that the processors keep, and the rounds of their loops.
pub mod Labelled
pub mod Kept
use aerospike_prometheus_exp.Base.{
  ◌≡◌, refl, sym, ap, subst, ◌∙◌, Bool, true, false, List, [], ◌∷◌, ◌++◌, Option, none, some, Bytes,
  Map, lookup, insert, lookup-insert, equal, equal_iff, Go, ok, panic, ◌>>=◌, for_each, All,
  All-append, arith, if◌then◌else◌, length, Bool-cases, inl, inr,
}
use aerospike_prometheus_exp.Env.{Env}
use aerospike_prometheus_exp.Stats.Metric.{Context, AerospikeStat, update_values, IsLabelled}
use aerospike_prometheus_exp.Stats.Filter.{is_metric_allowed, new_aerospike_stat}

-- The variables of a processor's loop: the map that it keeps across refreshes, and what is sent.
pub record Sending (F : Type 0) : Type 0 where
  pub cache : Map (AerospikeStat F)
  pub sent : List (AerospikeStat F)

module _ (env : Env) where
  open env use {Float}

  -- `allowed := isMetricAllowed(ctx, raw); NewAerospikeStat(ctx, name, allowed)`
  abbrev pub make : Context → Bytes → Bytes → Go (AerospikeStat Float)
  make ctx raw name = do
    allowed ← is_metric_allowed env ctx raw
    ok (new_aerospike_stat env ctx name allowed)

  -- What a lookup found, or else what is made, which the cache then keeps.
  remember :
      Bytes
      → Map (AerospikeStat Float)
      → Option (AerospikeStat Float)
      → Go (AerospikeStat Float)
      → Go (AerospikeStat Float × Map (AerospikeStat Float))
  remember key cache (some m) made = ok (m, cache)
  remember key cache none made = made >>= λ m. ok (m, insert key m cache)

  -- `asMetric, exists := cache[key]; if !exists { ...; cache[key] = asMetric }`
  unfoldable pub get_or_create :
      Context
      → Bytes
      → Bytes
      → Bytes
      → Map (AerospikeStat Float)
      → Go (AerospikeStat Float × Map (AerospikeStat Float))
  unfolding remember
  get_or_create ctx key raw name cache = remember key cache (lookup key cache) (make ctx raw name)

  -- The copy that is sent has the values; the one in the cache keeps none.
  unfoldable pub send :
      Context
      → Bytes
      → Bytes
      → Bytes
      → Float
      → List Bytes
      → List Bytes
      → Sending Float
      → Go (Sending Float)
  unfolding get_or_create
  send ctx key raw name v ls lvs st = get_or_create ctx key raw name st.cache >>= λ found.
      ok (record { cache = found.1; sent = st.sent ++ update_values v ls lvs found.0 ∷ [] })

  -- `pv, err := TryConvert(value); if err != nil { continue }`, and then the metric is sent.
  unfoldable pub send_converted :
      Context
      → Bytes
      → Bytes
      → Bytes
      → Option Float
      → List Bytes
      → List Bytes
      → Sending Float
      → Go (Sending Float)
  unfolding send
  send_converted ctx key raw name none ls lvs st = ok st
  send_converted ctx key raw name (some pv) ls lvs st = send ctx key raw name pv ls lvs st

  -- Every entry of the cache is what would be made for its key afresh.
  abbrev pub IsCoherent : (Bytes → Go (AerospikeStat Float)) → Map (AerospikeStat Float) → Type 0
  IsCoherent recipe cache =
      (k : Bytes) (m : AerospikeStat Float) → lookup k cache ≡ some m → recipe k ≡ ok m

  -- A run with the cache and one without it: both panic, or both send the same and the cache is
  -- coherent after it.
  abbrev pub Agrees :
      (Bytes → Go (AerospikeStat Float))
      → Go (Sending Float)
      → Go (List (AerospikeStat Float))
      → Type 0
  Agrees recipe (ok st) (ok sent) = (st.sent ≡ sent) × IsCoherent recipe st.cache
  Agrees recipe panic panic = Unit
  Agrees recipe _ _ = ⊥

  -- What a round sends without a cache.
  abbrev pub send_fresh :
      Context
      → Bytes
      → Bytes
      → Float
      → List Bytes
      → List Bytes
      → List (AerospikeStat Float)
      → Go (List (AerospikeStat Float))
  send_fresh ctx raw name v ls lvs sent =
      make ctx raw name >>= λ m. ok (sent ++ update_values v ls lvs m ∷ [])

  abbrev pub fresh_converted :
      Context
      → Bytes
      → Bytes
      → Option Float
      → List Bytes
      → List Bytes
      → List (AerospikeStat Float)
      → Go (List (AerospikeStat Float))
  fresh_converted ctx raw name none ls lvs sent = ok sent
  fresh_converted ctx raw name (some pv) ls lvs sent = send_fresh ctx raw name pv ls lvs sent

  pub IsCoherent-empty : (recipe : Bytes → Go (AerospikeStat Float)) → IsCoherent recipe []
  unfolding lookup
  IsCoherent-empty recipe k m e = absurd (cc)

  pub IsCoherent-insert :
      (recipe : Bytes → Go (AerospikeStat Float)) (k : Bytes) (m : AerospikeStat Float)
      (cache : Map (AerospikeStat Float))
      → IsCoherent recipe cache
      → recipe k ≡ ok m
      → IsCoherent recipe (insert k m cache)
  IsCoherent-insert recipe k m cache c e j n h =
      let looked_up = lookup-insert {V = AerospikeStat Float} k j m cache in
      elim (Bool-cases (equal k j)) [
        | inl same ↦
            let kj : k ≡ j = (equal_iff k j).0 same in
            let mn : some m ≡ some n = sym (rw same at looked_up) ∙ h in rw (← kj) (e ∙ cc)
        | inr other ↦ c j n (sym (rw other at looked_up) ∙ h)
      ]

  remember-Agrees :
      (recipe : Bytes → Go (AerospikeStat Float)) (key : Bytes) (v : Float) (ls lvs : List Bytes)
      (st : Sending Float) (found : Option (AerospikeStat Float)) (made : Go (AerospikeStat Float))
      → ((m : AerospikeStat Float) → found ≡ some m → made ≡ ok m)
      → recipe key ≡ made
      → IsCoherent recipe st.cache
      → Agrees recipe
          (remember key st.cache found made >>= λ r.
            ok (record { cache = r.1; sent = st.sent ++ update_values v ls lvs r.0 ∷ [] }))
          (made >>= λ m. ok (st.sent ++ update_values v ls lvs m ∷ []))
  unfolding remember
  remember-Agrees recipe key v ls lvs st (some m) made h e c = rw (h m refl) (refl, c)
  remember-Agrees recipe key v ls lvs st none (ok m) h e c =
      (refl, IsCoherent-insert recipe key m st.cache c e)
  remember-Agrees recipe key v ls lvs st none panic h e c = tt

  pub send-Agrees :
      (recipe : Bytes → Go (AerospikeStat Float)) (ctx : Context) (key raw name : Bytes) (v : Float)
      (ls lvs : List Bytes) (st : Sending Float)
      → recipe key ≡ make ctx raw name
      → IsCoherent recipe st.cache
      → Agrees recipe (send ctx key raw name v ls lvs st) (send_fresh ctx raw name v ls lvs st.sent)
  unfolding send
  send-Agrees recipe ctx key raw name v ls lvs st e c =
      remember-Agrees recipe key v ls lvs st (lookup key st.cache) (make ctx raw name)
        (λ m found. sym e ∙ c key m found) e c

  pub send_converted-Agrees :
      (recipe : Bytes → Go (AerospikeStat Float)) (ctx : Context) (key raw name : Bytes)
      (o : Option Float) (ls lvs : List Bytes) (st : Sending Float)
      → recipe key ≡ make ctx raw name
      → IsCoherent recipe st.cache
      → Agrees recipe
          (send_converted ctx key raw name o ls lvs st)
          (fresh_converted ctx raw name o ls lvs st.sent)
  send_converted-Agrees recipe ctx key raw name none ls lvs st e c =
      unfold send_converted in (refl, c)
  send_converted-Agrees recipe ctx key raw name (some pv) ls lvs st e c =
      unfold send_converted in send-Agrees recipe ctx key raw name pv ls lvs st e c

  -- A loop whose every round agrees, agrees.
  pub for_each-Agrees :
      (recipe : Bytes → Go (AerospikeStat Float)) {A : Type 0}
      (body : A → Sending Float → Go (Sending Float))
      (fresh : A → List (AerospikeStat Float) → Go (List (AerospikeStat Float)))
      → ((x : A) (st : Sending Float)
          → IsCoherent recipe st.cache
          → Agrees recipe (body x st) (fresh x st.sent))
      → (xs : List A) (st : Sending Float) → IsCoherent recipe st.cache
      → Agrees recipe (for_each body xs st) (for_each fresh xs st.sent)
  for_each-Agrees recipe body fresh agree [] st c = (refl, c)
  for_each-Agrees recipe body fresh agree (x ∷ xs) st c =
      bind (body x st) (fresh x st.sent) (agree x st c) (for_each-Agrees recipe body fresh agree xs)
    where
      bind :
          (run : Go (Sending Float)) (spec : Go (List (AerospikeStat Float)))
          → Agrees recipe run spec
          → ((u : Sending Float)
              → IsCoherent recipe u.cache
              → Agrees recipe (for_each body xs u) (for_each fresh xs u.sent))
          → Agrees recipe (run >>= for_each body xs) (spec >>= for_each fresh xs)
      bind (ok u) (ok sent) (e, k) ih = rw (← e) (ih u k)
      bind panic panic a ih = tt
      bind (ok u) panic a ih = elim a [ ]
      bind panic (ok sent) a ih = elim a [ ]
