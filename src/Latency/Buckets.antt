-- ===== src/Latency/Buckets.antt =====
-- The buckets of one histogram, as both parsers of latency_info_parser.go read them.
pub mod Paired
use aerospike_prometheus_exp.Base.{
  ℕ, zero, suc, ◌+◌, ◌^◌, ◌≡◌, refl, sym, ap, ◌∙◌, subst, Bool, true, false, ◌&&◌, List, [], ◌∷◌,
  ◌++◌, Option, none, some, Bytes, bytes, itoa, trim, any, length, length-append, Go, ok, panic,
  ◌>>=◌, >>=-eq-ok, ok-injective, index, arith, ltb, leb, if◌then◌else◌, ◌==◌, Bool-cases,
  Option-cases, inl, inr, ◌-◌, take, map,
}
use mathlib.Core.List.{append-nil, append_assoc}
use aerospike_prometheus_exp.Env.{Env}

-- `bucketLabels` and `bucketValuesFloat`
pub record Buckets (F : Type 0) : Type 0 where
  pub labels : List Bytes
  pub values : List F

-- `strconv.Itoa(1 << k)` on a 64-bit int
unfoldable pub itoa_shift : ℕ → Bytes
unfolding itoa
itoa_shift k =
    if ltb k 63 then itoa (2 ^ k) else if k == 63 then bytes "-9223372036854775808" else bytes "0"

-- The cutset `><=ms`
abbrev is_label_mark : ℕ → Bool
is_label_mark c = any (λ m. c == m) (bytes "><=ms")

-- The label of bucket `i`: a power of two in the newer format, which has no labels of its own.
abbrev pub power_label : ℕ → Go Bytes
power_label i = ok (itoa_shift (i - 1))

-- In the older format the label is read, and one that is missing panics.
abbrev pub read_label : List Bytes → ℕ → Go Bytes
read_label labels i = index labels i >>= λ l. ok (trim is_label_mark l)

module _ (env : Env) where
  open env use {Float, sub, mul, div, of_nat, parse_float}

  -- A percentage above a bound, as the count of operations below it.
  abbrev pub bucket_value : Float → Float → Float
  bucket_value total val = sub total (div (mul val total) (of_nat 100))

  abbrev pub push : Buckets Float → Bytes → Float → Buckets Float
  push b l v = record { labels = b.labels ++ l ∷ []; values = b.values ++ v ∷ [] }

  -- The loop over `bucketValues[i:]`: it stops at a value that is no number, and at the limit.
  unfoldable pub read_buckets :
      (ℕ → Go Bytes) → ℕ → Float → ℕ → List Bytes → Buckets Float → Go (Buckets Float)
  read_buckets label limit total i [] b = ok b
  read_buckets label limit total i (s ∷ vals) b = elim (parse_float s) [
    | none ↦ ok b
    | some val ↦ label i >>= λ l. elim (ltb 0 limit && leb limit i) [
      | true ↦ ok (push b l (bucket_value total val))
      | false ↦ read_buckets label limit total (i + 1) vals (push b l (bucket_value total val))
    ]
  ]

  -- The first value is the total, under the label `+Inf`; `none` where it is no number.
  unfoldable pub read_all_buckets : (ℕ → Go Bytes) → ℕ → List Bytes → Go (Option (Buckets Float))
  read_all_buckets label limit [] = panic
  read_all_buckets label limit (s ∷ vals) = elim (parse_float s) [
    | none ↦ ok none
    | some total ↦
        read_buckets label limit total 1 vals
          (record { labels = bytes "+Inf" ∷ []; values = total ∷ [] })
        >>= λ b. ok (some b)
  ]

  read_buckets-none :
      (label : ℕ → Go Bytes) (limit : ℕ) (total : Float) (i : ℕ) (s : Bytes) (vals : List Bytes)
      (b : Buckets Float)
      → parse_float s ≡ none
      → read_buckets label limit total i (s ∷ vals) b ≡ ok b
  unfolding read_buckets
  read_buckets-none label limit total i s vals b e = rw (e, read_buckets)

  read_buckets-some :
      (label : ℕ → Go Bytes) (limit : ℕ) (total : Float) (i : ℕ) (s : Bytes) (vals : List Bytes)
      (b : Buckets Float) {val : Float}
      → parse_float s ≡ some val
      → read_buckets label limit total i (s ∷ vals) b ≡ (
          label i >>= λ l.
          if ltb 0 limit && leb limit i
          then ok (push b l (bucket_value total val))
          else read_buckets label limit total (i + 1) vals (push b l (bucket_value total val)))
  unfolding read_buckets
  read_buckets-some label limit total i s vals b e = rw (e, read_buckets) (ground arith)

  -- The bucket labels of the newer format: `1`, `2`, `4`, ...
  abbrev pub powers : ℕ → List Float → List Bytes
  powers k [] = []
  powers k (f ∷ fs) = itoa_shift k ∷ powers (k + 1) fs

  abbrev pub Parses : List Bytes → List Float → Type 0
  Parses [] [] = Unit
  Parses (s ∷ ss) (f ∷ fs) = (parse_float s ≡ some f) × Parses ss fs
  Parses _ _ = ⊥

  -- What a loop adds to its buckets.
  abbrev extend : Buckets Float → ℕ → Float → List Float → Buckets Float
  extend b k total fs = record {
    labels = b.labels ++ powers k fs;
    values = b.values ++ map (bucket_value total) fs;
  }

  extend-push :
      (b : Buckets Float) (k : ℕ) (total f : Float) (fs : List Float)
      → extend (push b (itoa_shift k) (bucket_value total f)) (k + 1) total fs
        ≡ extend b k total (f ∷ fs)
  extend-push b k total f fs = rw (append_assoc, append_assoc)

  extend-nil : (b : Buckets Float) (k : ℕ) (total : Float) → extend b k total [] ≡ b
  extend-nil b k total = simp append-nil

  at_limit : (limit k : ℕ) → limit ≡ k + 1 + 0 → (ltb 0 limit && leb limit (k + 1)) ≡ true
  at_limit limit k e = ground arith

  below_limit : (limit k j : ℕ) → limit ≡ k + 1 + suc j → (ltb 0 limit && leb limit (k + 1)) ≡ false
  below_limit limit k j e = ground arith

  pred_suc : (k : ℕ) → k + 1 - 1 ≡ k
  pred_suc k = omega arith

  read_buckets-limit :
      (limit : ℕ) (total : Float) (k j : ℕ) (vals : List Bytes) (fs : List Float)
      (b : Buckets Float)
      → Parses vals fs
      → limit ≡ k + 1 + j
      → read_buckets power_label limit total (k + 1) vals b
        ≡ ok (extend b k total (take (suc j) fs))
  read_buckets-limit limit total k j [] [] b p e =
      unfold read_buckets in ap ok (sym (extend-nil b k total))
  read_buckets-limit limit total k zero (s ∷ vals) (f ∷ fs) b p e =
      read_buckets-some power_label limit total (k + 1) s vals b p.0
      ∙ rw (at_limit limit k e) (rw pred_suc)
  read_buckets-limit limit total k (suc j) (s ∷ vals) (f ∷ fs) b p e =
      read_buckets-some power_label limit total (k + 1) s vals b p.0
      ∙ rw (below_limit limit k j e) (
          rw pred_suc (
            read_buckets-limit limit total (k + 1) j vals fs _ p.1 (omega arith)
            ∙ ap ok (extend-push b k total f (take (suc j) fs))))
  read_buckets-limit limit total k j [] (f ∷ fs) b p e = elim p [ ]
  read_buckets-limit limit total k j (s ∷ vals) [] b p e = elim p [ ]

  read_buckets-all :
      (total : Float) (k : ℕ) (vals : List Bytes) (fs : List Float) (b : Buckets Float)
      → Parses vals fs
      → read_buckets power_label 0 total (k + 1) vals b ≡ ok (extend b k total fs)
  read_buckets-all total k [] [] b p = unfold read_buckets in ap ok (sym (extend-nil b k total))
  read_buckets-all total k (s ∷ vals) (f ∷ fs) b p =
      read_buckets-some power_label 0 total (k + 1) s vals b p.0
      ∙ rw pred_suc
          (read_buckets-all total (k + 1) vals fs _ p.1 ∙ ap ok (extend-push b k total f fs))
  read_buckets-all total k [] (f ∷ fs) b p = elim p [ ]
  read_buckets-all total k (s ∷ vals) [] b p = elim p [ ]

  -- `latency_buckets_count`, where 0 sets no limit
  abbrev pub within_limit : ℕ → List Float → List Float
  within_limit zero fs = fs
  within_limit (suc limit) fs = take (suc limit) fs

  pub read_all_buckets-eq :
      (limit : ℕ) (s : Bytes) (vals : List Bytes) (total : Float) (fs : List Float)
      → parse_float s ≡ some total
      → Parses vals fs
      → read_all_buckets power_label limit (s ∷ vals)
        ≡ ok (
            some (record {
              labels = bytes "+Inf" ∷ powers 0 (within_limit limit fs);
              values = total ∷ map (bucket_value total) (within_limit limit fs);
            }))
  unfolding read_all_buckets
  read_all_buckets-eq zero s vals total fs e p =
      rw (e, read_all_buckets) (rw (read_buckets-all total 0 vals fs _ p))
  read_all_buckets-eq (suc limit) s vals total fs e p =
      rw (e, read_all_buckets)
        (rw (read_buckets-limit (suc limit) total 0 limit vals fs _ p (omega arith)))
