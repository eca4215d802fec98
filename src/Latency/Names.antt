-- ===== src/Latency/Names.antt =====
-- `readNamespaceAndOperation` of latency_info_parser.go.
use aerospike_prometheus_exp.Base.{
  ℕ, ◌<◌, ◌≡◌, ap, [], ◌∷◌, ◌++◌, Option, none, some, Bytes, bytes, length, equal, arith, Free,
  Option-cases, inl, inr,
}
use aerospike_prometheus_exp.Latency.Reader.{
  ReadError, peek_and_expect, expect, read_until, Read, length-read_until_found, length-expect,
  read_until-append,
}

infixl 5 ◌>>=◌
abbrev ◌>>=◌ : {A B : Type 0} → Option A → (A → Option B) → Option B
none >>= f = none
some a >>= f = f a

abbrev accept : Read → Option (Bytes × Bytes)
accept r = elim r.err [ some e ↦ none | none ↦ some (r.text, r.rest) ]

-- `ReadUntil` and `Expect` where any error ends the function.
unfoldable pub until : ℕ → Bytes → Option (Bytes × Bytes)
until delim ip = accept (read_until delim ip)

must_expect : Bytes → Bytes → Option Bytes
must_expect s ip = let (e, rest) = expect s ip in elim e [ some _ ↦ none | none ↦ some rest ]

-- Behind the attempt to read `{`: a section that does not begin with it is skipped.
after_brace : Option ReadError × Bytes → Option (Bytes × Bytes × Bytes)
after_brace (some e, ip) = do skipped ← until b';' ip; some ([], [], skipped.1)
after_brace (none, ip) = do
  ns ← until b'}' ip
  rest ← must_expect (bytes "-") ns.1
  op ← until b':' rest
  some (ns.0, op.0, op.1)

-- The namespace, the operation and what is left to read; `none` for any error.
unfoldable pub read_namespace_and_operation : Bytes → Option (Bytes × Bytes × Bytes)
unfolding after_brace must_expect
read_namespace_and_operation ip = elim (peek_and_expect (bytes "batch-index") ip) [
  | none ↦ until b':' ip >>= λ op. some ([], op.0, op.1)
  | some e ↦ after_brace (expect (bytes "{") ip)
]

pub length-until :
    (delim : ℕ) (ip t rest : Bytes) → until delim ip ≡ some (t, rest) → length rest < length ip
unfolding until
length-until delim ip t rest h = ground (arith, length-read_until_found delim ip)

-- A field whose delimiter is ahead is read whole.
pub until-append :
    (delim : ℕ) (s rest : Bytes) → Free delim s → until delim (s ++ delim ∷ rest) ≡ some (s, rest)
unfolding until
until-append delim s rest f = ap accept (read_until-append delim s rest f)

-- Every section that is read, or skipped, takes at least one byte.
length-after_brace :
    (e : Option ReadError) (ip ns op rest : Bytes)
    → after_brace (e, ip) ≡ some (ns, op, rest)
    → length rest < length ip
unfolding after_brace must_expect
length-after_brace (some e) ip ns op rest h = elim (Option-cases (until b';' ip)) [
  | inl u ↦ absurd (ground (arith, u))
  | inr ((t, r), u) ↦ ground (arith, u, length-until b';' ip t r u)
]
length-after_brace none ip ns op rest h = elim (Option-cases (until b'}' ip)) [
  | inl u ↦ absurd (ground (arith, u))
  | inr ((t, r), u) ↦ elim (Option-cases (until b':' (expect (bytes "-") r).1)) [
    | inl v ↦ absurd (ground (arith, u, v))
    | inr ((t', r'), v) ↦ ground (
      arith,
      u,
      v,
      length-until b'}' ip t r u,
      length-until b':' _ t' r' v,
      length-expect (bytes "-") r,
    )
  ]
]

pub length-read_namespace_and_operation :
    (ip ns op rest : Bytes)
    → read_namespace_and_operation ip ≡ some (ns, op, rest)
    → length rest < length ip
unfolding read_namespace_and_operation
length-read_namespace_and_operation ip ns op rest h =
    elim (Option-cases (peek_and_expect (bytes "batch-index") ip)) [
      | inl ahead ↦
          let h' : (until b':' ip >>= λ op. some ([], op.0, op.1)) ≡ some (ns, op, rest) =
            rw (ahead, read_namespace_and_operation) at h in
          elim (Option-cases (until b':' ip)) [
            | inl u ↦ absurd (ground (arith, u, h'))
            | inr ((t, r), u) ↦ ground (arith, u, h', length-until b':' ip t r u)
          ]
      | inr (e, other) ↦
          let h' : after_brace (expect (bytes "{") ip) ≡ some (ns, op, rest) =
            rw (other, read_namespace_and_operation) at h in
          omega (
            arith,
            length-after_brace (expect (bytes "{") ip).0 (expect (bytes "{") ip).1 ns op rest h',
            length-expect (bytes "{") ip,
          )
    ]

-- `{ns}-op:` is read as it stands.
pub read_namespace_and_operation-append :
    (ns op rest : Bytes)
    → Free b'}' ns
    → Free b':' op
    → read_namespace_and_operation (b'{' ∷ (ns ++ b'}' ∷ b'-' ∷ (op ++ b':' ∷ rest)))
      ≡ some (ns, op, rest)
unfolding read_namespace_and_operation peek_and_expect expect equal
read_namespace_and_operation-append ns op rest f g =
    ground (arith, until-append b'}' ns (b'-' ∷ (op ++ b':' ∷ rest)) f, until-append b':' op rest g)
