-- ===== src/Latency/Parser/Runs.antt =====
-- The loops of the parsers as Go runs them, with no bound on their turns.
use aerospike_prometheus_exp.Base.{
  ℕ, zero, suc, ◌+◌, ◌<◌, ◌≡◌, refl, [], Option, none, some, Bytes, length, Go, ok, panic, arith,
}
use aerospike_prometheus_exp.Env.{Env}
use aerospike_prometheus_exp.Latency.Parser.{
  Latencies, Section, Round, read_section, read_section_legacy, round, rounds, or_panic,
  parse_latency_info, parse_latency_info_legacy,
}
use aerospike_prometheus_exp.Latency.Parser.Ends.{
  Leaves, Reads, round-Reads, read_section-Leaves, read_section_legacy-Leaves,
}

module _ (env : Env) (limit : ℕ) where
  open env use {Float}

  -- The loop as Go runs it: turns follow one another until one breaks, or panics.
  pub data Runs (section : Section env limit)
      : Bytes → Latencies Float → Go (Latencies Float) → Type 0 where
    breaks :
        {ip : Bytes} {res : Latencies Float}
        → round env limit section ip res ≡ ok none
        → Runs section ip res (ok res)
    crashes :
        {ip : Bytes} {res : Latencies Float}
        → round env limit section ip res ≡ panic
        → Runs section ip res panic
    turns :
        {ip rest : Bytes} {res res' : Latencies Float} {out : Go (Latencies Float)}
        → round env limit section ip res ≡ ok (some (rest, res'))
        → Runs section rest res' out
        → Runs section ip res out

  abbrev Ended :
      Section env limit → Bytes → Latencies Float → Option (Go (Latencies Float)) → Type 0
  Ended section ip res none = ⊥
  Ended section ip res (some out) = Runs section ip res out

  -- How a section's reader must behave for the loop to end.
  abbrev Shrinks : Section env limit → Type 0
  Shrinks section =
      (ns op ip : Bytes) (res : Latencies Float)
      → Leaves env limit (length ip) (section ns op ip res)

  rounds-Ended :
      (section : Section env limit)
      → Shrinks section
      → (fuel : ℕ) (ip : Bytes) (res : Latencies Float) → length ip < fuel
      → Ended section ip res (rounds env limit section fuel ip res)
  unfolding rounds
  rounds-Ended section h zero ip res lt = elim lt [ ]
  rounds-Ended section h (suc fuel) ip res lt =
      turn (round env limit section ip res) refl (round-Reads env limit section h ip res)
        (λ rest res' m. rounds-Ended section h fuel rest res' m)
    where
      turn :
          (r : Round Float)
          → round env limit section ip res ≡ r
          → Reads env limit (length ip) r
          → ((rest : Bytes) (res' : Latencies Float)
              → length rest < fuel
              → Ended section rest res' (rounds env limit section fuel rest res'))
          → Ended section ip res (rounds env limit section (suc fuel) ip res)
      turn panic e d ih = rw (e, rounds) (crashes e)
      turn (ok none) e d ih = rw (e, rounds) (breaks e)
      turn (ok (some (rest, res'))) e d ih =
          rw (e, rounds)
            (go_on (rounds env limit section fuel rest res') (ih rest res' (omega arith)))
        where
          go_on :
              (o : Option (Go (Latencies Float)))
              → Ended section rest res' o
              → Ended section ip res o
          go_on none f = f
          go_on (some out) f = turns e f

  Ended-or_panic :
      (section : Section env limit) (ip : Bytes) (o : Option (Go (Latencies Float)))
      → Ended section ip [] o
      → Runs section ip [] (or_panic env limit o)
  Ended-or_panic section ip none h = elim h [ ]
  Ended-or_panic section ip (some out) h = h

  -- On every input the parser's loop ends: its result is that of a finite run of turns, each of
  -- which reads the next section, and the fuel of the model is never used up.
  pub parse_latency_info-Runs :
      (s : Bytes) → Runs (read_section env limit) s [] (parse_latency_info env limit s)
  unfolding parse_latency_info
  parse_latency_info-Runs s = Ended-or_panic (read_section env limit) s _ (
      rounds-Ended (read_section env limit) (read_section-Leaves env limit) (length s + 1) s []
        (omega arith))

  -- On every input the loop of the older format's parser ends, or panics, as a finite run of its
  -- turns does, and the fuel of the model is never used up.
  pub parse_latency_info_legacy-Runs :
      (s : Bytes)
      → Runs (read_section_legacy env limit) s [] (parse_latency_info_legacy env limit s)
  unfolding parse_latency_info_legacy
  parse_latency_info_legacy-Runs s = Ended-or_panic (read_section_legacy env limit) s _ (
      rounds-Ended (read_section_legacy env limit) (read_section_legacy-Leaves env limit)
        (length s + 1) s [] (omega arith))

  -- A run has one result.
  pub Runs-unique :
      {section : Section env limit} {ip : Bytes} {res : Latencies Float}
      {out out' : Go (Latencies Float)}
      → Runs section ip res out
      → Runs section ip res out'
      → out ≡ out'
  Runs-unique (breaks e) (breaks f) = refl
  Runs-unique (breaks e) (crashes f) = absurd (cc)
  Runs-unique (breaks e) (turns f r) = absurd (cc)
  Runs-unique (crashes e) (breaks f) = absurd (cc)
  Runs-unique (crashes e) (crashes f) = refl
  Runs-unique (crashes e) (turns f r) = absurd (cc)
  Runs-unique (turns e r) (breaks f) = absurd (cc)
  Runs-unique (turns e r) (crashes f) = absurd (cc)
  Runs-unique {section} (turns {rest = a} {res' = x} e r) (turns {rest = b} {res' = y} f q) =
      let ab : a ≡ b = cc in let xy : x ≡ y = cc in Runs-unique r (rw (ab, xy) q)
