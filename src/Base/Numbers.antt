-- ===== src/Base/Numbers.antt =====
-- Decimal printing of numbers below 2^64.
use Prim.Native.Nat.{ℕ, zero, suc, ◌+◌, ◌/◌, ◌%◌}
use mathlib.Core.List.{[], ◌∷◌}
use aerospike_prometheus_exp.Base.Tests.{◌==◌, if◌then◌else◌}
use aerospike_prometheus_exp.Base.Text.{Bytes}

digits_onto : ℕ → ℕ → Bytes → Bytes
digits_onto zero n out = out
digits_onto (suc f) n out =
    let out' = (b'0' + n % 10) ∷ out in
    let rest = digits_onto f (n / 10) out' in if n / 10 == 0 then out' else rest

-- strconv.Itoa and strconv.FormatUint(n, 10): a number below 2^64 has at most twenty digits.
unfoldable pub itoa : ℕ → Bytes
unfolding digits_onto
itoa n = digits_onto 20 n []
