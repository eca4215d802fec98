-- ===== src/Export/Names.antt =====
-- executors/utils.go: names without the characters that the receivers refuse.
use aerospike_prometheus_exp.Base.{ℕ, Bool, ◌||◌, [], ◌∷◌, Bytes, ◌==◌, if◌then◌else◌}

-- A `strings.Replacer` of single characters for one.
abbrev pub replace_each : (ℕ → Bool) → ℕ → Bytes → Bytes
replace_each p c [] = []
replace_each p c (x ∷ s) = (if p x then c else x) ∷ replace_each p c s

unfoldable pub normalize_desc : Bytes → Bytes
normalize_desc s = replace_each (λ c. c == b'_' || (c == b'-' || c == b'.')) b' ' s

unfoldable pub normalize_metric : Bytes → Bytes
normalize_metric s = replace_each (λ c. c == b'.' || (c == b'-' || c == b' ')) b'_' s
