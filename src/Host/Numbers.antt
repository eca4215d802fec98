-- ===== src/Host/Numbers.antt =====
-- strconv and fmt, as host_sysinfo_utils.go uses them.
use aerospike_prometheus_exp.Base.{
  ℕ, zero, suc, ◌+◌, ◌-◌, ◌*◌, ◌/◌, ◌%◌, ◌^◌, ◌&&◌, List, [], ◌∷◌, ◌++◌, Option, none, some, Bytes,
  bytes, leb, ltb, ◌==◌, itoa, is_space, is_empty, if◌then◌else◌,
}

-- An integer of 64 bits.
pub data ℤ : Type 0 where
  pos : ℕ → ℤ
  negsuc : ℕ → ℤ

-- uint64(i)
abbrev pub to_uint64 : ℤ → ℕ
to_uint64 (pos n) = n % 2 ^ 64
to_uint64 (negsuc n) = 2 ^ 64 - suc n

abbrev digits_from : ℕ → Bytes → Option ℕ
digits_from n [] = some n
digits_from n (c ∷ s) =
    let rest = digits_from (n * 10 + (c - b'0')) s in
    if leb b'0' c && leb c b'9' then rest else none

abbrev decimal : Bytes → Option ℕ
decimal [] = none
decimal (c ∷ s) = digits_from 0 (c ∷ s)

abbrev below : ℕ → Option ℕ → Option ℕ
below bound none = none
below bound (some n) = if ltb n bound then some n else none

abbrev map_option : {A B : Type 0} → (A → B) → Option A → Option B
map_option f none = none
map_option f (some a) = some (f a)

abbrev negated : ℕ → ℤ
negated zero = pos 0
negated (suc n) = negsuc n

-- strconv.ParseInt(s, 10, 64), `none` for its error
unfoldable pub parse_int : Bytes → Option ℤ
parse_int [] = none
parse_int (c ∷ s) =
    if c == b'-'
    then map_option negated (below (2 ^ 63 + 1) (decimal s))
    else if c == b'+'
    then map_option pos (below (2 ^ 63) (decimal s))
    else map_option pos (below (2 ^ 63) (decimal (c ∷ s)))

-- strconv.ParseUint(s, 10, 64), `none` for its error
unfoldable pub parse_uint : Bytes → Option ℕ
parse_uint s = below (2 ^ 64) (decimal s)

-- strconv.FormatInt(i, 10)
unfoldable pub format_int : ℤ → Bytes
format_int (pos n) = itoa n
format_int (negsuc n) = b'-' ∷ itoa (suc n)

abbrev hex_digit : ℕ → ℕ
hex_digit n = if ltb n 10 then b'0' + n else b'a' + (n - 10)

-- At least `width` digits, and at most `fuel`.
abbrev hex_onto : ℕ → ℕ → ℕ → Bytes → Bytes
hex_onto zero width n out = out
hex_onto (suc fuel) width n out =
    let rest = hex_onto fuel (width - 1) (n / 16) (hex_digit (n % 16) ∷ out) in
    if n == 0 && width == 0 then out else rest

-- `0x%02x` and `0x%08x`, by the width, of a number below 2^64.
unfoldable pub format_hex : ℕ → ℕ → Bytes
format_hex width n = bytes "0x" ++ hex_onto 16 width n []

abbrev push_word : Bytes → List Bytes → List Bytes
push_word w ws = if is_empty w then ws else w ∷ ws

abbrev fields_from : Bytes → Bytes → List Bytes
fields_from w [] = push_word w []
fields_from w (c ∷ s) =
    let ended = fields_from [] s in
    let longer = fields_from (w ++ c ∷ []) s in if is_space c then push_word w ended else longer

-- strings.Fields
unfoldable pub fields : Bytes → List Bytes
fields s = fields_from [] s
