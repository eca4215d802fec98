-- ===== src/Latency/Reader.antt =====
-- `LatencyInfoParser` of latency_info_parser.go: a `bufio.Reader` over a string, which is here the
-- bytes that are not read yet.
use aerospike_prometheus_exp.Base.{
  ℕ, ◌<◌, ◌≤◌, ◌≡◌, refl, Bool, true, false, [], ◌∷◌, ◌++◌, Option, none, some, Bytes, equal,
  length, take, drop, init, Free, arith, if◌then◌else◌, ◌==◌, ltb, ◌-◌, zero, suc, init-concat,
}

pub data ReadError : Type 0 where
  eof wrong_value : ReadError

-- `PeekAndExpect`: the error, or nothing.
unfoldable pub peek_and_expect : Bytes → Bytes → Option ReadError
peek_and_expect s ip =
    if ltb (length ip) (length s)
    then some eof
    else if equal (take (length s) ip) s
    then none
    else some wrong_value

zeros : ℕ → Bytes
zeros zero = []
zeros (suc n) = 0 ∷ zeros n

-- `Expect`: the error, or nothing, and what is left to read. `Read` may fill a part of the buffer.
unfoldable pub expect : Bytes → Bytes → Option ReadError × Bytes
unfolding zeros
expect s [] = (some eof, [])
expect s (c ∷ ip) =
    let got = take (length s) (c ∷ ip) in
    let rest = drop (length s) (c ∷ ip) in
    if equal (got ++ zeros (length s - length got)) s
    then (none, rest)
    else (some wrong_value, rest)

-- bufio's `ReadBytes`: the bytes up to the delimiter, which is one of them if it was found, and
-- what is left to read.
read_bytes : ℕ → Bytes → Bytes × Bytes × Bool
read_bytes delim [] = ([], [], false)
read_bytes delim (c ∷ s) =
    let (line, rest, found) = read_bytes delim s in
    if c == delim then (c ∷ [], s, true) else (c ∷ line, rest, found)

-- The switch on `len(v)`.
strip_delim : ℕ → Bytes → Bytes
strip_delim delim [] = []
strip_delim delim (c ∷ []) = if c == delim then [] else c ∷ []
strip_delim delim (c ∷ d ∷ v) = init (c ∷ d ∷ v)

pub record Read : Type 0 where
  pub text : Bytes
  pub rest : Bytes
  pub err : Option ReadError

unfoldable pub read_until : ℕ → Bytes → Read
unfolding read_bytes strip_delim
read_until delim ip =
    let (v, rest, found) = read_bytes delim ip in
    record { text = strip_delim delim v; rest = rest; err = if found then none else some eof }

read_bytes-append :
    (delim : ℕ) (s rest : Bytes)
    → Free delim s
    → read_bytes delim (s ++ delim ∷ rest) ≡ (s ++ delim ∷ [], rest, true)
unfolding read_bytes
read_bytes-append delim [] rest f = ground arith
read_bytes-append delim (c ∷ s) rest f = ground (arith, read_bytes-append delim s rest f.1)

read_bytes-Free : (delim : ℕ) (s : Bytes) → Free delim s → read_bytes delim s ≡ (s, [], false)
unfolding read_bytes
read_bytes-Free delim [] f = refl
read_bytes-Free delim (c ∷ s) f = ground (arith, read_bytes-Free delim s f.1)

strip_delim-concat : (delim : ℕ) (s : Bytes) → strip_delim delim (s ++ delim ∷ []) ≡ s
unfolding strip_delim
strip_delim-concat delim [] = ground arith
strip_delim-concat delim (c ∷ []) = refl
strip_delim-concat delim (c ∷ d ∷ s) = init-concat (c ∷ d ∷ s) delim

-- With its delimiter ahead, a field is read whole, and reading goes on behind the delimiter.
pub read_until-append :
    (delim : ℕ) (s rest : Bytes)
    → Free delim s
    → read_until delim (s ++ delim ∷ rest) ≡ record { text = s; rest = rest; err = none }
unfolding read_until
read_until-append delim s rest f =
    rw (read_bytes-append delim s rest f) (rw (strip_delim-concat delim s))

-- Without its delimiter ahead, a field of two bytes or more loses its last byte, nothing is left to
-- read, and the error is that of the input's end.
pub read_until-Free :
    (delim c d : ℕ) (s : Bytes)
    → Free delim (c ∷ d ∷ s)
    → read_until delim (c ∷ d ∷ s) ≡ record { text = init (c ∷ d ∷ s); rest = []; err = some eof }
unfolding read_until
read_until-Free delim c d s f = rw (read_bytes-Free delim (c ∷ d ∷ s) f)

length-read_bytes : (delim : ℕ) (s : Bytes) → length (read_bytes delim s).1 ≤ length s
unfolding read_bytes
length-read_bytes delim [] = omega arith
length-read_bytes delim (c ∷ s) = ground (arith, length-read_bytes delim s)

-- Reading leaves no more than there was, and less if there was something.
pub length-read_until : (delim : ℕ) (ip : Bytes) → length (read_until delim ip).rest ≤ length ip
unfolding read_until
length-read_until delim ip = length-read_bytes delim ip

read_bytes-found :
    (delim : ℕ) (s : Bytes)
    → (read_bytes delim s).2 ≡ true
    → length (read_bytes delim s).1 < length s
unfolding read_bytes
read_bytes-found delim [] h = cc
read_bytes-found delim (c ∷ s) h = ground (arith, read_bytes-found delim s)

pub length-read_until_found :
    (delim : ℕ) (ip : Bytes)
    → (read_until delim ip).err ≡ none
    → length (read_until delim ip).rest < length ip
unfolding read_until
length-read_until_found delim ip h = ground (arith, read_bytes-found delim ip)

length-drop : (n : ℕ) (s : Bytes) → length (drop n s) ≤ length s
length-drop zero s = omega arith
length-drop (suc n) [] = omega arith
length-drop (suc n) (c ∷ s) = omega (arith, length-drop n s)

pub length-expect : (s ip : Bytes) → length (expect s ip).1 ≤ length ip
unfolding expect
length-expect s [] = omega arith
length-expect s (c ∷ ip) = ground (arith, length-drop (length s) (c ∷ ip))
