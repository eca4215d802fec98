-- ===== src/Commons/Sanitize.antt =====
-- `SanitizeUTF8` of utils.go, with utf8.ValidString and the decoding of strings.Map.
pub mod WellFormed
use aerospike_prometheus_exp.Base.{
  ℕ, ◌≡◌, refl, Bool, true, false, ◌&&◌, ◌||◌, [], ◌∷◌, ◌++◌, Bytes, leb, ltb, ◌==◌, if◌then◌else◌,
}

abbrev within : ℕ → ℕ → ℕ → Bool
within lo hi c = leb lo c && leb c hi

-- The sequences of one to four bytes that encode a rune.
unfoldable pub one : ℕ → Bool
one c = ltb c 128

unfoldable pub two : ℕ → ℕ → Bool
two c d = within 194 223 c && within 128 191 d

unfoldable pub three : ℕ → ℕ → ℕ → Bool
three c d e =
    ((c == 224 && within 160 191 d)
      || ((within 225 236 c && within 128 191 d)
          || ((c == 237 && within 128 159 d) || (within 238 239 c && within 128 191 d))))
    && within 128 191 e

unfoldable pub four : ℕ → ℕ → ℕ → ℕ → Bool
four c d e f =
    ((c == 240 && within 144 191 d)
      || ((within 241 243 c && within 128 191 d) || (c == 244 && within 128 143 d)))
    && (within 128 191 e && within 128 191 f)

-- utf8.ValidString
unfoldable pub valid_string : Bytes → Bool
unfolding one two three four
valid_string [] = true
valid_string (c ∷ []) = one c
valid_string (c ∷ d ∷ []) = let v1 = valid_string (d ∷ []) in if one c then v1 else two c d
valid_string (c ∷ d ∷ e ∷ []) =
    let v1 = valid_string (d ∷ e ∷ []) in
    let v2 = valid_string (e ∷ []) in if one c then v1 else if two c d then v2 else three c d e
valid_string (c ∷ d ∷ e ∷ f ∷ s) =
    let v1 = valid_string (d ∷ e ∷ f ∷ s) in
    let v2 = valid_string (e ∷ f ∷ s) in
    let v3 = valid_string (f ∷ s) in
    let v4 = valid_string s in
    if one c then v1 else if two c d then v2 else if three c d e then v3 else four c d e f && v4

-- The rune 65533
abbrev pub replacement : Bytes
replacement = 239 ∷ 191 ∷ 189 ∷ []

-- `strings.Map(fixUtf, lv)`: a byte that begins no rune is replaced, and a rune stays.
unfoldable pub map_runes : Bytes → Bytes
unfolding one two three four
map_runes [] = []
map_runes (c ∷ []) = if one c then c ∷ [] else replacement
map_runes (c ∷ d ∷ []) =
    let r1 = map_runes (d ∷ []) in
    if one c then c ∷ r1 else if two c d then c ∷ d ∷ [] else replacement ++ r1
map_runes (c ∷ d ∷ e ∷ []) =
    let r1 = map_runes (d ∷ e ∷ []) in
    let r2 = map_runes (e ∷ []) in
    if one c
    then c ∷ r1
    else if two c d
    then c ∷ d ∷ r2
    else if three c d e
    then c ∷ d ∷ e ∷ []
    else replacement ++ r1
map_runes (c ∷ d ∷ e ∷ f ∷ s) =
    let r1 = map_runes (d ∷ e ∷ f ∷ s) in
    let r2 = map_runes (e ∷ f ∷ s) in
    let r3 = map_runes (f ∷ s) in
    let r4 = map_runes s in
    if one c
    then c ∷ r1
    else if two c d
    then c ∷ d ∷ r2
    else if three c d e
    then c ∷ d ∷ e ∷ r3
    else if four c d e f
    then c ∷ d ∷ e ∷ f ∷ r4
    else replacement ++ r1

unfoldable pub sanitize_utf8 : Bytes → Bytes
unfolding valid_string map_runes
sanitize_utf8 s = if valid_string s then s else map_runes s
