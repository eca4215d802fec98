-- ===== src/Base/Text.antt =====
-- Go strings as lists of bytes, and the functions of package `strings` that the program calls.
-- Case mapping and trimming are those of ASCII text.
use Prim.Native.Nat.{ℕ, zero, suc, ◌+◌, ◌-◌}
use Prim.Native.Char.{code}
use Prim.Native.String.{String}
use mathlib.Core.Path.{◌≡◌, refl}
use mathlib.Core.Logic.{◌↔◌, ◌≢◌}
use mathlib.Core.Bool.{Bool, true, false, not, ◌&&◌, ◌||◌}
use mathlib.Core.List.{List, [], ◌∷◌, ◌++◌, map, reverse, reverse_aux}
use native.Mathlib.Omega.{arith}
use aerospike_prometheus_exp.Base.Tests.{leb, ◌==◌, if◌then◌else◌}
use aerospike_prometheus_exp.Base.Lists.{length, All}

abbrev pub Bytes : Type 0
Bytes = List ℕ

-- The bytes of an ASCII literal.
abbrev pub bytes : String → Bytes
bytes String.[] = []
bytes (String.◌∷◌ c s) = code c ∷ bytes s

unfoldable pub equal : Bytes → Bytes → Bool
equal [] [] = true
equal (x ∷ xs) (y ∷ ys) = x == y && equal xs ys
equal _ _ = false

pub equal_iff : (a b : Bytes) → (equal a b ≡ true) ↔ (a ≡ b)
unfolding equal
equal_iff [] [] = ground arith
equal_iff (x ∷ a) (y ∷ b) = ground (arith, equal_iff a b)
equal_iff _ _ = ground arith

pub equal_refl : (a : Bytes) → equal a a ≡ true
equal_refl a = (equal_iff a a).1 refl

-- `s == ""` and `len(s) > 0`
abbrev pub is_empty {ℓ} : {A : Type ℓ} → List A → Bool
is_empty [] = true
is_empty (c ∷ s) = false

abbrev pub nonempty {ℓ} : {A : Type ℓ} → List A → Bool
nonempty s = not (is_empty s)

-- strings.HasPrefix(s, prefix)
unfoldable pub has_prefix : Bytes → Bytes → Bool
has_prefix s [] = true
has_prefix [] (p ∷ ps) = false
has_prefix (c ∷ s) (p ∷ ps) = c == p && has_prefix s ps

-- strings.Contains(s, sub)
unfoldable pub contains : Bytes → Bytes → Bool
unfolding has_prefix
contains [] sub = is_empty sub
contains (c ∷ s) sub = has_prefix (c ∷ s) sub || contains s sub

-- `skip` bytes of a match are still to be passed over.
replace_from : Bytes → Bytes → ℕ → Bytes → Bytes
replace_from old new skip [] = []
replace_from old new (suc skip) (c ∷ s) = replace_from old new skip s
replace_from old new zero (c ∷ s) =
    let hit = has_prefix (c ∷ s) old in
    let rest = replace_from old new (if hit then length old - 1 else 0) s in
    if hit then new ++ rest else c ∷ rest

-- strings.ReplaceAll(s, old, new), for a text `old` that is not empty
unfoldable pub replace_all : Bytes → Bytes → Bytes → Bytes
unfolding replace_from has_prefix
replace_all s old new = replace_from old new 0 s

abbrev push_first : ℕ → List Bytes → List Bytes
push_first c [] = (c ∷ []) ∷ []
push_first c (p ∷ ps) = (c ∷ p) ∷ ps

-- strings.Split(s, sep), for a separator of one byte
unfoldable pub split : ℕ → Bytes → List Bytes
split sep [] = [] ∷ []
split sep (c ∷ s) = let rest = split sep s in if c == sep then [] ∷ rest else push_first c rest

-- strings.SplitN(s, sep, 2)
unfoldable pub split_n2 : ℕ → Bytes → List Bytes
split_n2 sep [] = [] ∷ []
split_n2 sep (c ∷ s) =
    let rest = split_n2 sep s in if c == sep then [] ∷ s ∷ [] else push_first c rest

-- strings.Join(parts, sep)
unfoldable pub join : Bytes → List Bytes → Bytes
join sep [] = []
join sep (p ∷ []) = p
join sep (p ∷ q ∷ ps) = p ++ (sep ++ join sep (q ∷ ps))

lower_byte : ℕ → ℕ
lower_byte c = if leb b'A' c && leb c b'Z' then c + 32 else c

-- strings.ToLower
unfoldable pub to_lower : Bytes → Bytes
unfolding lower_byte
to_lower s = map lower_byte s

trim_left : (ℕ → Bool) → Bytes → Bytes
trim_left cut [] = []
trim_left cut (c ∷ s) = let rest = trim_left cut s in if cut c then rest else c ∷ s

-- strings.TrimFunc, by which strings.Trim and strings.TrimSpace are defined
unfoldable pub trim : (ℕ → Bool) → Bytes → Bytes
unfolding trim_left
trim cut s = reverse (trim_left cut (reverse (trim_left cut s)))

abbrev pub is_space : ℕ → Bool
is_space c = c == b' ' || (leb 9 c && leb c 13)

-- strings.TrimSpace
unfoldable pub trim_space : Bytes → Bytes
unfolding trim
trim_space = trim is_space

-- A text without the byte `c`.
abbrev pub Free : ℕ → Bytes → Type 0
Free c s = All (λ b. b ≢ c) s

-- A text without the separator is one piece.
pub split-Free : (sep : ℕ) (s : Bytes) → Free sep s → split sep s ≡ s ∷ []
unfolding split
split-Free sep [] f = refl
split-Free sep (c ∷ s) f = ground (arith, split-Free sep s f.1)

-- The first piece ends at the first separator.
pub split-append :
    (sep : ℕ) (s rest : Bytes) → Free sep s → split sep (s ++ sep ∷ rest) ≡ s ∷ split sep rest
unfolding split
split-append sep [] rest f = ground arith
split-append sep (c ∷ s) rest f = ground (arith, split-append sep s rest f.1)

pub split_n2-Free : (sep : ℕ) (s : Bytes) → Free sep s → split_n2 sep s ≡ s ∷ []
unfolding split_n2
split_n2-Free sep [] f = refl
split_n2-Free sep (c ∷ s) f = ground (arith, split_n2-Free sep s f.1)

pub split_n2-append :
    (sep : ℕ) (s rest : Bytes) → Free sep s → split_n2 sep (s ++ sep ∷ rest) ≡ s ∷ rest ∷ []
unfolding split_n2
split_n2-append sep [] rest f = ground arith
split_n2-append sep (c ∷ s) rest f = ground (arith, split_n2-append sep s rest f.1)

All-reverse_aux :
    (P : ℕ → Type 0) (xs acc : Bytes) → All P (reverse_aux xs acc) → All P xs × All P acc
All-reverse_aux P [] acc h = (tt, h)
All-reverse_aux P (x ∷ xs) acc h =
    let (hs, ha) = All-reverse_aux P xs (x ∷ acc) h in ((ha.0, hs), ha.1)

reverse_aux-empty : (xs acc : Bytes) → is_empty (reverse_aux xs acc) ≡ true → is_empty xs ≡ true
reverse_aux-empty [] acc h = refl
reverse_aux-empty (x ∷ xs) acc h = absurd (filled xs x acc h)
  where
    filled : (ys : Bytes) (y : ℕ) (a : Bytes) → is_empty (reverse_aux ys (y ∷ a)) ≡ true → ⊥
    filled [] y a e = cc
    filled (z ∷ zs) y a e = filled zs z (y ∷ a) e

trim_left-All :
    (cut : ℕ → Bool) (s : Bytes) → is_empty (trim_left cut s) ≡ true → All (λ c. cut c ≡ true) s
unfolding trim_left
trim_left-All cut [] h = tt
trim_left-All cut (c ∷ s) h = go (cut c) refl h (trim_left-All cut s)
  where
    go :
        (b : Bool)
        → cut c ≡ b
        → is_empty (if b then trim_left cut s else c ∷ s) ≡ true
        → (is_empty (trim_left cut s) ≡ true → All (λ d. cut d ≡ true) s)
        → (cut c ≡ true) × All (λ d. cut d ≡ true) s
    go true e q ih = (e, ih q)
    go false e q ih = absurd (cc)

trim_left-kept :
    (cut : ℕ → Bool) (s : Bytes)
    → All (λ c. cut c ≡ true) (trim_left cut s)
    → All (λ c. cut c ≡ true) s
unfolding trim_left
trim_left-kept cut [] h = tt
trim_left-kept cut (c ∷ s) h = go (cut c) refl h (trim_left-kept cut s)
  where
    go :
        (b : Bool)
        → cut c ≡ b
        → All (λ d. cut d ≡ true) (if b then trim_left cut s else c ∷ s)
        → (All (λ d. cut d ≡ true) (trim_left cut s) → All (λ d. cut d ≡ true) s)
        → (cut c ≡ true) × All (λ d. cut d ≡ true) s
    go true e q ih = (e, ih q)
    go false e q ih = q

-- A text of which trimming leaves nothing consists of what is trimmed.
pub trim-All :
    (cut : ℕ → Bool) (s : Bytes) → is_empty (trim cut s) ≡ true → All (λ c. cut c ≡ true) s
unfolding trim
trim-All cut s h =
    let inner = reverse_aux-empty (trim_left cut (reverse (trim_left cut s))) [] h in
    let rev = trim_left-All cut (reverse (trim_left cut s)) inner in
    trim_left-kept cut s (All-reverse_aux (λ c. cut c ≡ true) (trim_left cut s) [] rev).0
