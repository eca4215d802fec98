-- ===== src/Commons/Sanitize/WellFormed.antt =====
-- The texts that `SanitizeUTF8` of utils.go returns, by the grammar of UTF-8.
use aerospike_prometheus_exp.Base.{
  ℕ, ◌≡◌, ◌≤◌, ◌<◌, refl, ◌⊎◌, inl, inr, Bool, true, false, ◌&&◌, [], ◌∷◌, ◌++◌, Bytes,
  if◌then◌else◌, Bool-cases, arith,
}
use aerospike_prometheus_exp.Commons.Sanitize.{
  one, two, three, four, valid_string, map_runes, replacement, sanitize_utf8,
}

abbrev Within : ℕ → ℕ → ℕ → Type 0
Within lo hi c = (lo ≤ c) × (c ≤ hi)

-- A byte after the first.
abbrev Tail : ℕ → Type 0
Tail = Within 128 191

-- The rows of the Unicode Standard's table of well-formed sequences, and their concatenations.
pub data Utf8 : Bytes → Type 0 where
  end : Utf8 []
  row1 : {c : ℕ} {s : Bytes} → c < 128 → Utf8 s → Utf8 (c ∷ s)
  row2 : {c d : ℕ} {s : Bytes} → Within 194 223 c → Tail d → Utf8 s → Utf8 (c ∷ d ∷ s)
  row3 :
      {c d e : ℕ} {s : Bytes} → c ≡ 224 → Within 160 191 d → Tail e → Utf8 s → Utf8 (c ∷ d ∷ e ∷ s)
  row4 :
      {c d e : ℕ} {s : Bytes} → Within 225 236 c → Tail d → Tail e → Utf8 s → Utf8 (c ∷ d ∷ e ∷ s)
  row5 :
      {c d e : ℕ} {s : Bytes} → c ≡ 237 → Within 128 159 d → Tail e → Utf8 s → Utf8 (c ∷ d ∷ e ∷ s)
  row6 :
      {c d e : ℕ} {s : Bytes} → Within 238 239 c → Tail d → Tail e → Utf8 s → Utf8 (c ∷ d ∷ e ∷ s)
  row7 :
      {c d e f : ℕ} {s : Bytes}
      → c ≡ 240
      → Within 144 191 d
      → Tail e
      → Tail f
      → Utf8 s
      → Utf8 (c ∷ d ∷ e ∷ f ∷ s)
  row8 :
      {c d e f : ℕ} {s : Bytes}
      → Within 241 243 c
      → Tail d
      → Tail e
      → Tail f
      → Utf8 s
      → Utf8 (c ∷ d ∷ e ∷ f ∷ s)
  row9 :
      {c d e f : ℕ} {s : Bytes}
      → c ≡ 244
      → Within 128 143 d
      → Tail e
      → Tail f
      → Utf8 s
      → Utf8 (c ∷ d ∷ e ∷ f ∷ s)

one-Utf8 : {c : ℕ} {s : Bytes} → one c ≡ true → Utf8 s → Utf8 (c ∷ s)
unfolding one
one-Utf8 h u = row1 (ground arith) u

two-Utf8 : {c d : ℕ} {s : Bytes} → two c d ≡ true → Utf8 s → Utf8 (c ∷ d ∷ s)
unfolding two
two-Utf8 h u = row2 (ground arith) (ground arith) u

three_cases :
    (c d e : ℕ)
    → three c d e ≡ true
    → Tail e
      × (((c ≡ 224) × Within 160 191 d)
          ⊎ ((Within 225 236 c × Tail d)
              ⊎ (((c ≡ 237) × Within 128 159 d) ⊎ (Within 238 239 c × Tail d))))
unfolding three
three_cases c d e h = ground arith

four_cases :
    (c d e f : ℕ)
    → four c d e f ≡ true
    → (Tail e × Tail f)
      × (((c ≡ 240) × Within 144 191 d)
          ⊎ ((Within 241 243 c × Tail d) ⊎ ((c ≡ 244) × Within 128 143 d)))
unfolding four
four_cases c d e f h = ground arith

three-Utf8 : {c d e : ℕ} {s : Bytes} → three c d e ≡ true → Utf8 s → Utf8 (c ∷ d ∷ e ∷ s)
three-Utf8 {c} {d} {e} h u =
    let (k, row) = three_cases c d e h in
    elim row [
      | inl (a, b) ↦ row3 a b k u
      | inr (inl (a, b)) ↦ row4 a b k u
      | inr (inr (inl (a, b))) ↦ row5 a b k u
      | inr (inr (inr (a, b))) ↦ row6 a b k u
    ]

four-Utf8 : {c d e f : ℕ} {s : Bytes} → four c d e f ≡ true → Utf8 s → Utf8 (c ∷ d ∷ e ∷ f ∷ s)
four-Utf8 {c} {d} {e} {f} h u =
    let ((k, l), row) = four_cases c d e f h in
    elim row [
      | inl (a, b) ↦ row7 a b k l u
      | inr (inl (a, b)) ↦ row8 a b k l u
      | inr (inr (a, b)) ↦ row9 a b k l u
    ]

-- A byte, or what stands for it, before a text.
if-Utf8 : (b : Bool) (x y : Bytes) → (b ≡ true → Utf8 x) → Utf8 y → Utf8 (if b then x else y)
if-Utf8 true x y h u = h refl
if-Utf8 false x y h u = u

replacement-Utf8 : {s : Bytes} → Utf8 s → Utf8 (replacement ++ s)
replacement-Utf8 u =
    row6 (omega arith, omega arith) (omega arith, omega arith) (omega arith, omega arith) u

map_runes-Utf8 : (s : Bytes) → Utf8 (map_runes s)
unfolding map_runes
map_runes-Utf8 [] = end
map_runes-Utf8 (c ∷ []) = if-Utf8 (one c) _ _ (λ h. one-Utf8 h end) (replacement-Utf8 end)
map_runes-Utf8 (c ∷ d ∷ []) =
    let u1 = map_runes-Utf8 (d ∷ []) in
    if-Utf8 (one c) _ _ (λ h. one-Utf8 h u1)
      (if-Utf8 (two c d) _ _ (λ h. two-Utf8 h end) (replacement-Utf8 u1))
map_runes-Utf8 (c ∷ d ∷ e ∷ []) =
    let u1 = map_runes-Utf8 (d ∷ e ∷ []) in
    let u2 = map_runes-Utf8 (e ∷ []) in
    if-Utf8 (one c) _ _ (λ h. one-Utf8 h u1)
      (if-Utf8 (two c d) _ _ (λ h. two-Utf8 h u2)
        (if-Utf8 (three c d e) _ _ (λ h. three-Utf8 h end) (replacement-Utf8 u1)))
map_runes-Utf8 (c ∷ d ∷ e ∷ f ∷ s) =
    let u1 = map_runes-Utf8 (d ∷ e ∷ f ∷ s) in
    let u2 = map_runes-Utf8 (e ∷ f ∷ s) in
    let u3 = map_runes-Utf8 (f ∷ s) in
    let u4 = map_runes-Utf8 s in
    if-Utf8 (one c) _ _ (λ h. one-Utf8 h u1)
      (if-Utf8 (two c d) _ _ (λ h. two-Utf8 h u2)
        (if-Utf8 (three c d e) _ _ (λ h. three-Utf8 h u3)
          (if-Utf8 (four c d e f) _ _ (λ h. four-Utf8 h u4) (replacement-Utf8 u1))))

-- A test of the first rune, and of what follows it.
if-valid :
    (b v w : Bool) {s : Bytes}
    → (b ≡ true → v ≡ true → Utf8 s)
    → (w ≡ true → Utf8 s)
    → (if b then v else w) ≡ true
    → Utf8 s
if-valid true v w h k e = h refl e
if-valid false v w h k e = k e

valid_string-Utf8 : (s : Bytes) → valid_string s ≡ true → Utf8 s
unfolding valid_string
valid_string-Utf8 [] e = end
valid_string-Utf8 (c ∷ []) e = one-Utf8 e end
valid_string-Utf8 (c ∷ d ∷ []) e =
    if-valid (one c) _ _ (λ h v. one-Utf8 h (valid_string-Utf8 (d ∷ []) v)) (λ h. two-Utf8 h end) e
valid_string-Utf8 (c ∷ d ∷ e ∷ []) v =
    if-valid (one c) _ _ (λ h w. one-Utf8 h (valid_string-Utf8 (d ∷ e ∷ []) w))
      (if-valid (two c d) _ _ (λ h w. two-Utf8 h (valid_string-Utf8 (e ∷ []) w))
        (λ h. three-Utf8 h end))
      v
valid_string-Utf8 (c ∷ d ∷ e ∷ f ∷ s) v =
    if-valid (one c) _ _ (λ h w. one-Utf8 h (valid_string-Utf8 (d ∷ e ∷ f ∷ s) w))
      (if-valid (two c d) _ _ (λ h w. two-Utf8 h (valid_string-Utf8 (e ∷ f ∷ s) w))
        (if-valid (three c d e) _ _ (λ h w. three-Utf8 h (valid_string-Utf8 (f ∷ s) w))
          (λ h.
            let (h4, w) = both (four c d e f) (valid_string s) h in
            four-Utf8 h4 (valid_string-Utf8 s w))))
      v
  where
    both : (a b : Bool) → (a && b) ≡ true → (a ≡ true) × (b ≡ true)
    both a b h = ground arith

-- Whatever the server sends, what `SanitizeUTF8` makes of it is a text of well-formed UTF-8, and a
-- text that the test of the standard library accepts is returned as it is.
pub sanitize_utf8-Utf8 :
    (s : Bytes) → Utf8 (sanitize_utf8 s) × (valid_string s ≡ true → sanitize_utf8 s ≡ s)
unfolding sanitize_utf8
sanitize_utf8-Utf8 s = elim (Bool-cases (valid_string s)) [
  | inl t ↦ (rw t (valid_string-Utf8 s t), λ _. rw t refl)
  | inr f ↦ (rw f (map_runes-Utf8 s), λ t. rw t refl)
]
