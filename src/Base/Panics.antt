-- ===== src/Base/Panics.antt =====
-- A run of Go code that may panic, and Go's `for ... range` over a sequence.
use mathlib.Core.Path.{◌≡◌, refl, subst}
use mathlib.Core.List.{List, [], ◌∷◌}
use Prim.Native.Nat.{ℕ, zero, suc}

pub data Go {ℓ} (A : Type ℓ) : Type ℓ where
  ok : A → Go A
  panic : Go A

infixl 5 ◌>>=◌
abbrev pub ◌>>=◌ {ℓ κ} : {A : Type ℓ} {B : Type κ} → Go A → (A → Go B) → Go B
ok a >>= f = f a
panic >>= f = panic

pub >>=-eq-ok {ℓ κ} :
    {A : Type ℓ} {B : Type κ} (run : Go A) (next : A → Go B) {out : B}
    → (run >>= next) ≡ ok out
    → (mid : A) × (run ≡ ok mid) × (next mid ≡ ok out)
>>=-eq-ok (ok mid) next h = (mid, refl, h)
>>=-eq-ok panic next h = cc

-- The body of a loop takes the element and the variables that it changes.
abbrev pub for_each {ℓ κ} : {A : Type ℓ} {S : Type κ} → (A → S → Go S) → List A → S → Go S
for_each body [] s = ok s
for_each body (x ∷ xs) s = body x s >>= for_each body xs

-- `xs[i]`: an index out of range panics.
abbrev pub index {ℓ} : {A : Type ℓ} → List A → ℕ → Go A
index [] i = panic
index (x ∷ xs) zero = ok x
index (x ∷ xs) (suc i) = index xs i

pub ok-injective {ℓ} : {A : Type ℓ} {a b : A} → ok a ≡ ok b → a ≡ b
ok-injective h = cc

ok-subst {ℓ κ} : {A : Type ℓ} (P : A → Type κ) {a b : A} → P a → ok a ≡ ok b → P b
ok-subst P p h = subst P (ok-injective h) p

-- What every round keeps, a loop that does not panic keeps.
pub for_each_inv {ℓ κ η} :
    {A : Type ℓ} {S : Type κ} (P : S → Type η) (body : A → S → Go S)
    → ((x : A) (s t : S) → P s → body x s ≡ ok t → P t)
    → (xs : List A) (s : S) {t : S} → P s
    → for_each body xs s ≡ ok t
    → P t
for_each_inv P body keep [] s p e = let q : ok s ≡ ok _ = e in ok-subst P p q
for_each_inv P body keep (x ∷ xs) s p e =
    let (u, first, later) = >>=-eq-ok (body x s) (for_each body xs) e in
    for_each_inv P body keep xs u (keep x s u p first) later
