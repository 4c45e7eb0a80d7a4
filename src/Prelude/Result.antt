-- ===== src/Prelude/Result.antt =====
-- `error` results: a call returns a value or an error.
use mathlib.Core.Path.{◌≡◌, refl}
use mathlib.Core.Bool.{Bool, true, false}

pub data Result {ℓ κ} (E : Type ℓ) (A : Type κ) : Type (ℓ ⊔ κ) where
  err : E → Result E A
  ok : A → Result E A

infixl 5 ◌>>=◌
abbrev pub ◌>>=◌ {ℓ κ μ} :
    {E : Type ℓ} {A : Type κ} {B : Type μ} → Result E A → (A → Result E B) → Result E B
err problem >>= next = err problem
ok value >>= next = next value

infixl 5 ◌>>◌
abbrev pub ◌>>◌ {ℓ κ} : {E : Type ℓ} {B : Type κ} → Result E (Unit {0}) → Result E B → Result E B
first >> next = first >>= λ done. next

-- `if bad { return e }`.
abbrev pub reject {ℓ} : {E : Type ℓ} → Bool → E → Result E (Unit {0})
reject true e = err e
reject false e = ok tt

-- A row of two calls succeeds only if the first one does, and the second one on its value.
pub >>=-eq-ok {ℓ κ μ} :
    {E : Type ℓ} {A : Type κ} {B : Type μ} (r : Result E A) (next : A → Result E B) {b : B}
    → (r >>= next) ≡ ok b
    → (value : A) × (r ≡ ok value) × (next value ≡ ok b)
>>=-eq-ok (err problem) next both = cc
>>=-eq-ok (ok value) next both = (value, refl, both)

pub reject-eq-ok {ℓ} :
    {E : Type ℓ} (b : Bool) (e : E) {u : Unit {0}} → reject b e ≡ ok u → b ≡ false
reject-eq-ok true e h = cc
reject-eq-ok false e h = refl
