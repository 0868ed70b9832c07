-- ===== src/Prelude/Results.antt =====
-- Fallible code: Rust's `Result` and `Option`, with `do` blocks for `?`.
use mathlib.Core.Path.{◌≡◌, refl}
use mathlib.Core.Logic.{◌⊎◌, inl, inr}
use mathlib.Core.Bool.{Bool, true, false}
use mathlib.Core.Option.{Option, none, some}

pub data Result {ℓ κ} (E : Type κ) (A : Type ℓ) : Type (ℓ ⊔ κ) where
  ok : A → Result E A
  err : E → Result E A

-- `if bad { return Err(e) }`
abbrev pub reject {ι} : {E : Type ι} → Bool → E → Result E (Unit {0})
reject true e = err e
reject false e = ok tt

infixl 5 ◌>>=◌ ◌>>◌
abbrev pub ◌>>=◌ {ℓ κ ι} :
    {E : Type ι} {A : Type ℓ} {B : Type κ} → Result E A → (A → Result E B) → Result E B
err e >>= f = err e
ok a >>= f = f a

-- `Option::ok_or_else`
abbrev pub ok_or {ℓ ι} : {E : Type ι} {A : Type ℓ} → Option A → E → Result E A
ok_or none e = err e
ok_or (some a) e = ok a

abbrev pub ◌>>◌ {ℓ κ ι} :
    {E : Type ι} {A : Type κ} {B : Type ℓ} → Result E A → Result E B → Result E B
m >> k = m >>= λ _. k

-- Inversion of a successful sequence.
pub >>=-eq-ok {ℓ κ ι} :
    {E : Type ι} {A : Type ℓ} {B : Type κ} (first : Result E A) (next : A → Result E B) {out : B}
    → (first >>= next) ≡ ok out
    → (x : A) × (first ≡ ok x) × (next x ≡ ok out)
>>=-eq-ok (err e) next h = cc
>>=-eq-ok (ok x) next h = (x, refl, h)

pub >>-eq-ok {ℓ ι} :
    {E : Type ι} {B : Type ℓ} (m : Result E (Unit {0})) (k : Result E B) {b : B}
    → (m >> k) ≡ ok b
    → (m ≡ ok tt) × (k ≡ ok b)
>>-eq-ok (ok tt) k h = (refl, h)
>>-eq-ok (err e) k h = cc

pub ok_inj {ℓ ι} : {E : Type ι} {A : Type ℓ} {a b : A} → ◌≡◌ {A = Result E A} (ok a) (ok b) → a ≡ b
ok_inj h = cc

pub reject-ok {ι} : {E : Type ι} (bad : Bool) (e : E) → reject bad e ≡ ok tt → bad ≡ false
reject-ok true e h = cc
reject-ok false e h = refl

pub ok_or-ok {ℓ ι} :
    {E : Type ι} {A : Type ℓ} (o : Option A) (e : E) {a : A} → ok_or o e ≡ ok a → o ≡ some a
ok_or-ok none e h = cc
ok_or-ok (some a) e h = cc

pub Result-cases {ℓ ι} :
    {E : Type ι} {A : Type ℓ} (m : Result E A) → ((a : A) × (m ≡ ok a)) ⊎ ((e : E) × (m ≡ err e))
Result-cases (ok a) = inl (a, refl)
Result-cases (err e) = inr (e, refl)

pub err_ne_ok {ℓ ι} : {E : Type ι} {A : Type ℓ} {e : E} {a : A} → err e ≡ ok a → ⊥
err_ne_ok h = cc
