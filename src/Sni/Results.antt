-- ===== src/Sni/Results.antt =====
-- What a call of the parser in crates/tuyau-server/src/sni.rs can come to.
use tuyau.Prelude.{◌≡◌, Bool, true, false, if◌then◌else◌}

-- `nothing` is `None`; `panicked` is a panic, and `stuck` a loop without fuel.
pub data Outcome {ℓ} (A : Type ℓ) : Type ℓ where
  ret : A → Outcome A
  nothing panicked stuck : Outcome A

infixl 5 ◌>>=◌ ◌>>◌
abbrev pub ◌>>=◌ {ℓ κ} : {A : Type ℓ} {B : Type κ} → Outcome A → (A → Outcome B) → Outcome B
ret a >>= f = f a
nothing >>= f = nothing
panicked >>= f = panicked
stuck >>= f = stuck

abbrev pub ◌>>◌ {ℓ} : {B : Type ℓ} → Outcome (Unit {0}) → Outcome B → Outcome B
m >> k = m >>= λ _. k

-- `if test { return None; }`
abbrev pub refuse : Bool → Outcome (Unit {0})
refuse true = nothing
refuse false = ret tt

-- The call neither panics nor runs out of fuel, and a value that it gives has the property.
abbrev pub Safe {ℓ} : {A : Type ℓ} → (A → Type 0) → Outcome A → Type 0
Safe P (ret a) = P a
Safe P nothing = Unit
Safe P panicked = ⊥
Safe P stuck = ⊥

pub >>=-Safe {ℓ κ} :
    {A : Type ℓ} {B : Type κ} (P : A → Type 0) (Q : B → Type 0) (m : Outcome A) (f : A → Outcome B)
    → Safe P m
    → ((a : A) → P a → Safe Q (f a))
    → Safe Q (m >>= f)
>>=-Safe P Q (ret a) f h k = k a h
>>=-Safe P Q nothing f h k = tt
>>=-Safe P Q panicked f h k = absurd h
>>=-Safe P Q stuck f h k = absurd h

pub refuse-Safe {κ} :
    {B : Type κ} (Q : B → Type 0) (b : Bool) (k : Outcome B)
    → (b ≡ false → Safe Q k)
    → Safe Q (refuse b >> k)
refuse-Safe Q true k h = tt
refuse-Safe Q false k h = h (λ i. false)

pub if-Safe {κ} :
    {B : Type κ} (Q : B → Type 0) (b : Bool) (x y : Outcome B)
    → (b ≡ true → Safe Q x)
    → (b ≡ false → Safe Q y)
    → Safe Q (if b then x else y)
if-Safe Q true x y h k = h (λ i. true)
if-Safe Q false x y h k = k (λ i. false)

pub Safe-weaken {ℓ} :
    {A : Type ℓ} (P Q : A → Type 0) (m : Outcome A) → Safe P m → ((a : A) → P a → Q a) → Safe Q m
Safe-weaken P Q (ret a) h k = k a h
Safe-weaken P Q nothing h k = tt
Safe-weaken P Q panicked h k = absurd h
Safe-weaken P Q stuck h k = absurd h
