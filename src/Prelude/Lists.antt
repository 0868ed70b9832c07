-- ===== src/Prelude/Lists.antt =====
-- Lists measured by native numbers, under the library's names, and predicates on lists.
use Prim.Native.Nat.{ℕ, zero, suc, ◌+◌, ◌-◌, ◌≤◌, min}
use mathlib.Core.Path.{◌≡◌, refl, sym, ap, subst, ◌∙◌}
use mathlib.Core.Logic.{◌↔◌, ◌⊎◌, inl, inr}
use mathlib.Core.Bool.{Bool, true, false, false≢true, ◌||◌}
use mathlib.Core.List.{List, [], ◌∷◌, ◌++◌, map}
use mathlib.Core.Option.{Option, none, some}
use native.Mathlib.Omega.{arith}
use tuyau.Prelude.Tests.{if◌then◌else◌, Eq, ◌==◌, Bool-cases}

-- The type with no value, at every level.
pub data Empty {ℓ} : Type ℓ where

module _ {ℓ} {A : Type ℓ} where
  abbrev pub length : List A → ℕ
  length [] = 0
  length (x ∷ xs) = suc (length xs)

  abbrev pub get_elem? : List A → ℕ → Option A
  get_elem? [] i = none
  get_elem? (x ∷ xs) zero = some x
  get_elem? (x ∷ xs) (suc i) = get_elem? xs i

  abbrev pub take : ℕ → List A → List A
  take zero xs = []
  take (suc n) [] = []
  take (suc n) (x ∷ xs) = x ∷ take n xs

  abbrev pub drop : ℕ → List A → List A
  drop zero xs = xs
  drop (suc n) [] = []
  drop (suc n) (x ∷ xs) = drop n xs

  pub length-append : (xs ys : List A) → length (xs ++ ys) ≡ length xs + length ys
  length-append [] ys = omega arith
  length-append (x ∷ xs) ys = omega (arith, length-append xs ys)

  pub length-take : (n : ℕ) (xs : List A) → length (take n xs) ≡ min n (length xs)
  length-take zero xs = omega arith
  length-take (suc n) [] = omega arith
  length-take (suc n) (x ∷ xs) = omega (arith, length-take n xs)

  pub length-drop : (n : ℕ) (xs : List A) → length (drop n xs) ≡ length xs - n
  length-drop zero xs = omega arith
  length-drop (suc n) [] = omega arith
  length-drop (suc n) (x ∷ xs) = omega (arith, length-drop n xs)

  pub take-append-drop : (n : ℕ) (xs : List A) → take n xs ++ drop n xs ≡ xs
  take-append-drop zero xs = refl
  take-append-drop (suc n) [] = refl
  take-append-drop (suc n) (x ∷ xs) = ap (◌∷◌ x) (take-append-drop n xs)

  pub take-append : (xs ys : List A) → take (length xs) (xs ++ ys) ≡ xs
  take-append [] ys = refl
  take-append (x ∷ xs) ys = ap (◌∷◌ x) (take-append xs ys)

  pub drop-append : (xs ys : List A) → drop (length xs) (xs ++ ys) ≡ ys
  drop-append [] ys = refl
  drop-append (x ∷ xs) ys = drop-append xs ys

  pub take-append_of_le : (n : ℕ) (xs ys : List A) → n ≤ length xs → take n (xs ++ ys) ≡ take n xs
  take-append_of_le zero xs ys h = refl
  take-append_of_le (suc n) [] ys h = absurd (omega arith)
  take-append_of_le (suc n) (x ∷ xs) ys h = ap (◌∷◌ x) (take-append_of_le n xs ys (omega arith))

  pub drop-append_of_le :
      (n : ℕ) (xs ys : List A) → n ≤ length xs → drop n (xs ++ ys) ≡ drop n xs ++ ys
  drop-append_of_le zero xs ys h = refl
  drop-append_of_le (suc n) [] ys h = absurd (omega arith)
  drop-append_of_le (suc n) (x ∷ xs) ys h = drop-append_of_le n xs ys (omega arith)

  -- `Iterator::any` and `Vec::retain`
  abbrev pub any : (A → Bool) → List A → Bool
  any p [] = false
  any p (x ∷ xs) = p x || any p xs

  unfoldable pub retain : (A → Bool) → List A → List A
  retain p [] = []
  retain p (x ∷ xs) = if p x then x ∷ retain p xs else retain p xs

  abbrev pub All {κ} : (A → Type κ) → List A → Type κ
  All P [] = Unit
  All P (x ∷ xs) = P x × All P xs

  abbrev pub Has : A → List A → Type ℓ
  Has a [] = Empty
  Has a (x ∷ xs) = (x ≡ a) ⊎ Has a xs

-- A set of keys as a list, and membership as a test.
module _ {ℓ} {A : Type ℓ} ⦃e : Eq A⦄ where
  unfoldable pub contains : List A → A → Bool
  contains [] a = false
  contains (x ∷ xs) a = (x == a) || contains xs a

  pub contains_iff : (xs : List A) (a : A) → (contains xs a ≡ true) ↔ Has a xs
  unfolding contains
  contains_iff [] a = (λ h. absurd (false≢true h), λ h. elim h [ ])
  contains_iff (x ∷ xs) a = ground (arith, e.beq_iff x a, contains_iff xs a)

pub length-map {ℓ κ} :
    {A : Type ℓ} {B : Type κ} (f : A → B) (xs : List A) → length (map f xs) ≡ length xs
length-map f [] = refl
length-map f (x ∷ xs) = ap suc (length-map f xs)

module _ {ℓ} {A : Type ℓ} where
  -- No value stands twice.
  abbrev pub Unique : List A → Type ℓ
  Unique [] = Unit
  Unique (x ∷ xs) = ¬ Has x xs × Unique xs

  pub Has-append : (a : A) (xs ys : List A) → Has a (xs ++ ys) ↔ (Has a xs ⊎ Has a ys)
  Has-append a [] ys = (λ h. inr h, elim [ inl h ↦ elim h [ ] | inr h ↦ h ])
  Has-append a (x ∷ xs) ys = ground (arith, Has-append a xs ys)

  pub Has-map {κ} : {B : Type κ} (f : A → B) (a : A) (xs : List A) → Has a xs → Has (f a) (map f xs)
  Has-map f a (x ∷ xs) (inl e) = inl (ap f e)
  Has-map f a (x ∷ xs) (inr h) = inr (Has-map f a xs h)
  Has-map f a [] h = elim h [ ]

  pub All-get {κ} : (P : A → Type κ) (a : A) (xs : List A) → All P xs → Has a xs → P a
  All-get P a (x ∷ xs) (p, ps) (inl e) = subst P e p
  All-get P a (x ∷ xs) (p, ps) (inr h) = All-get P a xs ps h
  All-get P a [] ps h = elim h [ ]

  pub All-append_left {κ} : (P : A → Type κ) (xs ys : List A) → All P (xs ++ ys) → All P xs
  All-append_left P [] ys h = tt
  All-append_left P (x ∷ xs) ys (p, ps) = (p, All-append_left P xs ys ps)

  pub All-append {κ} : (P : A → Type κ) (xs ys : List A) → All P xs → All P ys → All P (xs ++ ys)
  All-append P [] ys h k = k
  All-append P (x ∷ xs) ys (p, ps) k = (p, All-append P xs ys ps k)

  pub All-map {κ ι} :
      {P : A → Type κ} {Q : A → Type ι} (f : (a : A) → P a → Q a) (xs : List A)
      → All P xs
      → All Q xs
  All-map f [] h = tt
  All-map f (x ∷ xs) h = (f x h.0, All-map f xs h.1)

  pub Has-retain :
      (p : A → Bool) (a : A) (xs : List A) → Has a (retain p xs) ↔ (Has a xs × (p a ≡ true))
  unfolding retain
  Has-retain p a [] = (λ h. elim h [ ], λ h. elim h.0 [ ])
  Has-retain p a (x ∷ xs) = elim (Bool-cases (p x)) [
    | inl kept ↦ rw kept (
      elim [
        | inl e ↦ (inl e, ap p (sym e) ∙ kept)
        | inr h ↦ let (there, good) = (Has-retain p a xs).0 h in (inr there, good)
      ],
      λ (h, good). elim h [ inl e ↦ inl e | inr there ↦ inr ((Has-retain p a xs).1 (there, good)) ],
    )
    | inr gone ↦ rw gone (
      λ h. let (there, good) = (Has-retain p a xs).0 h in (inr there, good),
      λ (h, good). elim h [
        | inl e ↦ absurd (false≢true (sym gone ∙ ap p e ∙ good))
        | inr there ↦ (Has-retain p a xs).1 (there, good)
      ],
    )
  ]

  pub retain-Unique : (p : A → Bool) (xs : List A) → Unique xs → Unique (retain p xs)
  unfolding retain
  retain-Unique p [] u = tt
  retain-Unique p (x ∷ xs) u = elim (Bool-cases (p x)) [
    | inl kept ↦ rw kept (λ h. u.0 ((Has-retain p x xs).0 h).0, retain-Unique p xs u.1)
    | inr gone ↦ rw gone (retain-Unique p xs u.1)
  ]

  pub Unique-concat : (xs : List A) (a : A) → Unique xs → ¬ Has a xs → Unique (xs ++ a ∷ [])
  Unique-concat [] a u new = (λ h. elim h [ ], tt)
  Unique-concat (x ∷ xs) a u new = (
    λ h. elim ((Has-append x xs (a ∷ [])).0 h) [
      | inl there ↦ u.0 there
      | inr (inl e) ↦ new (inl (sym e))
      | inr (inr nothing) ↦ elim nothing [ ]
    ],
    Unique-concat xs a u.1 (λ h. new (inr h)),
  )

  pub any-Has : (p : A → Bool) (a : A) (xs : List A) → Has a xs → p a ≡ true → any p xs ≡ true
  any-Has p a (x ∷ xs) (inl e) h = rw (e, h)
  any-Has p a (x ∷ xs) (inr there) h = rw (any-Has p a xs there h) (ground arith)
  any-Has p a [] there h = elim there [ ]

  pub get_elem?-Has : (i : ℕ) (xs : List A) {a : A} → get_elem? xs i ≡ some a → Has a xs
  get_elem?-Has i [] h = cc
  get_elem?-Has zero (x ∷ xs) h = inl (cc)
  get_elem?-Has (suc i) (x ∷ xs) h = inr (get_elem?-Has i xs h)
