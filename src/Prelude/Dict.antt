-- ===== src/Prelude/Dict.antt =====
-- Hash maps as association lists.
use mathlib.Core.Path.{◌≡◌, refl, subst}
use mathlib.Core.Logic.{inl, inr}
use mathlib.Core.Bool.{Bool, false}
use mathlib.Core.List.{List, [], ◌∷◌, map}
use mathlib.Core.Option.{Option, none, some}
use native.Mathlib.Omega.{arith}
use tuyau.Prelude.Tests.{if◌then◌else◌, Eq, ◌==◌, is_some, Bool-cases, ==_eq}

abbrev pub Dict {ℓ κ} : Type κ → Type ℓ → Type (ℓ ⊔ κ)
Dict K V = List (K × V)

-- What `retain_values f` makes of the value of a key.
abbrev pub kept {ℓ} : {V : Type ℓ} → (V → Option V) → Option V → Option V
kept f none = none
kept f (some v) = f v

module _ {ℓ κ} {K : Type κ} {V : Type ℓ} ⦃e : Eq K⦄ where
  unfoldable pub get : K → Dict K V → Option V
  get k [] = none
  get k ((j, v) ∷ m) = if j == k then some v else get k m

  unfoldable pub insert : K → V → Dict K V → Dict K V
  insert k v [] = (k, v) ∷ []
  insert k v ((j, w) ∷ m) = if j == k then (k, v) ∷ m else (j, w) ∷ insert k v m

  unfoldable pub remove : K → Dict K V → Dict K V
  remove k [] = []
  remove k ((j, w) ∷ m) = if j == k then remove k m else (j, w) ∷ remove k m

  -- `HashMap::retain`, whose closure may also change the value it keeps.
  unfoldable pub retain_values : (V → Option V) → Dict K V → Dict K V
  retain_values f [] = []
  retain_values f ((j, w) ∷ m) = elim (f w) [
    | none ↦ retain_values f m
    | some v ↦ (j, v) ∷ retain_values f m
  ]

  -- `FromIterator`: a later pair replaces an earlier one of the same key.
  unfoldable pub collect : List (K × V) → Dict K V → Dict K V
  collect [] m = m
  collect ((k, v) ∷ ps) m = collect ps (insert k v m)

  abbrev pub contains_key : K → Dict K V → Bool
  contains_key k m = is_some (get k m)

  abbrev pub keys : Dict K V → List K
  keys m = map (λ p. p.0) m

  abbrev pub UniqueKeys : Dict K V → Type ℓ
  UniqueKeys [] = Unit
  UniqueKeys ((k, v) ∷ m) = (get k m ≡ none) × UniqueKeys m

  pub get-insert :
      (k j : K) (v : V) (m : Dict K V) → get j (insert k v m) ≡ (if k == j then some v else get j m)
  unfolding get insert
  get-insert k j v [] = refl
  get-insert k j v ((i, w) ∷ m) =
      ground (arith, e.beq_iff k j, e.beq_iff i k, e.beq_iff i j, get-insert k j v m)

  pub get-remove :
      (k j : K) (m : Dict K V) → get j (remove k m) ≡ (if k == j then none else get j m)
  unfolding get remove
  get-remove k j [] = ground arith
  get-remove k j ((i, w) ∷ m) =
      ground (arith, e.beq_iff k j, e.beq_iff i k, e.beq_iff i j, get-remove k j m)

  get-retain_values-none :
      (f : V → Option V) (k : K) (m : Dict K V) → get k m ≡ none → get k (retain_values f m) ≡ none
  unfolding get retain_values
  get-retain_values-none f k [] h = refl
  get-retain_values-none f k ((j, w) ∷ m) h = ground (arith, get-retain_values-none f k m)

  pub get-retain_values :
      (f : V → Option V) (k : K) (m : Dict K V)
      → UniqueKeys m
      → get k (retain_values f m) ≡ kept f (get k m)
  unfolding get retain_values
  get-retain_values f k [] u = refl
  get-retain_values f k ((j, w) ∷ m) u = elim (Bool-cases (j == k)) [
    | inl same ↦
        let none_left : get k (retain_values f m) ≡ none =
          get-retain_values-none f k m (subst (λ (i : K). get i m ≡ none) (==_eq j k same) u.0) in
        ground (arith)
    | inr other ↦ ground (arith, get-retain_values f k m u.1)
  ]

  pub insert-UniqueKeys : (k : K) (v : V) (m : Dict K V) → UniqueKeys m → UniqueKeys (insert k v m)
  unfolding get insert
  insert-UniqueKeys k v [] u = (refl, tt)
  insert-UniqueKeys k v ((j, w) ∷ m) u = elim (Bool-cases (j == k)) [
    | inl same ↦ rw same (subst (λ (i : K). get i m ≡ none) (==_eq j k same) u.0, u.1)
    | inr other ↦ rw other (get_fresh other, insert-UniqueKeys k v m u.1)
  ]
    where
      get_fresh : (j == k) ≡ false → get j (insert k v m) ≡ none
      get_fresh other = rw (get-insert k j v m) (ground (arith, e.beq_iff k j, e.beq_iff j k))

  pub retain_values-UniqueKeys :
      (f : V → Option V) (m : Dict K V) → UniqueKeys m → UniqueKeys (retain_values f m)
  unfolding retain_values
  retain_values-UniqueKeys f [] u = tt
  retain_values-UniqueKeys f ((j, w) ∷ m) u =
      ground (arith, get-retain_values-none f j m, retain_values-UniqueKeys f m u.1)
