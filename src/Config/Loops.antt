-- ===== src/Config/Loops.antt =====
-- The loops of the validation in crates/tuyau-server/src/config.rs.
use tuyau.Prelude.{
  ◌≡◌, refl, sym, ◌∙◌, subst, ◌↔◌, inl, inr, false, List, [], ◌∷◌, ◌++◌, arith, text_eq, contains,
  contains_iff, Has, All, Unique, Result, ok, err, ◌>>◌, Bool-cases, if◌then◌else◌,
}
use mathlib.Core.Bool.{false≢true}
use tuyau.Prelude.Texts.{Text}

-- `for x in xs { check(x)?; }`
unfoldable pub for_each {ℓ κ} :
    {E : Type κ} {A : Type ℓ} → (A → Result E (Unit {0})) → List A → Result E (Unit {0})
for_each check [] = ok tt
for_each check (x ∷ xs) = do check x; for_each check xs

-- `for x in xs { if !seen.insert(x) { return Err(error(x)); } }`, with the set that it leaves.
unfoldable pub insert_all {κ} :
    {E : Type κ} → (Text → E) → List Text → List Text → Result E (List Text)
insert_all error seen [] = ok seen
insert_all error seen (x ∷ xs) =
    let rest = insert_all error (x ∷ seen) xs in if contains seen x then err (error x) else rest

pub for_each-eq-ok_iff {ℓ κ} :
    {E : Type κ} {A : Type ℓ} (check : A → Result E (Unit {0})) (xs : List A)
    → (for_each check xs ≡ ok tt) ↔ All (λ x. check x ≡ ok tt) xs
unfolding for_each
for_each-eq-ok_iff check [] = (λ _. tt, λ _. refl)
for_each-eq-ok_iff check (x ∷ xs) = ground (arith, for_each-eq-ok_iff check xs)

-- No name stands twice, nor in the set of those seen before.
abbrev pub Distinct : List Text → List Text → Type 0
Distinct seen [] = Unit
Distinct seen (x ∷ xs) = (contains seen x ≡ false) × Distinct (x ∷ seen) xs

pub insert_all-eq-ok {κ} :
    {E : Type κ} (error : Text → E) (seen xs : List Text) (out : List Text)
    → insert_all error seen xs ≡ ok out
    → Distinct seen xs
unfolding insert_all
insert_all-eq-ok error seen [] out h = tt
insert_all-eq-ok error seen (x ∷ xs) out h = elim (Bool-cases (contains seen x)) [
  | inl old ↦ absurd (ground arith)
  | inr new ↦ (new, insert_all-eq-ok error (x ∷ seen) xs out (ground arith))
]

-- The names of a list in reverse, before those seen.
abbrev pub after : List Text → List Text → List Text
after seen [] = seen
after seen (x ∷ xs) = after (x ∷ seen) xs

pub insert_all-of-Distinct {κ} :
    {E : Type κ} (error : Text → E) (seen xs : List Text)
    → Distinct seen xs
    → insert_all error seen xs ≡ ok (after seen xs)
unfolding insert_all
insert_all-of-Distinct error seen [] d = refl
insert_all-of-Distinct error seen (x ∷ xs) d =
    ground (arith, insert_all-of-Distinct error (x ∷ seen) xs d.1)

pub Distinct-append :
    (seen xs ys : List Text)
    → Distinct seen (xs ++ ys) ↔ (Distinct seen xs × Distinct (after seen xs) ys)
Distinct-append seen [] ys = ground arith
Distinct-append seen (x ∷ xs) ys = ground (arith, Distinct-append (x ∷ seen) xs ys)

-- The names are distinct, and none was seen.
abbrev pub IsFresh : List Text → List Text → Type 0
IsFresh seen xs = Unique xs × ((x : Text) → Has x xs → ¬ Has x seen)

Distinct→IsFresh : (seen xs : List Text) → Distinct seen xs → IsFresh seen xs
Distinct→IsFresh seen [] d = (tt, λ x h. elim h [ ])
Distinct→IsFresh seen (x ∷ xs) (new, d) =
    let (unique, other) = Distinct→IsFresh (x ∷ seen) xs d in
    (
      (λ h. other x h (inl refl), unique),
      λ y. elim [
        | inl e ↦ λ old.
            absurd
              (false≢true (sym new ∙ (contains_iff seen x).1 (subst (λ z. Has z seen) (sym e) old)))
        | inr h ↦ λ old. other y h (inr old)
      ],
    )

IsFresh→Distinct : (seen xs : List Text) → IsFresh seen xs → Distinct seen xs
IsFresh→Distinct seen [] f = tt
IsFresh→Distinct seen (x ∷ xs) ((alone, unique), other) = (
  elim (Bool-cases (contains seen x)) [
    | inl old ↦ absurd (other x (inl refl) ((contains_iff seen x).0 old))
    | inr new ↦ new
  ],
  IsFresh→Distinct (x ∷ seen) xs (
    unique,
    λ y h. elim [ inl e ↦ alone (subst (λ z. Has z xs) (sym e) h) | inr old ↦ other y (inr h) old ],
  ),
)

pub Distinct-Unique : (xs : List Text) → Distinct [] xs ↔ Unique xs
Distinct-Unique xs =
    (λ d. (Distinct→IsFresh [] xs d).0, λ u. IsFresh→Distinct [] xs (u, λ x h old. elim old [ ]))
