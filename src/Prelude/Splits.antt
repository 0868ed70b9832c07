-- ===== src/Prelude/Splits.antt =====
-- What `split_once` and `rsplit_once` find.
use Prim.Native.Nat.{ℕ}
use mathlib.Core.Path.{◌≡◌, refl, sym, ap, subst, ◌∙◌}
use mathlib.Core.Logic.{inl, inr}
use mathlib.Core.Bool.{true, false≢true}
use mathlib.Core.List.{[], ◌∷◌, ◌++◌}
use mathlib.Core.Option.{none, some, some_inj}
use tuyau.Prelude.Tests.{◌==◌, nat_eq, ==_refl, ==_eq, ==_ne, Bool-cases, Option-cases}
use tuyau.Prelude.Lists.{Has}
use tuyau.Prelude.Texts.{Text, split_once, rsplit_once}

pub rsplit_once-none : (c : ℕ) (s : Text) → rsplit_once c s ≡ none → ¬ Has c s
unfolding rsplit_once
rsplit_once-none c [] h = λ n. elim n [ ]
rsplit_once-none c (b ∷ s) h = elim (Option-cases (rsplit_once c s)) [
  | inl gone ↦ elim (Bool-cases (b == c)) [
    | inl same ↦ absurd (some_none (rw (gone, same) at h))
    | inr other ↦ elim [
      | inl e ↦ absurd (false≢true (sym other ∙ subst (λ k. b == k ≡ true) e (==_refl b)))
      | inr n ↦ rsplit_once-none c s gone n
    ]
  ]
  | inr (p, found) ↦ absurd (some_none (rw found at h))
]
  where
    some_none : {A : Type 0} {a : A} → some a ≡ none → ⊥
    some_none h' = cc

-- The sides of the last occurrence.
abbrev pub IsLastSplit : ℕ → Text → Text × Text → Type 0
IsLastSplit c s p = (s ≡ p.0 ++ (c ∷ p.1)) × ¬ Has c p.1

pub rsplit_once-some :
    (c : ℕ) (s : Text) {p : Text × Text}
    → rsplit_once c s ≡ some p
    → (s ≡ p.0 ++ (c ∷ p.1)) × ¬ Has c p.1
unfolding rsplit_once
rsplit_once-some c [] h = absurd (none_some h)
  where
    none_some : {q : Text × Text} → none ≡ some q → ⊥
    none_some n = cc
rsplit_once-some c (b ∷ s) {p} h = elim (Option-cases (rsplit_once c s)) [
  | inr (q, found) ↦
      let seen = rw found at h in
      let this : (b ∷ q.0, q.1) ≡ p = cc seen in
      let (split, last) = rsplit_once-some c s found in
      subst (IsLastSplit c (b ∷ s)) this (ap (◌∷◌ b) split, last)
  | inl gone ↦ elim (Bool-cases (b == c)) [
    | inl same ↦
        let seen = rw (gone, same) at h in
        let this : ([], s) ≡ p = cc seen in
        subst (IsLastSplit c (b ∷ s)) this
          (ap (λ k. k ∷ s) (==_eq b c same), rsplit_once-none c s gone)
    | inr other ↦ absurd (none_some (rw (gone, other) at h))
  ]
]
  where
    none_some : {q : Text × Text} → none ≡ some q → ⊥
    none_some n = cc

pub rsplit_once-absent : (c : ℕ) (s : Text) → ¬ Has c s → rsplit_once c s ≡ none
unfolding rsplit_once
rsplit_once-absent c [] h = refl
rsplit_once-absent c (b ∷ s) h =
    rw (rsplit_once-absent c s (λ n. h (inr n)), ==_ne b c (λ e. h (inl e))) refl

pub rsplit_once_append :
    (c : ℕ) (l r : Text) → ¬ Has c r → rsplit_once c (l ++ (c ∷ r)) ≡ some (l, r)
unfolding rsplit_once
rsplit_once_append c [] r h = rw (rsplit_once-absent c r h, ==_refl c) refl
rsplit_once_append c (b ∷ l) r h = rw (rsplit_once_append c l r h) refl

pub split_once_append : (c : ℕ) (l r : Text) → ¬ Has c l → split_once c (l ++ (c ∷ r)) ≡ some (l, r)
unfolding split_once
split_once_append c [] r h = rw (==_refl c) refl
split_once_append c (b ∷ l) r h =
    rw (==_ne b c (λ e. h (inl e)), split_once_append c l r (λ n. h (inr n))) refl

-- The sides of the first occurrence.
abbrev pub IsFirstSplit : ℕ → Text → Text × Text → Type 0
IsFirstSplit c s p = (s ≡ p.0 ++ (c ∷ p.1)) × ¬ Has c p.0

pub split_once-some :
    (c : ℕ) (s : Text) {p : Text × Text} → split_once c s ≡ some p → IsFirstSplit c s p
unfolding split_once
split_once-some c [] h = absurd (none_some h)
  where
    none_some : {q : Text × Text} → none ≡ some q → ⊥
    none_some n = cc
split_once-some c (b ∷ s) {p} h = elim (Bool-cases (b == c)) [
  | inl same ↦
      let seen = rw same at h in
      subst (IsFirstSplit c (b ∷ s)) (some_inj.0 seen)
        (ap (λ k. k ∷ s) (==_eq b c same), λ n. elim n [ ])
  | inr other ↦ elim (Option-cases (split_once c s)) [
    | inl gone ↦ absurd (none_some (rw (other, gone) at h))
    | inr (q, found) ↦
        let seen = rw (other, found) at h in
        let (split, first) = split_once-some c s found in
        subst (IsFirstSplit c (b ∷ s)) (some_inj.0 seen) (
          ap (◌∷◌ b) split,
          elim [
            | inl e ↦ absurd (false≢true (sym other ∙ subst (λ k. b == k ≡ true) e (==_refl b)))
            | inr n ↦ first n
          ],
        )
  ]
]
  where
    none_some : {q : Text × Text} → none ≡ some q → ⊥
    none_some n = cc
