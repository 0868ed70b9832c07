-- ===== src/Routes/Hostnames.antt =====
-- `RoutingTable::active_hostnames` of crates/tuyau-server/src/routes.rs. `sort` on strings is the
-- order of their bytes, here as an insertion sort.
use tuyau.Prelude.{
  ◌≡◌, sym, ◌∙◌, ◌↔◌, ◌⊎◌, inl, inr, Bool, true, false, ◌||◌, ◌&&◌, List, [], ◌∷◌, ◌++◌, arith,
  if◌then◌else◌, ltb, ◌==◌, text_eq, nat_eq, ==_eq, Bool-cases, Has, Has-append,
}
use tuyau.Prelude.Texts.{Text}
use tuyau.Prelude.Dict.{keys}
use tuyau.Routes.{RoutingTable}

-- `a < b` on strings.
pub text_ltb : Text → Text → Bool
text_ltb [] [] = false
text_ltb [] (y ∷ ys) = true
text_ltb (x ∷ xs) [] = false
text_ltb (x ∷ xs) (y ∷ ys) = ltb x y || ((x == y) && text_ltb xs ys)

pub insert_sorted : Text → List Text → List Text
unfolding text_ltb
insert_sorted a [] = a ∷ []
insert_sorted a (x ∷ xs) =
    let rest = insert_sorted a xs in if text_ltb x a then x ∷ rest else a ∷ x ∷ xs

pub sort : List Text → List Text
unfolding insert_sorted
sort [] = []
sort (x ∷ xs) = insert_sorted x (sort xs)

-- `Vec::dedup`: of equal neighbours the first stays.
pub dedup : List Text → List Text
dedup [] = []
dedup (x ∷ []) = x ∷ []
dedup (x ∷ y ∷ xs) = let rest = dedup (y ∷ xs) in if x == y then rest else x ∷ rest

pub active_hostnames : RoutingTable → List Text
unfolding sort dedup
active_hostnames t = dedup (sort (keys t.inner ++ keys t.upstreams))

Has-insert_sorted :
    (h a : Text) (xs : List Text) → Has h (insert_sorted a xs) ↔ ((a ≡ h) ⊎ Has h xs)
unfolding insert_sorted
Has-insert_sorted h a [] = (λ i. i, λ i. i)
Has-insert_sorted h a (x ∷ xs) = elim (Bool-cases (text_ltb x a)) [
  | inl less ↦ rw less (ground (arith, Has-insert_sorted h a xs))
  | inr more ↦ rw more ((λ i. i), (λ i. i))
]

Has-sort : (h : Text) (xs : List Text) → Has h (sort xs) ↔ Has h xs
unfolding sort
Has-sort h [] = ((λ i. i), (λ i. i))
Has-sort h (x ∷ xs) = ground (arith, Has-insert_sorted h x (sort xs), Has-sort h xs)

Has-dedup : (h : Text) (xs : List Text) → Has h (dedup xs) ↔ Has h xs
unfolding dedup
Has-dedup h [] = ((λ i. i), (λ i. i))
Has-dedup h (x ∷ []) = ((λ i. i), (λ i. i))
Has-dedup h (x ∷ y ∷ xs) = elim (Bool-cases (x == y)) [
  | inl same ↦ rw same (
      let (to, from) = Has-dedup h (y ∷ xs) in
      ((λ i. inr (to i)), elim [ inl e ↦ from (inl (sym (==_eq x y same) ∙ e)) | inr i ↦ from i ]))
  | inr other ↦ rw other (ground (arith, Has-dedup h (y ∷ xs)))
]

-- The active host names are those with a tunnel and those of the upstreams, and no others.
pub active_hostnames_iff :
    (t : RoutingTable) (h : Text)
    → Has h (active_hostnames t) ↔ (Has h (keys t.inner) ⊎ Has h (keys t.upstreams))
unfolding active_hostnames
active_hostnames_iff t h =
    let (out, in_) = Has-dedup h (sort (keys t.inner ++ keys t.upstreams)) in
    let (unsort, resort) = Has-sort h (keys t.inner ++ keys t.upstreams) in
    let (split, join) = Has-append h (keys t.inner) (keys t.upstreams) in
    (λ i. split (unsort (out i)), λ i. in_ (resort (join i)))
