-- ===== src/Routes/Rotation.antt =====
-- The round-robin of `RoutingTable::lookup` in crates/tuyau-server/src/routes.rs: the order in
-- which the tunnels of a host are tried.
use tuyau.Prelude.{
  ℕ, zero, suc, ◌+◌, ◌%◌, ◌≤◌, ◌<◌, ◌≡◌, refl, sym, ap, ◌∙◌, inl, inr, ◌⊎◌, Bool, List, [], ◌∷◌,
  ◌++◌, Option, none, some, arith, if◌then◌else◌, length, get_elem?, take, drop, length-append,
  length-take, length-drop, take-append_of_le, append_assoc, append-nil, Bool-cases,
}
use native.Mathlib.Decide.{dec_lt}
use native.Mathlib.Nat.{mod-lt, mod-eq_of_lt, mod_self, mod-add-mod}
use tuyau.Routes.{pick, usize_mod}

-- The first element that passes a test.
pub find : (ℕ → Bool) → List ℕ → Option ℕ
find p [] = none
find p (x ∷ xs) = if p x then some x else find p xs

-- The list from its r-th element on, and round to it.
abbrev pub rotate : ℕ → List ℕ → List ℕ
rotate r xs = drop r xs ++ take r xs

-- All but the r-th element, from the one after it on.
abbrev pub others : ℕ → List ℕ → List ℕ
others r xs = drop (suc r) xs ++ take r xs

pub drop-cons :
    (r : ℕ) (xs : List ℕ)
    → r < length xs
    → (x : ℕ) × (get_elem? xs r ≡ some x)
      × (drop r xs ≡ x ∷ drop (suc r) xs)
      × (take (suc r) xs ≡ take r xs ++ x ∷ [])
drop-cons r [] h = absurd (omega arith)
drop-cons zero (x ∷ xs) h = (x, refl, refl, refl)
drop-cons (suc r) (y ∷ xs) h =
    let (x, found, dropped, taken) = drop-cons r xs (omega arith) in
    (x, found, dropped, ap (◌∷◌ y) taken)

pub rotate-here :
    (r x : ℕ) (xs : List ℕ) → drop r xs ≡ x ∷ drop (suc r) xs → rotate r xs ≡ x ∷ others r xs
rotate-here r x xs e = rw e

rotate-next :
    (r x : ℕ) (xs : List ℕ)
    → take (suc r) xs ≡ take r xs ++ x ∷ []
    → rotate (suc r) xs ≡ others r xs ++ x ∷ []
rotate-next r x xs e = ap (◌++◌ (drop (suc r) xs)) e ∙ sym (append_assoc (drop (suc r) xs) _ _)

pub take_all : (xs : List ℕ) (n : ℕ) → length xs ≤ n → take n xs ≡ xs
take_all [] zero h = refl
take_all [] (suc n) h = refl
take_all (x ∷ xs) zero h = absurd (omega arith)
take_all (x ∷ xs) (suc n) h = ap (◌∷◌ x) (take_all xs n (omega arith))

drop_all : (xs : List ℕ) (n : ℕ) → length xs ≤ n → drop n xs ≡ []
drop_all [] zero h = refl
drop_all [] (suc n) h = refl
drop_all (x ∷ xs) zero h = absurd (omega arith)
drop_all (x ∷ xs) (suc n) h = drop_all xs n (omega arith)

-- A full turn is no turn.
rotate_all : (xs : List ℕ) → rotate (length xs) xs ≡ rotate 0 xs
rotate_all xs =
    rw (take_all xs (length xs) (omega arith), drop_all xs (length xs) (omega arith))
      (sym (append-nil xs))

mod_step : (c n : ℕ) → 0 < n → ((c + 1) % n ≡ suc (c % n)) ⊎ ((suc (c % n) ≡ n) × ((c + 1) % n ≡ 0))
mod_step c n h = elim (dec_lt (suc (c % n)) n) [
  | yes below ↦ inl (sym (mod-add-mod c n 1) ∙ mod-eq_of_lt (omega arith) ∙ omega arith)
  | no above ↦
      let full : suc (c % n) ≡ n = omega (arith, mod-lt c h) in
      let wrapped : (c % n + 1) % n ≡ n % n = ap (λ k. k % n) (omega arith) in
      inr (full, sym (mod-add-mod c n 1) ∙ wrapped ∙ mod_self n)
]

pub rotate-mod :
    (c x : ℕ) (xs : List ℕ)
    → 0 < length xs
    → take (suc (c % length xs)) xs ≡ take (c % length xs) xs ++ x ∷ []
    → rotate ((c + 1) % length xs) xs ≡ others (c % length xs) xs ++ x ∷ []
rotate-mod c x xs h taken = elim (mod_step c (length xs) h) [
  | inl e ↦ rw e (rotate-next (c % length xs) x xs taken)
  | inr (full, e) ↦ rw e (
      sym (rotate_all xs)
      ∙ ap (λ k. rotate k xs) (sym full)
      ∙ rotate-next (c % length xs) x xs taken)
]

length-others : (r : ℕ) (xs : List ℕ) → r < length xs → suc (length (others r xs)) ≡ length xs
length-others r xs h =
    omega
      (arith, length-append (drop (suc r) xs) (take r xs), length-drop (suc r) xs, length-take r xs)

pub pick_step :
    (is_open : ℕ → Bool) (conns : List ℕ) (n rounds cursor x : ℕ)
    → get_elem? conns (cursor % n) ≡ some x
    → pick is_open conns n (suc rounds) cursor ≡ (
        if is_open x
        then ((cursor + 1) % usize_mod, some x)
        else pick is_open conns n rounds ((cursor + 1) % usize_mod))
unfolding pick
pick_step is_open conns n rounds cursor x e = rw (e, pick)

pub take-others :
    (rounds r x : ℕ) (xs : List ℕ)
    → r < length xs
    → suc rounds ≤ length xs
    → take rounds (others r xs ++ x ∷ []) ≡ take rounds (others r xs)
take-others rounds r x xs h k =
    take-append_of_le rounds (others r xs) (x ∷ []) (omega (arith, length-others r xs h))

module _ (is_open : ℕ → Bool) (conns : List ℕ) where
  abbrev start : ℕ → ℕ
  start cursor = cursor % length conns

  -- The rest of the loop tries the other connections.
  pick-rest :
      (rounds cursor x : ℕ)
      → 0 < length conns
      → take (suc (start cursor)) conns ≡ take (start cursor) conns ++ x ∷ []
      → suc rounds ≤ length conns
      → cursor + suc rounds ≤ usize_mod
      → (pick is_open conns (length conns) rounds ((cursor + 1) % usize_mod)).1
        ≡ find is_open (take rounds (rotate (start ((cursor + 1) % usize_mod)) conns))
      → (pick is_open conns (length conns) rounds ((cursor + 1) % usize_mod)).1
        ≡ find is_open (take rounds (others (start cursor) conns))
  pick-rest zero cursor x h taken k m ih = ih
  pick-rest (suc rounds) cursor x h taken k m ih =
      let same : (cursor + 1) % usize_mod ≡ cursor + 1 = omega arith in
      ih
      ∙ ap (λ c. find is_open (take (suc rounds) (rotate (start c) conns))) same
      ∙ ap (λ l. find is_open (take (suc rounds) l)) (rotate-mod cursor x conns h taken)
      ∙ ap (find is_open) (take-others (suc rounds) (start cursor) x conns (mod-lt cursor h) k)

  pick-find_rounds :
      (rounds cursor : ℕ)
      → 0 < length conns
      → rounds ≤ length conns
      → cursor + rounds ≤ usize_mod
      → (pick is_open conns (length conns) rounds cursor).1
        ≡ find is_open (take rounds (rotate (start cursor) conns))
  unfolding pick find
  pick-find_rounds zero cursor h k m = refl
  pick-find_rounds (suc rounds) cursor h k m =
      let (x, found, dropped, taken) = drop-cons (start cursor) conns (mod-lt cursor h) in
      let ih = pick-find_rounds rounds ((cursor + 1) % usize_mod) h (omega arith) (omega arith) in
      let rest = pick-rest rounds cursor x h taken k m ih in
      rw
        (
          pick_step is_open conns (length conns) rounds cursor x found,
          rotate-here (start cursor) x conns dropped,
        )
        (elim (Bool-cases (is_open x)) [ inl live ↦ rw live | inr dead ↦ rw dead rest ])

  -- The loop tries every connection once, from the cursor on and round.
  pub pick-find :
      (cursor : ℕ)
      → 0 < length conns
      → cursor + length conns ≤ usize_mod
      → (pick is_open conns (length conns) (length conns) cursor).1
        ≡ find is_open (rotate (start cursor) conns)
  pick-find cursor h m =
      pick-find_rounds (length conns) cursor h (omega arith) m
      ∙ ap (find is_open) (
          take_all (rotate (start cursor) conns) (length conns) (
            omega (
              arith,
              length-append (drop (start cursor) conns) (take (start cursor) conns),
              length-drop (start cursor) conns,
              length-take (start cursor) conns,
            )))

pub length-rotate : (r : ℕ) (xs : List ℕ) → length (rotate r xs) ≡ length xs
length-rotate r xs =
    omega (arith, length-append (drop r xs) (take r xs), length-drop r xs, length-take r xs)
