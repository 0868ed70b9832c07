-- ===== src/Sni/Positions.antt =====
-- Reading at a position in crates/tuyau-server/src/sni.rs, when it is known what stands there.
use tuyau.Prelude.{
  ℕ, zero, suc, ◌+◌, ◌-◌, ◌*◌, ◌/◌, ◌%◌, ◌≤◌, ◌<◌, ◌≡◌, refl, ap, ◌∙◌, subst, List, [], ◌∷◌, ◌++◌,
  some, arith, lt→ltb, ltb-eq-false, length, get_elem?, take, drop, take-append, length-append,
}
use tuyau.Prelude.Bytes.{u16_bytes, u16_round}
use tuyau.Sni.Results.{ret}
use tuyau.Sni.{usize_mod, add, checked_add, index, slice, read_u8, read_u16, read_u24}

-- From the position on, the buffer is this.
pub record IsAt (buf : List ℕ) (p : ℕ) (rest : List ℕ) : Type 0 where
  pub len : p + length rest ≡ length buf
  pub ahead : drop p buf ≡ rest

drop_cons : (p x : ℕ) (xs rest : List ℕ) → drop p xs ≡ x ∷ rest → drop (p + 1) xs ≡ rest
drop_cons zero x [] rest h = cc
drop_cons zero x (y ∷ xs) rest h = cc
drop_cons (suc p) x [] rest h = cc
drop_cons (suc p) x (y ∷ xs) rest h = rw (suc_plus p) (drop_cons p x xs rest h)
  where
    suc_plus : (n : ℕ) → suc n + 1 ≡ suc (n + 1)
    suc_plus n = omega arith

get_elem?-drop : (p x : ℕ) (xs rest : List ℕ) → drop p xs ≡ x ∷ rest → get_elem? xs p ≡ some x
get_elem?-drop zero x [] rest h = cc
get_elem?-drop zero x (y ∷ xs) rest h = cc
get_elem?-drop (suc p) x [] rest h = cc
get_elem?-drop (suc p) x (y ∷ xs) rest h = get_elem?-drop p x xs rest h

pub add-fits : (p n : ℕ) → p + n < usize_mod → add p n ≡ ret (p + n)
unfolding add
add-fits p n h = rw (lt→ltb (p + n) usize_mod h) refl

pub checked_add-fits : (p n : ℕ) → p + n < usize_mod → checked_add p n ≡ ret (p + n)
unfolding checked_add
checked_add-fits p n h = rw (lt→ltb (p + n) usize_mod h) refl

module _ {buf : List ℕ} (small : length buf < usize_mod) where
  pub IsAt-next : {p x : ℕ} {rest : List ℕ} → IsAt buf p (x ∷ rest) → IsAt buf (p + 1) rest
  IsAt-next {p} {x} {rest} a = record {
    len = omega (arith, a.len);
    ahead = drop_cons p x buf rest a.ahead;
  }

  pub IsAt-skip :
      (p : ℕ) (xs rest : List ℕ) → IsAt buf p (xs ++ rest) → IsAt buf (p + length xs) rest
  IsAt-skip p [] rest a = subst (λ q. IsAt buf q rest) (omega arith) a
  IsAt-skip p (x ∷ xs) rest a =
      subst (λ q. IsAt buf q rest) (omega arith) (IsAt-skip (p + 1) xs rest (IsAt-next a))

  pub IsAt-le : (p : ℕ) (xs rest : List ℕ) → IsAt buf p (xs ++ rest) → p + length xs ≤ length buf
  IsAt-le p xs rest a = omega (arith, a.len, length-append xs rest)

  pub read_u8-IsAt :
      (p x : ℕ) (rest : List ℕ) → IsAt buf p (x ∷ rest) → read_u8 buf p ≡ ret (x, p + 1)
  unfolding read_u8
  read_u8-IsAt p x rest a =
      rw (get_elem?-drop p x buf rest a.ahead, read_u8, add-fits p 1 (omega (arith, a.len))) refl

  index-IsAt : (p x : ℕ) (rest : List ℕ) → IsAt buf p (x ∷ rest) → index buf p ≡ ret x
  unfolding index
  index-IsAt p x rest a = rw (get_elem?-drop p x buf rest a.ahead, index) refl

  pub read_u16-IsAt :
      (p a b : ℕ) (rest : List ℕ)
      → IsAt buf p (a ∷ b ∷ rest)
      → read_u16 buf p ≡ ret (a * 256 + b, p + 2)
  unfolding read_u16
  read_u16-IsAt p a b rest at_p =
      rw
        (
          add-fits p 2 (omega (arith, at_p.len)),
          ltb-eq-false (length buf) (p + 2) (omega (arith, at_p.len)),
          index-IsAt p a (b ∷ rest) at_p,
          index-IsAt (p + 1) b rest (IsAt-next at_p),
        )
        refl

  pub read_u24-IsAt :
      (p a b c : ℕ) (rest : List ℕ)
      → IsAt buf p (a ∷ b ∷ c ∷ rest)
      → read_u24 buf p ≡ ret ((a * 256 + b) * 256 + c, p + 3)
  unfolding read_u24
  read_u24-IsAt p a b c rest at_p =
      let third : IsAt buf (p + 2) (c ∷ rest) =
        subst (λ q. IsAt buf q (c ∷ rest)) (omega arith) (IsAt-next (IsAt-next at_p)) in
      rw
        (
          add-fits p 3 (omega (arith, at_p.len)),
          ltb-eq-false (length buf) (p + 3) (omega (arith, at_p.len)),
          index-IsAt p a (b ∷ c ∷ rest) at_p,
          index-IsAt (p + 1) b (c ∷ rest) (IsAt-next at_p),
          index-IsAt (p + 2) c rest third,
        )
        refl

  -- The length of a list of fewer than 2 ^ 16 bytes, and the list.
  pub read_u16-length :
      (p : ℕ) (xs rest : List ℕ)
      → length xs < 65536
      → IsAt buf p (u16_bytes (length xs) ++ (xs ++ rest))
      → read_u16 buf p ≡ ret (length xs, p + 2)
  read_u16-length p xs rest h a =
      read_u16-IsAt p (length xs / 256 % 256) (length xs % 256) (xs ++ rest) a
      ∙ ap (λ n. ret (n, p + 2)) (u16_round (length xs) h)

  pub slice-IsAt :
      (p : ℕ) (xs rest : List ℕ) → IsAt buf p (xs ++ rest) → slice buf p (p + length xs) ≡ ret xs
  unfolding slice
  slice-IsAt p xs rest a =
      rw
        (
          ltb-eq-false (p + length xs) p (omega arith),
          ltb-eq-false (length buf) (p + length xs) (IsAt-le p xs rest a),
          a.ahead,
        )
        (ap (λ n. ret (take n (xs ++ rest))) (minus p (length xs)) ∙ ap ret (take-append xs rest))
    where
      minus : (m n : ℕ) → (m + n) - m ≡ n
      minus m n = omega arith
