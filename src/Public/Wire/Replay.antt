-- ===== src/Public/Wire/Replay.antt =====
-- Taking the ClientHello off a connection in crates/tuyau-server/src/public.rs loses no byte.
use tuyau.Prelude.{
  ℕ, zero, suc, ◌+◌, ◌≤◌, ◌≡◌, refl, sym, ap, ◌∙◌, subst, inl, inr, not, List, [], ◌∷◌, ◌++◌,
  append_assoc, arith, ltb, ◌==◌, nat_eq, min, length, take, drop, take-append-drop, length-take,
  Result, ok, err, reject, >>=-eq-ok, >>-eq-ok, Bool-cases, ltb-false→le,
}
use tuyau.Prelude.Bytes.{u16_of}
use tuyau.Public.Wire.{
  max_record_size, HelloError, unexpected_eof, not_handshake, record_too_large, read_exact,
  read_record, read_client_hello, PrefixedStream, new, poll_read, read_all,
}

-- What a reader still gets.
abbrev pub ahead : PrefixedStream → List ℕ
ahead s = drop s.consumed s.prefix ++ s.inner

read_exact-split :
    (n : ℕ) (r : List ℕ) {p : List ℕ × List ℕ}
    → read_exact n r ≡ ok p
    → (p.0 ++ p.1 ≡ r) × (length p.0 ≡ n)
read_exact-split n r {p} e = elim (Bool-cases (ltb (length r) n)) [
  | inl short ↦ absurd (eof (rw short at e))
  | inr enough ↦
      let this : (take n r, drop n r) ≡ p = same (rw enough at e) in
      subst (λ q. (q.0 ++ q.1 ≡ r) × (length q.0 ≡ n)) this
        (take-append-drop n r, omega (arith, length-take n r, ltb-false→le (length r) n enough))
]
  where
    eof : ◌≡◌ {A = Result HelloError (List ℕ × List ℕ)} (err unexpected_eof) (ok p) → ⊥
    eof h = cc

    same :
        ◌≡◌ {A = Result HelloError (List ℕ × List ℕ)} (ok (take n r, drop n r)) (ok p)
        → (take n r, drop n r) ≡ p
    same h = cc

drop-add : (a b : ℕ) (xs : List ℕ) → drop (a + b) xs ≡ drop b (drop a xs)
drop-add zero b xs = rw (zero_plus b) refl
  where
    zero_plus : (n : ℕ) → zero + n ≡ n
    zero_plus n = omega arith
drop-add (suc a) b [] = rw (suc_plus a b) (sym (drop-nil b))
  where
    suc_plus : (m n : ℕ) → suc m + n ≡ suc (m + n)
    suc_plus m n = omega arith

    drop-nil : (n : ℕ) → drop {A = ℕ} n [] ≡ []
    drop-nil zero = refl
    drop-nil (suc n) = refl
drop-add (suc a) b (x ∷ xs) = rw (suc_plus a b) (drop-add a b xs)
  where
    suc_plus : (m n : ℕ) → suc m + n ≡ suc (m + n)
    suc_plus m n = omega arith

drop-none : (n : ℕ) (xs : List ℕ) → length xs ≤ n → drop n xs ≡ []
drop-none zero [] h = refl
drop-none (suc n) [] h = refl
drop-none zero (x ∷ xs) h = absurd (omega arith)
drop-none (suc n) (x ∷ xs) h = drop-none n xs (omega arith)

module _ (inner_read : ℕ → List ℕ → ℕ) where
  poll_read-ahead :
      (room : ℕ) (s : PrefixedStream)
      → (poll_read inner_read room s).1 ++ ahead (poll_read inner_read room s).0 ≡ ahead s
  unfolding poll_read
  poll_read-ahead room s = elim (Bool-cases (ltb s.consumed (length s.prefix))) [
    | inl more ↦ rw more (
        let rest = drop s.consumed s.prefix in
        let count = min (length rest) room in
        rw (drop-add s.consumed count s.prefix) (
          sym (append_assoc (take count rest) (drop count rest) s.inner)
          ∙ ap (λ l. l ++ s.inner) (take-append-drop count rest)))
    | inr done ↦ rw done (
        rw (drop-none s.consumed s.prefix (ltb-false→le s.consumed (length s.prefix) done))
          (take-append-drop (inner_read room s.inner) s.inner))
  ]

  read_all-ahead :
      (rooms : List ℕ) (s : PrefixedStream)
      → (read_all inner_read rooms s).1 ++ ahead (read_all inner_read rooms s).0 ≡ ahead s
  unfolding read_all
  read_all-ahead [] s = refl
  read_all-ahead (room ∷ rooms) s =
      append_assoc (poll_read inner_read room s).1 _ _
      ∙ ap (λ l. (poll_read inner_read room s).1 ++ l)
          (read_all-ahead rooms (poll_read inner_read room s).0)
      ∙ poll_read-ahead room s

-- A record that passed the checks.
abbrev IsRecord : List ℕ → List ℕ → List ℕ × List ℕ → Type 0
IsRecord header rest p =
    (p.0 ++ p.1 ≡ header ++ rest)
    × (length p.0 ≤ 5 + max_record_size)
    × ((body : List ℕ) × (p.0 ≡ 0x16 ∷ body))

read_record-IsRecord :
    (header rest : List ℕ) {p : List ℕ × List ℕ}
    → read_record header rest ≡ ok p
    → IsRecord header rest p
read_record-IsRecord (a ∷ b ∷ c ∷ d ∷ e ∷ []) rest {p} h =
    let n = u16_of d e in
    let (handshake, next) = >>-eq-ok (reject (not (a == 0x16)) (not_handshake a)) _ h in
    let (small, last) = >>-eq-ok (reject (ltb max_record_size n) (record_too_large n)) _ next in
    let (q, read, done) = >>=-eq-ok (read_exact n rest) _ last in
    let (split, len) = read_exact-split n rest read in
    subst (IsRecord (a ∷ b ∷ c ∷ d ∷ e ∷ []) rest) (same q done) (
      ap (λ l. a ∷ b ∷ c ∷ d ∷ e ∷ l) split,
      omega (arith, len, fits n small),
      (b ∷ c ∷ d ∷ e ∷ q.0, ap (λ x. x ∷ b ∷ c ∷ d ∷ e ∷ q.0) (type_of handshake)),
    )
  where
    same :
        (q : List ℕ × List ℕ)
        → ◌≡◌ {A = Result HelloError (List ℕ × List ℕ)} (ok (a ∷ b ∷ c ∷ d ∷ e ∷ q.0, q.1)) (ok p)
        → (a ∷ b ∷ c ∷ d ∷ e ∷ q.0, q.1) ≡ p
    same q h' = cc

    fits :
        (n : ℕ) → reject (ltb max_record_size n) (record_too_large n) ≡ ok tt → n ≤ max_record_size
    fits n h' = ground arith

    type_of : reject (not (a == 0x16)) (not_handshake a) ≡ ok tt → a ≡ 0x16
    type_of h' = ground (arith, nat_eq.beq_iff a 0x16)
read_record-IsRecord _ rest h = absurd (cc h)

-- What `read_client_hello` takes off a connection is a handshake record of at most the maximum
-- size, and a reader of the `PrefixedStream` over it gets every byte of the connection in order,
-- however the reads are cut: those it has got and those still ahead are what the client sent.
pub read_client_hello-replayed :
    (inner_read : ℕ → List ℕ → ℕ) (rooms r hello rest : List ℕ)
    → read_client_hello r ≡ ok (hello, rest)
    → (length hello ≤ 5 + max_record_size)
      × ((body : List ℕ) × (hello ≡ 0x16 ∷ body))
      × ((read_all inner_read rooms (new hello rest)).1
            ++ ahead (read_all inner_read rooms (new hello rest)).0
          ≡ r)
unfolding read_client_hello
read_client_hello-replayed inner_read rooms r hello rest h =
    let (p, first, second) = >>=-eq-ok (read_exact 5 r) _ h in
    let (split, _) = read_exact-split 5 r first in
    let (whole, short, shape) = read_record-IsRecord p.0 p.1 second in
    (short, shape, read_all-ahead inner_read rooms (new hello rest) ∙ whole ∙ split)
