-- ===== src/Sni/Safety.antt =====
-- The parser of crates/tuyau-server/src/sni.rs on arbitrary bytes: no panic, no endless loop, and
-- what a host name that it gives is.
use tuyau.Prelude.{
  ℕ, zero, suc, ◌+◌, ◌-◌, ◌^◌, ◌≤◌, ◌<◌, ◌≡◌, refl, sym, ap, ◌∙◌, ◌⊎◌, inl, inr, Bool, true, false,
  not, List, [], ◌∷◌, ◌++◌, Option, none, some, arith, ltb, ltb→lt, ltb-false→le, ltb-eq-false,
  ◌==◌, nat_eq, length, get_elem?, take, drop, All, take-append-drop, length-take,
}
use tuyau.Prelude.Bytes.{IsByte}
use tuyau.Prelude.Texts.{Text}
use tuyau.Sni.Results.{Outcome, ret, Safe, >>=-Safe, refuse-Safe, if-Safe, Safe-weaken}
use tuyau.Sni.Utf8.{is_utf8}
use tuyau.Sni.{
  usize_mod, max_sni_len, add, checked_add, index, slice, read_u8, read_u16, read_u24, skip_random,
  host_name, name_round, names_loop, extension, or_continue, extension_round, extensions_loop,
  read_headers, skip_lists, parse_sni,
}

not-eq-false : (b : Bool) → not b ≡ false → b ≡ true
not-eq-false true h = refl
not-eq-false false h = sym h

-- A host name that is short, is UTF-8 and stands in the buffer.
abbrev pub IsHost : List ℕ → Text → Type 0
IsHost buf host =
    (length host ≤ 253)
    × (is_utf8 host ≡ true)
    × ((pre : List ℕ) × (post : List ℕ) × (buf ≡ pre ++ (host ++ post)))

-- The same for the result of a loop.
abbrev IsFound : List ℕ → Option Text → Type 0
IsFound buf none = Unit
IsFound buf (some host) = IsHost buf host

module _ (buf : List ℕ) (bytes : All IsByte buf) (small : length buf < 2 ^ 63) where
  abbrev ByteAt : List ℕ → ℕ → Type 0
  ByteAt xs i = (v : ℕ) × (get_elem? xs i ≡ some v) × (v < 256) × (i < length xs)

  get_elem?-byte_or_none : (i : ℕ) → (get_elem? buf i ≡ none) ⊎ ByteAt buf i
  get_elem?-byte_or_none = go buf bytes
    where
      go : (xs : List ℕ) → All IsByte xs → (i : ℕ) → (get_elem? xs i ≡ none) ⊎ ByteAt xs i
      go [] b i = inl refl
      go (x ∷ xs) b zero = inr (x, refl, b.0, omega arith)
      go (x ∷ xs) b (suc i) = elim (go xs b.1 i) [
        | inl e ↦ inl e
        | inr (v, e, small_v, l) ↦ inr (v, e, small_v, omega (arith, l))
      ]

  get_elem?-byte : (i : ℕ) → i < length buf → (v : ℕ) × (get_elem? buf i ≡ some v) × (v < 256)
  get_elem?-byte = go buf bytes
    where
      go :
          (xs : List ℕ)
          → All IsByte xs
          → (i : ℕ) → i < length xs
          → (v : ℕ) × (get_elem? xs i ≡ some v) × (v < 256)
      go [] b i h = absurd (omega arith)
      go (x ∷ xs) b zero h = (x, refl, b.0)
      go (x ∷ xs) b (suc i) h = go xs b.1 i (omega arith)

  index-Safe : (i : ℕ) → i < length buf → Safe (λ v. v < 256) (index buf i)
  unfolding index
  index-Safe i h = let (v, found, small_v) = get_elem?-byte i h in rw (found, Safe) small_v

  add-Safe : (a b : ℕ) → a + b < usize_mod → Safe (λ c. c ≡ a + b) (add a b)
  unfolding add
  add-Safe a b h = ground arith

  checked_add-Safe : (a b : ℕ) → Safe (λ c. c ≡ a + b) (checked_add a b)
  unfolding checked_add
  checked_add-Safe a b = ground arith

  -- What a reader of `n` bytes gives: a value in its range, and the position behind it.
  abbrev ReadsTo : ℕ → ℕ → ℕ → ℕ × ℕ → Type 0
  ReadsTo p n bound r = (r.0 < bound) × (r.1 ≡ p + n) × (p + n ≤ length buf)

  read_u8-Safe : (p : ℕ) → p < 2 ^ 63 + 2 ^ 62 → Safe (ReadsTo p 1 256) (read_u8 buf p)
  unfolding read_u8
  read_u8-Safe p h = elim (get_elem?-byte_or_none p) [
    | inl e ↦ rw (e, Safe) tt
    | inr (v, e, small_v, l) ↦
        rw (e, Safe)
          (>>=-Safe (λ c. c ≡ p + 1) (ReadsTo p 1 256) (add p 1) (λ p'. ret (v, p'))
            (add-Safe p 1 (omega arith)) λ p' e'. (small_v, e', omega (arith, l)))
  ]

  read_u16-Safe : (p : ℕ) → p < 2 ^ 63 + 2 ^ 62 → Safe (ReadsTo p 2 65536) (read_u16 buf p)
  unfolding read_u16
  read_u16-Safe p h =
      >>=-Safe (λ c. c ≡ p + 2) _ (add p 2) _ (add-Safe p 2 (omega arith))
        λ end e. refuse-Safe _ (ltb (length buf) end) _ λ fits.
          let below = ltb-false→le (length buf) end fits in
          >>=-Safe (λ v. v < 256) _ (index buf p) _ (index-Safe p (omega arith))
            λ a ha.
              >>=-Safe (λ v. v < 256) _ (index buf (p + 1)) _ (index-Safe (p + 1) (omega arith))
                λ b hb. (omega arith, e, omega arith)

  read_u24-Safe : (p : ℕ) → p < 2 ^ 63 + 2 ^ 62 → Safe (ReadsTo p 3 16777216) (read_u24 buf p)
  unfolding read_u24
  read_u24-Safe p h =
      >>=-Safe (λ c. c ≡ p + 3) _ (add p 3) _ (add-Safe p 3 (omega arith))
        λ end e. refuse-Safe _ (ltb (length buf) end) _ λ fits.
          let below = ltb-false→le (length buf) end fits in
          >>=-Safe (λ v. v < 256) _ (index buf p) _ (index-Safe p (omega arith))
            λ a ha.
              >>=-Safe (λ v. v < 256) _ (index buf (p + 1)) _ (index-Safe (p + 1) (omega arith))
                λ b hb.
                  >>=-Safe (λ v. v < 256) _ (index buf (p + 2)) _ (index-Safe (p + 2) (omega arith))
                    λ c hc. (omega arith, e, omega arith)

  host_name-Safe :
      (q n e : ℕ) → e ≡ q + n → n ≤ 253 → e ≤ length buf → Safe (IsFound buf) (host_name buf q e)
  unfolding host_name slice
  host_name-Safe q n e he hn hl =
      rw (ltb-eq-false e q (omega arith), ltb-eq-false (length buf) e hl)
        (refuse-Safe (IsFound buf) (not (is_utf8 name)) (ret (some name)) λ valid.
          (name_short, not-eq-false _ valid, (take q buf, drop (e - q) (drop q buf), split)))
    where
      name : Text
      name = take (e - q) (drop q buf)

      name_short : length name ≤ 253
      name_short = omega (arith, length-take (e - q) (drop q buf))

      split : buf ≡ take q buf ++ (name ++ drop (e - q) (drop q buf))
      split =
          sym (take-append-drop q buf)
          ∙ ap (λ r. take q buf ++ r) (sym (take-append-drop (e - q) (drop q buf)))

  names_loop-Safe :
      (fuel q e : ℕ) → e ≤ length buf → e ≤ q + fuel → Safe (IsFound buf) (names_loop fuel buf e q)
  unfolding names_loop name_round
  names_loop-Safe zero q e hl hf = rw (ltb-eq-false q e (omega arith)) tt
  names_loop-Safe (suc fuel) q e hl hf =
      if-Safe (IsFound buf) (ltb q e) _ _
        (λ less.
          let below = ltb→lt q e less in
          >>=-Safe (ReadsTo q 1 256) (IsFound buf) (read_u8 buf q) _ (read_u8-Safe q (omega arith))
            λ (name_type, q1) (_, at1, in1).
              >>=-Safe (ReadsTo q1 2 65536) (IsFound buf) (read_u16 buf q1) _
                (read_u16-Safe q1 (omega arith))
                λ (name_len, q2) (_, at2, in2).
                  >>=-Safe (λ c. c ≡ q2 + name_len) (IsFound buf) (checked_add q2 name_len) _
                    (checked_add-Safe q2 name_len)
                    λ name_end at_end. refuse-Safe (IsFound buf) (ltb e name_end) _ λ fits.
                      let inside = ltb-false→le e name_end fits in
                      if-Safe (IsFound buf) (name_type == 0) _ _
                        (λ _. refuse-Safe (IsFound buf) (ltb max_sni_len name_len) _ λ short.
                          host_name-Safe q2 name_len name_end at_end
                            (ltb-false→le max_sni_len name_len short) (omega arith))
                        (λ _. names_loop-Safe fuel name_end e hl (omega arith)))
        (λ _. tt)

  extension-Safe :
      (t p e : ℕ) → p ≤ length buf → e ≤ length buf → Safe (IsFound buf) (extension buf t p e)
  unfolding extension
  extension-Safe t p e hp he =
      if-Safe (IsFound buf) (t == 0) _ _
        (λ _.
          >>=-Safe (ReadsTo p 2 65536) (IsFound buf) (read_u16 buf p) _
            (read_u16-Safe p (omega arith))
            λ (_, q) _. names_loop-Safe (length buf) q e he (omega arith))
        (λ _. tt)

  extensions_loop-Safe :
      (fuel p e : ℕ)
      → e ≤ length buf
      → e ≤ p + fuel
      → Safe (IsHost buf) (extensions_loop fuel buf e p)
  unfolding extensions_loop extension_round
  extensions_loop-Safe zero p e hl hf = rw (ltb-eq-false p e (omega arith)) tt
  extensions_loop-Safe (suc fuel) p e hl hf =
      if-Safe (IsHost buf) (ltb p e) _ _
        (λ less.
          let below = ltb→lt p e less in
          >>=-Safe (ReadsTo p 2 65536) (IsHost buf) (read_u16 buf p) _
            (read_u16-Safe p (omega arith))
            λ (ext_type, p1) (_, at1, in1).
              >>=-Safe (ReadsTo p1 2 65536) (IsHost buf) (read_u16 buf p1) _
                (read_u16-Safe p1 (omega arith))
                λ (ext_len, p2) (_, at2, in2).
                  >>=-Safe (λ c. c ≡ p2 + ext_len) (IsHost buf) (checked_add p2 ext_len) _
                    (checked_add-Safe p2 ext_len)
                    λ inner at_end. refuse-Safe (IsHost buf) (ltb e inner) _ λ fits.
                      let inside = ltb-false→le e inner fits in
                      >>=-Safe (IsFound buf) (IsHost buf) (extension buf ext_type p2 inner) _
                        (extension-Safe ext_type p2 inner (omega arith) (omega arith))
                        λ found is_found.
                          or_continue-Safe _ found is_found
                            (extensions_loop-Safe fuel inner e hl (omega arith)))
        (λ _. tt)
    where
      or_continue-Safe :
          (next : Outcome Text) (found : Option Text)
          → (IsFound buf) found
          → Safe (IsHost buf) next
          → Safe (IsHost buf) (or_continue found next)
      or_continue-Safe next none h k = k
      or_continue-Safe next (some host) h k = h

  abbrev Fits : ℕ → Type 0
  Fits p = p ≤ length buf

  skip_random-Safe : (p : ℕ) → p ≤ length buf → Safe Fits (skip_random buf p)
  unfolding skip_random
  skip_random-Safe p h =
      >>=-Safe (ReadsTo p 3 16777216) Fits (read_u24 buf p) _ (read_u24-Safe p (omega arith))
        λ (_, p5) (_, at5, in5).
          >>=-Safe (λ c. c ≡ p5 + 2) Fits (checked_add p5 2) _ (checked_add-Safe p5 2)
            λ p6 at6.
              >>=-Safe (λ c. c ≡ p6 + 32) Fits (checked_add p6 32) _ (checked_add-Safe p6 32)
                λ p7 at7.
                  refuse-Safe Fits (ltb (length buf) p7) _ λ fits. ltb-false→le (length buf) p7 fits

  read_headers-Safe : Safe Fits (read_headers buf)
  unfolding read_headers
  read_headers-Safe =
      >>=-Safe (ReadsTo 0 1 256) Fits (read_u8 buf 0) _ (read_u8-Safe 0 (omega arith))
        λ (record_type, p1) (_, at1, in1). refuse-Safe Fits (not (record_type == 0x16)) _ λ _.
          >>=-Safe (λ c. c ≡ p1 + 2) Fits (add p1 2) _ (add-Safe p1 2 (omega arith))
            λ p2 at2.
              >>=-Safe (ReadsTo p2 2 65536) Fits (read_u16 buf p2) _
                (read_u16-Safe p2 (omega arith))
                λ (_, p3) (_, at3, in3).
                  >>=-Safe (ReadsTo p3 1 256) Fits (read_u8 buf p3) _
                    (read_u8-Safe p3 (omega arith))
                    λ (msg_type, p4) (_, at4, in4).
                      refuse-Safe Fits (not (msg_type == 0x01)) _
                        λ _. skip_random-Safe p4 (omega arith)

  skip_lists-Safe : (p : ℕ) → p ≤ length buf → Safe (λ q. q < 2 ^ 63 + 256) (skip_lists buf p)
  unfolding skip_lists
  skip_lists-Safe p h =
      >>=-Safe (ReadsTo p 1 256) Small (read_u8 buf p) _ (read_u8-Safe p (omega arith))
        λ (n, p1) (n_small, at1, in1).
          >>=-Safe (λ c. c ≡ p1 + n) Small (checked_add p1 n) _ (checked_add-Safe p1 n)
            λ p2 at2.
              >>=-Safe (ReadsTo p2 2 65536) Small (read_u16 buf p2) _
                (read_u16-Safe p2 (omega arith))
                λ (m, p3) (m_small, at3, in3).
                  >>=-Safe (λ c. c ≡ p3 + m) Small (checked_add p3 m) _ (checked_add-Safe p3 m)
                    λ p4 at4.
                      >>=-Safe (ReadsTo p4 1 256) Small (read_u8 buf p4) _
                        (read_u8-Safe p4 (omega arith))
                        λ (k, p5) (k_small, at5, in5).
                          Safe-weaken (λ c. c ≡ p5 + k) Small (checked_add p5 k)
                            (checked_add-Safe p5 k) λ c e. omega arith
    where
      Small : ℕ → Type 0
      Small q = q < 2 ^ 63 + 256

-- For every buffer of bytes that is shorter than 2 ^ 63: the parser neither panics nor runs out of
-- fuel, and a host name that it gives has at most 253 bytes, is UTF-8 and is a part of the buffer.
pub parse_sni-Safe :
    (buf : List ℕ) (bytes : All IsByte buf) (small : length buf < 2 ^ 63)
    → Safe (IsHost buf) (parse_sni buf)
unfolding parse_sni
parse_sni-Safe buf bytes small =
    >>=-Safe _ (IsHost buf) (read_headers buf) _ (read_headers-Safe buf bytes small) λ p hp.
      >>=-Safe _ _ (skip_lists buf p) _ (skip_lists-Safe buf bytes small p hp) λ p1 h1.
        >>=-Safe _ _ (read_u16 buf p1) _ (read_u16-Safe buf bytes small p1 (omega arith))
          λ (ext_total, p2) (_, at2, in2).
            >>=-Safe (λ c. c ≡ p2 + ext_total) _ (checked_add p2 ext_total) _
              (checked_add-Safe buf bytes small p2 ext_total)
              λ ext_end at_end. refuse-Safe _ (ltb (length buf) ext_end) _ λ fits.
                extensions_loop-Safe buf bytes small (length buf) p2 ext_end
                  (ltb-false→le (length buf) ext_end fits)
                  (omega (arith, ltb-false→le (length buf) ext_end fits))
