-- ===== src/Protocol/Codec/Prefix.antt =====
-- How the decoder of crates/tuyau-protocol/src/codec.rs goes on as bytes arrive, and how it agrees
-- with `read_frame`.
use tuyau.Prelude.{
  ℕ, ◌≤◌, ◌≡◌, ◌≢◌, refl, sym, ap, ◌∙◌, inl, inr, false, List, [], ◌∷◌, ◌++◌, Option, none, some,
  arith, ltb, length, length-append, take, drop, take-append_of_le, drop-append_of_le, Result, ok,
  err, reject, ◌>>=◌, ◌>>◌, Bool-cases,
}
use tuyau.Prelude.Texts.{Text}
use tuyau.Prelude.Bytes.{u32_of}
use tuyau.Protocol.Codec.{
  max_frame_size, ProtocolError, unexpected_eof, oversized_frame, Cbor, map_err, decode,
  decode_body, some_item, read_frame, read_exact,
}

module _ {F : Type 0} (c : Cbor F) where
  -- What arrives after a decision: an incomplete frame is decided later; a frame is the same, with
  -- the new bytes behind what was left; so is an error, where an oversized length leaves all.
  abbrev pub Stable :
      Result ProtocolError (Option F) × List ℕ
      → Result ProtocolError (Option F) × List ℕ
      → List ℕ
      → Type 0
  Stable (ok none, left) later more = Unit
  Stable (ok (some item), left) later more = later ≡ (ok (some item), left ++ more)
  Stable (err e, left) later more = later ≡ (err e, left ++ more)

  decode_body-Stable :
      (n : ℕ) (body src more : List ℕ)
      → Stable (decode_body c n body src) (decode_body c n (body ++ more) (src ++ more)) more
  unfolding decode_body
  decode_body-Stable n body src more = elim (Bool-cases (ltb max_frame_size n)) [
    | inl large ↦ rw large refl
    | inr fits ↦ rw fits (elim (Bool-cases (ltb (length body) n)) [
      | inl short ↦ rw short tt
      | inr whole ↦ rw whole (
          rw
            (
              more_whole whole,
              take-append_of_le n body more (le whole),
              drop-append_of_le n body more (le whole),
            )
            (item_stable (c.from_reader (take n body)) (drop n body)))
    ])
  ]
    where
      le : ltb (length body) n ≡ false → n ≤ length body
      le h = ground arith

      more_whole : ltb (length body) n ≡ false → ltb (length (body ++ more)) n ≡ false
      more_whole h = ground (arith, length-append body more)

      item_stable :
          (r : Result Text F) (left : List ℕ)
          → Stable (some_item c r, left) (some_item c r, left ++ more) more
      item_stable (ok item) left = refl
      item_stable (err e) left = refl

  -- A decision of the decoder stands, whatever arrives later.
  pub decode-Stable : (src more : List ℕ) → Stable (decode c src) (decode c (src ++ more)) more
  unfolding decode
  decode-Stable [] more = tt
  decode-Stable (w ∷ []) more = tt
  decode-Stable (w ∷ x ∷ []) more = tt
  decode-Stable (w ∷ x ∷ y ∷ []) more = tt
  decode-Stable (w ∷ x ∷ y ∷ z ∷ body) more = decode_body-Stable _ body _ more

  -- What the exact-length reader gives for a decision of the decoder on the bytes up to the end of
  -- the stream: the same item and rest, the same error, and an early end for an incomplete frame.
  abbrev pub reader_outcome :
      Result ProtocolError (Option F) × List ℕ → Result ProtocolError (F × List ℕ)
  reader_outcome (ok none, left) = err unexpected_eof
  reader_outcome (ok (some item), left) = ok (item, left)
  reader_outcome (err e, left) = err e

  read_body : ℕ → List ℕ → Result ProtocolError (F × List ℕ)
  read_body n body = do
    reject (ltb max_frame_size n) (oversized_frame n max_frame_size)
    (payload, rest) ← read_exact n body
    item ← map_err (c.from_reader payload)
    ok (item, rest)

  read_body-decode_body :
      (n : ℕ) (body src : List ℕ) → read_body n body ≡ reader_outcome (decode_body c n body src)
  unfolding read_body decode_body
  read_body-decode_body n body src = elim (Bool-cases (ltb max_frame_size n)) [
    | inl large ↦ rw large refl
    | inr fits ↦ rw fits (elim (Bool-cases (ltb (length body) n)) [
      | inl short ↦ rw short refl
      | inr whole ↦ rw whole (item_outcome (c.from_reader (take n body)) (drop n body))
    ])
  ]
    where
      item_outcome :
          (r : Result Text F) (left : List ℕ)
          → (map_err r >>= λ item. ok (item, left)) ≡ reader_outcome (some_item c r, left)
      item_outcome (ok item) left = refl
      item_outcome (err e) left = refl

  -- On a stream that ends the exact-length reader gives what the decoder gives on all of it: the
  -- same item with the same rest, or the same error; an incomplete frame is an early end.
  pub read_frame-decode : (r : List ℕ) → read_frame c r ≡ reader_outcome (decode c r)
  unfolding read_frame decode read_body
  read_frame-decode [] = refl
  read_frame-decode (w ∷ []) = refl
  read_frame-decode (w ∷ x ∷ []) = refl
  read_frame-decode (w ∷ x ∷ y ∷ []) = refl
  read_frame-decode (w ∷ x ∷ y ∷ z ∷ body) =
      read_body-decode_body (u32_of w x y z) body (w ∷ x ∷ y ∷ z ∷ body)

  -- An incomplete frame stays in the buffer.
  Keeps : List ℕ → Result ProtocolError (Option F) × List ℕ → Type 0
  Keeps src (ok none, left) = left ≡ src
  Keeps src (ok (some item), left) = Unit
  Keeps src (err e, left) = Unit

  decode_body-Keeps : (n : ℕ) (body src : List ℕ) → Keeps src (decode_body c n body src)
  unfolding decode_body Keeps
  decode_body-Keeps n body src = elim (Bool-cases (ltb max_frame_size n)) [
    | inl large ↦ rw large tt
    | inr fits ↦ rw fits (elim (Bool-cases (ltb (length body) n)) [
      | inl short ↦ rw short refl
      | inr whole ↦ rw whole (item_keeps (c.from_reader (take n body)))
    ])
  ]
    where
      item_keeps : (r : Result Text F) → Keeps src (some_item c r, drop n body)
      item_keeps (ok item) = tt
      item_keeps (err e) = tt

  decode-Keeps : (src : List ℕ) → Keeps src (decode c src)
  unfolding decode Keeps
  decode-Keeps [] = refl
  decode-Keeps (w ∷ []) = refl
  decode-Keeps (w ∷ x ∷ []) = refl
  decode-Keeps (w ∷ x ∷ y ∷ []) = refl
  decode-Keeps (w ∷ x ∷ y ∷ z ∷ body) = decode_body-Keeps _ body _

  append-ne-nil : (left q : List ℕ) → q ≢ [] → [] ≢ left ++ q
  append-ne-nil [] q h e = h (sym e)
  append-ne-nil (x ∷ left) q h e = cc e

  -- While a part of a frame is missing the decoder waits, and its buffer holds what has arrived.
  pub decode_incomplete :
      (src more : List ℕ) (item : F)
      → decode c (src ++ more) ≡ (ok (some item), [])
      → more ≢ []
      → decode c src ≡ (ok none, src)
  unfolding Keeps
  decode_incomplete src more item whole missing =
      outcome (decode c src) (decode-Stable src more) (decode-Keeps src)
    where
      outcome :
          (r : Result ProtocolError (Option F) × List ℕ)
          → Stable r (decode c (src ++ more)) more
          → Keeps src r
          → r ≡ (ok none, src)
      outcome (ok none, left) st kept = ap (λ l. (ok none, l)) kept
      outcome (ok (some other), left) st kept =
          absurd (append-ne-nil left more missing (ap (λ r. r.1) (sym whole ∙ st)))
      outcome (err e, left) st kept = absurd (ok_err (ap (λ r. r.0) (sym whole ∙ st)))
        where
          ok_err : ok (some item) ≡ err e → ⊥
          ok_err h = cc
