-- ===== src/Protocol/Codec/RoundTrip.antt =====
-- What crates/tuyau-protocol/src/codec.rs encodes, it decodes.
use tuyau.Prelude.{
  ℕ, ◌+◌, ◌%◌, ◌^◌, ◌≤◌, ◌≡◌, refl, ap, ◌∙◌, List, ◌++◌, some, arith, ltb, length, length-append,
  take-append, drop-append, ltb-eq-false, Result, ok, err, reject, >>=-eq-ok, >>-eq-ok, ◌>>=◌, ◌>>◌,
}
use tuyau.Prelude.Texts.{Text}
use tuyau.Prelude.Bytes.{u32_bytes, u32_prefix-eq}
use tuyau.Protocol.Codec.{
  max_frame_size, ProtocolError, oversized_frame, Cbor, map_err, encode, decode, decode_body,
  read_frame, read_exact,
}

-- A frame with a payload that `from_reader` reads back.
abbrev pub frame : List ℕ → List ℕ
frame payload = u32_bytes (length payload % 2 ^ 32) ++ payload

module _ {F : Type 0} (c : Cbor F) where
  -- What `ciborium` documents: it reads what it wrote.
  abbrev pub ReadsBack : Type 0
  ReadsBack =
      (item : F) (payload : List ℕ)
      → c.into_writer item ≡ ok payload
      → c.from_reader payload ≡ ok item

  decode_body-frame :
      (item : F) (payload rest src : List ℕ)
      → length payload ≤ max_frame_size
      → c.from_reader payload ≡ ok item
      → decode_body c (length payload) (payload ++ rest) src ≡ (ok (some item), rest)
  unfolding decode_body
  decode_body-frame item payload rest src h e =
      rw
        (
          ltb-eq-false max_frame_size (length payload) h,
          ltb-eq-false (length (payload ++ rest)) (length payload)
              (omega (arith, length-append payload rest)),
          take-append payload rest,
          drop-append payload rest,
          e,
        )
        refl

  decode-frame :
      (item : F) (payload rest : List ℕ)
      → length payload ≤ max_frame_size
      → c.from_reader payload ≡ ok item
      → decode c (frame payload ++ rest) ≡ (ok (some item), rest)
  unfolding decode
  decode-frame item payload rest h e =
      ap (λ n. decode_body c n (payload ++ rest) (frame payload ++ rest))
        (u32_prefix-eq (length payload) (omega arith))
      ∙ decode_body-frame item payload rest _ h e

  abbrev read_body : ℕ → List ℕ → Result ProtocolError (F × List ℕ)
  read_body n body = do
    reject (ltb max_frame_size n) (oversized_frame n max_frame_size)
    (payload, rest) ← read_exact n body
    item ← map_err (c.from_reader payload)
    ok (item, rest)

  read_body-frame :
      (item : F) (payload rest : List ℕ)
      → length payload ≤ max_frame_size
      → c.from_reader payload ≡ ok item
      → read_body (length payload) (payload ++ rest) ≡ ok (item, rest)
  read_body-frame item payload rest h e =
      rw
        (
          ltb-eq-false max_frame_size (length payload) h,
          ltb-eq-false (length (payload ++ rest)) (length payload)
              (omega (arith, length-append payload rest)),
          take-append payload rest,
          drop-append payload rest,
          e,
        )
        refl

  read_frame-frame :
      (item : F) (payload rest : List ℕ)
      → length payload ≤ max_frame_size
      → c.from_reader payload ≡ ok item
      → read_frame c (frame payload ++ rest) ≡ ok (item, rest)
  unfolding read_frame
  read_frame-frame item payload rest h e =
      ap (λ n. read_body n (payload ++ rest)) (u32_prefix-eq (length payload) (omega arith))
      ∙ read_body-frame item payload rest h e

  -- The frame that an encoder appends.
  pub record IsFrame (item : F) (bytes : List ℕ) : Type 0 where
    pub payload : List ℕ
    pub written : c.into_writer item ≡ ok payload
    pub fits : length payload ≤ max_frame_size
    pub layout : bytes ≡ frame payload

  pub encode-IsFrame :
      (item : F) (dst out : List ℕ)
      → encode c item dst ≡ ok out
      → (bytes : List ℕ) × (out ≡ dst ++ bytes) × IsFrame item bytes
  unfolding encode
  encode-IsFrame item dst out h =
      let (payload, mapped, h1) = >>=-eq-ok (map_err (c.into_writer item)) _ h in
      let (small, appended) = >>-eq-ok (reject (ltb max_frame_size (length payload)) _) _ h1 in
      (
        frame payload,
        ground arith,
        record {
          payload = payload;
          written = unmap (c.into_writer item) payload mapped;
          fits = fits payload small;
          layout = refl;
        },
      )
    where
      unmap : (r : Result Text (List ℕ)) (p : List ℕ) → map_err r ≡ ok p → r ≡ ok p
      unmap (ok q) p e = ground arith
      unmap (err t) p e = ground arith

      fits :
          (p : List ℕ)
          → reject (ltb max_frame_size (length p)) (oversized_frame (length p) max_frame_size)
            ≡ ok tt
          → length p ≤ max_frame_size
      fits p e = ground arith

  -- If CBOR reads back what it writes: what is encoded after any bytes is decoded and read back,
  -- whatever follows it, and what follows is left untouched; the frame is at most the maximum
  -- size with its four-byte prefix.
  pub decode-encode :
      ReadsBack
      → (item : F) (dst out : List ℕ) → encode c item dst ≡ ok out
      → (bytes : List ℕ) × (out ≡ dst ++ bytes)
        × (length bytes ≤ 4 + max_frame_size)
        × ((rest : List ℕ)
            → (decode c (bytes ++ rest) ≡ (ok (some item), rest))
              × (read_frame c (bytes ++ rest) ≡ ok (item, rest)))
  decode-encode reads item dst out h =
      let (bytes, appended, f) = encode-IsFrame item dst out h in
      let item_read = reads item f.payload f.written in
      (
        bytes,
        appended,
        rw f.layout (omega (arith, f.fits)),
        λ rest. (
          rw f.layout (decode-frame item f.payload rest f.fits item_read),
          rw f.layout (read_frame-frame item f.payload rest f.fits item_read),
        ),
      )
