-- ===== src/Protocol/Codec.antt =====
-- crates/tuyau-protocol/src/codec.rs, error.rs and the constants of lib.rs: length-delimited CBOR
-- frames. CBOR itself is the crate `ciborium`, taken as the two functions that the codec calls.
-- A stream is the list of the bytes that arrive until its end.

pub mod RoundTrip
pub mod Prefix
use tuyau.Prelude.{
  ℕ, ◌+◌, ◌*◌, ◌-◌, ◌%◌, ◌^◌, ◌≡◌, Bool, List, [], ◌∷◌, ◌++◌, Option, none, some, if◌then◌else◌,
  ltb, length, take, drop, Result, ok, err, ◌>>=◌, ◌>>◌, reject,
}
use tuyau.Prelude.Texts.{Text}
use tuyau.Prelude.Bytes.{u32_of, u32_bytes}

-- `MAX_FRAME_SIZE`, without the length prefix of four bytes.
abbrev pub max_frame_size : ℕ
max_frame_size = 65536

pub data ProtocolError : Type 0 where
  unexpected_eof : ProtocolError
  cbor : Text → ProtocolError
  oversized_frame : ℕ → ℕ → ProtocolError

-- `ciborium::into_writer` and `from_reader` at a frame type, with the message of an error.
pub record Cbor (F : Type 0) : Type 0 where
  pub into_writer : F → Result Text (List ℕ)
  pub from_reader : List ℕ → Result Text F

abbrev pub map_err {ℓ} : {A : Type ℓ} → Result Text A → Result ProtocolError A
map_err (ok a) = ok a
map_err (err e) = err (cbor e)

-- The length prefix, and what follows; `none` if there are fewer than four bytes.
abbrev pub split_header : List ℕ → Option (ℕ × List ℕ)
split_header (a ∷ b ∷ c ∷ d ∷ rest) = some (u32_of a b c d, rest)
split_header _ = none

-- `AsyncReadExt::read_exact`: the bytes read and the rest, or an error at the end of the stream.
abbrev pub read_exact : ℕ → List ℕ → Result ProtocolError (List ℕ × List ℕ)
read_exact n r = if ltb (length r) n then err unexpected_eof else ok (take n r, drop n r)

module _ {F : Type 0} (c : Cbor F) where
  -- The bytes that `encode` appends for an item.
  unfoldable pub encode : F → List ℕ → Result ProtocolError (List ℕ)
  encode item dst = do
    payload ← map_err (c.into_writer item)
    reject (ltb max_frame_size (length payload)) (oversized_frame (length payload) max_frame_size)
    ok (dst ++ (u32_bytes (length payload % 2 ^ 32) ++ payload))

  abbrev some_item : Result Text F → Result ProtocolError (Option F)
  some_item (ok item) = ok (some item)
  some_item (err e) = err (cbor e)

  -- The part of `decode` behind the length prefix; `src` is the whole buffer.
  decode_body : ℕ → List ℕ → List ℕ → Result ProtocolError (Option F) × List ℕ
  decode_body frame_len body src =
      if ltb max_frame_size frame_len
      then (err (oversized_frame frame_len max_frame_size), src)
      else (if ltb (length body) frame_len
          then (ok none, src)
          else (some_item (c.from_reader (take frame_len body)), drop frame_len body))

  -- The outcome, and what is left in the buffer: a frame is taken out before its CBOR is read.
  unfoldable pub decode : List ℕ → Result ProtocolError (Option F) × List ℕ
  unfolding decode_body
  decode src = elim (split_header src) [
    | none ↦ (ok none, src)
    | some (frame_len, body) ↦ decode_body frame_len body src
  ]

  -- The frame, and the stream behind it.
  pub read_frame : List ℕ → Result ProtocolError (F × List ℕ)
  read_frame r = elim (split_header r) [
    | none ↦ err unexpected_eof
    | some (frame_len, body) ↦ do
      reject (ltb max_frame_size frame_len) (oversized_frame frame_len max_frame_size)
      (payload, rest) ← read_exact frame_len body
      item ← map_err (c.from_reader payload)
      ok (item, rest)
  ]
