-- ===== src/Public/Wire.antt =====
-- crates/tuyau-server/src/public.rs: `read_client_hello`, and `PrefixedStream`, which gives the
-- bytes that it took back to whoever reads the connection next. A connection is the list of the
-- bytes that arrive until its end.
pub mod Replay
use tuyau.Prelude.{
  ℕ, ◌+◌, ◌*◌, ◌-◌, ◌≡◌, Bool, not, List, [], ◌∷◌, ◌++◌, Option, none, some, if◌then◌else◌, ltb,
  ◌==◌, nat_eq, min, length, take, drop, Result, ok, err, ◌>>=◌, ◌>>◌, reject,
}
use tuyau.Prelude.Bytes.{u16_of}

abbrev pub max_record_size : ℕ
max_record_size = 16 * 1024

pub data HelloError : Type 0 where
  unexpected_eof : HelloError
  not_handshake record_too_large : ℕ → HelloError

abbrev pub read_exact : ℕ → List ℕ → Result HelloError (List ℕ × List ℕ)
read_exact n r = if ltb (length r) n then err unexpected_eof else ok (take n r, drop n r)

-- The checks on the header of five bytes, and the record behind it.
abbrev pub read_record : List ℕ → List ℕ → Result HelloError (List ℕ × List ℕ)
read_record (a ∷ b ∷ c ∷ d ∷ e ∷ []) rest = do
  reject (not (a == 0x16)) (not_handshake a)
  reject (ltb max_record_size (u16_of d e)) (record_too_large (u16_of d e))
  (body, left) ← read_exact (u16_of d e) rest
  ok (a ∷ b ∷ c ∷ d ∷ e ∷ body, left)
read_record _ rest = err unexpected_eof

-- The record, and what is left of the connection.
unfoldable pub read_client_hello : List ℕ → Result HelloError (List ℕ × List ℕ)
read_client_hello r = do (header, rest) ← read_exact 5 r; read_record header rest

pub record PrefixedStream : Type 0 where
  pub prefix : List ℕ
  pub consumed : ℕ
  pub inner : List ℕ

abbrev pub new : List ℕ → List ℕ → PrefixedStream
new prefix inner = record { prefix = prefix; consumed = 0; inner = inner }

-- `poll_read` into a buffer with room for `room` bytes: the bytes put there. `inner_read` is the
-- `poll_read` of the connection: how many bytes it gives.
module _ (inner_read : ℕ → List ℕ → ℕ) where
  unfoldable pub poll_read : ℕ → PrefixedStream → PrefixedStream × List ℕ
  poll_read room s =
      let remaining = drop s.consumed s.prefix in
      let count = min (length remaining) room in
      let given = inner_read room s.inner in
      if ltb s.consumed (length s.prefix)
      then (record s { consumed = s.consumed + count }, take count remaining)
      else (record s { inner = drop given s.inner }, take given s.inner)

  -- Successive reads, and all the bytes that they give.
  unfoldable pub read_all : List ℕ → PrefixedStream → PrefixedStream × List ℕ
  unfolding poll_read
  read_all [] s = (s, [])
  read_all (room ∷ rooms) s =
      let (s', got) = poll_read room s in let (s'', more) = read_all rooms s' in (s'', got ++ more)
