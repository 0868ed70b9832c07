-- ===== src/LocalPool/Hex.antt =====
-- A socket path survives the URI of crates/tuyau-server/src/local_pool.rs.
use tuyau.Prelude.{
  ℕ, ◌/◌, ◌%◌, ◌<◌, ◌≡◌, refl, ap, Bool, true, List, [], ◌∷◌, ◌++◌, some, arith, ◌==◌, nat_eq, All,
  is_some,
}
use tuyau.Prelude.Texts.{Text, bytes}
use tuyau.Prelude.Bytes.{IsByte}
use tuyau.Net.{SocketAddr}
use tuyau.Routes.{unix}
use tuyau.LocalPool.{
  hex_digit, hex_encode, to_digit, from_str_radix, hex_decode, Uri, authority_of, target_uri,
  socket_path,
}

to_digit-hex_digit : (n : ℕ) → n < 16 → to_digit (hex_digit n) ≡ some n
to_digit-hex_digit n h = ground arith

hex_digit-not_plus : (n : ℕ) → (hex_digit n == b'+') ≡ Bool.false
hex_digit-not_plus n = ground arith

from_str_radix-hex_digit :
    (b : ℕ) → IsByte b → from_str_radix (hex_digit (b / 16)) (hex_digit (b % 16)) ≡ some b
unfolding from_str_radix
from_str_radix-hex_digit b h =
    rw
      (
        hex_digit-not_plus (b / 16),
        to_digit-hex_digit (b / 16) (omega arith),
        to_digit-hex_digit (b % 16) (omega arith),
      )
      (ap some (omega arith))

hex_decode-hex_encode : (bs : List ℕ) → All IsByte bs → hex_decode (hex_encode bs) ≡ some bs
unfolding hex_decode hex_encode
hex_decode-hex_encode [] h = refl
hex_decode-hex_encode (b ∷ bs) (h, hs) =
    rw (from_str_radix-hex_digit b h, hex_decode-hex_encode bs hs) refl

abbrev pub IsHexDigit : ℕ → Type 0
IsHexDigit c = is_some (to_digit c) ≡ true

hex_encode-IsHexDigit : (bs : List ℕ) → All IsByte bs → All IsHexDigit (hex_encode bs)
unfolding hex_encode
hex_encode-IsHexDigit [] h = tt
hex_encode-IsHexDigit (b ∷ bs) (h, hs) = (
  ap is_some (to_digit-hex_digit (b / 16) (omega arith)),
  (ap is_some (to_digit-hex_digit (b % 16) (omega arith)), hex_encode-IsHexDigit bs hs),
)

-- What RFC 3986 and the crate `http` say of a URI: a label of hex digits between the scheme and a
-- path with a slash is its host.
abbrev pub HasHost : {U : Type 0} → Uri U → Type 0
HasHost {U} uri =
    (label path : Text) (made : U)
    → All IsHexDigit label
    → uri.parse (bytes "http://" ++ (label ++ (b'/' ∷ path))) ≡ some made
    → uri.host made ≡ some label

-- The socket path of a target survives the URI: the connector reads from the URI of `send` the path
-- of the target, for a request whose path starts with a slash.
pub socket_path-target_uri :
    {U : Type 0} (uri : Uri U) (display : SocketAddr → Text)
    → HasHost uri
    → (path rest : Text) (u made : U) → All IsByte path
    → uri.path_and_query u ≡ some (b'/' ∷ rest)
    → target_uri uri display (unix path) u ≡ some made
    → socket_path uri made ≡ some path
unfolding socket_path target_uri authority_of
socket_path-target_uri uri display has_host path rest u made is_bytes with_slash sent =
    let seen = rw (with_slash, target_uri) at sent in
    rw (has_host (hex_encode path) rest made (hex_encode-IsHexDigit path is_bytes) seen)
      (hex_decode-hex_encode path is_bytes)
