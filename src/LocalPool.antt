-- ===== src/LocalPool.antt =====
-- crates/tuyau-server/src/local_pool.rs: the URI that names a local upstream to the pooled client,
-- and the connector that reads a socket path back from it. The crate `http` parses the URI.
pub mod Hex
use tuyau.Prelude.{
  ℕ, ◌+◌, ◌*◌, ◌-◌, ◌/◌, ◌%◌, ◌≡◌, Bool, true, ◌&&◌, List, [], ◌∷◌, ◌++◌, Option, none, some,
  if◌then◌else◌, leb, ltb, ◌==◌, nat_eq, and_then, unwrap_or,
}
use tuyau.Prelude.Texts.{Text, bytes}
use tuyau.Net.{SocketAddr}
use tuyau.Routes.{UpstreamTarget, tcp, unix}

-- One digit of `{byte:02x}`
abbrev pub hex_digit : ℕ → ℕ
hex_digit n = if ltb n 10 then n + b'0' else n - 10 + b'a'

unfoldable pub hex_encode : List ℕ → Text
hex_encode [] = []
hex_encode (b ∷ bs) = hex_digit (b / 16) ∷ hex_digit (b % 16) ∷ hex_encode bs

-- `char::to_digit(16)`
abbrev pub to_digit : ℕ → Option ℕ
to_digit c =
    if leb b'0' c && leb c b'9'
    then some (c - b'0')
    else (if leb b'a' c && leb c b'f'
        then some (c - b'a' + 10)
        else (if leb b'A' c && leb c b'F' then some (c - b'A' + 10) else none))

-- `u8::from_str_radix` at radix 16 of two bytes: a first plus sign is skipped. A byte of a character
-- that is not ASCII is no digit, as a slice that splits the character is no text.
unfoldable pub from_str_radix : ℕ → ℕ → Option ℕ
from_str_radix a b =
    if a == b'+'
    then to_digit b
    else and_then (to_digit a) λ high. and_then (to_digit b) λ low. some (high * 16 + low)

-- `none` for an odd length or a pair that is no byte.
unfoldable pub hex_decode : Text → Option (List ℕ)
unfolding from_str_radix
hex_decode [] = some []
hex_decode (a ∷ []) = none
hex_decode (a ∷ b ∷ s) =
    let rest = hex_decode s in
    and_then (from_str_radix a b) λ byte. and_then rest λ bs. some (byte ∷ bs)

-- What the pool calls of a URI: parsing, its host, and its path with the query.
pub record Uri (U : Type 0) : Type 0 where
  pub parse : Text → Option U
  pub host : U → Option Text
  pub path_and_query : U → Option Text

module _ {U : Type 0} (uri : Uri U) (display : SocketAddr → Text) where
  unfoldable pub authority_of : UpstreamTarget → Text
  unfolding hex_encode
  authority_of (tcp addr) = display addr
  authority_of (unix path) = hex_encode path

  -- The URI of the request that `send` gives to the client; `none` is the panic of `expect`.
  unfoldable pub target_uri : UpstreamTarget → U → Option U
  unfolding authority_of
  target_uri target u =
      uri.parse
        (bytes "http://" ++ (authority_of target ++ unwrap_or (uri.path_and_query u) (bytes "/")))

-- The path that `UnixConnector::call` connects to; a path of the configuration is UTF-8, which
-- `from_utf8_lossy` keeps.
unfoldable pub socket_path : {U : Type 0} → Uri U → U → Option Text
unfolding hex_decode
socket_path uri u = and_then (uri.host u) hex_decode
