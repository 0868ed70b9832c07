-- ===== src/HttpProxy.antt =====
-- crates/tuyau-server/src/h2proxy.rs: the messages of the HTTP proxy and the headers with the
-- client's address. The crate `http` is the interface `Http`: `H` is its `HeaderMap`, `U` its
-- `Uri`, and a header name or value is a text.
pub mod Serve
pub mod Paths
pub mod Headers
pub mod Proxied
pub mod Address
pub mod Relay
pub mod Connection
use tuyau.Prelude.{
  ℕ, ◌≡◌, Bool, List, Option, none, some, if◌then◌else◌, ◌==◌, text_eq, is_some, or_else, and_then,
  unwrap_or,
}
use tuyau.Prelude.Texts.{Text, bytes, trim}
use tuyau.LocalPool.{Uri}
use tuyau.Net.{IpAddr, SocketAddr, to_canonical}

-- What the proxy calls of the crate `http`, the parsing and printing of an `IpAddr`, and the
-- printing of a `SocketAddr`. Only the first value of a name is observed. The laws are the documented behaviour of `insert`, `remove`
-- and `append`, and that an address is a header value.
pub record Http (H U : Type 0) : Type 0 where
  pub new : H
  pub get : Text → H → Option Text
  pub insert : Text → Text → H → H
  pub append : Text → Text → H → H
  pub remove : Text → H → H
  pub from_str : Text → Option Text
  pub to_str : Text → Option Text
  pub authority : U → Option Text
  pub path_and_query : U → Option Text
  pub parse_uri : Text → Option U
  pub host : U → Option Text
  pub parse_ip : Text → Option IpAddr
  pub display : IpAddr → Text
  pub display_addr : SocketAddr → Text
  pub get_insert :
      (k j v : Text) (h : H) → get j (insert k v h) ≡ (if k == j then some v else get j h)
  pub get_append :
      (k j v : Text) (h : H)
      → get j (append k v h) ≡ (if k == j then or_else (get j h) (some v) else get j h)
  pub get_remove : (k j : Text) (h : H) → get j (remove k h) ≡ (if k == j then none else get j h)
  pub get_new : (k : Text) → get k new ≡ none
  pub from_str_display : (ip : IpAddr) → from_str (display ip) ≡ some (display ip)

-- The part of it that the pool of local upstreams calls.
abbrev pub uri_of : {H U : Type 0} → Http H U → Uri U
uri_of http = record {
  parse = http.parse_uri;
  host = http.host;
  path_and_query = http.path_and_query;
}

pub data Version : Type 0 where
  http_10 http_11 http_2 : Version

-- A request with the `:protocol` of an Extended CONNECT.
pub record Request (H U : Type 0) : Type 0 where
  pub method : Text
  pub uri : U
  pub version : Version
  pub headers : H
  pub protocol : Option Text
  pub body : Text

pub record Response (H : Type 0) : Type 0 where
  pub status : ℕ
  pub headers : H
  pub body : Text

abbrev pub x_real_ip : Text
x_real_ip = bytes "x-real-ip"

abbrev pub x_forwarded_for : Text
x_forwarded_for = bytes "x-forwarded-for"

abbrev pub cf_connecting_ip : Text
cf_connecting_ip = bytes "cf-connecting-ip"

abbrev pub host_name : Text
host_name = bytes "host"

abbrev pub upgrade_name : Text
upgrade_name = bytes "upgrade"

abbrev pub connect_method : Text
connect_method = bytes "CONNECT"

pub data Client : Type 0 where
  proxy_client direct_client : Client

module _ {H U : Type 0} (http : Http H U) where
  open http use {get, insert, remove, from_str, to_str, parse_ip, display}

  -- The address that a proxy client gives.
  unfoldable pub forwarded_ip : H → Client → Option IpAddr
  forwarded_ip headers proxy_client =
      and_then (get cf_connecting_ip headers)
        λ value. and_then (to_str value) λ s. parse_ip (trim s)
  forwarded_ip headers direct_client = none

  -- The address that the headers get.
  abbrev pub client_ip : H → SocketAddr → Client → IpAddr
  client_ip headers peer client = to_canonical (unwrap_or (forwarded_ip headers client) peer.ip)

  -- `none` is the panic of `expect`.
  unfoldable pub set_client_address : H → SocketAddr → Client → Option H
  set_client_address headers peer client =
      let kept =
        if is_some (forwarded_ip headers client)
        then headers
        else remove cf_connecting_ip headers in
      and_then (from_str (display (client_ip headers peer client)))
        λ address. some (insert x_real_ip address (insert x_forwarded_for address kept))
