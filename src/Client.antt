-- ===== src/Client.antt =====
-- crates/tuyau-client/src/client.rs, verifier.rs and ClientError of error.rs: connecting to the
-- server. The DNS, the QUIC connection and SHA-256 are arguments.
pub mod Serve
pub mod Listener
pub mod Connected
pub mod Loops
pub mod Axum
pub mod Delivery
pub mod EndToEnd
use tuyau.Prelude.{
  ℕ, ◌≡◌, Bool, List, [], ◌∷◌, map, Option, none, some, if◌then◌else◌, ◌==◌, text_eq, Result, ok,
  err, ◌>>=◌, ◌>>◌, ok_or,
}
use tuyau.Prelude.Texts.{Text, rsplit_once}
use tuyau.Prelude.Dict.{Dict, collect}
use tuyau.Net.{SocketAddr}
use tuyau.Protocol.Frame.{Hello, HelloResponse, welcome, rejected}
use tuyau.Protocol.Codec.{ProtocolError}
use tuyau.ClientConfig.{ClientConfig}

pub data ClientError : Type 0 where
  invalid_server_addr dns_empty dns rejected_by_server : Text → ClientError
  quic_connection io tls : Text → ClientError
  protocol : ProtocolError → ClientError
  response_timeout connect_timeout stream_closed_before_response : ClientError

-- `PinningCertVerifier::verify_server_cert`
unfoldable pub verify_server_cert : (List ℕ → List ℕ) → List ℕ → List ℕ → Bool
verify_server_cert sha256 fingerprint end_entity = sha256 end_entity == fingerprint

unfoldable pub split_host_port : Text → Result ClientError (Text × Text)
split_host_port s = ok_or (rsplit_once b':' s) (invalid_server_addr s)

-- How the reader's next item comes within the time.
pub data Response : Type 0 where
  answered : HelloResponse → Response
  malformed : ProtocolError → Response
  closed late : Response

-- What connecting meets: the DNS, the dial to an address under the name of a host, where a stream
-- is opened and the hello written, and the response to the hello.
pub record Network : Type 0 where
  pub lookup_host : Text → Result Text (List SocketAddr)
  pub dial : SocketAddr → Text → Result ClientError (Unit {0})
  pub send_hello : Hello → Result ClientError (Unit {0})
  pub response : Response

pub record TunnelClient : Type 0 where
  pub server_addr : SocketAddr
  pub ingress : Dict Text Text

abbrev pub first_addr : Text → Result Text (List SocketAddr) → Result ClientError SocketAddr
first_addr name (err e) = err (dns e)
first_addr name (ok []) = err (dns_empty name)
first_addr name (ok (addr ∷ addrs)) = ok addr

-- A later rule for a host replaces an earlier one.
abbrev pub ingress_map : ClientConfig → Dict Text Text
ingress_map config = collect (map (λ r. (r.host, r.local_addr)) config.ingress) []

abbrev pub hello_of : ClientConfig → Hello
hello_of config = record { token = config.token; client_name = config.client_name }

-- The response to the hello; a rejected client has closed its connection.
abbrev pub check_response : Response → Result ClientError (Unit {0})
check_response (answered welcome) = ok tt
check_response (answered (rejected reason)) = err (rejected_by_server reason)
check_response (malformed e) = err (protocol e)
check_response closed = err stream_closed_before_response
check_response late = err response_timeout

unfoldable pub connect : Network → ClientConfig → Result ClientError TunnelClient
unfolding split_host_port
connect net config = do
  (host, port) ← split_host_port config.server_addr
  addr ← first_addr config.server_addr (net.lookup_host config.server_addr)
  net.dial addr host
  net.send_hello (hello_of config)
  check_response net.response
  ok (record { server_addr = addr; ingress = ingress_map config })
