-- ===== src/Client/Delivery.antt =====
-- From the public listener of crates/tuyau-server/src/public.rs through a tunnel to the local
-- service of crates/tuyau-client/src/client.rs.
use tuyau.Prelude.{
  ℕ, ◌≡◌, refl, ap, Bool, true, false, List, [], ◌∷◌, ◌++◌, map, Option, none, some, arith,
  if◌then◌else◌, ◌==◌, text_eq, or_else, some_inj, Result, ok, err,
}
use tuyau.Prelude.Texts.{Text}
use tuyau.Prelude.Dict.{Dict, get, insert, collect, get-insert}
use tuyau.Net.{SocketAddr}
use tuyau.Protocol.Frame.{DataStreamHeader}
use tuyau.Protocol.Codec.{Cbor, ProtocolError, encode}
use tuyau.Protocol.Codec.RoundTrip.{ReadsBack, decode-encode}
use tuyau.Routes.{RouteEntry}
use tuyau.ClientConfig.{ClientConfig, IngressRule}
use tuyau.Public.Tunnel.{stream_header, sent, open_tunnel_stream}
use tuyau.Client.{ingress_map}
use tuyau.Client.Serve.{stream, TunnelStream, forward_to, accept_bi, forward_stream}

-- The local address of the last rule for a host.
pub rule_for : Text → List IngressRule → Option Text
rule_for host [] = none
rule_for host (r ∷ rs) =
    or_else (rule_for host rs) (if r.host == host then some r.local_addr else none)

abbrev pairs : List IngressRule → List (Text × Text)
pairs rules = map (λ r. (r.host, r.local_addr)) rules

get-collect :
    (host : Text) (rules : List IngressRule) (m : Dict Text Text)
    → get host (collect (pairs rules) m) ≡ or_else (rule_for host rules) (get host m)
unfolding collect rule_for
get-collect host [] m = refl
get-collect host (r ∷ rs) m =
    rw (get-collect host rs (insert r.host r.local_addr m), get-insert r.host host r.local_addr m)
      (ground arith)

get-ingress_map :
    (host : Text) (config : ClientConfig)
    → get host (ingress_map config) ≡ rule_for host config.ingress
unfolding get
get-ingress_map host config = rw (get-collect host config.ingress []) (ground arith)

sent-some :
    (is_open is_writable : Bool) (header : Result ProtocolError (List ℕ)) {written : List ℕ}
    → (if is_open then sent is_writable header else none) ≡ some written
    → header ≡ ok written
sent-some false is_writable header h = cc
sent-some true is_writable (err e) h = cc
sent-some true false (ok bytes) h = cc
sent-some true true (ok bytes) h = ap ok (some_inj.0 h)

module _ (cbor : Cbor DataStreamHeader) (display : SocketAddr → Text) where
  open_tunnel_stream-some :
      (is_open is_writable : Bool) (route : RouteEntry) (sni : Text) (peer : SocketAddr)
      {written : List ℕ}
      → open_tunnel_stream cbor display is_open is_writable route sni peer ≡ some written
      → encode cbor (stream_header display route sni peer) [] ≡ ok written
  unfolding open_tunnel_stream
  open_tunnel_stream-some is_open is_writable route sni peer h =
      sent-some is_open is_writable (encode cbor (stream_header display route sni peer) []) h

  -- What the server writes to a stream that it opened for a host, the header and then the bytes of
  -- the public connection, reaches the client with that header, and exactly the public bytes go to
  -- the local address of the last ingress rule for that host, if there is one and it is reachable.
  pub forward_stream-open_tunnel_stream :
      ReadsBack cbor
      → (is_open is_writable : Bool) (route : RouteEntry) (sni : Text) (peer : SocketAddr)
        (config : ClientConfig) (reachable : Text → Bool) {written : List ℕ}
      → open_tunnel_stream cbor display is_open is_writable route sni peer ≡ some written
      → (public : List ℕ)
      → (s : TunnelStream) × (accept_bi cbor (stream (written ++ public)) ≡ ok s)
        × (s.header ≡ stream_header display route sni peer)
        × (forward_stream reachable (ingress_map config) s
            ≡ forward_to reachable (rule_for sni config.ingress) public)
  unfolding accept_bi forward_stream
  forward_stream-open_tunnel_stream reads is_open is_writable route sni peer config reachable
        {written} h public =
      let header = stream_header display route sni peer in
      let (bytes, same, short, read) =
        decode-encode cbor reads header [] written
          (open_tunnel_stream-some is_open is_writable route sni peer h) in
      (
        record { header = header; recv = public },
        rw (same, (read public).1) refl,
        refl,
        ap (λ addr. forward_to reachable addr public) (get-ingress_map sni config),
      )
