-- ===== src/Public/Tunnel.antt =====
-- crates/tuyau-server/src/public.rs: `open_tunnel_stream`, which sends the header of a stream ahead
-- of the bytes of the public connection.
use tuyau.Prelude.{ℕ, Bool, List, [], Option, none, some, if◌then◌else◌, Result, ok, err}
use tuyau.Prelude.Texts.{Text}
use tuyau.Net.{SocketAddr}
use tuyau.Protocol.Frame.{DataStreamHeader}
use tuyau.Protocol.Codec.{Cbor, ProtocolError, encode}
use tuyau.Routes.{RouteEntry}

-- `SocketAddr::to_string` is an argument.
abbrev pub stream_header : (SocketAddr → Text) → RouteEntry → Text → SocketAddr → DataStreamHeader
stream_header display route sni peer = record {
  hostname = sni;
  peer_addr = display peer;
  mode = route.tls_mode;
}

-- `writer.send(header)`
abbrev pub sent : Bool → Result ProtocolError (List ℕ) → Option (List ℕ)
sent is_writable (err e) = none
sent is_writable (ok header) = if is_writable then some header else none

-- What was written to the new stream; `none` if it cannot be opened (`is_open`), the header does not
-- fit a frame, or writing fails (`is_writable`).
unfoldable pub open_tunnel_stream :
    Cbor DataStreamHeader
    → (SocketAddr → Text)
    → Bool
    → Bool
    → RouteEntry
    → Text
    → SocketAddr
    → Option (List ℕ)
open_tunnel_stream cbor display is_open is_writable route sni peer =
    if is_open
    then sent is_writable (encode cbor (stream_header display route sni peer) [])
    else none
