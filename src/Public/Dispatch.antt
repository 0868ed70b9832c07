-- ===== src/Public/Dispatch.antt =====
-- crates/tuyau-server/src/public.rs: where `handle_public` sends the bytes of a connection once it
-- has decided. Sockets, TLS and the copy loops of `tokio` answer through arguments.
use tuyau.Prelude.{ℕ, Bool, List, [], ◌∷◌, Option, none, some, Result, ok}
use tuyau.Prelude.Texts.{Text}
use tuyau.Net.{SocketAddr}
use tuyau.Protocol.Frame.{DataStreamHeader}
use tuyau.Protocol.Codec.{Cbor}
use tuyau.Routes.{RouteEntry, UpstreamTarget, tcp, unix, RoutingTable}
use tuyau.HttpProxy.{Client}
use tuyau.Public.{
  Handshake, Action, dropped, challenge_served, serve_h2, serve_h1, pipe_plain, pipe_raw,
  splice_plain, splice_raw, page_502,
}
use tuyau.Public.Wire.{HelloError, read_client_hello, PrefixedStream, new, read_all}
use tuyau.Public.Tunnel.{open_tunnel_stream}
use tuyau.Public.Page.{write_502}
use tuyau.Public.Entry.{Handled, hello_failed, no_sni, decided, handle_public}

-- How `timeout(…, connect)` ends.
pub data Dial : Type 0 where
  connected refused timed_out : Dial

-- What is done to a stream: bytes are written to it, or its writing side is closed.
pub data StreamEvent : Type 0 where
  writes : List ℕ → StreamEvent
  finishes : StreamEvent

-- How a connection ends, with what was done to the streams on both sides.
pub data Ending : Type 0 where
  closed failed : Ending
  http2 http1 : Client → Ending
  answered : List StreamEvent → Ending
  tunnelled : RouteEntry → List StreamEvent → List StreamEvent → Ending
  spliced : UpstreamTarget → List StreamEvent → List StreamEvent → Ending

-- What `handle_public` calls. `reads` are the sizes of the buffers with which a copy loop reads a
-- `PrefixedStream`, `inner_read` says how much of a buffer the connection fills, `plaintext` is what
-- a copy loop reads of a TLS stream and `answer` what it reads of the backend's; `takes` is what the
-- destination takes of copied bytes until it fails.
pub record Io : Type 0 where
  pub cbor : Cbor DataStreamHeader
  pub display : SocketAddr → Text
  pub open_bi : RouteEntry → Bool
  pub send : RouteEntry → Bool
  pub connect_tcp : SocketAddr → Dial
  pub connect_unix : Text → Dial
  pub inner_read : ℕ → List ℕ → ℕ
  pub reads : PrefixedStream → List ℕ
  pub plaintext : Text → List ℕ
  pub answer : List ℕ
  pub takes : List ℕ → List ℕ

-- `connect_tcp` and `connect_unix`: whether there is a stream.
abbrev pub dialled : Dial → Option (Unit {0})
dialled connected = some tt
dialled refused = none
dialled timed_out = none

module _ (io : Io) where
  -- What a copy loop reads of a connection whose ClientHello is replayed.
  unfoldable pub raw_bytes : PrefixedStream → List ℕ
  raw_bytes s = (read_all io.inner_read (io.reads s) s).1

  -- One direction of `pipe_bytes`: the writing side is closed however the copying ended.
  abbrev pub copy_and_finish : List ℕ → List StreamEvent
  copy_and_finish source = writes (io.takes source) ∷ finishes ∷ []

  -- The two directions of `splice_local`; `copy_bidirectional` closes the sides by itself.
  abbrev pub splice_local : UpstreamTarget → List ℕ → Option (Unit {0}) → Ending
  splice_local target source none = closed
  splice_local target source (some _) =
      spliced target (writes (io.takes source) ∷ []) (writes (io.takes io.answer) ∷ [])

  unfoldable pub dispatch_local : UpstreamTarget → List ℕ → Ending
  dispatch_local (tcp addr) source = splice_local (tcp addr) source (dialled (io.connect_tcp addr))
  dispatch_local (unix path) source =
      splice_local (unix path) source (dialled (io.connect_unix path))

  -- `pipe_bytes` behind the header that was written to the new stream.
  abbrev pub pipe_bytes : RouteEntry → List ℕ → Option (List ℕ) → Ending
  pipe_bytes entry source none = closed
  pipe_bytes entry source (some header) =
      tunnelled entry (writes header ∷ copy_and_finish source) (copy_and_finish io.answer)

  module _ (error_502 : Text) (sni : Text) (peer : SocketAddr) where
    unfoldable pub dispatch_tunnel : RouteEntry → List ℕ → Ending
    dispatch_tunnel entry source =
        pipe_bytes entry source
          (open_tunnel_stream io.cbor io.display (io.open_bi entry) (io.send entry) entry sni peer)

    -- The end of `handle_public`, for the action that it takes; `prefixed` is the connection.
    unfoldable pub dispatch : Action → Client → PrefixedStream → Ending
    unfolding dispatch_local dispatch_tunnel raw_bytes
    dispatch dropped client prefixed = closed
    dispatch challenge_served client prefixed = closed
    dispatch serve_h2 client prefixed = http2 client
    dispatch serve_h1 client prefixed = http1 client
    dispatch (pipe_plain entry) client prefixed = dispatch_tunnel entry (io.plaintext sni)
    dispatch (splice_plain target) client prefixed = dispatch_local target (io.plaintext sni)
    dispatch page_502 client prefixed = answered (writes (write_502 error_502) ∷ finishes ∷ [])
    dispatch (pipe_raw entry) client prefixed = dispatch_tunnel entry (raw_bytes prefixed)
    dispatch (splice_raw target) client prefixed = dispatch_local target (raw_bytes prefixed)

  -- Behind the ClientHello: what was read of the connection and what is decided.
  abbrev pub dispatch_handled :
      Text
      → SocketAddr
      → Result HelloError (List ℕ × List ℕ)
      → Handled
      → Option RoutingTable × Ending
  dispatch_handled error_502 peer (ok (hello, rest)) (decided sni after action client) =
      (some after, dispatch error_502 sni peer action client (new hello rest))
  dispatch_handled error_502 peer read (hello_failed e) = (none, failed)
  dispatch_handled error_502 peer read no_sni = (none, closed)
  dispatch_handled error_502 peer read _ = (none, failed)

  -- The whole of `handle_public`: the table if it was asked, and the end of the connection.
  unfoldable pub serve_public :
      (ℕ → Bool)
      → Bool
      → RoutingTable
      → (Text → Handshake)
      → Text
      → SocketAddr
      → List ℕ
      → Option RoutingTable × Ending
  unfolding dispatch
  serve_public is_open needs_client_cert t handshake error_502 peer arrived =
      dispatch_handled error_502 peer (read_client_hello arrived)
        (handle_public is_open needs_client_cert t handshake arrived)
