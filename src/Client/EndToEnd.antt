-- ===== src/Client/EndToEnd.antt =====
-- A public connection from its first byte in crates/tuyau-server/src/public.rs to the local service
-- of crates/tuyau-client/src/client.rs.
use tuyau.Prelude.{
  ℕ, ◌≡◌, refl, sym, ap, ◌∙◌, Bool, false, List, [], ◌∷◌, ◌++◌, append-nil, some, ok,
}
use tuyau.Prelude.Texts.{Text}
use tuyau.Net.{SocketAddr}
use tuyau.Protocol.Codec.RoundTrip.{ReadsBack}
use tuyau.Routes.{RouteEntry, RoutingTable, tunnel, is_terminated, lookup}
use tuyau.Sni.{parse_sni}
use tuyau.Sni.Results.{ret}
use tuyau.ClientConfig.{ClientConfig}
use tuyau.Public.{Handshake, pipe_raw, handle_host}
use tuyau.Public.Wire.{new, read_all, read_client_hello}
use tuyau.Public.Wire.Replay.{ahead, read_client_hello-replayed}
use tuyau.Public.Tunnel.{stream_header, open_tunnel_stream}
use tuyau.Public.Entry.{client_of, handle_public}
use tuyau.Public.Dispatch.{
  StreamEvent, writes, finishes, Ending, tunnelled, Io, raw_bytes, dispatch_tunnel, dispatch,
  serve_public,
}
use tuyau.Client.{ingress_map}
use tuyau.Client.Serve.{stream, TunnelStream, forward_to, accept_bi, forward_stream}
use tuyau.Client.Delivery.{rule_for, forward_stream-open_tunnel_stream}

-- The bytes that events write.
abbrev pub written : List StreamEvent → List ℕ
written [] = []
written (writes bytes ∷ es) = bytes ++ written es
written (finishes ∷ es) = written es

-- Whether the last event closes the stream.
abbrev pub IsFinished : List StreamEvent → Type 0
IsFinished [] = ⊥
IsFinished (finishes ∷ []) = Unit
IsFinished (e ∷ es) = IsFinished es

module _ (io : Io) (config : ClientConfig) (reachable : Text → Bool) where
  -- The connection ended in a tunnel, and the client at its other end sends exactly these bytes to
  -- the service that its rules give for the host; the stream is closed behind them.
  abbrev pub IsDelivered : RouteEntry → Text → SocketAddr → List ℕ → Ending → Type 0
  IsDelivered entry sni peer sent (tunnelled to to_tunnel to_public) =
      (to ≡ entry)
      × IsFinished to_tunnel
      × IsFinished to_public
      × ((s : TunnelStream) × (accept_bi io.cbor (stream (written to_tunnel)) ≡ ok s)
          × (s.header ≡ stream_header io.display entry sni peer)
          × (forward_stream reachable (ingress_map config) s
              ≡ forward_to reachable (rule_for sni config.ingress) sent))
  IsDelivered entry sni peer sent _ = ⊥

  dispatch_tunnel-IsDelivered :
      ReadsBack io.cbor
      → (error_502 sni : Text) (peer : SocketAddr) (entry : RouteEntry) (source header : List ℕ)
      → open_tunnel_stream io.cbor io.display (io.open_bi entry) (io.send entry) entry sni peer
        ≡ some header
      → io.takes source ≡ source
      → IsDelivered entry sni peer source (dispatch_tunnel io error_502 sni peer entry source)
  unfolding dispatch_tunnel
  dispatch_tunnel-IsDelivered reads error_502 sni peer entry source header opened taken =
      let (s, accepted, same, forwarded) =
        forward_stream-open_tunnel_stream io.cbor io.display reads (io.open_bi entry)
          (io.send entry) entry sni peer config reachable opened source in
      rw (opened, taken, append-nil source) (refl, tt, tt, (s, accepted, same, forwarded))

  module _ (is_open : ℕ → Bool) (needs_client_cert : Bool) (t : RoutingTable)
      (handshake : Text → Handshake) (error_502 : Text) (peer : SocketAddr) where
    dispatch_raw :
        (sni : Text) (entry : RouteEntry) (hello rest : List ℕ)
        → dispatch io error_502 sni peer
            (pipe_raw entry)
            (client_of needs_client_cert)
            (new hello rest)
          ≡ dispatch_tunnel io error_502 sni peer entry (raw_bytes io (new hello rest))
    unfolding dispatch
    dispatch_raw sni entry hello rest = refl

    -- A connection for a host that is not terminated and that the table routes to a tunnel reaches
    -- the local service of the client that holds the tunnel exactly as it was sent, its ClientHello
    -- included, behind a header that names the host and the peer, and both streams are closed: if
    -- the tunnel's stream opens, the destinations take what is copied, and the copy loop reads to
    -- the end of the connection.
    pub serve_public-IsDelivered :
        ReadsBack io.cbor
        → (arrived hello rest : List ℕ) (sni : Text) (entry : RouteEntry) (header : List ℕ)
        → read_client_hello arrived ≡ ok (hello, rest)
        → parse_sni hello ≡ ret sni
        → is_terminated t sni ≡ false
        → (lookup is_open sni t).1 ≡ some (tunnel entry)
        → open_tunnel_stream io.cbor io.display (io.open_bi entry) (io.send entry) entry sni peer
          ≡ some header
        → ((source : List ℕ) → io.takes source ≡ source)
        → ahead (read_all io.inner_read (io.reads (new hello rest)) (new hello rest)).0 ≡ []
        → IsDelivered entry sni peer arrived
            (serve_public io is_open needs_client_cert t handshake error_502 peer arrived).1
    unfolding serve_public handle_public handle_host
    serve_public-IsDelivered reads arrived hello rest sni entry header read named raw routed opened
          taken drained =
        let (_, _, replayed) =
          read_client_hello-replayed io.inner_read (io.reads (new hello rest)) arrived hello rest
            read in
        let all : raw_bytes io (new hello rest) ≡ arrived =
          sym (append-nil _)
          ∙ ap (λ l. (read_all io.inner_read (io.reads (new hello rest)) (new hello rest)).1 ++ l)
              (sym drained)
          ∙ replayed in
        rw (read, named, raw, routed, dispatch_raw sni entry hello rest, all)
          (dispatch_tunnel-IsDelivered reads error_502 sni peer entry arrived header opened
            (taken arrived))
