-- ===== src/Client/Listener.antt =====
-- crates/tuyau-client/src/listener.rs and tls.rs: the listener over a tunnel. Parsing the address
-- of a peer and the TLS handshake of the application are arguments.
use tuyau.Prelude.{ℕ, zero, suc, List, [], ◌∷◌, Option, unwrap_or, Result, ok, err, ◌>>=◌}
use tuyau.Prelude.Texts.{Text}
use tuyau.Net.{SocketAddr, v4}
use tuyau.Protocol.Frame.{DataStreamHeader}
use tuyau.Protocol.Codec.{Cbor}
use tuyau.Client.{ClientError, quic_connection, io}
use tuyau.Client.Serve.{Incoming, TunnelStream, accept_bi}

-- What `axum::serve` gets from one call of `accept`: a connection, with what arrives behind it;
-- nothing for ever, once the tunnel is gone; or the call still waits.
pub data Accepted (A : Type 0) : Type 0 where
  yielded : A → List Incoming → Accepted A
  pending awaiting : Accepted A

-- The loop of `axum::serve::Listener::accept` over an `accept` that fails.
unfoldable pub accept_loop :
    {A : Type 0} → (Incoming → Result ClientError A) → List Incoming → Accepted A
accept_loop accept [] = awaiting
accept_loop accept (i ∷ is) =
    let rest = accept_loop accept is in
    elim (accept i) [ ok a ↦ yielded a is | err (quic_connection e) ↦ pending | err _ ↦ rest ]

-- `SocketAddr::from(([0, 0, 0, 0], 0))`
abbrev pub unspecified : SocketAddr
unspecified = record { ip = v4 0; port = 0 }

module _ (cbor : Cbor DataStreamHeader) (parse_addr : Text → Option SocketAddr) where
  abbrev pub peer_of : TunnelStream → SocketAddr
  peer_of s = unwrap_or (parse_addr s.header.peer_addr) unspecified

  -- `TunnelListener::accept`, whose first part is that of `accept_bi`.
  unfoldable pub accept : Incoming → Result ClientError (TunnelStream × SocketAddr)
  accept i = do s ← accept_bi cbor i; ok (s, peer_of s)

  -- `TlsTunnelListener::accept`; the handshake gives the decrypted stream.
  unfoldable pub accept_tls :
      (List ℕ → Result Text (List ℕ)) → Incoming → Result ClientError (List ℕ × SocketAddr)
  unfolding accept
  accept_tls handshake i = do (s, addr) ← accept i; tls ← tls_of (handshake s.recv); ok (tls, addr)
    where
      tls_of : Result Text (List ℕ) → Result ClientError (List ℕ)
      tls_of (ok tls) = ok tls
      tls_of (err e) = err (io e)

-- `axum::serve` accepts again and again, here at most `n` times.
unfoldable pub accept_all :
    {A : Type 0} → ℕ → (Incoming → Result ClientError A) → List Incoming → List A
accept_all zero accept is = []
accept_all (suc n) accept is = elim (accept_loop accept is) [
  | yielded a rest ↦ a ∷ accept_all n accept rest
  | pending ↦ []
  | awaiting ↦ []
]
