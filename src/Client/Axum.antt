-- ===== src/Client/Axum.antt =====
-- The listener of crates/tuyau-client/src/listener.rs gives the connections that `serve` forwards.
use tuyau.Prelude.{
  ℕ, zero, suc, ◌≤◌, ◌≡◌, refl, ap, List, [], ◌∷◌, map, Option, arith, length, inl, inr,
  Result-cases,
}
use tuyau.Prelude.Texts.{Text}
use tuyau.Net.{SocketAddr}
use tuyau.Protocol.Frame.{DataStreamHeader}
use tuyau.Protocol.Codec.{Cbor, read_frame}
use tuyau.Client.Serve.{
  Incoming, stream, late_header, connection_lost, TunnelStream, accept_bi, serve,
}
use tuyau.Client.Listener.{accept_loop, accept_all, peer_of, accept}

module _ (cbor : Cbor DataStreamHeader) (parse_addr : Text → Option SocketAddr) where
  abbrev with_peer : TunnelStream → TunnelStream × SocketAddr
  with_peer s = (s, peer_of cbor parse_addr s)

  -- `axum::serve` gets from the listener the streams that `serve` would forward, in the same order,
  -- each with the address of its peer, if it accepts as often as something arrives.
  pub accept_all-serve :
      (n : ℕ) (is : List Incoming)
      → length is ≤ n
      → accept_all n (accept cbor parse_addr) is ≡ map with_peer (serve cbor is).0
  unfolding accept_all accept_loop accept serve accept_bi
  accept_all-serve zero [] h = refl
  accept_all-serve zero (i ∷ is) h = absurd (omega arith)
  accept_all-serve (suc n) [] h = refl
  accept_all-serve (suc n) (connection_lost e ∷ is) h = refl
  accept_all-serve (suc n) (late_header ∷ is) h = accept_all-serve (suc n) is (omega arith)
  accept_all-serve (suc n) (stream arrived ∷ is) h = elim (Result-cases (read_frame cbor arrived)) [
    | inl (framed, e) ↦
        rw (e, accept_all)
          (ap (◌∷◌ (with_peer (record { header = framed.0; recv = framed.1 })))
            (accept_all-serve n is (omega arith)))
    | inr (bad, e) ↦ rw (e, accept_all) (accept_all-serve (suc n) is (omega arith))
  ]
