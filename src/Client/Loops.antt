-- ===== src/Client/Loops.antt =====
-- The `serve` loop of crates/tuyau-client/src/client.rs: what it forwards, and when it returns.
use tuyau.Prelude.{
  ℕ, ◌≡◌, refl, Bool, true, false, List, [], ◌∷◌, if◌then◌else◌, any, Result, ok, err,
}
use tuyau.Protocol.Frame.{DataStreamHeader}
use tuyau.Protocol.Codec.{Cbor, ProtocolError, read_frame}
use tuyau.Client.Serve.{
  Incoming, stream, late_header, connection_lost, TunnelStream, Serving, waiting, returned,
  accept_bi, opened, round, after_round, serve,
}

abbrev pub is_lost : Incoming → Bool
is_lost (connection_lost e) = true
is_lost _ = false

-- What arrives before the connection is lost.
pub until_lost : List Incoming → List Incoming
until_lost [] = []
until_lost (connection_lost e ∷ is) = []
until_lost (late_header ∷ is) = late_header ∷ until_lost is
until_lost (stream arrived ∷ is) = stream arrived ∷ until_lost is

module _ (cbor : Cbor DataStreamHeader) where
  abbrev pub add_stream :
      Result ProtocolError (DataStreamHeader × List ℕ) → List TunnelStream → List TunnelStream
  add_stream (ok (header, rest)) ss = record { header = header; recv = rest } ∷ ss
  add_stream (err e) ss = ss

  -- The streams whose header can be read.
  pub readable : List Incoming → List TunnelStream
  readable [] = []
  readable (stream arrived ∷ is) = add_stream (read_frame cbor arrived) (readable is)
  readable (_ ∷ is) = readable is

  serve-add_stream :
      (header : Result ProtocolError (DataStreamHeader × List ℕ))
      (rest : List TunnelStream × Serving)
      → after_round (round (opened header)) rest ≡ (add_stream header rest.0, rest.1)
  serve-add_stream (ok (header, recv)) rest = refl
  serve-add_stream (err e) rest = refl

  -- The loop forwards exactly the streams with a readable header that arrive before the connection
  -- is lost, in their order; a bad or late header only drops its stream. It returns exactly if the
  -- connection is lost, and waits otherwise.
  pub serve-until_lost :
      (is : List Incoming)
      → serve cbor is ≡ (readable (until_lost is), if any is_lost is then returned else waiting)
  unfolding serve accept_bi readable until_lost
  serve-until_lost [] = refl
  serve-until_lost (connection_lost e ∷ is) = refl
  serve-until_lost (late_header ∷ is) = serve-until_lost is
  serve-until_lost (stream arrived ∷ is) =
      rw (serve-add_stream (read_frame cbor arrived) (serve cbor is), serve-until_lost is) refl
