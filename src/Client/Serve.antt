-- ===== src/Client/Serve.antt =====
-- crates/tuyau-client/src/client.rs: the streams that the server opens, and where their bytes go.
use tuyau.Prelude.{
  ℕ, Bool, List, [], ◌∷◌, Option, none, some, if◌then◌else◌, text_eq, Result, ok, err,
}
use tuyau.Prelude.Texts.{Text}
use tuyau.Prelude.Dict.{Dict, get}
use tuyau.Protocol.Frame.{DataStreamHeader}
use tuyau.Protocol.Codec.{Cbor, ProtocolError, read_frame}
use tuyau.Client.{ClientError, quic_connection, protocol, response_timeout}

-- What `connection.accept_bi` and the wait for the header bring: a stream with the bytes that the
-- server writes to it, one whose header is late, or the end of the connection.
pub data Incoming : Type 0 where
  stream : List ℕ → Incoming
  late_header : Incoming
  connection_lost : Text → Incoming

pub record TunnelStream : Type 0 where
  pub header : DataStreamHeader
  pub recv : List ℕ

-- What `forward_stream` does with a stream: the bytes that the local service gets from it.
pub data Forwarded : Type 0 where
  no_rule : Forwarded
  unreachable : Text → Forwarded
  piped : Text → List ℕ → Forwarded

-- Whether the loop still waits for a stream, or has returned.
pub data Serving : Type 0 where
  waiting returned : Serving

-- What one round of the loop does: forward a stream, return, or go on.
pub data Round : Type 0 where
  forwards : TunnelStream → Round
  returns skips : Round

abbrev pub round : Result ClientError TunnelStream → Round
round (ok s) = forwards s
round (err (quic_connection e)) = returns
round (err e) = skips

abbrev pub opened :
    Result ProtocolError (DataStreamHeader × List ℕ) → Result ClientError TunnelStream
opened (err e) = err (protocol e)
opened (ok (header, rest)) = ok (record { header = header; recv = rest })

-- The rest of the loop is not run once it returns.
abbrev pub after_round : Round → List TunnelStream × Serving → List TunnelStream × Serving
after_round (forwards s) rest = (s ∷ rest.0, rest.1)
after_round returns rest = ([], returned)
after_round skips rest = rest

module _ (cbor : Cbor DataStreamHeader) where
  unfoldable pub accept_bi : Incoming → Result ClientError TunnelStream
  accept_bi (connection_lost e) = err (quic_connection e)
  accept_bi late_header = err response_timeout
  accept_bi (stream arrived) = opened (read_frame cbor arrived)

  -- The streams that are handed to `forward_stream`, in order.
  unfoldable pub serve : List Incoming → List TunnelStream × Serving
  unfolding accept_bi
  serve [] = ([], waiting)
  serve (i ∷ is) = let rest = serve is in after_round (round (accept_bi i)) rest

-- `TcpStream::connect` to a local address is an argument.
abbrev pub forward_to : (Text → Bool) → Option Text → List ℕ → Forwarded
forward_to reachable none recv = no_rule
forward_to reachable (some local_addr) recv =
    if reachable local_addr then piped local_addr recv else unreachable local_addr

unfoldable pub forward_stream : (Text → Bool) → Dict Text Text → TunnelStream → Forwarded
forward_stream reachable ingress s = forward_to reachable (get s.header.hostname ingress) s.recv
