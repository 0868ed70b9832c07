-- ===== src/Tests/Tunnelled.antt =====
-- The theorems on the client, the command line, the local pool and the meter at concrete inputs.
use tuyau.Prelude.{
  ℕ, ◌^◌, ◌%◌, ◌<◌, ◌≡◌, refl, subst, inl, inr, List, [], ◌∷◌, ◌++◌, some, arith, if◌then◌else◌,
  any, ◌==◌, nat_eq, length, take, drop, take-append, drop-append, and_then, All, Has, Result, ok,
  err, ok_inj, some_inj,
}
use tuyau.Prelude.Texts.{Text, bytes, split_once, strip_prefix}
use tuyau.Prelude.Splits.{split_once_append}
use tuyau.Net.{SocketAddr}
use tuyau.Protocol.Frame.{TlsMode, terminated, tls_offload, passthrough, DataStreamHeader, welcome}
use tuyau.Protocol.Codec.{Cbor}
use tuyau.Protocol.Codec.RoundTrip.{ReadsBack}
use tuyau.Routes.{RouteEntry}
use tuyau.ClientConfig.{ClientConfig}
use tuyau.Public.Tunnel.{stream_header}
use tuyau.Client.{Network, answered}
use tuyau.Client.Serve.{Incoming, stream, late_header, connection_lost, waiting, returned, serve}
use tuyau.Client.Loops.{readable, until_lost, is_lost, serve-until_lost}
use tuyau.LocalPool.{Uri, target_uri, socket_path, hex_encode, authority_of}
use tuyau.LocalPool.Hex.{IsHexDigit, HasHost, socket_path-target_uri}
use tuyau.Meter.{new_meter, read_ready, read_pending, write_ready}
use tuyau.Meter.Counted.{Call, reads, writes, run, bytes_read, bytes_written, run-new_meter}
use tuyau.Tests.Tables.{ann, web, local_port}

-- A codec of headers: the mode, the length of the host name, and the two texts.
abbrev pub mode_byte : TlsMode → ℕ
mode_byte terminated = 0
mode_byte tls_offload = 1
mode_byte passthrough = 2

abbrev pub mode_of : ℕ → TlsMode
mode_of n = if n == 0 then terminated else (if n == 1 then tls_offload else passthrough)

abbrev pub read_header : List ℕ → Result Text DataStreamHeader
read_header (m ∷ n ∷ s) =
    ok (record { hostname = take n s; peer_addr = drop n s; mode = mode_of m })
read_header _ = err (bytes "too short")

abbrev pub write_header : DataStreamHeader → List ℕ
write_header h = mode_byte h.mode ∷ length h.hostname ∷ (h.hostname ++ h.peer_addr)

abbrev pub header_cbor : Cbor DataStreamHeader
header_cbor = record { into_writer = λ h. ok (write_header h); from_reader = read_header }

mode_back : (m : TlsMode) → mode_of (mode_byte m) ≡ m
mode_back terminated = refl
mode_back tls_offload = refl
mode_back passthrough = refl

pub header_cbor-ReadsBack : ReadsBack header_cbor
header_cbor-ReadsBack item payload h =
    subst (λ (p : List ℕ). read_header p ≡ ok item) (ok_inj h)
      (rw
        (
          take-append item.hostname item.peer_addr,
          drop-append item.hostname item.peer_addr,
          mode_back item.mode,
        )
        refl)

abbrev web_route : RouteEntry
web_route = record { client_name = ann; tls_mode = terminated; conn = 7 }

abbrev pub show_addr : SocketAddr → Text
show_addr addr = addr.port ∷ []

abbrev pub web_client : ClientConfig
web_client = record {
  server_addr = bytes "tunnel.x:4433";
  server_cert_fingerprint_sha256 = [];
  token = 1 ∷ 2 ∷ [];
  client_name = ann;
  ingress = record { host = web; local_addr = bytes "app:80" } ∷ [];
}

abbrev web_header : List ℕ
web_header = write_header (stream_header show_addr web_route web local_port)

abbrev written_bytes : List ℕ
written_bytes = 0 ∷ 0 ∷ 0 ∷ length web_header ∷ web_header

abbrev pub arrivals : List Incoming
arrivals =
    stream (written_bytes ++ 71 ∷ [])
    ∷ late_header
    ∷ stream (0 ∷ [])
    ∷ connection_lost (bytes "idle")
    ∷ stream written_bytes
    ∷ []

serve-until_lost_example : serve header_cbor arrivals ≡ (
  readable header_cbor (until_lost arrivals),
  if any is_lost arrivals then returned else waiting,
)
serve-until_lost_example = serve-until_lost header_cbor arrivals

abbrev pub small_network : Network
small_network = record {
  lookup_host = λ name. ok (local_port ∷ []);
  dial = λ addr host. ok tt;
  send_hello = λ hello. ok tt;
  response = answered welcome;
}

-- A URI as its text.
abbrev text_uri : Uri Text
text_uri = record {
  parse = some;
  host = λ u.
      and_then (strip_prefix (bytes "http://") u) λ s. and_then (split_once b'/' s) λ p. some p.0;
  path_and_query = some;
}

no_slash : (label : Text) → All IsHexDigit label → ¬ Has b'/' label
no_slash [] h = λ n. elim n [ ]
no_slash (c ∷ label) (h, hs) = elim [ inl e ↦ ground arith | inr n ↦ no_slash label hs n ]

text_uri-HasHost : HasHost text_uri
unfolding strip_prefix
text_uri-HasHost label path made h parsed =
    subst (λ (u : Text). text_uri.host u ≡ some label) (some_inj.0 parsed)
      (rw (split_once_append b'/' label path (no_slash label h)) refl)

socket_path-target_uri_example :
    socket_path text_uri (bytes "http://2f72/index") ≡ some (bytes "/r")
unfolding target_uri authority_of hex_encode
socket_path-target_uri_example =
    socket_path-target_uri text_uri show_addr text_uri-HasHost (bytes "/r") (bytes "index")
      (bytes "/index") (bytes "http://2f72/index") (omega arith, (omega arith, tt)) refl refl

abbrev polls : List Call
polls =
    reads (read_ready (1 ∷ 2 ∷ [])) (9 ∷ []) ∷ reads read_pending [] ∷ writes (write_ready 5) ∷ []

run-new_meter_example :
    ((run polls new_meter).read < 2 ^ 64)
    × ((run polls new_meter).written < 2 ^ 64)
    × ((run polls new_meter).read ≡ bytes_read polls % 2 ^ 64)
    × ((run polls new_meter).written ≡ bytes_written polls % 2 ^ 64)
run-new_meter_example = run-new_meter polls
