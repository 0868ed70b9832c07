-- ===== src/Tests/EndToEnd.antt =====
-- The theorems from the public listener to the local service, and on the 502 page, at concrete inputs.
use tuyau.Prelude.{
  ℕ, ◌≡◌, refl, true, false, List, [], ◌∷◌, ◌++◌, some, length, and_then, text_beq, contains,
}
use tuyau.Prelude.Texts.{bytes, strip_prefix, to_ascii_lowercase, lower_byte}
use tuyau.Prelude.Dict.{get}
use tuyau.Prelude.Decimal.{value}
use tuyau.Protocol.Frame.{passthrough}
use tuyau.Protocol.Codec.{encode}
use tuyau.Routes.{RouteEntry, RoutingTable, is_terminated, lookup, upstream_of, wildcard_upstream}
use tuyau.Sni.Sample.{client_hello, parse_sni-client_hello}
use tuyau.ClientConfig.{ClientConfig}
use tuyau.Public.{tls_failed}
use tuyau.Public.Wire.{read_all, read_client_hello}
use tuyau.Public.Tunnel.{open_tunnel_stream}
use tuyau.Public.Page.{write_502, status_line, content_type, content_length, connection_close}
use tuyau.Public.Page.Parsed.{read_response, read_response-write_502}
use tuyau.Public.Dispatch.{Io, connected, serve_public}
use tuyau.Public.Limits.Counting.{IsCounted}
use tuyau.Public.Listening.{
  Event, cancels, accept_fails, arrives, ends, Listening, start_listening, run,
}
use tuyau.Public.Listening.Served.{effective, run-IsServed}
use tuyau.Client.EndToEnd.{IsDelivered, serve_public-IsDelivered}
use tuyau.Tests.Tables.{ann, local_port}
use tuyau.Tests.Tunnelled.{header_cbor, header_cbor-ReadsBack, show_addr, web_client}

abbrev passed_entry : RouteEntry
passed_entry = record { client_name = ann; tls_mode = passthrough; conn = 7 }

-- One tunnel, for a host that is passed through.
abbrev passed : RoutingTable
passed = record {
  inner =
      (
        bytes "a.x",
        record { client_name = ann; tls_mode = passthrough; conns = 7 ∷ []; cursor = 0 },
      )
      ∷ [];
  upstreams = [];
  tunnel_hosts = [];
  terminated = [];
  offload = [];
}

abbrev io : Io
io = record {
  cbor = header_cbor;
  display = show_addr;
  open_bi = λ entry. true;
  send = λ entry. true;
  connect_tcp = λ addr. connected;
  connect_unix = λ path. connected;
  inner_read = λ room inner. length inner;
  reads = λ s. 64 ∷ 64 ∷ [];
  plaintext = λ sni. [];
  answer = [];
  takes = λ source. source;
}

abbrev raw_client : ClientConfig
raw_client = record web_client {
  ingress = record { host = bytes "a.x"; local_addr = bytes "app:443" } ∷ [];
}

-- The ClientHello and two bytes behind it.
abbrev arrived : List ℕ
arrived = client_hello ++ 1 ∷ 2 ∷ []

serve_public-IsDelivered_example :
    IsDelivered io raw_client
      (λ addr. true)
      passed_entry
      (bytes "a.x")
      local_port
      arrived
      (serve_public io
        (λ c. true)
        false
        passed
        (λ sni. tls_failed)
        (bytes "<p>")
        local_port
        arrived).1
unfolding read_all read_client_hello open_tunnel_stream encode is_terminated lookup
    wildcard_upstream upstream_of get contains to_ascii_lowercase lower_byte text_beq
serve_public-IsDelivered_example =
    serve_public-IsDelivered io raw_client (λ addr. true) (λ c. true) false passed
      (λ sni. tls_failed) (bytes "<p>") local_port header_cbor-ReadsBack arrived client_hello
      (1 ∷ 2 ∷ []) (bytes "a.x") passed_entry _ refl parse_sni-client_hello refl refl refl
      (λ source. refl) refl

read_response-write_502_example :
    (read_response 4 (write_502 (bytes "down"))
      ≡ some (record {
        status = status_line;
        headers = content_type ∷ content_length 4 ∷ connection_close ∷ [];
        body = bytes "down";
      }))
    × (and_then (strip_prefix (bytes "content-length: ") (content_length 4)) (λ s. some (value s))
        ≡ some 4)
read_response-write_502_example = read_response-write_502 0 (bytes "down")

-- An error, two connections of which one ends, and one that comes after the loop was cancelled.
abbrev loop_events : List Event
loop_events =
    accept_fails
    ∷ arrives local_port
    ∷ arrives local_port
    ∷ cancels
    ∷ arrives local_port
    ∷ ends local_port
        (record { arrived = arrived; is_open = λ c. true; handshake = λ sni. tls_failed; io = io })
    ∷ []

run-IsServed_example :
    IsCounted 4 (run false (bytes "<p>") loop_events (start_listening 4 passed)).counted
    × (◌≡◌ {A = Listening}
        (record (run false (bytes "<p>") loop_events (start_listening 4 passed)) {
          is_running = false;
        })
        (record (run false (bytes "<p>") (effective true loop_events) (start_listening 4 passed)) {
          is_running = false;
        }))
    × ((run false (bytes "<p>") loop_events (start_listening 4 passed)).waited ≡ 50)
run-IsServed_example = run-IsServed false (bytes "<p>") 4 passed loop_events
