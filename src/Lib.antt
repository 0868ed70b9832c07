-- ===== src/Lib.antt =====
-- Tuyau: a reverse tunnel. A client behind a firewall opens a QUIC connection to the server, says
-- hello with its token and is granted host names. The server's public listener reads the host of
-- each TLS connection, looks it up in the routing table, and sends the connection to a tunnel or
-- to a local upstream, decrypted or not as the mode of the host says.
--
-- The parts, and the files that model them (paths from the repository's root):
--   * Protocol: crates/tuyau-protocol. Frame has the frame types; Codec has `FrameCodec` and
--     `read_frame` on lists of bytes. CBOR is the crate ciborium, the parameter `Cbor`.
--     Token has the forms of a token that are taken, `token_serde`.
--   * Config: crates/tuyau-server/src/config.rs and ConfigError of error.rs. `validate` and its
--     parts keep the order of the checks and the errors; the loops are in Config/Loops.
--   * Backend: crates/tuyau-server/src/backend.rs, the static backend.
--   * Routes: crates/tuyau-server/src/routes.rs. `RoutingTable` is a record, an operation maps a
--     table to a table and a result. A connection is its `stable_id`; whether it is open is an
--     argument of `lookup`. The locks make an operation one step; History has sequences of them.
--   * Sni: crates/tuyau-server/src/sni.rs, with the panics of Rust's indexing and addition.
--   * Control: crates/tuyau-server/src/control.rs, the registry of tunnels and its events.
--   * Session: `handle_incoming` of crates/tuyau-server/src/server.rs, cut at its awaits into
--     events, and `kick`. It calls Routes and Control; Backend's answer is in the event.
--   * Public: crates/tuyau-server/src/public.rs. Limits has the caps of the accept loop, Wire the
--     ClientHello record and its replay, Tunnel the header that opens a stream of a tunnel, and
--     Public itself the decision of `handle_public`, which asks Routes. Entry has `handle_public`
--     from the first byte to the decision, Dispatch from there to the bytes that the backend or the
--     client gets, Page the response of `write_502`, Listening the accept loop with its handlers, and
--     Tls the TLS config of the listener, of which a handshake is made.
--   * HttpProxy: crates/tuyau-server/src/h2proxy.rs. HttpProxy has the headers with the client's
--     address, HttpProxy/Serve a request on its way to a backend: `proxy` asks Routes and returns the
--     reply with the requests that backends got, `none` being a panic. The crate `http` is the
--     record `Http`, and what a backend's stream does is the record `Backend`.
--     HttpProxy/Connection has the requests of one connection, which `hyper` reads for `serve_h1` and
--     `serve_h2`, each with what others did to the table before it.
--   * Server: the rest of crates/tuyau-server/src/server.rs. Server has the ACME controller and its
--     resolver, Server/Start what `start_inner` sets up for the listener and `set_terminated_domains`,
--     Server/Life `start`, `start_with` and `start_inner` with each step that can fail and the tasks
--     that are spawned on the way (Server/Tasks), and Server/Shutdown the loops of a running server
--     and `shutdown`, as a step relation. It uses HostCerts and Routes; ACME orders, files and sockets
--     are arguments.
--   * HostCerts: crates/tuyau-server/src/host_certs.rs. Reading the files and making a key of them
--     is a parameter.
--   * LocalPool: crates/tuyau-server/src/local_pool.rs, the URI of a local upstream and the socket
--     path that is read from it. Meter: crates/tuyau-server/src/meter.rs, the byte counters. Certs:
--     crates/tuyau-server/src/cert.rs, with the content of the files as the state.
--   * ClientConfig: crates/tuyau-client/src/config.rs, the validation of the client's ingress rules.
--   * Client: crates/tuyau-client/src. Client has `connect` and the pinned cert, Client/Serve the
--     loop that accepts streams and `forward_stream`, Client/Listener the listeners of listener.rs
--     and tls.rs. What arrives on the connection is a list of events. Client/Delivery and
--     Client/EndToEnd join it with Public, Sni and Protocol, from a public connection to the local
--     service.
--   * Cli: crates/tuyau-cli/src/main.rs, where the client's configuration comes from, and in Cli/Run
--     the two commands, which start what Server/Life and Client have.
--   * Net: the addresses of `std::net`. Prelude: the names, lists, results, texts (lists of bytes)
--     and maps (association lists) that all parts share. Tests: the theorems at concrete inputs.
--
-- Numbers are natural numbers. A `usize` wraps or panics where the source lets it: the cursor of
-- a host is taken modulo 2 ^ 64, the additions of the parser panic or give up at 2 ^ 64. The two
-- loops of the parser run on fuel, one round for each byte of the buffer; each round moves the
-- position on, so the fuel is enough, and `stuck`, the result without fuel, is part of what is
-- ruled out. The rounds of `lookup` are those of its `for` loop. The byte counters wrap at 2 ^ 64.
-- The steps of a server that shuts down are bounded by the loops and handlers that run and by what
-- still arrives. The digits of a number are printed on fuel, one more than the number.
-- `accept_all` calls a listener a given number of times, and as many as there are events are
-- enough. All else is recursion on lists.
--
-- Two things are one step here and several in the source: `lookup`, which takes its read locks in
-- turn, and the decision of `handle_public`, whose reads of the table stand before and behind the
-- awaits of the TLS handshake and here see the same table.
--
-- Not modelled: QUIC, TLS, ACME, CBOR, TOML, HTTP framing and the connection pool, which are
-- libraries; sockets, timers and the loops that copy bytes or splice upgraded connections, whose
-- outcomes are arguments; the parsing and printing of addresses; signals and logging
-- of the command line; log lines; messages of errors; the TypeScript SDK.
pub mod Prelude
pub mod Net
pub mod Protocol
pub mod Config
pub mod Routes
pub mod Backend
pub mod Sni
pub mod Control
pub mod Session
pub mod Public
pub mod HostCerts
pub mod HttpProxy
pub mod Server
pub mod LocalPool
pub mod Meter
pub mod Certs
pub mod ClientConfig
pub mod Client
pub mod Cli
pub mod Tests
