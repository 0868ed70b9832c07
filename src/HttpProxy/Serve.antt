-- ===== src/HttpProxy/Serve.antt =====
-- crates/tuyau-server/src/h2proxy.rs: a request on its way to a backend. What a backend's stream
-- does is the record `Backend`; a reply lists the requests that were handed to a backend.
use tuyau.Prelude.{
  ℕ, Bool, ◌&&◌, ◌||◌, List, [], ◌∷◌, Option, none, some, if◌then◌else◌, ◌==◌, text_eq, nat_eq,
  is_some, or_else, and_then, unwrap_or,
}
use tuyau.Prelude.Texts.{Text, bytes, to_ascii_lowercase}
use tuyau.Net.{SocketAddr}
use tuyau.Routes.{
  RouteEntry, UpstreamTarget, tcp, unix, Route, tunnel, local_route, RoutingTable, lookup,
}
use tuyau.HttpProxy.{
  Http, Request, Response, http_11, Client, x_real_ip, x_forwarded_for, host_name, upgrade_name,
  connect_method, set_client_address, uri_of,
}
use tuyau.LocalPool.{target_uri}

-- How the h1 handshake with a backend ends.
pub data Handshake : Type 0 where
  ready refused timed_out : Handshake

-- A stream to a backend: its handshake, its answer to a request, and whether the connection of
-- its 101 can be taken over.
pub record Backend (H U : Type 0) : Type 0 where
  pub handshake : Handshake
  pub send_request : Request H U → Option (Response H)
  pub upgrades : Response H → Bool

-- A request that was handed to a stream of its own, or to the pool of a target.
pub data Sent (H U : Type 0) : Type 0 where
  on_stream : Request H U → Sent H U
  on_pool : UpstreamTarget → Request H U → Sent H U

pub record Reply (H U : Type 0) : Type 0 where
  pub sent : List (Sent H U)
  pub response : Response H

-- What the proxy reaches: tunnels, local sockets and the pool.
pub record Network (H U : Type 0) : Type 0 where
  pub is_open : ℕ → Bool
  pub open_tunnel_stream : RouteEntry → Option (Backend H U)
  pub connect_tcp : SocketAddr → Option (Backend H U)
  pub connect_unix : Text → Option (Backend H U)
  pub pool_send : UpstreamTarget → Request H U → Option (Response H)

abbrev pub ws_key : Text
ws_key = bytes "AAAAAAAAAAAAAAAAAAAAAA=="

abbrev pub subprotocol : Text
subprotocol = bytes "sec-websocket-protocol"

-- `&& protocol.is_some_and(...)`
abbrev pub is_websocket : Option Text → Bool
is_websocket none = Bool.false
is_websocket (some p) = to_ascii_lowercase p == bytes "websocket"

module _ {H U : Type 0} (http : Http H U) where
  open http use {new, get, insert, append, from_str, to_str, authority, path_and_query, parse_uri}

  unfoldable pub is_websocket_connect : Request H U → Bool
  is_websocket_connect req = req.method == connect_method && is_websocket req.protocol

  abbrev pub is_upgrade : Request H U → Bool
  is_upgrade req = is_some (get upgrade_name req.headers)

  unfoldable pub needs_own_connection : Request H U → Bool
  unfolding is_websocket_connect
  needs_own_connection req =
      is_websocket_connect req || is_upgrade req || req.method == connect_method

  -- The authority of the URI, else the `Host` header, else the SNI.
  unfoldable pub authority_of : Request H U → Text → Text
  authority_of req sni =
      unwrap_or (or_else (authority req.uri) (and_then (get host_name req.headers) to_str)) sni

  unfoldable pub downgrade_to_h1 : Request H U → Text → Request H U
  unfolding authority_of
  downgrade_to_h1 req sni = record req {
    uri = unwrap_or (parse_uri (unwrap_or (path_and_query req.uri) (bytes "/"))) req.uri;
    headers = elim (from_str (authority_of req sni)) [
      | none ↦ req.headers
      | some host ↦ insert host_name host req.headers
    ];
    version = http_11;
  }

  unfoldable pub bad_gateway : Text → Response H
  bad_gateway page = record {
    status = 502;
    headers = append (bytes "content-type") (bytes "text/html; charset=utf-8") new;
    body = page;
  }

  abbrev pub failed : Text → List (Sent H U) → Reply H U
  failed page sent = record { sent = sent; response = bad_gateway page }

  -- The reply once the request was sent, `f` being what is made of a response.
  unfoldable pub after_send :
      Sent H U → Text → (Response H → Response H) → Option (Response H) → Reply H U
  after_send req page f none = failed page (req ∷ [])
  after_send req page f (some resp) = record { sent = req ∷ []; response = f resp }

  unfoldable pub if_ready : Text → Handshake → Reply H U → Reply H U
  if_ready page ready reply = reply
  if_ready page refused reply = failed page []
  if_ready page timed_out reply = failed page []

  -- The handshake, and `sender.send_request`.
  unfoldable pub after_handshake :
      Backend H U → Request H U → Text → (Response H → Response H) → Reply H U
  unfolding after_send if_ready
  after_handshake b req page f =
      if_ready page b.handshake (after_send (on_stream req) page f (b.send_request req))

  unfoldable pub h1_roundtrip : Backend H U → Request H U → Text → Text → Reply H U
  unfolding after_handshake
  h1_roundtrip b req sni page = after_handshake b (downgrade_to_h1 req sni) page λ resp. resp

  -- The request once its URI names the target.
  unfoldable pub pooled_send : Network H U → UpstreamTarget → Request H U → Text → Reply H U
  unfolding after_send
  pooled_send net target breq page =
      after_send (on_pool target breq) page (λ resp. resp) (net.pool_send target breq)

  -- `none` is the panic of the `expect` in `LocalPool::send`.
  unfoldable pub pooled_roundtrip :
      Network H U → UpstreamTarget → Request H U → Text → Text → Option (Reply H U)
  unfolding pooled_send
  pooled_roundtrip net target req sni page =
      let breq = downgrade_to_h1 req sni in
      and_then (target_uri (uri_of http) http.display_addr target breq.uri)
        λ uri. some (pooled_send net target (record breq { uri = uri }) page)

  abbrev pub offer : Option Text → H → H
  offer none headers = headers
  offer (some v) headers = append subprotocol v headers

  unfoldable pub ws_headers : Option Text → Text → Text → Text → H
  ws_headers offered host ip forwarded = offer offered (
      append (bytes "sec-websocket-key") ws_key (
        append (bytes "sec-websocket-version") (bytes "13") (
          append upgrade_name (bytes "websocket") (
            append (bytes "connection") (bytes "Upgrade") (
              append x_forwarded_for forwarded
                (append x_real_ip ip (append host_name host new)))))))

  -- The h1 upgrade request that stands for an Extended CONNECT; `none` if the builder fails.
  unfoldable pub ws_request : Request H U → Text → Text → Text → Option (Request H U)
  unfolding authority_of ws_headers
  ws_request req sni ip forwarded =
      and_then (parse_uri (unwrap_or (path_and_query req.uri) (bytes "/"))) λ uri.
        and_then (from_str (authority_of req sni)) λ host. some (record {
          method = bytes "GET";
          uri = uri;
          version = http_11;
          headers = ws_headers (get subprotocol req.headers) host ip forwarded;
          protocol = none;
          body = [];
        })

  -- The 200 for a backend's 101, with the subprotocol that it chose.
  unfoldable pub ws_response : Backend H U → Text → Response H → Response H
  unfolding bad_gateway
  ws_response b page resp =
      if resp.status == 101 && b.upgrades resp
      then record { status = 200; headers = offer (get subprotocol resp.headers) new; body = [] }
      else bad_gateway page

  unfoldable pub ws_send : Backend H U → Text → Option (Request H U) → Reply H U
  unfolding after_handshake ws_response
  ws_send b page none = failed page []
  ws_send b page (some breq) = after_handshake b breq page (ws_response b page)

  -- `none` is the panic of indexing the headers.
  unfoldable pub ws_bridge : Backend H U → Request H U → Text → Text → Option (Reply H U)
  unfolding ws_send ws_request
  ws_bridge b req sni page = and_then (get x_real_ip req.headers) λ ip.
      and_then (get x_forwarded_for req.headers)
        λ forwarded. some (ws_send b page (ws_request req sni ip forwarded))

  abbrev pub upgrade_request : Request H U → Request H U
  upgrade_request req = record req { version = http_11; protocol = none; body = [] }

  abbrev pub upgrade_response : Response H → Response H
  upgrade_response resp = if resp.status == 101 then record resp { body = [] } else resp

  unfoldable pub h1_upgrade : Backend H U → Request H U → Text → Reply H U
  unfolding after_handshake
  h1_upgrade b req page = after_handshake b (upgrade_request req) page upgrade_response

  unfoldable pub serve_request : Backend H U → Request H U → Text → Text → Option (Reply H U)
  unfolding ws_bridge h1_upgrade h1_roundtrip is_websocket_connect
  serve_request b req sni page =
      if is_websocket_connect req
      then ws_bridge b req sni page
      else some (
          if is_upgrade req
          then h1_upgrade b req page
          else (if req.method == connect_method
              then failed page []
              else h1_roundtrip b req sni page))

  -- `serve_request` on a stream that could be opened.
  unfoldable pub serve_on : Option (Backend H U) → Request H U → Text → Text → Option (Reply H U)
  unfolding serve_request
  serve_on none req sni page = some (failed page [])
  serve_on (some b) req sni page = serve_request b req sni page

  abbrev pub connect : Network H U → UpstreamTarget → Option (Backend H U)
  connect net (tcp addr) = net.connect_tcp addr
  connect net (unix path) = net.connect_unix path

  -- The `match` on the route.
  unfoldable pub answer :
      Network H U → Option Route → Request H U → Text → Text → Option (Reply H U)
  unfolding serve_on pooled_roundtrip needs_own_connection
  answer net none req sni page = some (failed page [])
  answer net (some (tunnel entry)) req sni page =
      serve_on (net.open_tunnel_stream entry) req sni page
  answer net (some (local_route target)) req sni page =
      if needs_own_connection req
      then serve_on (connect net target) req sni page
      else pooled_roundtrip net target req sni page

  -- The routing table afterwards, whose cursor `lookup` moves, and the reply.
  unfoldable pub proxy :
      Network H U
      → RoutingTable
      → Request H U
      → Text
      → SocketAddr
      → Client
      → Text
      → Option (RoutingTable × Reply H U)
  unfolding answer
  proxy net t req sni peer client page =
      let (after, route) = lookup net.is_open sni t in
      and_then (set_client_address http req.headers peer client) λ headers.
        and_then (answer net route (record req { headers = headers }) sni page)
          λ reply. some (after, reply)
