-- ===== src/HttpProxy/Relay.antt =====
-- Which requests the proxy hands to a backend, and where its responses come from.
use tuyau.Prelude.{
  ◌≡◌, ◌≢◌, refl, ◌∙◌, ◌⊎◌, inl, inr, true, false, [], ◌∷◌, Option, none, some, arith, ◌==◌,
  text_eq, nat_eq, nat_beq_iff, text_beq, text_beq_iff, All, Bool-cases, and_then-eq-some,
  unwrap_or, some_inj, subst,
}
use tuyau.Prelude.Texts.{Text, bytes}
use tuyau.Net.{SocketAddr}
use tuyau.Routes.{RoutingTable, UpstreamTarget, Route, local_route, lookup}
use tuyau.HttpProxy.{
  Http, Request, Response, Client, http_11, host_name, upgrade_name, connect_method, client_ip,
}
use tuyau.HttpProxy.Serve.{
  Backend, Network, Sent, on_stream, on_pool, Reply, Handshake, ready, refused, timed_out,
  after_send, if_ready, needs_own_connection, is_upgrade, downgrade_to_h1, authority_of,
  after_handshake, h1_roundtrip, pooled_send, ws_request, ws_response, h1_upgrade, proxy,
  upgrade_request, upgrade_response, bad_gateway,
}
use mathlib.Core.Bool.{false≢true}
use tuyau.HttpProxy.Headers.{get-append_new}
use tuyau.HttpProxy.Proxied.{Proxied, proxy_reply}
use tuyau.HttpProxy.Paths.{
  after_handshake-All, pooled_send-All, Covers, Reaches, IsUnnamed, shared-cases,
}

module _ {H U : Type 0} (http : Http H U) where
  open http use {get, insert, get_insert, from_str, display}

  -- An HTTP/1.1 request; a CONNECT only with an upgrade header and on a stream of its own; on the
  -- pool none that needs a connection of its own.
  abbrev pub IsAllowed : Sent H U → Type 0
  IsAllowed (on_stream req) =
      (req.version ≡ http_11)
      × ((req.method ≢ connect_method)
          ⊎ ((value : Text) × (get upgrade_name req.headers ≡ some value)))
  IsAllowed (on_pool target req) =
      (req.version ≡ http_11)
      × (req.method ≢ connect_method)
      × (get upgrade_name req.headers ≡ none)

  get_upgrade-downgrade :
      (req : Request H U) (sni : Text)
      → get upgrade_name (downgrade_to_h1 http req sni).headers ≡ get upgrade_name req.headers
  unfolding downgrade_to_h1 text_beq
  get_upgrade-downgrade req sni = go (from_str (authority_of http req sni))
    where
      go :
          (host : Option Text)
          → get upgrade_name
              (elim host [ none ↦ req.headers | some v ↦ insert host_name v req.headers ])
            ≡ get upgrade_name req.headers
      go none = refl
      go (some v) = get_insert host_name upgrade_name v req.headers

  upgrade-value :
      (req : Request H U)
      → is_upgrade http req ≡ true
      → (value : Text) × (get upgrade_name req.headers ≡ some value)
  upgrade-value req up = go (get upgrade_name req.headers) refl
    where
      go :
          (found : Option Text)
          → get upgrade_name req.headers ≡ found
          → (value : Text) × (get upgrade_name req.headers ≡ some value)
      go none e = absurd (false≢true (rw e at up))
      go (some value) e = (value, e)

  ws_request-IsAllowed :
      (a : Text) (req breq : Request H U) (sni : Text)
      → ws_request http req sni a a ≡ some breq
      → IsAllowed (on_stream breq)
  unfolding ws_request text_beq
  ws_request-IsAllowed a req breq sni h =
      let target = http.parse_uri (unwrap_or (http.path_and_query req.uri) (bytes "/")) in
      let (uri, e, rest) = and_then-eq-some target _ h in
      let (host, e', made) = and_then-eq-some (from_str (authority_of http req sni)) _ rest in
      subst (λ (r : Request H U). IsAllowed (on_stream r)) (some_inj.0 made)
        (refl, inl λ same. cc same)

  downgraded-IsAllowed :
      (req : Request H U) (sni : Text)
      → (req.method == connect_method) ≡ false
      → IsAllowed (on_stream (downgrade_to_h1 http req sni))
  unfolding downgrade_to_h1
  downgraded-IsAllowed req sni no_connect =
      (refl, inl λ c. ground (arith, no_connect, (text_beq_iff req.method connect_method).1 c))

  downgraded-shared :
      (target : UpstreamTarget) (uri : U) (req : Request H U) (sni : Text)
      → needs_own_connection http req ≡ false
      → IsAllowed (on_pool target (record (downgrade_to_h1 http req sni) { uri = uri }))
  unfolding downgrade_to_h1
  downgraded-shared target uri req sni shared =
      let (no_connect, no_upgrade) = shared-cases http req shared in
      (refl, no_connect, get_upgrade-downgrade req sni ∙ no_upgrade)

  IsAllowed-Covers :
      (a : Text) (net : Network H U) (route : Option Route) (req : Request H U) (sni page : Text)
      → Covers http net route req sni page a λ reply. All IsAllowed reply.sent
  unfolding h1_upgrade h1_roundtrip
  IsAllowed-Covers a net route req sni page = record {
    nothing = tt;
    websocket = λ b breq reached is_ws made.
        after_handshake-All http IsAllowed b breq page (ws_response http b page)
          (ws_request-IsAllowed a req breq sni made);
    upgrade = λ b reached not_ws up.
        after_handshake-All http IsAllowed b (upgrade_request http req) page (upgrade_response http)
          (refl, inr (upgrade-value req up));
    plain = λ b reached no_up no_connect.
        after_handshake-All http IsAllowed b (downgrade_to_h1 http req sni) page (λ resp. resp)
          (downgraded-IsAllowed req sni no_connect);
    pooled = λ target uri to_local shared.
        pooled_send-All http IsAllowed net target
          (record (downgrade_to_h1 http req sni) { uri = uri }) page
          (downgraded-shared target uri req sni shared);
  }

  -- Every request that `proxy` hands to a backend is an HTTP/1.1 request. On a pooled connection it
  -- is no CONNECT, so no WebSocket, and has no upgrade header; elsewhere a CONNECT is handed on only
  -- if it has an upgrade header. `proxy` panics only if the pool can make no URI of the path.
  pub proxy-IsAllowed :
      (net : Network H U) (t : RoutingTable) (req : Request H U) (sni : Text) (peer : SocketAddr)
      (client : Client) (page : Text)
      → Proxied http
          (lookup net.is_open sni t).0
          (IsUnnamed http (lookup net.is_open sni t).1 req sni)
          (λ reply. All IsAllowed reply.sent)
          (proxy http net t req sni peer client page)
  proxy-IsAllowed net t req sni peer client page =
      proxy_reply http net t req sni peer client page (λ reply. All IsAllowed reply.sent)
        λ headers addressed.
          IsAllowed-Covers (display (client_ip http req.headers peer client)) net
            (lookup net.is_open sni t).1 (record req { headers = headers }) sni page

  -- What the proxy makes of a backend's response: itself, its 101 without the body, or for a
  -- WebSocket a 200 in place of the 101.
  pub data Passes (resp : Response H) : Response H → Type 0 where
    as_is : Passes resp resp
    switched : resp.status ≡ 101 → Passes resp (record resp { body = [] })
    accepted :
        (headers : H)
        → resp.status ≡ 101
        → Passes resp (record { status = 200; headers = headers; body = [] })

  -- The backend answered the one request that was sent to it.
  pub data Answered (net : Network H U) (route : Option Route)
      : Sent H U → Response H → Type 0 where
    by_stream :
        (b : Backend H U) (req : Request H U) (resp : Response H)
        → Reaches http net route b
        → b.handshake ≡ ready
        → b.send_request req ≡ some resp
        → Answered net route (on_stream req) resp
    by_pool :
        (target : UpstreamTarget) (req : Request H U) (resp : Response H)
        → route ≡ some (local_route target)
        → net.pool_send target req ≡ some resp
        → Answered net route (on_pool target req) resp

  -- The 502 of a backend that fails: the error page as HTML.
  abbrev pub IsBadGateway : Text → Response H → Type 0
  IsBadGateway page resp =
      (resp.status ≡ 502)
      × (resp.body ≡ page)
      × (get (bytes "content-type") resp.headers ≡ some (bytes "text/html; charset=utf-8"))

  bad_gateway-IsBadGateway : (page : Text) → IsBadGateway page (bad_gateway http page)
  unfolding bad_gateway text_beq
  bad_gateway-IsBadGateway page = (
    refl,
    refl,
    get-append_new http (bytes "content-type") (bytes "text/html; charset=utf-8") http.new
        (http.get_new (bytes "content-type")),
  )

  abbrev pub IsRelayed : Network H U → Option Route → Text → Reply H U → Type 0
  IsRelayed net route page reply =
      IsBadGateway page reply.response
      ⊎ ((req : Sent H U) × (resp : Response H) × (reply.sent ≡ req ∷ [])
          × Answered net route req resp
          × Passes resp reply.response)

  module _ (net : Network H U) (route : Option Route) (page : Text) where
    after_handshake-IsRelayed :
        (b : Backend H U) (req : Request H U) (f : Response H → Response H)
        → Reaches http net route b
        → ((resp : Response H) → IsBadGateway page (f resp) ⊎ Passes resp (f resp))
        → IsRelayed net route page (after_handshake http b req page f)
    unfolding after_handshake if_ready after_send
    after_handshake-IsRelayed b req f reached passes = go b.handshake refl (b.send_request req) refl
      where
        go :
            (shake : Handshake)
            → b.handshake ≡ shake
            → (back : Option (Response H)) → b.send_request req ≡ back
            → IsRelayed net route page
                (if_ready http page shake (after_send http (on_stream req) page f back))
        go refused e back e' = inl (bad_gateway-IsBadGateway page)
        go timed_out e back e' = inl (bad_gateway-IsBadGateway page)
        go ready e none e' = inl (bad_gateway-IsBadGateway page)
        go ready e (some resp) e' = elim (passes resp) [
          | inl bad ↦ inl bad
          | inr p ↦ inr (on_stream req, resp, refl, by_stream b req resp reached e e', p)
        ]

    ws_response-Passes :
        (b : Backend H U) (resp : Response H)
        → IsBadGateway page (ws_response http b page resp)
          ⊎ Passes resp (ws_response http b page resp)
    unfolding ws_response
    ws_response-Passes b resp = elim (Bool-cases (resp.status == 101)) [
      | inl same ↦ elim (Bool-cases (b.upgrades resp)) [
        | inl up ↦ rw (same, up) (inr (accepted _ ((nat_beq_iff resp.status 101).0 same)))
        | inr down ↦ rw (same, down) (inl (bad_gateway-IsBadGateway page))
      ]
      | inr other ↦ rw other (inl (bad_gateway-IsBadGateway page))
    ]

    upgrade_response-Passes :
        (resp : Response H)
        → IsBadGateway page (upgrade_response http resp) ⊎ Passes resp (upgrade_response http resp)
    upgrade_response-Passes resp = elim (Bool-cases (resp.status == 101)) [
      | inl same ↦ rw same (inr (switched ((nat_beq_iff resp.status 101).0 same)))
      | inr other ↦ rw other (inr as_is)
    ]

    pooled_send-IsRelayed :
        (target : UpstreamTarget) (breq : Request H U)
        → route ≡ some (local_route target)
        → IsRelayed net route page (pooled_send http net target breq page)
    unfolding pooled_send after_send
    pooled_send-IsRelayed target breq to_local = go (net.pool_send target breq) refl
      where
        go :
            (back : Option (Response H))
            → net.pool_send target breq ≡ back
            → IsRelayed net route page
                (after_send http (on_pool target breq) page (λ resp. resp) back)
        go none e = inl (bad_gateway-IsBadGateway page)
        go (some resp) e = inr (_, resp, refl, by_pool target _ resp to_local e, as_is)

    IsRelayed-Covers :
        (a : Text) (req : Request H U) (sni : Text)
        → Covers http net route req sni page a (IsRelayed net route page)
    unfolding h1_upgrade h1_roundtrip
    IsRelayed-Covers a req sni = record {
      nothing = inl (bad_gateway-IsBadGateway page);
      websocket = λ b breq reached is_ws made.
          after_handshake-IsRelayed b breq (ws_response http b page) reached (ws_response-Passes b);
      upgrade = λ b reached not_ws up.
          after_handshake-IsRelayed b (upgrade_request http req) (upgrade_response http) reached
            upgrade_response-Passes;
      plain = λ b reached no_up no_connect.
          after_handshake-IsRelayed b (downgrade_to_h1 http req sni) (λ resp. resp) reached
            λ resp. inr as_is;
      pooled = λ target uri to_local shared.
          pooled_send-IsRelayed target (record (downgrade_to_h1 http req sni) { uri = uri })
            to_local;
    }

  -- Every reply of `proxy` is a 502 with the error page as HTML, or it passes on the response of a
  -- backend that the route of the SNI leads to and that answered the one request it got. So without a
  -- route, or when connecting, the handshake or the request fails, the client gets the 502. `proxy`
  -- panics only if the pool can make no URI of the path.
  pub proxy-IsRelayed :
      (net : Network H U) (t : RoutingTable) (req : Request H U) (sni : Text) (peer : SocketAddr)
      (client : Client) (page : Text)
      → Proxied http
          (lookup net.is_open sni t).0
          (IsUnnamed http (lookup net.is_open sni t).1 req sni)
          (IsRelayed net (lookup net.is_open sni t).1 page)
          (proxy http net t req sni peer client page)
  proxy-IsRelayed net t req sni peer client page =
      let route = (lookup net.is_open sni t).1 in
      proxy_reply http net t req sni peer client page (IsRelayed net route page)
        λ headers addressed.
          IsRelayed-Covers net route page (display (client_ip http req.headers peer client))
            (record req { headers = headers }) sni
