-- ===== src/HttpProxy/Address.antt =====
-- The address headers of the requests that the proxy sends on.
use tuyau.Prelude.{
  ◌≡◌, refl, false, Option, none, some, ◌==◌, text_eq, text_beq, All, and_then-eq-some, unwrap_or,
  some_inj, subst,
}
use tuyau.Prelude.Texts.{Text, bytes}
use tuyau.Net.{SocketAddr}
use tuyau.Routes.{RoutingTable, Route, lookup}
use tuyau.HttpProxy.{
  Http, Request, Client, x_real_ip, x_forwarded_for, host_name, upgrade_name, client_ip,
}
use tuyau.HttpProxy.Serve.{
  Network, Sent, on_stream, on_pool, downgrade_to_h1, authority_of, h1_roundtrip, ws_request,
  h1_upgrade, proxy, offer, subprotocol, ws_headers, ws_key, ws_response, upgrade_request,
  upgrade_response,
}
use tuyau.HttpProxy.Paths.{HasAddress, after_handshake-All, pooled_send-All, Covers, IsUnnamed}
use tuyau.HttpProxy.Headers.{
  get-insert_other, get-append_other, get-append_new, IsClientAddress, client_ip-IsClientAddress,
}
use tuyau.HttpProxy.Proxied.{Proxied, proxy_reply}

module _ {H U : Type 0} (http : Http H U) where
  open http use {
    get, insert, append, remove, new, display, from_str, get_insert, get_append, get_remove,
    get_new, from_str_display, parse_uri, path_and_query, to_str, parse_ip,
  }

  -- The request that a backend gets has both headers.
  abbrev pub CarriesAddress : Text → Sent H U → Type 0
  CarriesAddress a (on_stream req) = HasAddress http a req.headers
  CarriesAddress a (on_pool target req) = HasAddress http a req.headers

  pub downgrade_to_h1-HasAddress :
      (a : Text) (req : Request H U) (sni : Text)
      → HasAddress http a req.headers
      → HasAddress http a (downgrade_to_h1 http req sni).headers
  unfolding downgrade_to_h1 text_beq
  downgrade_to_h1-HasAddress a req sni h = go (from_str (authority_of http req sni))
    where
      go :
          (host : Option Text)
          → HasAddress http a
              (elim host [ none ↦ req.headers | some v ↦ insert host_name v req.headers ])
      go none = h
      go (some v) = (
        rw (get-insert_other http host_name x_real_ip v req.headers refl) h.0,
        rw (get-insert_other http host_name x_forwarded_for v req.headers refl) h.1,
      )

  -- What a chain of `append` makes of a map without the name.
  offer-other :
      (k : Text) (v : Option Text) (h : H)
      → (subprotocol == k) ≡ false
      → get k (offer http v h) ≡ get k h
  offer-other k none h e = refl
  offer-other k (some v) h e = get-append_other http subprotocol k v h e

  -- The request made for a WebSocket copies the two headers to an empty map.
  ws_headers-HasAddress :
      (a : Text) (offered : Option Text) (host : Text)
      → HasAddress http a (ws_headers http offered host a a)
  unfolding ws_headers text_beq
  ws_headers-HasAddress a offered host =
      let h0 = append host_name host new in
      let h1 = append x_real_ip a h0 in
      let h2 = append x_forwarded_for a h1 in
      let h3 = append (bytes "connection") (bytes "Upgrade") h2 in
      let h4 = append upgrade_name (bytes "websocket") h3 in
      let h5 = append (bytes "sec-websocket-version") (bytes "13") h4 in
      let h6 = append (bytes "sec-websocket-key") ws_key h5 in
      let keeps : (k : Text)
          → (subprotocol == k) ≡ false
          → (bytes "sec-websocket-key" == k) ≡ false
          → (bytes "sec-websocket-version" == k) ≡ false
          → (upgrade_name == k) ≡ false
          → (bytes "connection" == k) ≡ false
          → get k (offer http offered h6) ≡ get k h2 =
        λ k e6 e5 e4 e3 e2.
          rw
            (
              offer-other k offered h6 e6,
              get-append_other http (bytes "sec-websocket-key") k ws_key h5 e5,
              get-append_other http (bytes "sec-websocket-version") k (bytes "13") h4 e4,
              get-append_other http upgrade_name k (bytes "websocket") h3 e3,
              get-append_other http (bytes "connection") k (bytes "Upgrade") h2 e2,
            )
            refl in
      (
        rw
            (
              keeps x_real_ip refl refl refl refl refl,
              get-append_other http x_forwarded_for x_real_ip a h1 refl,
            )
            (get-append_new http x_real_ip a h0
              (rw (get-append_other http host_name x_real_ip host new refl) (get_new x_real_ip))),
        rw (keeps x_forwarded_for refl refl refl refl refl) (
            get-append_new http x_forwarded_for a h1 (
              rw
                (
                  get-append_other http x_real_ip x_forwarded_for a h0 refl,
                  get-append_other http host_name x_forwarded_for host new refl,
                )
                (get_new x_forwarded_for))),
      )

  ws_request-HasAddress :
      (a : Text) (req breq : Request H U) (sni : Text)
      → ws_request http req sni a a ≡ some breq
      → HasAddress http a breq.headers
  unfolding ws_request
  ws_request-HasAddress a req breq sni h =
      let target = parse_uri (unwrap_or (path_and_query req.uri) (bytes "/")) in
      let (uri, e, rest) = and_then-eq-some target _ h in
      let (host, e', made) = and_then-eq-some (from_str (authority_of http req sni)) _ rest in
      subst (λ (r : Request H U). HasAddress http a r.headers) (some_inj.0 made)
        (ws_headers-HasAddress a (get subprotocol req.headers) host)

  CarriesAddress-Covers :
      (a : Text) (net : Network H U) (route : Option Route) (req : Request H U) (sni page : Text)
      → HasAddress http a req.headers
      → Covers http net route req sni page a λ reply. All (CarriesAddress a) reply.sent
  unfolding h1_upgrade h1_roundtrip
  CarriesAddress-Covers a net route req sni page h = record {
    nothing = tt;
    websocket = λ b breq reached is_ws made.
        after_handshake-All http (CarriesAddress a) b breq page (ws_response http b page)
          (ws_request-HasAddress a req breq sni made);
    upgrade = λ b reached not_ws up.
        after_handshake-All http (CarriesAddress a) b (upgrade_request http req) page
          (upgrade_response http) h;
    plain = λ b reached no_up no_connect.
        after_handshake-All http (CarriesAddress a) b (downgrade_to_h1 http req sni) page
          (λ resp. resp) (downgrade_to_h1-HasAddress a req sni h);
    pooled = λ target uri to_local shared.
        pooled_send-All http (CarriesAddress a) net target
          (record (downgrade_to_h1 http req sni) { uri = uri }) page
          (downgrade_to_h1-HasAddress a req sni h);
  }

  -- Whatever a client sends, `proxy` panics only if a local route serves a request that is no CONNECT
  -- and asks for no upgrade, and whose path makes no URI behind the target's address. Else every
  -- request that a backend gets has the client's address in X-Real-IP and X-Forwarded-For: of a
  -- proxy client the one that it gives in CF-Connecting-IP, if that is an address, and else, as of
  -- any direct client, the TCP peer's, both in canonical form.
  pub proxy-Carries :
      (net : Network H U) (t : RoutingTable) (req : Request H U) (sni : Text) (peer : SocketAddr)
      (client : Client) (page : Text)
      → (a : Text) × IsClientAddress http req.headers peer client a
        × Proxied http
            (lookup net.is_open sni t).0
            (IsUnnamed http (lookup net.is_open sni t).1 req sni)
            (λ reply. All (CarriesAddress a) reply.sent)
            (proxy http net t req sni peer client page)
  proxy-Carries net t req sni peer client page =
      let a = display (client_ip http req.headers peer client) in
      (
        a,
        client_ip-IsClientAddress http req.headers peer client,
        proxy_reply http net t req sni peer client page (λ reply. All (CarriesAddress a) reply.sent)
            λ headers addressed.
              CarriesAddress-Covers a net (lookup net.is_open sni t).1
                (record req { headers = headers }) sni page addressed,
      )
