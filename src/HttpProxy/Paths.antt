-- ===== src/HttpProxy/Paths.antt =====
-- The ways that a request takes through the proxy.
use tuyau.Prelude.{
  ◌≡◌, ◌≢◌, refl, true, false, [], Option, none, some, ◌==◌, text_eq, text_beq_iff, and_then, arith,
  All, Empty, Bool-cases, inl, inr,
}
use tuyau.Prelude.Texts.{Text}
use tuyau.Routes.{UpstreamTarget, Route, tunnel, local_route}
use tuyau.HttpProxy.{
  Http, Request, Response, x_real_ip, x_forwarded_for, upgrade_name, connect_method, uri_of,
}
use tuyau.LocalPool.{target_uri}
use tuyau.HttpProxy.Serve.{
  Backend, Network, Sent, on_stream, on_pool, Reply, Handshake, ready, refused, timed_out,
  after_send, if_ready, ws_send, is_websocket_connect, needs_own_connection, downgrade_to_h1,
  pooled_send, after_handshake, h1_roundtrip, pooled_roundtrip, ws_request, ws_bridge, h1_upgrade,
  serve_request, serve_on, answer, connect, ws_response, is_upgrade, failed,
}

module _ {H U : Type 0} (http : Http H U) where
  open http use {get}

  abbrev pub HasAddress : Text → H → Type 0
  HasAddress a headers = (get x_real_ip headers ≡ some a) × (get x_forwarded_for headers ≡ some a)

  after_send-All :
      (P : Sent H U → Type 0) (req : Sent H U) (page : Text) (f : Response H → Response H)
      (resp : Option (Response H))
      → P req
      → All P (after_send http req page f resp).sent
  unfolding after_send
  after_send-All P req page f none p = (p, tt)
  after_send-All P req page f (some resp) p = (p, tt)

  if_ready-All :
      (P : Sent H U → Type 0) (page : Text) (shake : Handshake) (reply : Reply H U)
      → All P reply.sent
      → All P (if_ready http page shake reply).sent
  unfolding if_ready
  if_ready-All P page ready reply h = h
  if_ready-All P page refused reply h = tt
  if_ready-All P page timed_out reply h = tt

  pub after_handshake-All :
      (P : Sent H U → Type 0) (b : Backend H U) (req : Request H U) (page : Text)
      (f : Response H → Response H)
      → P (on_stream req)
      → All P (after_handshake http b req page f).sent
  unfolding after_handshake
  after_handshake-All P b req page f p =
      if_ready-All P page b.handshake (after_send http (on_stream req) page f (b.send_request req))
        (after_send-All P (on_stream req) page f (b.send_request req) p)

  pub pooled_send-All :
      (P : Sent H U → Type 0) (net : Network H U) (target : UpstreamTarget) (breq : Request H U)
      (page : Text)
      → P (on_pool target breq)
      → All P (pooled_send http net target breq page).sent
  unfolding pooled_send
  pooled_send-All P net target breq page p =
      after_send-All P (on_pool target breq) page (λ resp. resp) (net.pool_send target breq) p

  -- The backends that a route leads to.
  abbrev pub Reaches : Network H U → Option Route → Backend H U → Type 0
  Reaches net none b = Empty
  Reaches net (some (tunnel entry)) b = net.open_tunnel_stream entry ≡ some b
  Reaches net (some (local_route target)) b = connect http net target ≡ some b

  -- What has to be shown of a predicate on replies for each way of a request, when its two address
  -- headers are `a`.
  pub record Covers (net : Network H U) (route : Option Route) (req : Request H U)
      (sni page a : Text) (Q : Reply H U → Type 0) : Type 0 where
    pub nothing : Q (failed http page [])
    pub websocket :
        (b : Backend H U) (breq : Request H U)
        → Reaches net route b
        → is_websocket_connect http req ≡ true
        → ws_request http req sni a a ≡ some breq
        → Q (after_handshake http b breq page (ws_response http b page))
    pub upgrade :
        (b : Backend H U)
        → Reaches net route b
        → is_websocket_connect http req ≡ false
        → is_upgrade http req ≡ true
        → Q (h1_upgrade http b req page)
    pub plain :
        (b : Backend H U)
        → Reaches net route b
        → is_upgrade http req ≡ false
        → (req.method == connect_method) ≡ false
        → Q (h1_roundtrip http b req sni page)
    pub pooled :
        (target : UpstreamTarget) (uri : U)
        → route ≡ some (local_route target)
        → needs_own_connection http req ≡ false
        → Q (pooled_send http net target (record (downgrade_to_h1 http req sni) { uri = uri }) page)

  -- The request is for the pool of a local upstream, whose address with the path makes no URI.
  abbrev pub IsUnnamed : Option Route → Request H U → Text → Type 0
  IsUnnamed route req sni =
      (target : UpstreamTarget) × (route ≡ some (local_route target))
      × (req.method ≢ connect_method)
      × (get upgrade_name req.headers ≡ none)
      × (target_uri (uri_of http) http.display_addr target (downgrade_to_h1 http req sni).uri
          ≡ none)

  -- A reply with a property, or the panic of a request whose URI names no target.
  abbrev pub Outcome : (Reply H U → Type 0) → Type 0 → Option (Reply H U) → Type 0
  Outcome Q panic none = panic
  Outcome Q panic (some reply) = Q reply

  pub shared-cases :
      (req : Request H U)
      → needs_own_connection http req ≡ false
      → (req.method ≢ connect_method) × (get upgrade_name req.headers ≡ none)
  unfolding needs_own_connection
  shared-cases req shared = go (get upgrade_name req.headers) refl
    where
      go :
          (found : Option Text)
          → get upgrade_name req.headers ≡ found
          → (req.method ≢ connect_method) × (get upgrade_name req.headers ≡ none)
      go none e =
          (λ same. ground (arith, shared, (text_beq_iff req.method connect_method).1 same), e)
      go (some v) e = absurd (ground (arith, rw e at shared))

  module _ (net : Network H U) (route : Option Route) (req : Request H U) (sni page a : Text)
      (Q : Reply H U → Type 0) (covers : Covers net route req sni page a Q)
      (h : HasAddress a req.headers) where
    abbrev Made : Option (Reply H U) → Type 0
    Made = Outcome Q (IsUnnamed route req sni)

    ws_send-Made :
        (b : Backend H U) (made : Option (Request H U))
        → Reaches net route b
        → is_websocket_connect http req ≡ true
        → ws_request http req sni a a ≡ made
        → Q (ws_send http b page made)
    unfolding ws_send
    ws_send-Made b none reached is_ws e = covers.nothing
    ws_send-Made b (some breq) reached is_ws e = covers.websocket b breq reached is_ws e

    serve_request-Made :
        (b : Backend H U) → Reaches net route b → Made (serve_request http b req sni page)
    unfolding serve_request ws_bridge
    serve_request-Made b reached = elim (Bool-cases (is_websocket_connect http req)) [
      | inl ws ↦ rw (ws, h.0, h.1) (ws_send-Made b (ws_request http req sni a a) reached ws refl)
      | inr not_ws ↦ rw not_ws (elim (Bool-cases (is_upgrade http req)) [
        | inl up ↦ rw up (covers.upgrade b reached not_ws up)
        | inr not_up ↦ rw not_up (elim (Bool-cases (req.method == connect_method)) [
          | inl is_connect ↦ rw is_connect covers.nothing
          | inr other ↦ rw other (covers.plain b reached not_up other)
        ])
      ])
    ]

    serve_on-Made :
        (stream : Option (Backend H U))
        → ((b : Backend H U) → stream ≡ some b → Reaches net route b)
        → Made (serve_on http stream req sni page)
    unfolding serve_on
    serve_on-Made none reached = covers.nothing
    serve_on-Made (some b) reached = serve_request-Made b (reached b refl)

    pooled_roundtrip-Made :
        (target : UpstreamTarget)
        → route ≡ some (local_route target)
        → needs_own_connection http req ≡ false
        → Made (pooled_roundtrip http net target req sni page)
    unfolding pooled_roundtrip
    pooled_roundtrip-Made target to_local shared =
        go (target_uri (uri_of http) http.display_addr target (downgrade_to_h1 http req sni).uri)
          refl
      where
        go :
            (uri : Option U)
            → target_uri (uri_of http) http.display_addr target (downgrade_to_h1 http req sni).uri
              ≡ uri
            → Made (
                and_then uri λ u. some (
                  pooled_send http net target
                    (record (downgrade_to_h1 http req sni) { uri = u })
                    page))
        go none e = (target, to_local, (shared-cases req shared).0, (shared-cases req shared).1, e)
        go (some uri) e = covers.pooled target uri to_local shared

  -- `answer` gives a reply with every such predicate, or panics.
  pub answer_reply :
      (net : Network H U) (route : Option Route) (req : Request H U) (sni page a : Text)
      (Q : Reply H U → Type 0)
      → Covers net route req sni page a Q
      → HasAddress a req.headers
      → Outcome Q (IsUnnamed route req sni) (answer http net route req sni page)
  unfolding answer
  answer_reply net none req sni page a Q covers h = covers.nothing
  answer_reply net (some (tunnel entry)) req sni page a Q covers h =
      serve_on-Made net (some (tunnel entry)) req sni page a Q covers h
        (net.open_tunnel_stream entry) λ b e. e
  answer_reply net (some (local_route target)) req sni page a Q covers h =
      elim (Bool-cases (needs_own_connection http req)) [
        | inl own ↦ rw own (
            serve_on-Made net (some (local_route target)) req sni page a Q covers h
              (connect http net target) λ b e. e)
        | inr shared ↦ rw shared (
            pooled_roundtrip-Made net (some (local_route target)) req sni page a Q covers h target
              refl shared)
      ]
