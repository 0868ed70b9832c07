-- ===== src/Public/Decision.antt =====
-- What `handle_public` of crates/tuyau-server/src/public.rs may do with a connection: when it
-- decrypts, whom it lets through to a backend, and which bytes it pipes unread.
use tuyau.Prelude.{
  ℕ, ◌≡◌, refl, ◌⊎◌, inl, inr, Bool, true, false, not, ◌&&◌, ◌||◌, Option, none, some, arith,
  text_eq, Bool-cases,
}
use tuyau.Prelude.Texts.{Text, bytes}
use tuyau.Routes.{
  Route, tunnel, local_route, UpstreamTarget, RoutingTable, is_terminated, is_offload,
  routes_to_upstream, lookup,
}
use tuyau.Routes.Precedence.{lookup-routes_to_upstream}
use tuyau.Public.{
  Handshake, tls_failed, tls_stream, Action, dropped, challenge_served, serve_h2, serve_h1,
  pipe_plain, pipe_raw, splice_plain, splice_raw, page_502, alpn_is, is_absent, plain_action,
  raw_action, serve_plain, handle_terminated, handle_host,
}

both : (a b : Bool) → (not a && b) ≡ true → (a ≡ false) × (b ≡ true)
both a b h = ground arith

module _ (needs_client_cert : Bool) (sni : Text) (t : RoutingTable) where
  -- The host is terminated, and the handshake gave a stream that is no ACME challenge and has a
  -- client cert if one is needed; `P` says what the chosen protocol is.
  abbrev pub Decrypts : (Option Text → Type 0) → Handshake → Type 0
  Decrypts P tls_failed = ⊥
  Decrypts P (tls_stream alpn has_cert) =
      (is_terminated t sni ≡ true)
      × (alpn_is (bytes "acme-tls/1") alpn ≡ false)
      × (needs_client_cert ≡ true → has_cert ≡ true)
      × P alpn

  -- A protocol that is not HTTP: the host is offloaded, or ALPN chose another one.
  abbrev pub NotHttp : Option Text → Type 0
  NotHttp alpn =
      (is_offload t sni ≡ true)
      ⊎ ((is_absent alpn ≡ false)
          × (alpn_is (bytes "h2") alpn ≡ false)
          × (alpn_is (bytes "http/1.1") alpn ≡ false))

  -- The host is terminated, and ALPN chose the protocol of ACME's challenge.
  abbrev pub Challenges : Handshake → Type 0
  Challenges tls_failed = ⊥
  Challenges (tls_stream alpn has_cert) =
      (is_terminated t sni ≡ true) × (alpn_is (bytes "acme-tls/1") alpn ≡ true)

  abbrev pub Allowed : Handshake → Action → Type 0
  Allowed h dropped = Unit
  Allowed h challenge_served = Challenges h
  Allowed h serve_h2 =
      Decrypts (λ alpn. (is_offload t sni ≡ false) × (alpn_is (bytes "h2") alpn ≡ true)) h
  Allowed h serve_h1 = Decrypts (λ alpn. is_offload t sni ≡ false) h
  Allowed h (pipe_plain entry) = Decrypts (λ alpn. Unit) h
  Allowed h (splice_plain target) = Decrypts NotHttp h
  Allowed h page_502 = Decrypts (λ alpn. is_offload t sni ≡ false) h
  Allowed h (pipe_raw entry) = is_terminated t sni ≡ false
  Allowed h (splice_raw target) = is_terminated t sni ≡ false

  module _ (is_open : ℕ → Bool) where
    plain_action-Allowed :
        (alpn : Option Text) (has_cert : Bool) (route : Option Route)
        → Decrypts (λ _. Unit) (tls_stream alpn has_cert)
        → ((target : UpstreamTarget) → route ≡ some (local_route target) → NotHttp alpn)
        → Allowed (tls_stream alpn has_cert) (plain_action (is_offload t sni) route)
    plain_action-Allowed alpn has_cert (some (tunnel entry)) d k = d
    plain_action-Allowed alpn has_cert (some (local_route target)) d k =
        (d.0, d.1, d.2, k target refl)
    plain_action-Allowed alpn has_cert none d k = elim (Bool-cases (is_offload t sni)) [
      | inl off ↦ rw off tt
      | inr on ↦ rw on (d.0, d.1, d.2, on)
    ]

    not_http :
        (alpn : Option Text)
        → (not (is_offload t sni) && alpn_is (bytes "h2") alpn) ≡ false
        → (not (is_offload t sni)
            && (alpn_is (bytes "http/1.1") alpn || (is_absent alpn && routes_to_upstream t sni)))
          ≡ false
        → routes_to_upstream t sni ≡ true
        → NotHttp alpn
    not_http alpn a b c = elim (Bool-cases (is_offload t sni)) [
      | inl off ↦ inl off
      | inr on ↦ inr (ground arith)
    ]

    serve_plain-Allowed :
        (alpn : Option Text) (has_cert : Bool)
        → Decrypts (λ _. Unit) (tls_stream alpn has_cert)
        → Allowed (tls_stream alpn has_cert) (serve_plain is_open needs_client_cert sni t alpn).1
    unfolding serve_plain
    serve_plain-Allowed alpn has_cert d =
        elim (Bool-cases (not (is_offload t sni) && alpn_is (bytes "h2") alpn)) [
          | inl h2 ↦ rw h2 (d.0, d.1, d.2, both _ _ h2)
          | inr no_h2 ↦
              rw no_h2
                (elim (Bool-cases (
                  not (is_offload t sni)
                  && (alpn_is (bytes "http/1.1") alpn
                      || (is_absent alpn && routes_to_upstream t sni)))) [
                        | inl h1 ↦ rw h1 (d.0, d.1, d.2, (both _ _ h1).0)
                        | inr no_h1 ↦ rw no_h1 (
                            plain_action-Allowed alpn has_cert (lookup is_open sni t).1 d
                              λ target e.
                                not_http alpn no_h2 no_h1
                                  (lookup-routes_to_upstream is_open t sni target e))
                      ])
        ]

    handle_terminated-Allowed :
        (h : Handshake)
        → is_terminated t sni ≡ true
        → Allowed h (handle_terminated is_open needs_client_cert sni t h).1
    unfolding handle_terminated
    handle_terminated-Allowed tls_failed term = tt
    handle_terminated-Allowed (tls_stream alpn has_cert) term =
        elim (Bool-cases (alpn_is (bytes "acme-tls/1") alpn)) [
          | inl acme ↦ rw acme (term, acme)
          | inr other ↦ rw other (elim (Bool-cases (needs_client_cert && not has_cert)) [
            | inl refused ↦ rw refused tt
            | inr passed ↦
                rw passed (serve_plain-Allowed alpn has_cert (term, other, (λ n. ground arith), tt))
          ])
        ]

    -- Whatever the table holds and the handshake gives: only the bytes of a host that is not
    -- terminated are piped raw. Plaintext goes to a tunnel, an upstream, an HTTP server or the
    -- 502 page only if the host is terminated, after a handshake that is no ACME challenge, with
    -- a client cert if one is needed. An offload host is never served as HTTP, nor with the 502
    -- page. A local upstream gets unparsed plaintext only if the host is offloaded or ALPN chose
    -- a protocol that is not HTTP.
    pub handle_host-Allowed :
        (h : Handshake) → Allowed h (handle_host is_open needs_client_cert sni t h).1
    unfolding handle_host
    handle_host-Allowed h = elim (Bool-cases (is_terminated t sni)) [
      | inl term ↦ rw term (handle_terminated-Allowed h term)
      | inr raw ↦ rw raw (raw_action-Allowed (lookup is_open sni t).1 raw)
    ]
      where
        raw_action-Allowed :
            (route : Option Route) → is_terminated t sni ≡ false → Allowed h (raw_action route)
        raw_action-Allowed (some (tunnel entry)) raw = raw
        raw_action-Allowed (some (local_route target)) raw = raw
        raw_action-Allowed none raw = tt
