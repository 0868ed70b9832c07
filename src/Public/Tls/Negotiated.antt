-- ===== src/Public/Tls/Negotiated.antt =====
-- What `handle_public` of crates/tuyau-server/src/public.rs may do with a connection whose handshake
-- was made with the listener's own TLS config.
use mathlib.Core.Bool.{false≢true}
use tuyau.Prelude.{
  ℕ, ◌≡◌, refl, sym, subst, ◌⊎◌, inl, inr, Bool, true, false, List, Option, none, some, text_beq,
  text_eq, Has, Result, ok, err, Result-cases, ok_inj,
}
use tuyau.Prelude.Texts.{Text, bytes}
use tuyau.Routes.{RoutingTable, is_terminated, is_offload}
use tuyau.Server.{Resolver}
use tuyau.Public.{
  Handshake, tls_failed, tls_stream, Action, dropped, challenge_served, serve_h2, serve_h1,
  pipe_plain, pipe_raw, splice_plain, splice_raw, page_502, alpn_is, is_absent, handle_host,
}
use tuyau.Public.Decision.{Allowed, handle_host-Allowed}
use tuyau.Public.Tls.{
  ClientCert, any, signed_by, TlsConfig, PublicTls, alpn_protocols, is_signed_by, new_tls,
}

abbrev pub IsOffered : List Text → Option Text → Type 0
IsOffered protocols none = Unit
IsOffered protocols (some chosen) = Has chosen protocols

-- `is_signer` says of roots whether the client's cert is signed by one of them.
module _ {R : Type 0} (is_signer : R → Bool) where
  abbrev pub IsVerified : Option R → Type 0
  IsVerified none = ⊥
  IsVerified (some roots) = is_signer roots ≡ true

  -- What `rustls` documents of a handshake: ALPN chooses among the config's protocols, and a
  -- stream has a cert of the client only if the config has roots, and they verified it.
  abbrev pub IsNegotiated : {K : Type 0} → TlsConfig K R → Handshake → Type 0
  IsNegotiated config tls_failed = Unit
  IsNegotiated config (tls_stream alpn has_cert) =
      IsOffered config.alpn_protocols alpn × (has_cert ≡ true → IsVerified config.client_roots)

  -- The client is one that the listener was told to accept.
  abbrev pub IsTrusted : ClientCert R → Type 0
  IsTrusted any = Unit
  IsTrusted (signed_by roots) = is_signer roots ≡ true

  abbrev pub IsGranted : Bool → ClientCert R → RoutingTable → Text → Action → Type 0
  IsGranted acme_active client_cert t sni dropped = Unit
  IsGranted acme_active client_cert t sni challenge_served = acme_active ≡ true
  IsGranted acme_active client_cert t sni serve_h2 = IsTrusted client_cert
  IsGranted acme_active client_cert t sni serve_h1 = IsTrusted client_cert
  IsGranted acme_active client_cert t sni (pipe_plain entry) = IsTrusted client_cert
  IsGranted acme_active client_cert t sni (splice_plain target) =
      IsTrusted client_cert × (is_offload t sni ≡ true)
  IsGranted acme_active client_cert t sni page_502 = IsTrusted client_cert
  IsGranted acme_active client_cert t sni (pipe_raw entry) = is_terminated t sni ≡ false
  IsGranted acme_active client_cert t sni (splice_raw target) = is_terminated t sni ≡ false

abbrev roots_of : {R : Type 0} → ClientCert R → Option R
roots_of any = none
roots_of (signed_by roots) = some roots

abbrev IsMade : {K R : Type 0} → Bool → ClientCert R → PublicTls K R → Type 0
IsMade acme_active client_cert tls =
    (tls.config.alpn_protocols ≡ alpn_protocols acme_active)
    × (tls.config.client_roots ≡ roots_of client_cert)
    × (tls.needs_client_cert ≡ is_signed_by client_cert)

bad_made : {E A : Type 0} {e : E} {x : A} → err e ≡ ok x → ⊥
bad_made h = cc

new_tls-IsMade :
    {E K R : Type 0} (versions : Result E (Unit {0})) (verifier : R → Result E (Unit {0}))
    (resolver : Resolver K) (acme_active : Bool) (client_cert : ClientCert R) {tls : PublicTls K R}
    → new_tls versions verifier resolver acme_active client_cert ≡ ok tls
    → IsMade acme_active client_cert tls
unfolding new_tls
new_tls-IsMade (err e) verifier resolver acme_active client_cert made = absurd (bad_made made)
new_tls-IsMade (ok _) verifier resolver acme_active any made =
    subst (IsMade acme_active any) (ok_inj made) (refl, refl, refl)
new_tls-IsMade (ok _) verifier resolver acme_active (signed_by roots) made =
    elim (Result-cases (verifier roots)) [
      | inl (a, built) ↦
          subst (IsMade acme_active (signed_by roots)) (ok_inj (rw built at made))
            (refl, refl, refl)
      | inr (e, bad) ↦ absurd (bad_made (rw bad at made))
    ]

-- What ALPN may choose from the listener's protocols.
chosen-cases :
    (acme_active : Bool) (chosen : Text)
    → Has chosen (alpn_protocols acme_active)
    → (bytes "h2" ≡ chosen)
      ⊎ (bytes "http/1.1" ≡ chosen)
      ⊎ ((bytes "acme-tls/1" ≡ chosen) × (acme_active ≡ true))
chosen-cases acme_active chosen (inl h2) = inl h2
chosen-cases acme_active chosen (inr (inl h1)) = inr (inl h1)
chosen-cases true chosen (inr (inr (inl acme))) = inr (inr (acme, refl))
chosen-cases true chosen (inr (inr (inr x))) = elim x [ ]
chosen-cases false chosen (inr (inr x)) = elim x [ ]

challenge_active :
    (acme_active : Bool) (alpn : Option Text)
    → IsOffered (alpn_protocols acme_active) alpn
    → alpn_is (bytes "acme-tls/1") alpn ≡ true
    → acme_active ≡ true
unfolding text_beq
challenge_active acme_active none offered h = cc
challenge_active acme_active (some chosen) offered h =
    elim (chosen-cases acme_active chosen offered) [
      | inl h2 ↦
          subst (λ c. alpn_is (bytes "acme-tls/1") (some c) ≡ true → acme_active ≡ true) h2
            (λ e. absurd (false≢true e)) h
      | inr (inl h1) ↦
          subst (λ c. alpn_is (bytes "acme-tls/1") (some c) ≡ true → acme_active ≡ true) h1
            (λ e. absurd (false≢true e)) h
      | inr (inr (_, active)) ↦ active
    ]

-- ALPN chose none of the listener's protocols.
abbrev IsOther : Option Text → Type 0
IsOther alpn =
    (is_absent alpn ≡ false)
    × (alpn_is (bytes "h2") alpn ≡ false)
    × (alpn_is (bytes "http/1.1") alpn ≡ false)
    × (alpn_is (bytes "acme-tls/1") alpn ≡ false)

not_other :
    (acme_active : Bool) (alpn : Option Text)
    → IsOffered (alpn_protocols acme_active) alpn
    → IsOther alpn
    → ⊥
unfolding text_beq
not_other acme_active none offered o = absurd (cc)
not_other acme_active (some chosen) offered o = elim (chosen-cases acme_active chosen offered) [
  | inl h2 ↦ subst (λ c. IsOther (some c) → ⊥) h2 (λ e. false≢true (sym e.1)) o
  | inr (inl h1) ↦ subst (λ c. IsOther (some c) → ⊥) h1 (λ e. false≢true (sym e.2)) o
  | inr (inr (acme, _)) ↦ subst (λ c. IsOther (some c) → ⊥) acme (λ e. false≢true (sym e.3)) o
]

trusted :
    {K R : Type 0} (is_signer : R → Bool) (acme_active : Bool) (client_cert : ClientCert R)
    (alpn : Option Text) (has_cert : Bool) (tls : PublicTls K R)
    → IsMade acme_active client_cert tls
    → IsNegotiated is_signer tls.config (tls_stream alpn has_cert)
    → (tls.needs_client_cert ≡ true → has_cert ≡ true)
    → IsTrusted is_signer client_cert
trusted is_signer acme_active any alpn has_cert tls made n needed = tt
trusted is_signer acme_active (signed_by roots) alpn has_cert tls made n needed =
    subst (IsVerified is_signer) made.1 (n.1 (needed made.2))

module _ {K R : Type 0} (is_signer : R → Bool) (acme_active : Bool) (client_cert : ClientCert R)
    (sni : Text) (t : RoutingTable) where
  granted :
      (h : Handshake) (tls : PublicTls K R) (action : Action)
      → IsMade acme_active client_cert tls
      → IsNegotiated is_signer tls.config h
      → Allowed tls.needs_client_cert sni t h action
      → IsGranted is_signer acme_active client_cert t sni action
  granted h tls dropped made n a = tt
  granted (tls_stream alpn has_cert) tls challenge_served made n a =
      challenge_active acme_active alpn (subst (λ p. IsOffered p alpn) made.0 n.0) a.1
  granted (tls_stream alpn has_cert) tls serve_h2 made n a =
      trusted is_signer acme_active client_cert alpn has_cert tls made n a.2
  granted (tls_stream alpn has_cert) tls serve_h1 made n a =
      trusted is_signer acme_active client_cert alpn has_cert tls made n a.2
  granted (tls_stream alpn has_cert) tls (pipe_plain entry) made n a =
      trusted is_signer acme_active client_cert alpn has_cert tls made n a.2
  granted (tls_stream alpn has_cert) tls (splice_plain target) made n a = (
    trusted is_signer acme_active client_cert alpn has_cert tls made n a.2,
    elim a.3 [
      | inl off ↦ off
      | inr (b, c, d) ↦
          absurd
            (not_other acme_active alpn (subst (λ p. IsOffered p alpn) made.0 n.0) (b, c, d, a.1))
    ],
  )
  granted (tls_stream alpn has_cert) tls page_502 made n a =
      trusted is_signer acme_active client_cert alpn has_cert tls made n a.2
  granted h tls (pipe_raw entry) made n a = a
  granted h tls (splice_raw target) made n a = a
  granted tls_failed tls challenge_served made n a = elim a [ ]
  granted tls_failed tls serve_h2 made n a = elim a [ ]
  granted tls_failed tls serve_h1 made n a = elim a [ ]
  granted tls_failed tls (pipe_plain entry) made n a = elim a [ ]
  granted tls_failed tls (splice_plain target) made n a = elim a [ ]
  granted tls_failed tls page_502 made n a = elim a [ ]

-- With the config that `PublicTls::new` makes, and a handshake that keeps to it: a connection is
-- taken for an ACME challenge only if ACME is active. Plaintext goes to a tunnel, an upstream, an
-- HTTP server or the 502 page only if the listener accepts any client, or the client's cert is
-- signed by the roots it was given. A local upstream gets unparsed plaintext only of an offload
-- host. Bytes are piped raw only of a host that is not terminated.
pub handle_host-IsGranted :
    {E K R : Type 0} (versions : Result E (Unit {0})) (verifier : R → Result E (Unit {0}))
    (resolver : Resolver K) (acme_active : Bool) (client_cert : ClientCert R) {tls : PublicTls K R}
    (is_signer : R → Bool) (is_open : ℕ → Bool) (sni : Text) (t : RoutingTable) (h : Handshake)
    → new_tls versions verifier resolver acme_active client_cert ≡ ok tls
    → IsNegotiated is_signer tls.config h
    → IsGranted is_signer acme_active client_cert t sni
        (handle_host is_open tls.needs_client_cert sni t h).1
handle_host-IsGranted versions verifier resolver acme_active client_cert {tls} is_signer is_open sni
      t h made negotiated =
    granted is_signer acme_active client_cert sni t h tls _
      (new_tls-IsMade versions verifier resolver acme_active client_cert made) negotiated
      (handle_host-Allowed tls.needs_client_cert sni t is_open h)
