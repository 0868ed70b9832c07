-- ===== src/Public/Handled.antt =====
-- `handle_public` of crates/tuyau-server/src/public.rs as a whole, on the bytes of any client.
use tuyau.Prelude.{
  ℕ, ◌+◌, ◌≤◌, ◌≡◌, refl, sym, subst, ◌⊎◌, inl, inr, Bool, true, false, List, [], ◌++◌, arith,
  length, All, All-append_left, Result, ok, err,
}
use tuyau.Prelude.Texts.{Text}
use tuyau.Prelude.Bytes.{IsByte}
use tuyau.Routes.{RoutingTable}
use tuyau.Sni.{parse_sni}
use tuyau.Sni.Results.{Outcome, ret, nothing, panicked, stuck, Safe}
use tuyau.Sni.Safety.{IsHost, parse_sni-Safe}
use tuyau.HttpProxy.{Client, direct_client}
use tuyau.Public.{Handshake, tls_failed, tls_stream, Action, serve_h2, serve_h1, handle_host}
use tuyau.Public.Decision.{Allowed, handle_host-Allowed}
use tuyau.Public.Wire.{max_record_size, HelloError, read_client_hello, read_all}
use tuyau.Public.Wire.Replay.{read_client_hello-replayed}
use tuyau.Public.Entry.{
  Handled, hello_failed, no_sni, crashed, decided, client_of, handle_sni, handle_hello,
  handle_public,
}

hello-fits :
    (arrived hello rest : List ℕ)
    → read_client_hello arrived ≡ ok (hello, rest)
    → (length hello ≤ 5 + max_record_size) × (hello ++ rest ≡ arrived)
unfolding read_all
hello-fits arrived hello rest h =
    let (fits, is_record, replayed) =
      read_client_hello-replayed (λ room inner. 0) [] arrived hello rest h in
    (fits, replayed)

-- A client whose address headers are believed has shown a cert.
abbrev pub Trusted : Handshake → Client → Type 0
Trusted tls_failed client = ⊥
Trusted (tls_stream alpn has_cert) client = (client ≡ direct_client) ⊎ (has_cert ≡ true)

abbrev pub TrustedHttp : Handshake → Action → Client → Type 0
TrustedHttp shake serve_h2 client = Trusted shake client
TrustedHttp shake serve_h1 client = Trusted shake client
TrustedHttp shake _ client = Unit

module _ (is_open : ℕ → Bool) (needs_client_cert : Bool) (t : RoutingTable)
    (handshake : Text → Handshake) where
  -- What may become of a connection with these bytes.
  abbrev pub IsHandled : List ℕ → Handled → Type 0
  IsHandled arrived (hello_failed e) = read_client_hello arrived ≡ err e
  IsHandled arrived no_sni = Unit
  IsHandled arrived crashed = ⊥
  IsHandled arrived (decided sni after action client) =
      (hello rest : List ℕ) × (hello ++ rest ≡ arrived)
      × IsHost hello sni
      × Allowed needs_client_cert sni t (handshake sni) action
      × TrustedHttp (handshake sni) action client

  client_of-cases :
      (needs : Bool) (has_cert : Bool)
      → (needs ≡ true → has_cert ≡ true)
      → (client_of needs ≡ direct_client) ⊎ (has_cert ≡ true)
  client_of-cases true has_cert shown = inr (shown refl)
  client_of-cases false has_cert shown = inl refl

  Allowed-TrustedHttp :
      (sni : Text) (shake : Handshake) (action : Action)
      → Allowed needs_client_cert sni t shake action
      → TrustedHttp shake action (client_of needs_client_cert)
  Allowed-TrustedHttp sni tls_failed serve_h2 allowed = allowed
  Allowed-TrustedHttp sni tls_failed serve_h1 allowed = allowed
  Allowed-TrustedHttp sni (tls_stream alpn has_cert) serve_h2 allowed =
      client_of-cases needs_client_cert has_cert allowed.2
  Allowed-TrustedHttp sni (tls_stream alpn has_cert) serve_h1 allowed =
      client_of-cases needs_client_cert has_cert allowed.2
  Allowed-TrustedHttp sni shake _ allowed = tt

  handle_sni-IsHandled :
      (arrived hello rest : List ℕ)
      → hello ++ rest ≡ arrived
      → (found : Outcome Text) → Safe (IsHost hello) found
      → IsHandled arrived (handle_sni is_open needs_client_cert t handshake found)
  unfolding handle_sni
  handle_sni-IsHandled arrived hello rest split (ret sni) host = (
    hello,
    rest,
    split,
    host,
    handle_host-Allowed needs_client_cert sni t is_open (handshake sni),
    Allowed-TrustedHttp sni (handshake sni)
        (handle_host is_open needs_client_cert sni t (handshake sni)).1
        (handle_host-Allowed needs_client_cert sni t is_open (handshake sni)),
  )
  handle_sni-IsHandled arrived hello rest split nothing safe = tt
  handle_sni-IsHandled arrived hello rest split panicked safe = safe
  handle_sni-IsHandled arrived hello rest split stuck safe = safe

  handle_hello-IsHandled :
      (arrived : List ℕ)
      → All IsByte arrived
      → (read : Result HelloError (List ℕ × List ℕ)) → read_client_hello arrived ≡ read
      → IsHandled arrived (handle_hello is_open needs_client_cert t handshake read)
  unfolding handle_hello
  handle_hello-IsHandled arrived is_bytes (err e) h = h
  handle_hello-IsHandled arrived is_bytes (ok (hello, rest)) h =
      let (fits, split) = hello-fits arrived hello rest h in
      handle_sni-IsHandled arrived hello rest split (parse_sni hello) (
        parse_sni-Safe hello
          (All-append_left IsByte hello rest (subst (All IsByte) (sym split) is_bytes))
          (omega arith))

  -- Whatever bytes a client sends, the handler does not panic. It ends at a ClientHello that cannot
  -- be read or has no host name, or it goes on for a host name that the ClientHello contains, with
  -- an action that is allowed for that host and its handshake; and if an HTTP server then believes
  -- the address that the client gives, the client has shown a cert that was verified.
  pub handle_public-IsHandled :
      (arrived : List ℕ)
      → All IsByte arrived
      → IsHandled arrived (handle_public is_open needs_client_cert t handshake arrived)
  unfolding handle_public
  handle_public-IsHandled arrived is_bytes =
      handle_hello-IsHandled arrived is_bytes (read_client_hello arrived) refl
