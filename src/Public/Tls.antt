-- ===== src/Public/Tls.antt =====
-- crates/tuyau-server/src/public.rs: `PublicTls` and `build_rustls_config`, the TLS config of the
-- listener. What `rustls` may refuse answers through arguments, as the error the source maps it to.
pub mod Negotiated
use tuyau.Prelude.{
  Bool, true, false, List, [], ◌∷◌, ◌++◌, Option, none, some, Result, ok, err, ◌>>=◌, ◌>>◌,
}
use tuyau.Prelude.Texts.{Text, bytes}
use tuyau.Server.{Resolver}

-- `R` are the roots of a client CA.
pub data ClientCert (R : Type 0) : Type 0 where
  any : ClientCert R
  signed_by : R → ClientCert R

-- The `RustlsServerConfig`: its resolver, the protocols that ALPN may choose in the order of
-- preference, and the roots against which a cert of the client is verified.
pub record TlsConfig (K R : Type 0) : Type 0 where
  pub cert_resolver : Resolver K
  pub alpn_protocols : List Text
  pub client_roots : Option R

pub record PublicTls (K R : Type 0) : Type 0 where
  pub config : TlsConfig K R
  pub needs_client_cert : Bool

abbrev pub acme_protocols : Bool → List Text
acme_protocols true = bytes "acme-tls/1" ∷ []
acme_protocols false = []

abbrev pub alpn_protocols : Bool → List Text
alpn_protocols acme_active = bytes "h2" ∷ bytes "http/1.1" ∷ acme_protocols acme_active

abbrev pub is_signed_by : {R : Type 0} → ClientCert R → Bool
is_signed_by any = false
is_signed_by (signed_by roots) = true

module _ {E R : Type 0} (with_safe_default_protocol_versions : Result E (Unit {0}))
    (build_verifier : R → Result E (Unit {0})) where
  abbrev pub client_roots_of : ClientCert R → Result E (Option R)
  client_roots_of any = ok none
  client_roots_of (signed_by roots) = do build_verifier roots; ok (some roots)

  unfoldable pub build_rustls_config :
      {K : Type 0} → Resolver K → Bool → ClientCert R → Result E (TlsConfig K R)
  build_rustls_config resolver acme_active client_cert = do
    with_safe_default_protocol_versions
    roots ← client_roots_of client_cert
    ok (record {
      cert_resolver = resolver;
      alpn_protocols = alpn_protocols acme_active;
      client_roots = roots;
    })

  -- `PublicTls::new`
  unfoldable pub new_tls :
      {K : Type 0} → Resolver K → Bool → ClientCert R → Result E (PublicTls K R)
  unfolding build_rustls_config
  new_tls resolver acme_active client_cert = do
    config ← build_rustls_config resolver acme_active client_cert
    ok (record { config = config; needs_client_cert = is_signed_by client_cert })
