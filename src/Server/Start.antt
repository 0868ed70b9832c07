-- ===== src/Server/Start.antt =====
-- crates/tuyau-server/src/server.rs: what `start_inner` sets up for the public listener, and the
-- methods of `TunnelServer` that use it.
use tuyau.Prelude.{
  ℕ, Bool, true, false, not, ◌&&◌, List, [], ◌∷◌, map, Option, none, some, if◌then◌else◌, nat_eq,
  text_eq, retain, contains, unwrap_or, Result, ok, ◌>>=◌, ◌>>◌,
}
use tuyau.Prelude.Texts.{Text, bytes, to_ascii_lowercase}
use tuyau.Prelude.Dict.{Dict}
use tuyau.Protocol.Frame.{terminates}
use tuyau.Config.{ServerConfig, AcmeSection, host_certs, is_empty}
use tuyau.Routes.{RoutingTable, from_config, set_terminated}
use tuyau.HostCerts.{covers, load, resolver}
use tuyau.Public.Limits.{default_max_public_connections}
use tuyau.Server.{Resolver, AcmeController, resolve, ensure}

-- The files and libraries that starting the listener calls: host certs, a self-signed cert over
-- some hosts, the cert and key files, an ACME state, the CA file, and the text of a file.
pub record Builders (E K : Type 0) : Type 0 where
  pub load_key : Text → Text → Result E K
  pub generate_public_cert : List Text → Result E K
  pub load_chain : Text → Text → Result E K
  pub build_acme_state : AcmeSection → List Text → Result E (Resolver K)
  pub load_roots : Text → Result E (Unit {0})
  pub read_to_string : Text → Option Text

abbrev pub terminated_hostnames : ServerConfig → List Text
terminated_hostnames cfg = map (λ c. c.host) (retain (λ c. terminates c.mode) (host_certs cfg))

-- The resolver of the server-wide cert: one function, or the shared state of the controller.
pub data Base (K : Type 0) : Type 0 where
  fixed : Resolver K → Base K
  multi : AcmeController K → Base K

-- What the public listener was started with.
pub record PublicSetup (K : Type 0) : Type 0 where
  pub certs : Dict Text K
  pub base : Base K
  pub needs_client_cert : Bool
  pub max_conns : ℕ
  pub error_502 : Text
  pub routes : RoutingTable

abbrev pub default_502_html : Text → Option Text → (Text → Option Text) → Text
default_502_html built_in none read = built_in
default_502_html built_in (some path) read = unwrap_or (read path) built_in

module _ {K : Type 0} where
  unfoldable pub shared_hostnames : Dict Text K → List Text → List Text
  shared_hostnames certs hosts =
      retain (λ host. not (contains host b'*') && not (covers certs host)) hosts

  -- `StaticResolver`
  abbrev pub static_resolver : K → Resolver K
  static_resolver key sni = some key

  module _ {E : Type 0} (build : Builders E K) where
    -- The two branches behind the ACME one.
    unfoldable pub build_static : Option Text → Option Text → List Text → Result E (Base K)
    build_static (some cert_file) (some key_file) shared = do
      key ← build.load_chain cert_file key_file
      ok (fixed (static_resolver key))
    build_static _ _ shared = do
      key ← build.generate_public_cert shared
      ok (fixed (static_resolver key))

    -- The combined cert of the config hosts.
    unfoldable pub build_combined : AcmeSection → List Text → Result E (Resolver K)
    build_combined acme [] = do key ← build.generate_public_cert []; ok (static_resolver key)
    build_combined acme (host ∷ hosts) = build.build_acme_state acme (host ∷ hosts)

    unfoldable pub build_acme : AcmeSection → List Text → List Text → Result E (Base K)
    unfolding build_combined
    build_acme acme terminated shared = do
      combined ← build_combined acme shared
      ok (
          multi (record {
            multi = record { static_resolver = combined; dynamic = [] };
            static_domains = map to_ascii_lowercase terminated;
            added = [];
          }))

    unfoldable pub build_cert_resolver :
        Option AcmeSection → Option Text → Option Text → List Text → List Text → Result E (Base K)
    unfolding build_static build_acme
    build_cert_resolver none cert_file key_file terminated shared =
        build_static cert_file key_file shared
    build_cert_resolver (some acme) cert_file key_file terminated shared =
        if is_empty terminated
        then build_static cert_file key_file shared
        else build_acme acme terminated shared

    unfoldable pub load_client_ca : Option Text → Result E Bool
    load_client_ca none = ok false
    load_client_ca (some path) = do build.load_roots path; ok true

    -- `start_inner` up to the TLS config of the listener, with the built-in page.
    unfoldable pub start_public : Text → ServerConfig → Result E (PublicSetup K)
    unfolding build_cert_resolver shared_hostnames load_client_ca
    start_public built_in cfg = do
      certs ← load build.load_key cfg
      base ←
          build_cert_resolver cfg.acme cfg.tls_cert_file cfg.tls_key_file (terminated_hostnames cfg)
            (shared_hostnames certs (terminated_hostnames cfg))
      needs_client_cert ← load_client_ca cfg.client_ca_file
      ok (record {
        certs = certs;
        base = base;
        needs_client_cert = needs_client_cert;
        max_conns = unwrap_or cfg.max_public_connections default_max_public_connections;
        error_502 = default_502_html built_in cfg.error_502_file build.read_to_string;
        routes = from_config cfg.hostnames cfg.upstreams;
      })

abbrev pub base_resolver : {K : Type 0} → Base K → Resolver K
base_resolver (fixed r) = r
base_resolver (multi c) = resolve c.multi

module _ {K : Type 0} where
  -- The cert for an SNI.
  unfoldable pub cert_for : PublicSetup K → Resolver K
  cert_for p = resolver p.certs (base_resolver p.base)

  module _ {E : Type 0} (build_acme_state : Text → Result E (Resolver K)) where
    abbrev pub ensure_base : List Text → Base K → Base K
    ensure_base domains (fixed r) = fixed r
    ensure_base domains (multi c) = multi (ensure build_acme_state domains c)

    unfoldable pub set_terminated_domains : List Text → PublicSetup K → PublicSetup K
    set_terminated_domains domains p = record p {
      base = ensure_base domains p.base;
      routes = set_terminated domains p.routes;
    }

-- `healthy`: whether the accept loop runs, and the public one if there is one.
abbrev healthy : Bool → Option Bool → Bool
healthy true public_finished = false
healthy false none = true
healthy false (some public_finished) = not public_finished

abbrev pub resolve_cert_dir : Option Text → Text
resolve_cert_dir configured = unwrap_or configured (bytes ".")
