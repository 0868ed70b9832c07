-- ===== src/Server/Life.antt =====
-- crates/tuyau-server/src/server.rs: `start`, `start_with` and `start_inner` from the first check to
-- the accept loops, with the tasks that they leave running. Certs, sockets and TLS configs answer
-- through arguments.
use tuyau.Prelude.{Bool, true, false, List, [], ◌∷◌, Option, none, some, unwrap_or, Result, ok, err}
use tuyau.Prelude.Texts.{Text}
use tuyau.Net.{SocketAddr}
use tuyau.Config.{ServerConfig, AcmeSection, ConfigError, validate, validate_dynamic}
use tuyau.Routes.{RoutingTable, from_config}
use tuyau.HostCerts.{load}
use tuyau.Public.Limits.{default_max_public_connections}
use tuyau.Server.Start.{
  Builders, Base, fixed, multi, PublicSetup, terminated_hostnames, shared_hostnames,
  default_502_html, build_cert_resolver, load_client_ca, resolve_cert_dir,
}
use tuyau.Server.Tasks.{Task, acme_loop, public_loop, accept_loop, Run, lift, spawn, ◌>>=◌, ◌>>◌}

-- What starting calls besides the builders: the tunnel cert of a directory, the TLS and QUIC configs
-- of that cert, the TLS config of the listener, and binding. `M` is the cert with its key.
pub record Host (E K M : Type 0) : Type 0 where
  pub build : Builders E K
  pub load_or_generate : Text → Result E M
  pub rustls_config : M → Result E (Unit {0})
  pub quinn_config : M → Result E (Unit {0})
  pub bind_endpoint : SocketAddr → Result E SocketAddr
  pub public_tls : Base K → Bool → Bool → Result E (Unit {0})
  pub bind_public : SocketAddr → Result E SocketAddr
  pub of_config_error : ConfigError → E

pub record TunnelServer (K M : Type 0) : Type 0 where
  pub local_addr : SocketAddr
  pub material : M
  pub routes : RoutingTable
  pub public : Option (SocketAddr × PublicSetup K)

-- The ACME loop that `build_cert_resolver` spawns if it succeeds.
abbrev pub acme_tasks : Option AcmeSection → List Text → List Text → List Task
acme_tasks (some acme) (t ∷ terminated) (s ∷ shared) = acme_loop (s ∷ shared) ∷ []
acme_tasks _ terminated shared = []

abbrev pub is_multi : {K : Type 0} → Base K → Bool
is_multi (fixed r) = false
is_multi (multi c) = true

-- `map_err(ServerError::from)`
abbrev pub checked :
    {E : Type 0} → (ConfigError → E) → Result ConfigError (Unit {0}) → Result E (Unit {0})
checked of_config_error (ok _) = ok tt
checked of_config_error (err e) = err (of_config_error e)

module _ {E K M : Type 0} (host : Host E K M) (built_in : Text) where
  open host use {build}

  -- The branch of `start_inner` for a public listener.
  unfoldable pub start_listener : ServerConfig → SocketAddr → Run E (SocketAddr × PublicSetup K)
  start_listener cfg addr = do
    certs ← lift (load build.load_key cfg)
    let terminated = terminated_hostnames cfg
    let shared = shared_hostnames certs terminated
    base ←
        lift
          (build_cert_resolver build cfg.acme cfg.tls_cert_file cfg.tls_key_file terminated shared)
    spawn (acme_tasks cfg.acme terminated shared)
    needs_client_cert ← lift (load_client_ca build cfg.client_ca_file)
    lift (host.public_tls base (is_multi base) needs_client_cert)
    bound ← lift (host.bind_public addr)
    spawn (public_loop bound ∷ [])
    lift (
        ok (
          bound,
          record {
            certs = certs;
            base = base;
            needs_client_cert = needs_client_cert;
            max_conns = unwrap_or cfg.max_public_connections default_max_public_connections;
            error_502 = default_502_html built_in cfg.error_502_file build.read_to_string;
            routes = from_config cfg.hostnames cfg.upstreams;
          },
        ))

  abbrev pub start_public_of :
      ServerConfig → Option SocketAddr → Run E (Option (SocketAddr × PublicSetup K))
  start_public_of cfg none = lift (ok none)
  start_public_of cfg (some addr) = do p ← start_listener cfg addr; lift (ok (some p))

  unfoldable pub start_inner : ServerConfig → Run E (TunnelServer K M)
  unfolding start_listener
  start_inner cfg = do
    material ← lift (host.load_or_generate (resolve_cert_dir cfg.tunnel_cert_dir))
    lift (host.rustls_config material)
    lift (host.quinn_config material)
    local_addr ← lift (host.bind_endpoint cfg.listen_addr)
    public ← start_public_of cfg cfg.public_listen_addr
    spawn (accept_loop ∷ [])
    lift (
        ok (record {
          local_addr = local_addr;
          material = material;
          routes = from_config cfg.hostnames cfg.upstreams;
          public = public;
        }))

  -- With the static backend.
  unfoldable pub start : ServerConfig → Run E (TunnelServer K M)
  unfolding start_inner
  start cfg = do lift (checked host.of_config_error (validate cfg)); start_inner cfg

  -- With a backend of the caller.
  unfoldable pub start_with : ServerConfig → Run E (TunnelServer K M)
  unfolding start_inner
  start_with cfg = do lift (checked host.of_config_error (validate_dynamic cfg)); start_inner cfg
