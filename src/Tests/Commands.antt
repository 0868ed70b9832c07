-- ===== src/Tests/Commands.antt =====
-- The theorems on the commands at concrete configurations.
use tuyau.Prelude.{ℕ, ◌≡◌, ◌↔◌, refl, List, [], none, some, text_beq, Result, ok, err}
use tuyau.Prelude.Texts.{Text, bytes}
use tuyau.Net.{SocketAddr}
use tuyau.Config.{ServerConfig, validate}
use tuyau.Config.Validate.{validate_iff}
use tuyau.Client.{TunnelClient, ingress_map}
use tuyau.Client.Serve.{TunnelStream, serve}
use tuyau.Cli.Run.{run_client}
use tuyau.Cli.Run.Streams.{IsRun, run_client_iff}
use tuyau.Tests.Tunnelled.{small_network, arrivals, header_cbor}
use tuyau.Tests.Startup.{config-IsValid}
use tuyau.Cli.Run.{with_cert_dir}
use tuyau.Routes.{from_config}
use tuyau.Certs.{CertMaterial, Files, load_or_generate, generate, save}
use tuyau.Prelude.Dict.{get, insert}
use tuyau.Server.Life.{Host, TunnelServer, start, start_inner}
use tuyau.Cli.Run.{run_server}
use tuyau.Cli.Run.Again.{on_disk, files_after, run_server-again}
use tuyau.Tests.Tables.{ann, config, local_port}
use tuyau.Tests.Certificates.{
  builders, page, small_pem, issue_number, issue-ReadsBack, small_dir, first_cert, small_system,
  flags, variables, flag_config,
}

-- The rest of a host that binds the tunnels' address to `bound`.
abbrev host_on : SocketAddr → Host Text ℕ CertMaterial
host_on bound = record {
  build = builders;
  load_or_generate = λ dir. err (bytes "no disk");
  rustls_config = λ material. ok tt;
  quinn_config = λ material. ok tt;
  bind_endpoint = λ addr. ok bound;
  public_tls = λ base acme needs. ok tt;
  bind_public = λ addr. ok addr;
  of_config_error = λ e. bytes "config";
}

abbrev read_config : Text → Result Text Text
read_config path = ok path

abbrev parse_config : Text → Result Text ServerConfig
parse_config raw = ok config

abbrev on_small_disk : SocketAddr → ℕ → Files → Host Text ℕ CertMaterial
on_small_disk bound n files =
    on_disk small_pem (λ b. b) (λ d. small_dir) (λ e. bytes "cert") (issue_number n) files
      (host_on bound)

abbrev up : SocketAddr → TunnelServer ℕ CertMaterial
up bound = record {
  local_addr = bound;
  material = first_cert;
  routes = from_config config.hostnames config.upstreams;
  public = none;
}

abbrev placed : ServerConfig
placed = with_cert_dir (some (bytes "server.toml")) config

placed-IsValid : validate placed ≡ ok tt
placed-IsValid =
    let v = config-IsValid in
    (validate_iff placed).1 (record {
      routes = v.routes;
      clients = v.clients;
      hosts = v.hosts;
      targets = v.targets;
      names = v.names;
      patterns = v.patterns;
      certs = v.certs;
      owners = v.owners;
      contact = v.contact;
    })

runs :
    (bound : SocketAddr) (n : ℕ) (files : Files)
    → (load_or_generate small_pem (λ b. b) small_dir (issue_number n) files).1 ≡ ok first_cert
    → (run_server read_config parse_config some
        (on_small_disk bound n files)
        page
        (λ server. ok server.local_addr)
        (bytes "server.toml")).0
      ≡ ok (up bound)
unfolding run_server start start_inner
runs bound n files h = rw (placed-IsValid, h) refl

abbrev other_port : SocketAddr
other_port = record local_port { port = 4434 }

run_server-again_example : (up other_port).material ≡ (up local_port).material
unfolding load_or_generate generate save get insert text_beq
run_server-again_example =
    run_server-again read_config parse_config some page small_pem (λ b. b) (λ d. small_dir)
      (λ e. bytes "cert") (issue_number 1) (issue_number 2) [] (host_on local_port)
      (host_on other_port) (λ server. ok server.local_addr) (λ server. ok server.local_addr)
      (bytes "server.toml") (bytes "server.toml") config {server = up local_port}
      {server' = up other_port} issue-ReadsBack (λ h. cc) refl refl (runs local_port 1 [] refl)
      (runs other_port 2 (files_after small_pem (λ b. b) small_dir (issue_number 1) []) refl)

abbrev relayed : TunnelClient × List TunnelStream
relayed = (
  record { server_addr = local_port; ingress = ingress_map flag_config },
  (serve header_cbor arrivals).0,
)

run_client_iff_example :
    (run_client small_system variables ann small_network header_cbor flags arrivals ≡ ok relayed)
    ↔ IsRun small_system variables ann small_network header_cbor flags arrivals relayed
run_client_iff_example =
    run_client_iff small_system variables ann small_network header_cbor flags arrivals relayed
