-- ===== src/Config.antt =====
-- crates/tuyau-server/src/config.rs and ConfigError of error.rs: the server's configuration and
-- its validation. Loading it from TOML is serde's and not modelled.
pub mod Loops
pub mod Checks
pub mod Validate
use tuyau.Prelude.{
  ℕ, ◌≡◌, Bool, true, false, not, ◌&&◌, ◌||◌, List, [], ◌∷◌, ◌++◌, map, Option, none, some,
  if◌then◌else◌, ◌==◌, text_eq, nat_eq, is_some, contains, Result, ok, err, ◌>>=◌, ◌>>◌, reject,
}
use tuyau.Prelude.Texts.{Text, bytes, strip_prefix, starts_with}
use tuyau.Net.{SocketAddr}
use tuyau.Protocol.Frame.{TlsMode, terminated, tls_offload, passthrough, is_passthrough}
use Loops.{for_each, insert_all}

pub data Balance : Type 0 where
  last_write_wins round_robin : Balance

pub record AcmeSection : Type 0 where
  pub contact : Text
  pub cache_dir : Text
  pub production : Bool

pub record ClientEntry : Type 0 where
  pub name : Text
  pub token : List ℕ
  pub balance : Balance

pub record HostnameEntry : Type 0 where
  pub host : Text
  pub client : Text
  pub tls_mode : TlsMode
  pub tls_cert_file : Option Text
  pub tls_key_file : Option Text

pub record UpstreamEntry : Type 0 where
  pub host : Text
  pub local_addr : Option SocketAddr
  pub local_socket : Option Text
  pub tls_mode : TlsMode
  pub tls_cert_file : Option Text
  pub tls_key_file : Option Text

pub record ServerConfig : Type 0 where
  pub listen_addr : SocketAddr
  pub public_listen_addr : Option SocketAddr
  pub tunnel_cert_dir : Option Text
  pub clients : List ClientEntry
  pub hostnames : List HostnameEntry
  pub acme : Option AcmeSection
  pub tls_cert_file : Option Text
  pub tls_key_file : Option Text
  pub upstreams : List UpstreamEntry
  pub max_public_connections : Option ℕ
  pub error_502_file : Option Text
  pub client_ca_file : Option Text

pub data ConfigError : Type 0 where
  no_clients : ConfigError
  parse duplicate_client duplicate_host : Text → ConfigError
  unknown_client : Text → Text → ConfigError
  acme_contact upstream_target host_cert_pair host_cert_passthrough host_pattern :
      Text → ConfigError

abbrev Checked : Type 0
Checked = Result ConfigError (Unit {0})

abbrev pub is_empty {ℓ} : {A : Type ℓ} → List A → Bool
is_empty [] = true
is_empty (x ∷ xs) = false

-- `a == b`
abbrev pub same : Bool → Bool → Bool
same true b = b
same false b = not b

pub validate_target : UpstreamEntry → Checked
validate_target u =
    reject (same (is_some u.local_addr) (is_some u.local_socket)) (upstream_target u.host)

pub validate_upstream_targets : ServerConfig → Checked
unfolding validate_target
validate_upstream_targets cfg = for_each validate_target cfg.upstreams

-- The name of an upstream host without its `*.`.
abbrev pub bare_name : Text → Text
bare_name host = elim (strip_prefix (bytes "*.") host) [ some name ↦ name | none ↦ host ]

pub validate_hostname_pattern : HostnameEntry → Checked
validate_hostname_pattern h = reject (contains h.host b'*') (host_pattern h.host)

pub validate_upstream_pattern : UpstreamEntry → Checked
validate_upstream_pattern u =
    if u.host == bytes "*"
    then ok tt
    else reject (is_empty (bare_name u.host) || contains (bare_name u.host) b'*')
        (host_pattern u.host)

pub validate_host_patterns : ServerConfig → Checked
unfolding validate_hostname_pattern validate_upstream_pattern
validate_host_patterns cfg = do
  for_each validate_hostname_pattern cfg.hostnames
  for_each validate_upstream_pattern cfg.upstreams

-- The (host, mode, cert, key) of an entry.
pub record HostCert : Type 0 where
  pub host : Text
  pub mode : TlsMode
  pub cert : Option Text
  pub key : Option Text

abbrev pub hostname_cert : HostnameEntry → HostCert
hostname_cert h = record {
  host = h.host;
  mode = h.tls_mode;
  cert = h.tls_cert_file;
  key = h.tls_key_file;
}

abbrev pub upstream_cert : UpstreamEntry → HostCert
upstream_cert u = record {
  host = u.host;
  mode = u.tls_mode;
  cert = u.tls_cert_file;
  key = u.tls_key_file;
}

abbrev pub host_certs : ServerConfig → List HostCert
host_certs cfg = map hostname_cert cfg.hostnames ++ map upstream_cert cfg.upstreams

pub validate_host_cert : HostCert → Checked
validate_host_cert c = do
  reject (not (same (is_some c.cert) (is_some c.key))) (host_cert_pair c.host)
  reject (is_some c.cert && is_passthrough c.mode) (host_cert_passthrough c.host)

pub validate_host_certs : ServerConfig → Checked
unfolding validate_host_cert
validate_host_certs cfg = for_each validate_host_cert (host_certs cfg)

pub validate_client : ServerConfig → HostnameEntry → Checked
validate_client cfg h =
    reject (not (contains (map (λ c. c.name) cfg.clients) h.client))
      (unknown_client h.host h.client)

validate_contact : Option AcmeSection → Checked
validate_contact none = ok tt
validate_contact (some acme) =
    reject (not (starts_with (bytes "mailto:") acme.contact)) (acme_contact acme.contact)

pub validate_acme : ServerConfig → Checked
unfolding validate_contact
validate_acme cfg = validate_contact cfg.acme

pub validate : ServerConfig → Checked
validate cfg = do
  reject (is_empty cfg.clients && is_empty cfg.upstreams) no_clients
  insert_all duplicate_client [] (map (λ c. c.name) cfg.clients)
  seen_hosts ← insert_all duplicate_host [] (map (λ h. h.host) cfg.hostnames)
  insert_all duplicate_host seen_hosts (map (λ u. u.host) cfg.upstreams)
  validate_upstream_targets cfg
  validate_host_patterns cfg
  validate_host_certs cfg
  for_each (validate_client cfg) cfg.hostnames
  validate_acme cfg

-- The routing backend owns clients and hostnames.
pub validate_dynamic : ServerConfig → Checked
validate_dynamic cfg = do
  insert_all duplicate_host [] (map (λ u. u.host) cfg.upstreams)
  validate_upstream_targets cfg
  validate_host_patterns cfg
  validate_host_certs cfg
  validate_acme cfg
