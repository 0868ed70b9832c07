-- ===== src/Tests/Certificates.antt =====
-- The theorems on the server's certs, on the ACME controller and on the command line at concrete
-- inputs.
use tuyau.Prelude.{
  ℕ, ◌≡◌, refl, subst, inl, true, false, not, ◌&&◌, [], ◌∷◌, map, none, some, text_eq, text_beq,
  contains, retain, or_else, Result, ok, err, ok_inj,
}
use tuyau.Prelude.Texts.{Text, bytes, to_ascii_lowercase, lower_byte, trim_end_matches, split_once}
use tuyau.Prelude.Dict.{get, insert}
use tuyau.Config.{ServerConfig}
use tuyau.Routes.{from_config, is_terminated, host_patterns, find_map}
use tuyau.HostCerts.{load, load_all, select, covers}
use tuyau.Server.{Resolver, AcmeController, ensure}
use tuyau.Server.Start.{
  Builders, multi, PublicSetup, terminated_hostnames, shared_hostnames, start_public, cert_for,
  set_terminated_domains,
}
use tuyau.Server.Issued.{IsIssued, ordered, ensure-get}
use tuyau.Server.Undisturbed.{run, cert_for-run, set_terminated_domains-serves, new-IsIssued}
use tuyau.Certs.{
  Pem, Issued, Issue, Dir, Files, CertMaterial, cert_file, key_file, load_or_generate, generate,
  save,
}
use tuyau.Certs.Restart.{ReadsBack, load_or_generate-again}
use tuyau.ClientConfig.{ClientConfig}
use tuyau.Cli.{System, ClientArgs, EnvVars}
use tuyau.Tests.Tables.{config, web, ann}

-- Certs are numbers: the combined cert is 1, that of a provisioned domain 2.
abbrev pub builders : Builders Text ℕ
builders = record {
  load_key = λ cert key. ok 3;
  generate_public_cert = λ hosts. ok 4;
  load_chain = λ cert key. ok 5;
  build_acme_state = λ acme hosts. ok λ sni. some 1;
  load_roots = λ path. ok tt;
  read_to_string = λ path. none;
}

abbrev pub acme_config : ServerConfig
acme_config = record config {
  acme = some (record { contact = bytes "mailto:a@x"; cache_dir = bytes "c"; production = false });
}

abbrev controller : AcmeController ℕ
controller = record {
  multi = record { static_resolver = λ sni. some 1; dynamic = [] };
  static_domains = map to_ascii_lowercase (terminated_hostnames acme_config);
  added = [];
}

abbrev pub page : Text
page = bytes "502"

abbrev setup : PublicSetup ℕ
setup = record {
  certs = [];
  base = multi controller;
  needs_client_cert = false;
  max_conns = 1024;
  error_502 = page;
  routes = from_config acme_config.hostnames acme_config.upstreams;
}

setup-started : start_public builders page acme_config ≡ ok setup
unfolding start_public load load_all shared_hostnames covers select host_patterns find_map get
    retain contains split_once to_ascii_lowercase trim_end_matches
setup-started = refl

abbrev orders : Text → Result Text (Resolver ℕ)
orders d = ok λ sni. some 2

cert_for-run_example :
    cert_for (run ((orders, bytes "new.x" ∷ web ∷ []) ∷ []) setup) (some (bytes "WEB.x"))
    ≡ cert_for setup (some (bytes "WEB.x"))
unfolding retain to_ascii_lowercase lower_byte
cert_for-run_example =
    cert_for-run builders page acme_config ((orders, bytes "new.x" ∷ web ∷ []) ∷ []) web
      (bytes "WEB.x") setup-started (inl refl) refl

controller-IsIssued : IsIssued controller
controller-IsIssued = new-IsIssued (λ sni. some 1) (terminated_hostnames acme_config)

ensure-get_example :
    get (bytes "new.x") (ensure orders (bytes "New.x" ∷ []) controller).multi.dynamic
    ≡ or_else (get (bytes "new.x") controller.multi.dynamic) (
        ordered orders
          (contains (map to_ascii_lowercase (bytes "New.x" ∷ [])) (bytes "new.x")
            && not (contains controller.static_domains (bytes "new.x")))
          (bytes "new.x"))
ensure-get_example =
    ensure-get orders (bytes "New.x" ∷ []) (bytes "new.x") controller controller-IsIssued

set_terminated_domains-serves_example :
    (cert_for (set_terminated_domains orders (bytes "New.x" ∷ []) setup) (some (bytes "new.X"))
      ≡ some 2)
    × (is_terminated
          (set_terminated_domains orders (bytes "New.x" ∷ []) setup).routes
          (bytes "new.X")
        ≡ true)
unfolding retain to_ascii_lowercase lower_byte contains text_beq get select find_map host_patterns
    split_once trim_end_matches
set_terminated_domains-serves_example =
    set_terminated_domains-serves orders (bytes "New.x" ∷ []) setup (bytes "New.x") (bytes "new.X")
      refl controller-IsIssued (inl refl) refl refl refl refl refl

-- PEM that is DER.
abbrev pub small_pem : Pem
small_pem = record {
  certs = λ content. ok content ∷ [];
  pkcs8_private_keys = λ content. ok content ∷ [];
  private_key = λ content. ok (some content);
}

abbrev pub issue_number : ℕ → Issue
issue_number n names name =
    ok (record { cert_der = n ∷ []; key_der = n ∷ n ∷ []; cert_pem = n ∷ []; key_pem = n ∷ n ∷ [] })

pub issue-ReadsBack : ReadsBack small_pem (issue_number 1)
issue-ReadsBack names name issued h =
    subst
      (λ (i : Issued).
        (small_pem.certs i.cert_pem ≡ ok i.cert_der ∷ [])
        × (small_pem.pkcs8_private_keys i.key_pem ≡ ok i.key_der ∷ []))
      (ok_inj h) (refl, refl)

abbrev pub small_dir : Dir
small_dir = record { join = λ name. name; can_create = true; can_write = λ path. true }

abbrev pub saved : Files
saved = (cert_file, 1 ∷ []) ∷ (key_file, 1 ∷ 1 ∷ []) ∷ []

abbrev pub first_cert : CertMaterial
first_cert = record { cert_der = 1 ∷ []; key_der = 1 ∷ 1 ∷ []; fingerprint = 1 ∷ [] }

load_or_generate-again_example :
    load_or_generate small_pem (λ b. b) small_dir (issue_number 2) saved ≡ (saved, ok first_cert)
unfolding load_or_generate generate save get insert text_beq
load_or_generate-again_example =
    load_or_generate-again small_pem (λ b. b) small_dir (issue_number 1) (issue_number 2) [] saved
      first_cert issue-ReadsBack (λ h. cc) refl

abbrev pub small_system : System
small_system = record {
  read_to_string = λ path. ok (bytes " 00 ");
  parse_toml = λ raw. err (bytes "no table");
  decode_hex = λ hex. ok hex;
}

abbrev pub flags : ClientArgs
flags = record {
  config = none;
  server = some (bytes "tunnel.x:4433");
  fingerprint = some (bytes "0123456789abcdef0123456789abcdef");
  token_file = none;
  name = none;
  ingress = bytes "web.x=app:80" ∷ [];
}

abbrev pub variables : EnvVars
variables = record {
  server = none;
  fingerprint = none;
  token = some (bytes "0123456789abcdef0123456789abcdef");
  token_file = none;
  name = none;
}

abbrev pub flag_config : ClientConfig
flag_config = record {
  server_addr = bytes "tunnel.x:4433";
  server_cert_fingerprint_sha256 = bytes "0123456789abcdef0123456789abcdef";
  token = bytes "0123456789abcdef0123456789abcdef";
  client_name = ann;
  ingress = record { host = web; local_addr = bytes "app:80" } ∷ [];
}
