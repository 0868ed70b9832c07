-- ===== src/Tests/Hello.antt =====
-- The theorem on the ClientHello that names a host, at a concrete one.
use tuyau.Prelude.{◌≡◌, refl, [], ◌∷◌, arith}
use tuyau.Prelude.Texts.{bytes}
use tuyau.Sni.{parse_sni}
use tuyau.Sni.Utf8.{is_utf8}
use tuyau.Sni.Results.{ret}
use tuyau.Sni.Sample.{zeros_32}
use tuyau.Sni.Complete.{ClientHello, hello_bytes, IsClientHello, parse_sni-hello_bytes}

-- A session id, two cipher suites, and an ALPN extension ahead of the server name.
abbrev hello : ClientHello
hello = record {
  record_version = (3, 1);
  record_len = (0, 99);
  handshake_len = (0, 0, 95);
  version_random = 3 ∷ 3 ∷ zeros_32;
  session_id = 7 ∷ 8 ∷ [];
  cipher_suites = 0x13 ∷ 1 ∷ 0x13 ∷ 2 ∷ [];
  compression = 0 ∷ [];
  before = record { ext_type = 16; payload = 0 ∷ 3 ∷ 2 ∷ bytes "h2" } ∷ [];
  host = bytes "web.x";
  more = [];
  after = 0 ∷ 23 ∷ 0 ∷ 0 ∷ [];
}

hello-IsClientHello : IsClientHello hello
unfolding is_utf8
hello-IsClientHello = record {
  random = refl;
  suites_fit = omega arith;
  others = (
    record {
      not_server_name = λ e. absurd (omega arith);
      type_fits = omega arith;
      payload_fits = omega arith;
    },
    tt,
  );
  extensions_fit = omega arith;
  host_valid = refl;
  host_short = omega arith;
  names_fit = omega arith;
}

parse_sni-hello_bytes_example : parse_sni (hello_bytes hello (1 ∷ 2 ∷ [])) ≡ ret (bytes "web.x")
parse_sni-hello_bytes_example =
    parse_sni-hello_bytes hello (1 ∷ 2 ∷ []) hello-IsClientHello (omega arith)
