-- ===== src/Cli/Build.antt =====
-- crates/tuyau-cli/src/main.rs: which configuration the flags, the environment and the files give.
use tuyau.Prelude.{
  ℕ, ◌≡◌, ◌↔◌, refl, ap, subst, false, not, List, map, Option, none, some, arith, ◌==◌, nat_eq,
  length, or_else, unwrap_or, All, Result, ok, err, ◌>>◌, reject, Empty, ok_or, >>=-eq-ok, >>-eq-ok,
  ok_inj, reject-ok, ok_or-ok,
}
use tuyau.Prelude.Texts.{Text, trim}
use tuyau.ClientConfig.{ClientConfig, IngressRule, validate, from_toml_str, parse}
use tuyau.ClientConfig.Validate.{IsLocalAddr, validate_rules_iff}
use tuyau.Cli.{
  System, ClientArgs, EnvVars, invalid_hex, wrong_length, missing_server, missing_fingerprint,
  bad_fingerprint, bad_token_file, bad_token, unreadable, bad_config, invalid_config, context,
  parse_ingress, parse_hex_32, token_from_env, token_from, resolve_token, build_from_flags,
  build_from, build_client_config_inner,
}
use tuyau.Cli.Ingress.{render, IsRule, parse_ingress_iff}

pub context-ok :
    {E F A : Type 0} (f : E → F) (m : Result E A) {a : A} → context f m ≡ ok a → m ≡ ok a
context-ok f (ok a) h = ap ok (ok_inj h)
context-ok f (err e) h = cc

abbrev pub HasLocalAddrs : ClientConfig → Type 0
HasLocalAddrs cfg = All (λ (rule : IngressRule). IsLocalAddr rule.local_addr) cfg.ingress

validate_iff : (cfg : ClientConfig) → (validate cfg ≡ ok tt) ↔ HasLocalAddrs cfg
unfolding validate
validate_iff cfg = validate_rules_iff 0 cfg.ingress

is_32 : (n : ℕ) → not (n == 32) ≡ false → n ≡ 32
is_32 n h = ground arith

module _ (sys : System) where
  open sys use {read_to_string, parse_toml, decode_hex}

  abbrev pub IsKey : Text → List ℕ → Type 0
  IsKey hex key = (decode_hex hex ≡ ok key) × (length key ≡ 32)

  parse_hex_32_iff : (s : Text) (key : List ℕ) → (parse_hex_32 sys s ≡ ok key) ↔ IsKey s key
  unfolding parse_hex_32
  parse_hex_32_iff s key = (forth, back)
    where
      forth : parse_hex_32 sys s ≡ ok key → IsKey s key
      forth h =
          let (found, decoded, rest) = >>=-eq-ok (context invalid_hex (decode_hex s)) _ h in
          let (passes, made) =
            >>-eq-ok (reject (not (length found == 32)) (wrong_length (length found))) _ rest in
          subst (IsKey s) (ok_inj made) (
            context-ok invalid_hex (decode_hex s) decoded,
            is_32 (length found)
                (reject-ok (not (length found == 32)) (wrong_length (length found)) passes),
          )

      back : IsKey s key → parse_hex_32 sys s ≡ ok key
      back (decoded, len) = rw (decoded, len) refl

  -- Where the token is taken from: the file that the flag or the environment names, else the
  -- environment.
  abbrev pub IsToken : Option Text → Option Text → List ℕ → Type 0
  IsToken none none token = Empty
  IsToken none (some hex) token = IsKey (trim hex) token
  IsToken (some path) env_hex token =
      (raw : Text) × (read_to_string path ≡ ok raw) × IsKey (trim raw) token

  token_from_iff :
      (file env_hex : Option Text) (token : List ℕ)
      → (token_from sys file env_hex ≡ ok token) ↔ IsToken file env_hex token
  unfolding token_from token_from_env
  token_from_iff none none token = (λ h. cc, λ e. elim e [ ])
  token_from_iff none (some hex) token = (
    λ h.
        (parse_hex_32_iff (trim hex) token).0
          (context-ok bad_token (parse_hex_32 sys (trim hex)) h),
    λ k. ap (context bad_token) ((parse_hex_32_iff (trim hex) token).1 k),
  )
  token_from_iff (some path) env_hex token = (
    λ h.
        let (raw, was_read, rest) = >>=-eq-ok (context unreadable (read_to_string path)) _ h in
        (
          raw,
          context-ok unreadable (read_to_string path) was_read,
          (parse_hex_32_iff (trim raw) token).0
              (context-ok bad_token_file (parse_hex_32 sys (trim raw)) rest),
        ),
    λ (raw, was_read, key). rw (was_read, (parse_hex_32_iff (trim raw) token).1 key) refl,
  )

  module _ (args : ClientArgs) (env : EnvVars) (default_name : Text) where
    -- The configuration that the flags describe, each before its variable.
    pub record IsBuilt (cfg : ClientConfig) : Type 0 where
      pub server : or_else args.server env.server ≡ some cfg.server_addr
      pub fingerprint :
          (hex : Text) × (or_else args.fingerprint env.fingerprint ≡ some hex)
          × IsKey hex cfg.server_cert_fingerprint_sha256
      pub token : IsToken (or_else args.token_file env.token_file) env.token cfg.token
      pub name : cfg.client_name ≡ unwrap_or (or_else args.name env.name) default_name
      pub rules : (args.ingress ≡ map render cfg.ingress) × All IsRule cfg.ingress
      pub addrs : HasLocalAddrs cfg

    build_from_flags-IsBuilt :
        (cfg : ClientConfig) → build_from_flags sys args env default_name ≡ ok cfg → IsBuilt cfg
    unfolding build_from_flags resolve_token
    build_from_flags-IsBuilt cfg h =
        let hex_of = ok_or (or_else args.fingerprint env.fingerprint) missing_fingerprint in
        let token_of = token_from sys (or_else args.token_file env.token_file) env.token in
        let (server_addr, server, h1) =
          >>=-eq-ok (ok_or (or_else args.server env.server) missing_server) _ h in
        let (hex, found, h2) = >>=-eq-ok hex_of _ h1 in
        let (key, decoded, h3) = >>=-eq-ok (context bad_fingerprint (parse_hex_32 sys hex)) _ h2 in
        let (token, read, h4) = >>=-eq-ok token_of _ h3 in
        let (rules, parsed, h5) = >>=-eq-ok (parse_ingress args.ingress) _ h4 in
        let made : ClientConfig = record {
          server_addr = server_addr;
          server_cert_fingerprint_sha256 = key;
          token = token;
          client_name = unwrap_or (or_else args.name env.name) default_name;
          ingress = rules;
        } in
        let (valid, same) = >>-eq-ok (context invalid_config (validate made)) (ok made) h5 in
        subst IsBuilt (ok_inj same) (record {
          server = ok_or-ok (or_else args.server env.server) missing_server server;
          fingerprint = (
            hex,
            ok_or-ok (or_else args.fingerprint env.fingerprint) missing_fingerprint found,
            (parse_hex_32_iff hex key).0
                (context-ok bad_fingerprint (parse_hex_32 sys hex) decoded),
          );
          token = (token_from_iff (or_else args.token_file env.token_file) env.token token).0 read;
          name = refl;
          rules = (parse_ingress_iff args.ingress rules).0 parsed;
          addrs = (validate_iff made).0 (context-ok invalid_config (validate made) valid);
        })

    IsBuilt-build_from_flags :
        (cfg : ClientConfig) → IsBuilt cfg → build_from_flags sys args env default_name ≡ ok cfg
    unfolding build_from_flags resolve_token
    IsBuilt-build_from_flags cfg b =
        let (hex, found, key) = b.fingerprint in
        rw
          (
            b.server,
            found,
            (parse_hex_32_iff hex cfg.server_cert_fingerprint_sha256).1 key,
            (token_from_iff (or_else args.token_file env.token_file) env.token cfg.token).1 b.token,
            (parse_ingress_iff args.ingress cfg.ingress).1 b.rules,
            ← b.name,
            (validate_iff cfg).1 b.addrs,
          )
          refl

    -- Where the configuration comes from: the flags, or the file that `--config` names.
    abbrev pub IsSource : Option Text → ClientConfig → Type 0
    IsSource none cfg = IsBuilt cfg
    IsSource (some path) cfg =
        (raw : Text) × (read_to_string path ≡ ok raw)
        × (parse_toml raw ≡ ok cfg)
        × HasLocalAddrs cfg

    from_toml_str_iff :
        (raw : Text) (cfg : ClientConfig)
        → (from_toml_str parse_toml raw ≡ ok cfg) ↔ ((parse_toml raw ≡ ok cfg) × HasLocalAddrs cfg)
    unfolding from_toml_str
    from_toml_str_iff raw cfg = go (parse_toml raw)
      where
        go :
            (parsed : Result Text ClientConfig)
            → (elim parsed [
              | err message ↦ err (parse message)
              | ok found ↦ validate found >> ok found
            ]
                ≡ ok cfg)
              ↔ ((parsed ≡ ok cfg) × HasLocalAddrs cfg)
        go (err message) = (λ h. cc, λ (e, addrs). cc)
        go (ok found) = (
          λ h.
              let (valid, same) = >>-eq-ok (validate found) (ok found) h in
              (
                ap ok (ok_inj same),
                subst HasLocalAddrs (ok_inj same) ((validate_iff found).0 valid),
              ),
          λ (e, addrs). rw (ok_inj e, (validate_iff cfg).1 addrs) refl,
        )

    build_from_iff :
        (config : Option Text) (cfg : ClientConfig)
        → (build_from sys config args env default_name ≡ ok cfg) ↔ IsSource config cfg
    unfolding build_from
    build_from_iff none cfg = (build_from_flags-IsBuilt cfg, IsBuilt-build_from_flags cfg)
    build_from_iff (some path) cfg = (
      λ h.
          let (raw, was_read, parsed) = >>=-eq-ok (context unreadable (read_to_string path)) _ h in
          let (from_toml, addrs) =
            (from_toml_str_iff raw cfg).0
              (context-ok bad_config (from_toml_str parse_toml raw) parsed) in
          (raw, context-ok unreadable (read_to_string path) was_read, from_toml, addrs),
      λ (raw, was_read, from_toml, addrs).
          rw (was_read, (from_toml_str_iff raw cfg).1 (from_toml, addrs)) refl,
    )

    -- The command line's client starts with exactly the configuration that `--config`'s file holds
    -- or, without `--config`, the flags and the environment describe, a flag before its variable:
    -- the key and token have 32 bytes, each `--ingress` flag spells a rule, and every local address
    -- is accepted by `validate`. Otherwise building it is an error.
    pub build_client_config_inner_iff :
        (cfg : ClientConfig)
        → (build_client_config_inner sys args env default_name ≡ ok cfg) ↔ IsSource args.config cfg
    unfolding build_client_config_inner
    build_client_config_inner_iff cfg = build_from_iff args.config cfg
