-- ===== src/Cli.antt =====
-- crates/tuyau-cli/src/main.rs: where the client's configuration comes from. Reading a file, the
-- parser of TOML and the crate `hex` are the record `System`; the messages of errors are
-- constructors.
pub mod Build
pub mod Ingress
pub mod Run
use tuyau.Prelude.{
  ℕ, ◌≡◌, Bool, not, ◌||◌, List, [], ◌∷◌, Option, none, some, if◌then◌else◌, ◌==◌, nat_eq, length,
  or_else, unwrap_or, Result, ok, err, ◌>>=◌, ◌>>◌, reject, ok_or,
}
use tuyau.Prelude.Texts.{Text, bytes, split_once, trim}
use tuyau.Config.{is_empty}
use tuyau.ClientConfig.{ClientConfig, IngressRule, ConfigError, validate, from_toml_str}

-- `ClientArgs` without the subcommand; a path is a text.
pub record ClientArgs : Type 0 where
  pub config : Option Text
  pub server : Option Text
  pub fingerprint : Option Text
  pub token_file : Option Text
  pub name : Option Text
  pub ingress : List Text

pub record EnvVars : Type 0 where
  pub server : Option Text
  pub fingerprint : Option Text
  pub token : Option Text
  pub token_file : Option Text
  pub name : Option Text

pub data HexError : Type 0 where
  invalid_hex : Text → HexError
  wrong_length : ℕ → HexError

pub data CliError : Type 0 where
  unreadable : Text → CliError
  bad_config : ConfigError → CliError
  missing_server missing_fingerprint missing_token : CliError
  bad_fingerprint bad_token_file bad_token : HexError → CliError
  no_separator empty_side : Text → CliError
  invalid_config : ConfigError → CliError

pub record System : Type 0 where
  pub read_to_string : Text → Result Text Text
  pub parse_toml : Text → Result Text ClientConfig
  pub decode_hex : Text → Result Text (List ℕ)

-- `with_context` and `map_err`
abbrev pub context {ℓ κ ι} :
    {E : Type ℓ} {F : Type κ} {A : Type ι} → (E → F) → Result E A → Result F A
context f (ok a) = ok a
context f (err e) = err (f e)

-- One round of `parse_ingress`.
unfoldable pub parse_rule : Text → Result CliError IngressRule
parse_rule e = do
  (host, local_addr) ← ok_or (split_once b'=' e) (no_separator e)
  reject (is_empty host || is_empty local_addr) (empty_side e)
  ok (record { host = host; local_addr = local_addr })

unfoldable pub parse_ingress : List Text → Result CliError (List IngressRule)
unfolding parse_rule
parse_ingress [] = ok []
parse_ingress (e ∷ es) = do rule ← parse_rule e; rules ← parse_ingress es; ok (rule ∷ rules)

module _ (sys : System) where
  open sys use {read_to_string, parse_toml, decode_hex}

  unfoldable pub parse_hex_32 : Text → Result HexError (List ℕ)
  parse_hex_32 s = do
    bytes ← context invalid_hex (decode_hex s)
    reject (not (length bytes == 32)) (wrong_length (length bytes))
    ok bytes

  -- The last two steps of `resolve_token`, without a token file.
  unfoldable pub token_from_env : Option Text → Result CliError (List ℕ)
  unfolding parse_hex_32
  token_from_env none = err missing_token
  token_from_env (some hex) = context bad_token (parse_hex_32 (trim hex))

  unfoldable pub token_from : Option Text → Option Text → Result CliError (List ℕ)
  unfolding token_from_env parse_hex_32
  token_from none env_hex = token_from_env env_hex
  token_from (some path) env_hex = do
    raw ← context unreadable (read_to_string path)
    context bad_token_file (parse_hex_32 (trim raw))

  unfoldable pub resolve_token : Option Text → Option Text → Option Text → Result CliError (List ℕ)
  unfolding token_from
  resolve_token flag_path env_path env_hex = token_from (or_else flag_path env_path) env_hex

  -- `build_client_config_inner` without `--config`.
  unfoldable pub build_from_flags : ClientArgs → EnvVars → Text → Result CliError ClientConfig
  unfolding resolve_token parse_hex_32
  build_from_flags args env default_name = do
    server_addr ← ok_or (or_else args.server env.server) missing_server
    hex ← ok_or (or_else args.fingerprint env.fingerprint) missing_fingerprint
    fingerprint ← context bad_fingerprint (parse_hex_32 hex)
    token ← resolve_token args.token_file env.token_file env.token
    ingress ← parse_ingress args.ingress
    let cfg : ClientConfig = record {
      server_addr = server_addr;
      server_cert_fingerprint_sha256 = fingerprint;
      token = token;
      client_name = unwrap_or (or_else args.name env.name) default_name;
      ingress = ingress;
    }
    context invalid_config (validate cfg)
    ok cfg

  -- `build_client_config_inner` by the path of `--config`.
  unfoldable pub build_from :
      Option Text → ClientArgs → EnvVars → Text → Result CliError ClientConfig
  unfolding build_from_flags
  build_from none args env default_name = build_from_flags args env default_name
  build_from (some path) args env default_name = do
    raw ← context unreadable (read_to_string path)
    context bad_config (from_toml_str parse_toml raw)

  unfoldable pub build_client_config_inner :
      ClientArgs → EnvVars → Text → Result CliError ClientConfig
  unfolding build_from
  build_client_config_inner args env default_name = build_from args.config args env default_name
