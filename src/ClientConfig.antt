-- ===== src/ClientConfig.antt =====
-- crates/tuyau-client/src/config.rs and ConfigError of error.rs: the client's configuration and its
-- validation. The reasons of an error are constructors in place of messages.
pub mod Validate
use tuyau.Prelude.{
  ℕ, zero, suc, ◌+◌, ◌*◌, ◌-◌, ◌≡◌, Bool, true, false, not, ◌&&◌, ◌||◌, List, [], ◌∷◌, Option, none,
  some, if◌then◌else◌, ltb, leb, ◌==◌, nat_eq, is_some, contains, Result, ok, err, ◌>>=◌, ◌>>◌,
  reject, ok_or,
}
use tuyau.Prelude.Texts.{Text, bytes, rsplit_once, starts_with, ends_with}
use tuyau.Config.{is_empty}

pub record IngressRule : Type 0 where
  pub host : Text
  pub local_addr : Text

pub record ClientConfig : Type 0 where
  pub server_addr : Text
  pub server_cert_fingerprint_sha256 : List ℕ
  pub token : List ℕ
  pub client_name : Text
  pub ingress : List IngressRule

pub data AddrError : Type 0 where
  missing_port unbracketed_ipv6 empty_host : AddrError
  bad_port : Text → AddrError

pub data ConfigError : Type 0 where
  parse : Text → ConfigError
  invalid_ingress : ℕ → AddrError → ConfigError

-- The number that decimal digits spell after `n`, if it stays below 2 ^ 16.
pub digits : ℕ → Text → Option ℕ
digits n [] = some n
digits n (c ∷ s) =
    let next = n * 10 + (c - b'0') in
    let rest = digits next s in if leb b'0' c && leb c b'9' && ltb next 65536 then rest else none

-- `str::parse::<u16>`: digits, perhaps behind a plus sign.
unfoldable pub parse_u16 : Text → Option ℕ
unfolding digits
parse_u16 [] = none
parse_u16 (c ∷ s) =
    if c == b'+' then (if is_empty s then none else digits 0 s) else digits 0 (c ∷ s)

-- What is checked of the two sides of the last colon.
unfoldable pub check_sides : Text → Text → Result AddrError (Unit {0})
check_sides host port = do
  reject (contains host b':' && not (starts_with (bytes "[") host && ends_with b']' host))
      unbracketed_ipv6
  reject (is_empty host) empty_host
  reject (not (is_some (parse_u16 port))) (bad_port port)

unfoldable pub validate_local_addr : Text → Result AddrError (Unit {0})
unfolding check_sides
validate_local_addr s = do
  (host, port) ← ok_or (rsplit_once b':' s) missing_port
  check_sides host port

abbrev pub at_index : ℕ → Result AddrError (Unit {0}) → Result ConfigError (Unit {0})
at_index i (ok u) = ok u
at_index i (err reason) = err (invalid_ingress i reason)

-- The loop over the rules from an index on.
pub validate_rules : ℕ → List IngressRule → Result ConfigError (Unit {0})
validate_rules i [] = ok tt
validate_rules i (rule ∷ rules) = do
  at_index i (validate_local_addr rule.local_addr)
  validate_rules (suc i) rules

unfoldable pub validate : ClientConfig → Result ConfigError (Unit {0})
unfolding validate_rules
validate cfg = validate_rules 0 cfg.ingress

-- `from_toml_str`, with the parser of TOML and its message.
unfoldable pub from_toml_str :
    (Text → Result Text ClientConfig) → Text → Result ConfigError ClientConfig
unfolding validate
from_toml_str from_str s = elim (from_str s) [
  | err message ↦ err (parse message)
  | ok cfg ↦ validate cfg >> ok cfg
]
