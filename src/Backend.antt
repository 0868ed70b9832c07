-- ===== src/Backend.antt =====
-- crates/tuyau-server/src/backend.rs: the static backend, which admits a tunnel by its token.

pub mod Admit
pub mod Owners
use tuyau.Prelude.{
  ℕ, ◌≡◌, Bool, List, [], ◌∷◌, Option, none, some, if◌then◌else◌, ◌==◌, text_eq, map, retain,
}
use tuyau.Prelude.Texts.{Text}
use tuyau.Protocol.Frame.{TlsMode}
use tuyau.Config.{Balance, ClientEntry, HostnameEntry, ServerConfig}

pub record ClientGrant : Type 0 where
  pub client_name : Text
  pub balance : Balance
  pub hostnames : List (Text × TlsMode)

pub record StaticBackend : Type 0 where
  pub clients : List ClientEntry
  pub hostnames : List HostnameEntry

abbrev pub from_config : ServerConfig → StaticBackend
from_config cfg = record { clients = cfg.clients; hostnames = cfg.hostnames }

-- The loop over the clients; the last match wins.
pub match_token : List ℕ → Option ClientEntry → List ClientEntry → Option ClientEntry
match_token token matched [] = matched
match_token token matched (c ∷ cs) =
    match_token token (if token == c.token then some c else matched) cs

abbrev pub granted : HostnameEntry → Text × TlsMode
granted h = (h.host, h.tls_mode)

pub grant_of : StaticBackend → ClientEntry → ClientGrant
grant_of b client = record {
  client_name = client.name;
  balance = client.balance;
  hostnames = map granted (retain (λ h. h.client == client.name) b.hostnames);
}

unfoldable pub admit : StaticBackend → List ℕ → Option ClientGrant
unfolding match_token grant_of
admit b token = elim (match_token token none b.clients) [
  | none ↦ none
  | some client ↦ some (grant_of b client)
]
