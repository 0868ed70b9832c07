-- ===== src/Backend/Owners.antt =====
-- The static backend of crates/tuyau-server/src/backend.rs with the routing table: in a server whose
-- configuration is valid no client takes a host from another.
use tuyau.Prelude.{
  ℕ, ◌≡◌, refl, sym, ◌∙◌, subst, inl, inr, List, [], ◌∷◌, none, some, All, Has, Option-cases, ok,
  text_eq,
}
use tuyau.Prelude.Texts.{Text}
use tuyau.Prelude.Dict.{get}
use tuyau.Protocol.Frame.{TlsMode}
use tuyau.Config.{ServerConfig, validate}
use tuyau.Routes
use tuyau.Routes.{HostRoutes, RoutingTable, install}
use tuyau.Routes.Install.{OwnedBy}
use tuyau.Routes.History.{
  Call, installs, removes, kicks, sets_terminated, looks_up, run, IsWellFormed,
}
use tuyau.Routes.Ownership.{AreOwned, Grants, run-AreOwned}
use tuyau.Backend.{ClientGrant, from_config, admit}
use tuyau.Backend.Admit.{admit-exclusive}

-- Some token is granted the host for the client.
pub record IsGrantedTo (cfg : ServerConfig) (host client : Text) : Type 0 where
  pub token : List ℕ
  pub grant : ClientGrant
  pub entry : Text × TlsMode
  pub admitted : admit (from_config cfg) token ≡ some grant
  pub listed : Has entry grant.hostnames
  pub named : entry.0 ≡ host
  pub owner : grant.client_name ≡ client

-- A tunnel is installed only with a grant of the backend.
abbrev pub IsAdmitted : ServerConfig → Call → Type 0
IsAdmitted cfg (installs hosts client balance conn) =
    (token : List ℕ) × (admit (from_config cfg) token
      ≡ some (record { client_name = client; balance = balance; hostnames = hosts }))
IsAdmitted cfg _ = Unit

-- The table that the server starts with.
abbrev pub start_table : ServerConfig → RoutingTable
start_table cfg = Routes.from_config cfg.hostnames cfg.upstreams

Grants-All :
    (cfg : ServerConfig) (cs : List Call)
    → All (IsAdmitted cfg) cs
    → All (Grants (IsGrantedTo cfg)) cs
Grants-All cfg [] a = tt
Grants-All cfg (c ∷ cs) (a, rest) = (grants c a, Grants-All cfg cs rest)
  where
    grants : (c : Call) → IsAdmitted cfg c → Grants (IsGrantedTo cfg) c
    grants (installs hosts client balance conn) (token, e) = λ p i. record {
      token = token;
      grant = record { client_name = client; balance = balance; hostnames = hosts };
      entry = p;
      admitted = e;
      listed = i;
      named = refl;
      owner = refl;
    }
    grants (removes id) a = tt
    grants (kicks client) a = tt
    grants (sets_terminated full) a = tt
    grants (looks_up is_open host) a = tt

none-ne-some : {entry : HostRoutes} → none ≡ some entry → ⊥
none-ne-some h = cc

start_table-IsWellFormed : (cfg : ServerConfig) → IsWellFormed (start_table cfg).inner
unfolding Routes.from_config get
start_table-IsWellFormed cfg = record {
  keys = tt;
  entries = λ host entry e. absurd (none-ne-some e);
}

start_table-AreOwned : (cfg : ServerConfig) → AreOwned (IsGrantedTo cfg) (start_table cfg).inner
unfolding Routes.from_config get
start_table-AreOwned cfg host entry e = absurd (none-ne-some e)

-- In a server with a valid configuration the hosts of a grant have no other owner than its client,
-- after any history of tunnels that were admitted, of closed and kicked connections, and of calls of
-- the library and the listener.
pub run-OwnedBy :
    (cfg : ServerConfig) (calls : List Call) (token : List ℕ) (grant : ClientGrant)
    (entry : Text × TlsMode)
    → validate cfg ≡ ok tt
    → All (IsAdmitted cfg) calls
    → admit (from_config cfg) token ≡ some grant
    → Has entry grant.hostnames
    → OwnedBy grant.client_name (get entry.0 (run calls (start_table cfg)).inner)
run-OwnedBy cfg calls token grant entry valid admitted e i =
    elim (Option-cases (get entry.0 (run calls (start_table cfg)).inner)) [
      | inl gone ↦ subst (OwnedBy grant.client_name) (sym gone) tt
      | inr (routes, found) ↦
          let o =
            run-AreOwned (IsGrantedTo cfg) calls (start_table cfg) (Grants-All cfg calls admitted)
              (start_table-IsWellFormed cfg) (start_table-AreOwned cfg) entry.0 routes found in
          subst (OwnedBy grant.client_name) (sym found) (
            sym o.owner
            ∙ admit-exclusive cfg o.token token o.grant grant o.entry entry valid o.admitted e
                o.listed i o.named)
    ]
