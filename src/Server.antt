-- ===== src/Server.antt =====
-- crates/tuyau-server/src/server.rs: the certs of the public listener. A resolver is the function
-- from the SNI to the cert it chooses; `K` is the type of a cert with its key. Starting an ACME
-- order, reading files and making a self-signed cert are arguments.
pub mod Start
pub mod Issued
pub mod Undisturbed
pub mod Tasks
pub mod Life
pub mod Started
pub mod Orders
pub mod Shutdown
use tuyau.Prelude.{
  ◌≡◌, Bool, not, ◌&&◌, ◌||◌, List, [], ◌∷◌, map, Option, none, some, if◌then◌else◌, ◌==◌, text_eq,
  retain, contains, or_else, Result, ok, err,
}
use tuyau.Prelude.Texts.{Text, to_ascii_lowercase}
use tuyau.Prelude.Dict.{Dict, get, insert}

abbrev pub Resolver : Type 0 → Type 0
Resolver K = Option Text → Option K

pub record MultiResolver (K : Type 0) : Type 0 where
  pub static_resolver : Resolver K
  pub dynamic : Dict Text (Resolver K)

-- The controller, with the resolver that it shares with the listener.
pub record AcmeController (K : Type 0) : Type 0 where
  pub multi : MultiResolver K
  pub static_domains : List Text
  pub added : List Text

module _ {K : Type 0} where
  -- The resolver of the SNI's own cert, else the static one.
  abbrev pub chosen : MultiResolver K → Option (Resolver K) → Resolver K
  chosen m none = m.static_resolver
  chosen m (some r) = r

  -- `MultiResolver::resolve`
  unfoldable pub resolve : MultiResolver K → Resolver K
  resolve m none = m.static_resolver none
  resolve m (some sni) = chosen m (get (to_ascii_lowercase sni) m.dynamic) (some sni)

  -- What is left of the two sets once the order for `d` was started, or failed to start.
  unfoldable pub start_order :
      {E : Type 0} → Result E (Resolver K) → Text → AcmeController K → AcmeController K
  start_order (ok r) d c = record c {
    multi = record c.multi { dynamic = insert d r c.multi.dynamic };
    added = d ∷ c.added;
  }
  start_order (err e) d c = record c { added = retain (λ x. not (x == d)) (d ∷ c.added) }

  module _ {E : Type 0} (build_acme_state : Text → Result E (Resolver K)) where
    -- One round of `ensure`, at a lowercase domain.
    unfoldable pub ensure_one : Text → AcmeController K → AcmeController K
    unfolding start_order
    ensure_one d c =
        if contains c.static_domains d || contains c.added d
        then c
        else start_order (build_acme_state d) d c

    unfoldable pub ensure : List Text → AcmeController K → AcmeController K
    unfolding ensure_one
    ensure [] c = c
    ensure (raw ∷ domains) c = ensure domains (ensure_one (to_ascii_lowercase raw) c)
