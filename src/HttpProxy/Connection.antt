-- ===== src/HttpProxy/Connection.antt =====
-- crates/tuyau-server/src/h2proxy.rs: `serve_h1` and `serve_h2`, the requests of one connection. What
-- `hyper` reads from it is a list of requests, for each of which it calls the service.
pub mod Replies
use tuyau.Prelude.{List, [], ◌∷◌, Option, none, some, and_then}
use tuyau.Prelude.Texts.{Text}
use tuyau.Net.{SocketAddr}
use tuyau.Routes.{RoutingTable}
use tuyau.HttpProxy.{Http, Request, Client}
use tuyau.HttpProxy.Serve.{Network, Reply, proxy}

-- A request, what the backends do when it is served, and what others did to the shared table since
-- the request before it was routed.
pub record Arrival (H U : Type 0) : Type 0 where
  pub others : RoutingTable → RoutingTable
  pub net : Network H U
  pub req : Request H U

module _ {H U : Type 0} (http : Http H U) (sni : Text) (peer : SocketAddr) (client : Client)
    (error_502 : Text) where
  -- The closure of `service_fn`.
  abbrev pub service : RoutingTable → Arrival H U → Option (RoutingTable × Reply H U)
  service t a = proxy http a.net (a.others t) a.req sni peer client error_502

  -- `builder.serve_connection`: the replies that the client gets, and the table, or `none` if the
  -- service has panicked, which ends the connection.
  unfoldable pub serve_connection :
      RoutingTable → List (Arrival H U) → List (Reply H U) × Option RoutingTable
  serve_connection t [] = ([], some t)
  serve_connection t (a ∷ rest) = elim (service t a) [
    | none ↦ ([], none)
    | some p ↦ let later = serve_connection p.0 rest in (p.1 ∷ later.0, later.1)
  ]
