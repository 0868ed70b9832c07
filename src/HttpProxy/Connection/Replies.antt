-- ===== src/HttpProxy/Connection/Replies.antt =====
-- The replies that a connection of `serve_h1` or `serve_h2` of crates/tuyau-server/src/h2proxy.rs gets,
-- one for each request, by the routing table as it is when the request comes.
use tuyau.Prelude.{List, [], ◌∷◌, Option, none, some, All}
use tuyau.Prelude.Texts.{Text}
use tuyau.Net.{SocketAddr}
use tuyau.Routes.{RoutingTable, lookup}
use tuyau.HttpProxy.{Http, Client}
use tuyau.HttpProxy.Serve.{Reply}
use tuyau.HttpProxy.Address.{CarriesAddress}
use tuyau.HttpProxy.Headers.{IsClientAddress}
use tuyau.HttpProxy.Proxied.{Proxied}
use tuyau.HttpProxy.Paths.{IsUnnamed}
use tuyau.HttpProxy.Relay.{IsRelayed, IsAllowed}
use tuyau.HttpProxy.Connection.{Arrival}

module _ {H U : Type 0} (http : Http H U) (sni : Text) (peer : SocketAddr) (client : Client)
    (error_502 : Text) where
  -- The reply to an arrival: what it relays, what it carries, and what may be sent.
  pub record IsReply (now : RoutingTable) (a : Arrival H U) (reply : Reply H U) : Type 0 where
    pub relayed : IsRelayed http a.net (lookup a.net.is_open sni now).1 error_502 reply
    pub address : Text
    pub is_address : IsClientAddress http a.req.headers peer client address
    pub carried : All (CarriesAddress http address) reply.sent
    pub allowed : All (IsAllowed http) reply.sent

  -- One reply for each arrival, in their order, from the table that the arrival finds, until one
  -- panics.
  pub data Replies
      : RoutingTable → List (Arrival H U) → List (Reply H U) → Option RoutingTable → Type 0 where
    done : {t : RoutingTable} → Replies t [] [] (some t)
    answered :
        {t : RoutingTable} {last : Option RoutingTable} {a : Arrival H U}
        {rest : List (Arrival H U)} {reply : Reply H U} {replies : List (Reply H U)}
        → IsReply (a.others t) a reply
        → Replies (lookup a.net.is_open sni (a.others t)).0 rest replies last
        → Replies t (a ∷ rest) (reply ∷ replies) last
    panicked :
        {t : RoutingTable} {a : Arrival H U} {rest : List (Arrival H U)}
        → IsUnnamed http (lookup a.net.is_open sni (a.others t)).1 a.req sni
        → Replies t (a ∷ rest) [] none

  -- What the service gives for an arrival.
  abbrev Given :
      RoutingTable → Arrival H U → (Reply H U → Type 0) → Option (RoutingTable × Reply H U) → Type 0
  Given t a =
      Proxied http (lookup a.net.is_open sni (a.others t)).0
        (IsUnnamed http (lookup a.net.is_open sni (a.others t)).1 a.req sni)
