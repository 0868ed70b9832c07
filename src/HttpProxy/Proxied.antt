-- ===== src/HttpProxy/Proxied.antt =====
-- What `proxy` of crates/tuyau-server/src/h2proxy.rs gives, from what holds of a request's ways.
use tuyau.Prelude.{◌≡◌, refl, sym, ◌∙◌, and_then, Option, none, some, text_eq, text_beq}
use tuyau.Prelude.Texts.{Text}
use tuyau.Net.{SocketAddr}
use tuyau.Routes.{RoutingTable, Route, lookup}
use tuyau.HttpProxy.{Http, Request, Client, upgrade_name, client_ip}
use tuyau.HttpProxy.Serve.{Network, Reply, downgrade_to_h1, proxy, answer}
use tuyau.HttpProxy.Paths.{HasAddress, Covers, IsUnnamed, Outcome, answer_reply}
use tuyau.HttpProxy.Headers.{IsAddressed, set_client_address-IsAddressed}

module _ {H U : Type 0} (http : Http H U) where
  open http use {
    get, insert, append, remove, new, display, from_str, get_insert, get_append, get_remove,
    get_new, from_str_display, parse_uri, path_and_query, to_str, parse_ip,
  }

  -- What `proxy` gives: the table that `lookup` leaves and a reply with a property, or the panic.
  abbrev pub Proxied :
      RoutingTable → Type 0 → (Reply H U → Type 0) → Option (RoutingTable × Reply H U) → Type 0
  Proxied moved panic Q none = panic
  Proxied moved panic Q (some (after, reply)) = (after ≡ moved) × Q reply

  addressed-IsUnnamed :
      (route : Option Route) (req : Request H U) (sni : Text) (peer : SocketAddr) (client : Client)
      (headers : H)
      → IsAddressed http peer client req.headers headers
      → IsUnnamed http route (record req { headers = headers }) sni
      → IsUnnamed http route req sni
  unfolding downgrade_to_h1 text_beq
  addressed-IsUnnamed route req sni peer client headers addressed (target, e, method, up, unnamed) =
      (
        target,
        e,
        method,
        sym (addressed.others upgrade_name (λ h. cc) (λ h. cc) (λ h. cc)) ∙ up,
        unnamed,
      )

  -- A property of the replies on all ways of a request holds of what `proxy` replies.
  pub proxy_reply :
      (net : Network H U) (t : RoutingTable) (req : Request H U) (sni : Text) (peer : SocketAddr)
      (client : Client) (page : Text) (Q : Reply H U → Type 0)
      → ((headers : H)
          → HasAddress http (display (client_ip http req.headers peer client)) headers
          → Covers http net
              (lookup net.is_open sni t).1
              (record req { headers = headers })
              sni
              page
              (display (client_ip http req.headers peer client))
              Q)
      → Proxied
          (lookup net.is_open sni t).0
          (IsUnnamed http (lookup net.is_open sni t).1 req sni)
          Q
          (proxy http net t req sni peer client page)
  unfolding proxy
  proxy_reply net t req sni peer client page Q covers =
      let (headers, e, addressed) = set_client_address-IsAddressed http req.headers peer client in
      let (after, route) = lookup net.is_open sni t in
      let request : Request H U = record req { headers = headers } in
      rw e (
        go headers addressed (answer http net route request sni page) (
          answer_reply http net route request sni page
            (display (client_ip http req.headers peer client)) Q (covers headers addressed.address)
            addressed.address))
    where
      go :
          (headers : H)
          → IsAddressed http peer client req.headers headers
          → (made : Option (Reply H U))
          → Outcome http Q
              (IsUnnamed http (lookup net.is_open sni t).1 (record req { headers = headers }) sni)
              made
          → Proxied
              (lookup net.is_open sni t).0
              (IsUnnamed http (lookup net.is_open sni t).1 req sni)
              Q
              (and_then made λ reply. some ((lookup net.is_open sni t).0, reply))
      go headers addressed none panic =
          addressed-IsUnnamed (lookup net.is_open sni t).1 req sni peer client headers addressed
            panic
      go headers addressed (some reply) q = (refl, q)
