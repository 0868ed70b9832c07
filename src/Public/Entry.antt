-- ===== src/Public/Entry.antt =====
-- crates/tuyau-server/src/public.rs: `handle_public` from the first byte of a connection.
use tuyau.Prelude.{ℕ, Bool, true, false, List, Result, ok, err}
use tuyau.Prelude.Texts.{Text}
use tuyau.Routes.{RoutingTable}
use tuyau.Sni.{parse_sni}
use tuyau.Sni.Results.{Outcome, ret, nothing, panicked, stuck}
use tuyau.HttpProxy.{Client, proxy_client, direct_client}
use tuyau.Public.{Handshake, Action, handle_host}
use tuyau.Public.Wire.{HelloError, read_client_hello}

-- Whether the client of a terminated connection is believed when it gives an address.
abbrev pub client_of : Bool → Client
client_of true = proxy_client
client_of false = direct_client

-- What becomes of a connection: it ends before a host is known, or it is for a host, and an HTTP
-- server would take its client for this one.
pub data Handled : Type 0 where
  hello_failed : HelloError → Handled
  no_sni crashed : Handled
  decided : Text → RoutingTable → Action → Client → Handled

module _ (is_open : ℕ → Bool) (needs_client_cert : Bool) (t : RoutingTable)
    (handshake : Text → Handshake) where
  abbrev pub decide : Text → RoutingTable × Action → Handled
  decide sni (after, action) = decided sni after action (client_of needs_client_cert)

  -- The steps behind the ClientHello.
  unfoldable pub handle_sni : Outcome Text → Handled
  handle_sni (ret sni) = decide sni (handle_host is_open needs_client_cert sni t (handshake sni))
  handle_sni nothing = no_sni
  handle_sni panicked = crashed
  handle_sni stuck = crashed

  unfoldable pub handle_hello : Result HelloError (List ℕ × List ℕ) → Handled
  unfolding handle_sni
  handle_hello (err e) = hello_failed e
  handle_hello (ok (hello, rest)) = handle_sni (parse_sni hello)

  -- The handshake is that of the host that the ClientHello names.
  unfoldable pub handle_public : List ℕ → Handled
  unfolding handle_hello
  handle_public arrived = handle_hello (read_client_hello arrived)
