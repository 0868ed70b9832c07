-- ===== src/Public.antt =====
-- crates/tuyau-server/src/public.rs: the public listener. The TLS handshake, the sockets and the
-- clock answer through arguments.
pub mod Limits
pub mod Decision
pub mod Wire
pub mod Tunnel
pub mod Page
pub mod Tls
pub mod Dispatch
pub mod Listening
pub mod Entry
pub mod Handled
use tuyau.Prelude.{
  ℕ, ◌+◌, ◌≡◌, Bool, true, false, not, ◌&&◌, ◌||◌, List, [], ◌∷◌, Option, none, some, if◌then◌else◌,
  ◌==◌, Eq, text_eq,
}
use tuyau.Prelude.Texts.{Text, bytes}
use tuyau.Net.{SocketAddr}
use tuyau.Routes.{
  RouteEntry, UpstreamTarget, Route, tunnel, local_route, RoutingTable, is_terminated, is_offload,
  routes_to_upstream, lookup,
}

-- What the TLS accept and handshake come to: they fail or time out, or there is a stream with the
-- protocol that ALPN chose, and perhaps a client cert that rustls has verified.
pub data Handshake : Type 0 where
  tls_failed : Handshake
  tls_stream : Option Text → Bool → Handshake

-- What `handle_public` does with a connection whose host is known.
pub data Action : Type 0 where
  dropped challenge_served : Action
  serve_h2 serve_h1 : Action
  pipe_plain pipe_raw : RouteEntry → Action
  splice_plain splice_raw : UpstreamTarget → Action
  page_502 : Action

abbrev pub alpn_is : Text → Option Text → Bool
alpn_is name none = false
alpn_is name (some chosen) = chosen == name

abbrev pub is_absent {ℓ} : {A : Type ℓ} → Option A → Bool
is_absent none = true
is_absent (some a) = false

-- The `match` over the route of a terminated host.
abbrev pub plain_action : Bool → Option Route → Action
plain_action offload (some (tunnel entry)) = pipe_plain entry
plain_action offload (some (local_route target)) = splice_plain target
plain_action true none = dropped
plain_action false none = page_502

abbrev pub raw_action : Option Route → Action
raw_action (some (tunnel entry)) = pipe_raw entry
raw_action (some (local_route target)) = splice_raw target
raw_action none = dropped

abbrev pub with_action :
    (Option Route → Action) → RoutingTable × Option Route → RoutingTable × Action
with_action f (t, route) = (t, f route)

module _ (is_open : ℕ → Bool) (needs_client_cert : Bool) (sni : Text) (t : RoutingTable) where
  -- From "Real request" on, and the two HTTP branches before it.
  unfoldable pub serve_plain : Option Text → RoutingTable × Action
  serve_plain alpn =
      let offload = is_offload t sni in
      let h1 = alpn_is (bytes "http/1.1") alpn || (is_absent alpn && routes_to_upstream t sni) in
      if not offload && alpn_is (bytes "h2") alpn
      then (t, serve_h2)
      else (if not offload && h1
          then (t, serve_h1)
          else with_action (plain_action offload) (lookup is_open sni t))

  -- The branch of a terminated host.
  unfoldable pub handle_terminated : Handshake → RoutingTable × Action
  unfolding serve_plain
  handle_terminated tls_failed = (t, dropped)
  handle_terminated (tls_stream alpn has_cert) =
      if alpn_is (bytes "acme-tls/1") alpn
      then (t, challenge_served)
      else (if needs_client_cert && not has_cert then (t, dropped) else serve_plain alpn)

  -- Steps 4 and 5 of `handle_public`.
  unfoldable pub handle_host : Handshake → RoutingTable × Action
  unfolding handle_terminated
  handle_host handshake =
      if is_terminated t sni
      then handle_terminated handshake
      else with_action raw_action (lookup is_open sni t)
