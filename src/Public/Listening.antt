-- ===== src/Public/Listening.antt =====
-- crates/tuyau-server/src/public.rs: `accept_loop`, which takes connections, sheds those above the
-- caps and waits after an error, with the handlers that it spawns. What the branches of its
-- `select!` bring, and the ends of the handlers, are events in any order.
pub mod Served
use tuyau.Prelude.{
  ℕ, ◌+◌, ◌≡◌, Bool, true, false, List, [], ◌∷◌, ◌++◌, Option, none, some, if◌then◌else◌, unwrap_or,
}
use tuyau.Prelude.Texts.{Text}
use tuyau.Net.{IpAddr, SocketAddr}
use tuyau.Routes.{RoutingTable}
use tuyau.Public.{Handshake}
use tuyau.Public.Limits.{Listener, start, accept, close, is_live}
use tuyau.Public.Dispatch.{Io, Ending, serve_public}

-- `ACCEPT_ERROR_BACKOFF`, in milliseconds.
abbrev pub accept_error_backoff : ℕ
accept_error_backoff = 50

-- What a handler meets: the bytes of its connection, the open tunnels, the TLS handshake, and the
-- streams to the backends.
pub record Visit : Type 0 where
  pub arrived : List ℕ
  pub is_open : ℕ → Bool
  pub handshake : Text → Handshake
  pub io : Io

pub data Event : Type 0 where
  cancels accept_fails : Event
  arrives : SocketAddr → Event
  ends : SocketAddr → Visit → Event

-- The caps, the table that is shared with the tunnels, whether the loop runs and how long it has
-- waited after errors, and how connections ended.
pub record Listening : Type 0 where
  pub counted : Listener
  pub routes : RoutingTable
  pub is_running : Bool
  pub waited : ℕ
  pub endings : List (SocketAddr × Ending)

abbrev pub start_listening : ℕ → RoutingTable → Listening
start_listening max_conns routes = record {
  counted = start max_conns;
  routes = routes;
  is_running = true;
  waited = 0;
  endings = [];
}

abbrev pub back_off : Bool → Listening → Listening
back_off true s = record s { waited = s.waited + accept_error_backoff }
back_off false s = s

abbrev pub take_connection : Bool → IpAddr → Listening → Listening
take_connection true ip s = record s { counted = accept ip s.counted }
take_connection false ip s = s

module _ (needs_client_cert : Bool) (error_502 : Text) where
  -- The task of a connection, at its end; both permits are dropped.
  abbrev pub end_connection : SocketAddr → Option RoutingTable × Ending → Listening → Listening
  end_connection peer (after, ending) s = record s {
    counted = close peer.ip s.counted;
    routes = unwrap_or after s.routes;
    endings = s.endings ++ (peer, ending) ∷ [];
  }

  unfoldable pub step : Event → Listening → Listening
  step cancels s = record s { is_running = false }
  step accept_fails s = back_off s.is_running s
  step (arrives peer) s = take_connection s.is_running peer.ip s
  step (ends peer visit) s =
      if is_live peer.ip s.counted.live
      then end_connection peer
          (serve_public visit.io visit.is_open needs_client_cert s.routes visit.handshake error_502
            peer visit.arrived)
          s
      else s

  unfoldable pub run : List Event → Listening → Listening
  unfolding step
  run [] s = s
  run (e ∷ es) s = run es (step e s)
