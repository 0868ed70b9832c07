-- ===== src/Session.antt =====
-- crates/tuyau-server/src/server.rs: the handler of a tunnel connection (`handle_incoming`) and
-- the calls of the control plane, on the table and the registry that all handlers share. What the
-- connection and the backend answer is an argument; between two awaits a handler is one event, so
-- that the events of different connections interleave freely.
pub mod Tracked
use tuyau.Prelude.{
  ℕ, ◌≡◌, Bool, true, false, List, [], ◌∷◌, ◌++◌, map, Option, none, some, nat_eq, length,
}
use tuyau.Prelude.Texts.{Text, bytes}
use tuyau.Prelude.Dict.{Dict, get, insert, remove}
use tuyau.Net.{SocketAddr}
use tuyau.Protocol.Frame.{HelloResponse, welcome, rejected}
use tuyau.Backend.{ClientGrant}
use tuyau.Routes.{RoutingTable, install, remove_conn, kick, set_terminated}
use tuyau.Control.{TunnelInfo, Control, register, unregister}

-- What the handler learns up to the answer of the backend, one constructor for each way that
-- `handle_incoming` tells apart. `admitted` says whether the connection is closed by then.
pub data Greeting : Type 0 where
  accept_failed accept_timeout : Greeting
  stream_closed decode_failed hello_timeout : Greeting
  invalid_token admit_timeout : Greeting
  admitted : ClientGrant → Bool → Greeting

-- What goes to a connection: a close with its code and reason, a frame, or the end of the stream.
pub data Effect : Type 0 where
  closes : ℕ → ℕ → Text → Effect
  sends : ℕ → HelloResponse → Effect
  finishes : ℕ → Effect

-- Where a handler stands: its tunnel is in the table and the welcome is being sent, or it holds
-- the tunnel open. One that has ended, or not installed anything yet, has no phase.
pub data Phase : Type 0 where
  installed : ClientGrant → SocketAddr → Phase
  held : Phase

pub record Server : Type 0 where
  pub routes : RoutingTable
  pub control : Control
  pub phases : Dict ℕ Phase
  pub effects : List Effect

abbrev pub emit : List Effect → Server → Server
emit more s = record s { effects = s.effects ++ more }

-- A reject, the end of the stream, and the close after the linger.
abbrev pub reject_effects : ℕ → Text → List Effect
reject_effects id reason =
    sends id (rejected reason) ∷ finishes id ∷ closes id 1 (bytes "rejected") ∷ []

-- `routes.install`, and the close of each connection that it displaces.
unfoldable pub install_tunnel : ℕ → SocketAddr → ClientGrant → Server → Server
install_tunnel id peer grant s =
    let (routes, displaced) = install grant.hostnames grant.client_name grant.balance id s.routes in
    record {
      routes = routes;
      control = s.control;
      phases = insert id (installed grant peer) s.phases;
      effects = s.effects ++ map (λ c. closes c 0 (bytes "replaced by new connection")) displaced;
    }

-- The handler of a new connection up to the welcome.
unfoldable pub greet : ℕ → SocketAddr → Greeting → Server → Server
unfolding install_tunnel
greet id peer accept_failed s = s
greet id peer accept_timeout s = emit (closes id 1 (bytes "hello timeout") ∷ []) s
greet id peer stream_closed s = s
greet id peer decode_failed s = emit (reject_effects id (bytes "protocol error")) s
greet id peer hello_timeout s = emit (reject_effects id (bytes "protocol error")) s
greet id peer invalid_token s = emit (reject_effects id (bytes "invalid token")) s
greet id peer admit_timeout s = emit (reject_effects id (bytes "authorization timeout")) s
greet id peer (admitted grant true) s = s
greet id peer (admitted grant false) s = install_tunnel id peer grant s

abbrev pub info_of : ClientGrant → SocketAddr → TunnelInfo
info_of grant peer = record {
  client_name = grant.client_name;
  peer = peer;
  hostnames = map (λ p. p.0) grant.hostnames;
}

-- The welcome was sent, or could not be.
unfoldable pub answer : ℕ → ClientGrant → SocketAddr → Bool → Server → Server
answer id grant peer true s = record {
  routes = s.routes;
  control = register id (info_of grant peer) s.control;
  phases = insert id held s.phases;
  effects = s.effects ++ sends id welcome ∷ finishes id ∷ [];
}
answer id grant peer false s = record s {
  routes = remove_conn id s.routes;
  phases = remove id s.phases;
}

-- The end of a held tunnel: by the peer, or because the server shuts down.
unfoldable pub finish : ℕ → Bool → Server → Server
finish id shutdown s = record {
  routes = remove_conn id s.routes;
  control = unregister id s.control;
  phases = remove id s.phases;
  effects =
      s.effects
      ++ (elim shutdown [ true ↦ closes id 0 (bytes "server shutdown") ∷ [] | false ↦ [] ]);
}

-- `Server::kick`: the number of connections closed.
unfoldable pub kick_client : Text → Server → Server × ℕ
kick_client client s =
    let (routes, conns) = kick client s.routes in
    (
      record s {
        routes = routes;
        effects = s.effects ++ map (λ c. closes c 0 (bytes "revoked")) conns;
      },
      length conns,
    )

pub data Event : Type 0 where
  greets : ℕ → SocketAddr → Greeting → Event
  answers : ℕ → Bool → Event
  finishes_tunnel : ℕ → Bool → Event
  kicks : Text → Event
  sets_terminated : List Text → Event

-- The part of a handler that may run in a phase: a new connection has none (the `stable_id` of a
-- connection is not used again while its handler runs).
abbrev pub greet_in : Option Phase → ℕ → SocketAddr → Greeting → Server → Server
greet_in none id peer greeting s = greet id peer greeting s
greet_in (some phase) id peer greeting s = s

abbrev pub answer_in : Option Phase → ℕ → Bool → Server → Server
answer_in (some (installed grant peer)) id sent s = answer id grant peer sent s
answer_in _ id sent s = s

abbrev pub finish_in : Option Phase → ℕ → Bool → Server → Server
finish_in (some held) id shutdown s = finish id shutdown s
finish_in _ id shutdown s = s

unfoldable pub step : Event → Server → Server
unfolding greet answer finish kick_client
step (greets id peer greeting) s = greet_in (get id s.phases) id peer greeting s
step (answers id sent) s = answer_in (get id s.phases) id sent s
step (finishes_tunnel id shutdown) s = finish_in (get id s.phases) id shutdown s
step (kicks client) s = (kick_client client s).0
step (sets_terminated domains) s = record s { routes = set_terminated domains s.routes }

unfoldable pub run : List Event → Server → Server
unfolding step
run [] s = s
run (e ∷ es) s = run es (step e s)
