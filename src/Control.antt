-- ===== src/Control.antt =====
-- crates/tuyau-server/src/control.rs: the registry of live tunnels and its events. The broadcast
-- channel, which drops events for a slow subscriber, is tokio's; here stand the events as sent.
use tuyau.Prelude.{ℕ, List, [], ◌∷◌, ◌++◌, map, Option, none, some, nat_eq}
use tuyau.Prelude.Texts.{Text}
use tuyau.Prelude.Dict.{Dict, get, insert, remove}
use tuyau.Net.{SocketAddr}

pub record TunnelInfo : Type 0 where
  pub client_name : Text
  pub peer : SocketAddr
  pub hostnames : List Text

pub data ControlEvent : Type 0 where
  tunnel_up : Text → SocketAddr → List Text → ControlEvent
  tunnel_down : Text → SocketAddr → ControlEvent

pub record Control : Type 0 where
  pub tunnels : Dict ℕ TunnelInfo
  pub events : List ControlEvent

unfoldable pub register : ℕ → TunnelInfo → Control → Control
register stable_id info c = record {
  tunnels = insert stable_id info c.tunnels;
  events = c.events ++ tunnel_up info.client_name info.peer info.hostnames ∷ [];
}

-- The events that a removal sends.
abbrev pub down_event : Option TunnelInfo → List ControlEvent
down_event none = []
down_event (some info) = tunnel_down info.client_name info.peer ∷ []

unfoldable pub unregister : ℕ → Control → Control
unregister stable_id c = record {
  tunnels = remove stable_id c.tunnels;
  events = c.events ++ down_event (get stable_id c.tunnels);
}

abbrev pub live_tunnels : Control → List TunnelInfo
live_tunnels c = map (λ e. e.1) c.tunnels
