-- ===== src/Routes.antt =====
-- crates/tuyau-server/src/routes.rs: the routing table. A QUIC connection is its `stable_id`,
-- which its clones share. Whether it is still open (`close_reason().is_none()`) is QUIC's to say,
-- so it is an argument of `lookup`. The locks make each operation one step; the operations that
-- change the table return the new table.

pub mod Install
pub mod Grants
pub mod Rotation
pub mod Fairness
pub mod Removal
pub mod History
pub mod Precedence
pub mod Modes
pub mod Sources
pub mod Hostnames
pub mod Ownership
use tuyau.Prelude.{
  ℕ, zero, suc, ◌+◌, ◌%◌, ◌^◌, ◌≡◌, Bool, true, false, not, ◌||◌, List, [], ◌∷◌, ◌++◌, map, Option,
  none, some, if◌then◌else◌, ◌==◌, text_eq, nat_eq, is_some, or_else, contains, length, get_elem?,
  retain, any,
}
use tuyau.Prelude.Texts.{Text, bytes, to_ascii_lowercase, split_once}
use tuyau.Prelude.Dict.{Dict, get, insert, retain_values, collect, contains_key, keys}
use tuyau.Net.{SocketAddr}
use tuyau.Protocol.Frame.{TlsMode, terminates, is_tls_offload}
use tuyau.Config.{Balance, last_write_wins, round_robin, HostnameEntry, UpstreamEntry}

pub record RouteEntry : Type 0 where
  pub client_name : Text
  pub tls_mode : TlsMode
  pub conn : ℕ

pub data UpstreamTarget : Type 0 where
  tcp : SocketAddr → UpstreamTarget
  unix : Text → UpstreamTarget

pub data Route : Type 0 where
  tunnel : RouteEntry → Route
  local_route : UpstreamTarget → Route

pub record LocalUpstream : Type 0 where
  pub target : UpstreamTarget
  pub tls_mode : TlsMode

-- The entry keys that a lowercase host matches, most specific first.
unfoldable pub host_patterns : Text → List Text
host_patterns host =
    (host ∷ elim (split_once b'.' host) [
      | none ↦ []
      | some (label, parent) ↦ (bytes "*." ++ parent) ∷ []
    ])
    ++ (bytes "*" ∷ [])

pub record HostRoutes : Type 0 where
  pub client_name : Text
  pub tls_mode : TlsMode
  pub conns : List ℕ
  pub cursor : ℕ

pub record RoutingTable : Type 0 where
  pub inner : Dict Text HostRoutes
  pub upstreams : Dict Text LocalUpstream
  pub tunnel_hosts : List Text
  pub terminated : List Text
  pub offload : List Text

-- The target of an upstream entry; the socket wins, and an entry without one is skipped.
abbrev pub entry_target : UpstreamEntry → Option UpstreamTarget
entry_target u = elim u.local_socket [
  | some path ↦ some (unix path)
  | none ↦ elim u.local_addr [ some addr ↦ some (tcp addr) | none ↦ none ]
]

pub local_upstreams : List UpstreamEntry → List (Text × LocalUpstream)
local_upstreams [] = []
local_upstreams (u ∷ us) =
    let rest = local_upstreams us in
    elim (entry_target u) [
      | none ↦ rest
      | some t ↦ (to_ascii_lowercase u.host, record { target = t; tls_mode = u.tls_mode }) ∷ rest
    ]

-- The lowercase hosts of the entries whose mode passes the test.
pub hosts_in_mode : (TlsMode → Bool) → List HostnameEntry → List UpstreamEntry → List Text
hosts_in_mode p hostnames upstreams =
    map (λ h. to_ascii_lowercase h.host) (retain (λ h. p h.tls_mode) hostnames)
    ++ map (λ u. to_ascii_lowercase u.host) (retain (λ u. p u.tls_mode) upstreams)

unfoldable pub from_config : List HostnameEntry → List UpstreamEntry → RoutingTable
unfolding local_upstreams hosts_in_mode
from_config hostnames upstreams = record {
  inner = [];
  upstreams = collect (local_upstreams upstreams) [];
  tunnel_hosts = map (λ h. to_ascii_lowercase h.host) hostnames;
  terminated = hosts_in_mode terminates hostnames upstreams;
  offload = hosts_in_mode is_tls_offload hostnames upstreams;
}

-- The first of some keys that a map has.
unfoldable pub find_map {ℓ} : {V : Type ℓ} → List Text → Dict Text V → Option V
find_map [] m = none
find_map (k ∷ ks) m = or_else (get k m) (find_map ks m)

abbrev pub tail {ℓ} : {A : Type ℓ} → List A → List A
tail [] = []
tail (x ∷ xs) = xs

-- Whether an exact entry names a lowercase host.
abbrev pub is_exact : RoutingTable → Text → Bool
is_exact t host =
    contains_key host t.upstreams
    || contains t.tunnel_hosts host
    || contains t.terminated host
    || contains_key host t.inner

unfoldable pub wildcard_upstream : RoutingTable → Text → Option LocalUpstream
unfolding find_map
wildcard_upstream t host =
    if is_exact t host then none else find_map (tail (host_patterns host)) t.upstreams

abbrev pub mode_is {ℓ} : {A : Type ℓ} → (A → Bool) → Option A → Bool
mode_is p none = false
mode_is p (some a) = p a

unfoldable pub is_terminated : RoutingTable → Text → Bool
is_terminated t host =
    let name = to_ascii_lowercase host in
    contains t.terminated name || mode_is (λ up. terminates up.tls_mode) (wildcard_upstream t name)

unfoldable pub is_offload : RoutingTable → Text → Bool
is_offload t host =
    let name = to_ascii_lowercase host in
    contains t.offload name || mode_is (λ up. is_tls_offload up.tls_mode) (wildcard_upstream t name)

unfoldable pub routes_to_upstream : RoutingTable → Text → Bool
routes_to_upstream t host =
    let name = to_ascii_lowercase host in
    contains_key name t.upstreams || is_some (wildcard_upstream t name)

unfoldable pub set_terminated : List Text → RoutingTable → RoutingTable
set_terminated full t = record t { terminated = map to_ascii_lowercase full }

-- The entry of a host, or a new one without connections (`or_insert_with`).
abbrev pub entry_of : Text → TlsMode → Option HostRoutes → HostRoutes
entry_of client mode none = record { client_name = client; tls_mode = mode; conns = []; cursor = 0 }
entry_of client mode (some entry) = entry

-- A grant from another client evicts the connections of the owner.
pub take_over : Text → HostRoutes → HostRoutes × List ℕ
take_over client entry =
    if entry.client_name == client
    then (entry, [])
    else (record entry { client_name = client; conns = [] }, entry.conns)

-- The `match balance` of `install`.
pub add_conn : Balance → ℕ → HostRoutes → HostRoutes × List ℕ
add_conn last_write_wins conn entry =
    (record entry { conns = conn ∷ [] }, retain (λ c. not (c == conn)) entry.conns)
add_conn round_robin conn entry = (
  if any (λ c. c == conn) entry.conns
      then entry
      else record entry { conns = entry.conns ++ conn ∷ [] },
  [],
)

-- One round of `install`: the new entry of a host, and the connections that it displaces.
unfoldable pub install_entry :
    Text → Balance → ℕ → TlsMode → Option HostRoutes → HostRoutes × List ℕ
unfolding take_over add_conn
install_entry client balance conn mode old =
    let (owned, evicted) = take_over client (entry_of client mode old) in
    let (entry, replaced) = add_conn balance conn (record owned { tls_mode = mode }) in
    (entry, evicted ++ replaced)

pub install_all :
    Text
    → Balance
    → ℕ
    → List (Text × TlsMode)
    → Dict Text HostRoutes
    → List ℕ
    → Dict Text HostRoutes × List ℕ
install_all client balance conn [] inner displaced = (inner, displaced)
install_all client balance conn ((host, mode) ∷ hosts) inner displaced =
    let (entry, more) = install_entry client balance conn mode (get host inner) in
    install_all client balance conn hosts (insert host entry inner) (displaced ++ more)

unfoldable pub install :
    List (Text × TlsMode) → Text → Balance → ℕ → RoutingTable → RoutingTable × List ℕ
unfolding install_all
install hosts client balance conn t =
    let (inner, displaced) = install_all client balance conn hosts t.inner [] in
    (record t { inner = inner }, displaced)

-- What `remove_conn` leaves of an entry: nothing if no connection is left.
pub drop_conn : ℕ → HostRoutes → Option HostRoutes
drop_conn id entry = elim (retain (λ c. not (c == id)) entry.conns) [
  | [] ↦ none
  | c ∷ cs ↦ some (record entry { conns = c ∷ cs })
]

unfoldable pub remove_conn : ℕ → RoutingTable → RoutingTable
unfolding drop_conn
remove_conn id t = record t { inner = retain_values (drop_conn id) t.inner }

pub drop_client : Text → HostRoutes → Option HostRoutes
drop_client client entry = if entry.client_name == client then none else some entry

-- The connections that `kick` collects, each once.
pub add_unseen : List ℕ → List ℕ → List ℕ
add_unseen seen [] = seen
add_unseen seen (c ∷ cs) = add_unseen (if contains seen c then seen else seen ++ c ∷ []) cs

pub kicked : Text → List ℕ → Dict Text HostRoutes → List ℕ
kicked client seen [] = seen
kicked client seen ((host, entry) ∷ m) =
    kicked client (if entry.client_name == client then add_unseen seen entry.conns else seen) m

unfoldable pub kick : Text → RoutingTable → RoutingTable × List ℕ
unfolding drop_client kicked add_unseen
kick client t =
    (record t { inner = retain_values (drop_client client) t.inner }, kicked client [] t.inner)

abbrev pub usize_mod : ℕ
usize_mod = 2 ^ 64

-- The loop of `lookup` over `n` connections: the cursor that it leaves, and the first connection
-- that is open. `cursor % n` is an index of the list, since the loop has a round only if `0 < n`.
pub pick : (ℕ → Bool) → List ℕ → ℕ → ℕ → ℕ → ℕ × Option ℕ
pick is_open conns n zero cursor = (cursor, none)
pick is_open conns n (suc rounds) cursor =
    let next = (cursor + 1) % usize_mod in
    let rest = pick is_open conns n rounds next in
    elim (get_elem? conns (cursor % n)) [
      | none ↦ rest
      | some conn ↦ if is_open conn then (next, some conn) else rest
    ]

-- The route that the loop found.
unfoldable pub route_of : HostRoutes → Option ℕ → Option Route
route_of entry none = none
route_of entry (some conn) =
    some
      (tunnel (record { client_name = entry.client_name; tls_mode = entry.tls_mode; conn = conn }))

pub lookup_entry :
    Option HostRoutes → (ℕ → Bool) → Text → RoutingTable → RoutingTable × Option Route
unfolding route_of
lookup_entry none is_open host t = (t, none)
lookup_entry (some entry) is_open host t =
    let (cursor, found) =
      pick is_open entry.conns (length entry.conns) (length entry.conns) entry.cursor in
    (
      record t { inner = insert host (record entry { cursor = cursor }) t.inner },
      route_of entry found,
    )

pub lookup_tunnel : (ℕ → Bool) → Text → RoutingTable → RoutingTable × Option Route
unfolding lookup_entry
lookup_tunnel is_open host t = lookup_entry (get host t.inner) is_open host t

-- The upstream of a lowercase host: the exact one, else the wildcard.
unfoldable pub upstream_of : RoutingTable → Text → Option LocalUpstream
upstream_of t name = or_else (get name t.upstreams) (wildcard_upstream t name)

-- `lookup` once the upstream is known.
unfoldable pub route_from :
    Option LocalUpstream → (ℕ → Bool) → Text → RoutingTable → RoutingTable × Option Route
unfolding lookup_tunnel pick
route_from (some up) is_open host t = (t, some (local_route up.target))
route_from none is_open host t = lookup_tunnel is_open host t

unfoldable pub lookup : (ℕ → Bool) → Text → RoutingTable → RoutingTable × Option Route
unfolding route_from
lookup is_open host t = route_from (upstream_of t (to_ascii_lowercase host)) is_open host t
