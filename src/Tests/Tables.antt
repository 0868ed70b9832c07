-- ===== src/Tests/Tables.antt =====
-- Routing tables and configurations for the tests.
use tuyau.Prelude.{List, [], ◌∷◌, none, some}
use tuyau.Prelude.Texts.{Text, bytes}
use tuyau.Net.{SocketAddr, v4}
use tuyau.Protocol.Frame.{TlsMode, terminated, tls_offload, passthrough}
use tuyau.Config.{
  round_robin, last_write_wins, ClientEntry, HostnameEntry, UpstreamEntry, ServerConfig,
}
use tuyau.Routes.{HostRoutes, RoutingTable, LocalUpstream, tcp}

abbrev pub ann : Text
ann = bytes "ann"

abbrev pub bob : Text
bob = bytes "bob"

abbrev pub web : Text
web = bytes "web.x"

abbrev pub local_port : SocketAddr
local_port = record { ip = v4 2130706433; port = 8080 }

-- The host of ann's tunnels, with two connections of which the second is next.
abbrev pub web_entry : HostRoutes
web_entry = record { client_name = ann; tls_mode = terminated; conns = 7 ∷ 8 ∷ []; cursor = 1 }

abbrev pub api_upstream : LocalUpstream
api_upstream = record { target = tcp local_port; tls_mode = terminated }

abbrev pub two_conns : RoutingTable
two_conns = record {
  inner = (web, web_entry) ∷ [];
  upstreams = (bytes "api.x", api_upstream) ∷ [];
  tunnel_hosts = web ∷ [];
  terminated = web ∷ bytes "api.x" ∷ [];
  offload = [];
}

abbrev pub catch_all : RoutingTable
catch_all = record {
  inner = [];
  upstreams = (bytes "*", api_upstream) ∷ [];
  tunnel_hosts = web ∷ [];
  terminated = [];
  offload = [];
}

abbrev pub empty_table : RoutingTable
empty_table = record {
  inner = [];
  upstreams = [];
  tunnel_hosts = [];
  terminated = [];
  offload = [];
}

abbrev pub grant_web : List (Text × TlsMode)
grant_web = (web, passthrough) ∷ []

abbrev pub ann_entry : ClientEntry
ann_entry = record { name = ann; token = 1 ∷ 2 ∷ []; balance = round_robin }

abbrev pub bob_entry : ClientEntry
bob_entry = record { name = bob; token = 3 ∷ []; balance = last_write_wins }

abbrev pub web_hostname : HostnameEntry
web_hostname = record {
  host = web;
  client = ann;
  tls_mode = tls_offload;
  tls_cert_file = none;
  tls_key_file = none;
}

abbrev pub api_entry : UpstreamEntry
api_entry = record {
  host = bytes "api.x";
  local_addr = some local_port;
  local_socket = none;
  tls_mode = terminated;
  tls_cert_file = none;
  tls_key_file = none;
}

abbrev pub config : ServerConfig
config = record {
  listen_addr = local_port;
  public_listen_addr = none;
  tunnel_cert_dir = none;
  clients = ann_entry ∷ bob_entry ∷ [];
  hostnames = web_hostname ∷ [];
  acme = none;
  tls_cert_file = none;
  tls_key_file = none;
  upstreams = api_entry ∷ [];
  max_public_connections = none;
  error_502_file = none;
  client_ca_file = none;
}
