-- ===== src/Tests/Http.antt =====
-- The theorems on the HTTP proxy at concrete requests.
use tuyau.Prelude.{
  ◌≡◌, refl, true, List, [], ◌∷◌, ◌++◌, Option, none, some, arith, if◌then◌else◌, ◌==◌, text_eq,
  nat_eq, text_beq_iff, or_else, All,
}
use tuyau.Prelude.Texts.{Text, bytes}
use tuyau.Prelude.Dict.{Dict, get, insert, remove, get-insert, get-remove}
use tuyau.Net.{IpAddr, v4, v6}
use tuyau.Routes.{lookup, remove_conn}
use tuyau.HttpProxy.{Http, Request, Response, http_2, direct_client, proxy_client}
use tuyau.HttpProxy.Serve.{Backend, ready, Network, proxy}
use tuyau.HttpProxy.Address.{CarriesAddress, proxy-Carries}
use tuyau.HttpProxy.Headers.{IsClientAddress}
use tuyau.HttpProxy.Proxied.{Proxied}
use tuyau.HttpProxy.Paths.{IsUnnamed}
use tuyau.HttpProxy.Relay.{IsAllowed, IsRelayed, proxy-IsAllowed, proxy-IsRelayed}
use tuyau.HttpProxy.Connection.{Arrival}
use tuyau.HttpProxy.Connection.Replies.{Replies}
use tuyau.Tests.Tables.{two_conns, web, local_port}

-- A header map as the list of its headers, a URI as its authority and path.
append_header : Text → Text → Dict Text Text → Dict Text Text
append_header k v h = h ++ (k, v) ∷ []

get-append_header :
    (k j v : Text) (h : Dict Text Text)
    → get j (append_header k v h) ≡ (if k == j then or_else (get j h) (some v) else get j h)
unfolding append_header get
get-append_header k j v [] = ground arith
get-append_header k j v ((i, w) ∷ h) =
    ground (arith, text_beq_iff k j, text_beq_iff i j, text_beq_iff i k, get-append_header k j v h)

display_ip : IpAddr → Text
display_ip (v4 n) = 52 ∷ n ∷ []
display_ip (v6 n) = 54 ∷ n ∷ []

parse_ip : Text → Option IpAddr
parse_ip (k ∷ n ∷ []) = if k == 52 then some (v4 n) else none
parse_ip _ = none

get_nothing : (k : Text) → get {V = Text} k [] ≡ none
unfolding get
get_nothing k = refl

abbrev small_http : Http (Dict Text Text) (Text × Text)
small_http = record {
  new = [];
  get = get;
  insert = insert;
  append = append_header;
  remove = remove;
  from_str = some;
  to_str = some;
  authority = λ u. some u.0;
  path_and_query = λ u. some u.1;
  parse_uri = λ path. some ([], path);
  host = λ u. some u.0;
  parse_ip = parse_ip;
  display = display_ip;
  display_addr = λ addr. display_ip addr.ip;
  get_insert = get-insert;
  get_append = get-append_header;
  get_remove = get-remove;
  get_new = get_nothing;
  from_str_display = λ ip. refl;
}

-- A WebSocket of a client that forges its address.
abbrev ws_connect : Request (Dict Text Text) (Text × Text)
ws_connect = record {
  method = bytes "CONNECT";
  uri = (web, bytes "/chat");
  version = http_2;
  headers = (bytes "cf-connecting-ip", bytes "1.2.3.4") ∷ (bytes "x-real-ip", bytes "1.2.3.4") ∷ [];
  protocol = some (bytes "WebSocket");
  body = [];
}

abbrev switching : Response (Dict Text Text)
switching = record { status = 101; headers = []; body = [] }

abbrev chat : Backend (Dict Text Text) (Text × Text)
chat = record { handshake = ready; send_request = λ req. some switching; upgrades = λ resp. true }

abbrev chat_network : Network (Dict Text Text) (Text × Text)
chat_network = record {
  is_open = λ c. true;
  open_tunnel_stream = λ entry. some chat;
  connect_tcp = λ addr. none;
  connect_unix = λ path. none;
  pool_send = λ target req. none;
}

abbrev page : Text
page = bytes "<h1>502</h1>"

proxy-Carries_example :
    (a : Text) × IsClientAddress small_http ws_connect.headers local_port direct_client a
    × Proxied small_http
        (lookup chat_network.is_open web two_conns).0
        (IsUnnamed small_http (lookup chat_network.is_open web two_conns).1 ws_connect web)
        (λ reply. All (CarriesAddress small_http a) reply.sent)
        (proxy small_http chat_network two_conns ws_connect web local_port direct_client page)
proxy-Carries_example =
    proxy-Carries small_http chat_network two_conns ws_connect web local_port direct_client page

proxy-IsAllowed_example :
    Proxied small_http
      (lookup chat_network.is_open web two_conns).0
      (IsUnnamed small_http (lookup chat_network.is_open web two_conns).1 ws_connect web)
      (λ reply. All (IsAllowed small_http) reply.sent)
      (proxy small_http chat_network two_conns ws_connect web local_port proxy_client page)
proxy-IsAllowed_example =
    proxy-IsAllowed small_http chat_network two_conns ws_connect web local_port proxy_client page

proxy-IsRelayed_example :
    Proxied small_http
      (lookup chat_network.is_open web two_conns).0
      (IsUnnamed small_http (lookup chat_network.is_open web two_conns).1 ws_connect web)
      (IsRelayed small_http chat_network (lookup chat_network.is_open web two_conns).1 page)
      (proxy small_http chat_network two_conns ws_connect web local_port direct_client page)
proxy-IsRelayed_example =
    proxy-IsRelayed small_http chat_network two_conns ws_connect web local_port direct_client page

-- Two WebSockets of one client; the connection of the second tunnel ends between them.
abbrev two_websockets : List (Arrival (Dict Text Text) (Text × Text))
two_websockets =
    record { others = λ t. t; net = chat_network; req = ws_connect }
    ∷ record { others = remove_conn 8; net = chat_network; req = ws_connect }
    ∷ []
