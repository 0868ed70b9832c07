-- ===== src/Client/Connected.antt =====
-- When `TunnelClient::connect` of crates/tuyau-client/src/client.rs succeeds.
use tuyau.Prelude.{
  ◌≡◌, ◌↔◌, refl, ap, ◌∙◌, subst, List, [], ◌∷◌, some, Result, ok, err, ok_or, >>=-eq-ok, >>-eq-ok,
  ok_inj, ok_or-ok,
}
use tuyau.Prelude.Texts.{Text, rsplit_once}
use tuyau.Prelude.Splits.{IsLastSplit, rsplit_once-some, rsplit_once_append}
use tuyau.Net.{SocketAddr}
use tuyau.Protocol.Frame.{welcome, rejected}
use tuyau.ClientConfig.{ClientConfig}
use tuyau.Client.{
  invalid_server_addr, Network, Response, answered, malformed, closed, late, TunnelClient,
  split_host_port, first_addr, ingress_map, hello_of, check_response, connect,
}

module _ (net : Network) (config : ClientConfig) where
  -- The server address has a port; the name before it is dialled at the first address that the DNS
  -- has for the whole; and the hello with the token and name is welcomed.
  pub record IsConnected (client : TunnelClient) : Type 0 where
    pub host : Text
    pub port : Text
    pub named : IsLastSplit b':' config.server_addr (host, port)
    pub others : List SocketAddr
    pub found : net.lookup_host config.server_addr ≡ ok (client.server_addr ∷ others)
    pub dialled : net.dial client.server_addr host ≡ ok tt
    pub greeted : net.send_hello (hello_of config) ≡ ok tt
    pub welcomed : net.response ≡ answered welcome
    pub ingress : client.ingress ≡ ingress_map config

first_addr-ok :
    (name : Text) (found : Result Text (List SocketAddr)) {addr : SocketAddr}
    → first_addr name found ≡ ok addr
    → (others : List SocketAddr) × (found ≡ ok (addr ∷ others))
first_addr-ok name (err e) h = cc
first_addr-ok name (ok []) h = cc
first_addr-ok name (ok (addr ∷ addrs)) h = (addrs, ap (λ a. ok (a ∷ addrs)) (ok_inj h))

check_response-ok : (r : Response) → check_response r ≡ ok tt → r ≡ answered welcome
check_response-ok (answered welcome) h = refl
check_response-ok (answered (rejected reason)) h = cc
check_response-ok (malformed e) h = cc
check_response-ok closed h = cc
check_response-ok late h = cc

connect-IsConnected :
    (net : Network) (config : ClientConfig) (client : TunnelClient)
    → connect net config ≡ ok client
    → IsConnected net config client
unfolding connect split_host_port
connect-IsConnected net config client h =
    let split =
      ok_or (rsplit_once b':' config.server_addr) (invalid_server_addr config.server_addr) in
    let looked = first_addr config.server_addr (net.lookup_host config.server_addr) in
    let (sides, parted, h1) = >>=-eq-ok split _ h in
    let (addr, resolved, h2) = >>=-eq-ok looked _ h1 in
    let (dialled, h3) = >>-eq-ok (net.dial addr sides.0) _ h2 in
    let (greeted, h4) = >>-eq-ok (net.send_hello (hello_of config)) _ h3 in
    let (welcomed, made) = >>-eq-ok (check_response net.response) _ h4 in
    let (others, found) =
      first_addr-ok config.server_addr (net.lookup_host config.server_addr) resolved in
    subst (IsConnected net config) (ok_inj made) (record {
      host = sides.0;
      port = sides.1;
      named = rsplit_once-some b':' config.server_addr (
          ok_or-ok (rsplit_once b':' config.server_addr) (invalid_server_addr config.server_addr)
            parted);
      others = others;
      found = found;
      dialled = dialled;
      greeted = greeted;
      welcomed = check_response-ok net.response welcomed;
      ingress = refl;
    })

IsConnected-connect :
    (net : Network) (config : ClientConfig) (client : TunnelClient)
    → IsConnected net config client
    → connect net config ≡ ok client
unfolding connect split_host_port
IsConnected-connect net config client c =
    let parted : rsplit_once b':' config.server_addr ≡ some (c.host, c.port) =
      ap (rsplit_once b':') c.named.0 ∙ rsplit_once_append b':' c.host c.port c.named.1 in
    rw (parted, c.found, c.dialled, c.greeted, c.welcomed, ← c.ingress) refl

-- `connect` returns a client exactly if the server's address has a port, the DNS finds it, the
-- first address found is dialled under the name before the last colon, and the hello with the
-- configured token and name is written and answered by a welcome. Any other response, and none in
-- time, is an error.
pub connect_iff :
    (net : Network) (config : ClientConfig) (client : TunnelClient)
    → (connect net config ≡ ok client) ↔ IsConnected net config client
connect_iff net config client =
    (connect-IsConnected net config client, IsConnected-connect net config client)
