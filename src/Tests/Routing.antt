-- ===== src/Tests/Routing.antt =====
-- The theorems on routes at concrete tables.
use tuyau.Prelude.{
  text_eq, text_beq, ℕ, ◌≡◌, ◌≢◌, refl, ◌↔◌, true, List, [], ◌∷◌, some, arith, Has, Unique,
  contains,
}
use tuyau.Prelude.Texts.{Text, bytes, to_ascii_lowercase, lower_byte}
use tuyau.Prelude.Dict.{get, UniqueKeys}
use tuyau.Protocol.Frame.{passthrough}
use tuyau.Config.{round_robin, last_write_wins}
use tuyau.Routes.{
  RoutingTable, tcp, local_route, install, lookup, kick, remove_conn, upstream_of,
  wildcard_upstream,
}
use tuyau.Routes.Install.{IsGranted, conns_of}
use tuyau.Routes.Grants.{AfterGrant, install-AfterGrant}
use tuyau.Routes.Fairness.{IsServed, serve, routes_to, serve-rotate}
use tuyau.Routes.History.{
  Call, installs, removes, kicks, looks_up, run, IsWellFormed, run-IsWellFormed,
}
use tuyau.Routes.Removal.{IsOwned, WithoutClient, remove_conn_iff, kick_lem}
use tuyau.Routes.Precedence.{lookup-run_exact, lookup-run_tunnel_host}
use tuyau.Tests.Tables.{
  ann, bob, web, web_entry, api_upstream, local_port, two_conns, catch_all, empty_table, grant_web,
}

install-AfterGrant_example :
    AfterGrant
      (IsGranted bob 9)
      (some web_entry)
      (get web (install grant_web bob round_robin 9 two_conns).0.inner)
      (some passthrough)
unfolding get text_beq
install-AfterGrant_example = install-AfterGrant grant_web bob round_robin 9 two_conns web

web-IsServed : IsServed web web_entry two_conns
unfolding upstream_of wildcard_upstream get contains to_ascii_lowercase lower_byte text_beq
web-IsServed = record { no_upstream = refl; listed = refl; connected = omega arith }

serve-rotate_example :
    serve (λ c. true) web 2 two_conns ≡ routes_to (λ c. true) web web_entry (8 ∷ 7 ∷ [])
serve-rotate_example =
    serve-rotate (λ c. true) web web_entry two_conns web-IsServed (λ c h. refl) (omega arith)

abbrev calls : List Call
calls =
    installs grant_web ann round_robin 7
    ∷ installs grant_web bob last_write_wins 8
    ∷ looks_up (λ c. true) web
    ∷ removes 7
    ∷ kicks ann
    ∷ []

empty-IsWellFormed : IsWellFormed []
unfolding get text_beq
empty-IsWellFormed = record { keys = tt; entries = λ host entry h. cc }

run-IsWellFormed_example : IsWellFormed (run calls empty_table).inner
run-IsWellFormed_example = run-IsWellFormed calls empty_table empty-IsWellFormed

one_key : UniqueKeys two_conns.inner
unfolding get
one_key = (refl, tt)

remove_conn_iff_example :
    Has 8 (conns_of (get web (remove_conn 7 two_conns).inner))
    ↔ (Has {A = ℕ} 8 (7 ∷ 8 ∷ []) × ◌≢◌ {A = ℕ} 8 7)
unfolding get text_beq
remove_conn_iff_example = remove_conn_iff 7 two_conns web 8 one_key

kick_lem_example :
    Unique (kick ann two_conns).1
    × ((c : ℕ) → Has c (kick ann two_conns).1 ↔ IsOwned ann c two_conns.inner)
    × ((host : Text)
        → WithoutClient ann (get host two_conns.inner) (get host (kick ann two_conns).0.inner))
kick_lem_example = kick_lem ann two_conns one_key

lookup-run_exact_example :
    (lookup (λ c. true) (bytes "API.x") (run calls two_conns)).1
    ≡ some (local_route (tcp local_port))
unfolding get to_ascii_lowercase lower_byte text_beq
lookup-run_exact_example =
    lookup-run_exact (λ c. true) calls two_conns (bytes "API.x") api_upstream refl

lookup-run_tunnel_host_example :
    (lookup (λ c. true) web (run (kicks ann ∷ []) catch_all)).1
    ≢ some (local_route (tcp local_port))
unfolding get to_ascii_lowercase lower_byte text_beq contains
lookup-run_tunnel_host_example =
    lookup-run_tunnel_host (λ c. true) (kicks ann ∷ []) catch_all web (tcp local_port) refl refl

abbrev offload_table : RoutingTable
offload_table = record two_conns { offload = web ∷ [] }
