-- ===== src/Tests/Listener.antt =====
-- The theorems on tunnels and public connections at concrete events.
use tuyau.Prelude.{
  ℕ, ◌+◌, ◌≤◌, ◌≡◌, refl, Bool, true, false, List, [], ◌∷◌, ◌++◌, some, length, inl, ok, ◌==◌,
  nat_eq,
}
use tuyau.Prelude.Texts.{bytes}
use tuyau.Prelude.Dict.{get, insert, remove}
use tuyau.Config.{last_write_wins}
use tuyau.Backend.{ClientGrant}
use tuyau.Session.{
  Server, Event, greets, answers, finishes_tunnel, admitted, invalid_token, run, greet,
  install_tunnel, answer, finish,
}
use tuyau.Session.Tracked.{IsTracked, run-IsTracked, run-ended}
use tuyau.Public.{tls_stream, handle_host}
use tuyau.Server.{Resolver}
use tuyau.Public.Tls.{PublicTls, signed_by, new_tls, alpn_protocols}
use tuyau.Public.Tls.Negotiated.{IsGranted, handle_host-IsGranted}
use tuyau.Public.Wire.{read_client_hello, max_record_size, new, read_all}
use tuyau.Public.Wire.Replay.{ahead, read_client_hello-replayed}
use tuyau.Tests.Tables.{ann, web, two_conns, empty_table, grant_web, local_port}

abbrev idle : Server
idle = record {
  routes = empty_table;
  control = record { tunnels = []; events = [] };
  phases = [];
  effects = [];
}

idle-IsTracked : IsTracked idle
unfolding get
idle-IsTracked = record {
  well_formed = record { keys = tt; entries = λ host entry h. cc };
  routed = λ c (host, h). elim h [ ];
  registered = λ c h. cc;
}

abbrev ann_grant : ClientGrant
ann_grant = record { client_name = ann; balance = last_write_wins; hostnames = grant_web }

-- Two tunnels of one client: the second displaces the first while its welcome is being sent.
abbrev two_tunnels : List Event
two_tunnels =
    greets 7 local_port (admitted ann_grant false)
    ∷ greets 8 local_port (admitted ann_grant false)
    ∷ answers 7 true
    ∷ greets 9 local_port invalid_token
    ∷ answers 8 true
    ∷ []

run-IsTracked_example : IsTracked (run two_tunnels idle)
run-IsTracked_example = run-IsTracked two_tunnels idle idle-IsTracked

-- The same, up to the end of both.
abbrev both_end : List Event
both_end = two_tunnels ++ finishes_tunnel 7 false ∷ finishes_tunnel 8 true ∷ []

run-ended_example :
    ((run both_end idle).routes.inner ≡ []) × ((run both_end idle).control.tunnels ≡ [])
unfolding run greet install_tunnel answer finish get insert remove
run-ended_example = run-ended both_end idle idle-IsTracked refl

abbrev record_of_2 : List ℕ
record_of_2 = 0x16 ∷ 3 ∷ 1 ∷ 0 ∷ 2 ∷ 8 ∷ 9 ∷ []

read_client_hello-replayed_example :
    (length record_of_2 ≤ 5 + max_record_size)
    × ((body : List ℕ) × (record_of_2 ≡ 0x16 ∷ body))
    × ((read_all (λ room r. 1) (3 ∷ 9 ∷ 4 ∷ []) (new record_of_2 (5 ∷ 6 ∷ []))).1
          ++ ahead (read_all (λ room r. 1) (3 ∷ 9 ∷ 4 ∷ []) (new record_of_2 (5 ∷ 6 ∷ []))).0
        ≡ record_of_2 ++ 5 ∷ 6 ∷ [])
unfolding read_client_hello
read_client_hello-replayed_example =
    read_client_hello-replayed (λ room r. 1) (3 ∷ 9 ∷ 4 ∷ []) (record_of_2 ++ 5 ∷ 6 ∷ [])
      record_of_2 (5 ∷ 6 ∷ []) refl

-- A listener that accepts only certs signed by the roots 7, and a client that has one.
abbrev any_cert : Resolver ℕ
any_cert sni = some 1

abbrev strict_tls : PublicTls ℕ ℕ
strict_tls = record {
  config = record {
    cert_resolver = any_cert;
    alpn_protocols = alpn_protocols true;
    client_roots = some 7;
  };
  needs_client_cert = true;
}

abbrev signed_by_7 : ℕ → Bool
signed_by_7 roots = roots == 7

strict_tls-IsMade :
    new_tls {E = ℕ} (ok tt) (λ roots. ok tt) any_cert true (signed_by 7) ≡ ok strict_tls
unfolding new_tls
strict_tls-IsMade = refl

handle_host-IsGranted_example :
    IsGranted signed_by_7 true
      (signed_by 7)
      two_conns
      web
      (handle_host (λ c. true) true web two_conns (tls_stream (some (bytes "h2")) true)).1
handle_host-IsGranted_example =
    handle_host-IsGranted (ok tt) (λ roots. ok tt) any_cert true (signed_by 7) {tls = strict_tls}
      signed_by_7 (λ c. true) web two_conns (tls_stream (some (bytes "h2")) true) strict_tls-IsMade
      (inl refl, λ e. refl)
