-- ===== src/Routes/History.antt =====
-- The operations of the `RoutingTable` of crates/tuyau-server/src/routes.rs in any order: what
-- holds of the table after each history of them.
use tuyau.Prelude.{
  ℕ, ◌≡◌, refl, sym, ap, ◌∙◌, subst, ◌≢◌, inl, inr, Bool, not, List, [], ◌∷◌, Option, none, some,
  arith, if◌then◌else◌, ◌==◌, text_eq, nat_eq, Bool-cases, Option-cases, Has, Unique, retain,
  retain-Unique,
}
use tuyau.Prelude.Texts.{Text, to_ascii_lowercase}
use tuyau.Prelude.Dict.{
  Dict, get, insert, get-insert, insert-UniqueKeys, retain_values, get-retain_values,
  retain_values-UniqueKeys, kept, UniqueKeys,
}
use tuyau.Protocol.Frame.{TlsMode}
use tuyau.Config.{Balance}
use tuyau.Routes.{
  LocalUpstream, HostRoutes, RoutingTable, install_all, install, drop_conn, remove_conn,
  drop_client, kick, set_terminated, upstream_of, lookup, lookup_tunnel, lookup_entry, route_from,
}
use tuyau.Routes.Install.{conns_of, install_entry-Unique, install_entry-IsGranted}

-- A call of the table, by a tunnel handler, the control plane or a public connection.
pub data Call : Type 0 where
  installs : List (Text × TlsMode) → Text → Balance → ℕ → Call
  removes : ℕ → Call
  kicks : Text → Call
  sets_terminated : List Text → Call
  looks_up : (ℕ → Bool) → Text → Call

unfoldable pub step : Call → RoutingTable → RoutingTable
step (installs hosts client balance conn) t = (install hosts client balance conn t).0
step (removes id) t = remove_conn id t
step (kicks client) t = (kick client t).0
step (sets_terminated full) t = set_terminated full t
step (looks_up is_open host) t = (lookup is_open host t).0

unfoldable pub run : List Call → RoutingTable → RoutingTable
run [] t = t
run (c ∷ cs) t = run cs (step c t)

-- An entry has connections, each once.
pub record HasConns (entry : HostRoutes) : Type 0 where
  pub some_conn : entry.conns ≢ []
  pub unique : Unique entry.conns

pub record IsWellFormed (inner : Dict Text HostRoutes) : Type 0 where
  pub keys : UniqueKeys inner
  pub entries : (host : Text) (entry : HostRoutes) → get host inner ≡ some entry → HasConns entry

conns-ne-nil : (c : ℕ) (cs : List ℕ) → Has c cs → cs ≢ []
conns-ne-nil c cs h e = elim (subst (Has c) e h) [ ]

insert-IsWellFormed :
    (host : Text) (entry : HostRoutes) (inner : Dict Text HostRoutes)
    → HasConns entry
    → IsWellFormed inner
    → IsWellFormed (insert host entry inner)
insert-IsWellFormed host entry inner h w = record {
  keys = insert-UniqueKeys host entry inner w.keys;
  entries = λ other found e. elim (Bool-cases (host == other)) [
    | inl same ↦
        let this : some entry ≡ some found =
          ap (λ b. if b then some entry else get other inner) (sym same)
          ∙ sym (get-insert host other entry inner)
          ∙ e in
        let equal : entry ≡ found = cc this in subst HasConns equal h
    | inr different ↦ w.entries other found (
        ap (λ b. if b then some entry else get other inner) (sym different)
        ∙ sym (get-insert host other entry inner)
        ∙ e)
  ];
}

-- The connections of the entry of a host are distinct, also if it has none.
conns_of-Unique :
    (host : Text) (inner : Dict Text HostRoutes)
    → IsWellFormed inner
    → Unique (conns_of (get host inner))
conns_of-Unique host inner w = elim (Option-cases (get host inner)) [
  | inl e ↦ rw e tt
  | inr (entry, e) ↦ rw e (w.entries host entry e).unique
]

install_all-IsWellFormed :
    (client : Text) (balance : Balance) (conn : ℕ) (hosts : List (Text × TlsMode))
    (inner : Dict Text HostRoutes) (displaced : List ℕ)
    → IsWellFormed inner
    → IsWellFormed (install_all client balance conn hosts inner displaced).0
unfolding install_all
install_all-IsWellFormed client balance conn [] inner displaced w = w
install_all-IsWellFormed client balance conn ((host, mode) ∷ hosts) inner displaced w =
    install_all-IsWellFormed client balance conn hosts _ _ (
      insert-IsWellFormed host _ inner
        (record {
          some_conn =
              conns-ne-nil conn _
                (install_entry-IsGranted client balance conn mode (get host inner)).holds;
          unique =
              install_entry-Unique client balance conn mode (get host inner)
                (conns_of-Unique host inner w);
        })
        w)

retain_values-IsWellFormed :
    (f : HostRoutes → Option HostRoutes) (inner : Dict Text HostRoutes)
    → ((old new : HostRoutes) → f old ≡ some new → HasConns old → HasConns new)
    → IsWellFormed inner
    → IsWellFormed (retain_values f inner)
retain_values-IsWellFormed f inner keep w = record {
  keys = retain_values-UniqueKeys f inner w.keys;
  entries = λ host new e. elim (Option-cases (get host inner)) [
    | inl gone ↦
        absurd
          (none_some (sym (ap (kept f) gone) ∙ sym (get-retain_values f host inner w.keys) ∙ e))
    | inr (old, found) ↦
        keep old new (sym (ap (kept f) found) ∙ sym (get-retain_values f host inner w.keys) ∙ e)
          (w.entries host old found)
  ];
}
  where
    none_some : {new : HostRoutes} → none ≡ some new → ⊥
    none_some h = cc

drop_conn-HasConns :
    (id : ℕ) (old new : HostRoutes) → drop_conn id old ≡ some new → HasConns old → HasConns new
unfolding drop_conn
drop_conn-HasConns id old new e h =
    left (retain (λ c. not (c == id)) old.conns) (retain-Unique _ old.conns h.unique) e
  where
    left :
        (cs : List ℕ)
        → Unique cs
        → (elim cs [ [] ↦ none | c ∷ rest ↦ some (record old { conns = c ∷ rest }) ]) ≡ some new
        → HasConns new
    left [] u e' = absurd (ground arith)
    left (c ∷ cs) u e' =
        let same : record old { conns = c ∷ cs } ≡ new = cc e' in
        subst HasConns same (record { some_conn = λ n. cc n; unique = u })

drop_client-HasConns :
    (client : Text) (old new : HostRoutes)
    → drop_client client old ≡ some new
    → HasConns old
    → HasConns new
unfolding drop_client
drop_client-HasConns client old new e h = elim (Bool-cases (old.client_name == client)) [
  | inl same ↦ absurd (ground arith)
  | inr other ↦ let this : old ≡ new = ground arith in subst HasConns this h
]

lookup_entry-IsWellFormed :
    (found : Option HostRoutes) (is_open : ℕ → Bool) (host : Text) (t : RoutingTable)
    → get host t.inner ≡ found
    → IsWellFormed t.inner
    → IsWellFormed (lookup_entry found is_open host t).0.inner
unfolding lookup_entry
lookup_entry-IsWellFormed none is_open host t e w = w
lookup_entry-IsWellFormed (some entry) is_open host t e w =
    let h = w.entries host entry e in
    insert-IsWellFormed host _ t.inner (record { some_conn = h.some_conn; unique = h.unique }) w

route_from-IsWellFormed :
    (up : Option LocalUpstream) (is_open : ℕ → Bool) (host : Text) (t : RoutingTable)
    → IsWellFormed t.inner
    → IsWellFormed (route_from up is_open host t).0.inner
unfolding route_from lookup_tunnel
route_from-IsWellFormed (some up) is_open host t w = w
route_from-IsWellFormed none is_open host t w =
    lookup_entry-IsWellFormed (get host t.inner) is_open host t refl w

pub step-IsWellFormed :
    (c : Call) (t : RoutingTable) → IsWellFormed t.inner → IsWellFormed (step c t).inner
unfolding step install remove_conn kick set_terminated lookup
step-IsWellFormed (installs hosts client balance conn) t w =
    install_all-IsWellFormed client balance conn hosts t.inner [] w
step-IsWellFormed (removes id) t w =
    retain_values-IsWellFormed (drop_conn id) t.inner (drop_conn-HasConns id) w
step-IsWellFormed (kicks client) t w =
    retain_values-IsWellFormed (drop_client client) t.inner (drop_client-HasConns client) w
step-IsWellFormed (sets_terminated full) t w = w
step-IsWellFormed (looks_up is_open host) t w =
    route_from-IsWellFormed (upstream_of t (to_ascii_lowercase host)) is_open host t w

-- Every history keeps each host once in the table, with at least one connection, and no
-- connection twice under a host.
pub run-IsWellFormed :
    (cs : List Call) (t : RoutingTable) → IsWellFormed t.inner → IsWellFormed (run cs t).inner
unfolding run
run-IsWellFormed [] t w = w
run-IsWellFormed (c ∷ cs) t w = run-IsWellFormed cs (step c t) (step-IsWellFormed c t w)
