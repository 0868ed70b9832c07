-- ===== src/Session/Tracked.antt =====
-- The handlers of crates/tuyau-server/src/server.rs as they interleave: what of a connection may
-- stand in the table and the registry, and that its handler takes it out again.
use tuyau.Prelude.{
  ℕ, ◌≡◌, refl, sym, ap, ◌∙◌, subst, ◌≢◌, inl, inr, Bool, true, false, List, [], ◌∷◌, Option, none,
  some, arith, ◌==◌, Eq, text_eq, nat_eq, ==_eq, ==_refl, ==_ne, is_some, Bool-cases, Option-cases,
  Has,
}
use mathlib.Core.Bool.{false≢true}
use tuyau.Prelude.Texts.{Text}
use tuyau.Prelude.Dict.{
  Dict, get, insert, get-insert, remove, get-remove, retain_values, contains_key,
}
use tuyau.Net.{SocketAddr}
use tuyau.Backend.{ClientGrant}
use tuyau.Routes.{HostRoutes, RoutingTable, install, remove_conn, kick, set_terminated}
use tuyau.Routes.Install.{conns_of}
use tuyau.Routes.Sources.{install-only}
use tuyau.Routes.History.{IsWellFormed, run-IsWellFormed}
use tuyau.Routes.History
use tuyau.Routes.Removal.{remove_conn_iff, kick_lem, WithoutClient}
use tuyau.Control.{register, unregister}
use tuyau.Session.{
  Phase, installed, held, Server, Greeting, accept_failed, stream_closed, admitted, install_tunnel,
  greet, answer, finish, kick_client, Event, greets, answers, finishes_tunnel, kicks,
  sets_terminated, step, run, answer_in, finish_in,
}

-- The table routes to a connection.
abbrev pub IsRouted : ℕ → RoutingTable → Type 0
IsRouted c t = (host : Text) × Has c (conns_of (get host t.inner))

-- The table is well-formed; what it routes to has a handler that is not done; what the registry
-- lists is held.
pub record IsTracked (s : Server) : Type 0 where
  pub well_formed : IsWellFormed s.routes.inner
  pub routed : (c : ℕ) → IsRouted c s.routes → is_some (get c s.phases) ≡ true
  pub registered : (c : ℕ) → contains_key c s.control.tunnels ≡ true → get c s.phases ≡ some held

==_false : (c id : ℕ) → c == id ≡ false → c ≢ id
==_false c id h = ground (arith, nat_eq.beq_iff c id)

-- The phase of a connection after another's changed.
insert-phase :
    (id c : ℕ) (p : Phase) (m : Dict ℕ Phase)
    → is_some (get c m) ≡ true
    → is_some (get c (insert id p m)) ≡ true
insert-phase id c p m h = rw (get-insert id c p m) (ground arith)

insert-here : (id : ℕ) (p : Phase) (m : Dict ℕ Phase) → get id (insert id p m) ≡ some p
insert-here id p m = rw (get-insert id id p m, ==_refl id) refl

insert-other :
    {V : Type 0} (id c : ℕ) (v : V) (m : Dict ℕ V) → c ≢ id → get c (insert id v m) ≡ get c m
insert-other id c v m h = rw (get-insert id c v m, ==_ne id c (λ e. h (sym e))) refl

remove-other : {V : Type 0} (id c : ℕ) (m : Dict ℕ V) → c ≢ id → get c (remove id m) ≡ get c m
remove-other id c m h = rw (get-remove id c m, ==_ne id c (λ e. h (sym e))) refl

remove-here : {V : Type 0} (id : ℕ) (m : Dict ℕ V) → get id (remove id m) ≡ none
remove-here id m = rw (get-remove id id m, ==_refl id) refl

-- Connections with different phases are different.
apart :
    {p q : Option Phase} (id c : ℕ) (m : Dict ℕ Phase) → get id m ≡ p → get c m ≡ q → p ≢ q → c ≢ id
apart id c m hp hq ne e = ne (sym hp ∙ ap (λ k. get k m) (sym e) ∙ hq)

greet-IsTracked :
    (id : ℕ) (peer : SocketAddr) (g : Greeting) (s : Server)
    → get id s.phases ≡ none
    → IsTracked s
    → IsTracked (greet id peer g s)
unfolding greet install_tunnel install History.run History.step
greet-IsTracked id peer accept_failed s fresh w = w
greet-IsTracked id peer stream_closed s fresh w = w
greet-IsTracked id peer (admitted grant true) s fresh w = w
greet-IsTracked id peer (admitted grant false) s fresh w = record {
  well_formed =
      run-IsWellFormed (History.installs grant.hostnames grant.client_name grant.balance id ∷ [])
        s.routes w.well_formed;
  routed = λ c (host, h). elim (install-only _ _ _ grant.hostnames s.routes host c h) [
    | inl e ↦ rw (e, insert-here id (installed grant peer) s.phases) refl
    | inr old ↦ insert-phase id c _ s.phases (w.routed c (host, old))
  ];
  registered = λ c h.
      let there = w.registered c h in
      insert-other id c _ s.phases (apart id c s.phases fresh there (λ n. cc)) ∙ there;
}
greet-IsTracked id peer _ s fresh w = record {
  well_formed = w.well_formed;
  routed = w.routed;
  registered = w.registered;
}

remove_conn-IsRouted :
    (id c : ℕ) (t : RoutingTable)
    → IsWellFormed t.inner
    → IsRouted c (remove_conn id t)
    → IsRouted c t × (c ≢ id)
remove_conn-IsRouted id c t w (host, h) =
    let (old, other) = (remove_conn_iff id t host c w.keys).0 h in ((host, old), other)

answer-IsTracked :
    (id : ℕ) (grant : ClientGrant) (peer : SocketAddr) (sent : Bool) (s : Server)
    → get id s.phases ≡ some (installed grant peer)
    → IsTracked s
    → IsTracked (answer id grant peer sent s)
unfolding answer register remove_conn History.run retain_values History.step
answer-IsTracked id grant peer true s here w = record {
  well_formed = w.well_formed;
  routed = λ c h. insert-phase id c held s.phases (w.routed c h);
  registered = λ c h. elim (Bool-cases (c == id)) [
    | inl same ↦ rw (==_eq c id same) (insert-here id held s.phases)
    | inr other ↦
        let ne = ==_false c id other in
        insert-other id c held s.phases ne
        ∙ w.registered c (ap is_some (sym (insert-other id c _ s.control.tunnels ne)) ∙ h)
  ];
}
answer-IsTracked id grant peer false s here w = record {
  well_formed = run-IsWellFormed (History.removes id ∷ []) s.routes w.well_formed;
  routed = λ c h.
      let (old, other) = remove_conn-IsRouted id c s.routes w.well_formed h in
      rw (remove-other id c s.phases other) (w.routed c old);
  registered = λ c h.
      let there = w.registered c h in
      remove-other id c s.phases (apart id c s.phases here there (λ n. cc)) ∙ there;
}

finish-IsTracked :
    (id : ℕ) (shutdown : Bool) (s : Server) → IsTracked s → IsTracked (finish id shutdown s)
unfolding finish unregister remove_conn History.run retain_values History.step
finish-IsTracked id shutdown s w = record {
  well_formed = run-IsWellFormed (History.removes id ∷ []) s.routes w.well_formed;
  routed = λ c h.
      let (old, other) = remove_conn-IsRouted id c s.routes w.well_formed h in
      rw (remove-other id c s.phases other) (w.routed c old);
  registered = λ c h. elim (Bool-cases (c == id)) [
    | inl same ↦
        let gone : get c (remove id s.control.tunnels) ≡ none =
          ap (λ k. get k (remove id s.control.tunnels)) (==_eq c id same)
          ∙ remove-here id s.control.tunnels in
        absurd (false≢true (sym (ap is_some gone) ∙ h))
    | inr other ↦
        let ne = ==_false c id other in
        remove-other id c s.phases ne
        ∙ w.registered c (ap is_some (sym (remove-other id c s.control.tunnels ne)) ∙ h)
  ];
}

kick_client-IsTracked :
    (client : Text) (s : Server) → IsTracked s → IsTracked (kick_client client s).0
unfolding kick_client kick retain_values History.run History.step
kick_client-IsTracked client s w = record {
  well_formed = run-IsWellFormed (History.kicks client ∷ []) s.routes w.well_formed;
  routed = λ c (host, h). w.routed c (
    host,
    kept_conn (get host s.routes.inner) _ c ((kick_lem client s.routes w.well_formed.keys).2 host)
        h,
  );
  registered = w.registered;
}
  where
    kept_conn :
        (old new : Option HostRoutes) (c : ℕ)
        → WithoutClient client old new
        → Has c (conns_of new)
        → Has c (conns_of old)
    kept_conn none new c e h = subst (λ o. Has c (conns_of o)) e h
    kept_conn (some entry) new c (inl (_, e)) h = elim (subst (λ o. Has c (conns_of o)) e h) [ ]
    kept_conn (some entry) new c (inr (_, e)) h = subst (λ o. Has c (conns_of o)) e h

step-IsTracked : (e : Event) (s : Server) → IsTracked s → IsTracked (step e s)
unfolding step set_terminated
step-IsTracked (greets id peer g) s w = elim (Option-cases (get id s.phases)) [
  | inl fresh ↦ rw fresh (greet-IsTracked id peer g s fresh w)
  | inr (p, e) ↦ rw e w
]
step-IsTracked (answers id sent) s w = at_phase (get id s.phases) refl
  where
    at_phase : (p : Option Phase) → get id s.phases ≡ p → IsTracked (answer_in p id sent s)
    at_phase (some (installed grant peer)) e = answer-IsTracked id grant peer sent s e w
    at_phase (some held) e = w
    at_phase none e = w
step-IsTracked (finishes_tunnel id shutdown) s w = at_phase (get id s.phases)
  where
    at_phase : (p : Option Phase) → IsTracked (finish_in p id shutdown s)
    at_phase (some held) = finish-IsTracked id shutdown s w
    at_phase (some (installed grant peer)) = w
    at_phase none = w
step-IsTracked (kicks client) s w = kick_client-IsTracked client s w
step-IsTracked (sets_terminated domains) s w = record {
  well_formed = w.well_formed;
  routed = w.routed;
  registered = w.registered;
}

-- From a tracked server on, however the handlers of all connections, kicks and changes of the
-- terminated set interleave: the table stays well-formed, each connection that it routes to has a
-- handler that has not ended, and each one in the registry is held by its handler.
pub run-IsTracked : (es : List Event) (s : Server) → IsTracked s → IsTracked (run es s)
unfolding run
run-IsTracked [] s w = w
run-IsTracked (e ∷ es) s w = run-IsTracked es (step e s) (step-IsTracked e s w)

dict-nil {κ} :
    {K : Type κ} {V : Type 0} ⦃e : Eq K⦄ (m : Dict K V) → ((k : K) → get k m ≡ none) → m ≡ []
unfolding get
dict-nil [] h = refl
dict-nil ((k, v) ∷ m) h = let here = h k in absurd (some_none (rw (==_refl k) at here))
  where
    some_none : some v ≡ none → ⊥
    some_none n = cc

no_phase : (c : ℕ) (m : Dict ℕ Phase) → m ≡ [] → get c m ≡ none
unfolding get
no_phase c m e = rw e refl

-- From a tracked server on, as the empty one is: once every handler has ended, whatever happened
-- before, the table routes no host and the registry lists no tunnel.
pub run-ended :
    (es : List Event) (s : Server)
    → IsTracked s
    → (run es s).phases ≡ []
    → ((run es s).routes.inner ≡ []) × ((run es s).control.tunnels ≡ [])
run-ended es s w e = (dict-nil _ no_host, dict-nil _ no_tunnel)
  where
    end : IsTracked (run es s)
    end = run-IsTracked es s w

    not_tracked : (c : ℕ) → is_some (get c (run es s).phases) ≡ true → ⊥
    not_tracked c h = false≢true (sym (ap is_some (no_phase c (run es s).phases e)) ∙ h)

    no_conn :
        (host : Text) (entry : HostRoutes)
        → get host (run es s).routes.inner ≡ some entry
        → (cs : List ℕ) → entry.conns ≡ cs
        → ⊥
    no_conn host entry found [] h = (end.well_formed.entries host entry found).some_conn h
    no_conn host entry found (c ∷ cs) h =
        not_tracked c (end.routed c (host, rw found (subst (Has c) (sym h) (inl refl))))

    no_host : (host : Text) → get host (run es s).routes.inner ≡ none
    no_host host = elim (Option-cases (get host (run es s).routes.inner)) [
      | inl gone ↦ gone
      | inr (entry, found) ↦ absurd (no_conn host entry found entry.conns refl)
    ]

    no_tunnel : (c : ℕ) → get c (run es s).control.tunnels ≡ none
    no_tunnel c = elim (Option-cases (get c (run es s).control.tunnels)) [
      | inl gone ↦ gone
      | inr (info, found) ↦
          absurd (not_tracked c (ap is_some (end.registered c (ap is_some found))))
    ]
