-- ===== src/Routes/Precedence.antt =====
-- Which of the upstreams and tunnels of crates/tuyau-server/src/routes.rs takes a host, whatever
-- the tunnels and the control plane do.
use tuyau.Prelude.{
  ℕ, ◌≡◌, refl, ap, ◌∙◌, ◌≢◌, inl, inr, Bool, true, ◌||◌, List, [], ◌∷◌, Option, none, some, arith,
  text_eq, nat_eq, Option-cases, is_some, or_else, is_some, or_else, contains,
}
use tuyau.Prelude.Texts.{Text, to_ascii_lowercase}
use tuyau.Prelude.Dict.{get}
use tuyau.Routes.{
  routes_to_upstream, local_route, UpstreamTarget, LocalUpstream, HostRoutes, RoutingTable, install,
  remove_conn, kick, set_terminated, upstream_of, wildcard_upstream, lookup, lookup_tunnel,
  lookup_entry, route_from, route_of,
}
use tuyau.Routes.History.{Call, installs, removes, kicks, sets_terminated, looks_up, step, run}

-- What no call changes.
pub record IsStatic (t u : RoutingTable) : Type 0 where
  pub upstreams : u.upstreams ≡ t.upstreams
  pub tunnel_hosts : u.tunnel_hosts ≡ t.tunnel_hosts
  pub offload : u.offload ≡ t.offload

lookup_entry-IsStatic :
    (found : Option HostRoutes) (is_open : ℕ → Bool) (host : Text) (t : RoutingTable)
    → IsStatic t (lookup_entry found is_open host t).0
unfolding lookup_entry
lookup_entry-IsStatic none is_open host t = record {
  upstreams = refl;
  tunnel_hosts = refl;
  offload = refl;
}
lookup_entry-IsStatic (some entry) is_open host t = record {
  upstreams = refl;
  tunnel_hosts = refl;
  offload = refl;
}

route_from-IsStatic :
    (up : Option LocalUpstream) (is_open : ℕ → Bool) (host : Text) (t : RoutingTable)
    → IsStatic t (route_from up is_open host t).0
unfolding route_from lookup_tunnel
route_from-IsStatic (some up) is_open host t = record {
  upstreams = refl;
  tunnel_hosts = refl;
  offload = refl;
}
route_from-IsStatic none is_open host t = lookup_entry-IsStatic (get host t.inner) is_open host t

step-IsStatic : (c : Call) (t : RoutingTable) → IsStatic t (step c t)
unfolding step install remove_conn kick set_terminated lookup
step-IsStatic (installs hosts client balance conn) t = record {
  upstreams = refl;
  tunnel_hosts = refl;
  offload = refl;
}
step-IsStatic (removes id) t = record { upstreams = refl; tunnel_hosts = refl; offload = refl }
step-IsStatic (kicks client) t = record { upstreams = refl; tunnel_hosts = refl; offload = refl }
step-IsStatic (sets_terminated full) t = record {
  upstreams = refl;
  tunnel_hosts = refl;
  offload = refl;
}
step-IsStatic (looks_up is_open host) t =
    route_from-IsStatic (upstream_of t (to_ascii_lowercase host)) is_open host t

run-IsStatic : (cs : List Call) (t : RoutingTable) → IsStatic t (run cs t)
unfolding run
run-IsStatic [] t = record { upstreams = refl; tunnel_hosts = refl; offload = refl }
run-IsStatic (c ∷ cs) t =
    let first = step-IsStatic c t in
    let rest = run-IsStatic cs (step c t) in
    record {
      upstreams = rest.upstreams ∙ first.upstreams;
      tunnel_hosts = rest.tunnel_hosts ∙ first.tunnel_hosts;
      offload = rest.offload ∙ first.offload;
    }

lookup-exact :
    (is_open : ℕ → Bool) (host : Text) (t : RoutingTable) (up : LocalUpstream)
    → get (to_ascii_lowercase host) t.upstreams ≡ some up
    → lookup is_open host t ≡ (t, some (local_route up.target))
unfolding lookup upstream_of route_from
lookup-exact is_open host t up e = rw e

-- A host with an exact upstream goes to that upstream, in any case of letters, after any history
-- of installs, removals, kicks and changes of the terminated set: no client can take it over.
pub lookup-run_exact :
    (is_open : ℕ → Bool) (cs : List Call) (t : RoutingTable) (host : Text) (up : LocalUpstream)
    → get (to_ascii_lowercase host) t.upstreams ≡ some up
    → (lookup is_open host (run cs t)).1 ≡ some (local_route up.target)
lookup-run_exact is_open cs t host up e =
    ap (λ r. r.1)
      (lookup-exact is_open host (run cs t) up
        (ap (get (to_ascii_lowercase host)) (run-IsStatic cs t).upstreams ∙ e))

route_of-ne-local :
    (entry : HostRoutes) (o : Option ℕ) (target : UpstreamTarget)
    → route_of entry o ≢ some (local_route target)
unfolding route_of
route_of-ne-local entry none target = ground arith
route_of-ne-local entry (some c) target = ground arith

lookup_entry-ne-local :
    (found : Option HostRoutes) (is_open : ℕ → Bool) (host : Text) (t : RoutingTable)
    (target : UpstreamTarget)
    → (lookup_entry found is_open host t).1 ≢ some (local_route target)
unfolding lookup_entry
lookup_entry-ne-local none is_open host t target = ground arith
lookup_entry-ne-local (some entry) is_open host t target = route_of-ne-local entry _ target

upstream_of-tunnel_host :
    (t : RoutingTable) (name : Text)
    → contains t.tunnel_hosts name ≡ true
    → get name t.upstreams ≡ none
    → upstream_of t name ≡ none
unfolding upstream_of wildcard_upstream
upstream_of-tunnel_host t name h e = rw (e, h) refl

-- A tunnel host of the configuration without an upstream of its own never goes to a wildcard or
-- catch-all upstream, also while no tunnel serves it.
pub lookup-run_tunnel_host :
    (is_open : ℕ → Bool) (cs : List Call) (t : RoutingTable) (host : Text) (target : UpstreamTarget)
    → contains t.tunnel_hosts (to_ascii_lowercase host) ≡ true
    → get (to_ascii_lowercase host) t.upstreams ≡ none
    → (lookup is_open host (run cs t)).1 ≢ some (local_route target)
unfolding lookup lookup_tunnel route_from
lookup-run_tunnel_host is_open cs t host target h e =
    let static = run-IsStatic cs t in
    let no_upstream =
      upstream_of-tunnel_host (run cs t) (to_ascii_lowercase host)
        (ap (λ l. contains l (to_ascii_lowercase host)) static.tunnel_hosts ∙ h)
        (ap (get (to_ascii_lowercase host)) static.upstreams ∙ e) in
    rw no_upstream
      (lookup_entry-ne-local (get host (run cs t).inner) is_open host (run cs t) target)

-- A lookup gives an upstream only for a host that routes to one.
pub lookup-routes_to_upstream :
    (is_open : ℕ → Bool) (t : RoutingTable) (host : Text) (target : UpstreamTarget)
    → (lookup is_open host t).1 ≡ some (local_route target)
    → routes_to_upstream t host ≡ true
unfolding lookup lookup_tunnel route_from upstream_of routes_to_upstream
lookup-routes_to_upstream is_open t host target e =
    elim (Option-cases (upstream_of t (to_ascii_lowercase host))) [
      | inl gone ↦
          absurd (lookup_entry-ne-local (get host t.inner) is_open host t target (rw gone at e))
      | inr (up, found) ↦
          either (get (to_ascii_lowercase host) t.upstreams)
            (wildcard_upstream t (to_ascii_lowercase host)) found
    ]
  where
    either :
        {up : LocalUpstream} (a b : Option LocalUpstream)
        → or_else a b ≡ some up
        → (is_some a || is_some b) ≡ true
    either (some x) b h = refl
    either none (some x) h = refl
    either none none h = absurd (none_some h)
      where
        none_some : {up : LocalUpstream} → none ≡ some up → ⊥
        none_some n = cc
