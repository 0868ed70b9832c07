-- ===== src/Routes/Ownership.antt =====
-- Who may own the hosts of the `RoutingTable` of crates/tuyau-server/src/routes.rs, when only some
-- clients are granted a host.
use tuyau.Prelude.{
  ℕ, ◌≡◌, refl, sym, ap, ◌∙◌, subst, inl, inr, Bool, not, List, [], ◌∷◌, Option, none, some, arith,
  if◌then◌else◌, ◌==◌, text_eq, nat_eq, ==_eq, Bool-cases, Option-cases, some_inj, Has, All, retain,
}
use tuyau.Prelude.Texts.{Text, to_ascii_lowercase}
use tuyau.Prelude.Dict.{Dict, get, insert, get-insert, retain_values, get-retain_values, kept}
use tuyau.Protocol.Frame.{TlsMode}
use tuyau.Config.{Balance}
use tuyau.Routes.{
  LocalUpstream, HostRoutes, RoutingTable, install_all, install, drop_conn, remove_conn,
  drop_client, kick, set_terminated, upstream_of, lookup, lookup_tunnel, lookup_entry, route_from,
}
use tuyau.Routes.Install.{install_entry-IsGranted}
use tuyau.Routes.History.{
  Call, installs, removes, kicks, sets_terminated, looks_up, step, run, IsWellFormed,
  step-IsWellFormed,
}

-- `may_own host client`: the client may be granted the host.
module _ (MayOwn : Text → Text → Type 0) where
  abbrev pub AreOwned : Dict Text HostRoutes → Type 0
  AreOwned inner =
      (host : Text) (entry : HostRoutes)
      → get host inner ≡ some entry
      → MayOwn host entry.client_name

  -- A call that grants hosts only to clients that may own them.
  abbrev pub Grants : Call → Type 0
  Grants (installs hosts client balance conn) =
      (p : Text × TlsMode) → Has p hosts → MayOwn p.0 client
  Grants _ = Unit

  insert-AreOwned :
      (host : Text) (entry : HostRoutes) (inner : Dict Text HostRoutes)
      → MayOwn host entry.client_name
      → AreOwned inner
      → AreOwned (insert host entry inner)
  insert-AreOwned host entry inner owns o other found e = elim (Bool-cases (host == other)) [
    | inl same ↦
        let this : some entry ≡ some found =
          ap (λ b. if b then some entry else get other inner) (sym same)
          ∙ sym (get-insert host other entry inner)
          ∙ e in
        subst (λ (name : Text). MayOwn name found.client_name) (==_eq host other same)
          (subst (λ (x : HostRoutes). MayOwn host x.client_name) (some_inj.0 this) owns)
    | inr different ↦ o other found (
        ap (λ b. if b then some entry else get other inner) (sym different)
        ∙ sym (get-insert host other entry inner)
        ∙ e)
  ]

  install_all-AreOwned :
      (client : Text) (balance : Balance) (conn : ℕ) (hosts : List (Text × TlsMode))
      (inner : Dict Text HostRoutes) (displaced : List ℕ)
      → ((p : Text × TlsMode) → Has p hosts → MayOwn p.0 client)
      → AreOwned inner
      → AreOwned (install_all client balance conn hosts inner displaced).0
  unfolding install_all
  install_all-AreOwned client balance conn [] inner displaced grants o = o
  install_all-AreOwned client balance conn ((host, mode) ∷ hosts) inner displaced grants o =
      install_all-AreOwned client balance conn hosts _ _ (λ p i. grants p (inr i))
        (insert-AreOwned host _ inner
          (subst (MayOwn host)
            (sym (install_entry-IsGranted client balance conn mode (get host inner)).owner)
            (grants (host, mode) (inl refl)))
          o)

  retain_values-AreOwned :
      (f : HostRoutes → Option HostRoutes) (inner : Dict Text HostRoutes)
      → ((old new : HostRoutes) → f old ≡ some new → old.client_name ≡ new.client_name)
      → IsWellFormed inner
      → AreOwned inner
      → AreOwned (retain_values f inner)
  retain_values-AreOwned f inner keep w o host new e = elim (Option-cases (get host inner)) [
    | inl gone ↦
        absurd
          (none_some (sym (ap (kept f) gone) ∙ sym (get-retain_values f host inner w.keys) ∙ e))
    | inr (old, found) ↦
        subst (MayOwn host)
          (keep old new (sym (ap (kept f) found) ∙ sym (get-retain_values f host inner w.keys) ∙ e))
          (o host old found)
  ]
    where
      none_some : {new : HostRoutes} → none ≡ some new → ⊥
      none_some h = cc

  drop_conn-client_name :
      (id : ℕ) (old new : HostRoutes)
      → drop_conn id old ≡ some new
      → old.client_name ≡ new.client_name
  unfolding drop_conn
  drop_conn-client_name id old new e = left (retain (λ c. not (c == id)) old.conns) e
    where
      left :
          (cs : List ℕ)
          → (elim cs [ [] ↦ none | c ∷ rest ↦ some (record old { conns = c ∷ rest }) ]) ≡ some new
          → old.client_name ≡ new.client_name
      left [] e' = absurd (ground arith)
      left (c ∷ cs) e' = ap (λ (x : HostRoutes). x.client_name) (some_inj.0 e')

  drop_client-client_name :
      (client : Text) (old new : HostRoutes)
      → drop_client client old ≡ some new
      → old.client_name ≡ new.client_name
  unfolding drop_client
  drop_client-client_name client old new e = elim (Bool-cases (old.client_name == client)) [
    | inl same ↦ absurd (ground arith)
    | inr other ↦ let this : old ≡ new = ground arith in ap (λ (x : HostRoutes). x.client_name) this
  ]

  lookup_entry-AreOwned :
      (found : Option HostRoutes) (is_open : ℕ → Bool) (host : Text) (t : RoutingTable)
      → get host t.inner ≡ found
      → AreOwned t.inner
      → AreOwned (lookup_entry found is_open host t).0.inner
  unfolding lookup_entry
  lookup_entry-AreOwned none is_open host t e o = o
  lookup_entry-AreOwned (some entry) is_open host t e o =
      insert-AreOwned host _ t.inner (o host entry e) o

  route_from-AreOwned :
      (up : Option LocalUpstream) (is_open : ℕ → Bool) (host : Text) (t : RoutingTable)
      → AreOwned t.inner
      → AreOwned (route_from up is_open host t).0.inner
  unfolding route_from lookup_tunnel
  route_from-AreOwned (some up) is_open host t o = o
  route_from-AreOwned none is_open host t o =
      lookup_entry-AreOwned (get host t.inner) is_open host t refl o

  step-AreOwned :
      (c : Call) (t : RoutingTable)
      → Grants c
      → IsWellFormed t.inner
      → AreOwned t.inner
      → AreOwned (step c t).inner
  unfolding step install remove_conn kick set_terminated lookup
  step-AreOwned (installs hosts client balance conn) t grants w o =
      install_all-AreOwned client balance conn hosts t.inner [] grants o
  step-AreOwned (removes id) t grants w o =
      retain_values-AreOwned (drop_conn id) t.inner (drop_conn-client_name id) w o
  step-AreOwned (kicks client) t grants w o =
      retain_values-AreOwned (drop_client client) t.inner (drop_client-client_name client) w o
  step-AreOwned (sets_terminated full) t grants w o = o
  step-AreOwned (looks_up is_open host) t grants w o =
      route_from-AreOwned (upstream_of t (to_ascii_lowercase host)) is_open host t o

  -- Every owner of a host may own it, after any history of calls that grant so.
  pub run-AreOwned :
      (cs : List Call) (t : RoutingTable)
      → All Grants cs
      → IsWellFormed t.inner
      → AreOwned t.inner
      → AreOwned (run cs t).inner
  unfolding run
  run-AreOwned [] t grants w o = o
  run-AreOwned (c ∷ cs) t (grant, grants) w o =
      run-AreOwned cs (step c t) grants (step-IsWellFormed c t w) (step-AreOwned c t grant w o)
