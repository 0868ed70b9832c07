-- ===== src/Routes/Fairness.antt =====
-- `RoutingTable::lookup` of crates/tuyau-server/src/routes.rs for the host of a tunnel: which
-- connection a lookup gives, and how successive lookups share the connections.
use tuyau.Prelude.{
  ==_refl, ℕ, zero, suc, ◌+◌, ◌%◌, ◌≤◌, ◌<◌, ◌≡◌, refl, ap, ◌∙◌, Bool, true, List, [], ◌∷◌, ◌++◌,
  map, Option, none, some, arith, text_eq, length, get_elem?, take, Has, get_elem?-Has,
}
use native.Mathlib.Nat.{mod-lt}
use tuyau.Prelude.Texts.{Text, to_ascii_lowercase}
use tuyau.Prelude.Dict.{get, insert, get-insert}
use tuyau.Routes.{
  Route, HostRoutes, RoutingTable, pick, usize_mod, upstream_of, wildcard_upstream, lookup,
  lookup_tunnel, lookup_entry, route_from, route_of,
}
use tuyau.Routes.Rotation.{
  find, rotate, pick-find, pick_step, drop-cons, others, rotate-here, rotate-mod, take-others,
  take_all, length-rotate,
}

-- A host of a tunnel: no upstream takes it, and it has connections.
pub record IsServed (host : Text) (entry : HostRoutes) (t : RoutingTable) : Type 0 where
  pub no_upstream : upstream_of t (to_ascii_lowercase host) ≡ none
  pub listed : get host t.inner ≡ some entry
  pub connected : 0 < length entry.conns

module _ (is_open : ℕ → Bool) (host : Text) (entry : HostRoutes) (t : RoutingTable)
    (s : IsServed host entry t) where
  lookup-served : lookup is_open host t ≡ lookup_entry (some entry) is_open host t
  unfolding lookup lookup_tunnel route_from
  lookup-served = rw (s.no_upstream, s.listed)

  -- A lookup of a host with connections that no upstream takes tries them from the cursor on and
  -- round, and gives the first that is open; it gives none if all are closed. The cursor must not
  -- wrap in the meantime.
  pub lookup-find :
      entry.cursor + length entry.conns ≤ usize_mod
      → (lookup is_open host t).1
        ≡ route_of entry (find is_open (rotate (entry.cursor % length entry.conns) entry.conns))
  unfolding lookup_entry
  lookup-find m =
      rw lookup-served
        (ap (route_of entry) (pick-find is_open entry.conns entry.cursor s.connected m))

-- The table with another entry for a host.
abbrev with_entry : Text → HostRoutes → RoutingTable → RoutingTable
with_entry host entry t = record t { inner = insert host entry t.inner }

upstream_of-with_entry :
    (host name : Text) (entry : HostRoutes) (t : RoutingTable)
    → upstream_of t name ≡ none
    → upstream_of (with_entry host entry t) name ≡ none
unfolding upstream_of wildcard_upstream
upstream_of-with_entry host name entry t h = ground (arith, get-insert host name entry t.inner)

with_entry-IsServed :
    (host : Text) (old entry : HostRoutes) (t : RoutingTable)
    → IsServed host old t
    → 0 < length entry.conns
    → IsServed host entry (with_entry host entry t)
with_entry-IsServed host old entry t s h = record {
  no_upstream = upstream_of-with_entry host (to_ascii_lowercase host) entry t s.no_upstream;
  listed = rw (get-insert host host entry t.inner, ==_refl host);
  connected = h;
}

-- The routes that a number of lookups give, one after the other.
pub serve : (ℕ → Bool) → Text → ℕ → RoutingTable → List (Option Route)
serve is_open host zero t = []
serve is_open host (suc k) t =
    let (after, route) = lookup is_open host t in route ∷ serve is_open host k after

pick-now :
    (is_open : ℕ → Bool) (conns : List ℕ) (n rounds cursor x : ℕ)
    → 0 < rounds
    → get_elem? conns (cursor % n) ≡ some x
    → is_open x ≡ true
    → pick is_open conns n rounds cursor ≡ ((cursor + 1) % usize_mod, some x)
pick-now is_open conns n zero cursor x h found live = absurd (omega arith)
pick-now is_open conns n (suc rounds) cursor x h found live =
    pick_step is_open conns n rounds cursor x found ∙ rw live refl

module _ (is_open : ℕ → Bool) (host : Text) where
  -- The entry after one lookup that finds its connection open.
  abbrev advanced : HostRoutes → HostRoutes
  advanced entry = record entry { cursor = (entry.cursor + 1) % usize_mod }

  lookup-step :
      (entry : HostRoutes) (t : RoutingTable) (x : ℕ)
      → IsServed host entry t
      → get_elem? entry.conns (entry.cursor % length entry.conns) ≡ some x
      → is_open x ≡ true
      → lookup is_open host t ≡ (with_entry host (advanced entry) t, route_of entry (some x))
  unfolding lookup_entry
  lookup-step entry t x s found live = rw (
    lookup-served is_open host entry t s,
    pick-now is_open entry.conns (length entry.conns) (length entry.conns) entry.cursor x
        s.connected found live,
  )

  -- The routes to some connections of an entry.
  abbrev pub routes_to : HostRoutes → List ℕ → List (Option Route)
  routes_to entry conns = map (λ c. route_of entry (some c)) conns

  serve-rest :
      (rounds x : ℕ) (entry : HostRoutes) (t : RoutingTable)
      → 0 < length entry.conns
      → take (suc (entry.cursor % length entry.conns)) entry.conns
        ≡ take (entry.cursor % length entry.conns) entry.conns ++ x ∷ []
      → suc rounds ≤ length entry.conns
      → entry.cursor + suc rounds ≤ usize_mod
      → serve is_open host rounds t
        ≡ routes_to entry (
            take rounds
              (rotate (((entry.cursor + 1) % usize_mod) % length entry.conns) entry.conns))
      → serve is_open host rounds t
        ≡ routes_to entry (take rounds (others (entry.cursor % length entry.conns) entry.conns))
  serve-rest zero x entry t h taken k m ih = ih
  serve-rest (suc rounds) x entry t h taken k m ih =
      let same : (entry.cursor + 1) % usize_mod ≡ entry.cursor + 1 = omega arith in
      ih
      ∙ ap (λ c. routes_to entry (take (suc rounds) (rotate (c % length entry.conns) entry.conns)))
          same
      ∙ ap (λ l. routes_to entry (take (suc rounds) l))
          (rotate-mod entry.cursor x entry.conns h taken)
      ∙ ap (routes_to entry) (
          take-others (suc rounds) (entry.cursor % length entry.conns) x entry.conns
            (mod-lt entry.cursor h) k)

  serve-rounds :
      (rounds : ℕ) (entry : HostRoutes) (t : RoutingTable)
      → IsServed host entry t
      → ((c : ℕ) → Has c entry.conns → is_open c ≡ true)
      → rounds ≤ length entry.conns
      → entry.cursor + rounds ≤ usize_mod
      → serve is_open host rounds t
        ≡ routes_to entry (take rounds (rotate (entry.cursor % length entry.conns) entry.conns))
  unfolding serve route_of
  serve-rounds zero entry t s live k m = refl
  serve-rounds (suc rounds) entry t s live k m =
      let (x, found, dropped, taken) =
        drop-cons (entry.cursor % length entry.conns) entry.conns
          (mod-lt entry.cursor s.connected) in
      let next = with_entry host (advanced entry) t in
      let ih =
        serve-rounds rounds (advanced entry) next
          (with_entry-IsServed host entry (advanced entry) t s s.connected) live (omega arith)
          (omega arith) in
      rw
        (
          lookup-step entry t x s found (live x (get_elem?-Has _ entry.conns found)),
          rotate-here (entry.cursor % length entry.conns) x entry.conns dropped,
        )
        (ap (◌∷◌ (route_of entry (some x)))
          (serve-rest rounds x entry next s.connected taken k m ih))

  -- Round-robin, for a host with connections that no upstream takes: over as many lookups as it
  -- has connections, all of them open, each connection is given once, from the cursor on and
  -- round, if the cursor does not wrap in the meantime.
  pub serve-rotate :
      (entry : HostRoutes) (t : RoutingTable)
      → IsServed host entry t
      → ((c : ℕ) → Has c entry.conns → is_open c ≡ true)
      → entry.cursor + length entry.conns ≤ usize_mod
      → serve is_open host (length entry.conns) t
        ≡ routes_to entry (rotate (entry.cursor % length entry.conns) entry.conns)
  serve-rotate entry t s live m =
      serve-rounds (length entry.conns) entry t s live (omega arith) m
      ∙ ap (routes_to entry) (
          take_all (rotate (entry.cursor % length entry.conns) entry.conns) (length entry.conns)
            (omega (arith, length-rotate (entry.cursor % length entry.conns) entry.conns)))
