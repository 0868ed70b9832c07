-- ===== src/Routes/Removal.antt =====
-- `remove_conn` and `kick` of crates/tuyau-server/src/routes.rs: what they take out of the table.
use tuyau.Prelude.{
  ℕ, ◌≡◌, refl, sym, ◌∙◌, subst, ◌≢◌, ◌↔◌, ◌⊎◌, inl, inr, true, not, List, [], ◌∷◌, ◌++◌, Option,
  none, some, arith, if◌then◌else◌, ◌==◌, text_eq, nat_eq, text_beq_iff, ==_eq, ==_refl, Bool-cases,
  Has, Has-append, Has-retain, Unique, Unique-concat, retain, contains, contains_iff,
}
use mathlib.Core.Bool.{false≢true}
use tuyau.Prelude.Texts.{Text}
use tuyau.Prelude.Dict.{Dict, get, get-retain_values, kept, UniqueKeys}
use tuyau.Routes.{
  HostRoutes, RoutingTable, drop_conn, remove_conn, drop_client, add_unseen, kicked, kick,
}
use tuyau.Routes.Install.{conns_of}

other_iff : (c id : ℕ) → (not (c == id) ≡ true) ↔ (c ≢ id)
other_iff c id = ground (arith, nat_eq.beq_iff c id)

conns_of-kept :
    (id : ℕ) (old : Option HostRoutes)
    → conns_of (kept (drop_conn id) old) ≡ retain (λ c. not (c == id)) (conns_of old)
unfolding drop_conn retain
conns_of-kept id none = refl
conns_of-kept id (some entry) = left (retain (λ c. not (c == id)) entry.conns)
  where
    left :
        (cs : List ℕ)
        → conns_of (elim cs [ [] ↦ none | c ∷ rest ↦ some (record entry { conns = c ∷ rest }) ])
          ≡ cs
    left [] = refl
    left (c ∷ cs) = refl

-- In a table with each host once: after `remove_conn` a host has exactly the connections that it
-- had, without the removed one.
pub remove_conn_iff :
    (id : ℕ) (t : RoutingTable) (host : Text) (c : ℕ)
    → UniqueKeys t.inner
    → Has c (conns_of (get host (remove_conn id t).inner))
      ↔ (Has c (conns_of (get host t.inner)) × (c ≢ id))
unfolding remove_conn
remove_conn_iff id t host c u =
    rw (get-retain_values (drop_conn id) host t.inner u, conns_of-kept id (get host t.inner))
      (let (to, from) = Has-retain (λ c. not (c == id)) c (conns_of (get host t.inner)) in
        let (other, is_other) = other_iff c id in
        (λ h. ((to h).0, other (to h).1), λ (h, ne). from (h, is_other ne)))

-- A client's entries are gone after `kick`; the other entries are what they were.
abbrev pub WithoutClient : Text → Option HostRoutes → Option HostRoutes → Type 0
WithoutClient client none new = new ≡ none
WithoutClient client (some entry) new =
    ((entry.client_name ≡ client) × (new ≡ none))
    ⊎ ((entry.client_name ≢ client) × (new ≡ some entry))

kept-WithoutClient :
    (client : Text) (old : Option HostRoutes)
    → WithoutClient client old (kept (drop_client client) old)
unfolding drop_client
kept-WithoutClient client none = refl
kept-WithoutClient client (some entry) = elim (Bool-cases (entry.client_name == client)) [
  | inl same ↦ rw same (inl (==_eq _ _ same, refl))
  | inr other ↦
      rw other
        (inr (λ e. false≢true (sym other ∙ (text_beq_iff entry.client_name client).1 e), refl))
]

add_unseen_iff : (c : ℕ) (seen cs : List ℕ) → Has c (add_unseen seen cs) ↔ (Has c seen ⊎ Has c cs)
unfolding add_unseen
add_unseen_iff c seen [] = (λ h. inl h, elim [ inl h ↦ h | inr h ↦ elim h [ ] ])
add_unseen_iff c seen (d ∷ cs) = elim (Bool-cases (contains seen d)) [
  | inl old ↦ rw old (
      let (to, from) = add_unseen_iff c seen cs in
      (
        λ h. elim (to h) [ inl s ↦ inl s | inr t ↦ inr (inr t) ],
        elim [
          | inl s ↦ from (inl s)
          | inr (inl e) ↦ from (inl (subst (λ x. Has x seen) e ((contains_iff seen d).0 old)))
          | inr (inr t) ↦ from (inr t)
        ],
      ))
  | inr new ↦ rw new (
      let (to, from) = add_unseen_iff c (seen ++ d ∷ []) cs in
      let (split, join) = Has-append c seen (d ∷ []) in
      (
        λ h. elim (to h) [
          | inl s ↦ elim (split s) [
            | inl i ↦ inl i
            | inr (inl e) ↦ inr (inl e)
            | inr (inr i) ↦ elim i [ ]
          ]
          | inr t ↦ inr (inr t)
        ],
        elim [
          | inl s ↦ from (inl (join (inl s)))
          | inr (inl e) ↦ from (inl (join (inr (inl e))))
          | inr (inr t) ↦ from (inr t)
        ],
      ))
]

add_unseen-Unique : (seen cs : List ℕ) → Unique seen → Unique (add_unseen seen cs)
unfolding add_unseen
add_unseen-Unique seen [] u = u
add_unseen-Unique seen (d ∷ cs) u = elim (Bool-cases (contains seen d)) [
  | inl old ↦ rw old (add_unseen-Unique seen cs u)
  | inr new ↦ rw new (
      add_unseen-Unique (seen ++ d ∷ []) cs
        (Unique-concat seen d u λ h. false≢true (sym new ∙ (contains_iff seen d).1 h)))
]

-- One round of the loop of `kick`.
abbrev kicked_next : Text → List ℕ → HostRoutes → List ℕ
kicked_next client seen entry =
    if entry.client_name == client then add_unseen seen entry.conns else seen

kicked-Unique :
    (client : Text) (seen : List ℕ) (m : Dict Text HostRoutes)
    → Unique seen
    → Unique (kicked client seen m)
unfolding kicked
kicked-Unique client seen [] u = u
kicked-Unique client seen ((host, entry) ∷ m) u =
    kicked-Unique client (kicked_next client seen entry) m
      (elim (Bool-cases (entry.client_name == client)) [
        | inl same ↦ rw same (add_unseen-Unique seen entry.conns u)
        | inr other ↦ rw other u
      ])

-- A connection of one of the entries of the client, by its place in the map.
abbrev Holds : Text → ℕ → Dict Text HostRoutes → Type 0
Holds client c [] = ⊥
Holds client c ((host, entry) ∷ m) =
    ((entry.client_name ≡ client) × Has c entry.conns) ⊎ Holds client c m

kicked_next_iff :
    (client : Text) (c : ℕ) (seen : List ℕ) (entry : HostRoutes)
    → Has c (kicked_next client seen entry)
      ↔ (Has c seen ⊎ ((entry.client_name ≡ client) × Has c entry.conns))
kicked_next_iff client c seen entry = elim (Bool-cases (entry.client_name == client)) [
  | inl same ↦ rw same (
      let (to, from) = add_unseen_iff c seen entry.conns in
      (
        λ h. elim (to h) [ inl s ↦ inl s | inr i ↦ inr (==_eq _ _ same, i) ],
        elim [ inl s ↦ from (inl s) | inr (e, i) ↦ from (inr i) ],
      ))
  | inr other ↦ rw other (
    λ h. inl h,
    elim [
      | inl s ↦ s
      | inr (e, i) ↦ absurd (false≢true (sym other ∙ (text_beq_iff entry.client_name client).1 e))
    ],
  )
]

kicked_iff :
    (client : Text) (c : ℕ) (seen : List ℕ) (m : Dict Text HostRoutes)
    → Has c (kicked client seen m) ↔ (Has c seen ⊎ Holds client c m)
unfolding kicked
kicked_iff client c seen [] = (λ h. inl h, elim [ inl h ↦ h | inr h ↦ absurd h ])
kicked_iff client c seen ((host, entry) ∷ m) =
    let (to, from) = kicked_iff client c (kicked_next client seen entry) m in
    let (split, join) = kicked_next_iff client c seen entry in
    (
      λ h. elim (to h) [
        | inl s ↦ elim (split s) [ inl i ↦ inl i | inr i ↦ inr (inl i) ]
        | inr i ↦ inr (inr i)
      ],
      elim [
        | inl s ↦ from (inl (join (inl s)))
        | inr (inl i) ↦ from (inl (join (inr i)))
        | inr (inr i) ↦ from (inr i)
      ],
    )

-- A connection of an entry of the client.
abbrev pub IsOwned : Text → ℕ → Dict Text HostRoutes → Type 0
IsOwned client c inner =
    (host : Text) × (entry : HostRoutes) × (get host inner ≡ some entry)
    × (entry.client_name ≡ client)
    × Has c entry.conns

Holds→IsOwned :
    (client : Text) (c : ℕ) (m : Dict Text HostRoutes)
    → UniqueKeys m
    → Holds client c m
    → IsOwned client c m
unfolding get
Holds→IsOwned client c [] u h = absurd h
Holds→IsOwned client c ((host, entry) ∷ m) u (inl (e, i)) = (host, entry, rw (==_refl host), e, i)
Holds→IsOwned client c ((host, entry) ∷ m) u (inr h) =
    let (host', entry', found, e, i) = Holds→IsOwned client c m u.1 h in
    (
      host',
      entry',
      elim (Bool-cases (host == host')) [
        | inl same ↦
            absurd
              (none_some (sym (subst (λ k. get k m ≡ none) (==_eq host host' same) u.0) ∙ found))
        | inr other ↦ rw other found
      ],
      e,
      i,
    )
  where
    none_some : {entry' : HostRoutes} → none ≡ some entry' → ⊥
    none_some h = cc

IsOwned→Holds :
    (client : Text) (c : ℕ) (m : Dict Text HostRoutes) (host : Text) (entry : HostRoutes)
    → get host m ≡ some entry
    → entry.client_name ≡ client
    → Has c entry.conns
    → Holds client c m
unfolding get
IsOwned→Holds client c [] host entry found e i = absurd (ground arith)
IsOwned→Holds client c ((h, other) ∷ m) host entry found e i = elim (Bool-cases (h == host)) [
  | inl same ↦
      let this : other ≡ entry = ground arith in
      inl (subst (λ r. (r.client_name ≡ client) × Has c r.conns) (sym this) (e, i))
  | inr different ↦ inr (IsOwned→Holds client c m host entry (rw different at found) e i)
]

-- In a table with each host once: `kick` gives each connection of the client once, and nothing
-- else; afterwards the client owns no host, and the entries of the other clients are what they
-- were.
pub kick_lem :
    (client : Text) (t : RoutingTable)
    → UniqueKeys t.inner
    → Unique (kick client t).1
      × ((c : ℕ) → Has c (kick client t).1 ↔ IsOwned client c t.inner)
      × ((host : Text) → WithoutClient client (get host t.inner) (get host (kick client t).0.inner))
unfolding kick
kick_lem client t u = (
  kicked-Unique client [] t.inner tt,
  λ c.
      let (to, from) = kicked_iff client c [] t.inner in
      (
        λ h. elim (to h) [
          | inl i ↦ elim i [ ]
          | inr holds ↦ Holds→IsOwned client c t.inner u holds
        ],
        λ (host, entry, found, e, i).
            from (inr (IsOwned→Holds client c t.inner host entry found e i)),
      ),
  λ host.
      rw (get-retain_values (drop_client client) host t.inner u)
        (kept-WithoutClient client (get host t.inner)),
)
