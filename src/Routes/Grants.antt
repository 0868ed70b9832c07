-- ===== src/Routes/Grants.antt =====
-- `RoutingTable::install` of crates/tuyau-server/src/routes.rs over all the hosts of a grant.
use tuyau.Prelude.{
  ℕ, ◌≡◌, refl, sym, ap, ◌∙◌, subst, ◌⊎◌, inl, inr, List, [], ◌∷◌, ◌++◌, Option, none, some,
  if◌then◌else◌, ◌==◌, text_eq, ==_eq, Bool-cases, Has, Has-append, append-nil, map,
}
use tuyau.Prelude.Texts.{Text}
use tuyau.Prelude.Dict.{Dict, get, insert, get-insert}
use tuyau.Protocol.Frame.{TlsMode}
use tuyau.Config.{Balance, last_write_wins, round_robin}
use tuyau.Routes.{HostRoutes, RoutingTable, install_entry, install_all, install}
use tuyau.Routes.Install.{
  IsGranted, conns_of, install_entry-IsGranted, install_entry-keeps, install_entry-round_robin,
  install_entry-last_write, OwnedBy,
}

-- The mode that a grant gives a host: the last pair counts.
abbrev pub granted_mode : Text → List (Text × TlsMode) → Option TlsMode → Option TlsMode
granted_mode h [] found = found
granted_mode h ((host, mode) ∷ hosts) found =
    granted_mode h hosts (if host == h then some mode else found)

-- The entry of a host after a grant: what `P` says of the granted mode, or as it was.
abbrev pub AfterGrant :
    (TlsMode → HostRoutes → Type 0)
    → Option HostRoutes
    → Option HostRoutes
    → Option TlsMode
    → Type 0
AfterGrant P old new none = new ≡ old
AfterGrant P old new (some mode) = (entry : HostRoutes) × (new ≡ some entry) × P mode entry

module _ (client : Text) (balance : Balance) (conn : ℕ) where
  abbrev installed :
      List (Text × TlsMode) → Dict Text HostRoutes → List ℕ → Dict Text HostRoutes × List ℕ
  installed = install_all client balance conn

  module _ (P : TlsMode → HostRoutes → Type 0)
      (each : (mode : TlsMode) (old : Option HostRoutes)
        → P mode (install_entry client balance conn mode old).0)
      (h : Text) (old : Option HostRoutes) where
    -- One round, seen from a host.
    AfterGrant-insert :
        (host : Text) (mode : TlsMode) (found : Option TlsMode) (inner : Dict Text HostRoutes)
        → AfterGrant P old (get h inner) found
        → AfterGrant P old
            (get h (insert host (install_entry client balance conn mode (get host inner)).0 inner))
            (if host == h then some mode else found)
    AfterGrant-insert host mode found inner a = elim (Bool-cases (host == h)) [
      | inl same ↦
          rw (get-insert host h _ inner, same)
            (
              (install_entry client balance conn mode (get host inner)).0,
              refl,
              each mode (get host inner),
            )
      | inr other ↦ rw (get-insert host h _ inner, other) a
    ]

    install_all-AfterGrant :
        (hosts : List (Text × TlsMode)) (found : Option TlsMode) (inner : Dict Text HostRoutes)
        (displaced : List ℕ)
        → AfterGrant P old (get h inner) found
        → AfterGrant P old (get h (installed hosts inner displaced).0) (granted_mode h hosts found)
    unfolding install_all
    install_all-AfterGrant [] found inner displaced a = a
    install_all-AfterGrant ((host, mode) ∷ hosts) found inner displaced a =
        install_all-AfterGrant hosts (if host == h then some mode else found) _ _
          (AfterGrant-insert host mode found inner a)

  -- Nothing leaves the list of displaced connections.
  install_all-displaced :
      (c : ℕ) (hosts : List (Text × TlsMode)) (inner : Dict Text HostRoutes) (displaced : List ℕ)
      → Has c displaced
      → Has c (installed hosts inner displaced).1
  unfolding install_all
  install_all-displaced c [] inner displaced h = h
  install_all-displaced c ((host, mode) ∷ hosts) inner displaced h =
      install_all-displaced c hosts _ _ ((Has-append c displaced _).1 (inl h))

  install_all-keeps :
      (h : Text) (c : ℕ) (hosts : List (Text × TlsMode)) (inner : Dict Text HostRoutes)
      (displaced : List ℕ)
      → Has c (conns_of (get h inner))
      → Has c (conns_of (get h (installed hosts inner displaced).0))
        ⊎ Has c (installed hosts inner displaced).1
  unfolding install_all
  install_all-keeps h c [] inner displaced i = inl i
  install_all-keeps h c ((host, mode) ∷ hosts) inner displaced i = elim (Bool-cases (host == h)) [
    | inl same ↦
        elim (install_entry-keeps client balance conn mode (get host inner) c
          (subst (λ k. Has c (conns_of (get k inner))) (sym (==_eq host h same)) i)) [
            | inl stays ↦ install_all-keeps h c hosts _ _ (
                rw
                  (
                    get-insert host h (install_entry client balance conn mode (get host inner)).0
                        inner,
                    same,
                  )
                  stays)
            | inr gone ↦
                inr (install_all-displaced c hosts _ _ ((Has-append c displaced _).1 (inr gone)))
          ]
    | inr other ↦ install_all-keeps h c hosts _ _ (
        rw
          (
            get-insert host h (install_entry client balance conn mode (get host inner)).0 inner,
            other,
          )
          i)
  ]

-- After a grant, each host of it belongs to the client, holds the new connection and has the
-- mode of its last pair; the entry of any other host is what it was.
pub install-AfterGrant :
    (hosts : List (Text × TlsMode)) (client : Text) (balance : Balance) (conn : ℕ)
    (t : RoutingTable) (host : Text)
    → AfterGrant
        (IsGranted client conn)
        (get host t.inner)
        (get host (install hosts client balance conn t).0.inner)
        (granted_mode host hosts none)
unfolding install
install-AfterGrant hosts client balance conn t host =
    install_all-AfterGrant client balance conn (IsGranted client conn)
      (λ mode old. install_entry-IsGranted client balance conn mode old) host (get host t.inner)
      hosts none t.inner [] refl

-- Under last-write-wins each granted host has the new connection and no other.
pub install-last_write :
    (hosts : List (Text × TlsMode)) (client : Text) (conn : ℕ) (t : RoutingTable) (host : Text)
    → AfterGrant
        (λ mode entry. entry.conns ≡ conn ∷ [])
        (get host t.inner)
        (get host (install hosts client last_write_wins conn t).0.inner)
        (granted_mode host hosts none)
unfolding install
install-last_write hosts client conn t host =
    install_all-AfterGrant client last_write_wins conn (λ mode entry. entry.conns ≡ conn ∷ [])
      (λ mode old. install_entry-last_write client conn mode old) host (get host t.inner) hosts none
      t.inner [] refl

-- A connection that served a host before a grant serves it afterwards, or is among those that
-- the caller closes: none is lost without being closed.
pub install-keeps :
    (hosts : List (Text × TlsMode)) (client : Text) (balance : Balance) (conn : ℕ)
    (t : RoutingTable) (host : Text) (c : ℕ)
    → Has c (conns_of (get host t.inner))
    → Has c (conns_of (get host (install hosts client balance conn t).0.inner))
      ⊎ Has c (install hosts client balance conn t).1
unfolding install
install-keeps hosts client balance conn t host c =
    install_all-keeps client balance conn host c hosts t.inner []

install_all-round_robin :
    (client : Text) (conn : ℕ) (hosts : List (Text × TlsMode)) (inner : Dict Text HostRoutes)
    (displaced : List ℕ)
    → ((host : Text) → Has host (map (λ p. p.0) hosts) → OwnedBy client (get host inner))
    → (install_all client round_robin conn hosts inner displaced).1 ≡ displaced
unfolding install_all
install_all-round_robin client conn [] inner displaced o = refl
install_all-round_robin client conn ((host, mode) ∷ hosts) inner displaced o =
    let none_left =
      install_entry-round_robin client conn mode (get host inner) (o host (inl refl)) in
    install_all-round_robin client conn hosts _ _ owned
    ∙ ap (◌++◌ displaced) none_left
    ∙ append-nil displaced
  where
    entry : HostRoutes
    entry = (install_entry client round_robin conn mode (get host inner)).0

    owned :
        (h : Text) → Has h (map (λ p. p.0) hosts) → OwnedBy client (get h (insert host entry inner))
    owned h i = rw (get-insert host h entry inner) (elim (Bool-cases (host == h)) [
      | inl same ↦
          rw same (install_entry-IsGranted client round_robin conn mode (get host inner)).owner
      | inr other ↦ rw other (o h (inr i))
    ])

-- Under round-robin a grant displaces no connection, if no other client owns a host of it.
pub install-round_robin :
    (hosts : List (Text × TlsMode)) (client : Text) (conn : ℕ) (t : RoutingTable)
    → ((host : Text) → Has host (map (λ p. p.0) hosts) → OwnedBy client (get host t.inner))
    → (install hosts client round_robin conn t).1 ≡ []
unfolding install
install-round_robin hosts client conn t o = install_all-round_robin client conn hosts t.inner [] o
