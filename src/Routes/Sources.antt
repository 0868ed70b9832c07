-- ===== src/Routes/Sources.antt =====
-- `install` of crates/tuyau-server/src/routes.rs: which connections can stand in the table
-- afterwards.
use tuyau.Prelude.{
  ℕ, ◌≡◌, sym, subst, ◌⊎◌, inl, inr, List, [], ◌∷◌, Option, none, some, ◌==◌, text_eq, nat_eq,
  ==_eq, Bool-cases, Has, Has-append, any,
}
use tuyau.Prelude.Texts.{Text}
use tuyau.Prelude.Dict.{Dict, get, get-insert}
use tuyau.Protocol.Frame.{TlsMode}
use tuyau.Config.{Balance, last_write_wins, round_robin}
use tuyau.Routes.{
  HostRoutes, RoutingTable, entry_of, take_over, add_conn, install_entry, install_all, install,
}
use tuyau.Routes.Install.{conns_of}

add_conn-only :
    (b : Balance) (conn c : ℕ) (entry : HostRoutes)
    → Has c (add_conn b conn entry).0.conns
    → (c ≡ conn) ⊎ Has c entry.conns
unfolding add_conn
add_conn-only last_write_wins conn c entry (inl e) = inl (sym e)
add_conn-only last_write_wins conn c entry (inr h) = elim h [ ]
add_conn-only round_robin conn c entry h = elim (Bool-cases (any (λ d. d == conn) entry.conns)) [
  | inl old ↦ inr (rw old at h)
  | inr new ↦ elim ((Has-append c entry.conns (conn ∷ [])).0 (rw new at h)) [
    | inl there ↦ inr there
    | inr (inl e) ↦ inl (sym e)
    | inr (inr n) ↦ elim n [ ]
  ]
]

take_over-only :
    (client : Text) (c : ℕ) (entry : HostRoutes)
    → Has c (take_over client entry).0.conns
    → Has c entry.conns
unfolding take_over
take_over-only client c entry h = elim (Bool-cases (entry.client_name == client)) [
  | inl same ↦ rw same at h
  | inr other ↦ elim (rw other at h) [ ]
]

module _ (client : Text) (balance : Balance) (conn : ℕ) where
  install_entry-only :
      (mode : TlsMode) (old : Option HostRoutes) (c : ℕ)
      → Has c (install_entry client balance conn mode old).0.conns
      → (c ≡ conn) ⊎ Has c (conns_of old)
  unfolding install_entry
  install_entry-only mode old c h = elim (add_conn-only balance conn c _ h) [
    | inl e ↦ inl e
    | inr there ↦ inr (was old (take_over-only client c (entry_of client mode old) there))
  ]
    where
      was : (o : Option HostRoutes) → Has c (entry_of client mode o).conns → Has c (conns_of o)
      was none i = i
      was (some entry) i = i

  install_all-only :
      (hosts : List (Text × TlsMode)) (inner : Dict Text HostRoutes) (displaced : List ℕ)
      (host : Text) (c : ℕ)
      → Has c (conns_of (get host (install_all client balance conn hosts inner displaced).0))
      → (c ≡ conn) ⊎ Has c (conns_of (get host inner))
  unfolding install_all
  install_all-only [] inner displaced host c h = inr h
  install_all-only ((name, mode) ∷ hosts) inner displaced host c h =
      elim (install_all-only hosts _ _ host c h) [
        | inl e ↦ inl e
        | inr there ↦
            let there' = subst (λ o. Has c (conns_of o)) (get-insert name host _ inner) there in
            elim (Bool-cases (name == host)) [
              | inl same ↦
                  subst (λ k. (c ≡ conn) ⊎ Has c (conns_of (get k inner))) (==_eq name host same)
                    (install_entry-only mode (get name inner) c (rw same at there'))
              | inr other ↦ inr (rw other at there')
            ]
      ]

  -- A connection of the table after an `install` is the new one, or was there before.
  pub install-only :
      (hosts : List (Text × TlsMode)) (t : RoutingTable) (host : Text) (c : ℕ)
      → Has c (conns_of (get host (install hosts client balance conn t).0.inner))
      → (c ≡ conn) ⊎ Has c (conns_of (get host t.inner))
  unfolding install
  install-only hosts t host c h = install_all-only hosts t.inner [] host c h
