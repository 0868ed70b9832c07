-- ===== src/Routes/Install.antt =====
-- `RoutingTable::install` of crates/tuyau-server/src/routes.rs: who owns a host afterwards, and
-- which connections the caller has to close.
use tuyau.Prelude.{
  ℕ, ◌≡◌, refl, sym, ◌∙◌, ◌≢◌, ◌⊎◌, inl, inr, true, not, List, [], ◌∷◌, Option, none, some, arith,
  ◌==◌, text_eq, nat_eq, text_beq_iff, ==_eq, ==_refl, ==_ne, Bool-cases, Has, Has-append,
  Has-retain, Unique, Unique-concat, any, any-Has,
}
use mathlib.Core.Bool.{false≢true}
use tuyau.Prelude.Texts.{Text}
use tuyau.Protocol.Frame.{TlsMode}
use tuyau.Config.{Balance, last_write_wins, round_robin}
use tuyau.Routes.{HostRoutes, entry_of, take_over, add_conn, install_entry}

-- What the new entry of a host is: the client owns it, it holds the connection, and its mode is
-- the one that was granted.
pub record IsGranted (client : Text) (conn : ℕ) (mode : TlsMode) (entry : HostRoutes) : Type 0 where
  pub owner : entry.client_name ≡ client
  pub holds : Has conn entry.conns
  pub tls_mode : entry.tls_mode ≡ mode

-- The connections of an entry that may be missing.
abbrev pub conns_of : Option HostRoutes → List ℕ
conns_of none = []
conns_of (some entry) = entry.conns

not_other : (c conn : ℕ) → c ≢ conn → not (c == conn) ≡ true
not_other c conn h = rw (==_ne c conn h)

module _ (conn : ℕ) (entry : HostRoutes) where
  add_conn-holds : (b : Balance) → Has conn (add_conn b conn entry).0.conns
  unfolding add_conn
  add_conn-holds last_write_wins = inl refl
  add_conn-holds round_robin = elim (Bool-cases (any (λ c. c == conn) entry.conns)) [
    | inl old ↦ rw old (any_holds entry.conns old)
    | inr new ↦ rw new ((Has-append conn entry.conns (conn ∷ [])).1 (inr (inl refl)))
  ]
    where
      any_holds : (cs : List ℕ) → any (λ c. c == conn) cs ≡ true → Has conn cs
      any_holds [] h = absurd (false≢true h)
      any_holds (c ∷ cs) h = elim (Bool-cases (c == conn)) [
        | inl same ↦ inl (==_eq c conn same)
        | inr other ↦ inr (any_holds cs (rw other at h))
      ]

  -- Each connection of the entry stays or is displaced.
  add_conn-keeps :
      (b : Balance) (c : ℕ)
      → Has c entry.conns
      → Has c (add_conn b conn entry).0.conns ⊎ Has c (add_conn b conn entry).1
  unfolding add_conn
  add_conn-keeps last_write_wins c h = elim (Bool-cases (c == conn)) [
    | inl same ↦ inl (inl (sym (==_eq c conn same)))
    | inr other ↦ inr ((Has-retain _ c entry.conns).1 (h, rw other))
  ]
  add_conn-keeps round_robin c h = elim (Bool-cases (any (λ c. c == conn) entry.conns)) [
    | inl old ↦ inl (rw old h)
    | inr new ↦ inl (rw new ((Has-append c entry.conns (conn ∷ [])).1 (inl h)))
  ]

  add_conn-Unique : (b : Balance) → Unique entry.conns → Unique (add_conn b conn entry).0.conns
  unfolding add_conn
  add_conn-Unique last_write_wins u = (λ h. elim h [ ], tt)
  add_conn-Unique round_robin u = elim (Bool-cases (any (λ c. c == conn) entry.conns)) [
    | inl old ↦ rw old u
    | inr new ↦ rw new (
        Unique-concat entry.conns conn u λ h.
          absurd
            (false≢true (sym new ∙ any-Has (λ c. c == conn) conn entry.conns h (==_refl conn))))
  ]

  add_conn-client : (b : Balance) → (add_conn b conn entry).0.client_name ≡ entry.client_name
  unfolding add_conn
  add_conn-client last_write_wins = refl
  add_conn-client round_robin = ground arith

  add_conn-mode : (b : Balance) → (add_conn b conn entry).0.tls_mode ≡ entry.tls_mode
  unfolding add_conn
  add_conn-mode last_write_wins = refl
  add_conn-mode round_robin = ground arith

module _ (client : Text) (entry : HostRoutes) where
  take_over-owner : (take_over client entry).0.client_name ≡ client
  unfolding take_over
  take_over-owner = ground (arith, text_beq_iff entry.client_name client)

  take_over-keeps :
      (c : ℕ)
      → Has c entry.conns
      → Has c (take_over client entry).0.conns ⊎ Has c (take_over client entry).1
  unfolding take_over
  take_over-keeps c h = elim (Bool-cases (entry.client_name == client)) [
    | inl same ↦ inl (rw same h)
    | inr other ↦ inr (rw other h)
  ]

  take_over-Unique : Unique entry.conns → Unique (take_over client entry).0.conns
  unfolding take_over
  take_over-Unique u = elim (Bool-cases (entry.client_name == client)) [
    | inl same ↦ rw same u
    | inr other ↦ rw other tt
  ]

module _ (client : Text) (balance : Balance) (conn : ℕ) (mode : TlsMode)
    (old : Option HostRoutes) where
  abbrev new_entry : HostRoutes
  new_entry = (install_entry client balance conn mode old).0

  abbrev owned : HostRoutes
  owned = record (take_over client (entry_of client mode old)).0 { tls_mode = mode }

  pub install_entry-IsGranted : IsGranted client conn mode new_entry
  unfolding install_entry
  install_entry-IsGranted = record {
    owner = add_conn-client conn owned balance ∙ take_over-owner client (entry_of client mode old);
    holds = add_conn-holds conn owned balance;
    tls_mode = add_conn-mode conn owned balance;
  }

  -- A connection of the old entry is in the new one, or is displaced.
  pub install_entry-keeps :
      (c : ℕ)
      → Has c (conns_of old)
      → Has c new_entry.conns ⊎ Has c (install_entry client balance conn mode old).1
  unfolding install_entry
  install_entry-keeps c h =
      elim (take_over-keeps client (entry_of client mode old) c (held old h)) [
        | inr evicted ↦ inr ((Has-append c _ _).1 (inl evicted))
        | inl stays ↦ elim (add_conn-keeps conn owned balance c stays) [
          | inl there ↦ inl there
          | inr replaced ↦ inr ((Has-append c _ _).1 (inr replaced))
        ]
      ]
    where
      held : (o : Option HostRoutes) → Has c (conns_of o) → Has c (entry_of client mode o).conns
      held none i = i
      held (some entry) i = i

  pub install_entry-Unique : Unique (conns_of old) → Unique new_entry.conns
  unfolding install_entry
  install_entry-Unique u =
      add_conn-Unique conn owned balance
        (take_over-Unique client (entry_of client mode old) (held old u))
    where
      held : (o : Option HostRoutes) → Unique (conns_of o) → Unique (entry_of client mode o).conns
      held none i = i
      held (some entry) i = i

-- The owner of an entry that may be missing.
abbrev pub OwnedBy : Text → Option HostRoutes → Type 0
OwnedBy client none = Unit
OwnedBy client (some entry) = entry.client_name ≡ client

-- Under last-write-wins only the new connection is left.
pub install_entry-last_write :
    (client : Text) (conn : ℕ) (mode : TlsMode) (old : Option HostRoutes)
    → (install_entry client last_write_wins conn mode old).0.conns ≡ conn ∷ []
unfolding install_entry
install_entry-last_write client conn mode old = refl

-- Under round-robin nothing is displaced while the owner stays.
pub install_entry-round_robin :
    (client : Text) (conn : ℕ) (mode : TlsMode) (old : Option HostRoutes)
    → OwnedBy client old
    → (install_entry client round_robin conn mode old).1 ≡ []
unfolding install_entry
install_entry-round_robin client conn mode none o = rw (==_refl client)
install_entry-round_robin client conn mode (some entry) o =
    rw ((text_beq_iff entry.client_name client).1 o)
