-- ===== src/Backend/Admit.antt =====
-- Whom `StaticBackend::admit` of crates/tuyau-server/src/backend.rs admits, and with which hosts.
use tuyau.Prelude.{
  ℕ, ◌≡◌, refl, sym, ap, ◌∙◌, subst, ◌≢◌, ◌↔◌, ◌⊎◌, inl, inr, List, [], ◌∷◌, ◌++◌, map, Option,
  none, some, arith, if◌then◌else◌, ◌==◌, text_eq, text_beq_iff, ==_eq, Bool-cases, Has, Has-append,
  Has-map, Has-retain, Unique, All, retain, ok,
}
use mathlib.Core.Bool.{false≢true}
use tuyau.Prelude.Texts.{Text}
use tuyau.Protocol.Frame.{TlsMode}
use tuyau.Config.{ClientEntry, HostnameEntry, ServerConfig, validate}
use tuyau.Config.Validate.{validate_iff}
use tuyau.Backend.{ClientGrant, StaticBackend, from_config, match_token, granted, grant_of, admit}

-- The entry is the last of a list that has the token.
pub record IsLastMatch (token : List ℕ) (client : ClientEntry) (cs : List ClientEntry)
    : Type 0 where
  pub before : List ClientEntry
  pub behind : List ClientEntry
  pub place : cs ≡ before ++ client ∷ behind
  pub matches : token ≡ client.token
  pub last : All (λ c. token ≢ c.token) behind

-- What the loop gives from `matched` on: the last match, or `matched` if nothing matches.
abbrev Matched : List ℕ → Option ClientEntry → List ClientEntry → Option ClientEntry → Type 0
Matched token matched cs none = (matched ≡ none) × All (λ c. token ≢ c.token) cs
Matched token matched cs (some client) =
    IsLastMatch token client cs ⊎ ((matched ≡ some client) × All (λ c. token ≢ c.token) cs)

Matched-cons :
    (token : List ℕ) (matched : Option ClientEntry) (c : ClientEntry) (cs : List ClientEntry)
    (out : Option ClientEntry)
    → Matched token (if token == c.token then some c else matched) cs out
    → Matched token matched (c ∷ cs) out
Matched-cons token matched c cs none m = elim (Bool-cases (token == c.token)) [
  | inl same ↦ absurd (some_none (sym (ap (λ b. if b then some c else matched) same) ∙ m.0))
  | inr other ↦ (
    sym (ap (λ b. if b then some c else matched) other) ∙ m.0,
    ((λ e. false≢true (sym other ∙ (text_beq_iff token c.token).1 e)), m.1),
  )
]
  where
    some_none : some c ≡ none → ⊥
    some_none h = cc
Matched-cons token matched c cs (some client) (inl l) = inl (record {
  before = c ∷ l.before;
  behind = l.behind;
  place = ap (◌∷◌ c) l.place;
  matches = l.matches;
  last = l.last;
})
Matched-cons token matched c cs (some client) (inr (e, rest)) =
    elim (Bool-cases (token == c.token)) [
      | inl same ↦
          let this : some c ≡ some client =
            sym (ap (λ b. if b then some c else matched) same) ∙ e in
          let equal : c ≡ client = cc this in
          inl (record {
            before = [];
            behind = cs;
            place = ap (λ x. x ∷ cs) equal;
            matches = ==_eq token c.token same ∙ ap (λ (x : ClientEntry). x.token) equal;
            last = rest;
          })
      | inr other ↦ inr (
        sym (ap (λ b. if b then some c else matched) other) ∙ e,
        ((λ same. false≢true (sym other ∙ (text_beq_iff token c.token).1 same)), rest),
      )
    ]

match_token-Matched :
    (token : List ℕ) (matched : Option ClientEntry) (cs : List ClientEntry)
    → Matched token matched cs (match_token token matched cs)
unfolding match_token
match_token-Matched token none [] = (refl, tt)
match_token-Matched token (some m) [] = inr (refl, tt)
match_token-Matched token matched (c ∷ cs) =
    Matched-cons token matched c cs _
      (match_token-Matched token (if token == c.token then some c else matched) cs)

-- What the outcome of `admit` says.
abbrev pub Admits : StaticBackend → List ℕ → Option ClientGrant → Type 0
Admits b token none = All (λ c. token ≢ c.token) b.clients
Admits b token (some g) =
    (client : ClientEntry) × IsLastMatch token client b.clients
    × (g.client_name ≡ client.name)
    × (g.balance ≡ client.balance)
    × ((p : Text × TlsMode)
        → Has p g.hostnames
          ↔ ((h : HostnameEntry) × Has h b.hostnames × (h.client ≡ client.name) × (granted h ≡ p)))

Has-map_iff :
    (p : Text × TlsMode) (hs : List HostnameEntry)
    → Has p (map granted hs) ↔ ((h : HostnameEntry) × Has h hs × (granted h ≡ p))
Has-map_iff p [] = (λ i. elim i [ ], λ (h, i, e). elim i [ ])
Has-map_iff p (h ∷ hs) =
    let (to, from) = Has-map_iff p hs in
    (
      elim [
        | inl e ↦ (h, inl refl, e)
        | inr i ↦ let (found, there, e) = to i in (found, inr there, e)
      ],
      λ (found, i, e). elim i [
        | inl same ↦ inl (ap granted same ∙ e)
        | inr there ↦ inr (from (found, there, e))
      ],
    )

grant_of-hostnames :
    (b : StaticBackend) (client : ClientEntry) (p : Text × TlsMode)
    → Has p (grant_of b client).hostnames
      ↔ ((h : HostnameEntry) × Has h b.hostnames × (h.client ≡ client.name) × (granted h ≡ p))
unfolding grant_of
grant_of-hostnames b client p =
    let (to, from) = Has-map_iff p (retain (λ h. h.client == client.name) b.hostnames) in
    (
      λ i.
          let (h, there, e) = to i in
          let (listed, owned) = (Has-retain (λ h. h.client == client.name) h b.hostnames).0 there in
          (h, listed, ==_eq h.client client.name owned, e),
      λ (h, listed, owned, e). from (
        h,
        (Has-retain (λ h. h.client == client.name) h b.hostnames).1
            (listed, (text_beq_iff h.client client.name).1 owned),
        e,
      ),
    )

-- A token is refused exactly if no client has it. Otherwise the grant is that of the last client
-- that has it: its name, its balance, and exactly the hosts that name it as their client.
pub admit-Admits : (b : StaticBackend) (token : List ℕ) → Admits b token (admit b token)
unfolding admit
admit-Admits b token =
    outcome (match_token token none b.clients) (match_token-Matched token none b.clients)
  where
    outcome :
        (m : Option ClientEntry)
        → Matched token none b.clients m
        → Admits b token (elim m [ none ↦ none | some client ↦ some (grant_of b client) ])
    outcome none h = h.1
    outcome (some client) (inl l) = (client, l, refl, refl, grant_of-hostnames b client)
    outcome (some client) (inr (e, rest)) = absurd (ground arith)

-- Host names that are unique name one entry each.
Unique-host :
    (x y : HostnameEntry) (hs : List HostnameEntry)
    → Unique (map (λ h. h.host) hs)
    → Has x hs
    → Has y hs
    → x.host ≡ y.host
    → x ≡ y
Unique-host x y (h ∷ hs) u (inl a) (inl b) e = sym a ∙ b
Unique-host x y (h ∷ hs) u (inl a) (inr j) e = absurd (
    u.0 (
      subst (λ s. Has s (map (λ h. h.host) hs)) (sym (ap (λ (z : HostnameEntry). z.host) a ∙ e))
        (Has-map (λ h. h.host) y hs j)))
Unique-host x y (h ∷ hs) u (inr i) (inl b) e = absurd (
    u.0 (
      subst (λ s. Has s (map (λ h. h.host) hs)) (e ∙ sym (ap (λ (z : HostnameEntry). z.host) b))
        (Has-map (λ h. h.host) x hs i)))
Unique-host x y (h ∷ hs) u (inr i) (inr j) e = Unique-host x y hs u.1 i j e
Unique-host x y [] u i j e = elim i [ ]

Unique-left : (xs ys : List Text) → Unique (xs ++ ys) → Unique xs
Unique-left [] ys u = tt
Unique-left (x ∷ xs) ys u = (λ h. u.0 ((Has-append x xs ys).1 (inl h)), Unique-left xs ys u.1)

grants-entry :
    (b : StaticBackend) (token : List ℕ) (g : ClientGrant) (p : Text × TlsMode)
    → admit b token ≡ some g
    → Has p g.hostnames
    → (h : HostnameEntry) × Has h b.hostnames × (h.client ≡ g.client_name) × (h.host ≡ p.0)
grants-entry b token g p e i =
    let (client, last, name, balance, hosts) = subst (Admits b token) e (admit-Admits b token) in
    let (h, listed, owned, same) = (hosts p).0 i in
    (h, listed, owned ∙ sym name, ap (λ (q : Text × TlsMode). q.0) same)

-- Under a configuration that passes the validation two tokens are never granted the same host
-- for different clients.
pub admit-exclusive :
    (cfg : ServerConfig) (token other : List ℕ) (g k : ClientGrant) (p q : Text × TlsMode)
    → validate cfg ≡ ok tt
    → admit (from_config cfg) token ≡ some g
    → admit (from_config cfg) other ≡ some k
    → Has p g.hostnames
    → Has q k.hostnames
    → p.0 ≡ q.0
    → g.client_name ≡ k.client_name
admit-exclusive cfg token other g k p q valid eg ek ip iq same =
    let (h, listed, owned, host) = grants-entry (from_config cfg) token g p eg ip in
    let (h', listed', owned', host') = grants-entry (from_config cfg) other k q ek iq in
    let unique =
      Unique-left (map (λ h. h.host) cfg.hostnames) _ ((validate_iff cfg).0 valid).hosts in
    let one = Unique-host h h' cfg.hostnames unique listed listed' (host ∙ same ∙ sym host') in
    sym owned ∙ ap (λ (z : HostnameEntry). z.client) one ∙ owned'
