-- ===== src/Config/Checks.antt =====
-- What each check of `ServerConfig::validate` of crates/tuyau-server/src/config.rs accepts.
use tuyau.Prelude.{
  ◌≡◌, refl, sym, ap, ◌∙◌, subst, ◌↔◌, ◌⊎◌, inl, inr, ◌≢◌, Bool, true, false, ◌||◌, [], ◌∷◌, ◌++◌,
  map, Option, none, some, arith, ◌==◌, text_eq, nat_eq, ==_eq, text_beq_iff, is_some, contains,
  contains_iff, Has, ok, reject, Bool-cases, Option-cases,
}
use tuyau.Prelude.Texts.{Text, bytes, strip_prefix, strip_prefix_append, strip_prefix-eq-some}
use tuyau.Net.{SocketAddr}
use tuyau.Protocol.Frame.{terminated, tls_offload, passthrough, TlsMode}
use tuyau.Config
use mathlib.Core.Bool.{false≢true}

-- A name has a character, and no `*`.
abbrev IsName : Text → Type 0
IsName s = (s ≢ []) × ¬ Has b'*' s

-- `*`, `name` or `*.name`.
abbrev pub IsPattern : Text → Type 0
IsPattern s =
    (s ≡ bytes "*") ⊎ ((name : Text) × IsName name × ((s ≡ name) ⊎ (s ≡ bytes "*." ++ name)))

-- Exactly one target.
abbrev pub HasOneTarget : Config.UpstreamEntry → Type 0
HasOneTarget u =
    ((a : SocketAddr) × (u.local_addr ≡ some a) × (u.local_socket ≡ none))
    ⊎ ((p : Text) × (u.local_socket ≡ some p) × (u.local_addr ≡ none))

-- A cert with its key in a terminating mode, or neither.
abbrev pub HasCertPair : Config.HostCert → Type 0
HasCertPair c =
    ((c.cert ≡ none) × (c.key ≡ none))
    ⊎ ((p : Text) × (q : Text) × (c.cert ≡ some p) × (c.key ≡ some q) × (c.mode ≢ passthrough))

abbrev pub HasMailto : Option Config.AcmeSection → Type 0
HasMailto none = Unit
HasMailto (some acme) = (rest : Text) × (acme.contact ≡ bytes "mailto:" ++ rest)

one_target :
    (a : Option SocketAddr) (b : Option Text)
    → (Config.same (is_some a) (is_some b) ≡ false)
      ↔ (((x : SocketAddr) × (a ≡ some x) × (b ≡ none)) ⊎ ((p : Text) × (b ≡ some p) × (a ≡ none)))
one_target none none = ground arith
one_target none (some p) = (λ _. inr (p, refl, refl), λ _. refl)
one_target (some x) none = (λ _. inl (x, refl, refl), λ _. refl)
one_target (some x) (some p) = ground arith

pub reject_iff : (b : Bool) (e : Config.ConfigError) → (reject b e ≡ ok tt) ↔ (b ≡ false)
reject_iff true e = ground arith
reject_iff false e = (λ _. refl, λ _. refl)

pub validate_target_iff :
    (u : Config.UpstreamEntry) → (Config.validate_target u ≡ ok tt) ↔ HasOneTarget u
unfolding Config.validate_target
validate_target_iff u =
    let (to, from) = reject_iff (Config.same (is_some u.local_addr) (is_some u.local_socket)) _ in
    let (split, join) = one_target u.local_addr u.local_socket in
    (λ h. split (to h), λ h. from (join h))

cert_pair :
    (host : Text) (cert key : Option Text) (mode : TlsMode)
    → (Config.validate_host_cert (record { host = host; mode = mode; cert = cert; key = key })
        ≡ ok tt)
      ↔ HasCertPair (record { host = host; mode = mode; cert = cert; key = key })
unfolding Config.validate_host_cert
cert_pair host none none mode = (λ _. inl (refl, refl), λ _. refl)
cert_pair host none (some q) mode = ground arith
cert_pair host (some p) none mode = ground arith
cert_pair host (some p) (some q) terminated = (λ _. inr (p, q, refl, refl, ground arith), λ _. refl)
cert_pair host (some p) (some q) tls_offload =
    (λ _. inr (p, q, refl, refl, ground arith), λ _. refl)
cert_pair host (some p) (some q) passthrough = ground arith

mailto_iff : (a : Option Config.AcmeSection) → (Config.validate_contact a ≡ ok tt) ↔ HasMailto a
unfolding Config.validate_contact
mailto_iff none = (λ _. tt, λ _. refl)
mailto_iff (some acme) = elim (Option-cases (strip_prefix (bytes "mailto:") acme.contact)) [
  | inl e ↦ rw e (
    λ h. absurd (ground arith),
    λ h. absurd (
        ground (
          arith,
          e,
          strip_prefix_append (bytes "mailto:") h.0,
          ap (strip_prefix (bytes "mailto:")) h.1,
        )),
  )
  | inr (rest, e) ↦
      rw e (λ _. (rest, strip_prefix-eq-some (bytes "mailto:") acme.contact e), λ _. refl)
]

pub validate_host_cert_iff :
    (c : Config.HostCert) → (Config.validate_host_cert c ≡ ok tt) ↔ HasCertPair c
validate_host_cert_iff c = cert_pair c.host c.cert c.key c.mode

pub validate_acme_iff :
    (cfg : Config.ServerConfig) → (Config.validate_acme cfg ≡ ok tt) ↔ HasMailto cfg.acme
unfolding Config.validate_acme
validate_acme_iff cfg = mailto_iff cfg.acme

pub validate_client_iff :
    (cfg : Config.ServerConfig) (h : Config.HostnameEntry)
    → (Config.validate_client cfg h ≡ ok tt) ↔ Has h.client (map (λ c. c.name) cfg.clients)
unfolding Config.validate_client
validate_client_iff cfg h =
    ground (arith, contains_iff (map (λ (c : Config.ClientEntry). c.name) cfg.clients) h.client)

pub validate_hostname_pattern_iff :
    (h : Config.HostnameEntry) → (Config.validate_hostname_pattern h ≡ ok tt) ↔ (¬ Has b'*' h.host)
unfolding Config.validate_hostname_pattern
validate_hostname_pattern_iff h = ground (arith, contains_iff h.host b'*')

IsName-iff : (s : Text) → ((Config.is_empty s || contains s b'*') ≡ false) ↔ IsName s
IsName-iff [] = ground arith
IsName-iff (b ∷ s) = ground (arith, contains_iff (b ∷ s) b'*')

bare_name_iff : (host : Text) → host ≢ bytes "*" → IsName (Config.bare_name host) ↔ IsPattern host
bare_name_iff host other = elim (Option-cases (strip_prefix (bytes "*.") host)) [
  | inl e ↦
      rw (e, Config.bare_name)
        (
          λ n. inr (host, n, inl refl),
          elim [
            | inl star ↦ absurd (other star)
            | inr (name, n, inl same) ↦ rw same n
            | inr (name, n, inr wild) ↦ absurd (
                ground (
                  arith,
                  e,
                  strip_prefix_append (bytes "*.") name,
                  ap (strip_prefix (bytes "*.")) wild,
                ))
          ],
        )
  | inr (rest, e) ↦
      rw (e, Config.bare_name)
        (
          λ n. inr (rest, n, inr (strip_prefix-eq-some (bytes "*.") host e)),
          elim [
            | inl star ↦ absurd (other star)
            | inr (name, n, inl same) ↦ absurd (
                n.1 (
                  subst (Has b'*') (sym (strip_prefix-eq-some (bytes "*.") host e) ∙ same)
                    (inl refl)))
            | inr (name, n, inr wild) ↦
                let found : some rest ≡ some name =
                  sym e
                  ∙ ap (strip_prefix (bytes "*.")) wild
                  ∙ strip_prefix_append (bytes "*.") name in
                let same : rest ≡ name = cc found in rw same n
          ],
        )
]

pub validate_upstream_pattern_iff :
    (u : Config.UpstreamEntry) → (Config.validate_upstream_pattern u ≡ ok tt) ↔ IsPattern u.host
unfolding Config.validate_upstream_pattern
validate_upstream_pattern_iff u = elim (Bool-cases (u.host == bytes "*")) [
  | inl star ↦ rw star (λ _. inl (==_eq u.host (bytes "*") star), λ _. refl)
  | inr other ↦
      let bare =
        bare_name_iff u.host
          (λ e. absurd (false≢true (sym other ∙ (text_beq_iff u.host (bytes "*")).1 e))) in
      let name = IsName-iff (Config.bare_name u.host) in
      let rejects =
        reject_iff
          (Config.is_empty (Config.bare_name u.host) || contains (Config.bare_name u.host) b'*')
          _ in
      rw other (λ h. bare.0 (name.0 (rejects.0 h)), λ h. rejects.1 (name.1 (bare.1 h)))
]
