-- ===== src/Config/Validate.antt =====
-- What `ServerConfig::validate` of crates/tuyau-server/src/config.rs accepts, stated without its
-- loops.
use tuyau.Prelude.{
  ◌≡◌, subst, ◌↔◌, ◌⊎◌, ◌≢◌, false, ◌&&◌, List, [], ◌∷◌, ◌++◌, map, arith, text_eq, nat_eq, Has,
  All, All-map, Unique, Result, ok, ◌>>◌, reject, >>=-eq-ok, >>-eq-ok,
}
use tuyau.Prelude.Texts.{Text}
use tuyau.Config.Loops.{
  for_each, for_each-eq-ok_iff, insert_all, insert_all-eq-ok, insert_all-of-Distinct, Distinct,
  after, Distinct-append, Distinct-Unique,
}
use tuyau.Config
use tuyau.Config.Checks.{
  IsPattern, HasOneTarget, HasCertPair, HasMailto, reject_iff, validate_target_iff,
  validate_host_cert_iff, validate_acme_iff, validate_client_iff, validate_hostname_pattern_iff,
  validate_upstream_pattern_iff,
}

-- What a static configuration has to satisfy.
pub record IsValid (cfg : Config.ServerConfig) : Type 0 where
  pub routes : (cfg.clients ≢ []) ⊎ (cfg.upstreams ≢ [])
  pub clients : Unique (map (λ c. c.name) cfg.clients)
  pub hosts : Unique (map (λ h. h.host) cfg.hostnames ++ map (λ u. u.host) cfg.upstreams)
  pub targets : All HasOneTarget cfg.upstreams
  pub names : All (λ h. ¬ Has b'*' h.host) cfg.hostnames
  pub patterns : All (λ u. IsPattern u.host) cfg.upstreams
  pub certs : All HasCertPair (Config.host_certs cfg)
  pub owners : All (λ h. Has h.client (map (λ c. c.name) cfg.clients)) cfg.hostnames
  pub contact : HasMailto cfg.acme

-- A check of every element, read element by element.
All-iff {ℓ} :
    {A : Type ℓ} {P : A → Type 0} (check : A → Result Config.ConfigError (Unit {0}))
    → ((a : A) → (check a ≡ ok tt) ↔ P a)
    → (xs : List A) → (for_each check xs ≡ ok tt) ↔ All P xs
All-iff check same xs =
    let (to, from) = for_each-eq-ok_iff check xs in
    (λ h. All-map (λ a. (same a).0) xs (to h), λ h. from (All-map (λ a. (same a).1) xs h))

routes_iff :
    (cs : List Config.ClientEntry) (us : List Config.UpstreamEntry)
    → ((Config.is_empty cs && Config.is_empty us) ≡ false) ↔ ((cs ≢ []) ⊎ (us ≢ []))
routes_iff [] [] = ground arith
routes_iff [] (u ∷ us) = ground arith
routes_iff (c ∷ cs) us = ground arith

-- The checks of a configuration, each on its own.
record Passes (cfg : Config.ServerConfig) : Type 0 where
  routes : (Config.is_empty cfg.clients && Config.is_empty cfg.upstreams) ≡ false
  clients : Distinct [] (map (λ c. c.name) cfg.clients)
  hosts : Distinct [] (map (λ h. h.host) cfg.hostnames ++ map (λ u. u.host) cfg.upstreams)
  targets : for_each Config.validate_target cfg.upstreams ≡ ok tt
  names : for_each Config.validate_hostname_pattern cfg.hostnames ≡ ok tt
  patterns : for_each Config.validate_upstream_pattern cfg.upstreams ≡ ok tt
  certs : for_each Config.validate_host_cert (Config.host_certs cfg) ≡ ok tt
  owners : for_each (Config.validate_client cfg) cfg.hostnames ≡ ok tt
  contact : Config.validate_acme cfg ≡ ok tt

-- The set that a successful loop leaves.
insert_all-after :
    {E : Type 0} (error : Text → E) (seen xs out : List Text)
    → insert_all error seen xs ≡ ok out
    → out ≡ after seen xs
insert_all-after error seen xs out h =
    cc (h, insert_all-of-Distinct error seen xs (insert_all-eq-ok error seen xs out h))

validate-Passes : (cfg : Config.ServerConfig) → Config.validate cfg ≡ ok tt → Passes cfg
unfolding Config.validate Config.validate_upstream_targets Config.validate_host_patterns
    Config.validate_host_certs
validate-Passes cfg h =
    let (some_route, h1) = >>-eq-ok (reject _ _) _ h in
    let (names_seen, named, h2) = >>=-eq-ok (insert_all _ _ _) _ h1 in
    let (hosts_seen, hosted, h3) = >>=-eq-ok (insert_all _ _ _) _ h2 in
    let (all_seen, fronted, h4) = >>=-eq-ok (insert_all _ _ _) _ h3 in
    let (targeted, h5) = >>-eq-ok (for_each _ _) _ h4 in
    let (patterned, h6) = >>-eq-ok (for_each _ _ >> for_each _ _) _ h5 in
    let (plain, wild) = >>-eq-ok (for_each _ _) (for_each _ _) patterned in
    let (paired, h7) = >>-eq-ok (for_each _ _) _ h6 in
    let (owned, contacted) = >>-eq-ok (for_each _ _) _ h7 in
    let seen_eq = insert_all-after Config.duplicate_host [] _ hosts_seen hosted in
    record {
      routes = (reject_iff _ _).0 some_route;
      clients = insert_all-eq-ok Config.duplicate_client [] _ names_seen named;
      hosts = (Distinct-append [] (map (λ h. h.host) cfg.hostnames) _).1 (
        insert_all-eq-ok Config.duplicate_host [] _ hosts_seen hosted,
        subst (λ s. Distinct s (map (λ u. u.host) cfg.upstreams)) seen_eq
            (insert_all-eq-ok Config.duplicate_host hosts_seen _ all_seen fronted),
      );
      targets = targeted;
      names = plain;
      patterns = wild;
      certs = paired;
      owners = owned;
      contact = contacted;
    }

Passes-validate : (cfg : Config.ServerConfig) → Passes cfg → Config.validate cfg ≡ ok tt
unfolding Config.validate Config.validate_upstream_targets Config.validate_host_patterns
    Config.validate_host_certs
Passes-validate cfg p =
    let (hosted, fronted) = (Distinct-append [] (map (λ h. h.host) cfg.hostnames) _).0 p.hosts in
    rw (
      p.routes,
      insert_all-of-Distinct Config.duplicate_client [] _ p.clients,
      insert_all-of-Distinct Config.duplicate_host [] _ hosted,
      insert_all-of-Distinct Config.duplicate_host _ _ fronted,
      p.targets,
      p.names,
      p.patterns,
      p.certs,
      p.owners,
      p.contact,
    )

-- A configuration passes the validation exactly when it is valid: it has clients or upstreams, client
-- names are unique, host names are unique over tunnels and upstreams together, each upstream has
-- one target and a name, `*.name` or `*` for a host, each tunnel host has no `*` and
-- belongs to a known client, each cert comes with its key and in a terminating mode, and an ACME
-- contact is a `mailto:` URL.
pub validate_iff : (cfg : Config.ServerConfig) → (Config.validate cfg ≡ ok tt) ↔ IsValid cfg
validate_iff cfg = (to, from)
  where
    to : Config.validate cfg ≡ ok tt → IsValid cfg
    to h =
        let p = validate-Passes cfg h in
        record {
          routes = (routes_iff cfg.clients cfg.upstreams).0 p.routes;
          clients = (Distinct-Unique _).0 p.clients;
          hosts = (Distinct-Unique _).0 p.hosts;
          targets = (All-iff Config.validate_target validate_target_iff cfg.upstreams).0 p.targets;
          names =
              (All-iff Config.validate_hostname_pattern validate_hostname_pattern_iff
                  cfg.hostnames).0
                p.names;
          patterns =
              (All-iff Config.validate_upstream_pattern validate_upstream_pattern_iff
                  cfg.upstreams).0
                p.patterns;
          certs =
              (All-iff Config.validate_host_cert validate_host_cert_iff (Config.host_certs cfg)).0
                p.certs;
          owners =
              (All-iff (Config.validate_client cfg) (validate_client_iff cfg) cfg.hostnames).0
                p.owners;
          contact = (validate_acme_iff cfg).0 p.contact;
        }

    from : IsValid cfg → Config.validate cfg ≡ ok tt
    from v = Passes-validate cfg (record {
      routes = (routes_iff cfg.clients cfg.upstreams).1 v.routes;
      clients = (Distinct-Unique _).1 v.clients;
      hosts = (Distinct-Unique _).1 v.hosts;
      targets = (All-iff Config.validate_target validate_target_iff cfg.upstreams).1 v.targets;
      names =
          (All-iff Config.validate_hostname_pattern validate_hostname_pattern_iff cfg.hostnames).1
            v.names;
      patterns =
          (All-iff Config.validate_upstream_pattern validate_upstream_pattern_iff cfg.upstreams).1
            v.patterns;
      certs =
          (All-iff Config.validate_host_cert validate_host_cert_iff (Config.host_certs cfg)).1
            v.certs;
      owners =
          (All-iff (Config.validate_client cfg) (validate_client_iff cfg) cfg.hostnames).1 v.owners;
      contact = (validate_acme_iff cfg).1 v.contact;
    })
