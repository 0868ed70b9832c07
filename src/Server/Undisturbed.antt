-- ===== src/Server/Undisturbed.antt =====
-- The certs of the public listener while `set_terminated_domains` of
-- crates/tuyau-server/src/server.rs provisions domains.
use tuyau.Prelude.{
  ◌≡◌, refl, ap, ◌∙◌, subst, true, false, List, [], ◌∷◌, map, Option, none, some, text_eq, or_else,
  contains, contains_iff, Has, Has-map, Result, ok, >>=-eq-ok, ok_inj,
}
use tuyau.Prelude.Texts.{Text, to_ascii_lowercase}
use tuyau.Prelude.Dict.{Dict, get}
use tuyau.Config.{ServerConfig, AcmeSection}
use tuyau.Routes.{is_terminated, set_terminated}
use tuyau.HostCerts
use tuyau.HostCerts.{select, load, resolver}
use tuyau.Server.{Resolver, AcmeController, resolve, ensure}
use tuyau.Server.Start.{
  Builders, Base, fixed, multi, PublicSetup, terminated_hostnames, shared_hostnames, build_static,
  build_combined, build_acme, build_cert_resolver, start_public, base_resolver, cert_for,
  ensure_base, set_terminated_domains, load_client_ca,
}
use tuyau.Server.Issued.{
  IsIssued, ensure-IsIssued, ensure-static, ensure-get, ensure-static_resolver,
}

-- A call of `set_terminated_domains`, and which orders can be started then.
abbrev pub Provision : Type 0 → Type 0 → Type 0
Provision E K = (Text → Result E (Resolver K)) × List Text

contains-to_ascii_lowercase :
    (domain : Text) (domains : List Text)
    → Has domain domains
    → contains (map to_ascii_lowercase domains) (to_ascii_lowercase domain) ≡ true
contains-to_ascii_lowercase domain domains has =
    (contains_iff (map to_ascii_lowercase domains) (to_ascii_lowercase domain)).1
      (Has-map to_ascii_lowercase domain domains has)

module _ {K : Type 0} where
  -- A resolver over a controller whose sets agree and whose config hosts are these.
  abbrev pub IsBase : List Text → Base K → Type 0
  IsBase hosts (fixed r) = Unit
  IsBase hosts (multi c) = IsIssued c × (c.static_domains ≡ map to_ascii_lowercase hosts)

  resolver-cong :
      (certs : Dict Text K) (a b : Resolver K) (sni : Text)
      → a (some sni) ≡ b (some sni)
      → resolver certs a (some sni) ≡ resolver certs b (some sni)
  unfolding resolver HostCerts.resolve
  resolver-cong [] a b sni h = h
  resolver-cong (c ∷ certs) a b sni h = ap (or_else (select (c ∷ certs) sni)) h

  pub new-IsIssued :
      (combined : Resolver K) (hosts : List Text)
      → IsIssued (record {
        multi = record { static_resolver = combined; dynamic = [] };
        static_domains = map to_ascii_lowercase hosts;
        added = [];
      })
  unfolding get contains
  new-IsIssued combined hosts = record { matched = λ d. refl; config_free = λ d config. refl }

  module _ {E : Type 0} (build : Builders E K) where
    build_static-IsBase :
        (hosts : List Text) (cert key : Option Text) (shared : List Text) {base : Base K}
        → build_static build cert key shared ≡ ok base
        → IsBase hosts base
    unfolding build_static
    build_static-IsBase hosts none key shared {base} h =
        let (k, e, made) = >>=-eq-ok (build.generate_public_cert shared) _ h in
        subst (IsBase hosts) (ok_inj made) tt
    build_static-IsBase hosts (some cert) none shared {base} h =
        let (k, e, made) = >>=-eq-ok (build.generate_public_cert shared) _ h in
        subst (IsBase hosts) (ok_inj made) tt
    build_static-IsBase hosts (some cert) (some key) shared {base} h =
        let (k, e, made) = >>=-eq-ok (build.load_chain cert key) _ h in
        subst (IsBase hosts) (ok_inj made) tt

    build_acme-IsBase :
        (acme : AcmeSection) (hosts shared : List Text) {base : Base K}
        → build_acme build acme hosts shared ≡ ok base
        → IsBase hosts base
    unfolding build_acme
    build_acme-IsBase acme hosts shared {base} h =
        let (combined, e, made) = >>=-eq-ok (build_combined build acme shared) _ h in
        subst (IsBase hosts) (ok_inj made) (new-IsIssued combined hosts, refl)

    build_cert_resolver-IsBase :
        (acme : Option AcmeSection) (cert key : Option Text) (hosts shared : List Text)
        {base : Base K}
        → build_cert_resolver build acme cert key hosts shared ≡ ok base
        → IsBase hosts base
    unfolding build_cert_resolver
    build_cert_resolver-IsBase none cert key hosts shared h =
        build_static-IsBase hosts cert key shared h
    build_cert_resolver-IsBase (some acme) cert key [] shared h =
        build_static-IsBase [] cert key shared h
    build_cert_resolver-IsBase (some acme) cert key (host ∷ hosts) shared h =
        build_acme-IsBase acme (host ∷ hosts) shared h

    start_public-IsBase :
        (built_in : Text) (cfg : ServerConfig) {p : PublicSetup K}
        → start_public build built_in cfg ≡ ok p
        → IsBase (terminated_hostnames cfg) p.base
    unfolding start_public
    start_public-IsBase built_in cfg {p} h =
        let (certs, loaded, h1) = >>=-eq-ok (load build.load_key cfg) _ h in
        let (base, built, h2) =
          >>=-eq-ok
            (build_cert_resolver build cfg.acme cfg.tls_cert_file cfg.tls_key_file
              (terminated_hostnames cfg) (shared_hostnames certs (terminated_hostnames cfg)))
            _ h1 in
        let (needed, read, made) = >>=-eq-ok (load_client_ca build cfg.client_ca_file) _ h2 in
        subst (λ (q : PublicSetup K). IsBase (terminated_hostnames cfg) q.base) (ok_inj made)
          (build_cert_resolver-IsBase cfg.acme cfg.tls_cert_file cfg.tls_key_file
            (terminated_hostnames cfg) (shared_hostnames certs (terminated_hostnames cfg)) built)

  module _ {E : Type 0} where
    abbrev pub run : List (Provision E K) → PublicSetup K → PublicSetup K
    run [] p = p
    run ((build, domains) ∷ calls) p = run calls (set_terminated_domains build domains p)

    ensure_base-IsBase :
        (build : Text → Result E (Resolver K)) (domains hosts : List Text) (base : Base K)
        → IsBase hosts base
        → IsBase hosts (ensure_base build domains base)
    ensure_base-IsBase build domains hosts (fixed r) i = tt
    ensure_base-IsBase build domains hosts (multi c) (i, same) =
        (ensure-IsIssued build domains c i, ensure-static build domains c ∙ same)

    -- One call leaves the certs of the config hosts.
    ensure_base-keeps :
        (build : Text → Result E (Resolver K)) (domains hosts : List Text) (base : Base K)
        (sni : Text)
        → IsBase hosts base
        → contains (map to_ascii_lowercase hosts) (to_ascii_lowercase sni) ≡ true
        → base_resolver (ensure_base build domains base) (some sni) ≡ base_resolver base (some sni)
    unfolding resolve
    ensure_base-keeps build domains hosts (fixed r) sni i config = refl
    ensure_base-keeps build domains hosts (multi c) sni (i, same) config =
        let name = to_ascii_lowercase sni in
        let gone : get name c.multi.dynamic ≡ none =
          i.config_free name (ap (λ (ds : List Text). contains ds name) same ∙ config) in
        let still_gone : get name (ensure build domains c).multi.dynamic ≡ none =
          (ensure-IsIssued build domains c i).config_free name (
            ap (λ (ds : List Text). contains ds name) (ensure-static build domains c ∙ same)
            ∙ config) in
        rw (gone, still_gone)
          (ap (λ (r : Resolver K). r (some sni)) (ensure-static_resolver build domains c))

    cert_for-keeps :
        (calls : List (Provision E K)) (hosts : List Text) (p : PublicSetup K) (sni : Text)
        → IsBase hosts p.base
        → contains (map to_ascii_lowercase hosts) (to_ascii_lowercase sni) ≡ true
        → cert_for (run calls p) (some sni) ≡ cert_for p (some sni)
    unfolding cert_for set_terminated_domains
    cert_for-keeps [] hosts p sni i config = refl
    cert_for-keeps ((build, domains) ∷ calls) hosts p sni i config =
        cert_for-keeps calls hosts (set_terminated_domains build domains p) sni
          (ensure_base-IsBase build domains hosts p.base i) config
        ∙ resolver-cong p.certs (base_resolver (ensure_base build domains p.base))
            (base_resolver p.base) sni (ensure_base-keeps build domains hosts p.base sni i config)

  -- However domains are provisioned after the start, the cert for a host that the configuration
  -- terminates, in any case of its letters, stays what it was.
  pub cert_for-run :
      {E F : Type 0} (build : Builders E K) (built_in : Text) (cfg : ServerConfig)
      {p : PublicSetup K} (calls : List (Provision F K)) (host sni : Text)
      → start_public build built_in cfg ≡ ok p
      → Has host (terminated_hostnames cfg)
      → to_ascii_lowercase sni ≡ to_ascii_lowercase host
      → cert_for (run calls p) (some sni) ≡ cert_for p (some sni)
  cert_for-run build built_in cfg {p} calls host sni started has same =
      let hosts = terminated_hostnames cfg in
      cert_for-keeps calls hosts p sni (start_public-IsBase build built_in cfg started) (
        ap (contains (map to_ascii_lowercase hosts)) same
        ∙ contains-to_ascii_lowercase host hosts has)

  resolver-uncovered :
      (certs : Dict Text K) (d : Resolver K) (sni : Text)
      → select certs sni ≡ none
      → resolver certs d (some sni) ≡ d (some sni)
  unfolding resolver HostCerts.resolve
  resolver-uncovered [] d sni h = refl
  resolver-uncovered (c ∷ certs) d sni h = rw h refl

  ensure-serves :
      {E : Type 0} (build : Text → Result E (Resolver K)) (domains : List Text)
      (c : AcmeController K) {r : Resolver K} (name : Text)
      → IsIssued c
      → contains (map to_ascii_lowercase domains) name ≡ true
      → contains c.static_domains name ≡ false
      → get name c.multi.dynamic ≡ none
      → build name ≡ ok r
      → get name (ensure build domains c).multi.dynamic ≡ some r
  ensure-serves build domains c {r} name i named new none_yet started =
      rw (ensure-get build domains name c i, named, new, none_yet, started) refl

  -- Where ACME is active, one call of `set_terminated_domains` serves a new domain: from then on
  -- its SNI, in any case, is terminated and gets the resolver of the domain's own order, if that
  -- could be started and no host cert of the configuration covers it.
  pub set_terminated_domains-serves :
      {E : Type 0} (build : Text → Result E (Resolver K)) (domains : List Text) (p : PublicSetup K)
      {c : AcmeController K} {r : Resolver K} (domain sni : Text)
      → p.base ≡ multi c
      → IsIssued c
      → Has domain domains
      → to_ascii_lowercase sni ≡ to_ascii_lowercase domain
      → contains c.static_domains (to_ascii_lowercase domain) ≡ false
      → get (to_ascii_lowercase domain) c.multi.dynamic ≡ none
      → build (to_ascii_lowercase domain) ≡ ok r
      → select p.certs sni ≡ none
      → (cert_for (set_terminated_domains build domains p) (some sni) ≡ r (some sni))
        × (is_terminated (set_terminated_domains build domains p).routes sni ≡ true)
  unfolding cert_for set_terminated_domains resolve is_terminated set_terminated
  set_terminated_domains-serves build domains p {c} {r} domain sni base i has same new none_yet
        started uncovered =
      let name = to_ascii_lowercase domain in
      let named = contains-to_ascii_lowercase domain domains has in
      let served = ensure-serves build domains c name i named new none_yet started in
      (
        resolver-uncovered p.certs (base_resolver (ensure_base build domains p.base)) sni uncovered
            ∙ rw (base, same, served) refl,
        rw (same, named) refl,
      )
