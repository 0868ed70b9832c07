-- ===== src/Server/Orders.antt =====
-- The ACME order that `start` of crates/tuyau-server/src/server.rs makes, and what a start leaves
-- running.
use tuyau.Prelude.{
  ◌≡◌, refl, sym, subst, ◌⊎◌, inl, inr, ◌↔◌, Bool, true, false, List, [], ◌∷◌, ◌++◌, Option, none,
  some, arith, not, ◌&&◌, nat_eq, retain, map, contains, contains_iff, Has, Has-map, Has-retain,
  Result, ok, err, Result-cases, Bool-cases, unwrap_or,
}
use tuyau.Prelude.Texts.{Text, bytes}
use tuyau.Prelude.Dict.{Dict}
use tuyau.Net.{SocketAddr}
use tuyau.Protocol.Frame.{TlsMode, terminated, tls_offload, passthrough, terminates}
use tuyau.Config.{ServerConfig, AcmeSection, HostCert, host_certs, validate}
use tuyau.Routes.{from_config}
use tuyau.HostCerts.{covers, load}
use tuyau.Server.Start.{
  PublicSetup, terminated_hostnames, shared_hostnames, build_cert_resolver, start_public,
}
use tuyau.Server.Tasks.{Task, acme_loop, public_loop, accept_loop, Run}
use tuyau.Server.Life.{Host, TunnelServer, acme_tasks, checked, start}
use tuyau.Server.Started.{ordered_if_public, left_behind, IsPublic, IsStarted, start-IsStarted}

-- A host of the configuration that the server terminates, which is no pattern and has no cert of
-- its own.
abbrev pub IsShared : {K : Type 0} → ServerConfig → Dict Text K → Text → Type 0
IsShared cfg certs h =
    ((c : HostCert) × Has c (host_certs cfg)
      × (c.host ≡ h)
      × ((c.mode ≡ terminated) ⊎ (c.mode ≡ tls_offload)))
    × (Has b'*' h → ⊥)
    × (covers certs h ≡ false)

-- One loop for an order of all shared hosts, if ACME is configured and there are any, else none.
abbrev pub IsOrder : {K : Type 0} → ServerConfig → Dict Text K → List Task → Type 0
IsOrder cfg certs tasks =
    ((acme : AcmeSection) × (first : Text) × (hosts : List Text) × (cfg.acme ≡ some acme)
      × ((h : Text) → Has h (first ∷ hosts) ↔ IsShared cfg certs h)
      × (tasks ≡ acme_loop (first ∷ hosts) ∷ []))
    ⊎ (((acme : AcmeSection) (h : Text) → cfg.acme ≡ some acme → IsShared cfg certs h → ⊥)
        × (tasks ≡ []))

terminates_iff : (m : TlsMode) → (terminates m ≡ true) ↔ ((m ≡ terminated) ⊎ (m ≡ tls_offload))
terminates_iff terminated = (λ h. inl refl, λ h. refl)
terminates_iff tls_offload = (λ h. inr refl, λ h. refl)
terminates_iff passthrough = (λ h. cc, elim [ inl e ↦ cc | inr e ↦ cc ])

Has-map_iff :
    {A B : Type 0} (f : A → B) (b : B) (xs : List A)
    → Has b (map f xs) ↔ ((a : A) × Has a xs × (f a ≡ b))
Has-map_iff f b [] = (λ h. elim h [ ], λ h. elim h.1 [ ])
Has-map_iff f b (x ∷ xs) = (
  elim [
    | inl e ↦ (x, inl refl, e)
    | inr h ↦ let (a, there, e) = (Has-map_iff f b xs).0 h in (a, inr there, e)
  ],
  λ (a, there, e). subst (λ c. Has c (map f (x ∷ xs))) e (Has-map f a (x ∷ xs) there),
)

module _ {K : Type 0} (cfg : ServerConfig) (certs : Dict Text K) where
  shared_hostnames_iff :
      (h : Text) → Has h (shared_hostnames certs (terminated_hostnames cfg)) ↔ IsShared cfg certs h
  unfolding shared_hostnames
  shared_hostnames_iff h = (
    λ x.
        let (there, good) = (Has-retain is_shared h (terminated_hostnames cfg)).0 x in
        let (c, kept, e) =
          (Has-map_iff (λ c. c.host) h (retain (λ c. terminates c.mode) (host_certs cfg))).0
            there in
        let (listed, term) = (Has-retain (λ c. terminates c.mode) c (host_certs cfg)).0 kept in
        (
          (c, listed, e, (terminates_iff c.mode).0 term),
          λ star. ground (arith, good, (contains_iff h b'*').1 star),
          ground (arith, good),
        ),
    λ ((c, listed, e, term), no_star, uncovered).
        (Has-retain is_shared h (terminated_hostnames cfg)).1 (
          (Has-map_iff (λ c. c.host) h (retain (λ c. terminates c.mode) (host_certs cfg))).1 (
            c,
            (Has-retain (λ c. terminates c.mode) c (host_certs cfg)).1
                (listed, (terminates_iff c.mode).1 term),
            e,
          ),
          elim (Bool-cases (contains h b'*')) [
            | inl star ↦ absurd (no_star ((contains_iff h b'*').0 star))
            | inr other ↦ rw (other, uncovered) refl
          ],
        ),
  )
    where
      is_shared : Text → Bool
      is_shared host = not (contains host b'*') && not (covers certs host)

  shared-terminated :
      (h : Text)
      → Has h (shared_hostnames certs (terminated_hostnames cfg))
      → Has h (terminated_hostnames cfg)
  unfolding shared_hostnames
  shared-terminated h x =
      ((Has-retain (λ host. not (contains host b'*') && not (covers certs host)) h
          (terminated_hostnames cfg)).0
        x).0

  acme_tasks-IsOrder :
      (o : Option AcmeSection) (terms shared : List Text)
      → cfg.acme ≡ o
      → ((h : Text) → Has h shared ↔ IsShared cfg certs h)
      → ((h : Text) → Has h shared → Has h terms)
      → IsOrder cfg certs (acme_tasks o terms shared)
  acme_tasks-IsOrder none terms shared e iff sub = inr (λ acme h e'. absurd (cc), refl)
  acme_tasks-IsOrder (some acme) [] [] e iff sub =
      inr (λ other h e' s. elim ((iff h).1 s) [ ], refl)
  acme_tasks-IsOrder (some acme) (t ∷ ts) [] e iff sub =
      inr (λ other h e' s. elim ((iff h).1 s) [ ], refl)
  acme_tasks-IsOrder (some acme) [] (s ∷ ss) e iff sub = elim (sub s (inl refl)) [ ]
  acme_tasks-IsOrder (some acme) (t ∷ ts) (s ∷ ss) e iff sub = inl (acme, s, ss, e, iff, refl)

  configured-IsOrder : IsOrder cfg certs (
      acme_tasks cfg.acme
        (terminated_hostnames cfg)
        (shared_hostnames certs (terminated_hostnames cfg)))
  configured-IsOrder =
      acme_tasks-IsOrder cfg.acme (terminated_hostnames cfg)
        (shared_hostnames certs (terminated_hostnames cfg)) refl shared_hostnames_iff
        shared-terminated

-- What stands behind a step of a start: nothing if it fails.
abbrev pub Behind : {E A : Type 0} → Result E A → (A → List Task → Type 0) → List Task → Type 0
Behind (ok a) P tasks = P a tasks
Behind (err e) P tasks = tasks ≡ []

module _ {E K M : Type 0} (host : Host E K M) (built_in : Text) (cfg : ServerConfig) where
  -- The order stands behind all that comes before it.
  abbrev pub IsLeftPublic : Option SocketAddr → List Task → Type 0
  IsLeftPublic none tasks = tasks ≡ []
  IsLeftPublic (some addr) tasks =
      Behind (load host.build.load_key cfg)
        (λ certs.
          Behind
            (build_cert_resolver host.build cfg.acme cfg.tls_cert_file cfg.tls_key_file
              (terminated_hostnames cfg) (shared_hostnames certs (terminated_hostnames cfg)))
            (λ base. IsOrder cfg certs))
        tasks

  abbrev pub IsLeft : List Task → Type 0
  IsLeft = Behind (checked host.of_config_error (validate cfg)) λ _.
      Behind (host.load_or_generate (unwrap_or cfg.tunnel_cert_dir (bytes "."))) λ material.
        Behind (host.rustls_config material) λ _.
          Behind (host.quinn_config material) λ _.
            Behind (host.bind_endpoint cfg.listen_addr) λ _. IsLeftPublic cfg.public_listen_addr

  ordered-IsLeftPublic :
      (o : Option SocketAddr) → IsLeftPublic o (ordered_if_public host built_in cfg o)
  ordered-IsLeftPublic none = refl
  ordered-IsLeftPublic (some addr) = elim (Result-cases (load host.build.load_key cfg)) [
    | inr (e, bad) ↦ rw bad refl
    | inl (certs, loaded) ↦
        rw loaded
          (elim (Result-cases (
            build_cert_resolver host.build cfg.acme cfg.tls_cert_file cfg.tls_key_file
              (terminated_hostnames cfg) (shared_hostnames certs (terminated_hostnames cfg)))) [
                | inr (e, bad) ↦ rw bad refl
                | inl (base, based) ↦ rw based (configured-IsOrder cfg certs)
              ])
  ]

  left_behind-IsLeft : IsLeft (left_behind host built_in cfg)
  left_behind-IsLeft = elim (Result-cases (checked host.of_config_error (validate cfg))) [
    | inr (e, bad) ↦ rw bad refl
    | inl (_, valid) ↦
        rw valid
          (elim (Result-cases (host.load_or_generate (unwrap_or cfg.tunnel_cert_dir (bytes ".")))) [
            | inr (e, bad) ↦ rw bad refl
            | inl (material, loaded) ↦
                rw loaded (elim (Result-cases (host.rustls_config material)) [
                  | inr (e, bad) ↦ rw bad refl
                  | inl (_, tls) ↦ rw tls (elim (Result-cases (host.quinn_config material)) [
                    | inr (e, bad) ↦ rw bad refl
                    | inl (_, quic) ↦
                        rw quic (elim (Result-cases (host.bind_endpoint cfg.listen_addr)) [
                          | inr (e, bad) ↦ rw bad refl
                          | inl (_, bound) ↦ rw bound (ordered-IsLeftPublic cfg.public_listen_addr)
                        ])
                  ])
                ])
          ])
  ]

  -- What the listener of a start is, and the tasks spawned before the accept loop of the tunnels.
  abbrev pub IsPublicStarted :
      Option SocketAddr → Option (SocketAddr × PublicSetup K) → List Task → Type 0
  IsPublicStarted none none tasks = tasks ≡ []
  IsPublicStarted (some addr) (some (bound, setup)) tasks =
      (host.bind_public addr ≡ ok bound)
      × (start_public host.build built_in cfg ≡ ok setup)
      × ((order : List Task) × IsOrder cfg setup.certs order
          × (tasks ≡ order ++ public_loop bound ∷ []))
  IsPublicStarted _ _ tasks = ⊥

  abbrev pub IsBegun : Run E (TunnelServer K M) → Type 0
  IsBegun (ok server, tasks) =
      (validate cfg ≡ ok tt)
      × (host.bind_endpoint cfg.listen_addr ≡ ok server.local_addr)
      × (server.routes ≡ from_config cfg.hostnames cfg.upstreams)
      × ((before : List Task) × IsPublicStarted cfg.public_listen_addr server.public before
          × (tasks ≡ before ++ accept_loop ∷ []))
  IsBegun (err e, tasks) = IsLeft tasks

  IsPublic-IsPublicStarted :
      (o : Option SocketAddr) (p : Option (SocketAddr × PublicSetup K)) (before : List Task)
      → IsPublic host built_in cfg o p before
      → IsPublicStarted o p before
  IsPublic-IsPublicStarted none none before h = h
  IsPublic-IsPublicStarted (some addr) (some (bound, setup)) before h =
      (h.0, h.1, (_, configured-IsOrder cfg setup.certs, h.2))
  IsPublic-IsPublicStarted none (some p) before h = elim h [ ]
  IsPublic-IsPublicStarted (some addr) none before h = elim h [ ]

  -- A server starts only with a valid configuration, bound to its address; its public listener is
  -- bound and set up, and its loop runs, exactly if one is configured, and the accept loop of the
  -- tunnels is spawned last. The loop of an ACME order runs exactly if ACME is configured, there is a
  -- listener, and it terminates hosts that are no patterns and have no cert of their own, and the
  -- order is for exactly these hosts. A start that fails leaves no accept loop behind: it leaves that
  -- same order's loop if all steps up to the listener's resolver have succeeded, and else nothing.
  pub start-IsBegun : IsBegun (start host built_in cfg)
  start-IsBegun = go (start host built_in cfg) (start-IsStarted host built_in cfg)
    where
      go : (run : Run E (TunnelServer K M)) → IsStarted host built_in cfg run → IsBegun run
      go (ok server, tasks) (valid, bound, routed, (before, p, spawned)) = (
        valid,
        bound,
        routed,
        (before, IsPublic-IsPublicStarted cfg.public_listen_addr server.public before p, spawned),
      )
      go (err e, tasks) left = subst IsLeft (sym left) left_behind-IsLeft
