-- ===== src/Server/Started.antt =====
-- What `start` of crates/tuyau-server/src/server.rs has set up when it succeeds, and what it leaves
-- behind when it fails.
use tuyau.Prelude.{
  ◌≡◌, refl, sym, ◌∙◌, inl, inr, List, [], ◌∷◌, ◌++◌, append-nil, Option, none, some, Result, ok,
  err, Result-cases,
}
use tuyau.Prelude.Texts.{Text}
use tuyau.Prelude.Dict.{Dict}
use tuyau.Net.{SocketAddr}
use tuyau.Config.{ServerConfig, validate}
use tuyau.Routes.{from_config}
use tuyau.HostCerts.{load}
use tuyau.Server.Start.{
  PublicSetup, terminated_hostnames, shared_hostnames, build_cert_resolver, load_client_ca,
  resolve_cert_dir, start_public,
}
use tuyau.Server.Tasks.{Task, public_loop, accept_loop, Run, lift, spawn, ◌>>=◌, ◌>>◌}
use tuyau.Server.Life.{
  Host, TunnelServer, acme_tasks, is_multi, checked, start_listener, start_public_of, start_inner,
  start,
}

-- The tasks that stand behind a step: none if it fails.
abbrev pub after : {E A : Type 0} → Result E A → (A → List Task) → List Task
after (ok a) tasks = tasks a
after (err e) tasks = []

module _ {E K M : Type 0} (host : Host E K M) (built_in : Text) (cfg : ServerConfig) where
  -- The ACME loop for the hosts without a cert of their own.
  abbrev pub order_tasks : Dict Text K → List Task
  order_tasks certs =
      acme_tasks cfg.acme (terminated_hostnames cfg)
        (shared_hostnames certs (terminated_hostnames cfg))

  -- The order that is running once the resolver is built.
  abbrev pub ordered : List Task
  ordered = after (load host.build.load_key cfg) λ certs.
      after
        (build_cert_resolver host.build cfg.acme cfg.tls_cert_file cfg.tls_key_file
          (terminated_hostnames cfg) (shared_hostnames certs (terminated_hostnames cfg)))
        λ base. order_tasks certs

  abbrev pub ordered_if_public : Option SocketAddr → List Task
  ordered_if_public none = []
  ordered_if_public (some addr) = ordered

  -- What a start that fails leaves running.
  abbrev pub left_behind : List Task
  left_behind = after (checked host.of_config_error (validate cfg)) λ _.
      after (host.load_or_generate (resolve_cert_dir cfg.tunnel_cert_dir)) λ material.
        after (host.rustls_config material) λ _. after (host.quinn_config material) λ _.
          after (host.bind_endpoint cfg.listen_addr) λ _. ordered_if_public cfg.public_listen_addr

  abbrev pub IsListening : SocketAddr → Run E (SocketAddr × PublicSetup K) → Type 0
  IsListening addr (ok (bound, setup), tasks) =
      (host.bind_public addr ≡ ok bound)
      × (start_public host.build built_in cfg ≡ ok setup)
      × (tasks ≡ order_tasks setup.certs ++ public_loop bound ∷ [])
  IsListening addr (err e, tasks) = tasks ≡ ordered

  start_listener-IsListening :
      (addr : SocketAddr) → IsListening addr (start_listener host built_in cfg addr)
  unfolding start_listener start_public
  start_listener-IsListening addr = elim (Result-cases (load host.build.load_key cfg)) [
    | inr (e, bad) ↦ rw bad (rw (ordered, bad) refl)
    | inl (certs, loaded) ↦
        let terminated = terminated_hostnames cfg in
        let shared = shared_hostnames certs terminated in
        rw loaded
          (elim (Result-cases (
            build_cert_resolver host.build cfg.acme cfg.tls_cert_file cfg.tls_key_file terminated
              shared)) [
                | inr (e, bad) ↦ rw bad (rw (ordered, loaded, bad) refl)
                | inl (base, based) ↦
                    rw based (elim (Result-cases (load_client_ca host.build cfg.client_ca_file)) [
                      | inr (e, bad) ↦
                          rw bad (append-nil (order_tasks certs) ∙ rw (ordered, loaded, based) refl)
                      | inl (needs, known) ↦
                          rw known
                            (elim (Result-cases (host.public_tls base (is_multi base) needs)) [
                              | inr (e, bad) ↦ rw bad (
                                  append-nil (order_tasks certs) ∙ rw (ordered, loaded, based) refl)
                              | inl (done, configured) ↦
                                  rw configured (elim (Result-cases (host.bind_public addr)) [
                                    | inr (e, bad) ↦ rw bad (
                                        append-nil (order_tasks certs)
                                        ∙ rw (ordered, loaded, based) refl)
                                    | inl (bound, listening) ↦ rw listening (
                                      listening,
                                      rw (start_public, loaded, based, known) refl,
                                      refl,
                                    )
                                  ])
                            ])
                    ])
              ])
  ]

  abbrev pub IsPublic : Option SocketAddr → Option (SocketAddr × PublicSetup K) → List Task → Type 0
  IsPublic none none tasks = tasks ≡ []
  IsPublic (some addr) (some p) tasks = IsListening addr (ok p, tasks)
  IsPublic _ _ tasks = ⊥

  abbrev pub IsPublicRun : Option SocketAddr → Run E (Option (SocketAddr × PublicSetup K)) → Type 0
  IsPublicRun o (ok p, tasks) = IsPublic o p tasks
  IsPublicRun o (err e, tasks) = tasks ≡ ordered_if_public o

  start_public_of-IsPublicRun :
      (o : Option SocketAddr) → IsPublicRun o (start_public_of host built_in cfg o)
  start_public_of-IsPublicRun none = refl
  start_public_of-IsPublicRun (some addr) =
      wrap (start_listener host built_in cfg addr) (start_listener-IsListening addr)
    where
      wrap :
          (m : Run E (SocketAddr × PublicSetup K))
          → IsListening addr m
          → IsPublicRun (some addr) (m >>= λ p. lift (ok (some p)))
      wrap (ok p, tasks) h = rw (append-nil tasks) h
      wrap (err e, tasks) h = h

  -- What `start` comes to.
  abbrev pub IsStarted : Run E (TunnelServer K M) → Type 0
  IsStarted (ok server, tasks) =
      (validate cfg ≡ ok tt)
      × (host.bind_endpoint cfg.listen_addr ≡ ok server.local_addr)
      × (server.routes ≡ from_config cfg.hostnames cfg.upstreams)
      × ((before : List Task) × IsPublic cfg.public_listen_addr server.public before
          × (tasks ≡ before ++ accept_loop ∷ []))
  IsStarted (err e, tasks) = tasks ≡ left_behind

  left_behind-started :
      {material : M} {x y : Unit {0}} {local_addr : SocketAddr}
      → validate cfg ≡ ok tt
      → host.load_or_generate (resolve_cert_dir cfg.tunnel_cert_dir) ≡ ok material
      → host.rustls_config material ≡ ok x
      → host.quinn_config material ≡ ok y
      → host.bind_endpoint cfg.listen_addr ≡ ok local_addr
      → left_behind ≡ ordered_if_public cfg.public_listen_addr
  left_behind-started valid loaded tls quic bound =
      rw (left_behind, valid, loaded, tls, quic, bound) refl

  start_inner-IsStarted : validate cfg ≡ ok tt → IsStarted (start_inner host built_in cfg)
  unfolding start_inner
  start_inner-IsStarted valid =
      elim (Result-cases (host.load_or_generate (resolve_cert_dir cfg.tunnel_cert_dir))) [
        | inr (e, bad) ↦ rw bad (rw (left_behind, valid, bad) refl)
        | inl (material, loaded) ↦ rw loaded (elim (Result-cases (host.rustls_config material)) [
          | inr (e, bad) ↦ rw bad (rw (left_behind, valid, loaded, bad) refl)
          | inl (a, tls) ↦ rw tls (elim (Result-cases (host.quinn_config material)) [
            | inr (e, bad) ↦ rw bad (rw (left_behind, valid, loaded, tls, bad) refl)
            | inl (b, quic) ↦ rw quic (elim (Result-cases (host.bind_endpoint cfg.listen_addr)) [
              | inr (e, bad) ↦ rw bad (rw (left_behind, valid, loaded, tls, quic, bad) refl)
              | inl (local_addr, bound) ↦ rw bound (
                  with_public material local_addr bound
                    (left_behind-started valid loaded tls quic bound)
                    (start_public_of host built_in cfg cfg.public_listen_addr)
                    (start_public_of-IsPublicRun cfg.public_listen_addr))
            ])
          ])
        ])
      ]
    where
      with_public :
          (material : M) (local_addr : SocketAddr)
          → host.bind_endpoint cfg.listen_addr ≡ ok local_addr
          → left_behind ≡ ordered_if_public cfg.public_listen_addr
          → (m : Run E (Option (SocketAddr × PublicSetup K))) → IsPublicRun cfg.public_listen_addr m
          → IsStarted (
              m >>= λ public.
              spawn (accept_loop ∷ [])
              >> lift (
                  ok (record {
                    local_addr = local_addr;
                    material = material;
                    routes = from_config cfg.hostnames cfg.upstreams;
                    public = public;
                  })))
      with_public material local_addr bound left (ok p, tasks) h =
          (valid, bound, refl, (tasks, h, refl))
      with_public material local_addr bound left (err e, tasks) h = h ∙ sym left

  -- A server starts only with a valid configuration, bound to its address; its public listener is
  -- bound and set up, and its loop runs, exactly if one is configured, and the accept loop of the
  -- tunnels is spawned last. A start that fails leaves no accept loop behind. What it leaves is the
  -- loop of the ACME order of the hosts without a cert of their own, if ACME has such hosts and the
  -- listener's resolver was built before the failure, and else nothing.
  pub start-IsStarted : IsStarted (start host built_in cfg)
  unfolding start
  start-IsStarted = elim (Result-cases (validate cfg)) [
    | inr (e, bad) ↦ rw bad (rw (left_behind, bad) refl)
    | inl (a, valid) ↦ rw valid (start_inner-IsStarted valid)
  ]
