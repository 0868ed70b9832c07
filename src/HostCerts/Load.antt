-- ===== src/HostCerts/Load.antt =====
-- The cache of crates/tuyau-server/src/host_certs.rs changes no result.
use tuyau.Prelude.{
  ◌≡◌, refl, sym, ap, ◌∙◌, subst, inl, inr, List, [], ◌∷◌, none, some, ◌==◌, text_eq, if◌then◌else◌,
  Bool-cases, Option-cases, ==_eq, Result, ok, err, ◌>>=◌,
}
use tuyau.Prelude.Texts.{Text, to_ascii_lowercase}
use tuyau.Prelude.Dict.{Dict, get, insert, get-insert}
use tuyau.Config.{ServerConfig, HostCert, host_certs}
use tuyau.HostCerts.{pair_eq, load_once, load_all, load}

module _ {E K : Type 0} (load_key : Text → Text → Result E K) where
  -- The same loop without a cache.
  pub load_each : List HostCert → Dict Text K → Result E (Dict Text K)
  load_each [] certs = ok certs
  load_each (c ∷ cs) certs = elim c.cert [
    | none ↦ load_each cs certs
    | some cert ↦ elim c.key [
      | none ↦ load_each cs certs
      | some key ↦ load_key cert key >>= λ certified.
          load_each cs (insert (to_ascii_lowercase c.host) certified certs)
    ]
  ]

  -- What the cache holds, the files give.
  abbrev Agrees : Dict (Text × Text) K → Type 0
  Agrees loaded = (p : Text × Text) (k : K) → get p loaded ≡ some k → load_key p.0 p.1 ≡ ok k

  Agrees-insert :
      (p : Text × Text) (k : K) (loaded : Dict (Text × Text) K)
      → load_key p.0 p.1 ≡ ok k
      → Agrees loaded
      → Agrees (insert p k loaded)
  Agrees-insert p k loaded e a q k' h = elim (Bool-cases (p == q)) [
    | inl same ↦
        let found : some k ≡ some k' =
          ap (λ b. if b then some k else get q loaded) (sym same)
          ∙ sym (get-insert p q k loaded)
          ∙ h in
        let kk : k ≡ k' = cc found in
        subst (λ r. load_key r.0 r.1 ≡ ok k') (==_eq p q same) (e ∙ ap ok kk)
    | inr other ↦ a q k' (
        ap (λ b. if b then some k else get q loaded) (sym other)
        ∙ sym (get-insert p q k loaded)
        ∙ h)
  ]

  load_all-load_each :
      (cs : List HostCert) (loaded : Dict (Text × Text) K) (certs : Dict Text K)
      → Agrees loaded
      → load_all load_key cs loaded certs ≡ load_each cs certs
  unfolding load_all load_each load_once
  load_all-load_each [] loaded certs a = refl
  load_all-load_each (c ∷ cs) loaded certs a = elim (Option-cases c.cert) [
    | inl no_cert ↦ rw (no_cert, load_all, load_each) (load_all-load_each cs loaded certs a)
    | inr (cert, has_cert) ↦
        rw (has_cert, load_all, load_each)
          (elim (Option-cases c.key) [
            | inl no_key ↦ rw no_key (load_all-load_each cs loaded certs a)
            | inr (key, has_key) ↦ rw has_key (elim (Option-cases (get (cert, key) loaded)) [
              | inl missing ↦ rw missing (
                  first cert key (load_key cert key) λ k e.
                    load_all-load_each cs (insert (cert, key) k loaded)
                      (insert (to_ascii_lowercase c.host) k certs)
                      (Agrees-insert (cert, key) k loaded e a))
              | inr (k, found) ↦
                  rw (found, a (cert, key) k found)
                    (load_all-load_each cs loaded (insert (to_ascii_lowercase c.host) k certs) a)
            ])
          ])
  ]
    where
      with_cache : K × Dict (Text × Text) K → Result E (K × Dict (Text × Text) K)
      with_cache q = ok q

      first :
          (cert key : Text) (r : Result E K)
          → ((k : K)
              → r ≡ ok k
              → load_all load_key cs
                  (insert (cert, key) k loaded)
                  (insert (to_ascii_lowercase c.host) k certs)
                ≡ load_each cs (insert (to_ascii_lowercase c.host) k certs))
          → ((r >>= λ k. with_cache (k, insert (cert, key) k loaded)) >>= λ q.
              load_all load_key cs q.1 (insert (to_ascii_lowercase c.host) q.0 certs))
            ≡ (r >>= λ k. load_each cs (insert (to_ascii_lowercase c.host) k certs))
      first cert key (err x) ih = refl
      first cert key (ok k) ih = ih k refl

  -- Loading each pair of files once, however many entries share it, gives the certs and the error
  -- that loading them for every entry would give, as long as the files do not change.
  pub load-load_each : (cfg : ServerConfig) → load load_key cfg ≡ load_each (host_certs cfg) []
  unfolding load get
  load-load_each cfg = load_all-load_each (host_certs cfg) [] [] (λ p k h. absurd (empty p k h))
    where
      empty : (p : Text × Text) (k : K) → get {K = Text × Text} {V = K} p [] ≡ some k → ⊥
      empty p k h = cc
