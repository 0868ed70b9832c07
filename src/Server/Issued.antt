-- ===== src/Server/Issued.antt =====
-- Which domains `AcmeController::ensure` of crates/tuyau-server/src/server.rs has certs for.
use tuyau.Prelude.{
  ◌≡◌, refl, sym, ap, ◌∙◌, subst, inl, inr, Bool, true, false, not, ◌&&◌, ◌||◌, List, [], ◌∷◌, map,
  Option, none, some, arith, if◌then◌else◌, ◌==◌, text_eq, text_beq_iff, ==_refl, ==_eq, is_some,
  or_else, retain, contains, Bool-cases, Result, ok, err,
}
use mathlib.Core.Bool.{false≢true}
use tuyau.Prelude.Texts.{Text, to_ascii_lowercase}
use tuyau.Prelude.Dict.{get, get-insert}
use tuyau.Server.{Resolver, AcmeController, start_order, ensure_one, ensure}

-- `Result::ok`
abbrev pub to_option {ℓ κ} : {E : Type κ} {A : Type ℓ} → Result E A → Option A
to_option (ok a) = some a
to_option (err e) = none

contains-retain_other :
    (d x : Text) (xs : List Text)
    → contains (retain (λ y. not (y == d)) xs) x ≡ (contains xs x && not (x == d))
unfolding contains retain
contains-retain_other d x [] = refl
contains-retain_other d x (y ∷ xs) =
    ground
      (arith, text_beq_iff y d, text_beq_iff y x, text_beq_iff x d, contains-retain_other d x xs)

module _ {K : Type 0} where
  -- The set of the domains and the map of their resolvers agree, and no domain of the configuration
  -- is among them.
  pub record IsIssued (c : AcmeController K) : Type 0 where
    pub matched : (d : Text) → contains c.added d ≡ is_some (get d c.multi.dynamic)
    pub config_free : (d : Text) → contains c.static_domains d ≡ true → get d c.multi.dynamic ≡ none

module _ {E K : Type 0} (build : Text → Result E (Resolver K)) where
  -- The order for a domain, if one is called for.
  abbrev pub ordered : Bool → Text → Option (Resolver K)
  ordered called d = if called then to_option (build d) else none

  start_order-get :
      (made : Result E (Resolver K)) (d x : Text) (c : AcmeController K)
      → get x (start_order made d c).multi.dynamic ≡ (
          if d == x
          then or_else (to_option made) (get x c.multi.dynamic)
          else get x c.multi.dynamic)
  unfolding start_order
  start_order-get (ok r) d x c = get-insert d x r c.multi.dynamic
  start_order-get (err e) d x c = ground arith

  start_order-contains :
      (made : Result E (Resolver K)) (d x : Text) (c : AcmeController K)
      → contains c.added d ≡ false
      → contains (start_order made d c).added x
        ≡ (contains c.added x || ((d == x) && is_some (to_option made)))
  unfolding start_order contains
  start_order-contains (ok r) d x c fresh = ground arith
  start_order-contains (err e) d x c fresh =
      ground (arith, contains-retain_other d x (d ∷ c.added), text_beq_iff d x, text_beq_iff x d)

  ensure_one-get :
      (d x : Text) (c : AcmeController K)
      → IsIssued c
      → get x (ensure_one build d c).multi.dynamic
        ≡ or_else
            (get x c.multi.dynamic)
            (ordered ((d == x) && not (contains c.static_domains x)) x)
  unfolding ensure_one
  ensure_one-get d x c i = elim (Bool-cases (d == x)) [
    | inl same ↦
        subst
          (λ (y : Text).
            get y (ensure_one build d c).multi.dynamic
            ≡ or_else (get y c.multi.dynamic)
                (ordered ((d == y) && not (contains c.static_domains y)) y))
          (==_eq d x same)
          (ground (arith, ==_refl d, i.matched d, i.config_free d, start_order-get (build d) d d c))
    | inr other ↦ rw other (ground (arith, other, start_order-get (build d) d x c))
  ]

  ensure_one-static :
      (d : Text) (c : AcmeController K) → (ensure_one build d c).static_domains ≡ c.static_domains
  unfolding ensure_one start_order
  ensure_one-static d c = ground arith

  ensure_one-static_resolver :
      (d : Text) (c : AcmeController K)
      → (ensure_one build d c).multi.static_resolver ≡ c.multi.static_resolver
  unfolding ensure_one start_order
  ensure_one-static_resolver d c = ground arith

  start_order-static :
      (made : Result E (Resolver K)) (d : Text) (c : AcmeController K)
      → (start_order made d c).static_domains ≡ c.static_domains
  unfolding start_order
  start_order-static (ok r) d c = refl
  start_order-static (err e) d c = refl

  start_order-IsIssued :
      (made : Result E (Resolver K)) (d : Text) (c : AcmeController K)
      → contains c.static_domains d ≡ false
      → contains c.added d ≡ false
      → IsIssued c
      → IsIssued (start_order made d c)
  start_order-IsIssued made d c not_config fresh i = record {
    matched = λ x.
        rw (start_order-contains made d x c fresh, start_order-get made d x c)
          (ground (arith, i.matched x));
    config_free = λ x is_config.
        let config : contains c.static_domains x ≡ true =
          ap (λ (ds : List Text). contains ds x) (sym (start_order-static made d c)) ∙ is_config in
        rw (start_order-get made d x c) (elim (Bool-cases (d == x)) [
          | inl same ↦ absurd (
              false≢true (
                sym not_config
                ∙ subst (λ (y : Text). contains c.static_domains y ≡ true) (sym (==_eq d x same))
                    config))
          | inr other ↦ rw other (i.config_free x config)
        ]);
  }

  ensure_one-IsIssued :
      (d : Text) (c : AcmeController K) → IsIssued c → IsIssued (ensure_one build d c)
  unfolding ensure_one
  ensure_one-IsIssued d c i = elim (Bool-cases (contains c.static_domains d)) [
    | inl config ↦ rw config i
    | inr not_config ↦ elim (Bool-cases (contains c.added d)) [
      | inl old ↦ rw (not_config, old) i
      | inr fresh ↦ rw (not_config, fresh) (start_order-IsIssued (build d) d c not_config fresh i)
    ]
  ]

  pub ensure-IsIssued :
      (domains : List Text) (c : AcmeController K) → IsIssued c → IsIssued (ensure build domains c)
  unfolding ensure
  ensure-IsIssued [] c i = i
  ensure-IsIssued (raw ∷ domains) c i =
      ensure-IsIssued domains (ensure_one build (to_ascii_lowercase raw) c)
        (ensure_one-IsIssued (to_ascii_lowercase raw) c i)

  pub ensure-static :
      (domains : List Text) (c : AcmeController K)
      → (ensure build domains c).static_domains ≡ c.static_domains
  unfolding ensure
  ensure-static [] c = refl
  ensure-static (raw ∷ domains) c =
      ensure-static domains (ensure_one build (to_ascii_lowercase raw) c)
      ∙ ensure_one-static (to_ascii_lowercase raw) c

  pub ensure-static_resolver :
      (domains : List Text) (c : AcmeController K)
      → (ensure build domains c).multi.static_resolver ≡ c.multi.static_resolver
  unfolding ensure
  ensure-static_resolver [] c = refl
  ensure-static_resolver (raw ∷ domains) c =
      ensure-static_resolver domains (ensure_one build (to_ascii_lowercase raw) c)
      ∙ ensure_one-static_resolver (to_ascii_lowercase raw) c

  -- After `ensure`, a name has the resolver that it had before; a name without one has a new one
  -- exactly if it is among the domains, in any case, is not a host of the configuration, and its
  -- order could be started. No other name has one.
  pub ensure-get :
      (domains : List Text) (x : Text) (c : AcmeController K)
      → IsIssued c
      → get x (ensure build domains c).multi.dynamic
        ≡ or_else (get x c.multi.dynamic) (
            ordered
              (contains (map to_ascii_lowercase domains) x && not (contains c.static_domains x))
              x)
  unfolding ensure contains
  ensure-get [] x c i = ground arith
  ensure-get (raw ∷ domains) x c i =
      let d = to_ascii_lowercase raw in
      rw
        (
          ensure-get domains x (ensure_one build d c) (ensure_one-IsIssued d c i),
          ensure_one-get d x c i,
          ensure_one-static d c,
        )
        (ground arith)

  -- A second call with the same domains, whose orders start or fail as before, changes the resolver
  -- of no name.
  pub ensure-again :
      (domains : List Text) (x : Text) (c : AcmeController K)
      → IsIssued c
      → get x (ensure build domains (ensure build domains c)).multi.dynamic
        ≡ get x (ensure build domains c).multi.dynamic
  ensure-again domains x c i =
      rw
        (
          ensure-get domains x (ensure build domains c) (ensure-IsIssued domains c i),
          ensure-static domains c,
          ensure-get domains x c i,
        )
        (ground arith)
